-- ===== src/Purge/Messages.antt =====
-- A round of `purgeExpiredChatMessages` that removes the messages of a workspace from before a date.
use contractor_reviewer.Common.{
  ℕ, String, Bool, false, not, ◌&&◌, ◌||◌, ◌≡◌, refl, ◌∙◌, ap, arith, List, [], ◌∷◌, Option, none,
  some, if◌then◌else◌, ltb, Bool-cases, inl, inr, In-filter_sound, In-filter_complete,
}
use contractor_reviewer.Repository.{unless}
use contractor_reviewer.Repository.Loops.{remove_all, remove_all-found}
use contractor_reviewer.Entities.{ChatMessage, message_key}
use contractor_reviewer.Purge.{
  Tables, State, Faults, ChatCounts, messages_before, remove_messages, in_workspace,
}
use contractor_reviewer.Purge.Policy.{IsCalm}

module _ (T : Tables) (F : Faults) (new_id : String → String) (now : ℕ)
    (t₀ : T.settings.Table) where
  -- From `s` to `s'` exactly the doomed messages are deleted.
  pub record Pass (doomed : ChatMessage → Bool) (s s' : State T) : Type 0 where
    pub messages :
        (k : String) → T.messages.at s'.messages k ≡ unless doomed (T.messages.at s.messages k)
    pub files : s'.files ≡ s.files
    pub documents : s'.documents ≡ s.documents
    pub chunks : s'.chunks ≡ s.chunks
    pub threads : s'.threads ≡ s.threads
    pub memories : s'.memories ≡ s.memories
    pub storage : s'.storage ≡ s.storage
    pub calm : IsCalm T.settings new_id t₀ s'.settings

  unless-unless :
      (p q : ChatMessage → Bool) (o : Option ChatMessage)
      → unless q (unless p o) ≡ unless (λ m. p m || q m) o
  unless-unless p q none = refl
  unless-unless p q (some m) = ground arith

  unless-false : (o : Option ChatMessage) → o ≡ unless (λ m. false) o
  unless-false none = refl
  unless-false (some m) = refl

  pub Pass-trans :
      (p q : ChatMessage → Bool) (s s' s'' : State T)
      → Pass p s s'
      → Pass q s' s''
      → Pass (λ m. p m || q m) s s''
  Pass-trans p q s s' s'' a b = record {
    messages = λ k.
        b.messages k
        ∙ ap (unless q) (a.messages k)
        ∙ unless-unless p q (T.messages.at s.messages k);
    files = b.files ∙ a.files;
    documents = b.documents ∙ a.documents;
    chunks = b.chunks ∙ a.chunks;
    threads = b.threads ∙ a.threads;
    memories = b.memories ∙ a.memories;
    storage = b.storage ∙ a.storage;
    calm = b.calm;
  }

  pub Pass-none : (s : State T) → IsCalm T.settings new_id t₀ s.settings → Pass (λ m. false) s s
  Pass-none s calm = record {
    messages = λ k. unless-false (T.messages.at s.messages k);
    files = refl;
    documents = refl;
    chunks = refl;
    threads = refl;
    memories = refl;
    storage = refl;
    calm = calm;
  }

  -- The messages of a workspace from before a date.
  abbrev pub is_before : String → ℕ → ChatMessage → Bool
  is_before ws date m = in_workspace ws m && ltb m.created_at date

  module _ (throws : Bool) (ws : String) (date : ℕ) (s : State T) (c : ChatCounts) where
    abbrev removed : State T × ChatCounts
    removed = remove_messages T F new_id now throws (messages_before T F new_id now ws date s) s c

    removed-messages : removed.0.messages ≡ (
        if throws
        then s.messages
        else remove_all message_key T.messages
            (messages_before T F new_id now ws date s)
            s.messages)
    unfolding remove_all
    removed-messages = go (messages_before T F new_id now ws date s)
      where
        go :
            (l : List ChatMessage)
            → (remove_messages T F new_id now throws l s c).0.messages
              ≡ (if throws then s.messages else remove_all message_key T.messages l s.messages)
        go [] = ground arith
        go (m ∷ l) = ground arith

    removed-at :
        (k : String)
        → T.messages.at removed.0.messages k
          ≡ unless (λ m. not throws && is_before ws date m) (T.messages.at s.messages k)
    removed-at k = elim (Bool-cases throws) [
      | inl b ↦ rw (removed-messages, b) (unless-false (T.messages.at s.messages k))
      | inr b ↦
          rw (removed-messages, b)
            (remove_all-found message_key T.messages (in_workspace ws) (λ m. ltb m.created_at date)
              (messages_before T F new_id now ws date s) s.messages k
              (λ r m.
                let (f, o) =
                  In-filter_sound (λ x. ltb x.created_at date) r
                    (T.messages.find (in_workspace ws) s.messages) m in
                let (h, w) = T.messages.find_sound (in_workspace ws) s.messages r f in (h, w, o))
              (λ r h w o.
                In-filter_complete (λ x. ltb x.created_at date) r
                  (T.messages.find (in_workspace ws) s.messages)
                  (T.messages.find_complete (in_workspace ws) s.messages k r h w) o))
    ]

    pub removed-Pass :
        IsCalm T.settings new_id t₀ s.settings
        → Pass (λ m. not throws && is_before ws date m) s removed.0
    removed-Pass calm = record {
      messages = removed-at;
      files = ground arith;
      documents = ground arith;
      chunks = ground arith;
      threads = ground arith;
      memories = ground arith;
      storage = ground arith;
      calm = rw same calm;
    }
      where
        same : removed.0.settings ≡ s.settings
        same = ground arith

  pub Pass-eq :
      (p q : ChatMessage → Bool) (s s' : State T)
      → ((m : ChatMessage) → p m ≡ q m)
      → Pass p s s'
      → Pass q s s'
  Pass-eq p q s s' h a = record {
    messages = λ k. a.messages k ∙ unless-eq (T.messages.at s.messages k);
    files = a.files;
    documents = a.documents;
    chunks = a.chunks;
    threads = a.threads;
    memories = a.memories;
    storage = a.storage;
    calm = a.calm;
  }
    where
      unless-eq : (o : Option ChatMessage) → unless p o ≡ unless q o
      unless-eq none = refl
      unless-eq (some m) = ground (arith, h m)
