-- ===== src/Purge/Threads.antt =====
-- The whole of `purgeExpiredChatMessages`: both passes over the messages, then the empty threads.
use contractor_reviewer.Common.{
  ℕ, String, Bool, false, ◌||◌, ◌≡◌, refl, sym, ◌∙◌, ap, arith, List, [], ◌∷◌, none, some,
  if◌then◌else◌, ◌==◌, any, map, length, Bool-cases, Option-cases, inl, inr, In, In-filter_sound,
  In-filter_complete,
}
use contractor_reviewer.Repository.{unless}
use contractor_reviewer.Repository.Loops.{remove_all, remove_all-found, any-In, In-any}
use contractor_reviewer.Entities.{ChatMessage, thread_key}
use contractor_reviewer.Purge.{
  Tables, State, Faults, ChatCounts, everything, purge_expired_chat_messages, purge_empty_threads,
  distinct, message_workspaces, no_logs_pass, retention_pass, no_chat_counts, is_empty_thread,
  empty_threads, threads_throw,
}
use contractor_reviewer.Purge.Policy.{IsCalm}
use contractor_reviewer.Purge.Messages.{Pass, Pass-trans}
use contractor_reviewer.Purge.Chats.{
  no_logs_doomed, retention_one, retention_doomed, no_logs_loop-Pass, messages_loop-Pass,
}
use text.Mathlib.TextEquality.{eq_iff}

-- Every text of a list is in the list without repetitions.
In-distinct : (x : String) (xs : List String) → In x xs → In x (distinct xs)
unfolding distinct
In-distinct x [] m = absurd m
In-distinct x (y ∷ ys) m = elim (Bool-cases (any (λ z. z == y) ys)) [
  | inr b ↦ rw b (elim m [ inl e ↦ inl e | inr n ↦ inr (In-distinct x ys n) ])
  | inl b ↦
      let (z, n, q) = In-any (λ z. z == y) ys b in
      let same : z ≡ y = (eq_iff z y).0 q in
      rw b (elim m [ inl e ↦ rw (e, ← same) (In-distinct z ys n) | inr n' ↦ In-distinct x ys n' ])
]

In-map : {A B : Type 0} (f : A → B) (x : A) (xs : List A) → In x xs → In (f x) (map f xs)
In-map f x [] m = absurd m
In-map f x (y ∷ xs) (inl e) = inl (ap f e)
In-map f x (y ∷ xs) (inr m) = inr (In-map f x xs m)

module _ (T : Tables) (F : Faults) (new_id : String → String) (now : ℕ)
    (t₀ : T.settings.Table) where
  -- Deleted by the second pass: the message is older than the policy of its workspace allows.
  abbrev pub message_late : ChatMessage → Bool
  message_late m = retention_one T F new_id now t₀ m.workspace_id m

  doomed-late :
      (l : List String) (m : ChatMessage)
      → In m.workspace_id l
      → retention_doomed T F new_id now t₀ l m ≡ message_late m
  doomed-late l m i = elim (Bool-cases (retention_doomed T F new_id now t₀ l m)) [
    | inl b ↦
        let (ws, n, q) = In-any (λ ws. retention_one T F new_id now t₀ ws m) l b in
        let same : m.workspace_id ≡ ws = (eq_iff m.workspace_id ws).0 (ground (arith, q)) in
        b ∙ sym (ap (λ w. retention_one T F new_id now t₀ w m) same ∙ q)
    | inr b ↦ elim (Bool-cases (message_late m)) [
      | inr q ↦ b ∙ sym q
      | inl q ↦ absurd (
          ground
            (arith, b, any-In (λ ws. retention_one T F new_id now t₀ ws m) m.workspace_id l i q))
    ]
  ]

  late-messages :
      (s : State T) (k : String)
      → unless
          (retention_doomed T F new_id now t₀ (message_workspaces T F new_id now s))
          (T.messages.at s.messages k)
        ≡ unless message_late (T.messages.at s.messages k)
  late-messages s k = elim (Option-cases (T.messages.at s.messages k)) [
    | inl e ↦ rw e
    | inr (m, e) ↦
        let listed =
          In-distinct m.workspace_id
            (map (λ x. x.workspace_id) (T.messages.find everything s.messages))
            (In-map (λ (x : ChatMessage). x.workspace_id) m (T.messages.find everything s.messages)
              (T.messages.find_complete everything s.messages k m e refl)) in
        let same = doomed-late (message_workspaces T F new_id now s) m listed in
        rw e (ap (λ b. if b then none else some m) same)
  ]

  module _ (s : State T) where
    -- The state after the first pass, and after both.
    abbrev pub after_no_logs : State T × ChatCounts
    after_no_logs = no_logs_pass T F new_id now s

    abbrev pub after_passes : State T × ChatCounts
    after_passes = retention_pass T F new_id now after_no_logs

    -- Deleted by one of the passes.
    abbrev pub message_doomed : ChatMessage → Bool
    message_doomed m =
        no_logs_doomed T F new_id now t₀ (T.settings.find (λ w. w.no_logs_enabled) s.settings) m
        || message_late m

    passes :
        ((a b : String) → new_id a ≡ new_id b → a ≡ b)
        → IsCalm T.settings new_id t₀ s.settings
        → Pass T F new_id now t₀ message_doomed s after_passes.0
    passes inj calm =
        let l = T.settings.find (λ w. w.no_logs_enabled) s.settings in
        let first = no_logs_loop-Pass T F new_id now t₀ l s (no_chat_counts T F new_id now) calm in
        let second =
          messages_loop-Pass T F new_id now t₀ inj
            (message_workspaces T F new_id now after_no_logs.0) after_no_logs.0 after_no_logs.1
            first.calm in
        Pass-trans T F new_id now t₀ (no_logs_doomed T F new_id now t₀ l) message_late s
          after_no_logs.0 after_passes.0 first
          (record {
            messages = λ k. second.messages k ∙ late-messages after_no_logs.0 k;
            files = second.files;
            documents = second.documents;
            chunks = second.chunks;
            threads = second.threads;
            memories = second.memories;
            storage = second.storage;
            calm = second.calm;
          })

    threads-removed :
        (k : String)
        → T.threads.at
            (remove_all thread_key T.threads
              (empty_threads T F new_id now after_passes.0)
              after_passes.0.threads)
            k
          ≡ unless
              (is_empty_thread T F new_id now after_passes.0)
              (T.threads.at after_passes.0.threads k)
    threads-removed k =
        remove_all-found thread_key T.threads everything
          (is_empty_thread T F new_id now after_passes.0)
          (empty_threads T F new_id now after_passes.0) after_passes.0.threads k
          (λ r m.
            let (f, o) =
              In-filter_sound (is_empty_thread T F new_id now after_passes.0) r
                (T.threads.find everything after_passes.0.threads) m in
            let (h, w) = T.threads.find_sound everything after_passes.0.threads r f in (h, w, o))
          (λ r h w o.
            In-filter_complete (is_empty_thread T F new_id now after_passes.0) r
              (T.threads.find everything after_passes.0.threads)
              (T.threads.find_complete everything after_passes.0.threads k r h w) o)

    pub purge_expired_chat_messages-some :
        threads_throw T F new_id now after_passes.0 ≡ false
        → (c : ChatCounts) × ((purge_expired_chat_messages T F new_id now s).1 ≡ some c)
    unfolding purge_expired_chat_messages purge_empty_threads
    purge_expired_chat_messages-some go = (
      record after_passes.1 {
        empty_threads = length (empty_threads T F new_id now after_passes.0);
      },
      rw (go, purge_expired_chat_messages, purge_empty_threads) refl,
    )

    -- From a state to that after the purge of the chats.
    pub record Purged (s' : State T) : Type 0 where
      pub messages :
          (k : String)
          → T.messages.at s'.messages k ≡ unless message_doomed (T.messages.at s.messages k)
      pub threads :
          (k : String)
          → T.threads.at s'.threads k ≡ (
              if threads_throw T F new_id now after_passes.0
              then T.threads.at s.threads k
              else unless (is_empty_thread T F new_id now s') (T.threads.at s.threads k))
      pub files : s'.files ≡ s.files
      pub documents : s'.documents ≡ s.documents
      pub chunks : s'.chunks ≡ s.chunks
      pub memories : s'.memories ≡ s.memories
      pub storage : s'.storage ≡ s.storage
      pub calm : IsCalm T.settings new_id t₀ s'.settings

    purge_empty_threads-eq : (purge_empty_threads T F new_id now after_passes).0 ≡ (
        if threads_throw T F new_id now after_passes.0
        then after_passes.0
        else record after_passes.0 {
          threads =
              remove_all thread_key T.threads
                (empty_threads T F new_id now after_passes.0)
                after_passes.0.threads;
        })
    unfolding purge_empty_threads
    purge_empty_threads-eq = elim (Bool-cases (threads_throw T F new_id now after_passes.0)) [
      | inl stop ↦ rw (stop, purge_empty_threads) refl
      | inr go ↦ rw (go, purge_empty_threads) refl
    ]

    after-Purged :
        Pass T F new_id now t₀ message_doomed s after_passes.0
        → Purged (purge_empty_threads T F new_id now after_passes).0
    after-Purged p = elim (Bool-cases (threads_throw T F new_id now after_passes.0)) [
      | inl stop ↦
          rw (purge_empty_threads-eq, stop)
            (record {
              messages = p.messages;
              threads = λ k. rw stop (ap (λ t. T.threads.at t k) p.threads);
              files = p.files;
              documents = p.documents;
              chunks = p.chunks;
              memories = p.memories;
              storage = p.storage;
              calm = p.calm;
            })
      | inr go ↦
          rw (purge_empty_threads-eq, go)
            (record {
              messages = p.messages;
              threads = λ k. rw go (
                  threads-removed k
                  ∙ ap
                      (λ t.
                        unless (is_empty_thread T F new_id now after_passes.0) (T.threads.at t k))
                      p.threads);
              files = p.files;
              documents = p.documents;
              chunks = p.chunks;
              memories = p.memories;
              storage = p.storage;
              calm = p.calm;
            })
    ]

    -- Where the policies can be read as at the start: of the messages, the purge deletes exactly
    -- those that a workspace without logs keeps no longer, and those older than the days of their
    -- workspace's policy, unless the round throws; of the threads, exactly those that no message
    -- is left in, unless finding or removing them throws. It leaves the other tables and the
    -- storage.
    pub purge_expired_chat_messages_lem :
        ((a b : String) → new_id a ≡ new_id b → a ≡ b)
        → IsCalm T.settings new_id t₀ s.settings
        → Purged (purge_expired_chat_messages T F new_id now s).0
    unfolding purge_expired_chat_messages
    purge_expired_chat_messages_lem inj calm = after-Purged (passes inj calm)
