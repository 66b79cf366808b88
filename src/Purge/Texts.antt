-- ===== src/Purge/Texts.antt =====
-- `purgeExpiredTextAndEmbeddings`: which chunks are deleted.
use contractor_reviewer.Common.{
  ℕ, ◌+◌, ◌*◌, String, Bool, not, ◌&&◌, ◌||◌, ◌≡◌, refl, ◌∙◌, ap, arith, List, [], ◌∷◌, Option,
  none, some, if◌then◌else◌, ◌==◌, leb, filter, length, any, Bool-cases, Option-cases, inl, inr,
}
use contractor_reviewer.Repository.{unless}
use contractor_reviewer.Entities.{Document, Chunk}
use contractor_reviewer.Retention.{get_retention_config, is_text_expired, day}
use contractor_reviewer.Retention.Config.{config_at, text_days, is_text_expired_lem}
use contractor_reviewer.Purge.{
  Tables, State, Faults, Counts, no_counts, everything, of_document, purge_text, purge_texts_loop,
  purge_expired_text_and_embeddings,
}
use contractor_reviewer.Purge.Policy.{IsCalm, get_retention_config-IsCalm}

module _ (T : Tables) (F : Faults) (new_id : String → String) (now : ℕ)
    (t₀ : T.settings.Table) where
  abbrev pub text_expired : Document → Bool
  text_expired d = leb (d.created_at + text_days (config_at T.settings t₀ d.workspace_id) * day) now

  abbrev pub text_due : Document → Bool
  text_due d = not (F.config d.workspace_id) && text_expired d

  abbrev pub text_failed : Document → Bool
  text_failed d = F.config d.workspace_id || text_due d && F.chunks d.id

  -- The chunk belongs to a listed document that is due and whose chunks can be deleted.
  abbrev pub chunk_doomed : List Document → Chunk → Bool
  chunk_doomed l c = any (λ d. text_due d && not (F.chunks d.id) && c.document_id == d.id) l

  pub record Purged (l : List Document) (r r' : State T × Counts) : Type 0 where
    pub chunks :
        (k : String)
        → T.chunks.at r'.0.chunks k ≡ unless (chunk_doomed l) (T.chunks.at r.0.chunks k)
    pub errors : r'.1.errors ≡ r.1.errors + length (filter text_failed l)
    pub files : r'.0.files ≡ r.0.files
    pub documents : r'.0.documents ≡ r.0.documents
    pub threads : r'.0.threads ≡ r.0.threads
    pub messages : r'.0.messages ≡ r.0.messages
    pub memories : r'.0.memories ≡ r.0.memories
    pub storage : r'.0.storage ≡ r.0.storage
    pub calm : IsCalm T.settings new_id t₀ r'.0.settings

  module _ (inj : (a b : String) → new_id a ≡ new_id b → a ≡ b) where
    expired_eq :
        (d : Document) (t : T.settings.Table)
        → IsCalm T.settings new_id t₀ t
        → is_text_expired T.settings (new_id d.workspace_id) d.workspace_id d.created_at now t ≡ (
          text_expired d,
          (get_retention_config T.settings (new_id d.workspace_id) d.workspace_id t).1,
        )
    expired_eq d t calm =
        is_text_expired_lem T.settings (new_id d.workspace_id) d.workspace_id d.created_at now t
        ∙ rw (calm.same d.workspace_id)

    purge_text-settings :
        (d : Document) (s : State T) (c : Counts)
        → IsCalm T.settings new_id t₀ s.settings
        → (purge_text T F new_id now d (s, c)).0.settings ≡ (
            if F.config d.workspace_id
            then s.settings
            else (get_retention_config T.settings
                (new_id d.workspace_id)
                d.workspace_id
                s.settings).1)
    unfolding purge_text
    purge_text-settings d s c calm = ground (arith, expired_eq d s.settings calm)

    purge_text-calm :
        (d : Document) (s : State T) (c : Counts)
        → IsCalm T.settings new_id t₀ s.settings
        → IsCalm T.settings new_id t₀ (purge_text T F new_id now d (s, c)).0.settings
    purge_text-calm d s c calm = elim (Bool-cases (F.config d.workspace_id)) [
      | inl b ↦ rw (purge_text-settings d s c calm, b) calm
      | inr b ↦
          rw (purge_text-settings d s c calm, b)
            (get_retention_config-IsCalm T.settings new_id t₀ inj d.workspace_id s.settings calm)
    ]

    purge_text-chunks :
        (d : Document) (s : State T) (c : Counts)
        → IsCalm T.settings new_id t₀ s.settings
        → (purge_text T F new_id now d (s, c)).0.chunks ≡ (
            if text_due d && not (F.chunks d.id)
            then T.chunks.delete (of_document d.id) s.chunks
            else s.chunks)
    unfolding purge_text
    purge_text-chunks d s c calm = ground (arith, expired_eq d s.settings calm)

    purge_text-at :
        (d : Document) (s : State T) (c : Counts) (k : String)
        → IsCalm T.settings new_id t₀ s.settings
        → T.chunks.at (purge_text T F new_id now d (s, c)).0.chunks k
          ≡ unless (chunk_doomed (d ∷ [])) (T.chunks.at s.chunks k)
    purge_text-at d s c k calm = elim (Bool-cases (text_due d && not (F.chunks d.id))) [
      | inl b ↦
          rw (purge_text-chunks d s c calm, b)
            (elim (Option-cases (T.chunks.at s.chunks k)) [
              | inl e ↦ ground (arith, T.chunks.at-delete (of_document d.id) s.chunks k, e)
              | inr (x, e) ↦ ground (arith, T.chunks.at-delete (of_document d.id) s.chunks k, e, b)
            ])
      | inr b ↦
          rw (purge_text-chunks d s c calm, b)
            (elim (Option-cases (T.chunks.at s.chunks k)) [
              | inl e ↦ ground (arith, e)
              | inr (x, e) ↦ ground (arith, e, b)
            ])
    ]

    purge_text-Purged :
        (d : Document) (s : State T) (c : Counts)
        → IsCalm T.settings new_id t₀ s.settings
        → Purged (d ∷ []) (s, c) (purge_text T F new_id now d (s, c))
    unfolding purge_text
    purge_text-Purged d s c calm = record {
      chunks = λ k. purge_text-at d s c k calm;
      errors = ground (arith, expired_eq d s.settings calm);
      files = ground (arith, expired_eq d s.settings calm);
      documents = ground (arith, expired_eq d s.settings calm);
      threads = ground (arith, expired_eq d s.settings calm);
      messages = ground (arith, expired_eq d s.settings calm);
      memories = ground (arith, expired_eq d s.settings calm);
      storage = ground (arith, expired_eq d s.settings calm);
      calm = purge_text-calm d s c calm;
    }

    unless-unless :
        (d : Document) (l : List Document) (o : Option Chunk)
        → unless (chunk_doomed l) (unless (chunk_doomed (d ∷ [])) o)
          ≡ unless (chunk_doomed (d ∷ l)) o
    unless-unless d l none = refl
    unless-unless d l (some c) = ground arith

    loop-Purged :
        (l : List Document) (s : State T) (c : Counts)
        → IsCalm T.settings new_id t₀ s.settings
        → Purged l (s, c) (purge_texts_loop T F new_id now l (s, c))
    unfolding purge_texts_loop
    loop-Purged [] s c calm = record {
      chunks = λ k. nothing_doomed (T.chunks.at s.chunks k);
      errors = ground arith;
      files = refl;
      documents = refl;
      threads = refl;
      messages = refl;
      memories = refl;
      storage = refl;
      calm = calm;
    }
      where
        nothing_doomed : (o : Option Chunk) → o ≡ unless (chunk_doomed []) o
        nothing_doomed none = refl
        nothing_doomed (some x) = refl
    loop-Purged (d ∷ l) s c calm =
        let one = purge_text-Purged d s c calm in
        let r = purge_text T F new_id now d (s, c) in
        let rest = loop-Purged l r.0 r.1 one.calm in
        record {
          chunks = λ k.
              rest.chunks k
              ∙ ap (unless (chunk_doomed l)) (one.chunks k)
              ∙ unless-unless d l (T.chunks.at s.chunks k);
          errors = ground (arith, rest.errors, one.errors);
          files = rest.files ∙ one.files;
          documents = rest.documents ∙ one.documents;
          threads = rest.threads ∙ one.threads;
          messages = rest.messages ∙ one.messages;
          memories = rest.memories ∙ one.memories;
          storage = rest.storage ∙ one.storage;
          calm = rest.calm;
        }

  -- Where the policies can be read as at the start: of the chunks, a run deletes exactly those of
  -- the documents whose age has reached the days of their workspace's policy and for which no
  -- query throws; it counts the documents at which a query threw, and leaves the other tables and
  -- the storage.
  pub purge_expired_texts_lem :
      ((a b : String) → new_id a ≡ new_id b → a ≡ b)
      → (s : State T) → IsCalm T.settings new_id t₀ s.settings
      → Purged
          (T.documents.find everything s.documents)
          (s, no_counts)
          (purge_expired_text_and_embeddings T F new_id now s)
  unfolding purge_expired_text_and_embeddings
  purge_expired_texts_lem inj s calm =
      loop-Purged inj (T.documents.find everything s.documents) s no_counts calm
