-- ===== src/Purge/Files.antt =====
-- `purgeExpiredFiles`: which rows and which objects of the storage are deleted, and what is counted.
use contractor_reviewer.Common.{
  ℕ, ◌+◌, ◌*◌, String, Bool, not, ◌&&◌, ◌||◌, ◌≡◌, refl, ◌∙◌, ap, arith, List, [], ◌∷◌,
  if◌then◌else◌, ◌==◌, leb, filter, length, any, Bool-cases, inl, inr,
}
use contractor_reviewer.Repository.{unless}
use contractor_reviewer.Repository.Loops.{remove_each, remove_each-found}
use contractor_reviewer.Entities.{DocumentFile, file_key}
use contractor_reviewer.Retention.{get_retention_config, is_file_expired, day}
use contractor_reviewer.Retention.Config.{config_at, file_days, is_file_expired_lem}
use contractor_reviewer.Purge.{
  Tables, State, Faults, Counts, no_counts, everything, purge_file, purge_files_loop,
  purge_expired_files,
}
use contractor_reviewer.Purge.Policy.{IsCalm, get_retention_config-IsCalm}

module _ (T : Tables) (F : Faults) (new_id : String → String) (now : ℕ)
    (t₀ : T.settings.Table) where
  -- The age of the file has reached the days of its workspace's policy.
  abbrev pub file_expired : DocumentFile → Bool
  file_expired f =
      leb (f.created_at + file_days (config_at T.settings t₀ f.document_workspace_id) * day) now

  -- The policy of its workspace can be read, and the file has expired.
  abbrev pub file_due : DocumentFile → Bool
  file_due f = not (F.config f.document_workspace_id) && file_expired f

  -- Its row can be removed, too.
  abbrev pub file_doomed : DocumentFile → Bool
  file_doomed f = file_due f && not (F.file f.id)

  -- A query throws in its round.
  abbrev pub file_failed : DocumentFile → Bool
  file_failed f = F.config f.document_workspace_id || file_due f && F.file f.id

  -- Its object is deleted from the storage.
  abbrev pub object_deleted : String → DocumentFile → Bool
  object_deleted k f = file_due f && not (F.storage f.storage_key) && k == f.storage_key

  -- The effect of the loop over `l`, from the state and counts `r` to `r'`.
  pub record Purged (l : List DocumentFile) (r r' : State T × Counts) : Type 0 where
    pub files : r'.0.files ≡ remove_each file_key T.files file_doomed l r.0.files
    pub storage : (k : String) → r'.0.storage k ≡ (r.0.storage k && not (any (object_deleted k) l))
    pub deleted : r'.1.deleted ≡ r.1.deleted + length (filter file_doomed l)
    pub errors : r'.1.errors ≡ r.1.errors + length (filter file_failed l)
    pub documents : r'.0.documents ≡ r.0.documents
    pub threads : r'.0.threads ≡ r.0.threads
    pub messages : r'.0.messages ≡ r.0.messages
    pub memories : r'.0.memories ≡ r.0.memories
    pub calm : IsCalm T.settings new_id t₀ r'.0.settings

  module _ (inj : (a b : String) → new_id a ≡ new_id b → a ≡ b) where
    expired_eq :
        (f : DocumentFile) (t : T.settings.Table)
        → IsCalm T.settings new_id t₀ t
        → is_file_expired T.settings
            (new_id f.document_workspace_id)
            f.document_workspace_id
            f.created_at
            now
            t
          ≡ (
            file_expired f,
            (get_retention_config T.settings
                (new_id f.document_workspace_id)
                f.document_workspace_id
                t).1,
          )
    expired_eq f t calm =
        is_file_expired_lem T.settings (new_id f.document_workspace_id) f.document_workspace_id
          f.created_at now t
        ∙ rw (calm.same f.document_workspace_id)

    purge_file-settings :
        (f : DocumentFile) (s : State T) (c : Counts)
        → IsCalm T.settings new_id t₀ s.settings
        → (purge_file T F new_id now f (s, c)).0.settings ≡ (
            if F.config f.document_workspace_id
            then s.settings
            else (get_retention_config T.settings
                (new_id f.document_workspace_id)
                f.document_workspace_id
                s.settings).1)
    unfolding purge_file
    purge_file-settings f s c calm = ground (arith, expired_eq f s.settings calm)

    purge_file-calm :
        (f : DocumentFile) (s : State T) (c : Counts)
        → IsCalm T.settings new_id t₀ s.settings
        → IsCalm T.settings new_id t₀ (purge_file T F new_id now f (s, c)).0.settings
    purge_file-calm f s c calm = elim (Bool-cases (F.config f.document_workspace_id)) [
      | inl b ↦ rw (purge_file-settings f s c calm, b) calm
      | inr b ↦
          rw (purge_file-settings f s c calm, b)
            (get_retention_config-IsCalm T.settings new_id t₀ inj f.document_workspace_id s.settings
              calm)
    ]

    purge_file-Purged :
        (f : DocumentFile) (s : State T) (c : Counts)
        → IsCalm T.settings new_id t₀ s.settings
        → Purged (f ∷ []) (s, c) (purge_file T F new_id now f (s, c))
    unfolding purge_file remove_each
    purge_file-Purged f s c calm = record {
      files = ground (arith, expired_eq f s.settings calm);
      storage = λ k. ground (arith, expired_eq f s.settings calm);
      deleted = ground (arith, expired_eq f s.settings calm);
      errors = ground (arith, expired_eq f s.settings calm);
      documents = ground (arith, expired_eq f s.settings calm);
      threads = ground (arith, expired_eq f s.settings calm);
      messages = ground (arith, expired_eq f s.settings calm);
      memories = ground (arith, expired_eq f s.settings calm);
      calm = purge_file-calm f s c calm;
    }

    loop-Purged :
        (l : List DocumentFile) (s : State T) (c : Counts)
        → IsCalm T.settings new_id t₀ s.settings
        → Purged l (s, c) (purge_files_loop T F new_id now l (s, c))
    unfolding purge_files_loop remove_each
    loop-Purged [] s c calm = record {
      files = refl;
      storage = λ k. ground arith;
      deleted = ground arith;
      errors = ground arith;
      documents = refl;
      threads = refl;
      messages = refl;
      memories = refl;
      calm = calm;
    }
    loop-Purged (f ∷ l) s c calm =
        let one = purge_file-Purged f s c calm in
        let r = purge_file T F new_id now f (s, c) in
        let rest = loop-Purged l r.0 r.1 one.calm in
        record {
          files = rest.files ∙ ap (remove_each file_key T.files file_doomed l) one.files;
          storage = λ k. ground (arith, rest.storage k, one.storage k);
          deleted = ground (arith, rest.deleted, one.deleted);
          errors = ground (arith, rest.errors, one.errors);
          documents = rest.documents ∙ one.documents;
          threads = rest.threads ∙ one.threads;
          messages = rest.messages ∙ one.messages;
          memories = rest.memories ∙ one.memories;
          calm = rest.calm;
        }

  -- Where the policies can be read as at the start: a run deletes exactly the rows of the files
  -- whose age has reached the days of their workspace's policy and for which no query throws; it
  -- deletes the objects of all that are due and can be deleted; it counts the deleted rows and the
  -- files at which a query threw; and it leaves the documents, threads, messages and memories.
  pub purge_expired_files_lem :
      ((a b : String) → new_id a ≡ new_id b → a ≡ b)
      → (s : State T) → IsCalm T.settings new_id t₀ s.settings
      → ((k : String)
          → T.files.at (purge_expired_files T F new_id now s).0.files k
            ≡ unless file_doomed (T.files.at s.files k))
        × Purged
            (T.files.find everything s.files)
            (s, no_counts)
            (purge_expired_files T F new_id now s)
  unfolding purge_expired_files
  purge_expired_files_lem inj s calm =
      let p = loop-Purged inj (T.files.find everything s.files) s no_counts calm in
      (
        λ k.
            ap (λ t. T.files.at t k) p.files
            ∙ remove_each-found file_key T.files everything file_doomed s.files k,
        p,
      )
