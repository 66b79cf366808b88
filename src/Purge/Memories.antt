-- ===== src/Purge/Memories.antt =====
-- `purgeExpiredMemory`: which memories are deleted.
use contractor_reviewer.Common.{
  ℕ, ◌+◌, String, Bool, not, ◌&&◌, ◌||◌, ◌≡◌, refl, ◌∙◌, ap, arith, List, [], ◌∷◌, if◌then◌else◌,
  ltb, filter, length, Bool-cases, inl, inr,
}
use contractor_reviewer.Repository.{unless}
use contractor_reviewer.Repository.Loops.{remove_each, remove_each-found}
use contractor_reviewer.Entities.{Memory, memory_key}
use contractor_reviewer.Retention.{get_retention_config}
use contractor_reviewer.Retention.Config.{config_at, get_retention_config-config_at}
use contractor_reviewer.Purge.{
  Tables, State, Faults, Counts, no_counts, everything, purge_memory, purge_memories_loop, cutoff,
  memory_days, purge_expired_memory, is_orphan, scope_throws,
}
use contractor_reviewer.Purge.Policy.{IsCalm, get_retention_config-IsCalm}

-- `s₀` is the state in which the loop begins.
module _ (T : Tables) (F : Faults) (new_id : String → String) (now : ℕ) (t₀ : T.settings.Table)
    (s₀ : State T) where
  abbrev pub memory_orphan : Memory → Bool
  memory_orphan m = is_orphan T F new_id now s₀ m

  abbrev pub memory_old : Memory → Bool
  memory_old m =
      ltb m.updated_at (
        cutoff T F new_id now (memory_days T F new_id now (config_at T.settings t₀ m.workspace_id)))

  -- Its thread or document is gone, or its policy can be read and it is older than that allows.
  abbrev pub memory_due : Memory → Bool
  memory_due m =
      not (scope_throws T F new_id now m)
      && (memory_orphan m || not (F.config m.workspace_id) && memory_old m)

  abbrev pub memory_doomed : Memory → Bool
  memory_doomed m = memory_due m && not (F.memory m.id)

  abbrev pub memory_failed : Memory → Bool
  memory_failed m =
      scope_throws T F new_id now m
      || not (memory_orphan m) && F.config m.workspace_id
      || memory_due m && F.memory m.id

  pub record Purged (l : List Memory) (r r' : State T × Counts) : Type 0 where
    pub memories : r'.0.memories ≡ remove_each memory_key T.memories memory_doomed l r.0.memories
    pub deleted : r'.1.deleted ≡ r.1.deleted + length (filter memory_doomed l)
    pub errors : r'.1.errors ≡ r.1.errors + length (filter memory_failed l)
    pub files : r'.0.files ≡ r.0.files
    pub documents : r'.0.documents ≡ r.0.documents
    pub chunks : r'.0.chunks ≡ r.0.chunks
    pub threads : r'.0.threads ≡ r.0.threads
    pub messages : r'.0.messages ≡ r.0.messages
    pub storage : r'.0.storage ≡ r.0.storage
    pub calm : IsCalm T.settings new_id t₀ r'.0.settings

  pub is_orphan-same :
      (s : State T) (m : Memory)
      → s.threads ≡ s₀.threads
      → s.documents ≡ s₀.documents
      → is_orphan T F new_id now s m ≡ memory_orphan m
  unfolding is_orphan
  is_orphan-same s m et ed = rw (et, ed)

  module _ (inj : (a b : String) → new_id a ≡ new_id b → a ≡ b) where
    config_eq :
        (m : Memory) (t : T.settings.Table)
        → IsCalm T.settings new_id t₀ t
        → (get_retention_config T.settings (new_id m.workspace_id) m.workspace_id t).0
          ≡ config_at T.settings t₀ m.workspace_id
    config_eq m t calm =
        get_retention_config-config_at T.settings (new_id m.workspace_id) m.workspace_id t
        ∙ calm.same m.workspace_id

    module _ (m : Memory) (s : State T) (c : Counts) (et : s.threads ≡ s₀.threads)
        (ed : s.documents ≡ s₀.documents) (calm : IsCalm T.settings new_id t₀ s.settings) where
      purge_memory-settings : (purge_memory T F new_id now m (s, c)).0.settings ≡ (
          if scope_throws T F new_id now m || memory_orphan m || F.config m.workspace_id
          then s.settings
          else (get_retention_config T.settings
              (new_id m.workspace_id)
              m.workspace_id
              s.settings).1)
      unfolding purge_memory
      purge_memory-settings = ground (arith, is_orphan-same s m et ed)

      purge_memory-calm :
          IsCalm T.settings new_id t₀ (purge_memory T F new_id now m (s, c)).0.settings
      purge_memory-calm =
          elim (Bool-cases
            (scope_throws T F new_id now m || memory_orphan m || F.config m.workspace_id)) [
              | inl b ↦ rw (purge_memory-settings, b) calm
              | inr b ↦
                  rw (purge_memory-settings, b)
                    (get_retention_config-IsCalm T.settings new_id t₀ inj m.workspace_id s.settings
                      calm)
            ]

      purge_memory-Purged : Purged (m ∷ []) (s, c) (purge_memory T F new_id now m (s, c))
      unfolding purge_memory remove_each
      purge_memory-Purged = record {
        memories = ground (arith, is_orphan-same s m et ed, config_eq m s.settings calm);
        deleted = ground (arith, is_orphan-same s m et ed, config_eq m s.settings calm);
        errors = ground (arith, is_orphan-same s m et ed, config_eq m s.settings calm);
        files = ground arith;
        documents = ground arith;
        chunks = ground arith;
        threads = ground arith;
        messages = ground arith;
        storage = ground arith;
        calm = purge_memory-calm;
      }

    loop-Purged :
        (l : List Memory) (s : State T) (c : Counts)
        → s.threads ≡ s₀.threads
        → s.documents ≡ s₀.documents
        → IsCalm T.settings new_id t₀ s.settings
        → Purged l (s, c) (purge_memories_loop T F new_id now l (s, c))
    unfolding purge_memories_loop remove_each
    loop-Purged [] s c et ed calm = record {
      memories = refl;
      deleted = ground arith;
      errors = ground arith;
      files = refl;
      documents = refl;
      chunks = refl;
      threads = refl;
      messages = refl;
      storage = refl;
      calm = calm;
    }
    loop-Purged (m ∷ l) s c et ed calm =
        let one = purge_memory-Purged m s c et ed calm in
        let r = purge_memory T F new_id now m (s, c) in
        let rest = loop-Purged l r.0 r.1 (one.threads ∙ et) (one.documents ∙ ed) one.calm in
        record {
          memories =
              rest.memories ∙ ap (remove_each memory_key T.memories memory_doomed l) one.memories;
          deleted = ground (arith, rest.deleted, one.deleted);
          errors = ground (arith, rest.errors, one.errors);
          files = rest.files ∙ one.files;
          documents = rest.documents ∙ one.documents;
          chunks = rest.chunks ∙ one.chunks;
          threads = rest.threads ∙ one.threads;
          messages = rest.messages ∙ one.messages;
          storage = rest.storage ∙ one.storage;
          calm = rest.calm;
        }

  -- Where the policies can be read as at the start: a run deletes exactly the memories whose
  -- thread or document is gone, or that are older than the days of their workspace's policy, and
  -- at which no query throws; it counts these, and those at which a query threw, and leaves the
  -- other tables and the storage.
  pub purge_expired_memory_lem :
      ((a b : String) → new_id a ≡ new_id b → a ≡ b)
      → IsCalm T.settings new_id t₀ s₀.settings
      → ((k : String)
          → T.memories.at (purge_expired_memory T F new_id now s₀).0.memories k
            ≡ unless memory_doomed (T.memories.at s₀.memories k))
        × Purged
            (T.memories.find everything s₀.memories)
            (s₀, no_counts)
            (purge_expired_memory T F new_id now s₀)
  unfolding purge_expired_memory
  purge_expired_memory_lem inj calm =
      let p =
        loop-Purged inj (T.memories.find everything s₀.memories) s₀ no_counts refl refl calm in
      (
        λ k.
            ap (λ t. T.memories.at t k) p.memories
            ∙ remove_each-found memory_key T.memories everything memory_doomed s₀.memories k,
        p,
      )
