-- ===== src/Purge.antt =====
-- apps/api/src/retention/purge.service.ts: the job that deletes what the retention policies have
-- let expire. A run reads the clock once. The query that begins a loop answers. Which of the queries
-- in a round throw is decided by `Faults`, and the loops catch that and go on; what throws outside a
-- loop ends the job.
pub mod Policy
pub mod Files
pub mod Texts
pub mod Messages
pub mod Chats
pub mod Threads
pub mod Memories
pub mod Full
mod Tests
use contractor_reviewer.Repository.{Repository}
use contractor_reviewer.Repository.Loops.{remove_all}
use contractor_reviewer.Entities.{
  WorkspaceSettings, DocumentFile, Document, Chunk, ChatThread, ChatMessage, Memory, NoLogsConfig,
  thread, document, workspace, settings_key, file_key, document_key, chunk_key, thread_key,
  message_key, memory_key,
}
use contractor_reviewer.Retention.{
  RetentionConfig, get_retention_config, is_file_expired, is_text_expired, lookup, day,
}
use contractor_reviewer.Common.{
  ℕ, ◌+◌, ◌-◌, ◌*◌, String, Bool, true, false, not, ◌&&◌, ◌||◌, List, [], ◌∷◌, Option, none, some,
  ltb, if◌then◌else◌, ◌==◌, get_or, or_default, filter, map, length, any, eqb,
}

pub record Tables : Type 1 where
  pub settings : Repository settings_key
  pub files : Repository file_key
  pub documents : Repository document_key
  pub chunks : Repository chunk_key
  pub threads : Repository thread_key
  pub messages : Repository message_key
  pub memories : Repository memory_key

-- The tables, and which keys of the object storage hold a file.
pub record State (T : Tables) : Type 0 where
  pub settings : T.settings.Table
  pub files : T.files.Table
  pub documents : T.documents.Table
  pub chunks : T.chunks.Table
  pub threads : T.threads.Table
  pub messages : T.messages.Table
  pub memories : T.memories.Table
  pub storage : String → Bool

-- What throws: reading the policy of a workspace, deleting an object of the storage, removing a
-- file's row, a document's chunks, a workspace's messages (in either pass), finding the threads,
-- removing the empty ones, asking whether a memory's thread or document exists, removing a memory.
pub record Faults : Type 0 where
  pub config : String → Bool
  pub storage : String → Bool
  pub file : String → Bool
  pub chunks : String → Bool
  pub no_logs : String → Bool
  pub messages : String → Bool
  pub find_threads : Bool
  pub remove_threads : Bool
  pub scope : String → Bool
  pub memory : String → Bool

pub record Counts : Type 0 where
  pub deleted : ℕ
  pub errors : ℕ

pub record ChatCounts : Type 0 where
  pub chat_messages : ℕ
  pub empty_threads : ℕ
  pub errors : ℕ

pub record Report : Type 0 where
  pub files : Counts
  pub text_embeddings : Counts
  pub chat : ChatCounts
  pub memory : Counts

abbrev pub no_counts : Counts
no_counts = record { deleted = 0; errors = 0 }

abbrev pub everything : {A : Type 0} → A → Bool
everything a = true

abbrev pub empty? : {A : Type 0} → List A → Bool
empty? [] = true
empty? (x ∷ xs) = false

-- `SELECT DISTINCT`
unfoldable pub distinct : List String → List String
distinct [] = []
distinct (x ∷ xs) = if any (λ y. y == x) xs then distinct xs else x ∷ distinct xs

abbrev pub of_document : String → Chunk → Bool
of_document id c = c.document_id == id

abbrev pub of_thread : String → ChatMessage → Bool
of_thread id m = m.thread_id == id

abbrev pub in_workspace : String → ChatMessage → Bool
in_workspace ws m = m.workspace_id == ws

-- `new_id ws` is the id that the database gives to the settings row made for `ws`.
module _ (T : Tables) (F : Faults) (new_id : String → String) (now : ℕ) where
  abbrev delete_object : String → (String → Bool) → String → Bool
  delete_object key storage k = storage k && (F.storage key || not (k == key))

  abbrev remove_file : DocumentFile → State T → Counts → State T × Counts
  remove_file f s c =
      let s' : State T = record s { storage = delete_object f.storage_key s.storage } in
      if F.file f.id
      then (s', record c { errors = c.errors + 1 })
      else (record s' { files = T.files.remove f s'.files }, record c { deleted = c.deleted + 1 })

  -- One round of the loop of `purgeExpiredFiles`.
  pub purge_file : DocumentFile → State T × Counts → State T × Counts
  purge_file f (s, c) =
      if F.config f.document_workspace_id
      then (s, record c { errors = c.errors + 1 })
      else let (expired, settings) =
          is_file_expired T.settings (new_id f.document_workspace_id) f.document_workspace_id
            f.created_at now s.settings in
        let s' : State T = record s { settings = settings } in
        if expired then remove_file f s' c else (s', c)

  pub purge_files_loop : List DocumentFile → State T × Counts → State T × Counts
  purge_files_loop [] r = r
  purge_files_loop (f ∷ fs) r = purge_files_loop fs (purge_file f r)

  pub purge_expired_files : State T → State T × Counts
  purge_expired_files s = purge_files_loop (T.files.find everything s.files) (s, no_counts)

  abbrev remove_chunks : Document → State T → Counts → State T × Counts
  remove_chunks d s c = if F.chunks d.id then (s, record c { errors = c.errors + 1 }) else (
    record s { chunks = T.chunks.delete (of_document d.id) s.chunks },
    record c { deleted = c.deleted + length (T.chunks.find (of_document d.id) s.chunks) },
  )

  -- One round of the loop of `purgeExpiredTextAndEmbeddings`.
  pub purge_text : Document → State T × Counts → State T × Counts
  purge_text d (s, c) =
      if F.config d.workspace_id
      then (s, record c { errors = c.errors + 1 })
      else let (expired, settings) =
          is_text_expired T.settings (new_id d.workspace_id) d.workspace_id d.created_at now
            s.settings in
        let s' : State T = record s { settings = settings } in
        if expired then remove_chunks d s' c else (s', c)

  pub purge_texts_loop : List Document → State T × Counts → State T × Counts
  purge_texts_loop [] r = r
  purge_texts_loop (d ∷ ds) r = purge_texts_loop ds (purge_text d r)

  pub purge_expired_text_and_embeddings : State T → State T × Counts
  purge_expired_text_and_embeddings s =
      purge_texts_loop (T.documents.find everything s.documents) (s, no_counts)

  abbrev pub cutoff : ℕ → ℕ
  cutoff days = now - days * day

  -- The messages of a workspace from before a date, of `find` and `filter`.
  abbrev pub messages_before : String → ℕ → State T → List ChatMessage
  messages_before ws date s =
      filter (λ m. ltb m.created_at date) (T.messages.find (in_workspace ws) s.messages)

  -- `if (expired.length > 0) await remove(expired)`, in a round that may throw there.
  abbrev pub remove_messages : Bool → List ChatMessage → State T → ChatCounts → State T × ChatCounts
  remove_messages throws expired s c =
      if empty? expired
      then (s, c)
      else if throws
      then (s, record c { errors = c.errors + 1 })
      else (
        record s { messages = remove_all message_key T.messages expired s.messages },
        record c { chat_messages = c.chat_messages + length expired },
      )

  abbrev pub accelerated_days : Option NoLogsConfig → ℕ
  accelerated_days none = 1
  accelerated_days (some c) = or_default c.accelerated_purge_days 1

  abbrev pub skips_chat : Option NoLogsConfig → Bool
  skips_chat none = false
  skips_chat (some c) = c.skip_chat_messages

  -- One round of the first loop of `purgeExpiredChatMessages`.
  pub purge_no_logs : WorkspaceSettings → State T × ChatCounts → State T × ChatCounts
  purge_no_logs w (s, c) =
      if skips_chat w.no_logs_config
      then remove_messages (F.no_logs w.workspace_id)
          (messages_before w.workspace_id (cutoff (accelerated_days w.no_logs_config)) s) s c
      else (s, c)

  pub purge_no_logs_loop : List WorkspaceSettings → State T × ChatCounts → State T × ChatCounts
  purge_no_logs_loop [] r = r
  purge_no_logs_loop (w ∷ ws) r = purge_no_logs_loop ws (purge_no_logs w r)

  -- `retentionOverrides?.['text'] || default`
  abbrev pub chat_days : RetentionConfig → ℕ
  chat_days c =
      or_default (lookup "text" c.retention_overrides) c.default_text_embeddings_retention_days

  -- One round of the second loop.
  pub purge_messages : String → State T × ChatCounts → State T × ChatCounts
  purge_messages ws (s, c) =
      if F.config ws
      then (s, record c { errors = c.errors + 1 })
      else let (config, settings) = get_retention_config T.settings (new_id ws) ws s.settings in
        let s' : State T = record s { settings = settings } in
        remove_messages (F.messages ws) (messages_before ws (cutoff (chat_days config)) s') s' c

  pub purge_messages_loop : List String → State T × ChatCounts → State T × ChatCounts
  purge_messages_loop [] r = r
  purge_messages_loop (ws ∷ wss) r = purge_messages_loop wss (purge_messages ws r)

  -- The threads without messages.
  abbrev pub is_empty_thread : State T → ChatThread → Bool
  is_empty_thread s t = empty? (T.messages.find (of_thread t.id) s.messages)

  abbrev pub empty_threads : State T → List ChatThread
  empty_threads s = filter (is_empty_thread s) (T.threads.find everything s.threads)

  -- Whether the step throws: the query, or the removal where there is something to remove.
  abbrev pub threads_throw : State T → Bool
  threads_throw s = F.find_threads || F.remove_threads && not (empty? (empty_threads s))

  pub purge_empty_threads : State T × ChatCounts → State T × Option ChatCounts
  purge_empty_threads (s, c) = if threads_throw s then (s, none) else (
    record s { threads = remove_all thread_key T.threads (empty_threads s) s.threads },
    some (record c { empty_threads = length (empty_threads s) }),
  )

  abbrev pub message_workspaces : State T → List String
  message_workspaces s =
      distinct (map (λ m. m.workspace_id) (T.messages.find everything s.messages))

  abbrev pub no_chat_counts : ChatCounts
  no_chat_counts = record { chat_messages = 0; empty_threads = 0; errors = 0 }

  abbrev pub no_logs_pass : State T → State T × ChatCounts
  no_logs_pass s =
      purge_no_logs_loop (T.settings.find (λ w. w.no_logs_enabled) s.settings) (s, no_chat_counts)

  abbrev pub retention_pass : State T × ChatCounts → State T × ChatCounts
  retention_pass r = purge_messages_loop (message_workspaces r.0) r

  -- No counts where it throws.
  pub purge_expired_chat_messages : State T → State T × Option ChatCounts
  purge_expired_chat_messages s = purge_empty_threads (retention_pass (no_logs_pass s))

  abbrev exists? : {A : Type 0} → Option A → Bool
  exists? none = false
  exists? (some a) = true

  -- The thread or document that a memory is about is gone.
  unfoldable pub is_orphan : State T → Memory → Bool
  is_orphan s m = elim m.scope_type [
    | thread ↦ not (exists? (T.threads.find_one (λ t. t.id == m.scope_id) s.threads))
    | document ↦ not (exists? (T.documents.find_one (λ d. d.id == m.scope_id) s.documents))
    | workspace ↦ false
  ]

  -- The query for the thread or document that a memory is about throws.
  abbrev pub scope_throws : Memory → Bool
  scope_throws m = elim m.scope_type [
    | thread ↦ F.scope m.id
    | document ↦ F.scope m.id
    | workspace ↦ false
  ]

  -- `retentionOverrides?.['text'] ?? default`
  abbrev pub memory_days : RetentionConfig → ℕ
  memory_days c =
      get_or (lookup "text" c.retention_overrides) c.default_text_embeddings_retention_days

  abbrev remove_memory : Memory → State T → Counts → State T × Counts
  remove_memory m s c = if F.memory m.id then (s, record c { errors = c.errors + 1 }) else (
    record s { memories = T.memories.remove m s.memories },
    record c { deleted = c.deleted + 1 },
  )

  -- One round of the loop of `purgeExpiredMemory`.
  pub purge_memory : Memory → State T × Counts → State T × Counts
  purge_memory m (s, c) =
      if scope_throws m
      then (s, record c { errors = c.errors + 1 })
      else if is_orphan s m
      then remove_memory m s c
      else if F.config m.workspace_id
      then (s, record c { errors = c.errors + 1 })
      else let (config, settings) =
          get_retention_config T.settings (new_id m.workspace_id) m.workspace_id s.settings in
        let s' : State T = record s { settings = settings } in
        if ltb m.updated_at (cutoff (memory_days config)) then remove_memory m s' c else (s', c)

  pub purge_memories_loop : List Memory → State T × Counts → State T × Counts
  purge_memories_loop [] r = r
  purge_memories_loop (m ∷ ms) r = purge_memories_loop ms (purge_memory m r)

  pub purge_expired_memory : State T → State T × Counts
  purge_expired_memory s =
      purge_memories_loop (T.memories.find everything s.memories) (s, no_counts)

  -- No report where the part for the chats throws, which ends the job.
  pub run_full_purge : State T → State T × Option Report
  run_full_purge s =
      let (s₁, files) = purge_expired_files s in
      let (s₂, texts) = purge_expired_text_and_embeddings s₁ in
      let (s₃, chat) = purge_expired_chat_messages s₂ in
      elim chat [
        | none ↦ (s₃, none)
        | some counts ↦
            let (s₄, memory) = purge_expired_memory s₃ in
            (
              s₄,
              some (record {
                files = files;
                text_embeddings = texts;
                chat = counts;
                memory = memory;
              }),
            )
      ]
