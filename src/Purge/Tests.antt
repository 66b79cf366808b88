-- ===== src/Purge/Tests.antt =====
-- A run of the job over one old document with its file, chunk, thread, message and memory.
use contractor_reviewer.Common.{
  ℕ, String, false, ◌≡◌, refl, sym, ◌∙◌, inl, inr, arith, none, some, [], ◌∷◌, ◌==◌, Bool-cases,
}
use text.Mathlib.TextEquality.{eq_iff}
use contractor_reviewer.Repository.{unless}
use contractor_reviewer.Repository.InMemory.{in_memory}
use contractor_reviewer.Repository.Lookup.{Has}
use contractor_reviewer.Entities.{
  default_row, WorkspaceSettings, thread, settings_key, file_key, document_key, chunk_key,
  thread_key, message_key, memory_key,
}
use contractor_reviewer.Purge.{
  Tables, State, Faults, everything, no_counts, purge_expired_files,
  purge_expired_text_and_embeddings, purge_expired_chat_messages, purge_expired_memory,
  run_full_purge, Report,
}
use contractor_reviewer.Purge.Policy.{IsCalm}
use contractor_reviewer.Purge.Files
use contractor_reviewer.Purge.Texts
use contractor_reviewer.Purge.Threads
use contractor_reviewer.Purge.Memories
use contractor_reviewer.Purge.Full

abbrev tables : Tables
tables = record {
  settings = in_memory settings_key;
  files = in_memory file_key;
  documents = in_memory document_key;
  chunks = in_memory chunk_key;
  threads = in_memory thread_key;
  messages = in_memory message_key;
  memories = in_memory memory_key;
}

-- Only the policy of the workspace `lost` cannot be read.
abbrev faults : Faults
faults = record {
  config = λ ws. ws == "lost";
  storage = λ k. false;
  file = λ k. false;
  chunks = λ k. false;
  no_logs = λ k. false;
  messages = λ k. false;
  find_threads = false;
  remove_threads = false;
  scope = λ k. false;
  memory = λ k. false;
}

-- The settings row of a workspace has the workspace's id.
abbrev own_id : String → String
own_id ws = ws

abbrev row : WorkspaceSettings
row = default_row "w1" "w1"

abbrev old : State tables
old = record {
  settings = row ∷ [];
  files =
      record {
        id = "f1";
        document_id = "d1";
        document_workspace_id = "w1";
        storage_key = "k1";
        created_at = 0;
      }
      ∷ [];
  documents = record { id = "d1"; workspace_id = "w1"; created_at = 0 } ∷ [];
  chunks = record { id = "c1"; document_id = "d1" } ∷ [];
  threads =
      record {
        id = "t1";
        document_id = "d1";
        workspace_id = "w1";
        user_id = "u1";
        title = none;
        updated_at = 0;
      }
      ∷ [];
  messages = record { id = "m1"; thread_id = "t1"; workspace_id = "w1"; created_at = 0 } ∷ [];
  memories =
      record {
        id = "y1";
        scope_type = thread;
        scope_id = "t1";
        workspace_id = "w1";
        updated_at = 0;
      }
      ∷ [];
  storage = λ k. k == "k1";
}

only_row : (s : WorkspaceSettings) → Has settings_key tables.settings old.settings s → row ≡ s
only_row s h = elim (Bool-cases ("w1" == s.id)) [
  | inl e ↦ ground arith
  | inr e ↦ absurd (ground arith)
]

old-IsCalm : IsCalm tables.settings own_id old.settings old.settings
old-IsCalm = record {
  unique = λ ws a b ha hb p q. sym (only_row a ha) ∙ only_row b hb;
  own = λ ws s h. elim (Bool-cases ("w1" == ws)) [
    | inl e ↦ ground (arith, eq_iff "w1" ws)
    | inr e ↦ absurd (ground arith)
  ];
  same = λ ws. refl;
}

-- A hundred days later.
abbrev now : ℕ
now = 8640000000

own_id-injective : (a b : String) → own_id a ≡ own_id b → a ≡ b
own_id-injective a b e = e

purge_expired_files_example :
    ((k : String)
      → tables.files.at (purge_expired_files tables faults own_id now old).0.files k
        ≡ unless
            (Files.file_doomed tables faults own_id now old.settings)
            (tables.files.at old.files k))
    × Files.Purged tables faults own_id now old.settings
        (tables.files.find everything old.files)
        (old, no_counts)
        (purge_expired_files tables faults own_id now old)
purge_expired_files_example =
    Files.purge_expired_files_lem tables faults own_id now old.settings own_id-injective old
      old-IsCalm

purge_expired_texts_example :
    Texts.Purged tables faults own_id now old.settings
      (tables.documents.find everything old.documents)
      (old, no_counts)
      (purge_expired_text_and_embeddings tables faults own_id now old)
purge_expired_texts_example =
    Texts.purge_expired_texts_lem tables faults own_id now old.settings own_id-injective old
      old-IsCalm

purge_expired_chat_messages_example :
    Threads.Purged tables faults own_id now old.settings old
      (purge_expired_chat_messages tables faults own_id now old).0
purge_expired_chat_messages_example =
    Threads.purge_expired_chat_messages_lem tables faults own_id now old.settings old
      own_id-injective old-IsCalm

purge_expired_memory_example :
    ((k : String)
      → tables.memories.at (purge_expired_memory tables faults own_id now old).0.memories k
        ≡ unless
            (Memories.memory_doomed tables faults own_id now old.settings old)
            (tables.memories.at old.memories k))
    × Memories.Purged tables faults own_id now old.settings old
        (tables.memories.find everything old.memories)
        (old, no_counts)
        (purge_expired_memory tables faults own_id now old)
purge_expired_memory_example =
    Memories.purge_expired_memory_lem tables faults own_id now old.settings old own_id-injective
      old-IsCalm

run_full_purge_example :
    ((r : Report) × ((run_full_purge tables faults own_id now old).1 ≡ some r))
    × Full.IsPurged tables faults own_id now old own_id-injective old-IsCalm
        (run_full_purge tables faults own_id now old).0
run_full_purge_example =
    Full.run_full_purge_lem tables faults own_id now old own_id-injective old-IsCalm refl refl
