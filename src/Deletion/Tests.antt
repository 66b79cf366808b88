-- ===== src/Deletion/Tests.antt =====
-- A document with a file, a thread, and a memory about the thread.
use contractor_reviewer.Common.{true, false, none, [], ◌∷◌, ◌==◌}
use contractor_reviewer.Repository.InMemory.{in_memory}
use contractor_reviewer.Entities.{
  Document, ChatThread, Memory, thread, settings_key, file_key, document_key, chunk_key, thread_key,
  message_key, memory_key,
}
use contractor_reviewer.Purge.{Tables}
use contractor_reviewer.Deletion.{Faults, World}

abbrev tables : Tables
tables = record {
  settings = in_memory settings_key;
  files = in_memory file_key;
  documents = in_memory document_key;
  chunks = in_memory chunk_key;
  threads = in_memory thread_key;
  messages = in_memory message_key;
  memories = in_memory memory_key;
}

abbrev lease : Document
lease = record { id = "d1"; workspace_id = "w1"; created_at = 0 }

abbrev talk : ChatThread
talk = record {
  id = "t1";
  document_id = "d1";
  workspace_id = "w1";
  user_id = "u1";
  title = none;
  updated_at = 0;
}

abbrev note : Memory
note = record {
  id = "y1";
  scope_type = thread;
  scope_id = "t1";
  workspace_id = "w1";
  updated_at = 0;
}

abbrev world : World tables
world = record {
  state = record {
    settings = [];
    files =
        record {
          id = "f1";
          document_id = "d1";
          document_workspace_id = "w1";
          storage_key = "k1";
          created_at = 0;
        }
        ∷ [];
    documents = lease ∷ [];
    chunks = record { id = "c1"; document_id = "d1" } ∷ [];
    threads = talk ∷ [];
    messages = record { id = "m1"; thread_id = "t1"; workspace_id = "w1"; created_at = 0 } ∷ [];
    memories = note ∷ [];
    storage = λ k. k == "k1";
  };
  cached = λ k. true;
}

-- Only the object "k9" cannot be deleted.
abbrev faults : Faults
faults = record { cache = false; storage = λ k. k == "k9" }
