-- ===== src/Deletion.antt =====
-- apps/api/src/documents/document-deletion.orchestrator.ts: the deletion of a document with all that
-- belongs to it. The tables and the object storage are those of Purge. Of the cache of answers the
-- state says for which documents it has any. The messages that go with the document are those of its
-- threads.
pub mod Effects
mod Tests
use contractor_reviewer.Repository.{Repository}
use contractor_reviewer.Entities.{
  DocumentFile, Document, Chunk, ChatThread, ChatMessage, Memory, MemoryScopeType, thread, document,
  workspace,
}
use contractor_reviewer.Purge.{Tables, State, of_document}
use contractor_reviewer.Common.{
  String, Bool, true, false, not, ◌&&◌, ◌||◌, List, [], ◌∷◌, Option, none, some, if◌then◌else◌,
  ◌==◌, any,
}

-- What throws: clearing the cache, which is caught in the cache service, and deleting an object of
-- the storage, which is caught in the loop.
pub record Faults : Type 0 where
  pub cache : Bool
  pub storage : String → Bool

pub record World (T : Tables) : Type 0 where
  pub state : State T
  pub cached : String → Bool

abbrev pub file_of : String → DocumentFile → Bool
file_of id f = f.document_id == id

abbrev pub thread_of : String → ChatThread → Bool
thread_of id t = t.document_id == id

abbrev is_document : MemoryScopeType → Bool
is_document document = true
is_document _ = false

-- `{ scopeType: 'document', scopeId: documentId }`
abbrev pub memory_of : String → Memory → Bool
memory_of id m = is_document m.scope_type && m.scope_id == id

module _ (T : Tables) (F : Faults) where
  abbrev pub delete_object : String → (String → Bool) → String → Bool
  delete_object key storage k = storage k && (F.storage key || not (k == key))

  -- The loop over the document's files.
  pub delete_objects : List DocumentFile → (String → Bool) → String → Bool
  delete_objects [] storage = storage
  delete_objects (f ∷ fs) storage = delete_objects fs (delete_object f.storage_key storage)

  -- RagCacheService.invalidateDocument
  abbrev invalidate : String → (String → Bool) → String → Bool
  invalidate id cached k = cached k && (F.cache || not (k == id))

  abbrev pub message_of : String → State T → ChatMessage → Bool
  message_of id s m = any (λ t. t.id == m.thread_id) (T.threads.find (thread_of id) s.threads)

  -- `remove(document)`, with ON DELETE CASCADE.
  abbrev cascade : Document → State T → State T
  cascade d s = record s {
    documents = T.documents.remove d s.documents;
    files = T.files.delete (file_of d.id) s.files;
    chunks = T.chunks.delete (of_document d.id) s.chunks;
    messages = T.messages.delete (message_of d.id s) s.messages;
    threads = T.threads.delete (thread_of d.id) s.threads;
  }

  pub delete_document : (id ws : String) → World T → Bool × World T
  delete_document id ws w =
      elim (T.documents.find_one (λ d. d.id == id && d.workspace_id == ws) w.state.documents) [
        | none ↦ (false, w)
        | some d ↦
            let s = w.state in
            let chunkless : State T = record s {
              chunks = T.chunks.delete (of_document id) s.chunks;
            } in
            let forgotten : State T = record chunkless {
              memories = T.memories.delete (memory_of id) chunkless.memories;
            } in
            let emptied : State T = record forgotten {
              storage = delete_objects (T.files.find (file_of d.id) s.files) forgotten.storage;
            } in
            (true, record { state = cascade d emptied; cached = invalidate id w.cached })
      ]
