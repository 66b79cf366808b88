-- ===== src/Deletion/Effects.antt =====
-- What `deleteDocument` leaves.
use contractor_reviewer.Common.{
  String, Bool, true, false, not, ◌&&◌, ◌||◌, ◌≡◌, none, some, if◌then◌else◌, ◌==◌, any,
}
use contractor_reviewer.Repository.{unless}
use contractor_reviewer.Entities.{Memory, thread, document, workspace}
use contractor_reviewer.Purge.{Tables, of_document}
use contractor_reviewer.Deletion.{Faults, World, file_of, thread_of, memory_of, message_of}

module _ (T : Tables) (F : Faults) where
  -- The memory is about a thread of the document.
  abbrev pub of_thread_memory : String → World T → Memory → Bool
  of_thread_memory id w m = elim m.scope_type [
    | thread ↦
        elim (T.threads.find_one (λ t. t.id == m.scope_id && thread_of id t) w.state.threads) [
          | none ↦ false
          | some t ↦ true
        ]
    | document ↦ false
    | workspace ↦ false
  ]

  -- The document's rows and objects are gone, but for objects at which the storage threw, and all
  -- else is left. Nothing is said of the memories about its threads.
  pub record IsDeleted (id : String) (w w' : World T) : Type 0 where
    pub documents :
        (k : String)
        → T.documents.at w'.state.documents k
          ≡ (if id == k then none else T.documents.at w.state.documents k)
    pub files :
        (k : String)
        → T.files.at w'.state.files k ≡ unless (file_of id) (T.files.at w.state.files k)
    pub chunks :
        (k : String)
        → T.chunks.at w'.state.chunks k ≡ unless (of_document id) (T.chunks.at w.state.chunks k)
    pub memories :
        (k : String)
        → ((m : Memory)
            → T.memories.at w.state.memories k ≡ some m
            → of_thread_memory id w m ≡ false)
        → T.memories.at w'.state.memories k
          ≡ unless (memory_of id) (T.memories.at w.state.memories k)
    pub threads :
        (k : String)
        → T.threads.at w'.state.threads k ≡ unless (thread_of id) (T.threads.at w.state.threads k)
    pub messages :
        (k : String)
        → T.messages.at w'.state.messages k
          ≡ unless (message_of T F id w.state) (T.messages.at w.state.messages k)
    pub storage :
        (k : String)
        → w'.state.storage k ≡ (
            w.state.storage k
            && not (
                any
                  (λ f. not (F.storage f.storage_key) && k == f.storage_key)
                  (T.files.find (file_of id) w.state.files)))
    pub settings : w'.state.settings ≡ w.state.settings
    pub cached : (k : String) → w'.cached k ≡ (w.cached k && (F.cache || not (k == id)))
