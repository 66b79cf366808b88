-- ===== src/Purge/Full.antt =====
-- `runFullPurge`: what no table holds after it.
use contractor_reviewer.Common.{
  ℕ, String, Bool, true, false, not, ◌&&◌, ◌≡◌, refl, sym, ◌∙◌, ap, arith, List, [], ◌∷◌, Option,
  none, some, ◌==◌, In, inl, inr, Bool-cases,
}
use contractor_reviewer.Repository.{unless}
use contractor_reviewer.Repository.Loops.{any-In}
use contractor_reviewer.Entities.{DocumentFile, Document, Chunk, ChatThread, ChatMessage, Memory}
use contractor_reviewer.Purge.{
  Tables, State, Faults, everything, run_full_purge, purge_expired_files,
  purge_expired_text_and_embeddings, purge_expired_chat_messages, purge_expired_memory, is_orphan,
  is_empty_thread, threads_throw, scope_throws, ChatCounts, Report, empty?, no_counts, of_thread,
}
use contractor_reviewer.Purge.Policy.{IsCalm}
use text.Mathlib.TextEquality.{eq_iff}
use contractor_reviewer.Purge.Files
use contractor_reviewer.Purge.Texts
use contractor_reviewer.Purge.Threads
use contractor_reviewer.Purge.Memories

-- A row that is left passes no test by which rows are deleted, and was there before.
unless-some :
    {A : Type 0} (p : A → Bool) (o : Option A) (r : A)
    → unless p o ≡ some r
    → (o ≡ some r) × (p r ≡ false)
unless-some p none r e = absurd (ground arith)
unless-some p (some x) r e = elim (Bool-cases (p x)) [
  | inl b ↦ absurd (ground arith)
  | inr b ↦ let same : x ≡ r = ground arith in (ap some same, rw (← same) b)
]

module _ (T : Tables) (F : Faults) (new_id : String → String) (now : ℕ) (s : State T)
    (inj : (a b : String) → new_id a ≡ new_id b → a ≡ b)
    (calm : IsCalm T.settings new_id s.settings s.settings) where
  abbrev s₁ : State T
  s₁ = (purge_expired_files T F new_id now s).0

  -- The state in which the chats are purged.
  abbrev pub s₂ : State T
  s₂ = (purge_expired_text_and_embeddings T F new_id now s₁).0

  abbrev s₃ : State T
  s₃ = (purge_expired_chat_messages T F new_id now s₂).0

  abbrev s₄ : State T
  s₄ = (purge_expired_memory T F new_id now s₃).0

  abbrev t₀ : T.settings.Table
  t₀ = s.settings

  -- What holds of a state after the job: no file, chunk, message or memory is left that its policy
  -- wants deleted and at which no query threw; no message that a workspace without logs keeps no
  -- longer; no thread is empty; no memory is about a thread or document that is gone.
  pub record IsPurged (s' : State T) : Type 0 where
    pub files :
        (k : String) (f : DocumentFile)
        → T.files.at s'.files k ≡ some f
        → Files.file_doomed T F new_id now s.settings f ≡ false
    pub chunks :
        (d : Document) (k : String) (c : Chunk)
        → T.documents.at s.documents d.id ≡ some d
        → T.chunks.at s'.chunks k ≡ some c
        → Texts.text_due T F new_id now s.settings d ≡ true
        → F.chunks d.id ≡ false
        → (c.document_id == d.id) ≡ false
    pub messages :
        (k : String) (m : ChatMessage)
        → T.messages.at s'.messages k ≡ some m
        → Threads.message_doomed T F new_id now s.settings s₂ m ≡ false
    pub threads :
        (k : String) (t : ChatThread)
        → T.threads.at s'.threads k ≡ some t
        → (m : ChatMessage) × (T.messages.at s'.messages m.id ≡ some m) × (m.thread_id ≡ t.id)
    pub memories :
        (k : String) (m : Memory)
        → T.memories.at s'.memories k ≡ some m
        → scope_throws T F new_id now m ≡ false
        → F.memory m.id ≡ false
        → (is_orphan T F new_id now s' m ≡ false)
          × (F.config m.workspace_id ≡ false
              → Memories.memory_old T F new_id now s.settings s₃ m ≡ false)

  nonempty : (l : List ChatMessage) → empty? l ≡ false → (m : ChatMessage) × In m l
  nonempty [] e = absurd (ground arith)
  nonempty (m ∷ l) e = (m, inl refl)

  files-part :
      ((k : String)
        → T.files.at s₁.files k
          ≡ unless (Files.file_doomed T F new_id now t₀) (T.files.at s.files k))
      × Files.Purged T F new_id now t₀
          (T.files.find everything s.files)
          (s, no_counts)
          (purge_expired_files T F new_id now s)
  files-part = Files.purge_expired_files_lem T F new_id now t₀ inj s calm

  texts-part :
      Texts.Purged T F new_id now t₀
        (T.documents.find everything s₁.documents)
        (s₁, no_counts)
        (purge_expired_text_and_embeddings T F new_id now s₁)
  texts-part = Texts.purge_expired_texts_lem T F new_id now t₀ inj s₁ files-part.1.calm

  chat-part : Threads.Purged T F new_id now t₀ s₂ s₃
  chat-part = Threads.purge_expired_chat_messages_lem T F new_id now t₀ s₂ inj texts-part.calm

  memory-part :
      ((k : String)
        → T.memories.at s₄.memories k
          ≡ unless (Memories.memory_doomed T F new_id now t₀ s₃) (T.memories.at s₃.memories k))
      × Memories.Purged T F new_id now t₀ s₃
          (T.memories.find everything s₃.memories)
          (s₃, no_counts)
          (purge_expired_memory T F new_id now s₃)
  memory-part = Memories.purge_expired_memory_lem T F new_id now t₀ s₃ inj chat-part.calm

  chats-answer :
      threads_throw T F new_id now (Threads.after_passes T F new_id now t₀ s₂).0 ≡ false
      → (c : ChatCounts) × ((purge_expired_chat_messages T F new_id now s₂).1 ≡ some c)
  chats-answer go = Threads.purge_expired_chat_messages-some T F new_id now t₀ s₂ go

  left-files :
      (k : String) (f : DocumentFile)
      → T.files.at s₄.files k ≡ some f
      → Files.file_doomed T F new_id now t₀ f ≡ false
  left-files k f e =
      let same : s₄.files ≡ s₁.files = memory-part.1.files ∙ chat-part.files ∙ texts-part.files in
      (unless-some (Files.file_doomed T F new_id now t₀) (T.files.at s.files k) f
        (sym (files-part.0 k) ∙ ap (λ t. T.files.at t k) (sym same) ∙ e)).1

  left-chunks :
      (d : Document) (k : String) (c : Chunk)
      → T.documents.at s.documents d.id ≡ some d
      → T.chunks.at s₄.chunks k ≡ some c
      → Texts.text_due T F new_id now t₀ d ≡ true
      → F.chunks d.id ≡ false
      → (c.document_id == d.id) ≡ false
  left-chunks d k c h e due ok =
      let same : s₄.chunks ≡ s₂.chunks = memory-part.1.chunks ∙ chat-part.chunks in
      let l = T.documents.find everything s₁.documents in
      let (was, left) =
        unless-some (Texts.chunk_doomed T F new_id now t₀ l) (T.chunks.at s₁.chunks k) c
          (sym (texts-part.chunks k) ∙ ap (λ t. T.chunks.at t k) (sym same) ∙ e) in
      let listed =
        T.documents.find_complete everything s₁.documents d.id d
          (ap (λ t. T.documents.at t d.id) files-part.1.documents ∙ h) refl in
      elim (Bool-cases (c.document_id == d.id)) [
        | inr b ↦ b
        | inl b ↦ absurd (
            ground (
              arith,
              left,
              any-In
                  (λ x.
                    Texts.text_due T F new_id now t₀ x
                    && not (F.chunks x.id)
                    && c.document_id == x.id)
                  d l listed (ground (arith, due, ok, b)),
            ))
      ]

  left-messages :
      (k : String) (m : ChatMessage)
      → T.messages.at s₄.messages k ≡ some m
      → Threads.message_doomed T F new_id now t₀ s₂ m ≡ false
  left-messages k m e =
      (unless-some (Threads.message_doomed T F new_id now t₀ s₂) (T.messages.at s₂.messages k) m (
        sym (chat-part.messages k)
        ∙ ap (λ t. T.messages.at t k) (sym memory-part.1.messages)
        ∙ e)).1

  left-threads :
      threads_throw T F new_id now (Threads.after_passes T F new_id now t₀ s₂).0 ≡ false
      → (k : String) (t : ChatThread) → T.threads.at s₄.threads k ≡ some t
      → (m : ChatMessage) × (T.messages.at s₄.messages m.id ≡ some m) × (m.thread_id ≡ t.id)
  left-threads go k t e =
      let (was, left) =
        unless-some (is_empty_thread T F new_id now s₃) (T.threads.at s₂.threads k) t (
          sym (chat-part.threads k ∙ rw go refl)
          ∙ ap (λ x. T.threads.at x k) (sym memory-part.1.threads)
          ∙ e) in
      let (m, i) = nonempty (T.messages.find (of_thread t.id) s₃.messages) left in
      let (h, q) = T.messages.find_sound (of_thread t.id) s₃.messages m i in
      (m, ap (λ x. T.messages.at x m.id) memory-part.1.messages ∙ h, (eq_iff m.thread_id t.id).0 q)

  left-memories :
      (k : String) (m : Memory)
      → T.memories.at s₄.memories k ≡ some m
      → scope_throws T F new_id now m ≡ false
      → F.memory m.id ≡ false
      → (is_orphan T F new_id now s₄ m ≡ false)
        × (F.config m.workspace_id ≡ false → Memories.memory_old T F new_id now t₀ s₃ m ≡ false)
  left-memories k m e asked ok =
      let (was, left) =
        unless-some (Memories.memory_doomed T F new_id now t₀ s₃) (T.memories.at s₃.memories k) m
          (sym (memory-part.0 k) ∙ e) in
      (
        Memories.is_orphan-same T F new_id now t₀ s₃ s₄ m memory-part.1.threads
              memory-part.1.documents
            ∙ ground (arith, left, ok, asked),
        λ read. ground (arith, left, ok, asked, read),
      )

  -- If finding and removing the empty threads does not throw, the job ends with a report, and no
  -- file, chunk, message or memory is left that it should have deleted: no file that has outlived
  -- the policy of its workspace as it was at the start, no chunk of such a document, no such
  -- message and none that a workspace without logs keeps no longer by its settings when the chats
  -- are purged, no thread without a message, and no memory that is about a thread or document that
  -- is gone or that has outlived the policy, but for those at which a query threw.
  pub run_full_purge_lem :
      F.find_threads ≡ false
      → F.remove_threads ≡ false
      → ((r : Report) × ((run_full_purge T F new_id now s).1 ≡ some r))
        × IsPurged (run_full_purge T F new_id now s).0
  unfolding run_full_purge
  run_full_purge_lem found removed =
      let go : threads_throw T F new_id now (Threads.after_passes T F new_id now t₀ s₂).0 ≡ false =
        ground (arith, found, removed) in
      let (c, told) = chats-answer go in
      rw (told, run_full_purge)
        (
          (
            record {
              files = (purge_expired_files T F new_id now s).1;
              text_embeddings = (purge_expired_text_and_embeddings T F new_id now s₁).1;
              chat = c;
              memory = (purge_expired_memory T F new_id now s₃).1;
            },
            refl,
          ),
          record {
            files = left-files;
            chunks = left-chunks;
            messages = left-messages;
            threads = left-threads go;
            memories = left-memories;
          },
        )
