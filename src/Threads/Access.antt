-- ===== src/Threads/Access.antt =====
-- Who reaches and changes which thread.
use contractor_reviewer.Common.{
  ℕ, ◌≤◌, String, Bool, true, not, ◌&&◌, ◌||◌, ◌≡◌, sym, ap, ◌∙◌, inl, inr, arith, List, [], ◌∷◌,
  none, some, Option-cases, Bool-cases, ◌==◌, if◌then◌else◌, length, length-append, length-take,
  ltb, take,
}
use contractor_reviewer.Repository.{unless}
use contractor_reviewer.Entities.{ChatThread}
use contractor_reviewer.Threads.{
  Tables, Db, ok, find_document, find_by_id, delete_thread, update_title, shortened, of_thread,
  of_user,
}
use text.Mathlib.TextEquality.{eq_iff}

-- A title has at most 83 code units.
pub length-shortened : (s : List ℕ) → length (shortened s) ≤ 83
unfolding shortened
length-shortened s = elim (Bool-cases (ltb 80 (length s))) [
  | inl e ↦
      rw (e, shortened)
        (omega (arith, length-append (take 80 s) (b'.' ∷ b'.' ∷ b'.' ∷ []), length-take 80 s))
  | inr e ↦ rw (e, shortened) (omega (arith, length-append (take 80 s) [], length-take 80 s))
]

module _ (T : Tables) (db : Db T) (id document ws user : String) where
  -- If `deleteThread` returns, the thread was one of the document and of the workspace, and the
  -- user's own or the user may delete any; it is gone with all its messages, every other thread
  -- and message is left, and the result is the number of its messages.
  pub delete_thread_lem :
      (can_delete_any : Bool) (n : ℕ) (db' : Db T)
      → delete_thread T id document ws user can_delete_any db ≡ (ok n, db')
      → (t : ChatThread) × (T.threads.at db.threads id ≡ some t)
        × (t.document_id ≡ document)
        × (t.workspace_id ≡ ws)
        × ((can_delete_any || t.user_id == user) ≡ true)
        × (n ≡ length (T.messages.find (of_thread id) db.messages))
        × ((k : String)
            → T.threads.at db'.threads k ≡ (if id == k then none else T.threads.at db.threads k))
        × ((k : String)
            → T.messages.at db'.messages k ≡ unless (of_thread id) (T.messages.at db.messages k))
  unfolding delete_thread find_document
  delete_thread_lem any n db' e =
      elim (Option-cases
        (T.documents.find_one (λ d. d.id == document && d.workspace_id == ws) db.documents)) [
          | inl o ↦ absurd (ground arith)
          | inr (d, o) ↦
              let p = λ (t : ChatThread).
                t.id == id && (t.document_id == document && t.workspace_id == ws) in
              elim (Option-cases (T.threads.find_one p db.threads)) [
                | inl q ↦ absurd (ground arith)
                | inr (t, q) ↦
                    let (h, s) = T.threads.find_one_sound p db.threads t q in
                    let same : t.id ≡ id = ground (arith, eq_iff t.id id) in
                    elim (Bool-cases (not any && not (t.user_id == user))) [
                      | inl r ↦ absurd (ground arith)
                      | inr r ↦
                          let count : n ≡ length (T.messages.find (of_thread t.id) db.messages) =
                            ground arith in
                          let left : db'.threads ≡ T.threads.remove t db.threads = ground arith in
                          let gone : db'.messages ≡ T.messages.delete (of_thread t.id) db.messages =
                            ground arith in
                          (
                            t,
                            ap (T.threads.at db.threads) (sym same) ∙ h,
                            ground (arith, eq_iff t.document_id document),
                            ground (arith, eq_iff t.workspace_id ws),
                            ground arith,
                            count
                                ∙ ap (λ i. length (T.messages.find (of_thread i) db.messages)) same,
                            λ k.
                                ap (λ x. T.threads.at x k) left
                                ∙ T.threads.at-remove t db.threads k
                                ∙ ap (λ i. if i == k then none else T.threads.at db.threads k) same,
                            λ k.
                                ap (λ x. T.messages.at x k) gone
                                ∙ T.messages.at-delete (of_thread t.id) db.messages k
                                ∙ ap (λ i. unless (of_thread i) (T.messages.at db.messages k)) same,
                          )
                    ]
              ]
        ]

  -- If `updateTitle` returns, the thread was the user's own, of the document and the workspace; its
  -- title is the given one cut to 80 code units, every other column but the time and every other
  -- thread is as before.
  pub update_title_lem :
      (now : ℕ) (title : List ℕ) (t' : ChatThread) (db' : Db T)
      → update_title T now id document ws user title db ≡ (ok t', db')
      → (t : ChatThread) × (T.threads.at db.threads id ≡ some t)
        × (of_user document ws user t ≡ true)
        × (t' ≡ record t { title = some (shortened title); updated_at = now })
        × ((k : String)
            → T.threads.at db'.threads k ≡ (if id == k then some t' else T.threads.at db.threads k))
  unfolding update_title find_by_id find_document
  update_title_lem now title t' db' e =
      elim (Option-cases
        (T.documents.find_one (λ d. d.id == document && d.workspace_id == ws) db.documents)) [
          | inl o ↦ absurd (ground arith)
          | inr (d, o) ↦
              let p = λ (t : ChatThread). t.id == id && of_user document ws user t in
              elim (Option-cases (T.threads.find_one p db.threads)) [
                | inl q ↦ absurd (ground arith)
                | inr (t, q) ↦
                    let (h, s) = T.threads.find_one_sound p db.threads t q in
                    let same : t.id ≡ id = ground (arith, eq_iff t.id id) in
                    let written : t'
                        ≡ record t { title = some (shortened title); updated_at = now } =
                      ground arith in
                    let saved : db'.threads ≡ T.threads.save t' db.threads = ground arith in
                    (
                      t,
                      ap (T.threads.at db.threads) (sym same) ∙ h,
                      ground arith,
                      written,
                      λ k.
                          ap (λ x. T.threads.at x k) saved
                          ∙ T.threads.at-save t' db.threads k
                          ∙ ap (λ i. if i == k then some t' else T.threads.at db.threads k)
                              (ap (λ (x : ChatThread). x.id) written ∙ same),
                    )
              ]
        ]
