-- ===== src/Review/Again.antt =====
-- A review that is run again, and what a run leaves in the table.
use contractor_reviewer.Common.{
  ℕ, String, Bool, true, false, ◌≡◌, refl, sym, ap, ◌∙◌, ◌⊎◌, inl, inr, arith, List, Option, none,
  some, Option-cases, Bool-cases, ==_self,
}
use contractor_reviewer.Repository.{Repository}
use contractor_reviewer.Repository.Lookup.{find_one-insert, find_one-none}
use contractor_reviewer.Review.{
  ReviewedDocument, DocumentReview, document_key, review_key, LlmDetectorResult, LlmOutcome, Result,
  Error, ok, err, Services, ReviewOptions, Fresh, same_model,
}
use contractor_reviewer.Review.Runs.{
  llm_part, is_existing, new_review, store_review, readable, run_review,
}

pub Result-cases :
    {A : Type 0} (r : Result A) → ((a : A) × (r ≡ ok a)) ⊎ ((e : Error) × (r ≡ err e))
Result-cases (ok a) = inl (a, refl)
Result-cases (err e) = inr (e, refl)

abbrev value_or : {A : Type 0} → A → Result A → A
value_or d (ok a) = a
value_or d (err e) = d

same_model_self : (m : Option String) → same_model m m ≡ true
same_model_self none = refl
same_model_self (some a) = ==_self a

module _ (S : Services) (N : Repository review_key) where
  new_review-existing :
      (f : Fresh) (o : ReviewOptions) (d : ReviewedDocument) (text : List ℕ)
      (llm : LlmDetectorResult)
      → is_existing S o.document_id llm.model_used (new_review S f o d text llm) ≡ true
  new_review-existing f o d text llm =
      ground (
        arith,
        ==_self o.document_id,
        ==_self S.active_rules_version,
        same_model_self llm.model_used,
      )

  -- Where no row meets the condition, one that does and has an unused key is found.
  find_one-first :
      (p : DocumentReview → Bool) (t : N.Table) (r : DocumentReview)
      → N.find_one p t ≡ none
      → N.at t r.id ≡ none
      → p r ≡ true
      → N.find_one p (N.save r t) ≡ some r
  find_one-first p t r e fresh h =
      find_one-insert review_key N p t r
        (λ a b ha hb pa pb. absurd (ground (arith, N.find_one_complete p t a.id a e ha, pa))) fresh
        (λ q. e)
      ∙ rw h refl

  find_one-delete : (p : DocumentReview → Bool) (t : N.Table) → N.find_one p (N.delete p t) ≡ none
  find_one-delete p t = find_one-none review_key N p (N.delete p t) (λ r h.
      elim (Option-cases (N.at t r.id)) [
        | inl e ↦ absurd (ground (arith, h, e, N.at-delete p t r.id))
        | inr (x, e) ↦ elim (Bool-cases (p x)) [
          | inl b ↦ absurd (ground (arith, h, e, b, N.at-delete p t r.id))
          | inr b ↦ ground (arith, h, e, b, N.at-delete p t r.id)
        ]
      ])

  -- After a run the table has one review to find for the key, the one returned.
  store_review-found :
      (f : Fresh) (o : ReviewOptions) (d : ReviewedDocument) (text : List ℕ)
      (llm : LlmDetectorResult) (D : Repository document_key) (t : N.Table)
      → N.at t f.review_id ≡ none
      → let x = store_review S D N f o d text llm t in
        N.find_one (is_existing S o.document_id llm.model_used) x.1 ≡ some x.0
  unfolding store_review
  store_review-found f o d text llm D t fresh =
      let p = is_existing S o.document_id llm.model_used in
      let r = new_review S f o d text llm in
      elim (Bool-cases o.force) [
        | inl b ↦
            rw (b, store_review)
              (find_one-first p (N.delete p t) r (find_one-delete p t)
                (ground (arith, fresh, N.at-delete p t f.review_id))
                (new_review-existing f o d text llm))
        | inr b ↦ elim (Option-cases (N.find_one p t)) [
          | inr (e, h) ↦ rw (b, h, store_review) h
          | inl h ↦
              rw (b, h, store_review)
                (find_one-first p t r h fresh (new_review-existing f o d text llm))
        ]
      ]

  module _ (D : Repository document_key) where
    store_review-again :
        (f : Fresh) (o : ReviewOptions) (d : ReviewedDocument) (text : List ℕ)
        (llm : LlmDetectorResult) (t : N.Table) (r : DocumentReview)
        → N.find_one (is_existing S o.document_id llm.model_used) t ≡ some r
        → store_review S D N f (record o { force = false }) d text llm t ≡ (r, t)
    unfolding store_review
    store_review-again f o d text llm t r h = rw (h, store_review) refl

    pub run_review-ok :
        (f : Fresh) (o : ReviewOptions) (llm : LlmOutcome) (documents : D.Table) (t : N.Table)
        (x : ReviewedDocument × List ℕ)
        → readable S D N o.document_id o.workspace_id documents ≡ ok x
        → run_review S D N f o llm documents t ≡ (
          ok (store_review S D N f o x.0 x.1 (llm_part S llm) t).0,
          (store_review S D N f o x.0 x.1 (llm_part S llm) t).1,
        )
    unfolding run_review
    run_review-ok f o llm documents t x h = rw (h, run_review) refl

    -- If the id for a new row is unused, then running the review of a document again, without force
    -- and with any outcome of the language model that names the same model, returns the review that
    -- the first run returned, and stores nothing.
    pub run_review-again :
        (f f' : Fresh) (o : ReviewOptions) (llm llm' : LlmOutcome) (documents : D.Table)
        (t t' : N.Table) (r : DocumentReview)
        → N.at t f.review_id ≡ none
        → (llm_part S llm').model_used ≡ (llm_part S llm).model_used
        → run_review S D N f o llm documents t ≡ (ok r, t')
        → run_review S D N f' (record o { force = false }) llm' documents t' ≡ (ok r, t')
    unfolding run_review
    run_review-again f f' o llm llm' documents t t' r fresh same e =
        elim (Result-cases (readable S D N o.document_id o.workspace_id documents)) [
          | inr (x, h) ↦ absurd (ground (arith, h, ap (λ y. y.0) e))
          | inl (x, h) ↦
              let y = store_review S D N f o x.0 x.1 (llm_part S llm) t in
              let got : ◌≡◌ {A = Result DocumentReview × N.Table} (ok y.0, y.1) (ok r, t') =
                sym (run_review-ok f o llm documents t x h) ∙ e in
              let row : y.0 ≡ r = ap (λ z. value_or r z.0) got in
              let table : y.1 ≡ t' = ap (λ z. z.1) got in
              let found = store_review-found f o x.0 x.1 (llm_part S llm) D t fresh in
              run_review-ok f' (record o { force = false }) llm' documents t' x h
              ∙ ap (λ z. (ok z.0, z.1))
                  (store_review-again f' o x.0 x.1 (llm_part S llm') t' r (
                    ap (λ m. N.find_one (is_existing S o.document_id m) t') same
                    ∙ ap (N.find_one (is_existing S o.document_id (llm_part S llm).model_used))
                        (sym table)
                    ∙ found
                    ∙ ap some row))
        ]
