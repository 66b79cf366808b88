-- ===== src/Repository/InMemory.antt =====
-- A repository over a list of rows, newest first, where a row hides the older ones of its key. It
-- shows that the laws of `Repository` can be met, and runs the examples.
use contractor_reviewer.Repository.{Repository, Distinct, unless}
use contractor_reviewer.Common.{
  String, ◌≡◌, refl, inl, inr, Bool, true, false, not, ◌&&◌, ◌||◌, List, [], ◌∷◌, Option, none,
  some, arith, if◌then◌else◌, ◌==◌, In, Bool-cases, Option-cases,
}
use text.Mathlib.TextEquality.{eq_iff}

module _ {Row : Type 0} (key : Row → String) where
  abbrev pub at : List Row → String → Option Row
  at [] k = none
  at (r ∷ t) k = if key r == k then some r else at t k

  abbrev pub find_one : (Row → Bool) → List Row → Option Row
  find_one p [] = none
  find_one p (r ∷ t) = if p r then some r else find_one (λ s. p s && not (key s == key r)) t

  abbrev pub find : (Row → Bool) → List Row → List Row
  find p [] = []
  find p (r ∷ t) =
      let rest = find (λ s. p s && not (key s == key r)) t in if p r then r ∷ rest else rest

  abbrev pub remove : Row → List Row → List Row
  remove r [] = []
  remove r (s ∷ t) = if key s == key r then remove r t else s ∷ remove r t

  abbrev pub delete : (Row → Bool) → List Row → List Row
  delete p [] = []
  delete p (r ∷ t) =
      let hidden = delete (λ s. p s || key s == key r) t in
      let kept = delete p t in if p r then hidden else r ∷ kept

  pub key-at : (t : List Row) (k : String) (r : Row) → at t k ≡ some r → key r ≡ k
  key-at [] k r e = ground arith
  key-at (s ∷ t) k r e = ground (arith, key-at t k r, eq_iff (key s) k)

  pub at-remove :
      (r : Row) (t : List Row) (k : String)
      → at (remove r t) k ≡ (if key r == k then none else at t k)
  at-remove r [] k = ground arith
  at-remove r (s ∷ t) k =
      ground (arith, at-remove r t k, eq_iff (key s) k, eq_iff (key r) k, eq_iff (key s) (key r))

  pub at-delete :
      (p : Row → Bool) (t : List Row) (k : String) → at (delete p t) k ≡ unless p (at t k)
  at-delete p [] k = refl
  at-delete p (r ∷ t) k = elim (Bool-cases (p r)) [
    | inl gone ↦ elim (Option-cases (at t k)) [
      | inl e ↦ ground (arith, at-delete (λ s. p s || key s == key r) t k, eq_iff (key r) k)
      | inr (s, e) ↦ ground (
        arith,
        at-delete (λ s. p s || key s == key r) t k,
        key-at t k s e,
        eq_iff (key r) k,
        eq_iff (key s) (key r),
      )
    ]
    | inr kept ↦ ground (arith, at-delete p t k)
  ]

  pub find_one_sound :
      (p : Row → Bool) (t : List Row) (r : Row)
      → find_one p t ≡ some r
      → (at t (key r) ≡ some r) × (p r ≡ true)
  find_one_sound p [] r e = ground arith
  find_one_sound p (s ∷ t) r e = ground (
    arith,
    find_one_sound (λ x. p x && not (key x == key s)) t r,
    eq_iff (key s) (key r),
    eq_iff (key r) (key s),
  )

  pub find_one_complete :
      (p : Row → Bool) (t : List Row) (k : String) (r : Row)
      → find_one p t ≡ none
      → at t k ≡ some r
      → p r ≡ false
  find_one_complete p [] k r e h = ground arith
  find_one_complete p (s ∷ t) k r e h = ground (
    arith,
    find_one_complete (λ x. p x && not (key x == key s)) t k r,
    key-at t k r,
    eq_iff (key s) k,
    eq_iff (key r) (key s),
  )

  pub find_sound :
      (p : Row → Bool) (t : List Row) (r : Row)
      → In r (find p t)
      → (at t (key r) ≡ some r) × (p r ≡ true)
  find_sound p [] r m = absurd m
  find_sound p (s ∷ t) r m = ground (
    arith,
    find_sound (λ x. p x && not (key x == key s)) t r,
    eq_iff (key s) (key r),
    eq_iff (key r) (key s),
  )

  pub find_complete :
      (p : Row → Bool) (t : List Row) (k : String) (r : Row)
      → at t k ≡ some r
      → p r ≡ true
      → In r (find p t)
  find_complete p [] k r e h = ground arith
  find_complete p (s ∷ t) k r e h = ground (
    arith,
    find_complete (λ x. p x && not (key x == key s)) t k r,
    key-at t k r,
    eq_iff (key s) k,
    eq_iff (key r) (key s),
  )

  pub find-Distinct : (p : Row → Bool) (t : List Row) → Distinct key (find p t)
  find-Distinct p [] = tt
  find-Distinct p (r ∷ t) = elim (Bool-cases (p r)) [
    | inr no_match ↦ rw no_match (find-Distinct (λ s. p s && not (key s == key r)) t)
    | inl b ↦ rw b (
      λ s m.
          let (h, q) = find_sound (λ x. p x && not (key x == key r)) t s m in
          λ e. ground (arith, q, eq_iff (key s) (key r), e),
      find-Distinct (λ s. p s && not (key s == key r)) t,
    )
  ]

  abbrev pub in_memory : Repository key
  in_memory = record {
    Table = List Row;
    at = at;
    find_one = find_one;
    find = find;
    save = ◌∷◌;
    remove = remove;
    delete = delete;
    key-at = key-at;
    at-save = λ r t k. refl;
    at-remove = at-remove;
    at-delete = at-delete;
    find_one_sound = find_one_sound;
    find_one_complete = find_one_complete;
    find_sound = find_sound;
    find_complete = find_complete;
    find-Distinct = find-Distinct;
  }
