-- ===== src/Repository/Loops.antt =====
-- Loops that remove the rows of a list one after another.
use contractor_reviewer.Common.{
  String, Bool, true, ◌&&◌, ◌≡◌, refl, ap, inl, inr, arith, List, [], ◌∷◌, none, some, Option-cases,
  Bool-cases, if◌then◌else◌, ◌==◌, In, any,
}
use contractor_reviewer.Repository.{Repository, unless}
use text.Mathlib.TextEquality.{eq_iff}

-- A test that holds of an element of a list.
pub any-In :
    {A : Type 0} (p : A → Bool) (x : A) (xs : List A) → In x xs → p x ≡ true → any p xs ≡ true
any-In p x [] m h = absurd m
any-In p x (y ∷ xs) (inl e) h = ground (arith, ap p e, h)
any-In p x (y ∷ xs) (inr m) h = ground (arith, any-In p x xs m h)

pub In-any :
    {A : Type 0} (p : A → Bool) (xs : List A) → any p xs ≡ true → (x : A) × In x xs × (p x ≡ true)
In-any p [] h = absurd (ground arith)
In-any p (x ∷ xs) h = elim (Bool-cases (p x)) [
  | inl b ↦ (x, inl refl, b)
  | inr b ↦ let (y, m, q) = In-any p xs (ground arith) in (y, inr m, q)
]

module _ {Row : Type 0} (key : Row → String) (N : Repository key) where
  -- `for (r of rows) if (doomed(r)) await remove(r)`
  unfoldable pub remove_each : (Row → Bool) → List Row → N.Table → N.Table
  remove_each doomed [] t = t
  remove_each doomed (r ∷ rows) t = remove_each doomed rows (if doomed r then N.remove r t else t)

  -- `remove(rows)`
  unfoldable pub remove_all : List Row → N.Table → N.Table
  remove_all [] t = t
  remove_all (r ∷ rows) t = remove_all rows (N.remove r t)

  at-remove_each :
      (doomed : Row → Bool) (rows : List Row) (t : N.Table) (k : String)
      → N.at (remove_each doomed rows t) k
        ≡ (if any (λ r. doomed r && key r == k) rows then none else N.at t k)
  unfolding remove_each
  at-remove_each doomed [] t k = refl
  at-remove_each doomed (r ∷ rows) t k = ground (
    arith,
    at-remove_each doomed rows (N.remove r t) k,
    at-remove_each doomed rows t k,
    N.at-remove r t k,
  )

  at-remove_all :
      (rows : List Row) (t : N.Table) (k : String)
      → N.at (remove_all rows t) k ≡ (if any (λ r. key r == k) rows then none else N.at t k)
  unfolding remove_all
  at-remove_all [] t k = refl
  at-remove_all (r ∷ rows) t k =
      ground (arith, at-remove_all rows (N.remove r t) k, N.at-remove r t k)

  -- The loop over all rows that meet `p` deletes exactly the doomed ones of them.
  pub remove_each-found :
      (p doomed : Row → Bool) (t : N.Table) (k : String)
      → N.at (remove_each doomed (N.find p t) t) k ≡ unless (λ r. p r && doomed r) (N.at t k)
  remove_each-found p doomed t k =
      elim (Bool-cases (any (λ r. doomed r && key r == k) (N.find p t))) [
        | inl b ↦
            let (r, m, q) = In-any (λ r. doomed r && key r == k) (N.find p t) b in
            let (h, pr) = N.find_sound p t r m in
            let same : key r ≡ k = ground (arith, q, eq_iff (key r) k) in
            let h' : N.at t k ≡ some r = rw (← same) h in
            ground (arith, at-remove_each doomed (N.find p t) t k, b, h', pr, q)
        | inr b ↦ elim (Option-cases (N.at t k)) [
          | inl e ↦ ground (arith, at-remove_each doomed (N.find p t) t k, b, e)
          | inr (r, e) ↦ elim (Bool-cases (p r && doomed r)) [
            | inr d ↦ ground (arith, at-remove_each doomed (N.find p t) t k, b, e, d)
            | inl d ↦ absurd (
                ground (
                  arith,
                  b,
                  any-In (λ r'. doomed r' && key r' == k) r (N.find p t)
                      (N.find_complete p t k r e (ground (arith, d)))
                      (ground (arith, d, N.key-at t k r e, eq_iff (key r) k)),
                ))
          ]
        ]
      ]

  -- Removing those of the found rows that pass a filter deletes exactly these.
  pub remove_all-found :
      (p doomed : Row → Bool) (rows : List Row) (t : N.Table) (k : String)
      → ((r : Row) → In r rows → (N.at t (key r) ≡ some r) × (p r ≡ true) × (doomed r ≡ true))
      → ((r : Row) → N.at t k ≡ some r → p r ≡ true → doomed r ≡ true → In r rows)
      → N.at (remove_all rows t) k ≡ unless (λ r. p r && doomed r) (N.at t k)
  remove_all-found p doomed rows t k sound complete =
      elim (Bool-cases (any (λ r. key r == k) rows)) [
        | inl b ↦
            let (r, m, q) = In-any (λ r. key r == k) rows b in
            let (h, pr, dr) = sound r m in
            let same : key r ≡ k = (eq_iff (key r) k).0 q in
            let h' : N.at t k ≡ some r = rw (← same) h in
            ground (arith, at-remove_all rows t k, b, h', pr, dr)
        | inr b ↦ elim (Option-cases (N.at t k)) [
          | inl e ↦ ground (arith, at-remove_all rows t k, b, e)
          | inr (r, e) ↦ elim (Bool-cases (p r && doomed r)) [
            | inr d ↦ ground (arith, at-remove_all rows t k, b, e, d)
            | inl d ↦ absurd (
                ground (
                  arith,
                  b,
                  any-In (λ r'. key r' == k) r rows
                      (complete r e (ground (arith, d)) (ground (arith, d)))
                      (ground (arith, N.key-at t k r e, eq_iff (key r) k)),
                ))
          ]
        ]
      ]
