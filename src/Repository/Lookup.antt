-- ===== src/Repository/Lookup.antt =====
-- Looking a row up by a condition that one row at most meets.
use contractor_reviewer.Common.{
  String, Bool, true, false, ◌≡◌, sym, ap, ◌∙◌, ◌≢◌, inl, inr, arith, none, some, Option-cases,
  Bool-cases, ==-cases, if◌then◌else◌, ◌⊎◌,
}
use contractor_reviewer.Repository.{Repository}
use text.Mathlib.TextEquality.{eq_iff}

module _ {Row : Type 0} (key : Row → String) (N : Repository key) where
  abbrev pub Has : N.Table → Row → Type 0
  Has t r = N.at t (key r) ≡ some r

  -- At most one row of the table meets the condition.
  abbrev pub IsUniqueFor : (Row → Bool) → N.Table → Type 0
  IsUniqueFor p t = (a b : Row) → Has t a → Has t b → p a ≡ true → p b ≡ true → a ≡ b

  pub find_one-some :
      (p : Row → Bool) (t : N.Table) (r : Row)
      → IsUniqueFor p t
      → Has t r
      → p r ≡ true
      → N.find_one p t ≡ some r
  find_one-some p t r unique h q = elim (Option-cases (N.find_one p t)) [
    | inl e ↦ absurd (ground (arith, N.find_one_complete p t (key r) r e h, q))
    | inr (s, e) ↦ let (hs, qs) = N.find_one_sound p t s e in e ∙ ap some (unique s r hs h qs q)
  ]

  pub find_one-none :
      (p : Row → Bool) (t : N.Table) → ((r : Row) → Has t r → p r ≡ false) → N.find_one p t ≡ none
  find_one-none p t h = elim (Option-cases (N.find_one p t)) [
    | inl e ↦ e
    | inr (s, e) ↦ let (hs, qs) = N.find_one_sound p t s e in absurd (ground (arith, h s hs, qs))
  ]

  pub Has-save_self : (t : N.Table) (r : Row) → Has (N.save r t) r
  Has-save_self t r = ground (arith, N.at-save r t (key r), eq_iff (key r) (key r))

  pub Has-save_ne :
      (t : N.Table) (r s : Row) → key r ≢ key s → N.at (N.save r t) (key s) ≡ N.at t (key s)
  Has-save_ne t r s h = ground (arith, N.at-save r t (key s), eq_iff (key r) (key s))

  pub Has-save_cases :
      (t : N.Table) (r s : Row) → Has (N.save r t) s → (r ≡ s) ⊎ (key r ≢ key s) × Has t s
  Has-save_cases t r s h = elim (==-cases (key r) (key s)) [
    | inl (b, e) ↦ inl (ground (arith, N.at-save r t (key s), eq_iff (key r) (key s)))
    | inr (b, n) ↦ inr (n, sym (Has-save_ne t r s n) ∙ h)
  ]

  -- A row under an unused key: it is found by its own condition, and hides no other row.
  pub find_one-insert :
      (p : Row → Bool) (t : N.Table) (r : Row)
      → IsUniqueFor p t
      → N.at t (key r) ≡ none
      → (p r ≡ true → N.find_one p t ≡ none)
      → N.find_one p (N.save r t) ≡ (if p r then some r else N.find_one p t)
  find_one-insert p t r unique fresh first = elim (Bool-cases (p r)) [
    | inl b ↦ rw b (
        find_one-some p (N.save r t) r
          (λ x y hx hy px py. sym (only x hx px (first b)) ∙ only y hy py (first b))
          (Has-save_self t r) b)
    | inr b ↦ rw b (elim (Option-cases (N.find_one p t)) [
      | inl e ↦
          find_one-none p (N.save r t) (λ s hs. elim (Has-save_cases t r s hs) [
            | inl q ↦ ground (arith, ap p q, b)
            | inr (n, h) ↦ N.find_one_complete p t (key s) s e h
          ])
          ∙ sym e
      | inr (m, e) ↦
          let (h, q) = N.find_one_sound p t m e in
          find_one-some p (N.save r t) m
            (λ x y hx hy px py. unique x y (old x hx px b) (old y hy py b) px py)
            (Has-save_ne t r m (λ k. ground (arith, sym fresh ∙ ap (N.at t) k ∙ h)) ∙ h) q
          ∙ sym e
    ])
  ]
    where
      only : (x : Row) → Has (N.save r t) x → p x ≡ true → N.find_one p t ≡ none → r ≡ x
      only x hx px n = elim (Has-save_cases t r x hx) [
        | inl q ↦ q
        | inr (k, h) ↦ absurd (ground (arith, N.find_one_complete p t (key x) x n h, px))
      ]

      old : (x : Row) → Has (N.save r t) x → p x ≡ true → p r ≡ false → Has t x
      old x hx px b = elim (Has-save_cases t r x hx) [
        | inl q ↦ absurd (ground (arith, ap p q, px, b))
        | inr (k, h) ↦ h
      ]

  -- A row is written over one that meets the same condition, or that does not meet it either.
  pub find_one-update :
      (p : Row → Bool) (t : N.Table) (old r : Row)
      → IsUniqueFor p t
      → Has t old
      → key old ≡ key r
      → p old ≡ p r
      → N.find_one p (N.save r t) ≡ (if p r then some r else N.find_one p t)
  find_one-update p t old r unique hold ke pe = elim (Bool-cases (p r)) [
    | inl b ↦ rw b (
        find_one-some p (N.save r t) r (λ x y hx hy px py. sym (only x hx px b) ∙ only y hy py b)
          (Has-save_self t r) b)
    | inr b ↦ rw b (elim (Option-cases (N.find_one p t)) [
      | inl e ↦
          find_one-none p (N.save r t) (λ s hs. elim (Has-save_cases t r s hs) [
            | inl q ↦ ground (arith, ap p q, b)
            | inr (n, h) ↦ N.find_one_complete p t (key s) s e h
          ])
          ∙ sym e
      | inr (m, e) ↦
          let (h, q) = N.find_one_sound p t m e in
          let ne : key r ≢ key m = λ k.
            let same : old ≡ m = ground (arith, sym hold ∙ ap (N.at t) (ke ∙ k) ∙ h) in
            ground (arith, ap p same, pe, b, q) in
          find_one-some p (N.save r t) m
            (λ x y hx hy px py. unique x y (kept x hx px b) (kept y hy py b) px py)
            (Has-save_ne t r m ne ∙ h) q
          ∙ sym e
    ])
  ]
    where
      only : (x : Row) → Has (N.save r t) x → p x ≡ true → p r ≡ true → r ≡ x
      only x hx px b = elim (Has-save_cases t r x hx) [
        | inl q ↦ q
        | inr (k, h) ↦ absurd (k (sym ke ∙ ap key (unique old x hold h (pe ∙ b) px)))
      ]

      kept : (x : Row) → Has (N.save r t) x → p x ≡ true → p r ≡ false → Has t x
      kept x hx px b = elim (Has-save_cases t r x hx) [
        | inl q ↦ absurd (ground (arith, ap p q, px, b))
        | inr (k, h) ↦ h
      ]

  -- One row at most meets the condition still, when a row is written that no other row competes with.
  pub IsUniqueFor-save :
      (p : Row → Bool) (t : N.Table) (r : Row)
      → IsUniqueFor p t
      → ((x : Row) → Has t x → p x ≡ true → p r ≡ true → key x ≡ key r)
      → IsUniqueFor p (N.save r t)
  IsUniqueFor-save p t r unique alone a b ha hb pa pb = elim (Has-save_cases t r a ha) [
    | inl ra ↦ elim (Has-save_cases t r b hb) [
      | inl rb ↦ sym ra ∙ rb
      | inr (nb, h) ↦ absurd (nb (sym (alone b h pb (ap p ra ∙ pa))))
    ]
    | inr (na, h) ↦ elim (Has-save_cases t r b hb) [
      | inl rb ↦ absurd (na (sym (alone a h pa (ap p rb ∙ pb))))
      | inr (nb, h') ↦ unique a b h h' pa pb
    ]
  ]

  pub Has-remove : (t : N.Table) (r x : Row) → Has (N.remove r t) x → (key r ≢ key x) × Has t x
  Has-remove t r x h = elim (==-cases (key r) (key x)) [
    | inl (b, e) ↦ absurd (ground (arith, N.at-remove r t (key x), b, h))
    | inr (b, n) ↦ (n, ground (arith, N.at-remove r t (key x), b, h))
  ]

  pub IsUniqueFor-remove :
      (p : Row → Bool) (t : N.Table) (r : Row) → IsUniqueFor p t → IsUniqueFor p (N.remove r t)
  IsUniqueFor-remove p t r unique a b ha hb =
      unique a b (Has-remove t r a ha).1 (Has-remove t r b hb).1

  -- The row that meets the condition is removed, or another one.
  pub find_one-remove :
      (p : Row → Bool) (t : N.Table) (r : Row)
      → IsUniqueFor p t
      → Has t r
      → N.find_one p (N.remove r t) ≡ (if p r then none else N.find_one p t)
  find_one-remove p t r unique hr = elim (Bool-cases (p r)) [
    | inl b ↦ rw b (
        find_one-none p (N.remove r t) (λ x hx. elim (Bool-cases (p x)) [
          | inr q ↦ q
          | inl q ↦ let (n, h) = Has-remove t r x hx in absurd (n (ap key (unique r x hr h b q)))
        ]))
    | inr b ↦ rw b (elim (Option-cases (N.find_one p t)) [
      | inl e ↦
          find_one-none p (N.remove r t)
            (λ x hx. N.find_one_complete p t (key x) x e (Has-remove t r x hx).1)
          ∙ sym e
      | inr (m, e) ↦
          let (h, q) = N.find_one_sound p t m e in
          find_one-some p (N.remove r t) m (IsUniqueFor-remove p t r unique) (kept m h q b) q
          ∙ sym e
    ])
  ]
    where
      kept : (m : Row) → Has t m → p m ≡ true → p r ≡ false → Has (N.remove r t) m
      kept m h q b = elim (==-cases (key r) (key m)) [
        | inl (c, k) ↦ absurd (
            let same : r ≡ m = ground (arith, sym hr ∙ ap (N.at t) k ∙ h) in
            ground (arith, ap p same, b, q))
        | inr (c, n) ↦ ground (arith, N.at-remove r t (key m), c, h)
      ]
