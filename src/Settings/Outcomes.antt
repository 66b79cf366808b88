-- ===== src/Settings/Outcomes.antt =====
-- Postconditions of the steps of updateSettings that may throw.
use contractor_reviewer.Common.{
  String, Bool, true, ◌≡◌, refl, subst, inl, inr, List, Option, none, some, ◌==◌, Bool-cases,
}
use contractor_reviewer.Settings.{includes}
use contractor_reviewer.Settings.Update.{
  Error, Result, ok, err, ◌>>=◌, checked, preferred, null_or_included,
}

-- What holds of the result of a call that does not throw.
pub data Ensures {A : Type 0} (P : A → Type 0) : Result A → Type 0 where
  returns : {a : A} → P a → Ensures P (ok a)
  throws : {e : Error} → Ensures P (err e)

pub bind :
    {A B : Type 0} {P : A → Type 0} {Q : B → Type 0} {m : Result A} {f : A → Result B}
    → Ensures P m
    → ((a : A) → P a → Ensures Q (f a))
    → Ensures Q (m >>= f)
bind (returns p) k = k _ p
bind throws k = throws

pub weaken :
    {A : Type 0} {P Q : A → Type 0} {m : Result A}
    → Ensures P m
    → ((a : A) → P a → Q a)
    → Ensures Q m
weaken (returns p) k = returns (k _ p)
weaken throws k = throws

pub Ensures-ok : {A : Type 0} {P : A → Type 0} {m : Result A} {a : A} → Ensures P m → m ≡ ok a → P a
Ensures-ok {P = P} (returns p) e = subst P (cc e) p
Ensures-ok throws e = absurd (cc e)

pub Ensures-checked :
    {A : Type 0} (test : A → Bool) (e : Error) (field : Option A) (old : A)
    → test old ≡ true
    → Ensures (λ a. test a ≡ true) (checked test e field old)
Ensures-checked test e none old h = returns h
Ensures-checked test e (some a) old h = elim (Bool-cases (test a)) [
  | inl y ↦ rw y (returns y)
  | inr n ↦ rw n throws
]

pub Ensures-preferred :
    (trim : String → String) (ids : List String) (e : Error) (field : Option (Option String))
    (old : Option String)
    → null_or_included ids old ≡ true
    → Ensures (λ a. null_or_included ids a ≡ true) (preferred trim ids e field old)
Ensures-preferred trim ids e none old h = returns h
Ensures-preferred trim ids e (some none) old h = returns refl
Ensures-preferred trim ids e (some (some s)) old h = elim (Bool-cases (trim s == "")) [
  | inl b ↦ rw b (returns refl)
  | inr f ↦
      rw f (elim (Bool-cases (includes ids s)) [ inl y ↦ rw y (returns y) | inr n ↦ rw n throws ])
]

pub Ensures-any : {A : Type 0} (m : Result A) → Ensures (λ a. Unit {0}) m
Ensures-any (ok a) = returns tt
Ensures-any (err e) = throws
