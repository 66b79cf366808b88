-- ===== src/Common/Text.antt =====
-- Identifiers and other texts that the program only compares.
use Prim.Native.String.{String}
use mathlib.Core.Path.{◌≡◌}
use mathlib.Core.Logic.{◌⊎◌, inl, inr, ◌≢◌}
use mathlib.Core.Bool.{Bool, true, false}
use native.Mathlib.Omega.{arith}
use mathlib.Core.Option.{Option, none, some}
use text.Mathlib.Text
use text.Mathlib.TextEquality.{eq_iff}
use contractor_reviewer.Common.Tests.{Bool-cases}

infix 50 ◌==◌
abbrev pub ◌==◌ : String → String → Bool
a == b = Text.◌==◌ a b

pub ==→eq : (a b : String) → (a == b) ≡ true → a ≡ b
==→eq a b h = (eq_iff a b).0 h

pub ==_self : (a : String) → (a == a) ≡ true
==_self a = (eq_iff a a).1 λ i. a

pub ==_of_eq : (a b : String) → a ≡ b → (a == b) ≡ true
==_of_eq a b h = (eq_iff a b).1 h

pub ==_of_ne : (a b : String) → a ≢ b → (a == b) ≡ false
==_of_ne a b h = ground (arith, eq_iff a b)

pub ==→ne : (a b : String) → (a == b) ≡ false → a ≢ b
==→ne a b h e = ground (arith, eq_iff a b)

-- To split on a comparison, with the equation or its negation and the test's value.
pub ==-cases : (a b : String) → ((a == b) ≡ true) × (a ≡ b) ⊎ ((a == b) ≡ false) × (a ≢ b)
==-cases a b = elim (Bool-cases (a == b)) [
  | inl h ↦ inl (h, ==→eq a b h)
  | inr h ↦ inr (h, ==→ne a b h)
]

-- `column IS NULL`, and `column = text`.
abbrev pub is_missing : Option String → Bool
is_missing none = true
is_missing (some s) = false

abbrev pub is_given : String → Option String → Bool
is_given t none = false
is_given t (some s) = s == t
