-- ===== src/Common/Objects.antt =====
-- Plain objects used as dictionaries: association lists in the order of insertion.
use mathlib.Core.Path.{◌≡◌, refl}
use mathlib.Core.List.{List, [], ◌∷◌}
use mathlib.Core.Option.{Option, none, some}
use native.Mathlib.Omega.{arith}
use Prim.Native.String.{String}
use text.Mathlib.TextEquality.{eq_iff}
use contractor_reviewer.Common.Tests.{if◌then◌else◌}
use contractor_reviewer.Common.Text.{◌==◌}

abbrev pub Dict : Type 0 → Type 0
Dict A = List (String × A)

module _ {A : Type 0} where
  -- `d[k]`
  abbrev pub lookup : String → Dict A → Option A
  lookup k [] = none
  lookup k ((j, a) ∷ d) = if j == k then some a else lookup k d

  -- `d[k] = a`
  abbrev pub insert : String → A → Dict A → Dict A
  insert k a [] = (k, a) ∷ []
  insert k a ((j, b) ∷ d) = let rest = insert k a d in if j == k then (k, a) ∷ d else (j, b) ∷ rest

  -- `delete d[k]`
  abbrev pub erase : String → Dict A → Dict A
  erase k [] = []
  erase k ((j, b) ∷ d) = let rest = erase k d in if j == k then rest else (j, b) ∷ rest

  -- `{ ...d, ...e }`
  abbrev pub spread : Dict A → Dict A → Dict A
  spread d [] = d
  spread d ((k, a) ∷ e) = spread (insert k a d) e

  pub lookup-insert :
      (j k : String) (a : A) (d : Dict A)
      → lookup j (insert k a d) ≡ (if k == j then some a else lookup j d)
  lookup-insert j k a [] = refl
  lookup-insert j k a ((i, b) ∷ d) =
      ground (arith, eq_iff k j, eq_iff i k, eq_iff i j, lookup-insert j k a d)

  pub lookup-erase :
      (j k : String) (d : Dict A) → lookup j (erase k d) ≡ (if k == j then none else lookup j d)
  lookup-erase j k [] = ground arith
  lookup-erase j k ((i, b) ∷ d) =
      ground (arith, eq_iff k j, eq_iff i k, eq_iff i j, lookup-erase j k d)
