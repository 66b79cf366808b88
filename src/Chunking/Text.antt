-- ===== src/Chunking/Text.antt =====
-- The operations of JavaScript on strings that the service uses, over lists of code units.
use contractor_reviewer.Common.{
  ℕ, ◌-◌, ◌≤◌, Bool, true, ◌&&◌, ◌||◌, ◌≡◌, refl, ap, List, [], ◌∷◌, arith, leb, eqb, if◌then◌else◌,
  length, take, drop, length-append, length-drop,
}
use mathlib.Core.List.{reverse, reverse-cons}

abbrev pub Code : Type 0
Code = ℕ

-- White space and line ends, as `trim` and `\s` know them.
unfoldable pub is_space : Code → Bool
is_space c =
    leb 9 c && leb c 13
    || eqb c 32
    || eqb c 160
    || eqb c 0x1680
    || leb 0x2000 c && leb c 0x200a
    || eqb c 0x2028
    || eqb c 0x2029
    || eqb c 0x202f
    || eqb c 0x205f
    || eqb c 0x3000
    || eqb c 0xfeff

-- `[.!?]`
unfoldable pub is_terminator : Code → Bool
is_terminator c = eqb c b'.' || eqb c b'!' || eqb c b'?'

unfoldable pub trim_start : List Code → List Code
trim_start [] = []
trim_start (c ∷ s) = if is_space c then trim_start s else c ∷ s

unfoldable pub trim : List Code → List Code
unfolding trim_start is_space
trim s = reverse (trim_start (reverse (trim_start s)))

-- `!s.trim()`
unfoldable pub is_blank : List Code → Bool
unfolding is_space
is_blank [] = true
is_blank (c ∷ s) = is_space c && is_blank s

-- `s.slice(start, end)` at 0 ≤ start, end
unfoldable pub slice : ℕ → ℕ → List Code → List Code
slice start end s = drop start (take end s)

-- `s.slice(-n)`
unfoldable pub slice_last : ℕ → List Code → List Code
slice_last n s = drop (length s - n) s

length-reverse : (s : List Code) → length (reverse s) ≡ length s
length-reverse [] = refl
length-reverse (c ∷ s) =
    omega
      (arith, ap length (reverse-cons c s), length-append (reverse s) (c ∷ []), length-reverse s)

length-trim_start : (s : List Code) → length (trim_start s) ≤ length s
unfolding trim_start
length-trim_start [] = omega arith
length-trim_start (c ∷ s) = ground (arith, length-trim_start s)

pub length-trim : (s : List Code) → length (trim s) ≤ length s
unfolding trim
length-trim s = omega (
  arith,
  length-reverse (trim_start (reverse (trim_start s))),
  length-trim_start (reverse (trim_start s)),
  length-reverse (trim_start s),
  length-trim_start s,
)

pub length-slice_last : (n : ℕ) (s : List Code) → length (slice_last n s) ≤ n
unfolding slice_last
length-slice_last n s = omega (arith, length-drop (length s - n) s)
