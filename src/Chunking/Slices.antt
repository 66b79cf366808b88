-- ===== src/Chunking/Slices.antt =====
-- The length of a slice of a text.
use contractor_reviewer.Common.{
  ℕ, ◌-◌, min, ◌≡◌, List, arith, length, take, length-take, length-drop,
}
use contractor_reviewer.Chunking.Text.{Code, slice}

pub length-slice : (a b : ℕ) (s : List Code) → length (slice a b s) ≡ min b (length s) - a
unfolding slice
length-slice a b s = omega (arith, length-drop a (take b s), length-take b s)
