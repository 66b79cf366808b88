-- ===== src/RateLimit/Windows.antt =====
-- Counting the requests of a window.
use contractor_reviewer.Common.{ℕ, ◌+◌, ◌≤◌, ◌≡◌, refl, List, [], ◌∷◌, ◌++◌, arith, length}
use contractor_reviewer.RateLimit.{recent, day}

-- Later, fewer requests lie in the window.
pub length-recent_mono :
    (w now later : ℕ) (xs : List ℕ)
    → now ≤ later
    → length (recent w later xs) ≤ length (recent w now xs)
unfolding recent
length-recent_mono w now later [] h = omega arith
length-recent_mono w now later (x ∷ xs) h = ground (arith, length-recent_mono w now later xs h)

-- What `cleanup` drops lies in no window of a day or less, at that time or later.
pub recent-recent :
    (w now later : ℕ) (xs : List ℕ)
    → w ≤ day
    → now ≤ later
    → recent w later (recent day now xs) ≡ recent w later xs
unfolding recent
recent-recent w now later [] h k = refl
recent-recent w now later (x ∷ xs) h k = ground (arith, recent-recent w now later xs h k)

-- The recorded request adds at most one.
pub length-recent-snoc :
    (w now t : ℕ) (xs : List ℕ)
    → length (recent w now (xs ++ t ∷ [])) ≤ length (recent w now xs) + 1
unfolding recent
length-recent-snoc w now t [] = ground arith
length-recent-snoc w now t (x ∷ xs) = ground (arith, length-recent-snoc w now t xs)
