-- ===== src/Merge/Distance.antt =====
-- `levenshtein` computes the edit distance by its recursive definition.
use contractor_reviewer.Common.{
  ℕ, ◌+◌, ◌≡◌, refl, sym, ap, ◌∙◌, arith, List, [], ◌∷◌, if◌then◌else◌, eqb, length, min,
}
use contractor_reviewer.Merge.{row_rest, last_cell, rows, count_from, levenshtein}

-- The edit distance: the fewest insertions, deletions and substitutions.
unfoldable pub edit : List ℕ → List ℕ → ℕ
edit [] b = length b
edit (x ∷ a) [] = length (x ∷ a)
edit (x ∷ a) (y ∷ b) =
    min (min (edit (x ∷ a) b + 1) (edit a (y ∷ b) + 1)) (edit a b + (if eqb x y then 0 else 1))

-- A text backwards, before another.
unfoldable pub backwards : List ℕ → List ℕ → List ℕ
backwards [] p = p
backwards (x ∷ a) p = backwards a (x ∷ p)

-- The rest of the row of the prefix `p`, from the prefix `q` on.
cells : List ℕ → List ℕ → List ℕ → List ℕ
cells p q [] = []
cells p q (y ∷ b) = edit p (y ∷ q) ∷ cells p (y ∷ q) b

edit-nil : (p : List ℕ) → edit p [] ≡ length p
unfolding edit
edit-nil [] = refl
edit-nil (x ∷ p) = refl

row_rest-cells :
    (x : ℕ) (p q b : List ℕ)
    → row_rest x (edit (x ∷ p) q) (edit p q) (cells p q b) b ≡ cells (x ∷ p) q b
unfolding row_rest cells edit
row_rest-cells x p q [] = refl
row_rest-cells x p q (y ∷ b) = ap (λ l. edit (x ∷ p) (y ∷ q) ∷ l) (row_rest-cells x p (y ∷ q) b)

last_cell-cells : (p q b : List ℕ) → last_cell (edit p q) (cells p q b) ≡ edit p (backwards b q)
unfolding last_cell cells backwards
last_cell-cells p q [] = refl
last_cell-cells p q (y ∷ b) = last_cell-cells p (y ∷ q) b

rows-edit :
    (p a b : List ℕ) → rows (length p) (cells p [] b) a b ≡ edit (backwards a p) (backwards b [])
unfolding rows backwards
rows-edit p [] b = ap (λ d. last_cell d (cells p [] b)) (sym (edit-nil p)) ∙ last_cell-cells p [] b
rows-edit p (x ∷ a) b =
    let one : length p + 1 ≡ length (x ∷ p) = omega arith in
    let row =
      ap (λ n. row_rest x n (length p) (cells p [] b) b) (one ∙ sym (edit-nil (x ∷ p)))
      ∙ ap (λ n. row_rest x (edit (x ∷ p) []) n (cells p [] b) b) (sym (edit-nil p))
      ∙ row_rest-cells x p [] b in
    ap (λ r. rows (length p + 1) r a b) row
    ∙ ap (λ n. rows n (cells (x ∷ p) [] b) a b) one
    ∙ rows-edit (x ∷ p) a b

count_from-cells : (q b : List ℕ) → count_from (length q) b ≡ cells [] q b
unfolding count_from cells edit
count_from-cells q [] = refl
count_from-cells q (y ∷ b) =
    let one : length q + 1 ≡ length (y ∷ q) = omega arith in
    ap (λ n. n ∷ count_from n b) one ∙ ap (λ l. length (y ∷ q) ∷ l) (count_from-cells (y ∷ q) b)

length-backwards : (a p : List ℕ) → length (backwards a p) ≡ length a + length p
unfolding backwards
length-backwards [] p = omega arith
length-backwards (x ∷ a) p = omega (arith, length-backwards a (x ∷ p))

-- The table of the service, which it keeps as two rows, computes the edit distance of the two
-- texts, read backwards.
pub levenshtein-edit : (a b : List ℕ) → levenshtein a b ≡ edit (backwards a []) (backwards b [])
unfolding levenshtein edit backwards
levenshtein-edit [] b = omega (arith, length-backwards b [])
levenshtein-edit (x ∷ a) [] =
    omega (arith, length-backwards (x ∷ a) [], edit-nil (backwards (x ∷ a) []))
levenshtein-edit (x ∷ a) (y ∷ b) =
    ap (λ us. rows 0 us (x ∷ a) (y ∷ b)) (count_from-cells [] (y ∷ b))
    ∙ rows-edit [] (x ∷ a) (y ∷ b)
