-- ===== src/Chunking/Tests.antt =====
-- The strategies on small texts.
use contractor_reviewer.Common.{
  ◌⊎◌, ℕ, ◌≤◌, false, ◌≡◌, refl, arith, none, some, List, [], ◌∷◌, All, length,
}
use contractor_reviewer.Chunking.{Chunk, chunk_by_fixed_size, split_sentences, scan, before}
use contractor_reviewer.Chunking.Text.{Code, is_space, is_terminator}
use contractor_reviewer.Chunking.Windows.{IsWindow, Covers, shown_at, chunk_by_fixed_size-Covers}
use contractor_reviewer.Chunking.Headings.{
  Token, heading, other, Block, walk, clause_number_of, clause_run, is_digit,
}
use contractor_reviewer.Chunking.Headings.Sections.{governing, headings_seen, walk-governing}

-- "Hi. Yes?ok"
abbrev text : List Code
text = b'H' ∷ b'i' ∷ b'.' ∷ b' ' ∷ b'Y' ∷ b'e' ∷ b's' ∷ b'?' ∷ b'o' ∷ b'k' ∷ []

-- The last part has no mark and belongs to no sentence.
two_sentences :
    scan before text ≡ (b'H' ∷ b'i' ∷ b'.' ∷ []) ∷ (b' ' ∷ b'Y' ∷ b'e' ∷ b's' ∷ b'?' ∷ []) ∷ []
unfolding scan is_terminator
two_sentences = refl

chunk_by_fixed_size-Covers_example :
    (cs : List Chunk) × (chunk_by_fixed_size (some 1) text ≡ some cs)
    × All (IsWindow text) cs
    × ((p : ℕ) → (shown_at p text ≡ false) ⊎ Covers p cs)
chunk_by_fixed_size-Covers_example = chunk_by_fixed_size-Covers (some 1) text

short : All (λ x. length x ≤ 799) (split_sentences text)
unfolding split_sentences scan is_terminator
short = (omega arith, (omega arith, tt))

-- "9.1 Pay" and "2023"
numbered :
    clause_number_of (b'9' ∷ b'.' ∷ b'1' ∷ b' ' ∷ b'P' ∷ b'a' ∷ b'y' ∷ [])
    ≡ some (b'9' ∷ b'.' ∷ b'1' ∷ [])
unfolding clause_number_of clause_run is_digit is_space
numbered = refl

unnumbered : clause_number_of (b'2' ∷ b'0' ∷ b'2' ∷ b'3' ∷ []) ≡ none
unfolding clause_number_of clause_run is_digit is_space
unnumbered = refl

abbrev tokens : List Token
tokens =
    heading 1 (b'A' ∷ []) (b'A' ∷ [])
    ∷ heading 3 (b'B' ∷ []) (b'B' ∷ [])
    ∷ other text
    ∷ heading 2 (b'C' ∷ []) (b'C' ∷ [])
    ∷ []

walk-governing_example :
    (walk tokens (record { stack = []; blocks = [] })).stack ≡ governing (headings_seen tokens [])
walk-governing_example = walk-governing tokens

abbrev blocks : List Block
blocks =
    record { raw = text; clause_number = none; heading_path = none; is_heading = false }
    ∷ record { raw = b' ' ∷ text; clause_number = none; heading_path = none; is_heading = false }
    ∷ []
