-- ===== src/Chunking/Headings/Sections.antt =====
-- apps/api/src/rag/chunking.service.ts: which headings govern a block.
use contractor_reviewer.Common.{
  ℕ, ◌≤◌, ◌≡◌, refl, ◌∙◌, ap, List, [], ◌∷◌, arith, ltb, if◌then◌else◌,
}
use contractor_reviewer.Chunking.Headings.{
  Token, space_token, heading, list_token, other, Heading, pop_headings, push_heading, heading_of,
  Walk, walk_token, walk,
}

-- The headings of a text, the latest first.
unfoldable pub headings_seen : List Token → List Heading → List Heading
headings_seen [] seen = seen
headings_seen (heading depth text raw ∷ ts) seen = headings_seen ts (heading_of depth text ∷ seen)
headings_seen (space_token ∷ ts) seen = headings_seen ts seen
headings_seen (list_token items ∷ ts) seen = headings_seen ts seen
headings_seen (other raw ∷ ts) seen = headings_seen ts seen

-- A heading governs what follows as long as each later heading is deeper: of the headings seen, the
-- latest first, those above `depth` that no later one has closed.
unfoldable pub governing_above : ℕ → List Heading → List Heading
governing_above depth [] = []
governing_above depth (h ∷ seen) =
    let inside = h ∷ governing_above h.depth seen in
    let outside = governing_above depth seen in if ltb h.depth depth then inside else outside

-- Every heading governs, whatever its depth, when none is later.
unfoldable pub governing : List Heading → List Heading
unfolding governing_above
governing [] = []
governing (h ∷ seen) = h ∷ governing_above h.depth seen

pop_headings-governing_above :
    (d b : ℕ) (seen : List Heading)
    → d ≤ b
    → pop_headings d (governing_above b seen) ≡ governing_above d seen
unfolding pop_headings governing_above
pop_headings-governing_above d b [] le = refl
pop_headings-governing_above d b (h ∷ seen) le =
    ground
      (arith, pop_headings-governing_above d b seen, pop_headings-governing_above d h.depth seen)

push_heading-governing :
    (h : Heading) (seen : List Heading) → push_heading h (governing seen) ≡ governing (h ∷ seen)
unfolding push_heading governing governing_above pop_headings
push_heading-governing h [] = refl
push_heading-governing h (k ∷ seen) =
    ground (arith, pop_headings-governing_above h.depth k.depth seen)

walk-governing_from :
    (ts : List Token) (w : Walk) (seen : List Heading)
    → w.stack ≡ governing seen
    → (walk ts w).stack ≡ governing (headings_seen ts seen)
unfolding walk walk_token headings_seen
walk-governing_from [] w seen e = e
walk-governing_from (space_token ∷ ts) w seen e = walk-governing_from ts w seen e
walk-governing_from (list_token items ∷ ts) w seen e =
    walk-governing_from ts (walk_token (list_token items) w) seen e
walk-governing_from (other raw ∷ ts) w seen e =
    walk-governing_from ts (walk_token (other raw) w) seen e
walk-governing_from (heading depth text raw ∷ ts) w seen e =
    walk-governing_from ts (walk_token (heading depth text raw) w) (heading_of depth text ∷ seen) (
      ap (push_heading (heading_of depth text)) e
      ∙ push_heading-governing (heading_of depth text) seen)

-- After any tokens, the walk's stack holds exactly the headings of the text that govern what comes
-- next, the deepest first: those that only deeper headings follow.
pub walk-governing :
    (ts : List Token)
    → (walk ts (record { stack = []; blocks = [] })).stack ≡ governing (headings_seen ts [])
unfolding governing
walk-governing ts = walk-governing_from ts (record { stack = []; blocks = [] }) [] refl
