-- ===== src/Rules/Clauses.antt =====
-- Which clause the place of a match is in.
use contractor_reviewer.Common.{
  ℕ, ◌+◌, ◌<◌, ◌≡◌, arith, List, [], ◌∷◌, ◌++◌, length, Bool-cases, inl, inr, ltb, lt→ltb, ltb→lt,
}
use contractor_reviewer.Rules.{DetectorChunk, DetectorContext, clause_from, find_clause_ref}

-- The length of the chunks that are joined by two line feeds each, the last one included.
abbrev pub joined_length : List DetectorChunk → ℕ
joined_length [] = 0
joined_length (c ∷ cs) = length c.text + 2 + joined_length cs

clause_from-at :
    (before after : List DetectorChunk) (c : DetectorChunk) (k p o : ℕ)
    → p < length c.text + 2
    → o ≡ k + joined_length before + p
    → clause_from (before ++ c ∷ after) k o ≡ c.clause_number
unfolding clause_from
clause_from-at [] after c k p o lt e =
    ground (arith, lt→ltb o (k + length c.text + 2) (omega (arith, lt, e)))
clause_from-at (b ∷ before) after c k p o lt e = elim (Bool-cases (ltb o (k + length b.text + 2))) [
  | inl early ↦ absurd (omega (arith, e, ltb→lt o (k + length b.text + 2) early))
  | inr late ↦
      rw late (clause_from-at before after c (k + length b.text + 2) p o lt (omega (arith, e)))
]

-- The chunk that holds a place of the joined text, or is followed by the two line feeds there,
-- gives the clause.
pub find_clause_ref_lem :
    (ctx : DetectorContext) (before after : List DetectorChunk) (c : DetectorChunk) (p : ℕ)
    → ctx.chunks ≡ before ++ c ∷ after
    → p < length c.text + 2
    → find_clause_ref ctx (joined_length before + p) ≡ c.clause_number
find_clause_ref_lem ctx before after c p e lt =
    rw e (clause_from-at before after c 0 p (joined_length before + p) lt (omega arith))
