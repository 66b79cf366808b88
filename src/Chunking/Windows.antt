-- ===== src/Chunking/Windows.antt =====
-- apps/api/src/rag/chunking.service.ts: the windows that `chunkByFixedSize` cuts.
use contractor_reviewer.Common.{
  not, Option-cases, ℕ, zero, suc, get_or, ◌&&◌, subst, ◌+◌, ◌-◌, ◌≤◌, ◌<◌, min, Bool, true, false,
  ◌≡◌, refl, ◌∙◌, sym, ap, List, [], ◌∷◌, Option, none, some, arith, ltb, leb, length, All,
  All-append, Bool-cases, In, In-append_left, In-append_right, ◌⊎◌, inl, inr,
}
use contractor_reviewer.Chunking.{
  pos, Chunk, push_window, plain_chunk, fixed_size_loop, chunk_by_fixed_size,
}
use contractor_reviewer.Chunking.Text.{Code, is_space, trim, is_blank, slice}

-- The chunk is the text from `first` to `last`, trimmed.
pub record IsWindow (text : List Code) (c : Chunk) : Type 0 where
  pub first : ℕ
  pub last : ℕ
  pub at-start : c.start_index ≡ pos first
  pub at-end : c.end_index ≡ pos last
  pub content : c.text ≡ trim (slice first last text)
  pub in-text : last ≤ length text
  pub in-size : last ≤ first + 1000

-- Some chunk's window holds the position.
pub record Covers (p : ℕ) (chunks : List Chunk) : Type 0 where
  pub at : Chunk
  pub is-in : In at chunks
  pub first : ℕ
  pub last : ℕ
  pub at-start : at.start_index ≡ pos first
  pub at-end : at.end_index ≡ pos last
  pub from-first : first ≤ p
  pub below-last : p < last

-- The code unit at a position, if there is one.
unfoldable pub code_at : ℕ → List Code → Option Code
code_at n [] = none
code_at zero (c ∷ s) = some c
code_at (suc n) (c ∷ s) = code_at n s

-- A code unit that is not white space is at the position.
pub shown_at : ℕ → List Code → Bool
shown_at p s = elim (code_at p s) [ none ↦ false | some c ↦ not (is_space c) ]

code_at-inside : (p : ℕ) (s : List Code) (c : Code) → code_at p s ≡ some c → p < length s
unfolding code_at
code_at-inside p [] c e = absurd cc
code_at-inside zero (x ∷ s) c e = omega arith
code_at-inside (suc p) (x ∷ s) c e = omega (arith, code_at-inside p s c e)

and_left : (a b : Bool) → a && b ≡ true → a ≡ true
and_left true b h = refl
and_left false b h = h

and_right : (a b : Bool) → a && b ≡ true → b ≡ true
and_right true b h = h
and_right false true h = refl
and_right false false h = h

is_blank-slice :
    (a b p : ℕ) (text : List Code) (c : Code)
    → a ≤ p
    → p < b
    → code_at p text ≡ some c
    → is_blank (slice a b text) ≡ true
    → is_space c ≡ true
unfolding code_at is_blank slice
is_blank-slice a b p [] c la lb at blank = absurd cc
is_blank-slice a zero p (x ∷ s) c la lb at blank = absurd (omega arith)
is_blank-slice zero (suc b) zero (x ∷ s) c la lb at blank =
    sym (ap (λ o. is_space (get_or o x)) at) ∙ and_left (is_space x) _ blank
is_blank-slice zero (suc b) (suc p) (x ∷ s) c la lb at blank =
    is_blank-slice zero b p s c (omega arith) (omega arith) at (and_right (is_space x) _ blank)
is_blank-slice (suc a) (suc b) zero (x ∷ s) c la lb at blank = absurd (omega arith)
is_blank-slice (suc a) (suc b) (suc p) (x ∷ s) c la lb at blank =
    is_blank-slice a b p s c (omega arith) (omega arith) at blank

module _ (page : Option ℕ) (text : List Code) where
  push_window-IsWindow :
      (start end : ℕ) (chunks : List Chunk)
      → end ≤ length text
      → end ≤ start + 1000
      → All (IsWindow text) chunks
      → All (IsWindow text) (push_window page start end text chunks)
  push_window-IsWindow start end chunks le fits hs =
      elim (Bool-cases (is_blank (slice start end text))) [
        | inl e ↦ rw e hs
        | inr e ↦ rw e (
            All-append (IsWindow text) chunks _ hs (
              record {
                first = start;
                last = end;
                at-start = refl;
                at-end = refl;
                content = refl;
                in-text = le;
                in-size = fits;
              },
              tt,
            ))
      ]

  push_window-Covers :
      (start end p : ℕ) (c : Code) (chunks : List Chunk)
      → start ≤ p
      → p < end
      → code_at p text ≡ some c
      → is_space c ≡ false
      → Covers p (push_window page start end text chunks)
  push_window-Covers start end p c chunks la lb at seen =
      elim (Bool-cases (is_blank (slice start end text))) [
        | inl e ↦ absurd (grind (arith, is_blank-slice start end p text c la lb at e))
        | inr e ↦ rw e (record {
          at = plain_chunk page (length chunks) (slice start end text) (pos start) (pos end);
          is-in = In-append_right _ chunks _ (inl refl);
          first = start;
          last = end;
          at-start = refl;
          at-end = refl;
          from-first = la;
          below-last = lb;
        })
      ]

  push_window-Covers_kept :
      (start end p : ℕ) (chunks : List Chunk)
      → Covers p chunks
      → Covers p (push_window page start end text chunks)
  push_window-Covers_kept start end p chunks k =
      elim (Bool-cases (is_blank (slice start end text))) [
        | inl e ↦ rw e k
        | inr e ↦ rw e (record {
          at = k.at;
          is-in = In-append_left k.at chunks _ k.is-in;
          first = k.first;
          last = k.last;
          at-start = k.at-start;
          at-end = k.at-end;
          from-first = k.from-first;
          below-last = k.below-last;
        })
      ]

  -- With the text's length in fuel the loop ends.
  fixed_size_loop-total :
      (fuel start : ℕ) (chunks : List Chunk)
      → start ≤ length text
      → length text < fuel + start
      → All (IsWindow text) chunks
      → (cs : List Chunk) × (fixed_size_loop page fuel start text chunks ≡ some cs)
        × All (IsWindow text) cs
  unfolding fixed_size_loop
  fixed_size_loop-total zero start chunks inside enough hs = absurd (omega arith)
  fixed_size_loop-total (suc fuel) start chunks inside enough hs =
      let end = min (start + 1000) (length text) in
      let hs' = push_window-IsWindow start end chunks (omega arith) (omega arith) hs in
      elim (Bool-cases (ltb start (length text))) [
        | inr e ↦ rw e (chunks, refl, hs)
        | inl e ↦ elim (Bool-cases (leb (length text) end)) [
          | inl l ↦ rw (e, l) (push_window page start end text chunks, refl, hs')
          | inr l ↦
              rw (e, l) (fixed_size_loop-total fuel (end - 200) _ (omega arith) (ground arith) hs')
        ]
      ]

  fixed_size_loop-Covers :
      (fuel start p : ℕ) (c : Code) (chunks cs : List Chunk)
      → p < length text
      → code_at p text ≡ some c
      → is_space c ≡ false
      → fixed_size_loop page fuel start text chunks ≡ some cs
      → (start ≤ p) ⊎ Covers p chunks
      → Covers p cs
  unfolding fixed_size_loop
  fixed_size_loop-Covers zero start p c chunks cs inside at seen run k = ground arith
  fixed_size_loop-Covers (suc fuel) start p c chunks cs inside at seen run k =
      let end = min (start + 1000) (length text) in
      let done : Covers p (push_window page start end text chunks) ⊎ (end ≤ p) = elim k [
        | inr kept ↦ inl (push_window-Covers_kept start end p chunks kept)
        | inl from ↦ elim (Bool-cases (ltb p end)) [
          | inl lb ↦ inl (push_window-Covers start end p c chunks from (ground arith) at seen)
          | inr lb ↦ inr (ground arith)
        ]
      ] in
      elim (Bool-cases (ltb start (length text))) [
        | inr e ↦
            let kept : Covers p chunks = elim k [ inl from ↦ absurd (ground arith) | inr c ↦ c ] in
            let same : chunks ≡ cs = ground arith in subst (Covers p) same kept
        | inl e ↦ elim (Bool-cases (leb (length text) end)) [
          | inl l ↦
              let covered : Covers p (push_window page start end text chunks) = elim done [
                | inl d ↦ d
                | inr from ↦ absurd (ground arith)
              ] in
              let same : push_window page start end text chunks ≡ cs = ground arith in
              subst (Covers p) same covered
          | inr l ↦
              fixed_size_loop-Covers fuel (end - 200) p c (push_window page start end text chunks)
                cs inside at seen (ground arith)
                (elim done [ inl d ↦ inr d | inr f ↦ inl (omega arith) ])
        ]
      ]

  -- `chunkByFixedSize` ends: each chunk is the trimmed text of a window of at most 1000 code units
  -- inside the text, and each code unit that is not white space lies in some chunk's window.
  pub chunk_by_fixed_size-Covers :
      (cs : List Chunk) × (chunk_by_fixed_size page text ≡ some cs)
      × All (IsWindow text) cs
      × ((p : ℕ) → (shown_at p text ≡ false) ⊎ Covers p cs)
  unfolding chunk_by_fixed_size shown_at
  chunk_by_fixed_size-Covers =
      let t = fixed_size_loop-total (length text + 1) 0 [] (omega arith) (omega arith) tt in
      (
        t.0,
        t.1,
        t.2,
        λ p. elim (Option-cases (code_at p text)) [
          | inl n ↦ inl (rw (n, shown_at) refl)
          | inr (c, at) ↦ elim (Bool-cases (is_space c)) [
            | inl b ↦ inl (rw (at, shown_at) (rw b refl))
            | inr b ↦ inr (
                fixed_size_loop-Covers (length text + 1) 0 p c [] t.0 (code_at-inside p text c at)
                  at b t.1 (inl (omega arith)))
          ]
        ],
      )
