-- ===== src/Chunking/Bounds.antt =====
-- apps/api/src/rag/chunking.service.ts: the size of the chunks of `chunkBySentences`.
use contractor_reviewer.Common.{
  ℕ, ◌+◌, ◌≤◌, List, [], ◌∷◌, Option, arith, ltb, eqb, length, length-append, All, All-append,
  Bool-cases, inl, inr,
}
use contractor_reviewer.Chunking.{
  Chunk, Sentencing, push_current, add_sentence, add_sentences, first_sentencing,
  chunk_by_sentences, split_sentences,
}
use contractor_reviewer.Chunking.Text.{Code, is_blank, slice_last, length-trim, length-slice_last}

abbrev IsSmall : Chunk → Type 0
IsSmall c = length c.text ≤ 1000

record IsBounded (s : Sentencing) : Type 0 where
  pub chunks-IsSmall : All IsSmall s.chunks
  pub current-small : length s.current ≤ 1000

module _ (page : Option ℕ) where
  push_current-IsSmall :
      (s : Sentencing) (x : List Code) → IsBounded s → All IsSmall (push_current page s x)
  push_current-IsSmall s x b = elim (Bool-cases (eqb (length s.current) 0)) [
    | inl e ↦ rw e b.chunks-IsSmall
    | inr e ↦ rw e (
        All-append IsSmall s.chunks _ b.chunks-IsSmall
          (omega (arith, b.current-small, length-trim s.current), tt))
  ]

  add_sentence-IsBounded :
      (x : List Code) (s : Sentencing)
      → length x ≤ 799
      → IsBounded s
      → IsBounded (add_sentence page x s)
  unfolding add_sentence
  add_sentence-IsBounded x s short b = elim (Bool-cases (ltb 1000 (length s.current + length x))) [
    | inl e ↦ rw e (record {
      chunks-IsSmall = push_current-IsSmall s x b;
      current-small = omega (
        arith,
        short,
        length-append (slice_last 200 s.current) (b' ' ∷ x),
        length-slice_last 200 s.current,
      );
    })
    | inr e ↦ rw e (record {
      chunks-IsSmall = b.chunks-IsSmall;
      current-small = ground (arith, length-append s.current x);
    })
  ]

  add_sentences-IsBounded :
      (xs : List (List Code)) (s : Sentencing)
      → All (λ x. length x ≤ 799) xs
      → IsBounded s
      → IsBounded (add_sentences page xs s)
  unfolding add_sentences
  add_sentences-IsBounded [] s short b = b
  add_sentences-IsBounded (x ∷ xs) s short b =
      add_sentences-IsBounded xs (add_sentence page x s) short.1
        (add_sentence-IsBounded x s short.0 b)

  -- If no sentence of the text has more than 799 code units, no chunk has more than 1000.
  pub chunk_by_sentences-IsSmall :
      (text : List Code)
      → All (λ x. length x ≤ 799) (split_sentences text)
      → All (λ c. length c.text ≤ 1000) (chunk_by_sentences page text)
  unfolding chunk_by_sentences
  chunk_by_sentences-IsSmall text short =
      let s = add_sentences page (split_sentences text) first_sentencing in
      let b =
        add_sentences-IsBounded (split_sentences text) first_sentencing short
          (record { chunks-IsSmall = tt; current-small = omega arith }) in
      elim (Bool-cases (is_blank s.current)) [
        | inl e ↦ rw e b.chunks-IsSmall
        | inr e ↦ rw e (
            All-append IsSmall s.chunks _ b.chunks-IsSmall
              (omega (arith, b.current-small, length-trim s.current), tt))
      ]
