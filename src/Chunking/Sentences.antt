-- ===== src/Chunking/Sentences.antt =====
-- apps/api/src/rag/chunking.service.ts: the sentences of `chunkBySentences`, and its chunks.
use contractor_reviewer.Common.{
  true, false, ◌≡◌, ◌⊎◌, refl, ◌∙◌, sym, ap, List, [], ◌∷◌, ◌++◌, inl, inr, All, All-append,
  Bool-cases,
}
use mathlib.Core.List.{append_assoc, append-nil}
use contractor_reviewer.Chunking.{Phase, before, body, marks, scan, split_sentences}
use contractor_reviewer.Chunking.Text.{Code, is_terminator}

pub flatten : List (List Code) → List Code
flatten [] = []
flatten (x ∷ xs) = x ++ flatten xs

-- What the scan holds of the text before its place.
unfoldable pub held : Phase → List Code
held before = []
held (body acc) = acc
held (marks acc) = acc

IsWord : Code → Type 0
IsWord c = is_terminator c ≡ false

-- A sentence's body holds no mark.
abbrev IsHeld : Phase → Type 0
IsHeld (body acc) = All IsWord acc
IsHeld _ = Unit

-- The rest of the text is the sentences of the scan and a last part without a mark.
record IsCut (phase : Phase) (s : List Code) : Type 0 where
  pub dropped : List Code
  pub parts : held phase ++ s ≡ flatten (scan phase s) ++ dropped
  pub dropped-IsWord : All IsWord dropped

-- Likewise with the marks before the first sentence.
pub record IsScanned (s : List Code) : Type 0 where
  pub skipped : List Code
  pub dropped : List Code
  pub parts : s ≡ skipped ++ flatten (scan before s) ++ dropped
  pub skipped-marks : All (λ c. is_terminator c ≡ true) skipped
  pub dropped-words : All (λ c. is_terminator c ≡ false) dropped

snoc-append : (acc s : List Code) (c : Code) → acc ++ c ∷ s ≡ (acc ++ c ∷ []) ++ s
snoc-append acc s c = sym (append_assoc acc (c ∷ []) s)

mutual
  unfolding scan held IsWord flatten

  body-IsCut : (acc s : List Code) → All IsWord acc → IsCut (body acc) s
  body-IsCut acc [] w = record { dropped = acc; parts = append-nil acc; dropped-IsWord = w }
  body-IsCut acc (c ∷ s) w = elim (Bool-cases (is_terminator c)) [
    | inl e ↦
        let rest = marks-IsCut (acc ++ c ∷ []) s in
        record {
          dropped = rest.dropped;
          parts = rw (e, flatten) (snoc-append acc s c ∙ rest.parts);
          dropped-IsWord = rest.dropped-IsWord;
        }
    | inr e ↦
        let rest = body-IsCut (acc ++ c ∷ []) s (All-append IsWord acc (c ∷ []) w (e, tt)) in
        record {
          dropped = rest.dropped;
          parts = rw (e, flatten) (snoc-append acc s c ∙ rest.parts);
          dropped-IsWord = rest.dropped-IsWord;
        }
  ]

  marks-IsCut : (acc s : List Code) → IsCut (marks acc) s
  marks-IsCut acc [] = record {
    dropped = [];
    parts = sym (append-nil (acc ++ []));
    dropped-IsWord = tt;
  }
  marks-IsCut acc (c ∷ s) = elim (Bool-cases (is_terminator c)) [
    | inl e ↦
        let rest = marks-IsCut (acc ++ c ∷ []) s in
        record {
          dropped = rest.dropped;
          parts = rw (e, flatten) (snoc-append acc s c ∙ rest.parts);
          dropped-IsWord = rest.dropped-IsWord;
        }
    | inr e ↦
        let rest = body-IsCut (c ∷ []) s (e, tt) in
        record {
          dropped = rest.dropped;
          parts =
              rw (e, flatten)
                (ap (λ l. acc ++ l) rest.parts
                  ∙ sym (append_assoc acc (flatten (scan (body (c ∷ [])) s)) rest.dropped));
          dropped-IsWord = rest.dropped-IsWord;
        }
  ]

-- A text is marks that begin no match, the matches in their order, and a last part without any mark,
-- which belongs to no match.
pub scan-IsScanned : (s : List Code) → IsScanned s
unfolding scan held IsWord flatten
scan-IsScanned [] = record {
  skipped = [];
  dropped = [];
  parts = refl;
  skipped-marks = tt;
  dropped-words = tt;
}
scan-IsScanned (c ∷ s) = elim (Bool-cases (is_terminator c)) [
  | inl e ↦
      let rest = scan-IsScanned s in
      record {
        skipped = c ∷ rest.skipped;
        dropped = rest.dropped;
        parts = rw (e, flatten) (ap (λ l. c ∷ l) rest.parts);
        skipped-marks = (e, rest.skipped-marks);
        dropped-words = rest.dropped-words;
      }
  | inr e ↦
      let rest = body-IsCut (c ∷ []) s (e, tt) in
      record {
        skipped = [];
        dropped = rest.dropped;
        parts = rw (e, flatten) rest.parts;
        skipped-marks = tt;
        dropped-words = rest.dropped-IsWord;
      }
]

-- At least one code unit that is no mark, then at least one mark.
pub record IsSentence (x : List Code) : Type 0 where
  pub first : Code
  pub words : List Code
  pub mark : Code
  pub marks : List Code
  pub parts : x ≡ (first ∷ words) ++ mark ∷ marks
  pub words-words : All (λ c. is_terminator c ≡ false) (first ∷ words)
  pub marks-marks : All (λ c. is_terminator c ≡ true) (mark ∷ marks)

-- What the scan holds is the beginning of a sentence, or a sentence.
abbrev Fits : Phase → Type 0
Fits before = Unit
Fits (body []) = ⊥
Fits (body (c ∷ acc)) = All (λ c. is_terminator c ≡ false) (c ∷ acc)
Fits (marks acc) = IsSentence acc

-- The text is its sentences, between marks that begin none and a last part without marks.
pub record IsSplit (s : List Code) : Type 0 where
  pub skipped : List Code
  pub dropped : List Code
  pub skipped-marks : All (λ c. is_terminator c ≡ true) skipped
  pub dropped-words : All (λ c. is_terminator c ≡ false) dropped
  pub split :
      (split_sentences s ≡ s ∷ []) × (s ≡ skipped ++ dropped)
      ⊎ (s ≡ skipped ++ flatten (split_sentences s) ++ dropped) × All IsSentence (split_sentences s)
