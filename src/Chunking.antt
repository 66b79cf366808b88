-- ===== src/Chunking.antt =====
-- apps/api/src/rag/chunking.service.ts: ChunkingService splits a text into chunks for embedding.
-- A text is the list of its UTF-16 code units. The splitting of a text into the blocks of
-- `chunkByParagraph` by regular expressions is a parameter; the walk over the tokens of the
-- Markdown lexer (the package `marked`) is modelled.
pub mod Text
pub mod Slices
pub mod Windows
pub mod Sentences
pub mod Bounds
pub mod Paragraphs
pub mod Headings
mod Tests
use contractor_reviewer.Common.{
  ℕ, zero, suc, ◌+◌, ◌-◌, ◌*◌, String, Bool, true, false, not, ◌&&◌, ◌||◌, List, [], ◌∷◌, ◌++◌,
  Option, none, some, ltb, leb, eqb, if◌then◌else◌, length, take, drop, map, min,
}
use Text.{Code, is_terminator, trim, is_blank, slice, slice_last}

-- Signed indices: differences of natural numbers.
pub data ℤ : Type 0 where
  pos : ℕ → ℤ
  negsuc : ℕ → ℤ

-- a - b
abbrev pub sub_ℕ : ℕ → ℕ → ℤ
sub_ℕ a b = if leb b a then pos (a - b) else negsuc (b - a - 1)

-- `para-n` and `chunk-n`
pub data ParagraphId : Type 0 where
  para chunk : ℕ → ParagraphId

pub record Chunk : Type 0 where
  pub text : List Code
  pub page_number : Option ℕ
  pub paragraph_id : ParagraphId
  pub start_index : ℤ
  pub end_index : ℤ
  pub clause_number : Option (List Code)
  pub heading_path : Option (List (List Code))

abbrev pub chunk_size : ℕ
chunk_size = 1000

abbrev pub chunk_overlap : ℕ
chunk_overlap = 200

-- The variables of the loop of `chunkBySentences`.
pub record Sentencing : Type 0 where
  pub chunks : List Chunk
  pub current : List Code
  pub current_start : ℤ
  pub current_index : ℕ

abbrev pub first_sentencing : Sentencing
first_sentencing = record { chunks = []; current = []; current_start = pos 0; current_index = 0 }

module _ (page : Option ℕ) where
  -- A chunk of the strategies that know no headings; its text is trimmed.
  abbrev pub plain_chunk : ℕ → List Code → ℤ → ℤ → Chunk
  plain_chunk n text start end = record {
    text = trim text;
    page_number = page;
    paragraph_id = chunk (n + 1);
    start_index = start;
    end_index = end;
    clause_number = none;
    heading_path = none;
  }

  -- `if (chunkText.trim()) chunks.push(…)`
  abbrev pub push_window : ℕ → ℕ → List Code → List Chunk → List Chunk
  push_window start end text chunks =
      let part = slice start end text in
      if is_blank part
      then chunks
      else chunks ++ plain_chunk (length chunks) part (pos start) (pos end) ∷ []

  -- The `while` loop of `chunkByFixedSize`, on fuel; `none` means that the fuel ran out. After
  -- `start = end - CHUNK_OVERLAP` the source sets a negative start to 0, as `-` on ℕ does.
  pub fixed_size_loop : ℕ → ℕ → List Code → List Chunk → Option (List Chunk)
  fixed_size_loop zero start text chunks = none
  fixed_size_loop (suc fuel) start text chunks =
      let end = min (start + chunk_size) (length text) in
      let chunks' = push_window start end text chunks in
      let rest = fixed_size_loop fuel (end - chunk_overlap) text chunks' in
      if ltb start (length text)
      then if leb (length text) end then some chunks' else rest
      else some chunks

  pub chunk_by_fixed_size : List Code → Option (List Chunk)
  chunk_by_fixed_size text = fixed_size_loop (length text + 1) 0 text []

  -- `if (currentChunk) chunks.push(…)`
  abbrev pub push_current : Sentencing → List Code → List Chunk
  push_current s sentence =
      if eqb (length s.current) 0
      then s.chunks
      else s.chunks
        ++ plain_chunk (length s.chunks) s.current s.current_start
            (sub_ℕ s.current_index (length sentence))
          ∷ []

  -- One round: the sentence goes to the current chunk, or begins the next one after an overlap.
  pub add_sentence : List Code → Sentencing → Sentencing
  add_sentence sentence s =
      if ltb chunk_size (length s.current + length sentence)
      then record {
        chunks = push_current s sentence;
        current = slice_last chunk_overlap s.current ++ b' ' ∷ sentence;
        current_start = sub_ℕ s.current_index chunk_overlap;
        current_index = s.current_index + length sentence;
      }
      else record s {
        current = s.current ++ sentence;
        current_index = s.current_index + length sentence;
      }

  pub add_sentences : List (List Code) → Sentencing → Sentencing
  add_sentences [] s = s
  add_sentences (x ∷ xs) s = add_sentences xs (add_sentence x s)

  abbrev pub finish : Sentencing → List Chunk
  finish s =
      if is_blank s.current
      then s.chunks
      else s.chunks
        ++ plain_chunk (length s.chunks) s.current s.current_start (pos s.current_index) ∷ []

-- `text.match(/[^.!?]+[.!?]+/g)`: the scan before a sentence, in its body, and in its final marks.
pub data Phase : Type 0 where
  before : Phase
  body marks : List Code → Phase

unfoldable pub scan : Phase → List Code → List (List Code)
scan before [] = []
scan before (c ∷ s) = scan (if is_terminator c then before else body (c ∷ [])) s
scan (body acc) [] = []
scan (body acc) (c ∷ s) =
    scan (if is_terminator c then marks (acc ++ c ∷ []) else body (acc ++ c ∷ [])) s
scan (marks acc) [] = acc ∷ []
scan (marks acc) (c ∷ s) =
    let more = scan (marks (acc ++ c ∷ [])) s in
    let next = acc ∷ scan (body (c ∷ [])) s in if is_terminator c then more else next

-- `… || [text]`
abbrev or_whole : List (List Code) → List Code → List (List Code)
or_whole [] text = text ∷ []
or_whole (x ∷ xs) text = x ∷ xs

pub split_sentences : List Code → List (List Code)
split_sentences text = or_whole (scan before text) text

pub chunk_by_sentences : Option ℕ → List Code → List Chunk
chunk_by_sentences page text =
    finish page (add_sentences page (split_sentences text) (first_sentencing))
