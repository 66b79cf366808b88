-- ===== src/Chunking/Paragraphs.antt =====
-- apps/api/src/rag/chunking.service.ts: the loop of `chunkByParagraph` over the blocks of a text.
pub mod Sizes
use contractor_reviewer.Common.{
  ℕ, zero, suc, ◌+◌, ◌-◌, Bool, true, false, ◌&&◌, List, [], ◌∷◌, ◌++◌, Option, none, some, ltb,
  leb, if◌then◌else◌, length, map,
}
use contractor_reviewer.Chunking.{
  ℤ, pos, negsuc, sub_ℕ, Chunk, ParagraphId, para, chunk, chunk_size, chunk_overlap,
  chunk_by_fixed_size,
}
use contractor_reviewer.Chunking.Text.{Code, trim, is_blank, slice_last}
use contractor_reviewer.Chunking.Headings.{Block}

-- The variables of the loop.
pub record Accumulation : Type 0 where
  pub chunks : List Chunk
  pub current_index : ℕ
  pub text : List Code
  pub start : ℤ
  pub clause : Option (List Code)
  pub heading : Option (List (List Code))

-- a + b
abbrev add_ℤ : ℕ → ℤ → ℤ
add_ℤ a (pos b) = pos (a + b)
add_ℤ a (negsuc b) = sub_ℕ a (b + 1)

module _ (page : Option ℕ) where
  pub flush : (end_index current_block_length : ℕ) → Accumulation → Accumulation
  flush end_index current_block_length a = if is_blank a.text then a else record a {
    chunks =
        a.chunks
        ++ record {
          text = trim a.text;
          page_number = page;
          paragraph_id = para (length a.chunks + 1);
          start_index = a.start;
          end_index = sub_ℕ end_index current_block_length;
          clause_number = a.clause;
          heading_path = a.heading;
        }
          ∷ [];
    text = [];
  }

-- The loop that pushes the chunks of an oversized block.
abbrev pub push_oversized : ℕ → Block → List Chunk → List Chunk → List Chunk
push_oversized index b [] chunks = chunks
push_oversized index b (o ∷ os) chunks = push_oversized index b os (
    chunks
    ++ record o {
      paragraph_id = para (length chunks + 1);
      start_index = add_ℤ index o.start_index;
      end_index = add_ℤ index o.end_index;
      clause_number = b.clause_number;
      heading_path = b.heading_path;
    }
      ∷ [])

-- The block goes to the text so far, after a blank line if there is one.
abbrev pub join_block : Block → List Code → Accumulation → Accumulation
join_block b p a =
    let empty = leb (length a.text) 0 in
    record a {
      text = a.text ++ ((if empty then [] else 10 ∷ 10 ∷ []) ++ p);
      clause = if empty then b.clause_number else a.clause;
      heading = if empty then b.heading_path else a.heading;
    }

module _ (page : Option ℕ) where
  abbrev pub add_oversized : Block → List Code → Accumulation → Option Accumulation
  add_oversized b p a =
      let flushed = flush page a.current_index 0 a in
      let next = a.current_index + (length b.raw + 2) in
      elim (chunk_by_fixed_size page p) [
        | none ↦ none
        | some os ↦ some record flushed {
          chunks = push_oversized a.current_index b os flushed.chunks;
          current_index = next;
          start = pos next;
          clause = b.clause_number;
          heading = b.heading_path;
        }
      ]

  -- The block does not fit: the text so far is a chunk, and the block begins the next one after
  -- what is left of the text.
  abbrev pub start_next : Block → List Code → Accumulation → Accumulation
  start_next b p a =
      let flushed = flush page a.current_index (length p) a in
      record flushed {
        text = slice_last chunk_overlap flushed.text ++ b' ' ∷ p;
        start = sub_ℕ a.current_index chunk_overlap;
        clause = b.clause_number;
        heading = b.heading_path;
      }

  abbrev pub add_fitting : Block → List Code → Accumulation → Accumulation
  add_fitting b p a =
      let joined =
        if ltb 0 (length a.text) && ltb chunk_size (length a.text + length p)
        then start_next b p a
        else join_block b p a in
      record joined { current_index = a.current_index + (length b.raw + 2) }

  -- One round; 1500 is `CHUNK_SIZE * 1.5`.
  pub add_block : Block → Accumulation → Option Accumulation
  add_block b a =
      let p = trim b.raw in
      if leb (length p) 0
      then some a
      else if ltb 1500 (length p)
      then add_oversized b p a
      else some (add_fitting b p a)

  pub add_blocks : List Block → Accumulation → Option Accumulation
  add_blocks [] a = some a
  add_blocks (b ∷ bs) a = elim (add_block b a) [ none ↦ none | some a' ↦ add_blocks bs a' ]

  abbrev pub first_accumulation : Accumulation
  first_accumulation = record {
    chunks = [];
    current_index = 0;
    text = [];
    start = pos 0;
    clause = none;
    heading = none;
  }

  -- The chunks of the blocks of a text, before the fallback for a text without any.
  pub chunk_blocks : List Block → Option (List Chunk)
  chunk_blocks bs = elim (add_blocks bs first_accumulation) [
    | none ↦ none
    | some a ↦ some (flush page a.current_index 0 a).chunks
  ]
