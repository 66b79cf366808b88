-- ===== src/Chunking/Paragraphs/Sizes.antt =====
-- apps/api/src/rag/chunking.service.ts: the size of the chunks of `chunkByParagraph`.
use contractor_reviewer.Common.{◌≤◌, ◌⊎◌, false, ◌≡◌, List, [], length, All}
use contractor_reviewer.Chunking.{Chunk}
use contractor_reviewer.Chunking.Text.{trim, is_blank}
use contractor_reviewer.Chunking.Paragraphs.{Accumulation}

abbrev IsSmall : Chunk → Type 0
IsSmall c = length c.text ≤ 1500

-- The chunks are small, and so will be that of the text so far, which is empty or shows something.
record IsBounded (a : Accumulation) : Type 0 where
  pub chunks-IsSmall : All IsSmall a.chunks
  pub text_small : length (trim a.text) ≤ 1500
  pub text_shown : (a.text ≡ []) ⊎ (is_blank a.text ≡ false)
