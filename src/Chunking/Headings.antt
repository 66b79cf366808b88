-- ===== src/Chunking/Headings.antt =====
-- apps/api/src/rag/chunking.service.ts, `splitMarkdownBlocksWithHeadings` and CLAUSE_NUMBER_RE: the
-- walk over the tokens of the lexer that keeps the stack of the headings in force.
pub mod Sections
use contractor_reviewer.Common.{
  ℕ, zero, suc, ◌+◌, ◌-◌, ◌≤◌, ◌<◌, Bool, true, false, ◌&&◌, ◌≡◌, refl, ◌∙◌, sym, ap, List, [], ◌∷◌,
  ◌++◌, Option, none, some, arith, ltb, leb, eqb, if◌then◌else◌, map, All, Bool-cases, min,
}
use contractor_reviewer.Chunking.Text.{Code, is_space, trim}
use mathlib.Core.List.{reverse}

unfoldable pub is_digit : Code → Bool
is_digit c = leb b'0' c && leb c b'9'

-- The rest of the expression after a digit (`dotted` is false) or after a dot that follows one:
-- `groups` more groups may come, and white space must end the number.
unfoldable pub clause_run : (dotted : Bool) → ℕ → List Code → List Code → Option (List Code)
unfolding is_digit is_space
clause_run dotted groups acc [] = none
clause_run false groups acc (c ∷ s) =
    let digit = clause_run false groups (acc ++ c ∷ []) s in
    let dot = clause_run true groups acc s in
    if is_digit c then digit else if eqb c b'.' then dot else if is_space c then some acc else none
clause_run true groups acc (c ∷ s) =
    let digit = clause_run false (groups - 1) (acc ++ b'.' ∷ c ∷ []) s in
    if is_digit c && ltb 0 groups then digit else if is_space c then some acc else none

-- `CLAUSE_NUMBER_RE.exec(text)`, its first group
unfoldable pub clause_number_of : List Code → Option (List Code)
unfolding is_digit is_space
clause_number_of [] = none
clause_number_of (c ∷ s) =
    let rest = clause_number_of s in
    if is_digit c then clause_run false 5 (c ∷ []) s else if is_space c then rest else none

-- A token of the lexer, as far as the walk reads it.
pub data Token : Type 0 where
  space_token : Token
  heading : (depth : ℕ) → (text raw : List Code) → Token
  list_token : (items : List (List Code)) → Token
  other : (raw : List Code) → Token

pub record Heading : Type 0 where
  pub depth : ℕ
  pub text : List Code
  pub clause : Option (List Code)

pub record Block : Type 0 where
  pub raw : List Code
  pub clause_number : Option (List Code)
  pub heading_path : Option (List (List Code))
  pub is_heading : Bool

-- The stack of headings has its top first here.
pub pop_headings : ℕ → List Heading → List Heading
pop_headings depth [] = []
pop_headings depth (h ∷ hs) =
    let rest = pop_headings depth hs in if leb depth h.depth then rest else h ∷ hs

pub push_heading : Heading → List Heading → List Heading
push_heading h stack = h ∷ pop_headings h.depth stack

pub current_clause : List Heading → Option (List Code)
current_clause [] = none
current_clause (h ∷ hs) =
    let below = current_clause hs in elim h.clause [ none ↦ below | some c ↦ some c ]

pub current_path : List Heading → Option (List (List Code))
current_path [] = none
current_path (h ∷ hs) = some (reverse (map (λ k. k.text) (h ∷ hs)))

pub emit : Bool → List Heading → List Code → List Block
unfolding current_clause current_path
emit is_heading stack raw = elim (trim raw) [
  | [] ↦ []
  | c ∷ s ↦
      record {
        raw = c ∷ s;
        clause_number = current_clause stack;
        heading_path = current_path stack;
        is_heading = is_heading;
      }
      ∷ []
]

pub emit_items : List Heading → List (List Code) → List Block
unfolding emit
emit_items stack [] = []
emit_items stack (x ∷ xs) = emit false stack x ++ emit_items stack xs

abbrev pub heading_of : ℕ → List Code → Heading
heading_of depth text = record {
  depth = depth;
  text = trim text;
  clause = clause_number_of (trim text);
}

-- The state of the walk: the stack, and the blocks so far.
pub record Walk : Type 0 where
  pub stack : List Heading
  pub blocks : List Block

pub walk_token : Token → Walk → Walk
unfolding push_heading emit emit_items
walk_token space_token w = w
walk_token (heading depth text raw) w =
    let stack = push_heading (heading_of depth text) w.stack in
    record { stack = stack; blocks = w.blocks ++ emit true stack raw }
walk_token (list_token items) w = record w { blocks = w.blocks ++ emit_items w.stack items }
walk_token (other raw) w = record w { blocks = w.blocks ++ emit false w.stack raw }

pub walk : List Token → Walk → Walk
walk [] w = w
walk (t ∷ ts) w = walk ts (walk_token t w)

pub split_markdown_blocks_with_headings : List Token → List Block
split_markdown_blocks_with_headings tokens =
    (walk tokens (record { stack = []; blocks = [] })).blocks
