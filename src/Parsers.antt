-- ===== src/Parsers.antt =====
-- apps/api/src/parsers/parser-factory.service.ts: which parser reads a document. The adapters and
-- the settings of the workspace are an interface, `Services`.
pub mod Fallback
mod Tests
use contractor_reviewer.Common.{
  ℕ, String, Bool, true, false, List, [], ◌∷◌, Option, none, some, if◌then◌else◌, ◌==◌, get_or,
}

-- packages/shared/src/enums: DocumentParser
pub data DocumentParser : Type 0 where
  docling pdfplumber dpt2 llamaparse unstructured : DocumentParser

abbrev pub primary_parser : DocumentParser
primary_parser = docling

-- PARSERS_REQUIRING_API_KEY
abbrev pub requires_api_key : DocumentParser → Bool
requires_api_key dpt2 = true
requires_api_key llamaparse = true
requires_api_key unstructured = true
requires_api_key docling = false
requires_api_key pdfplumber = false

-- What an asynchronous read answers.
pub data Read (A : Type 0) : Type 0 where
  answer : A → Read A
  throws : Read A

-- What the factory asks of the adapters and of WorkspaceSettingsService.
pub record Services : Type 0 where
  pub is_supported : DocumentParser → String → Bool
  pub get_decrypted_api_key : String → DocumentParser → Read (Option String)
  pub default_document_parser : String → Read (Option DocumentParser)

pub record ParserOptions : Type 0 where
  pub timeout : ℕ
  pub api_key : Option String

pub data Error : Type 0 where
  api_key_missing settings_failed unavailable : Error

pub data Result (A : Type 0) : Type 0 where
  ok : A → Result A
  err : Error → Result A

pub record Choice : Type 0 where
  pub parser_id : DocumentParser
  pub options : ParserOptions

abbrev pub truthy : Option String → Option String
truthy none = none
truthy (some s) = if s == "" then none else some s

module _ (S : Services) where
  abbrev with_key : Read (Option String) → Result ParserOptions
  with_key throws = err settings_failed
  with_key (answer k) = elim (truthy k) [
    | none ↦ err api_key_missing
    | some key ↦ ok (record { timeout = 60000; api_key = some key })
  ]

  -- The adapter is known by its id.
  pub get_parser_with_api_key : DocumentParser → String → Result ParserOptions
  get_parser_with_api_key id ws =
      if requires_api_key id
      then with_key (S.get_decrypted_api_key ws id)
      else ok (record { timeout = 60000; api_key = none })

  -- The attempt with the preferred parser, in its `try`.
  abbrev pub preferred : String → DocumentParser → String → Option Choice
  preferred mime id ws = elim (get_parser_with_api_key id ws) [
    | err e ↦ none
    | ok o ↦ if S.is_supported id mime then some (record { parser_id = id; options = o }) else none
  ]

  abbrev pub with_primary : String → String → Result Choice
  with_primary mime ws =
      if S.is_supported primary_parser mime
      then elim (get_parser_with_api_key primary_parser ws) [
        | err e ↦ err e
        | ok o ↦ ok (record { parser_id = primary_parser; options = o })
      ]
      else err unavailable

  pub parser_or_primary : String → DocumentParser → String → Result Choice
  parser_or_primary mime id ws = elim (preferred mime id ws) [
    | some c ↦ ok c
    | none ↦ with_primary mime ws
  ]

  pub get_parser_with_fallback : String → Option DocumentParser → String → Result Choice
  get_parser_with_fallback mime (some id) ws = parser_or_primary mime id ws
  get_parser_with_fallback mime none ws = elim (S.default_document_parser ws) [
    | throws ↦ err settings_failed
    | answer o ↦ parser_or_primary mime (get_or o primary_parser) ws
  ]
