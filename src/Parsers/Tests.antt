-- ===== src/Parsers/Tests.antt =====
-- A workspace that prefers LlamaParse and has no key for it.
use contractor_reviewer.Common.{String, ◌≡◌, refl, none, some, ◌==◌}
use contractor_reviewer.Parsers.{
  DocumentParser, llamaparse, primary_parser, Services, answer, throws, Choice, ok, err,
  settings_failed, get_parser_with_fallback, parser_or_primary, get_parser_with_api_key,
}
use contractor_reviewer.Parsers.Fallback.{Answers, get_parser_with_fallback_lem}

abbrev services : Services
services = record {
  is_supported = λ id mime. mime == "application/pdf";
  get_decrypted_api_key = λ ws id. answer none;
  default_document_parser = λ ws. answer none;
}

abbrev docling_choice : Choice
docling_choice = record {
  parser_id = primary_parser;
  options = record { timeout = 60000; api_key = none };
}

falls_back :
    get_parser_with_fallback services "application/pdf" (some llamaparse) "w1" ≡ ok docling_choice
unfolding get_parser_with_fallback parser_or_primary get_parser_with_api_key
falls_back = refl

abbrev pdf : String
pdf = "application/pdf"

get_parser_with_fallback_example :
    ((id : DocumentParser)
      → Answers services pdf "w1" id (get_parser_with_fallback services pdf (some id) "w1"))
    × ((id : DocumentParser)
        → services.default_document_parser "w1" ≡ answer (some id)
        → Answers services pdf "w1" id (get_parser_with_fallback services pdf none "w1"))
    × (services.default_document_parser "w1" ≡ answer none
        → Answers services pdf "w1" primary_parser
            (get_parser_with_fallback services pdf none "w1"))
    × (services.default_document_parser "w1" ≡ throws
        → get_parser_with_fallback services pdf none "w1" ≡ err settings_failed)
get_parser_with_fallback_example = get_parser_with_fallback_lem services pdf "w1"
