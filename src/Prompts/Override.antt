-- ===== src/Prompts/Override.antt =====
-- What a chat is told after a document's own user prompt was stored.
use contractor_reviewer.Common.{String, Bool, Option, some, get_or}
use contractor_reviewer.Repository.{Repository}
use contractor_reviewer.Prompts.{PromptOptions, PromptScopeFlags, is_included, no_flags}

-- The options of a call for one document of a workspace.
abbrev pub for_document :
    (ws doc : String) → Option String → Option PromptScopeFlags → PromptOptions
for_document ws doc variant flags = record {
  workspace_id = some ws;
  document_id = some doc;
  variant = variant;
  scope_flags = flags;
}

abbrev pub includes_document : Option PromptScopeFlags → Bool
includes_document flags = is_included (get_or flags no_flags).include_document
