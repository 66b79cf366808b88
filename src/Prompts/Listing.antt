-- ===== src/Prompts/Listing.antt =====
-- The listings of prompts for a workspace, an account and a document, of
-- apps/api/src/prompts/prompt.service.ts.
use contractor_reviewer.Common.{
  ℕ, String, Bool, true, false, List, [], ◌∷◌, ◌++◌, Option, none, some, get_or,
}
use contractor_reviewer.Repository.{Repository}
use contractor_reviewer.Entities.{Prompt, prompt_key}
use contractor_reviewer.Prompts.{
  global_prompt_key, workspace_prompt_key, prompt_keys, DefaultTexts, entry, or_option,
  lookup_default, PromptScopeFlags, Result, ok, at_global, at_workspace, at_document,
  get_combined_prompt, and_then,
}

pub data PromptSource : Type 0 where
  document workspace global : PromptSource

pub record PromptOverride : Type 0 where
  pub key : String
  pub content : List ℕ
  pub source : PromptSource
  pub has_override : Bool
  pub description : Option String

pub record DocumentPrompt : Type 0 where
  pub key : String
  pub content : List ℕ
  pub source : PromptSource
  pub description : Option String

abbrev pub content_of : Option Prompt → Option (List ℕ)
content_of none = none
content_of (some p) = some p.content

abbrev pub is_found : Option Prompt → Bool
is_found none = false
is_found (some p) = true

abbrev pub first_prompt : Option Prompt → Option Prompt → Option Prompt
first_prompt none b = b
first_prompt (some a) b = some a

abbrev pub description_of : Option Prompt → Option String
description_of none = none
description_of (some p) = elim p.metadata [ none ↦ none | some m ↦ m.description ]

abbrev pub descriptions : List (String × String)
descriptions =
    ("chat.system", "System prompt for RAG chat")
    ∷ ("chat.user", "User prompt template for RAG chat")
    ∷ []

-- `content ?? lookupDefault(…)` as the outcome of a call that does not throw.
abbrev pub with_item : Option (List ℕ) → (List ℕ → DocumentPrompt) → List DocumentPrompt
with_item none item = []
with_item (some []) item = []
with_item (some (c ∷ s)) item = item (c ∷ s) ∷ []

module _ (P : Repository prompt_key) (d : DefaultTexts) where
  pub list_prompts_for_workspace : String → P.Table → List PromptOverride
  list_prompts_for_workspace ws t =
      let found = P.find_one (at_workspace workspace_prompt_key "default" ws) t in
      record {
        key = workspace_prompt_key;
        content =
            get_or (or_option (content_of found) (lookup_default d workspace_prompt_key "default"))
              [];
        source = workspace;
        has_override = is_found found;
        description = some "Workspace system prompt for all documents";
      }
      ∷ []

  pub list_global_prompts : P.Table → List PromptOverride
  list_global_prompts t =
      let found = P.find_one (at_global global_prompt_key "default") t in
      record {
        key = global_prompt_key;
        content =
            get_or (or_option (content_of found) (lookup_default d global_prompt_key "default")) [];
        source = global;
        has_override = is_found found;
        description = some "Global system prompt for chat";
      }
      ∷ []

  abbrev pub source_of : Option Prompt → Option Prompt → PromptSource
  source_of (some p) w = document
  source_of none (some p) = workspace
  source_of none none = global

  -- The content of one key: the combination if flags are given, else the first that is found.
  abbrev pub listed_content :
      (ws doc key : String)
      → Option PromptScopeFlags
      → Option Prompt
      → P.Table
      → Result (Option (List ℕ))
  listed_content ws doc key none found t =
      ok (or_option (content_of found) (lookup_default d key "default"))
  listed_content ws doc key (some flags) found t =
      and_then
        (get_combined_prompt P d key
          (record {
            workspace_id = some ws;
            document_id = some doc;
            variant = some "default";
            scope_flags = some flags;
          })
          t)
        (λ s. ok (some s))

  abbrev pub list_key :
      (ws doc key : String) → Option PromptScopeFlags → P.Table → Result (List DocumentPrompt)
  list_key ws doc key flags t =
      let of_document = P.find_one (at_document key "default" doc) t in
      let of_workspace = P.find_one (at_workspace key "default" ws) t in
      let found =
        first_prompt of_document
          (first_prompt of_workspace (P.find_one (at_global key "default") t)) in
      and_then (listed_content ws doc key flags found t) (λ content. ok (
        with_item content (λ s. record {
          key = key;
          content = s;
          source = source_of of_document of_workspace;
          description = or_option (entry key descriptions) (description_of found);
        })))

  abbrev pub list_keys :
      (ws doc : String)
      → List String
      → Option PromptScopeFlags
      → P.Table
      → Result (List DocumentPrompt)
  list_keys ws doc [] flags t = ok []
  list_keys ws doc (key ∷ keys) flags t =
      and_then (list_key ws doc key flags t)
        (λ items. and_then (list_keys ws doc keys flags t) (λ rest. ok (items ++ rest)))

  pub list_prompts_for_document :
      (ws doc : String) → Option PromptScopeFlags → P.Table → Result (List DocumentPrompt)
  list_prompts_for_document ws doc flags t = list_keys ws doc prompt_keys flags t
