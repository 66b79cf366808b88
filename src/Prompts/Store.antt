-- ===== src/Prompts/Store.antt =====
-- PromptService.upsertPrompt and the three resets of apps/api/src/prompts/prompt.service.ts.
use contractor_reviewer.Common.{ℕ, String, Bool, List, Option, none, some, get_or}
use contractor_reviewer.Repository.{Repository}
use contractor_reviewer.Entities.{Prompt, PromptMetadata, prompt_key}
use contractor_reviewer.Prompts.{
  or_option, PromptOptions, truthy, at_global, at_workspace, at_document,
}

-- A stored prompt takes the new content, and new metadata if they are given.
abbrev pub changed : List ℕ → Option PromptMetadata → Prompt → Prompt
changed content metadata p = record p {
  content = content;
  metadata = or_option metadata p.metadata;
}

pub record Change : Type 0 where
  pub key : String
  pub variant : String
  pub content : List ℕ
  pub metadata : Option PromptMetadata

abbrev pub new_prompt : String → Change → Option String → Option String → Prompt
new_prompt id c ws document = record {
  id = id;
  key = c.key;
  variant = c.variant;
  workspace_id = ws;
  document_id = document;
  content = c.content;
  metadata = c.metadata;
}

module _ (P : Repository prompt_key) where
  -- `id` is the key that the database gives to a created row.
  abbrev pub store :
      (Prompt → Bool) → String → Change → Option String → Option String → P.Table → Prompt × P.Table
  store condition id c ws document t = elim (P.find_one condition t) [
    | some old ↦ let p = changed c.content c.metadata old in (p, P.save p t)
    | none ↦ let p = new_prompt id c ws document in (p, P.save p t)
  ]

  abbrev pub store_shared : String → Change → Option String → P.Table → Prompt × P.Table
  store_shared id c none t = store (at_global c.key c.variant) id c none none t
  store_shared id c (some ws) t = store (at_workspace c.key c.variant ws) id c (some ws) none t

  -- `if (documentId && workspaceId)`, with the two as far as they are truthy.
  abbrev pub store_for :
      (id : String)
      → Change
      → (document ws : Option String) → Option String
      → P.Table
      → Prompt × P.Table
  store_for id c none ws given t = store_shared id c given t
  store_for id c (some document) none given t = store_shared id c given t
  store_for id c (some document) (some ws) given t =
      store (at_document c.key c.variant document) id c (some ws) (some document) t

  unfoldable pub upsert_prompt :
      (id key : String)
      → List ℕ
      → PromptOptions
      → Option PromptMetadata
      → P.Table
      → Prompt × P.Table
  upsert_prompt id key content o metadata t =
      store_for id
        (record {
          key = key;
          variant = get_or o.variant "default";
          content = content;
          metadata = metadata;
        })
        (truthy o.document_id) (truthy o.workspace_id) o.workspace_id t

  abbrev pub upsert_global_prompt : (id key : String) → List ℕ → P.Table → Prompt × P.Table
  upsert_global_prompt id key content =
      upsert_prompt id key content
        (record {
          workspace_id = none;
          document_id = none;
          variant = some "default";
          scope_flags = none;
        })
        none

  -- `if (prompt) await remove(prompt)`
  unfoldable pub reset : (Prompt → Bool) → P.Table → P.Table
  reset condition t = elim (P.find_one condition t) [ none ↦ t | some p ↦ P.remove p t ]

  abbrev pub reset_global_prompt : String → P.Table → P.Table
  reset_global_prompt key = reset (at_global key "default")

  abbrev pub reset_prompt : (ws key : String) → P.Table → P.Table
  reset_prompt ws key = reset (at_workspace key "default" ws)

  abbrev pub reset_document_prompt : (ws document key : String) → P.Table → P.Table
  reset_document_prompt ws document key = reset (at_document key "default" document)
