-- ===== src/Prompts.antt =====
-- apps/api/src/prompts/prompt.service.ts: the prompts of an account, a workspace and a document, and
-- their combination into the prompts of a chat. A content is the list of its code units. The long
-- built-in texts are an argument, `DefaultTexts`; their keys are the source's.
pub mod Template
pub mod Rendering
pub mod Store
pub mod Listing
pub mod Chat
pub mod Slots
pub mod Override
mod Tests
use contractor_reviewer.Common.{
  ℕ, zero, suc, String, Bool, true, false, not, ◌&&◌, List, [], ◌∷◌, ◌++◌, Option, none, some,
  if◌then◌else◌, ◌==◌, get_or,
}
use contractor_reviewer.Common.{is_missing, is_given}
use contractor_reviewer.Repository.{Repository}
use contractor_reviewer.Entities.{Prompt, PromptMetadata, prompt_key}
use Prim.Native.String
use Prim.Native.Char.{code}

abbrev pub codes : String → List ℕ
codes String.[] = []
codes (String.◌∷◌ c s) = code c ∷ codes s

-- packages/shared/src/constants/prompts.ts
abbrev pub global_prompt_key : String
global_prompt_key = "global.system"

abbrev pub workspace_prompt_key : String
workspace_prompt_key = "workspace.system"

abbrev pub prompt_keys : List String
prompt_keys = "chat.system" ∷ "chat.user" ∷ []

pub record DefaultTexts : Type 0 where
  pub global_system : List ℕ
  pub chat_system : List ℕ
  pub chat_user : List ℕ
  pub review_global_system : List ℕ
  pub review_chat_system : List ℕ
  pub review_chat_user : List ℕ

abbrev pub default_prompts : DefaultTexts → List (String × List ℕ)
default_prompts d =
    ("default::global.system", d.global_system)
    ∷ ("default::workspace.system", [])
    ∷ ("default::chat.system", d.chat_system)
    ∷ ("default::chat.user", d.chat_user)
    ∷ ("legal-review-v2::global.system", d.review_global_system)
    ∷ ("legal-review-v2::workspace.system", [])
    ∷ ("legal-review-v2::chat.system", d.review_chat_system)
    ∷ ("legal-review-v2::chat.user", d.review_chat_user)
    ∷ []

abbrev pub entry : {A : Type 0} → String → List (String × A) → Option A
entry k [] = none
entry k ((j, a) ∷ entries) = if j == k then some a else entry k entries

abbrev pub or_option : {A : Type 0} → Option A → Option A → Option A
or_option none b = b
or_option (some a) b = some a

unfoldable pub lookup_default : DefaultTexts → String → String → Option (List ℕ)
lookup_default d key variant =
    or_option (entry (String.◌++◌ variant (String.◌++◌ "::" key)) (default_prompts d))
      (entry (String.◌++◌ "default::" key) (default_prompts d))

pub record PromptScopeFlags : Type 0 where
  pub include_global : Option Bool
  pub include_workspace : Option Bool
  pub include_document : Option Bool

-- The options of a call; a call without options has none of them.
pub record PromptOptions : Type 0 where
  pub workspace_id : Option String
  pub document_id : Option String
  pub variant : Option String
  pub scope_flags : Option PromptScopeFlags

pub data Error : Type 0 where
  prompt_not_found : String → String → Error

pub data Result (A : Type 0) : Type 0 where
  ok : A → Result A
  err : Error → Result A

abbrev pub and_then : {A B : Type 0} → Result A → (A → Result B) → Result B
and_then (ok a) f = f a
and_then (err e) f = err e

abbrev pub truthy : Option String → Option String
truthy none = none
truthy (some s) = if s == "" then none else some s

-- `flag !== false`
abbrev pub is_included : Option Bool → Bool
is_included none = true
is_included (some b) = b

abbrev pub no_flags : PromptScopeFlags
no_flags = record { include_global = none; include_workspace = none; include_document = none }

-- The conditions of the look-ups, with `IsNull()` as `is_missing`.
abbrev pub has_key : (key variant : String) → Prompt → Bool
has_key key variant p = p.key == key && p.variant == variant

abbrev pub at_global : (key variant : String) → Prompt → Bool
at_global key variant p =
    has_key key variant p && (is_missing p.workspace_id && is_missing p.document_id)

abbrev pub at_workspace : (key variant ws : String) → Prompt → Bool
at_workspace key variant ws p =
    has_key key variant p && (is_given ws p.workspace_id && is_missing p.document_id)

abbrev pub at_document : (key variant document : String) → Prompt → Bool
at_document key variant document p = has_key key variant p && is_given document p.document_id

-- `if (included && prompt?.content) parts.push(prompt.content)`
abbrev pub part : Bool → Option Prompt → List (List ℕ)
part included none = []
part included (some p) = elim p.content [ [] ↦ [] | c ∷ s ↦ if included then (c ∷ s) ∷ [] else [] ]

-- `parts.join('\n\n')`
abbrev pub join_parts : List ℕ → List (List ℕ) → List ℕ
join_parts first [] = first
join_parts first (s ∷ parts) = first ++ 10 ∷ 10 ∷ join_parts s parts

abbrev pub or_not_found : {A : Type 0} → String → String → Option A → Result A
or_not_found key variant none = err (prompt_not_found key variant)
or_not_found key variant (some a) = ok a

abbrev pub joined_or : List (List ℕ) → Result (List ℕ) → Result (List ℕ)
joined_or [] fallback = fallback
joined_or (s ∷ parts) fallback = ok (join_parts s parts)

abbrev pub non_empty : Option (List ℕ) → Option (List ℕ)
non_empty none = none
non_empty (some []) = none
non_empty (some (c ∷ s)) = some (c ∷ s)

abbrev pub found_or : Option Prompt → Result (List ℕ) → Result (List ℕ)
found_or none next = next
found_or (some p) next = ok p.content

module _ (P : Repository prompt_key) (d : DefaultTexts) where
  abbrev pub find_if : (String → Prompt → Bool) → Option String → P.Table → Option Prompt
  find_if condition none t = none
  find_if condition (some id) t = P.find_one (condition id) t

  -- `id ? findOne(…) : null`
  abbrev pub find_for : (String → Prompt → Bool) → Option String → P.Table → Option Prompt
  find_for condition id t = find_if condition (truthy id) t

  unfoldable pub get_combined_prompt : String → PromptOptions → P.Table → Result (List ℕ)
  get_combined_prompt key o t =
      let variant = get_or o.variant "default" in
      let flags = get_or o.scope_flags no_flags in
      let is_system = key == "chat.system" in
      joined_or
        (part (is_system && is_included flags.include_global)
            (if is_system then P.find_one (at_global global_prompt_key variant) t else none)
          ++ part (is_system && is_included flags.include_workspace) (
              if is_system
              then find_for (at_workspace workspace_prompt_key variant) o.workspace_id t
              else none)
          ++ part (is_included flags.include_document)
              (find_for (at_document key variant) o.document_id t))
        (or_not_found key variant (lookup_default d key variant))

  unfoldable pub get_prompt : String → PromptOptions → P.Table → Result (List ℕ)
  get_prompt key o t =
      let variant = get_or o.variant "default" in
      found_or (find_for (at_document key variant) o.document_id t) (
        found_or (find_for (at_workspace key variant) o.workspace_id t) (
          found_or (P.find_one (at_global key variant) t)
            (or_not_found key variant (non_empty (lookup_default d key variant)))))
