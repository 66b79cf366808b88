-- ===== src/Prompts/Tests.antt =====
-- A table with a workspace prompt, and a template with two placeholders.
use contractor_reviewer.Common.{
  ℕ, In, ap, ◌≡◌, refl, sym, ◌∙◌, inl, inr, arith, Option, none, some, List, [], ◌∷◌, ◌==◌,
  Bool-cases,
}
use contractor_reviewer.Repository.InMemory.{in_memory}
use contractor_reviewer.Repository.Lookup.{Has}
use contractor_reviewer.Entities.{Prompt, prompt_key}
use contractor_reviewer.Prompts.{
  codes, DefaultTexts, PromptOptions, ok, get_combined_prompt, get_prompt, lookup_default,
}
use contractor_reviewer.Prompts.Template.{interpolate, same_text}
use contractor_reviewer.Prompts.Rendering.{
  Segment, literal, hole, IsTemplate, print, IsObject, Reads, keeps, replaces, nothing_left,
  by_value, by_itself, interpolate-print,
}
use contractor_reviewer.Prompts.Store.{upsert_prompt, reset_prompt, reset}
use contractor_reviewer.Prompts.Slots.{IsUnique, IsStored, target, upsert_prompt_lem}
use contractor_reviewer.Prompts.Chat.{ChatPromptParams}
use contractor_reviewer.Prompts.Override.{for_document}

abbrev nothing : List ℕ → Option (List ℕ)
nothing w = none

abbrev segments : List Segment
segments =
    literal (codes "Q {x}: ")
    ∷ hole (codes "question")
    ∷ literal (codes " in ")
    ∷ hole (codes "place")
    ∷ []

-- A value that looks like a placeholder stays as it is.
abbrev params : List (List ℕ × List ℕ)
params = (codes "question", codes "{{place}}?") ∷ []

segments-IsTemplate : IsTemplate segments
segments-IsTemplate = (refl, (refl, (refl, (refl, tt))))

interpolate_run :
    interpolate nothing params (print segments) ≡ codes "Q {x}: {{place}}? in {{place}}"
unfolding interpolate
interpolate_run = refl

params-IsObject : IsObject params
params-IsObject w v v' (inl e) (inl f) = ap (λ (y : List ℕ × List ℕ). y.1) (e ∙ sym f)
params-IsObject w v v' (inr m) n = absurd m
params-IsObject w v v' (inl e) (inr n) = absurd n

no_place : (v : List ℕ) → ¬ In (codes "place", v) params
no_place v (inl e) = ground (arith, ap (λ (y : List ℕ × List ℕ). same_text y.0 (codes "place")) e)
no_place v (inr m) = m

segments-Reads : Reads nothing params segments (codes "Q {x}: {{place}}? in {{place}}")
segments-Reads = keeps (codes "Q {x}: ") (
    replaces (by_value b'{' (codes "{place}}?") (inl refl))
      (keeps (codes " in ") (replaces (by_itself no_place refl) nothing_left)))

interpolate-print_example :
    interpolate nothing params (print segments) ≡ codes "Q {x}: {{place}}? in {{place}}"
interpolate-print_example =
    interpolate-print nothing params params-IsObject segments
      (codes "Q {x}: {{place}}? in {{place}}") segments-IsTemplate segments-Reads

abbrev row : Prompt
row = record {
  id = "p1";
  key = "workspace.system";
  variant = "default";
  workspace_id = some "w1";
  document_id = none;
  content = codes "Be brief.";
  metadata = none;
}

abbrev table : List Prompt
table = row ∷ []

only_row : (p : Prompt) → Has prompt_key (in_memory prompt_key) table p → row ≡ p
only_row p h = elim (Bool-cases ("p1" == p.id)) [
  | inl e ↦ ground arith
  | inr e ↦ absurd (ground arith)
]

table-IsUnique : IsUnique (in_memory prompt_key) table
table-IsUnique s a b ha hb p q = sym (only_row a ha) ∙ only_row b hb

abbrev texts : DefaultTexts
texts = record {
  global_system = codes "You are a legal assistant.";
  chat_system = codes "Cite your sources.";
  chat_user = codes "{{question}}";
  review_global_system = codes "Answer in JSON.";
  review_chat_system = codes "Use {{languageName}}.";
  review_chat_user = codes "{{context}} {{question}}";
}

abbrev options : PromptOptions
options = for_document "w1" "d1" none none

upsert_prompt_example :
    IsStored
      (in_memory prompt_key)
      (target "chat.user" options)
      (print segments)
      table
      (upsert_prompt (in_memory prompt_key) "p2" "chat.user" (print segments) options none table)
upsert_prompt_example =
    upsert_prompt_lem (in_memory prompt_key) "p2" "chat.user" (print segments) options none table
      table-IsUnique refl

reset_run : reset_prompt (in_memory prompt_key) "w1" "workspace.system" table ≡ []
unfolding reset
reset_run = refl

abbrev call : ChatPromptParams
call = record {
  language_name = codes "English";
  context = [];
  question = codes "Is it signed?";
  conversation_history = none;
  jurisdiction = none;
  legal_sources = none;
  web_sources = some (codes " ");
}

combined_run :
    get_combined_prompt (in_memory prompt_key) texts "chat.system" options table
    ≡ ok (codes "Be brief.")
unfolding get_combined_prompt
combined_run = refl

default_run :
    get_prompt
      (in_memory prompt_key)
      texts
      "chat.system"
      (for_document "w1" "d1" (some "legal-review-v2") none)
      table
    ≡ ok (codes "Use {{languageName}}.")
unfolding get_prompt lookup_default
default_run = refl
