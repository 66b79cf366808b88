-- ===== src/Prompts/Chat.antt =====
-- PromptService.getChatPrompts of apps/api/src/prompts/prompt.service.ts.
use contractor_reviewer.Common.{
  ℕ, String, Bool, true, false, List, [], ◌∷◌, ◌++◌, Option, none, some, if◌then◌else◌, get_or,
}
use contractor_reviewer.Repository.{Repository}
use contractor_reviewer.Entities.{prompt_key}
use contractor_reviewer.Chunking.Text.{is_blank}
use contractor_reviewer.Prompts.Template.{Params, interpolate}
use contractor_reviewer.Prompts.{
  codes, DefaultTexts, PromptOptions, Result, ok, non_empty, get_combined_prompt, get_prompt,
  and_then,
}

pub record ChatPromptParams : Type 0 where
  pub language_name : List ℕ
  pub context : List ℕ
  pub question : List ℕ
  pub conversation_history : Option (List ℕ)
  pub jurisdiction : Option (List ℕ)
  pub legal_sources : Option (List ℕ)
  pub web_sources : Option (List ℕ)

pub record ChatPrompts : Type 0 where
  pub system : List ℕ
  pub user : List ℕ

-- `text || fallback`
abbrev pub or_text : Option (List ℕ) → List ℕ → List ℕ
or_text s fallback = get_or (non_empty s) fallback

abbrev pub history : Option (List ℕ) → List ℕ
history none = []
history (some []) = []
history (some (c ∷ s)) = codes "Previous conversation:" ++ 10 ∷ (c ∷ s) ++ 10 ∷ 10 ∷ []

abbrev pub no_web_results : List ℕ
no_web_results = codes "No web results (web search disabled or no relevant hits)."

abbrev pub web_results : Option (List ℕ) → List ℕ
web_results none = no_web_results
web_results (some s) = if is_blank s then no_web_results else s

abbrev pub user_params : ChatPromptParams → Params
user_params p =
    (codes "languageName", p.language_name)
    ∷ (codes "context", or_text (some p.context) (codes "No relevant context found."))
    ∷ (codes "question", p.question)
    ∷ (codes "conversationHistory", history p.conversation_history)
    ∷ (codes "jurisdiction", or_text p.jurisdiction (codes "unknown"))
    ∷ (
      codes "legalSources",
      or_text p.legal_sources (codes "No statutes available for this jurisdiction."),
    )
    ∷ (codes "webSources", web_results p.web_sources)
    ∷ []

abbrev pub system_params : ChatPromptParams → Params
system_params p =
    (codes "languageName", p.language_name)
    ∷ (codes "jurisdiction", or_text p.jurisdiction (codes "unknown"))
    ∷ []

abbrev pub has_flags : PromptOptions → Bool
has_flags o = elim o.scope_flags [ none ↦ false | some f ↦ true ]

module _ (P : Repository prompt_key) (d : DefaultTexts) (inherited : List ℕ → Option (List ℕ)) where
  abbrev pub template_for : String → PromptOptions → P.Table → Result (List ℕ)
  template_for key o t =
      if has_flags o then get_combined_prompt P d key o t else get_prompt P d key o t

  unfoldable pub get_chat_prompts : ChatPromptParams → PromptOptions → P.Table → Result ChatPrompts
  get_chat_prompts p o t = and_then (template_for "chat.system" o t) (λ system.
      and_then (template_for "chat.user" o t) (λ template. ok (record {
        system = interpolate inherited (system_params p) system;
        user = interpolate inherited (user_params p) template;
      })))
