-- ===== src/Settings/Update.antt =====
-- WorkspaceSettingsService.updateSettings of apps/api/src/workspace/workspace-settings.service.ts.
use contractor_reviewer.Common.{
  ℕ, String, Bool, true, false, not, ◌||◌, List, [], ◌∷◌, Option, none, some, if◌then◌else◌, ◌==◌,
  get_or, Dict, lookup, insert, erase, spread, ltb,
}
use contractor_reviewer.Repository.{Repository}
use contractor_reviewer.Entities.{WorkspaceSettings, default_row, settings_key}
use contractor_reviewer.Encryption
use contractor_reviewer.Encryption.{Crypto, Bytes, encrypt}
use contractor_reviewer.Settings.{
  of_workspace, includes, allowed_chunking_strategies, allowed_document_parsers,
  transcription_provider_ids, tts_provider_ids, llm_provider_ids, chat_response_modes,
  elevenlabs_plans, TtsProviderConfig, WorkspaceSettingsConfig, get_settings,
}

-- Status 400, but for the last two, which answer with status 500: the server's key is missing where
-- a parser's key is to be stored, and `Object.entries(null)`.
pub data Error : Type 0 where
  file_days text_days threshold chunking_strategy document_parser llm_provider : Error
  transcription_provider tts_provider elevenlabs_plan chat_response_mode : Error
  encryption_not_configured : Error
  encryption_failed type_error : Error

pub data Result (A : Type 0) : Type 0 where
  ok : A → Result A
  err : Error → Result A

infixl 5 ◌>>=◌
abbrev pub ◌>>=◌ : {A B : Type 0} → Result A → (A → Result B) → Result B
ok a >>= f = f a
err e >>= f = err e

abbrev pub guard : {A : Type 0} → Bool → Error → A → Result A
guard true e a = ok a
guard false e a = err e

-- A value that a request gives for a key: a text, a Boolean, or null.
pub data RawValue : Type 0 where
  plain : String → RawValue
  flag : Bool → RawValue
  null : RawValue

-- A field that should be an object: left out or of another type, null, or an object.
pub data ObjectField (A : Type 0) : Type 0 where
  missing : ObjectField A
  null_object : ObjectField A
  object : Dict A → ObjectField A

pub record RetentionFields : Type 0 where
  pub default_file_retention_days : Option ℕ
  pub default_text_embeddings_retention_days : Option ℕ
  pub retention_overrides : Option (Dict ℕ)
  pub fuzzy_match_threshold : Option ℕ

pub record ProcessingFields : Type 0 where
  pub chunking_strategy : Option String
  pub default_document_parser : Option String
  pub default_llm_provider : Option (Option String)
  pub parser_api_keys : ObjectField RawValue

-- A field that is left out is `none`; one that is null is `some none`.
pub record UpdateRequest : Type 0 where
  pub retention : Option RetentionFields
  pub document_processing : Option ProcessingFields
  pub transcription_provider_api_keys : ObjectField RawValue
  pub preferred_transcription_provider : Option (Option String)
  pub tts_provider_api_keys : ObjectField RawValue
  pub preferred_tts_provider : Option (Option String)
  pub tts_provider_config : ObjectField (Option TtsProviderConfig)
  pub chat_response_mode : Option (Option String)
  pub voice_auto_send : Option Bool
  pub prompt_scope_include_global : Option Bool
  pub prompt_scope_include_workspace : Option Bool

-- What the call takes from outside: the key of a row that it creates, the random bytes for the key of
-- each provider, and JavaScript's operations on texts.
pub record Outside : Type 0 where
  pub id : String
  pub parser_iv : String → Bytes
  pub transcription_iv : String → Bytes
  pub tts_iv : String → Bytes
  pub trim : String → String
  pub to_lower_case : String → String

abbrev pub within : ℕ → ℕ → ℕ → Bool
within low high n = not (ltb n low || ltb high n)

-- `if (field !== undefined) { if (!test(field)) throw …; settings.field = field }`
abbrev pub checked : {A : Type 0} → (A → Bool) → Error → Option A → A → Result A
checked test e none old = ok old
checked test e (some a) old = guard (test a) e a

abbrev pub given : {A : Type 0} → Option A → Option A → Option A
given none old = old
given (some a) old = some a

unfoldable pub update_retention : RetentionFields → WorkspaceSettings → Result WorkspaceSettings
update_retention r s =
    checked (within 1 365) file_days r.default_file_retention_days s.default_file_retention_days
    >>= λ file.
        checked (within 1 730) text_days r.default_text_embeddings_retention_days
          s.default_text_embeddings_retention_days
        >>= λ texts.
            checked (within 0 100) threshold r.fuzzy_match_threshold s.fuzzy_match_threshold
            >>= λ limit. ok (record s {
              default_file_retention_days = file;
              default_text_embeddings_retention_days = texts;
              retention_overrides = given r.retention_overrides s.retention_overrides;
              fuzzy_match_threshold = limit;
            })

abbrev pub object_or_null : {A : Type 0} → Dict A → Option (Dict A)
object_or_null [] = none
object_or_null (e ∷ d) = some (e ∷ d)

abbrev pub blank_or_included :
    (String → String) → List String → Error → Option String → Result (Option String)
blank_or_included trim ids e none = ok none
blank_or_included trim ids e (some s) =
    if trim s == "" then ok none else guard (includes ids s) e (some s)

abbrev pub preferred :
    (String → String)
    → List String
    → Error
    → Option (Option String)
    → Option String
    → Result (Option String)
preferred trim ids e none old = ok old
preferred trim ids e (some value) old = blank_or_included trim ids e value

abbrev pub null_or_included : List String → Option String → Bool
null_or_included ids none = true
null_or_included ids (some s) = includes ids s

-- A provider's configuration in a request; `plan` may be null or left out.
abbrev pub plan_allowed : (String → String) → String → TtsProviderConfig → Bool
plan_allowed lower provider config =
    if provider == "elevenlabs"
    then elim (get_or (lookup "plan" config) none) [
      | none ↦ true
      | some plan ↦ includes elevenlabs_plans (lower plan)
    ]
    else true

abbrev pub merge_config :
    (String → String)
    → String
    → Option TtsProviderConfig
    → Dict TtsProviderConfig
    → Result (Dict TtsProviderConfig)
merge_config lower provider none merged = ok merged
merge_config lower provider (some config) merged =
    guard (plan_allowed lower provider config) elevenlabs_plan
      (insert provider (spread (get_or (lookup provider merged) []) config) merged)

abbrev pub merge_configs :
    (String → String)
    → Dict (Option TtsProviderConfig)
    → Dict TtsProviderConfig
    → Result (Dict TtsProviderConfig)
merge_configs lower [] merged = ok merged
merge_configs lower ((provider, config) ∷ configs) merged =
    (if includes tts_provider_ids provider
      then merge_config lower provider config merged
      else ok merged)
    >>= merge_configs lower configs

abbrev pub update_tts_config :
    (String → String)
    → ObjectField (Option TtsProviderConfig)
    → Option (Dict TtsProviderConfig)
    → Result (Option (Dict TtsProviderConfig))
update_tts_config lower missing old = ok old
update_tts_config lower null_object old = err type_error
update_tts_config lower (object configs) old =
    merge_configs lower configs (get_or old []) >>= λ merged. ok (object_or_null merged)

module _ (C : Crypto) (key : Option Bytes) (E : Outside) where
  abbrev pub encrypted : Error → Bytes → String → Result String
  encrypted failure iv s = elim (encrypt C key iv s) [
    | Encryption.ok c ↦ ok c
    | Encryption.err e ↦ err failure
  ]

  -- What one entry of the request makes of the stored keys.
  abbrev pub apply_value : Error → Bytes → String → RawValue → Dict String → Result (Dict String)
  apply_value failure iv id (plain s) keys =
      if E.trim s == ""
      then ok keys
      else encrypted failure iv (E.trim s) >>= λ c. ok (insert id c keys)
  apply_value failure iv id (flag true) keys = ok keys
  apply_value failure iv id (flag false) keys = ok (erase id keys)
  apply_value failure iv id null keys = ok (erase id keys)

  -- The loop over the entries; `accepts` skips the identifiers of no provider.
  unfoldable pub apply_values :
      Error
      → (String → Bytes)
      → (String → Bool)
      → Dict RawValue
      → Dict String
      → Result (Dict String)
  apply_values failure iv accepts [] keys = ok keys
  apply_values failure iv accepts ((id, value) ∷ values) keys =
      (if accepts id then apply_value failure (iv id) id value keys else ok keys)
      >>= apply_values failure iv accepts values

  abbrev pub update_keys :
      Error
      → (String → Bytes)
      → (String → Bool)
      → ObjectField RawValue
      → Option (Dict String)
      → Result (Option (Dict String))
  update_keys failure iv accepts missing old = ok old
  update_keys failure iv accepts null_object old = err type_error
  update_keys failure iv accepts (object values) old =
      apply_values failure iv accepts values (get_or old []) >>= λ keys. ok (object_or_null keys)

  unfoldable pub update_processing : ProcessingFields → WorkspaceSettings → Result WorkspaceSettings
  update_processing p s =
      checked (includes allowed_chunking_strategies) chunking_strategy p.chunking_strategy
        s.chunking_strategy
      >>= λ strategy.
          checked (includes allowed_document_parsers) document_parser p.default_document_parser
            s.default_document_parser
          >>= λ parser.
              checked (null_or_included llm_provider_ids) llm_provider p.default_llm_provider
                s.default_llm_provider
              >>= λ llm.
                  update_keys encryption_failed E.parser_iv (λ id. true) p.parser_api_keys
                    s.parser_api_keys
                  >>= λ keys. ok (record s {
                    chunking_strategy = strategy;
                    default_document_parser = parser;
                    default_llm_provider = llm;
                    parser_api_keys = keys;
                  })

  unfoldable pub update_providers : UpdateRequest → WorkspaceSettings → Result WorkspaceSettings
  update_providers u s =
      update_keys encryption_not_configured E.transcription_iv (includes transcription_provider_ids)
        u.transcription_provider_api_keys s.transcription_provider_api_keys
      >>= λ transcription.
          preferred E.trim transcription_provider_ids transcription_provider
            u.preferred_transcription_provider s.preferred_transcription_provider
          >>= λ transcriber.
              update_keys encryption_not_configured E.tts_iv (includes tts_provider_ids)
                u.tts_provider_api_keys s.tts_provider_api_keys
              >>= λ tts.
                  preferred E.trim tts_provider_ids tts_provider u.preferred_tts_provider
                    s.preferred_tts_provider
                  >>= λ speaker.
                      update_tts_config E.to_lower_case u.tts_provider_config s.tts_provider_config
                      >>= λ configs.
                          preferred E.trim chat_response_modes chat_response_mode
                            u.chat_response_mode s.chat_response_mode
                          >>= λ mode. ok (record s {
                            transcription_provider_api_keys = transcription;
                            preferred_transcription_provider = transcriber;
                            tts_provider_api_keys = tts;
                            preferred_tts_provider = speaker;
                            tts_provider_config = configs;
                            chat_response_mode = mode;
                            voice_auto_send = get_or u.voice_auto_send s.voice_auto_send;
                            prompt_scope_include_global =
                                get_or u.prompt_scope_include_global s.prompt_scope_include_global;
                            prompt_scope_include_workspace =
                                get_or u.prompt_scope_include_workspace
                                  s.prompt_scope_include_workspace;
                          })

  abbrev pub if_given :
      {A : Type 0}
      → (A → WorkspaceSettings → Result WorkspaceSettings)
      → Option A
      → WorkspaceSettings
      → Result WorkspaceSettings
  if_given f none s = ok s
  if_given f (some a) s = f a s

  -- The row with every given field changed, or the first exception.
  unfoldable pub changed : UpdateRequest → WorkspaceSettings → Result WorkspaceSettings
  changed u s =
      if_given update_retention u.retention s
      >>= if_given update_processing u.document_processing
      >>= update_providers u

  module _ (S : Repository settings_key) where
    -- The row that the call starts from: the stored one, or a new one.
    abbrev pub base : String → S.Table → WorkspaceSettings
    base ws t = get_or (S.find_one (of_workspace ws) t) (default_row E.id ws)

    abbrev pub saved :
        String → Result WorkspaceSettings → S.Table → Result WorkspaceSettingsConfig × S.Table
    saved ws (err e) t = (err e, t)
    saved ws (ok s) t =
        let (config, t') = get_settings C key S E.id ws (S.save s t) in (ok config, t')

    unfoldable pub update_settings :
        String → UpdateRequest → S.Table → Result WorkspaceSettingsConfig × S.Table
    update_settings ws u t = saved ws (changed u (base ws t)) t
