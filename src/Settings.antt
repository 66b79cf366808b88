-- ===== src/Settings.antt =====
-- apps/api/src/workspace/workspace-settings.service.ts: the settings of a workspace with its
-- encrypted API keys. A key of an object is never `__proto__`.
pub mod Update
pub mod Outcomes
pub mod Legal
pub mod Effects
pub mod Keys
pub mod Stored
pub mod Resolution
mod Tests
use contractor_reviewer.Common.{
  ℕ, String, Bool, true, false, not, ◌&&◌, ◌||◌, List, [], ◌∷◌, Option, none, some, if◌then◌else◌,
  ◌==◌, get_or, Dict, lookup, any,
}
use contractor_reviewer.Repository.{Repository}
use contractor_reviewer.Entities.{WorkspaceSettings, default_row, settings_key}
use contractor_reviewer.Encryption
use contractor_reviewer.Encryption.{Crypto, Bytes, decrypt}

abbrev pub of_workspace : String → WorkspaceSettings → Bool
of_workspace ws s = s.workspace_id == ws

-- `ids.includes(id)`
abbrev pub includes : List String → String → Bool
includes ids id = any (λ i. i == id) ids

abbrev pub allowed_chunking_strategies : List String
allowed_chunking_strategies = "paragraph" ∷ "sentence" ∷ "fixed_size" ∷ []

abbrev pub allowed_document_parsers : List String
allowed_document_parsers = "docling" ∷ "pdfplumber" ∷ "dpt2" ∷ "llamaparse" ∷ "unstructured" ∷ []

abbrev pub tts_provider_fallback_order : List String
tts_provider_fallback_order = "huggingface" ∷ "openai" ∷ "elevenlabs" ∷ "replicate_xtts" ∷ []

-- packages/shared/src: the identifiers of providers and modes.
abbrev pub transcription_provider_ids : List String
transcription_provider_ids = "huggingface" ∷ "openai" ∷ []

abbrev pub tts_provider_ids : List String
tts_provider_ids = "replicate_xtts" ∷ "huggingface" ∷ "openai" ∷ "elevenlabs" ∷ []

abbrev pub llm_provider_ids : List String
llm_provider_ids = "openai" ∷ "anthropic" ∷ "xai" ∷ []

abbrev pub chat_response_modes : List String
chat_response_modes = "text_only" ∷ "audio_only" ∷ "audio_and_text" ∷ []

abbrev pub elevenlabs_plans : List String
elevenlabs_plans = "free" ∷ "starter" ∷ "pro" ∷ "scale" ∷ "business" ∷ []

abbrev pub TtsProviderConfig : Type 0
TtsProviderConfig = Dict (Option String)

pub record WorkspaceSettingsConfig : Type 0 where
  pub default_file_retention_days : ℕ
  pub default_text_embeddings_retention_days : ℕ
  pub retention_overrides : Dict ℕ
  pub fuzzy_match_threshold : ℕ
  pub chunking_strategy : String
  pub default_document_parser : String
  pub default_llm_provider : Option String
  pub parser_api_keys : Dict Bool
  pub transcription_provider_api_keys : Dict Bool
  pub preferred_transcription_provider : Option String
  pub tts_provider_api_keys : Dict Bool
  pub preferred_tts_provider : Option String
  pub tts_provider_config : Dict TtsProviderConfig
  pub chat_response_mode : Option String
  pub voice_auto_send : Bool
  pub prompt_scope_include_global : Bool
  pub prompt_scope_include_workspace : Bool

-- A text that is empty counts as none.
abbrev pub truthy : Option String → Option String
truthy none = none
truthy (some s) = if s == "" then none else some s

abbrev pub if_included : List String → Option String → Option String
if_included ids none = none
if_included ids (some s) = if includes ids s then some s else none

-- `result[key] = !!keys[key]` for each key.
abbrev pub mask : Dict String → Dict Bool
mask [] = []
mask ((k, v) ∷ keys) = (k, not (v == "")) ∷ mask keys

abbrev pub masked : Option (Dict String) → Dict Bool
masked keys = mask (get_or keys [])

abbrev pub config_of : WorkspaceSettings → WorkspaceSettingsConfig
config_of s = record {
  default_file_retention_days = s.default_file_retention_days;
  default_text_embeddings_retention_days = s.default_text_embeddings_retention_days;
  retention_overrides = get_or s.retention_overrides [];
  fuzzy_match_threshold = s.fuzzy_match_threshold;
  chunking_strategy = s.chunking_strategy;
  default_document_parser = s.default_document_parser;
  default_llm_provider = if_included llm_provider_ids s.default_llm_provider;
  parser_api_keys = masked s.parser_api_keys;
  transcription_provider_api_keys = masked s.transcription_provider_api_keys;
  preferred_transcription_provider = truthy s.preferred_transcription_provider;
  tts_provider_api_keys = masked s.tts_provider_api_keys;
  preferred_tts_provider = truthy s.preferred_tts_provider;
  tts_provider_config = get_or s.tts_provider_config [];
  chat_response_mode = truthy s.chat_response_mode;
  voice_auto_send = s.voice_auto_send;
  prompt_scope_include_global = s.prompt_scope_include_global;
  prompt_scope_include_workspace = s.prompt_scope_include_workspace;
}

pub record EffectiveProvider : Type 0 where
  pub provider_id : String
  pub api_key : String
  pub config : Option TtsProviderConfig

abbrev pub or_null : Encryption.Result → Option String
or_null (Encryption.ok s) = some s
or_null (Encryption.err e) = none

module _ (C : Crypto) (key : Option Bytes) where
  -- A stored key, decrypted; null if there is none or decryption throws.
  abbrev pub decrypted : Option String → Option String
  decrypted stored = elim (truthy stored) [ none ↦ none | some c ↦ or_null (decrypt C key c) ]

  abbrev pub key_of : Option (Dict String) → String → Option String
  key_of keys id = decrypted (lookup id (get_or keys []))

  -- `for (const id of ids) { const key = decrypt(id); if (key) return … }`
  abbrev pub first_with_key : Dict String → List String → Option (String × String)
  first_with_key keys [] = none
  first_with_key keys (id ∷ ids) =
      let rest = first_with_key keys ids in
      elim (truthy (decrypted (lookup id keys))) [ some k ↦ some (id, k) | none ↦ rest ]

  abbrev pub or_first :
      Option (String × String) → Option (String × String) → Option (String × String)
  or_first none next = next
  or_first (some p) next = some p

  abbrev pub preferred_with_key :
      Dict String → List String → Option String → Option (String × String)
  preferred_with_key keys ids preferred = elim (if_included ids (truthy preferred)) [
    | none ↦ none
    | some id ↦ first_with_key keys (id ∷ [])
  ]

  unfoldable pub transcription_provider :
      Option (Dict String) → Option String → String → Option (String × String)
  transcription_provider none preferred fallback = none
  transcription_provider (some keys) preferred fallback =
      or_first (preferred_with_key keys transcription_provider_ids preferred) (
        or_first (first_with_key keys transcription_provider_ids)
          (first_with_key keys (fallback ∷ [])))

  unfoldable pub tts_provider : Option (Dict String) → Option String → Option (String × String)
  tts_provider none preferred = none
  tts_provider (some keys) preferred =
      or_first (preferred_with_key keys tts_provider_ids preferred)
        (first_with_key keys tts_provider_fallback_order)

  abbrev pub with_config :
      Option (Dict TtsProviderConfig) → Option (String × String) → Option EffectiveProvider
  with_config configs none = none
  with_config configs (some (id, k)) =
      some (record { provider_id = id; api_key = k; config = lookup id (get_or configs []) })

  module _ (S : Repository settings_key) where
    -- `id` is the key that the database gives to a row that the call creates.
    unfoldable pub get_settings : (id ws : String) → S.Table → WorkspaceSettingsConfig × S.Table
    get_settings id ws t = elim (S.find_one (of_workspace ws) t) [
      | some s ↦ (config_of s, t)
      | none ↦ let s = default_row id ws in (config_of s, S.save s t)
    ]

    -- A column of the row of a workspace, if there is one.
    abbrev pub column : {A : Type 0} → String → (WorkspaceSettings → Option A) → S.Table → Option A
    column ws f t = elim (S.find_one (of_workspace ws) t) [ none ↦ none | some s ↦ f s ]

    abbrev pub get_preferred_transcription_provider : String → S.Table → Option String
    get_preferred_transcription_provider ws t =
        if_included transcription_provider_ids
          (truthy (column ws (λ s. s.preferred_transcription_provider) t))

    abbrev pub get_decrypted_api_key : (ws parser : String) → S.Table → Option String
    get_decrypted_api_key ws parser t = key_of (column ws (λ s. s.parser_api_keys) t) parser

    abbrev pub get_decrypted_tts_api_key : (ws provider : String) → S.Table → Option String
    get_decrypted_tts_api_key ws provider t =
        if includes tts_provider_ids provider
        then key_of (column ws (λ s. s.tts_provider_api_keys) t) provider
        else none

    abbrev pub get_decrypted_transcription_api_key :
        (ws provider : String) → S.Table → Option String
    get_decrypted_transcription_api_key ws provider t =
        key_of (column ws (λ s. s.transcription_provider_api_keys) t) provider

    -- `fallback` is the provider that the environment names.
    abbrev pub resolve_effective_transcription_provider :
        (ws fallback : String) → S.Table → Option (String × String)
    resolve_effective_transcription_provider ws fallback t =
        transcription_provider (column ws (λ s. s.transcription_provider_api_keys) t)
          (column ws (λ s. s.preferred_transcription_provider) t) fallback

    abbrev pub resolve_effective_tts_provider : String → S.Table → Option EffectiveProvider
    resolve_effective_tts_provider ws t = with_config (column ws (λ s. s.tts_provider_config) t) (
        tts_provider (column ws (λ s. s.tts_provider_api_keys) t)
          (column ws (λ s. s.preferred_tts_provider) t))
