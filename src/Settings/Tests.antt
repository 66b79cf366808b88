-- ===== src/Settings/Tests.antt =====
-- A workspace whose row gets a new key for speech, with the toy cipher.
use contractor_reviewer.Common.{
  String, ◌≡◌, refl, sym, ◌∙◌, ◌⊎◌, inl, inr, arith, List, [], ◌∷◌, ◌++◌, Option, none, some,
  if◌then◌else◌, ◌==◌, Bool-cases,
}
use contractor_reviewer.Repository.InMemory.{in_memory}
use contractor_reviewer.Repository.Lookup.{Has}
use contractor_reviewer.Entities.{WorkspaceSettings, default_row, settings_key}
use contractor_reviewer.Encryption.{Bytes, payload, encrypt}
use contractor_reviewer.Encryption.Toy.{toy, zeros, written}
use contractor_reviewer.Settings.{
  includes, tts_provider_ids, transcription_provider_ids, tts_provider_fallback_order, config_of,
  get_settings, column, key_of, with_config, get_decrypted_api_key,
  get_decrypted_transcription_api_key, get_decrypted_tts_api_key,
  resolve_effective_transcription_provider, resolve_effective_tts_provider, transcription_provider,
}
use contractor_reviewer.Settings.Update.{
  Error, ok, err, UpdateRequest, missing, object, plain, Outside, changed, base, update_settings,
  update_providers, apply_values,
}
use contractor_reviewer.Settings.Legal.{AllLegal, update_settings-AllLegal}
use contractor_reviewer.Settings.Effects.{IsUnique, Holds, update_settings_lem}
use contractor_reviewer.Settings.Keys.{key_after_field}
use contractor_reviewer.Settings.Stored.{
  HasIvs, any_id, parser_keys_field, get_decrypted-update_settings,
}
use contractor_reviewer.Settings.Resolution.{
  Finds, preferred_first, resolve_effective_providers_lem,
}

abbrev key : Option Bytes
key = some (zeros 32)

abbrev outside : Outside
outside = record {
  id = "s2";
  parser_iv = λ id. zeros 12;
  transcription_iv = λ id. zeros 12;
  tts_iv = λ id. zeros 12;
  trim = λ s. s;
  to_lower_case = λ s. s;
}

outside-HasIvs : HasIvs outside
outside-HasIvs = record { parser = λ j. refl; transcription = λ j. refl; tts = λ j. refl }

abbrev row : WorkspaceSettings
row = default_row "s1" "w1"

abbrev table : List WorkspaceSettings
table = row ∷ []

only_row : (s : WorkspaceSettings) → Has settings_key (in_memory settings_key) table s → row ≡ s
only_row s h = elim (Bool-cases ("s1" == s.id)) [
  | inl e ↦ ground arith
  | inr e ↦ absurd (ground arith)
]

table-IsUnique : IsUnique toy key outside (in_memory settings_key) table
table-IsUnique ws a b ha hb p q = sym (only_row a ha) ∙ only_row b hb

abbrev request : UpdateRequest
request = record {
  retention = none;
  document_processing = none;
  transcription_provider_api_keys = missing;
  preferred_transcription_provider = none;
  tts_provider_api_keys = object (("openai", plain "sk") ∷ ("nobody", plain "x") ∷ []);
  preferred_tts_provider = some (some "elevenlabs");
  tts_provider_config = missing;
  chat_response_mode = none;
  voice_auto_send = none;
  prompt_scope_include_global = none;
  prompt_scope_include_workspace = none;
}

abbrev bad_request : UpdateRequest
bad_request = record request { chat_response_mode = some (some "video") }

bad_run :
    update_settings toy key outside (in_memory settings_key) "w1" bad_request table
    ≡ (err Error.chat_response_mode, table)
unfolding update_settings changed update_providers apply_values encrypt
bad_run = refl

abbrev stored : WorkspaceSettings
stored = record row {
  tts_provider_api_keys =
      some (("openai", toy.to_base64 (payload toy (zeros 12) (written "sk", zeros 16))) ∷ []);
  preferred_tts_provider = some "elevenlabs";
}

stored_run :
    update_settings toy key outside (in_memory settings_key) "w1" request table
    ≡ (ok (config_of stored), stored ∷ table)
unfolding update_settings changed update_providers apply_values encrypt get_settings
stored_run = refl

resolved_run :
    resolve_effective_transcription_provider toy key
      (in_memory settings_key)
      "w1"
      "openai"
      (stored ∷ table)
    ≡ none
unfolding transcription_provider
resolved_run = refl

get_decrypted-update_settings_example :
    (get_decrypted_api_key toy key (in_memory settings_key) "w1" "openai" (stored ∷ table)
      ≡ key_after_field toy key outside any_id "openai"
          (parser_keys_field none)
          (get_decrypted_api_key toy key (in_memory settings_key) "w1" "openai" table))
    × (get_decrypted_transcription_api_key toy key
          (in_memory settings_key)
          "w1"
          "openai"
          (stored ∷ table)
        ≡ key_after_field toy key outside (includes transcription_provider_ids) "openai" missing (
            get_decrypted_transcription_api_key toy key
              (in_memory settings_key)
              "w1"
              "openai"
              table))
    × (get_decrypted_tts_api_key toy key (in_memory settings_key) "w1" "openai" (stored ∷ table) ≡ (
        if includes tts_provider_ids "openai"
        then key_after_field toy key outside
            (includes tts_provider_ids)
            "openai"
            request.tts_provider_api_keys
            (get_decrypted_tts_api_key toy key (in_memory settings_key) "w1" "openai" table)
        else none))
get_decrypted-update_settings_example =
    get_decrypted-update_settings toy key outside outside-HasIvs "openai" (in_memory settings_key)
      "w1" request table (stored ∷ table) (config_of stored) table-IsUnique refl stored_run

update_settings-AllLegal_example :
    AllLegal toy key outside
      (in_memory settings_key)
      (update_settings toy key outside (in_memory settings_key) "w1" request []).1
    × AllLegal toy key outside
        (in_memory settings_key)
        (get_settings toy key (in_memory settings_key) "s2" "w1" []).1
update_settings-AllLegal_example =
    update_settings-AllLegal toy key outside (in_memory settings_key) "w1" request []
      (λ s h. absurd (ground arith))

update_settings_example :
    ((e : Error) × (changed toy key outside request
          (base toy key outside (in_memory settings_key) "w1" table)
        ≡ err e)
      × (update_settings toy key outside (in_memory settings_key) "w1" request table
          ≡ (err e, table)))
    ⊎ ((s : WorkspaceSettings) × (changed toy key outside request
            (base toy key outside (in_memory settings_key) "w1" table)
          ≡ ok s)
        × (update_settings toy key outside (in_memory settings_key) "w1" request table
            ≡ (ok (config_of s), s ∷ table))
        × Holds toy key outside (in_memory settings_key) "w1" s table)
update_settings_example =
    update_settings_lem toy key outside (in_memory settings_key) "w1" request table table-IsUnique
      refl

resolve_example :
    Finds
      (key_of toy key (
        column toy key
          (in_memory settings_key)
          "w1"
          (λ s. s.transcription_provider_api_keys)
          table))
      (preferred_first transcription_provider_ids (
          column toy key
            (in_memory settings_key)
            "w1"
            (λ s. s.preferred_transcription_provider)
            table)
        ++ (transcription_provider_ids ++ "openai" ∷ []))
      (resolve_effective_transcription_provider toy key
        (in_memory settings_key)
        "w1"
        "openai"
        table)
    × ((found : Option (String × String)) × (resolve_effective_tts_provider toy key
            (in_memory settings_key)
            "w1"
            table
          ≡ with_config toy key
              (column toy key (in_memory settings_key) "w1" (λ s. s.tts_provider_config) table)
              found)
        × Finds
            (key_of toy key
              (column toy key (in_memory settings_key) "w1" (λ s. s.tts_provider_api_keys) table))
            (preferred_first tts_provider_ids
                (column toy key (in_memory settings_key) "w1" (λ s. s.preferred_tts_provider) table)
              ++ tts_provider_fallback_order)
            found)
resolve_example =
    resolve_effective_providers_lem toy key (in_memory settings_key) "w1" "openai" table
