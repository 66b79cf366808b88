-- ===== src/Settings/Stored.antt =====
-- The getters of API keys after updateSettings.
use contractor_reviewer.Common.{
  String, Bool, true, ◌≡◌, refl, sym, ap, ◌∙◌, inl, inr, arith, Option, none, some, if◌then◌else◌,
  Bool-cases, Option-cases, Dict, length,
}
use contractor_reviewer.Repository.{Repository}
use contractor_reviewer.Entities.{WorkspaceSettings, default_row, settings_key}
use contractor_reviewer.Encryption.{Crypto, Bytes, iv_length}
use contractor_reviewer.Settings.{
  of_workspace, includes, transcription_provider_ids, tts_provider_ids, allowed_chunking_strategies,
  allowed_document_parsers, llm_provider_ids, chat_response_modes, key_of, column,
  WorkspaceSettingsConfig, get_decrypted_api_key, get_decrypted_tts_api_key,
  get_decrypted_transcription_api_key,
}
use contractor_reviewer.Settings.Update.{
  Error, ok, UpdateRequest, RetentionFields, ProcessingFields, ObjectField, missing, RawValue,
  Outside, checked, preferred, null_or_included, within, update_tts_config, update_retention,
  update_processing, update_providers, if_given, changed, base, update_settings,
}
use contractor_reviewer.Settings.Outcomes.{Ensures, returns, bind, weaken, Ensures-any, Ensures-ok}
use contractor_reviewer.Settings.Effects.{IsUnique, update_settings_lem}
use contractor_reviewer.Settings.Keys.{key_after_field, update_keys_lem}
use text.Mathlib.TextEquality.{eq_iff}

abbrev pub parser_keys_field : Option ProcessingFields → ObjectField RawValue
parser_keys_field none = missing
parser_keys_field (some p) = p.parser_api_keys

abbrev pub any_id : String → Bool
any_id id = true

-- The random bytes that the call draws have the length of an initialisation vector.
pub record HasIvs (E : Outside) : Type 0 where
  pub parser : (j : String) → length (E.parser_iv j) ≡ iv_length
  pub transcription : (j : String) → length (E.transcription_iv j) ≡ iv_length
  pub tts : (j : String) → length (E.tts_iv j) ≡ iv_length

module _ (C : Crypto) (key : Option Bytes) (E : Outside) (ivs : HasIvs E) (id : String) where
  -- The key of `id` among those of one kind, after a field that changes them.
  abbrev After :
      (String → Bool) → ObjectField RawValue → Option (Dict String) → Option (Dict String) → Type 0
  After accepts field old new =
      key_of C key new id ≡ key_after_field C key E accepts id field (key_of C key old id)

  abbrev KeysAfter :
      (parsers transcribers speakers : ObjectField RawValue)
      → WorkspaceSettings
      → WorkspaceSettings
      → Type 0
  KeysAfter p a b s s' =
      After any_id p s.parser_api_keys s'.parser_api_keys
      × After (includes transcription_provider_ids) a s.transcription_provider_api_keys
          s'.transcription_provider_api_keys
      × After (includes tts_provider_ids) b s.tts_provider_api_keys s'.tts_provider_api_keys

  retention_keys :
      (r : RetentionFields) (s : WorkspaceSettings)
      → Ensures (KeysAfter missing missing missing s) (update_retention r s)
  unfolding update_retention
  retention_keys r s =
      bind
        (Ensures-any (
          checked (within 1 365) Error.file_days r.default_file_retention_days
            s.default_file_retention_days))
        λ file _.
          bind
            (Ensures-any (
              checked (within 1 730) Error.text_days r.default_text_embeddings_retention_days
                s.default_text_embeddings_retention_days))
            λ texts _.
              bind
                (Ensures-any (
                  checked (within 0 100) Error.threshold r.fuzzy_match_threshold
                    s.fuzzy_match_threshold))
                λ limit _. returns (refl, refl, refl)

  processing_keys :
      (p : ProcessingFields) (s : WorkspaceSettings)
      → Ensures (KeysAfter p.parser_api_keys missing missing s) (update_processing C key E p s)
  unfolding update_processing
  processing_keys p s =
      bind
        (Ensures-any (
          checked (includes allowed_chunking_strategies) Error.chunking_strategy p.chunking_strategy
            s.chunking_strategy))
        λ strategy _.
          bind
            (Ensures-any (
              checked (includes allowed_document_parsers) Error.document_parser
                p.default_document_parser s.default_document_parser))
            λ parser _.
              bind
                (Ensures-any (
                  checked (null_or_included llm_provider_ids) Error.llm_provider
                    p.default_llm_provider s.default_llm_provider))
                λ llm _.
                  bind
                    (update_keys_lem C key E Error.encryption_failed E.parser_iv (λ id. true)
                      p.parser_api_keys s.parser_api_keys id ivs.parser)
                    λ keys h. returns (h, refl, refl)

  providers_keys :
      (u : UpdateRequest) (s : WorkspaceSettings)
      → Ensures
          (KeysAfter missing u.transcription_provider_api_keys u.tts_provider_api_keys s)
          (update_providers C key E u s)
  unfolding update_providers
  providers_keys u s =
      bind
        (update_keys_lem C key E Error.encryption_not_configured E.transcription_iv
          (includes transcription_provider_ids) u.transcription_provider_api_keys
          s.transcription_provider_api_keys id ivs.transcription)
        λ transcription h₁.
          bind
            (Ensures-any (
              preferred E.trim transcription_provider_ids Error.transcription_provider
                u.preferred_transcription_provider s.preferred_transcription_provider))
            λ transcriber _.
              bind
                (update_keys_lem C key E Error.encryption_not_configured E.tts_iv
                  (includes tts_provider_ids) u.tts_provider_api_keys s.tts_provider_api_keys id
                  ivs.tts)
                λ tts h₂.
                  bind
                    (Ensures-any (
                      preferred E.trim tts_provider_ids Error.tts_provider u.preferred_tts_provider
                        s.preferred_tts_provider))
                    λ speaker _.
                      bind
                        (Ensures-any (
                          update_tts_config E.to_lower_case u.tts_provider_config
                            s.tts_provider_config))
                        λ configs _.
                          bind
                            (Ensures-any (
                              preferred E.trim chat_response_modes Error.chat_response_mode
                                u.chat_response_mode s.chat_response_mode))
                            λ mode _. returns (refl, h₁, h₂)

  retention_step :
      (r : Option RetentionFields) (s : WorkspaceSettings)
      → Ensures (KeysAfter missing missing missing s) (if_given C key E update_retention r s)
  retention_step none s = returns (refl, refl, refl)
  retention_step (some r) s = retention_keys r s

  processing_step :
      (p : Option ProcessingFields) (s : WorkspaceSettings)
      → Ensures
          (KeysAfter (parser_keys_field p) missing missing s)
          (if_given C key E (update_processing C key E) p s)
  processing_step none s = returns (refl, refl, refl)
  processing_step (some p) s = processing_keys p s

  changed_keys :
      (u : UpdateRequest) (s : WorkspaceSettings)
      → Ensures
          (KeysAfter
            (parser_keys_field u.document_processing)
            u.transcription_provider_api_keys
            u.tts_provider_api_keys
            s)
          (changed C key E u s)
  unfolding changed
  changed_keys u s =
      bind {P = KeysAfter (parser_keys_field u.document_processing) missing missing s}
        (bind (retention_step u.retention s) (λ a h.
          weaken (processing_step u.document_processing a) (λ b k. (
            k.0
                ∙ ap (key_after_field C key E any_id id (parser_keys_field u.document_processing))
                    h.0,
            k.1 ∙ h.1,
            k.2 ∙ h.2,
          ))))
        (λ a h. weaken (providers_keys u a) (λ b k. (
          k.0 ∙ h.0,
          k.1
              ∙ ap
                  (key_after_field C key E (includes transcription_provider_ids) id
                    u.transcription_provider_api_keys)
                  h.1,
          k.2
              ∙ ap (key_after_field C key E (includes tts_provider_ids) id u.tts_provider_api_keys)
                  h.2,
        )))

  module _ (S : Repository settings_key) where
    -- A column that is null in a new row reads the same in the row that an update starts from.
    column-base :
        {A : Type 0} (ws : String) (f : WorkspaceSettings → Option A) (t : S.Table)
        → f (default_row E.id ws) ≡ none
        → column C key S ws f t ≡ f (base C key E S ws t)
    column-base ws f t e = elim (Option-cases (S.find_one (of_workspace ws) t)) [
      | inl missing_row ↦ ground (arith, missing_row, e)
      | inr (s, found) ↦ ground (arith, found)
    ]

    column_found :
        {A : Type 0} (ws : String) (f : WorkspaceSettings → Option A) (t : S.Table)
        (s : WorkspaceSettings)
        → S.find_one (of_workspace ws) t ≡ some s
        → column C key S ws f t ≡ f s
    column_found ws f t s found = ground (arith, found)

    -- From a column of the row before and after to the getter before and after.
    getter :
        (accepts : String → Bool) (field : ObjectField RawValue) (ws : String)
        (f : WorkspaceSettings → Option (Dict String)) (t t' : S.Table) (s : WorkspaceSettings)
        → f (default_row E.id ws) ≡ none
        → S.find_one (of_workspace ws) t' ≡ some s
        → After accepts field (f (base C key E S ws t)) (f s)
        → key_of C key (column C key S ws f t') id
          ≡ key_after_field C key E accepts id field (key_of C key (column C key S ws f t) id)
    getter accepts field ws f t t' s e found after =
        ap (λ k. key_of C key k id) (column_found ws f t' s found)
        ∙ after
        ∙ ap (λ k. key_after_field C key E accepts id field (key_of C key k id))
            (sym (column-base ws f t e))

    -- After updateSettings has returned, the getters give back the keys that the request sent: for a
    -- parser, a transcription provider and a speech provider the trimmed text that it sent last, no
    -- key where it sent false or null, and the former key where it sent nothing, a blank text or
    -- true, or where no such provider exists. It holds if each workspace had one row at most, the
    -- key of a new row was unused, and the random bytes that were drawn are 12.
    pub get_decrypted-update_settings :
        (ws : String) (u : UpdateRequest) (t t' : S.Table) (config : WorkspaceSettingsConfig)
        → IsUnique C key E S t
        → S.at t E.id ≡ none
        → update_settings C key E S ws u t ≡ (ok config, t')
        → (get_decrypted_api_key C key S ws id t'
            ≡ key_after_field C key E any_id id
                (parser_keys_field u.document_processing)
                (get_decrypted_api_key C key S ws id t))
          × (get_decrypted_transcription_api_key C key S ws id t'
              ≡ key_after_field C key E
                  (includes transcription_provider_ids)
                  id
                  u.transcription_provider_api_keys
                  (get_decrypted_transcription_api_key C key S ws id t))
          × (get_decrypted_tts_api_key C key S ws id t' ≡ (
              if includes tts_provider_ids id
              then key_after_field C key E
                  (includes tts_provider_ids)
                  id
                  u.tts_provider_api_keys
                  (get_decrypted_tts_api_key C key S ws id t)
              else none))
    get_decrypted-update_settings ws u t t' config unique fresh done =
        elim (update_settings_lem C key E S ws u t unique fresh) [
          | inl (e, failed, out) ↦ absurd (ground (arith, out, done))
          | inr (s, succeeded, out, holds) ↦
              let after = Ensures-ok (changed_keys u (base C key E S ws t)) succeeded in
              let same : t' ≡ S.save s t = ground (arith, out, done) in
              let found : S.find_one (of_workspace ws) t' ≡ some s =
                rw same (ground (arith, holds.0 ws, eq_iff ws ws)) in
              (
                getter any_id (parser_keys_field u.document_processing) ws (λ r. r.parser_api_keys)
                    t t' s refl found after.0,
                getter (includes transcription_provider_ids) u.transcription_provider_api_keys ws
                    (λ r. r.transcription_provider_api_keys) t t' s refl found after.1,
                speech (
                    getter (includes tts_provider_ids) u.tts_provider_api_keys ws
                      (λ r. r.tts_provider_api_keys) t t' s refl found after.2),
              )
        ]
      where
        speech :
            key_of C key (column C key S ws (λ r. r.tts_provider_api_keys) t') id
              ≡ key_after_field C key E
                  (includes tts_provider_ids)
                  id
                  u.tts_provider_api_keys
                  (key_of C key (column C key S ws (λ r. r.tts_provider_api_keys) t) id)
            → get_decrypted_tts_api_key C key S ws id t' ≡ (
                if includes tts_provider_ids id
                then key_after_field C key E
                    (includes tts_provider_ids)
                    id
                    u.tts_provider_api_keys
                    (get_decrypted_tts_api_key C key S ws id t)
                else none)
        speech h = elim (Bool-cases (includes tts_provider_ids id)) [
          | inl y ↦ rw y h
          | inr n ↦ rw n refl
        ]
