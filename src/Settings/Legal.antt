-- ===== src/Settings/Legal.antt =====
-- The values that a row of settings may hold.
use contractor_reviewer.Common.{
  String, true, ◌≡◌, refl, subst, inl, inr, Option, none, some, Option-cases,
}
use contractor_reviewer.Repository.{Repository}
use contractor_reviewer.Repository.Lookup.{Has, Has-save_cases}
use contractor_reviewer.Entities.{WorkspaceSettings, default_row, settings_key}
use contractor_reviewer.Encryption.{Crypto, Bytes}
use contractor_reviewer.Settings.{
  of_workspace, includes, allowed_chunking_strategies, allowed_document_parsers,
  transcription_provider_ids, tts_provider_ids, llm_provider_ids, chat_response_modes, get_settings,
}
use contractor_reviewer.Settings.Update.{
  Error, Result, ok, err, UpdateRequest, RetentionFields, ProcessingFields, Outside,
  null_or_included, within, update_retention, update_processing, update_providers, if_given,
  changed, update_keys, update_tts_config, base, saved, update_settings,
}
use contractor_reviewer.Settings.Outcomes.{
  Ensures, returns, throws, bind, Ensures-checked, Ensures-preferred, Ensures-any,
}

-- Default days and threshold within the limits, and a known strategy, parser, model, transcriber,
-- speaker and mode.
pub record IsLegal (s : WorkspaceSettings) : Type 0 where
  pub file : within 1 365 s.default_file_retention_days ≡ true
  pub texts : within 1 730 s.default_text_embeddings_retention_days ≡ true
  pub threshold : within 0 100 s.fuzzy_match_threshold ≡ true
  pub strategy : includes allowed_chunking_strategies s.chunking_strategy ≡ true
  pub parser : includes allowed_document_parsers s.default_document_parser ≡ true
  pub llm : null_or_included llm_provider_ids s.default_llm_provider ≡ true
  pub transcriber :
      null_or_included transcription_provider_ids s.preferred_transcription_provider ≡ true
  pub speaker : null_or_included tts_provider_ids s.preferred_tts_provider ≡ true
  pub mode : null_or_included chat_response_modes s.chat_response_mode ≡ true

update_retention-IsLegal :
    (r : RetentionFields) (s : WorkspaceSettings)
    → IsLegal s
    → Ensures IsLegal (update_retention r s)
unfolding update_retention
update_retention-IsLegal r s k =
    bind
      (Ensures-checked (within 1 365) Error.file_days r.default_file_retention_days
        s.default_file_retention_days k.file)
      λ file h₁.
        bind
          (Ensures-checked (within 1 730) Error.text_days r.default_text_embeddings_retention_days
            s.default_text_embeddings_retention_days k.texts)
          λ texts h₂.
            bind
              (Ensures-checked (within 0 100) Error.threshold r.fuzzy_match_threshold
                s.fuzzy_match_threshold k.threshold)
              λ limit h₃. returns (record {
                file = h₁;
                texts = h₂;
                threshold = h₃;
                strategy = k.strategy;
                parser = k.parser;
                llm = k.llm;
                transcriber = k.transcriber;
                speaker = k.speaker;
                mode = k.mode;
              })

default_row-IsLegal : (id ws : String) → IsLegal (default_row id ws)
default_row-IsLegal id ws = record {
  file = refl;
  texts = refl;
  threshold = refl;
  strategy = refl;
  parser = refl;
  llm = refl;
  transcriber = refl;
  speaker = refl;
  mode = refl;
}

module _ (C : Crypto) (key : Option Bytes) (E : Outside) where
  update_processing-IsLegal :
      (p : ProcessingFields) (s : WorkspaceSettings)
      → IsLegal s
      → Ensures IsLegal (update_processing C key E p s)
  unfolding update_processing
  update_processing-IsLegal p s k =
      bind
        (Ensures-checked (includes allowed_chunking_strategies) Error.chunking_strategy
          p.chunking_strategy s.chunking_strategy k.strategy)
        λ strategy h₁.
          bind
            (Ensures-checked (includes allowed_document_parsers) Error.document_parser
              p.default_document_parser s.default_document_parser k.parser)
            λ parser h₂.
              bind
                (Ensures-checked (null_or_included llm_provider_ids) Error.llm_provider
                  p.default_llm_provider s.default_llm_provider k.llm)
                λ llm h₃.
                  bind
                    (Ensures-any (
                      update_keys C key E Error.encryption_failed E.parser_iv (λ id. true)
                        p.parser_api_keys s.parser_api_keys))
                    λ keys h₄. returns (record {
                      file = k.file;
                      texts = k.texts;
                      threshold = k.threshold;
                      strategy = h₁;
                      parser = h₂;
                      llm = h₃;
                      transcriber = k.transcriber;
                      speaker = k.speaker;
                      mode = k.mode;
                    })

  update_providers-IsLegal :
      (u : UpdateRequest) (s : WorkspaceSettings)
      → IsLegal s
      → Ensures IsLegal (update_providers C key E u s)
  unfolding update_providers
  update_providers-IsLegal u s k =
      bind
        (Ensures-any (
          update_keys C key E Error.encryption_not_configured E.transcription_iv
            (includes transcription_provider_ids) u.transcription_provider_api_keys
            s.transcription_provider_api_keys))
        λ transcription h₁.
          bind
            (Ensures-preferred E.trim transcription_provider_ids Error.transcription_provider
              u.preferred_transcription_provider s.preferred_transcription_provider k.transcriber)
            λ transcriber h₂.
              bind
                (Ensures-any (
                  update_keys C key E Error.encryption_not_configured E.tts_iv
                    (includes tts_provider_ids) u.tts_provider_api_keys s.tts_provider_api_keys))
                λ tts h₃.
                  bind
                    (Ensures-preferred E.trim tts_provider_ids Error.tts_provider
                      u.preferred_tts_provider s.preferred_tts_provider k.speaker)
                    λ speaker h₄.
                      bind
                        (Ensures-any (
                          update_tts_config E.to_lower_case u.tts_provider_config
                            s.tts_provider_config))
                        λ configs h₅.
                          bind
                            (Ensures-preferred E.trim chat_response_modes Error.chat_response_mode
                              u.chat_response_mode s.chat_response_mode k.mode)
                            λ mode h₆. returns (record {
                              file = k.file;
                              texts = k.texts;
                              threshold = k.threshold;
                              strategy = k.strategy;
                              parser = k.parser;
                              llm = k.llm;
                              transcriber = h₂;
                              speaker = h₄;
                              mode = h₆;
                            })

  if_given-IsLegal :
      {A : Type 0} (f : A → WorkspaceSettings → Result WorkspaceSettings)
      → ((a : A) (s : WorkspaceSettings) → IsLegal s → Ensures IsLegal (f a s))
      → (field : Option A) (s : WorkspaceSettings) → IsLegal s
      → Ensures IsLegal (if_given C key E f field s)
  if_given-IsLegal f keeps none s k = returns k
  if_given-IsLegal f keeps (some a) s k = keeps a s k

  pub changed-IsLegal :
      (u : UpdateRequest) (s : WorkspaceSettings)
      → IsLegal s
      → Ensures IsLegal (changed C key E u s)
  unfolding changed
  changed-IsLegal u s k =
      bind
        (bind (if_given-IsLegal update_retention update_retention-IsLegal u.retention s k) (λ a h.
          if_given-IsLegal (update_processing C key E) update_processing-IsLegal
            u.document_processing a h))
        (λ a h. update_providers-IsLegal u a h)

  module _ (S : Repository settings_key) where
    abbrev pub AllLegal : S.Table → Type 0
    AllLegal t = (s : WorkspaceSettings) → Has settings_key S t s → IsLegal s

    save-AllLegal :
        (s : WorkspaceSettings) (t : S.Table) → IsLegal s → AllLegal t → AllLegal (S.save s t)
    save-AllLegal s t k all r h = elim (Has-save_cases settings_key S t s r h) [
      | inl e ↦ subst IsLegal e k
      | inr (n, old) ↦ all r old
    ]

    get_settings-AllLegal :
        (id ws : String) (t : S.Table) → AllLegal t → AllLegal (get_settings C key S id ws t).1
    unfolding get_settings
    get_settings-AllLegal id ws t all = elim (Option-cases (S.find_one (of_workspace ws) t)) [
      | inl e ↦
          rw (e, get_settings) (save-AllLegal (default_row id ws) t (default_row-IsLegal id ws) all)
      | inr (s, e) ↦ rw (e, get_settings) all
    ]

    base-IsLegal : (ws : String) (t : S.Table) → AllLegal t → IsLegal (base C key E S ws t)
    base-IsLegal ws t all = elim (Option-cases (S.find_one (of_workspace ws) t)) [
      | inl e ↦ rw e (default_row-IsLegal E.id ws)
      | inr (s, e) ↦ rw e (all s (S.find_one_sound (of_workspace ws) t s e).0)
    ]

    saved-AllLegal :
        (ws : String) (t : S.Table) (m : Result WorkspaceSettings)
        → Ensures IsLegal m
        → AllLegal t
        → AllLegal (saved C key E S ws m t).1
    saved-AllLegal ws t (ok s) (returns k) all =
        get_settings-AllLegal E.id ws (S.save s t) (save-AllLegal s t k all)
    saved-AllLegal ws t (err e) throws all = all

    -- Whatever a request to updateSettings or getSettings holds, and whether it throws or not: if
    -- in every stored row the default days and the threshold are within the limits of the service
    -- and the chunking strategy, the default parser, the providers in use and the response mode are
    -- known, then so they are afterwards. The overrides of the days and the ids of the API keys are
    -- not limited.
    pub update_settings-AllLegal :
        (ws : String) (u : UpdateRequest) (t : S.Table)
        → AllLegal t
        → AllLegal (update_settings C key E S ws u t).1
          × AllLegal (get_settings C key S E.id ws t).1
    unfolding update_settings
    update_settings-AllLegal ws u t all = (
      saved-AllLegal ws t (changed C key E u (base C key E S ws t))
          (changed-IsLegal u (base C key E S ws t) (base-IsLegal ws t all)) all,
      get_settings-AllLegal E.id ws t all,
    )
