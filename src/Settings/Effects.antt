-- ===== src/Settings/Effects.antt =====
-- What updateSettings stores.
use contractor_reviewer.Common.{
  String, true, ◌≡◌, refl, sym, ap, ◌∙◌, subst, ◌⊎◌, inl, inr, arith, Option, none, some,
  if◌then◌else◌, ◌==◌, Option-cases, get_or,
}
use contractor_reviewer.Repository.{Repository}
use contractor_reviewer.Repository.Lookup.{
  Has, IsUniqueFor, find_one-insert, find_one-update, IsUniqueFor-save,
}
use contractor_reviewer.Entities.{WorkspaceSettings, default_row, settings_key}
use contractor_reviewer.Encryption.{Crypto, Bytes}
use contractor_reviewer.Settings.{
  of_workspace, includes, transcription_provider_ids, tts_provider_ids, config_of, get_settings,
  allowed_chunking_strategies, allowed_document_parsers, llm_provider_ids, chat_response_modes,
}
use contractor_reviewer.Settings.Update.{
  Error, Result, ok, err, UpdateRequest, RetentionFields, ProcessingFields, Outside, checked,
  preferred, null_or_included, within, update_keys, update_tts_config, update_retention,
  update_processing, update_providers, if_given, changed, base, saved, update_settings,
}
use contractor_reviewer.Settings.Outcomes.{Ensures, returns, throws, bind, weaken, Ensures-any}
use text.Mathlib.TextEquality.{eq_iff}

-- The row of the same workspace, under the same key.
abbrev SameRow : WorkspaceSettings → WorkspaceSettings → Type 0
SameRow s s' = (s'.id ≡ s.id) × (s'.workspace_id ≡ s.workspace_id)

update_retention-SameRow :
    (r : RetentionFields) (s : WorkspaceSettings) → Ensures (SameRow s) (update_retention r s)
unfolding update_retention
update_retention-SameRow r s =
    bind
      (Ensures-any (
        checked (within 1 365) Error.file_days r.default_file_retention_days
          s.default_file_retention_days))
      λ file _.
        bind
          (Ensures-any (
            checked (within 1 730) Error.text_days r.default_text_embeddings_retention_days
              s.default_text_embeddings_retention_days))
          λ texts _.
            bind
              (Ensures-any (
                checked (within 0 100) Error.threshold r.fuzzy_match_threshold
                  s.fuzzy_match_threshold))
              λ limit _. returns (refl, refl)

module _ (C : Crypto) (key : Option Bytes) (E : Outside) where
  update_processing-SameRow :
      (p : ProcessingFields) (s : WorkspaceSettings)
      → Ensures (SameRow s) (update_processing C key E p s)
  unfolding update_processing
  update_processing-SameRow p s =
      bind
        (Ensures-any (
          checked (includes allowed_chunking_strategies) Error.chunking_strategy p.chunking_strategy
            s.chunking_strategy))
        λ strategy _.
          bind
            (Ensures-any (
              checked (includes allowed_document_parsers) Error.document_parser
                p.default_document_parser s.default_document_parser))
            λ parser _.
              bind
                (Ensures-any (
                  checked (null_or_included llm_provider_ids) Error.llm_provider
                    p.default_llm_provider s.default_llm_provider))
                λ llm _.
                  bind
                    (Ensures-any (
                      update_keys C key E Error.encryption_failed E.parser_iv (λ id. true)
                        p.parser_api_keys s.parser_api_keys))
                    λ keys _. returns (refl, refl)

  update_providers-SameRow :
      (u : UpdateRequest) (s : WorkspaceSettings)
      → Ensures (SameRow s) (update_providers C key E u s)
  unfolding update_providers
  update_providers-SameRow u s =
      bind
        (Ensures-any (
          update_keys C key E Error.encryption_not_configured E.transcription_iv
            (includes transcription_provider_ids) u.transcription_provider_api_keys
            s.transcription_provider_api_keys))
        λ transcription _.
          bind
            (Ensures-any (
              preferred E.trim transcription_provider_ids Error.transcription_provider
                u.preferred_transcription_provider s.preferred_transcription_provider))
            λ transcriber _.
              bind
                (Ensures-any (
                  update_keys C key E Error.encryption_not_configured E.tts_iv
                    (includes tts_provider_ids) u.tts_provider_api_keys s.tts_provider_api_keys))
                λ tts _.
                  bind
                    (Ensures-any (
                      preferred E.trim tts_provider_ids Error.tts_provider u.preferred_tts_provider
                        s.preferred_tts_provider))
                    λ speaker _.
                      bind
                        (Ensures-any (
                          update_tts_config E.to_lower_case u.tts_provider_config
                            s.tts_provider_config))
                        λ configs _.
                          bind
                            (Ensures-any (
                              preferred E.trim chat_response_modes Error.chat_response_mode
                                u.chat_response_mode s.chat_response_mode))
                            λ mode _. returns (refl, refl)

  if_given-SameRow :
      {A : Type 0} (f : A → WorkspaceSettings → Result WorkspaceSettings)
      → ((a : A) (s : WorkspaceSettings) → Ensures (SameRow s) (f a s))
      → (field : Option A) (s : WorkspaceSettings)
      → Ensures (SameRow s) (if_given C key E f field s)
  if_given-SameRow f same none s = returns (refl, refl)
  if_given-SameRow f same (some a) s = same a s

  changed-SameRow :
      (u : UpdateRequest) (s : WorkspaceSettings) → Ensures (SameRow s) (changed C key E u s)
  unfolding changed
  changed-SameRow u s =
      bind {P = SameRow s}
        (bind (if_given-SameRow update_retention update_retention-SameRow u.retention s) (λ a h.
          weaken
            (if_given-SameRow (update_processing C key E) update_processing-SameRow
              u.document_processing a)
            (λ b k. (k.0 ∙ h.0, k.1 ∙ h.1))))
        (λ a h. weaken (update_providers-SameRow u a) (λ b k. (k.0 ∙ h.0, k.1 ∙ h.1)))

  module _ (S : Repository settings_key) where
    -- One row at most for each workspace: the unique constraint of the column.
    abbrev pub IsUnique : S.Table → Type 0
    IsUnique t = (ws : String) → IsUniqueFor settings_key S (of_workspace ws) t

    -- The table after the row `s` of the workspace `ws` was written.
    abbrev pub Holds : String → WorkspaceSettings → S.Table → Type 0
    Holds ws s t =
        ((other : String)
          → S.find_one (of_workspace other) (S.save s t)
            ≡ (if ws == other then some s else S.find_one (of_workspace other) t))
        × IsUnique (S.save s t)

    save_new :
        (ws : String) (s : WorkspaceSettings) (t : S.Table)
        → IsUnique t
        → S.at t s.id ≡ none
        → s.workspace_id ≡ ws
        → S.find_one (of_workspace ws) t ≡ none
        → Holds ws s t
    save_new ws s t unique fresh e none_found =
        let first : (other : String)
            → of_workspace other s ≡ true
            → S.find_one (of_workspace other) t ≡ none =
          λ other b.
            subst (λ w. S.find_one (of_workspace w) t ≡ none)
              (sym e ∙ (eq_iff s.workspace_id other).0 b) none_found in
        (
          λ other.
              find_one-insert settings_key S (of_workspace other) t s (unique other) fresh
                (first other)
              ∙ ap (λ w. if w == other then some s else S.find_one (of_workspace other) t) e,
          λ other.
              IsUniqueFor-save settings_key S (of_workspace other) t s (unique other) (λ x hx qx qs.
                absurd (
                  ground (
                    arith,
                    qx,
                    S.find_one_complete (of_workspace other) t x.id x (first other qs) hx,
                  ))),
        )

    save_old :
        (ws : String) (old s : WorkspaceSettings) (t : S.Table)
        → IsUnique t
        → Has settings_key S t old
        → SameRow old s
        → old.workspace_id ≡ ws
        → Holds ws s t
    save_old ws old s t unique ho same e =
        let equal : (other : String) → of_workspace other old ≡ of_workspace other s =
          λ other. ap (λ w. w == other) (sym same.1) in
        (
          λ other.
              find_one-update settings_key S (of_workspace other) t old s (unique other) ho
                (sym same.0) (equal other)
              ∙ ap (λ w. if w == other then some s else S.find_one (of_workspace other) t)
                  (same.1 ∙ e),
          λ other.
              IsUniqueFor-save settings_key S (of_workspace other) t s (unique other) (λ x hx qx qs.
                ap settings_key (unique other x old hx ho qx (equal other ∙ qs)) ∙ sym same.0),
        )

    base-Holds :
        (ws : String) (s : WorkspaceSettings) (t : S.Table)
        → IsUnique t
        → S.at t E.id ≡ none
        → SameRow (base C key E S ws t) s
        → Holds ws s t
    base-Holds ws s t unique fresh same = elim (Option-cases (S.find_one (of_workspace ws) t)) [
      | inl e ↦
          let row = subst (λ b. SameRow b s) (ap (λ o. get_or o (default_row E.id ws)) e) same in
          save_new ws s t unique (ap (S.at t) row.0 ∙ fresh) row.1 e
      | inr (old, e) ↦
          let row = subst (λ b. SameRow b s) (ap (λ o. get_or o (default_row E.id ws)) e) same in
          let (ho, qo) = S.find_one_sound (of_workspace ws) t old e in
          save_old ws old s t unique ho row ((eq_iff old.workspace_id ws).0 qo)
    ]

    saved_found :
        (ws : String) (s : WorkspaceSettings) (t : S.Table)
        → Holds ws s t
        → saved C key E S ws (ok s) t ≡ (ok (config_of s), S.save s t)
    unfolding get_settings
    saved_found ws s t h =
        let found : S.find_one (of_workspace ws) (S.save s t) ≡ some s =
          ground (arith, h.0 ws, eq_iff ws ws) in
        ground (arith, found)

    -- updateSettings either throws and stores nothing, or it stores the changed row of the workspace,
    -- a new one with the defaults if there was none: it returns what the row holds, the row is found
    -- for the workspace, what is found for every other workspace is as before, and each workspace has
    -- one row at most still. Each workspace had one row at most, and the key of a new row was unused.
    pub update_settings_lem :
        (ws : String) (u : UpdateRequest) (t : S.Table)
        → IsUnique t
        → S.at t E.id ≡ none
        → ((e : Error) × (changed C key E u (base C key E S ws t) ≡ err e)
            × (update_settings C key E S ws u t ≡ (err e, t)))
          ⊎ ((s : WorkspaceSettings) × (changed C key E u (base C key E S ws t) ≡ ok s)
              × (update_settings C key E S ws u t ≡ (ok (config_of s), S.save s t))
              × Holds ws s t)
    unfolding update_settings
    update_settings_lem ws u t unique fresh =
        go (changed C key E u (base C key E S ws t)) refl (changed-SameRow u (base C key E S ws t))
      where
        go :
            (m : Result WorkspaceSettings)
            → changed C key E u (base C key E S ws t) ≡ m
            → Ensures (SameRow (base C key E S ws t)) m
            → ((e : Error) × (changed C key E u (base C key E S ws t) ≡ err e)
                × (saved C key E S ws (changed C key E u (base C key E S ws t)) t ≡ (err e, t)))
              ⊎ ((s : WorkspaceSettings) × (changed C key E u (base C key E S ws t) ≡ ok s)
                  × (saved C key E S ws (changed C key E u (base C key E S ws t)) t
                      ≡ (ok (config_of s), S.save s t))
                  × Holds ws s t)
        go (err e) q throws = inl (e, q, ap (λ m. saved C key E S ws m t) q)
        go (ok s) q (returns same) =
            let holds = base-Holds ws s t unique fresh same in
            inr (s, q, ap (λ m. saved C key E S ws m t) q ∙ saved_found ws s t holds, holds)
