-- ===== src/Retention/Limits.antt =====
-- Updates of the policy: what they may store, what is read back after them, and what they reject.
use contractor_reviewer.Common.{
  ℕ, ◌≤◌, ◌<◌, String, false, ◌≡◌, refl, sym, ap, ◌∙◌, ◌⊎◌, inl, inr, arith, none, some,
  Option-cases, Bool-cases, if◌then◌else◌, ◌==◌,
}
use contractor_reviewer.Repository.{Repository}
use contractor_reviewer.Repository.Lookup.{Has, find_one-insert, find_one-update, Has-save_cases}
use contractor_reviewer.Entities.{WorkspaceSettings, settings_key}
use contractor_reviewer.Retention.{
  RetentionUpdate, Updated, Error, ok, err, file_days_out_of_range, text_days_out_of_range,
  threshold_out_of_range, of_workspace, new_settings, config_of, apply_update, from_update, updated,
  out_of_range, get_retention_config, store_update, update_retention_config,
}
use contractor_reviewer.Retention.Config.{IsUnique, config_at, save-IsUnique, absent}
use text.Mathlib.TextEquality.{eq_iff}

-- The limits of the service.
pub record IsWithin (s : WorkspaceSettings) : Type 0 where
  pub file_low : 1 ≤ s.default_file_retention_days
  pub file_high : s.default_file_retention_days ≤ 365
  pub text_low : 1 ≤ s.default_text_embeddings_retention_days
  pub text_high : s.default_text_embeddings_retention_days ≤ 730

module _ (S : Repository settings_key) where
  abbrev pub AllWithin : S.Table → Type 0
  AllWithin t = (s : WorkspaceSettings) → Has settings_key S t s → IsWithin s

  save-AllWithin :
      (t : S.Table) (s : WorkspaceSettings) → IsWithin s → AllWithin t → AllWithin (S.save s t)
  save-AllWithin t s h all r hr = elim (Has-save_cases settings_key S t s r hr) [
    | inl e ↦ ground (arith, h, e)
    | inr (n, k) ↦ all r k
  ]

  get_retention_config-AllWithin :
      (id ws : String) (t : S.Table) → AllWithin t → AllWithin (get_retention_config S id ws t).1
  unfolding get_retention_config
  get_retention_config-AllWithin id ws t all =
      elim (Option-cases (S.find_one (of_workspace ws) t)) [
        | inr (s, e) ↦ rw (e, get_retention_config) all
        | inl e ↦
            rw (e, get_retention_config)
              (save-AllWithin t (new_settings id ws 30 90 none 70) (omega arith) all)
      ]

  from_update-IsWithin :
      (id ws : String) (u : RetentionUpdate)
      → out_of_range 1 365 u.default_file_retention_days ≡ false
      → out_of_range 1 730 u.default_text_embeddings_retention_days ≡ false
      → IsWithin (from_update id ws u)
  from_update-IsWithin id ws u f x = ground arith

  apply_update-IsWithin :
      (u : RetentionUpdate) (s : WorkspaceSettings)
      → out_of_range 1 365 u.default_file_retention_days ≡ false
      → out_of_range 1 730 u.default_text_embeddings_retention_days ≡ false
      → IsWithin s
      → IsWithin (apply_update u s)
  apply_update-IsWithin u s f x h = ground arith

  -- What an update does: it rejects and stores nothing, or writes one row.
  update_cases :
      (id ws : String) (u : RetentionUpdate) (t : S.Table)
      → ((e : Error) × (update_retention_config S id ws u t ≡ (err e, t)))
        ⊎ (out_of_range 1 365 u.default_file_retention_days ≡ false)
          × (out_of_range 1 730 u.default_text_embeddings_retention_days ≡ false)
          × (((S.find_one (of_workspace ws) t ≡ none)
                × (update_retention_config S id ws u t
                    ≡ (ok (updated (from_update id ws u)), S.save (from_update id ws u) t)))
              ⊎ ((s : WorkspaceSettings) × (S.find_one (of_workspace ws) t ≡ some s)
                  × (update_retention_config S id ws u t
                      ≡ (ok (updated (apply_update u s)), S.save (apply_update u s) t))))
  unfolding update_retention_config store_update
  update_cases id ws u t = elim (Bool-cases (out_of_range 1 365 u.default_file_retention_days)) [
    | inl b ↦ inl (file_days_out_of_range, rw (b, update_retention_config))
    | inr b ↦ elim (Bool-cases (out_of_range 1 730 u.default_text_embeddings_retention_days)) [
      | inl c ↦ inl (text_days_out_of_range, rw (b, c, update_retention_config))
      | inr c ↦ elim (Option-cases (S.find_one (of_workspace ws) t)) [
        | inl e ↦ inr (b, c, inl (e, rw (b, c, e, update_retention_config)))
        | inr (s, e) ↦ elim (Bool-cases (out_of_range 0 100 u.fuzzy_match_threshold)) [
          | inl d ↦
              inl (
                threshold_out_of_range,
                rw (b, c, e, update_retention_config) (rw (d, store_update)),
              )
          | inr d ↦
              inr (b, c, inr (s, e, rw (b, c, e, update_retention_config) (rw (d, store_update))))
        ]
      ]
    ]
  ]

  -- If all stored default days are within the limits, 1 to 365 for files and 1 to 730 for texts and
  -- embeddings, then so they are after an update, and after a reading that follows. The overrides
  -- of single workspaces are not limited.
  pub update_retention_config-AllWithin :
      (id ws : String) (u : RetentionUpdate) (t : S.Table)
      → AllWithin t
      → AllWithin (update_retention_config S id ws u t).1
        × AllWithin (get_retention_config S id ws (update_retention_config S id ws u t).1).1
  update_retention_config-AllWithin id ws u t all =
      let stored =
        elim (update_cases id ws u t) as (λ _. AllWithin (update_retention_config S id ws u t).1) [
          | inl (e, q) ↦ rw q all
          | inr (f, x, inl (e, q)) ↦
              rw q (save-AllWithin t (from_update id ws u) (from_update-IsWithin id ws u f x) all)
          | inr (f, x, inr (s, e, q)) ↦ rw q (
              save-AllWithin t (apply_update u s)
                (apply_update-IsWithin u s f x (all s (S.find_one_sound (of_workspace ws) t s e).0))
                all)
        ] in
      (stored, get_retention_config-AllWithin id ws _ stored)

  update-IsUnique :
      (id ws : String) (t : S.Table) (s r : WorkspaceSettings)
      → IsUnique S t
      → S.find_one (of_workspace ws) t ≡ some s
      → r.id ≡ s.id
      → r.workspace_id ≡ s.workspace_id
      → IsUnique S (S.save r t)
  update-IsUnique id ws t s r unique e i w =
      let (h, p) = S.find_one_sound (of_workspace ws) t s e in
      save-IsUnique S t r unique (λ x hx q.
        ap settings_key (
          unique s.workspace_id x s hx h
            (ground (arith, q, w, eq_iff x.workspace_id s.workspace_id))
            (ground (arith, eq_iff s.workspace_id s.workspace_id)))
        ∙ sym i)

  config-insert :
      (t : S.Table) (r : WorkspaceSettings) (other : String)
      → IsUnique S t
      → S.at t r.id ≡ none
      → S.find_one (of_workspace r.workspace_id) t ≡ none
      → config_at S (S.save r t) other
        ≡ (if r.workspace_id == other then config_of r else config_at S t other)
  unfolding config_at
  config-insert t r other unique fresh e =
      let look = find_one-insert settings_key S (of_workspace other) t r (unique other) fresh (λ b.
        let same : r.workspace_id ≡ other = (eq_iff r.workspace_id other).0 b in rw (← same) e) in
      elim (Bool-cases (r.workspace_id == other)) [
        | inl b ↦ ground (arith, look, b)
        | inr b ↦ ground (arith, look, b)
      ]

  config-update :
      (t : S.Table) (old r : WorkspaceSettings) (other : String)
      → IsUnique S t
      → Has settings_key S t old
      → old.id ≡ r.id
      → old.workspace_id ≡ r.workspace_id
      → config_at S (S.save r t) other
        ≡ (if r.workspace_id == other then config_of r else config_at S t other)
  unfolding config_at
  config-update t old r other unique h i w =
      let look =
        find_one-update settings_key S (of_workspace other) t old r (unique other) h i
          (ap (λ x. x == other) w) in
      elim (Bool-cases (r.workspace_id == other)) [
        | inl b ↦ ground (arith, look, b)
        | inr b ↦ ground (arith, look, b)
      ]

  -- Where each workspace has one row at most and the id for a new row is unused: an update that
  -- is rejected stores nothing; after one that is accepted, the workspace has the configuration
  -- that the update returned and every other workspace the one that it had, and the rows stay
  -- unique.
  pub update_retention_config_lem :
      (id ws : String) (u : RetentionUpdate) (t : S.Table)
      → IsUnique S t
      → S.at t id ≡ none
      → ((e : Error) × (update_retention_config S id ws u t ≡ (err e, t)))
        ⊎ ((out : Updated) × (t' : S.Table) × (update_retention_config S id ws u t ≡ (ok out, t'))
            × ((other : String)
                → config_at S t' other ≡ (if ws == other then out.config else config_at S t other))
            × IsUnique S t')
  update_retention_config_lem id ws u t unique fresh = elim (update_cases id ws u t) [
    | inl r ↦ inl r
    | inr (f, x, inl (e, q)) ↦ inr (
      updated (from_update id ws u),
      S.save (from_update id ws u) t,
      q,
      λ other. config-insert t (from_update id ws u) other unique fresh e,
      save-IsUnique S t (from_update id ws u) unique (λ r h k. absurd (absent S t ws r e h k)),
    )
    | inr (f, x, inr (s, e, q)) ↦
        let (h, p) = S.find_one_sound (of_workspace ws) t s e in
        let same : s.workspace_id ≡ ws = (eq_iff s.workspace_id ws).0 p in
        inr (
          updated (apply_update u s),
          S.save (apply_update u s) t,
          q,
          λ other. rw (← same) (config-update t s (apply_update u s) other unique h refl refl),
          update-IsUnique id ws t s (apply_update u s) unique e refl refl,
        )
  ]

  -- An update whose days are within the limits and whose threshold for fuzzy matches is above 100:
  -- for a workspace without a row it is accepted, and the threshold is stored; for a workspace with
  -- a row it is rejected, and nothing is stored.
  pub threshold_unchecked :
      (id ws : String) (u : RetentionUpdate) (t : S.Table) (n : ℕ)
      → out_of_range 1 365 u.default_file_retention_days ≡ false
      → out_of_range 1 730 u.default_text_embeddings_retention_days ≡ false
      → u.fuzzy_match_threshold ≡ some n
      → 100 < n
      → ((S.find_one (of_workspace ws) t ≡ none)
          × ((s : WorkspaceSettings) × (update_retention_config S id ws u t
                ≡ (ok (updated s), S.save s t))
              × (s.fuzzy_match_threshold ≡ n)))
        ⊎ ((s : WorkspaceSettings) × (S.find_one (of_workspace ws) t ≡ some s)
            × (update_retention_config S id ws u t ≡ (err threshold_out_of_range, t)))
  unfolding update_retention_config store_update
  threshold_unchecked id ws u t n f x e h = elim (Option-cases (S.find_one (of_workspace ws) t)) [
    | inl q ↦ inl (q, (from_update id ws u, ground arith, ground arith))
    | inr (s, q) ↦ inr (s, q, ground arith)
  ]
