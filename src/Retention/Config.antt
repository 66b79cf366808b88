-- ===== src/Retention/Config.antt =====
-- Reading the configuration back, and what reading it leaves as it was.
use contractor_reviewer.Common.{
  ℕ, String, ◌≡◌, sym, ap, ◌∙◌, ◌≢◌, inl, inr, arith, none, some, Option-cases, ==-cases,
  or_default, leb, ◌+◌, ◌*◌,
}
use contractor_reviewer.Repository.{Repository}
use contractor_reviewer.Repository.Lookup.{Has, IsUniqueFor, find_one-insert, Has-save_cases}
use contractor_reviewer.Entities.{WorkspaceSettings, settings_key}
use contractor_reviewer.Retention.{
  is_file_expired, is_text_expired, file_expiration, text_expiration, lookup, day, RetentionConfig,
  of_workspace, new_settings, config_of, get_retention_config,
}
use text.Mathlib.TextEquality.{eq_iff}

module _ (S : Repository settings_key) where
  -- One row at most for each workspace: the unique constraint of the column.
  abbrev pub IsUnique : S.Table → Type 0
  IsUnique t = (ws : String) → IsUniqueFor settings_key S (of_workspace ws) t

  -- The configuration that holds for a workspace: its row's, or the defaults.
  unfoldable pub config_at : S.Table → String → RetentionConfig
  config_at t ws = elim (S.find_one (of_workspace ws) t) [
    | some s ↦ config_of s
    | none ↦ config_of (new_settings "" ws 30 90 none 70)
  ]

  pub get_retention_config-config_at :
      (id ws : String) (t : S.Table) → (get_retention_config S id ws t).0 ≡ config_at t ws
  unfolding get_retention_config config_at
  get_retention_config-config_at id ws t = elim (Option-cases (S.find_one (of_workspace ws) t)) [
    | inl e ↦ ground arith
    | inr (s, e) ↦ ground arith
  ]

  pub get-found :
      (id ws : String) (t : S.Table) (s : WorkspaceSettings)
      → S.find_one (of_workspace ws) t ≡ some s
      → (get_retention_config S id ws t).1 ≡ t
  unfolding get_retention_config
  get-found id ws t s e = ground arith

  pub get-missing :
      (id ws : String) (t : S.Table)
      → S.find_one (of_workspace ws) t ≡ none
      → (get_retention_config S id ws t).1 ≡ S.save (new_settings id ws 30 90 none 70) t
  unfolding get_retention_config
  get-missing id ws t e = ground arith

  -- Reading the configuration of a workspace, which may store the defaults, changes the
  -- configuration of none.
  pub config_at-get :
      (id ws : String) (t : S.Table) (other : String)
      → IsUnique t
      → S.at t id ≡ none
      → config_at (get_retention_config S id ws t).1 other ≡ config_at t other
  unfolding get_retention_config config_at
  config_at-get id ws t other unique fresh = elim (Option-cases (S.find_one (of_workspace ws) t)) [
    | inr (s, e) ↦ rw (e, get_retention_config)
    | inl e ↦
        let s = new_settings id ws 30 90 none 70 in
        let look =
          find_one-insert settings_key S (of_workspace other) t s (unique other) fresh
            (λ b. let same : ws ≡ other = (eq_iff ws other).0 b in rw (← same) e) in
        elim (==-cases ws other) [
          | inl (b, q) ↦
              let missing : S.find_one (of_workspace other) t ≡ none = rw (← q) e in
              ground (arith, e, look, b, missing)
          | inr (b, n) ↦ ground (arith, e, look, b)
        ]
  ]

  pub save-IsUnique :
      (t : S.Table) (s : WorkspaceSettings)
      → IsUnique t
      → ((r : WorkspaceSettings)
          → Has settings_key S t r
          → r.workspace_id ≡ s.workspace_id
          → r.id ≡ s.id)
      → IsUnique (S.save s t)
  save-IsUnique t s unique alone ws a b ha hb pa pb =
      elim (Has-save_cases settings_key S t s a ha) [
        | inl sa ↦ elim (Has-save_cases settings_key S t s b hb) [
          | inl sb ↦ sym sa ∙ sb
          | inr (nb, h) ↦ absurd (
              nb (
                sym (
                  alone b h (
                    ground (
                      arith,
                      ap (λ (x : WorkspaceSettings). x.workspace_id) sa,
                      eq_iff a.workspace_id ws,
                      eq_iff b.workspace_id ws,
                    )))))
        ]
        | inr (na, h) ↦ elim (Has-save_cases settings_key S t s b hb) [
          | inl sb ↦ absurd (
              na (
                sym (
                  alone a h (
                    ground (
                      arith,
                      ap (λ (x : WorkspaceSettings). x.workspace_id) sb,
                      eq_iff a.workspace_id ws,
                      eq_iff b.workspace_id ws,
                    )))))
          | inr (nb, h') ↦ unique ws a b h h' pa pb
        ]
      ]

  pub absent :
      (t : S.Table) (ws : String) (r : WorkspaceSettings)
      → S.find_one (of_workspace ws) t ≡ none
      → Has settings_key S t r
      → r.workspace_id ≢ ws
  absent t ws r e h q =
      ground (arith, S.find_one_complete (of_workspace ws) t r.id r e h, eq_iff r.workspace_id ws)

  pub get_retention_config-IsUnique :
      (id ws : String) (t : S.Table) → IsUnique t → IsUnique (get_retention_config S id ws t).1
  unfolding get_retention_config
  get_retention_config-IsUnique id ws t unique =
      elim (Option-cases (S.find_one (of_workspace ws) t)) [
        | inr (s, e) ↦ rw (e, get_retention_config) unique
        | inl e ↦
            rw (e, get_retention_config)
              (save-IsUnique t (new_settings id ws 30 90 none 70) unique
                (λ r h q. absurd (absent t ws r e h q)))
      ]

-- The days that a configuration keeps files, and texts.
abbrev pub file_days : RetentionConfig → ℕ
file_days c = or_default (lookup "file" c.retention_overrides) c.default_file_retention_days

abbrev pub text_days : RetentionConfig → ℕ
text_days c =
    or_default (lookup "text" c.retention_overrides) c.default_text_embeddings_retention_days

module _ (S : Repository settings_key) (id ws : String) (created now : ℕ) (t : S.Table) where
  -- A file has expired when its age is at least the days of its workspace's policy.
  pub is_file_expired_lem :
      is_file_expired S id ws created now t
      ≡ (leb (created + file_days (config_at S t ws) * day) now, (get_retention_config S id ws t).1)
  unfolding is_file_expired file_expiration
  is_file_expired_lem = ground (arith, get_retention_config-config_at S id ws t)

  pub is_text_expired_lem :
      is_text_expired S id ws created now t
      ≡ (leb (created + text_days (config_at S t ws) * day) now, (get_retention_config S id ws t).1)
  unfolding is_text_expired text_expiration
  is_text_expired_lem = ground (arith, get_retention_config-config_at S id ws t)
