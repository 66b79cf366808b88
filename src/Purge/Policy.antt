-- ===== src/Purge/Policy.antt =====
-- What the policies of the workspaces are in the course of a run, which may store default rows.
use contractor_reviewer.Common.{
  String, ◌≡◌, sym, ◌∙◌, ap, arith, none, some, Option-cases, inl, inr, true, false, ◌==◌, ==-cases,
}
use contractor_reviewer.Repository.{Repository}
use contractor_reviewer.Entities.{WorkspaceSettings, settings_key}
use contractor_reviewer.Retention.{of_workspace, get_retention_config, new_settings}
use contractor_reviewer.Retention.Config.{
  IsUnique, config_at, config_at-get, get_retention_config-IsUnique, absent, get-found, get-missing,
}

module _ (S : Repository settings_key) (new_id : String → String) (t₀ : S.Table) where
  -- Each workspace has one row at most, a key that the database would use for a workspace is
  -- unused or used for it, and every workspace has the policy of the table `t₀`.
  pub record IsCalm (t : S.Table) : Type 0 where
    pub unique : IsUnique S t
    pub own :
        (ws : String) (s : WorkspaceSettings) → S.at t (new_id ws) ≡ some s → s.workspace_id ≡ ws
    pub same : (ws : String) → config_at S t ws ≡ config_at S t₀ ws

  fresh :
      (ws : String) (t : S.Table)
      → IsCalm t
      → S.find_one (of_workspace ws) t ≡ none
      → S.at t (new_id ws) ≡ none
  fresh ws t calm e = elim (Option-cases (S.at t (new_id ws))) [
    | inl n ↦ n
    | inr (s, h) ↦
        absurd (absent S t ws s e (ap (S.at t) (S.key-at t (new_id ws) s h) ∙ h) (calm.own ws s h))
  ]

  -- Reading a policy in the course of the run keeps it so.
  pub get_retention_config-IsCalm :
      ((a b : String) → new_id a ≡ new_id b → a ≡ b)
      → (ws : String) (t : S.Table) → IsCalm t
      → IsCalm (get_retention_config S (new_id ws) ws t).1
  get_retention_config-IsCalm inj ws t calm = elim (Option-cases (S.find_one (of_workspace ws) t)) [
    | inr (s, e) ↦ rw (unchanged s e) calm
    | inl e ↦ record {
      unique = get_retention_config-IsUnique S (new_id ws) ws t calm.unique;
      own = λ other s h. elim (==-cases (new_id ws) (new_id other)) [
        | inl (b, q) ↦ written e other s h b ∙ inj ws other q
        | inr (b, q) ↦ calm.own other s (kept e other s h b)
      ];
      same = λ other.
          config_at-get S (new_id ws) ws t other calm.unique (fresh ws t calm e) ∙ calm.same other;
    }
  ]
    where
      unchanged :
          (s : WorkspaceSettings)
          → S.find_one (of_workspace ws) t ≡ some s
          → (get_retention_config S (new_id ws) ws t).1 ≡ t
      unchanged s e = get-found S (new_id ws) ws t s e

      written :
          S.find_one (of_workspace ws) t ≡ none
          → (other : String) (s : WorkspaceSettings)
          → S.at (get_retention_config S (new_id ws) ws t).1 (new_id other) ≡ some s
          → (new_id ws == new_id other) ≡ true
          → s.workspace_id ≡ ws
      written e other s h b = ground (
        arith,
        ap (λ x. S.at x (new_id other)) (sym (get-missing S (new_id ws) ws t e)) ∙ h,
        S.at-save (new_settings (new_id ws) ws 30 90 none 70) t (new_id other),
        b,
      )

      kept :
          S.find_one (of_workspace ws) t ≡ none
          → (other : String) (s : WorkspaceSettings)
          → S.at (get_retention_config S (new_id ws) ws t).1 (new_id other) ≡ some s
          → (new_id ws == new_id other) ≡ false
          → S.at t (new_id other) ≡ some s
      kept e other s h b = ground (
        arith,
        ap (λ x. S.at x (new_id other)) (sym (get-missing S (new_id ws) ws t e)) ∙ h,
        S.at-save (new_settings (new_id ws) ws 30 90 none 70) t (new_id other),
        b,
      )
