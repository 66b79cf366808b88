-- ===== src/Retention/Tests.antt =====
-- Policies of two workspaces.
use contractor_reviewer.Common.{
  String, ◌≡◌, refl, sym, ◌∙◌, ◌⊎◌, inl, inr, arith, none, some, List, [], ◌∷◌, ◌==◌, if◌then◌else◌,
  Bool-cases,
}
use contractor_reviewer.Repository.InMemory.{in_memory}
use contractor_reviewer.Repository.Lookup.{Has}
use contractor_reviewer.Entities.{WorkspaceSettings, default_row, settings_key}
use contractor_reviewer.Retention.{
  RetentionUpdate, Updated, Error, ok, err, update_retention_config, get_retention_config,
}
use contractor_reviewer.Retention.Config.{IsUnique, config_at}
use contractor_reviewer.Retention.Limits.{
  AllWithin, update_retention_config-AllWithin, update_retention_config_lem,
}

abbrev row : WorkspaceSettings
row = default_row "s1" "w1"

abbrev table : List WorkspaceSettings
table = row ∷ []

only_row : (s : WorkspaceSettings) → Has settings_key (in_memory settings_key) table s → row ≡ s
only_row s h = elim (Bool-cases ("s1" == s.id)) [
  | inl e ↦ ground arith
  | inr e ↦ absurd (ground arith)
]

table-IsUnique : IsUnique (in_memory settings_key) table
table-IsUnique ws a b ha hb p q = sym (only_row a ha) ∙ only_row b hb

table-AllWithin : AllWithin (in_memory settings_key) table
table-AllWithin s h = ground (arith, only_row s h)

abbrev update : RetentionUpdate
update = record {
  default_file_retention_days = some 365;
  default_text_embeddings_retention_days = none;
  retention_overrides = none;
  fuzzy_match_threshold = some 900;
}

abbrev store : String → RetentionUpdate → List WorkspaceSettings
store ws u = (update_retention_config (in_memory settings_key) "s2" ws u table).1

update_retention_config-AllWithin_example :
    AllWithin (in_memory settings_key) (store "w2" update)
    × AllWithin
        (in_memory settings_key)
        (get_retention_config (in_memory settings_key) "s2" "w2" (store "w2" update)).1
update_retention_config-AllWithin_example =
    update_retention_config-AllWithin (in_memory settings_key) "s2" "w2" update table
      table-AllWithin

update_retention_config_example :
    ((e : Error) × (update_retention_config (in_memory settings_key) "s2" "w2" update table
        ≡ (err e, table)))
    ⊎ ((out : Updated) × (t' : List WorkspaceSettings) × (update_retention_config
            (in_memory settings_key)
            "s2"
            "w2"
            update
            table
          ≡ (ok out, t'))
        × ((other : String)
            → config_at (in_memory settings_key) t' other ≡ (
                if "w2" == other
                then out.config
                else config_at (in_memory settings_key) table other))
        × IsUnique (in_memory settings_key) t')
update_retention_config_example =
    update_retention_config_lem (in_memory settings_key) "s2" "w2" update table table-IsUnique refl
