-- ===== src/Retention.antt =====
-- apps/api/src/retention/retention.service.ts: the retention policy of each workspace. Days are
-- natural numbers, and the process runs in a time zone without clock shifts (UTC), where a day
-- added by `setDate` is 86,400,000 milliseconds.
pub mod Config
pub mod Limits
mod Tests
use contractor_reviewer.Repository.{Repository}
use contractor_reviewer.Entities.{WorkspaceSettings, default_row, settings_key}
use contractor_reviewer.Common.{
  ℕ, ◌+◌, ◌*◌, String, Bool, true, false, ◌||◌, List, [], ◌∷◌, Option, none, some, ltb, leb,
  if◌then◌else◌, ◌==◌, get_or, or_default,
}

-- An override for a kind of data, of `Record<string, number>`.
pub lookup : String → List (String × ℕ) → Option ℕ
lookup k [] = none
lookup k ((j, n) ∷ m) = if j == k then some n else lookup k m

pub record RetentionConfig : Type 0 where
  pub default_file_retention_days : ℕ
  pub default_text_embeddings_retention_days : ℕ
  pub retention_overrides : List (String × ℕ)

-- `Partial<RetentionConfig>`
pub record RetentionUpdate : Type 0 where
  pub default_file_retention_days : Option ℕ
  pub default_text_embeddings_retention_days : Option ℕ
  pub retention_overrides : Option (List (String × ℕ))
  pub fuzzy_match_threshold : Option ℕ

pub record Updated : Type 0 where
  pub config : RetentionConfig
  pub fuzzy_match_threshold : ℕ

pub data Error : Type 0 where
  file_days_out_of_range text_days_out_of_range threshold_out_of_range : Error

pub data Result (A : Type 0) : Type 0 where
  ok : A → Result A
  err : Error → Result A

abbrev pub min_file_retention_days : ℕ
min_file_retention_days = 1

abbrev pub max_file_retention_days : ℕ
max_file_retention_days = 365

abbrev pub min_text_retention_days : ℕ
min_text_retention_days = 1

abbrev pub max_text_retention_days : ℕ
max_text_retention_days = 730

abbrev pub day : ℕ
day = 86400000

abbrev pub of_workspace : String → WorkspaceSettings → Bool
of_workspace ws s = s.workspace_id == ws

-- A row as the repository creates it: given days, the column defaults for the rest.
abbrev pub new_settings :
    String → String → ℕ → ℕ → Option (List (String × ℕ)) → ℕ → WorkspaceSettings
new_settings id ws file text overrides threshold = record (default_row id ws) {
  default_file_retention_days = file;
  default_text_embeddings_retention_days = text;
  retention_overrides = overrides;
  fuzzy_match_threshold = threshold;
}

abbrev pub config_of : WorkspaceSettings → RetentionConfig
config_of s = record {
  default_file_retention_days = s.default_file_retention_days;
  default_text_embeddings_retention_days = s.default_text_embeddings_retention_days;
  retention_overrides = get_or s.retention_overrides [];
}

-- A value that is given and lies outside its limits.
abbrev pub out_of_range : ℕ → ℕ → Option ℕ → Bool
out_of_range low high none = false
out_of_range low high (some n) = ltb n low || ltb high n

abbrev pub some_or {ℓ} : {A : Type ℓ} → Option A → Option A → Option A
some_or none old = old
some_or (some a) old = some a

-- The fields of an existing row that an update gives.
abbrev pub apply_update : RetentionUpdate → WorkspaceSettings → WorkspaceSettings
apply_update u s = record s {
  default_file_retention_days = get_or u.default_file_retention_days s.default_file_retention_days;
  default_text_embeddings_retention_days =
      get_or u.default_text_embeddings_retention_days s.default_text_embeddings_retention_days;
  retention_overrides = some_or u.retention_overrides s.retention_overrides;
  fuzzy_match_threshold = get_or u.fuzzy_match_threshold s.fuzzy_match_threshold;
}

abbrev pub from_update : String → String → RetentionUpdate → WorkspaceSettings
from_update id ws u =
    new_settings id ws (get_or u.default_file_retention_days 30)
      (get_or u.default_text_embeddings_retention_days 90) u.retention_overrides
      (get_or u.fuzzy_match_threshold 70)

abbrev pub updated : WorkspaceSettings → Updated
updated s = record {
  config = config_of s;
  fuzzy_match_threshold = or_default (some s.fuzzy_match_threshold) 70;
}

module _ (S : Repository settings_key) where
  -- `id` is the key that the database gives to a row that the call creates.
  pub get_retention_config : String → String → S.Table → RetentionConfig × S.Table
  get_retention_config id ws t = elim (S.find_one (of_workspace ws) t) [
    | some s ↦ (config_of s, t)
    | none ↦ let s = new_settings id ws 30 90 none 70 in (config_of s, S.save s t)
  ]

  -- The second half of `updateRetentionConfig`, behind the checks of the days.
  pub store_update :
      String
      → String
      → RetentionUpdate
      → Option WorkspaceSettings
      → S.Table
      → Result Updated × S.Table
  store_update id ws u none t = let s = from_update id ws u in (ok (updated s), S.save s t)
  store_update id ws u (some old) t =
      if out_of_range 0 100 u.fuzzy_match_threshold
      then (err threshold_out_of_range, t)
      else let s = apply_update u old in (ok (updated s), S.save s t)

  pub update_retention_config :
      String → String → RetentionUpdate → S.Table → Result Updated × S.Table
  update_retention_config id ws u t =
      if out_of_range min_file_retention_days max_file_retention_days u.default_file_retention_days
      then (err file_days_out_of_range, t)
      else if out_of_range min_text_retention_days max_text_retention_days
          u.default_text_embeddings_retention_days
      then (err text_days_out_of_range, t)
      else store_update id ws u (S.find_one (of_workspace ws) t) t

  -- `calculateFileExpirationDate` and `calculateTextExpirationDate`.
  unfoldable pub file_expiration : String → String → ℕ → S.Table → ℕ × S.Table
  file_expiration id ws created t =
      let (c, t') = get_retention_config id ws t in
      (
        created
            + or_default (lookup "file" c.retention_overrides) c.default_file_retention_days * day,
        t',
      )

  pub text_expiration : String → String → ℕ → S.Table → ℕ × S.Table
  text_expiration id ws created t =
      let (c, t') = get_retention_config id ws t in
      (
        created
            + or_default (lookup "text" c.retention_overrides)
                c.default_text_embeddings_retention_days
              * day,
        t',
      )

  pub is_file_expired : String → String → ℕ → ℕ → S.Table → Bool × S.Table
  is_file_expired id ws created now t =
      let (e, t') = file_expiration id ws created t in (leb e now, t')

  pub is_text_expired : String → String → ℕ → ℕ → S.Table → Bool × S.Table
  is_text_expired id ws created now t =
      let (e, t') = text_expiration id ws created t in (leb e now, t')
