-- ===== src/Superadmin/Tests.antt =====
-- The account's first start in a database with one workspace.
use contractor_reviewer.Common.{String, arith, [], ◌∷◌}
use contractor_reviewer.Repository.InMemory.{in_memory}
use contractor_reviewer.Entities.{workspace_key, member_key, settings_key, user_key}
use contractor_reviewer.Workspace.{Tables, Db, Runtime, Fresh}
use contractor_reviewer.Superadmin.{ensure_superadmin_ownership, all_workspaces}
use contractor_reviewer.Superadmin.Ownership.{IsReady, Owns, ensure_superadmin_ownership_lem}

abbrev tables : Tables
tables = record {
  workspaces = in_memory workspace_key;
  members = in_memory member_key;
  settings = in_memory settings_key;
  users = in_memory user_key;
}

abbrev runtime : Runtime
runtime = record {
  trim = λ s. s;
  to_lower_case = λ s. s;
  length = λ s. 8;
  sql_lower = λ s. s;
  hash = λ s. s;
}

-- The id of a new membership is that of the workspace.
abbrev fresh : String → Fresh
fresh ws = record { workspace_id = ""; member_id = ws; settings_id = ""; user_id = ""; now = 9 }

abbrev first_start : Db tables
first_start = record {
  workspaces = record { id = "w1"; name = "Shop"; created_at = 1; updated_at = 1 } ∷ [];
  members = [];
  settings = [];
  users = [];
}

ready : (superadmin : String) → IsReady runtime tables fresh superadmin first_start.members
ready superadmin = record {
  unique = λ a b ha hb w u. absurd (ground (arith, ha));
  own = λ ws m h. absurd (ground (arith, h));
}

ensure_superadmin_ownership_example :
    Owns runtime tables fresh "u1"
      (all_workspaces runtime tables fresh first_start)
      first_start
      (ensure_superadmin_ownership runtime tables fresh "u1" first_start)
    × IsReady runtime tables fresh "u1"
        (ensure_superadmin_ownership runtime tables fresh "u1" first_start).members
ensure_superadmin_ownership_example =
    ensure_superadmin_ownership_lem runtime tables fresh "u1" (λ a b e. e) first_start (ready "u1")
