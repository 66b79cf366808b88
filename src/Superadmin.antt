-- ===== src/Superadmin.antt =====
-- apps/api/src/auth/superadmin.service.ts: the superadmin account that the application makes at its
-- start, and its ownership of every workspace.
pub mod Ownership
pub mod Account
mod Tests
use contractor_reviewer.Common.{
  ℕ, String, Bool, true, false, not, ◌&&◌, ◌||◌, List, [], ◌∷◌, Option, none, some, if◌then◌else◌,
  ◌==◌, get_or,
}
use contractor_reviewer.Repository.{Repository}
use contractor_reviewer.Entities.{owner, Workspace, WorkspaceMember, User}
use contractor_reviewer.Workspace.{
  Runtime, Tables, Db, Fresh, is_owner, is_empty, get_membership, new_member, save_member,
}

-- What the insert of the account comes to: it is stored; the database reports that the e-mail
-- address is taken, by another instance, whose tables are then the current ones; or it fails.
pub data Insert (T : Tables) : Type 0 where
  stored failed : Insert T
  taken : Db T → Insert T

-- The settings SUPERADMIN_ENABLED, SUPERADMIN_EMAIL, SUPERADMIN_PASSWORD and SUPERADMIN_NAME.
pub record Config : Type 0 where
  pub enabled : Option String
  pub email : Option String
  pub password : Option String
  pub name : Option String

pub data Outcome : Type 0 where
  disabled skipped done : Outcome
  thrown : Outcome

module _ (R : Runtime) (T : Tables) (f : String → Fresh) where
  -- One round of the loop; `f ws` are the id and the time that the database gives to a membership.
  pub ensure_owner : String → Workspace → Db T → Db T
  ensure_owner admin w db = elim (get_membership T w.id admin db) [
    | none ↦ save_member T (new_member T (f w.id) w.id admin owner) db
    | some m ↦ if is_owner m.role then db else save_member T (record m { role = owner }) db
  ]

  pub ensure_owners : String → List Workspace → Db T → Db T
  ensure_owners admin [] db = db
  ensure_owners admin (w ∷ ws) db = ensure_owners admin ws (ensure_owner admin w db)

  abbrev pub all_workspaces : Db T → List Workspace
  all_workspaces db = T.workspaces.find (λ w. true) db.workspaces

  pub ensure_superadmin_ownership : String → Db T → Db T
  ensure_superadmin_ownership admin db = ensure_owners admin (all_workspaces db) db

  abbrev pub by_email : String → User → Bool
  by_email email u = u.email == email

  abbrev pub synced : String → String → User → User
  synced name password u = record u {
    name = if is_empty name then u.name else some name;
    password_hash = R.hash password;
  }

  abbrev pub new_superadmin : String → String → String → String → User
  new_superadmin id email name password = record {
    id = id;
    email = email;
    name = some name;
    password_hash = R.hash password;
    is_active = true;
  }

  abbrev save_user : User → Db T → Db T
  save_user u db = record db { users = T.users.save u db.users }

  -- The account after the insert: `create`'s, or that of the instance that was faster.
  pub insert_superadmin : Insert T → User → Db T → Outcome × Db T
  insert_superadmin stored u db = (done, ensure_superadmin_ownership u.id (save_user u db))
  insert_superadmin failed u db = (thrown, db)
  insert_superadmin (taken db') u db = elim (T.users.find_one (by_email u.email) db'.users) [
    | none ↦ (thrown, db')
    | some v ↦ (done, ensure_superadmin_ownership v.id db')
  ]

  -- `id` is the id that the database gives to a new account.
  pub ensure_superadmin : Insert T → String → String → String → String → Db T → Outcome × Db T
  ensure_superadmin insert id email password name db =
      let normalized = R.to_lower_case (R.trim email) in
      elim (T.users.find_one (by_email normalized) db.users) [
        | some u ↦ (done, ensure_superadmin_ownership u.id (save_user (synced name password u) db))
        | none ↦ insert_superadmin insert (new_superadmin id normalized name password) db
      ]

  abbrev truthy : Option String → Option String
  truthy none = none
  truthy (some s) = if is_empty s then none else some s

  pub on_module_init : Insert T → String → Config → Db T → Outcome × Db T
  on_module_init insert id c db =
      if not (get_or c.enabled "true" == "true") then (disabled, db) else elim (truthy c.email) [
        | none ↦ (skipped, db)
        | some email ↦ elim (truthy c.password) [
          | none ↦ (skipped, db)
          | some password ↦
              ensure_superadmin insert id email password (get_or c.name "Super Admin") db
        ]
      ]
