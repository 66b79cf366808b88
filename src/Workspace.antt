-- ===== src/Workspace.antt =====
-- apps/api/src/workspace/workspace.service.ts, with the two methods of
-- apps/api/src/auth/auth.service.ts that an invitation calls. A call may throw after it has
-- written, so it returns the tables beside its result or exception.
pub mod Roles
pub mod Owners
pub mod Invitations
pub mod Calls
pub mod Rows
pub mod Effects
pub mod Access
pub mod Members
pub mod Listings
mod Tests
use contractor_reviewer.Repository.{Repository}
use contractor_reviewer.Entities.{
  default_row, Role, owner, admin, member, viewer, Workspace, WorkspaceMember, User,
  WorkspaceSettings, workspace_key, member_key, user_key, settings_key,
}
use contractor_reviewer.Common.{
  ℕ, String, Bool, true, false, not, ◌&&◌, ◌||◌, List, Option, none, some, ltb, leb, if◌then◌else◌,
  ◌==◌, any,
}

-- The exceptions, one for each `throw`.
pub data Error : Type 0 where
  workspace_not_found member_not_found : Error
  not_a_member lacks_role already_member only_owner_updates own_role : Error
  owner_removes_self only_owner_removes_owner only_owner_deletes : Error
  email_required name_required password_required : Error
  email_taken : Error

-- The HTTP status of the exception's class.
abbrev pub status : Error → ℕ
status workspace_not_found = 404
status member_not_found = 404
status email_required = 400
status name_required = 400
status password_required = 400
status email_taken = 409
status _ = 403

pub data Result (A : Type 0) : Type 0 where
  ok : A → Result A
  err : Error → Result A

-- What the services call and do not implement: strings of the runtime, `LOWER` of the database,
-- and bcrypt.
pub record Runtime : Type 0 where
  pub trim : String → String
  pub to_lower_case : String → String
  pub length : String → ℕ
  pub sql_lower : String → String
  pub hash : String → String

pub record Tables : Type 1 where
  pub workspaces : Repository workspace_key
  pub members : Repository member_key
  pub settings : Repository settings_key
  pub users : Repository user_key

pub record Db (T : Tables) : Type 0 where
  pub workspaces : T.workspaces.Table
  pub members : T.members.Table
  pub settings : T.settings.Table
  pub users : T.users.Table

-- `roleHierarchy`
abbrev pub role_hierarchy : Role → ℕ
role_hierarchy owner = 4
role_hierarchy admin = 3
role_hierarchy member = 2
role_hierarchy viewer = 1

abbrev pub is_owner : Role → Bool
is_owner owner = true
is_owner _ = false

abbrev pub is_owner? : Option Role → Bool
is_owner? none = false
is_owner? (some r) = is_owner r

-- The rows that a `where` clause on workspace and user selects.
abbrev pub in_workspace : String → String → WorkspaceMember → Bool
in_workspace ws user m = m.workspace_id == ws && m.user_id == user

abbrev pub is_empty : String → Bool
is_empty s = s == ""

-- What an insert takes from the database and the clock.
pub record Fresh : Type 0 where
  pub workspace_id : String
  pub member_id : String
  pub settings_id : String
  pub user_id : String
  pub now : ℕ

pub record InviteDto : Type 0 where
  pub email : Option String
  pub name : Option String
  pub password : Option String
  pub role : Role

abbrev pub trimmed : (String → String) → Option String → String
trimmed trim none = ""
trimmed trim (some s) = trim s

module _ (T : Tables) where
  abbrev pub M : Type 0 → Type 0
  M A = Db T → Result A × Db T

  abbrev pub throw : {A : Type 0} → Error → M A
  throw e db = (err e, db)

  abbrev pub return : {A : Type 0} → A → M A
  return a db = (ok a, db)

  -- `await m`, then the rest of the body.
  abbrev pub and_then : {A B : Type 0} → Result A × Db T → (A → M B) → Result B × Db T
  and_then (ok a, db) f = f a db
  and_then (err e, db) f = (err e, db)

  abbrev pub or_throw : {A : Type 0} → Option A → Error → M A
  or_throw none e db = (err e, db)
  or_throw (some a) e db = (ok a, db)

  pub find_by_id : String → M Workspace
  find_by_id ws db =
      or_throw (T.workspaces.find_one (λ w. w.id == ws) db.workspaces) workspace_not_found db

  unfoldable pub get_membership : String → String → Db T → Option WorkspaceMember
  get_membership ws user db = T.members.find_one (in_workspace ws user) db.members

  pub is_member : String → String → Db T → Bool
  is_member ws user db = elim (get_membership ws user db) [ none ↦ false | some m ↦ true ]

  unfoldable pub get_user_role : String → String → Db T → Option Role
  get_user_role ws user db = elim (get_membership ws user db) [ none ↦ none | some m ↦ some m.role ]

  pub has_required_role : String → String → Role → Db T → Bool
  has_required_role ws user required db = elim (get_user_role ws user db) [
    | none ↦ false
    | some r ↦ leb (role_hierarchy required) (role_hierarchy r)
  ]

  pub has_any_role : String → String → List Role → Db T → Bool
  has_any_role ws user required db = elim (get_user_role ws user db) [
    | none ↦ false
    | some r ↦ any (λ q. leb (role_hierarchy q) (role_hierarchy r)) required
  ]

  pub verify_membership : String → String → M WorkspaceMember
  verify_membership ws user db = or_throw (get_membership ws user db) not_a_member db

  pub verify_role : String → String → Role → M WorkspaceMember
  verify_role ws user required db =
      and_then (verify_membership ws user db) λ m db'.
        if has_required_role ws user required db' then (ok m, db') else (err lacks_role, db')

  abbrev pub new_member : Fresh → String → String → Role → WorkspaceMember
  new_member f ws user role = record {
    id = f.member_id;
    workspace_id = ws;
    user_id = user;
    role = role;
    joined_at = f.now;
  }

  abbrev pub save_member : WorkspaceMember → Db T → Db T
  save_member m db = record db { members = T.members.save m db.members }

  pub add_member : Fresh → String → String → Role → M WorkspaceMember
  add_member f ws user role db = and_then (find_by_id ws db) λ w db'.
      elim (get_membership ws user db') [
        | some m ↦ (err already_member, db')
        | none ↦ let m = new_member f ws user role in (ok m, save_member m db')
      ]

  abbrev default_settings : Fresh → String → WorkspaceSettings
  default_settings f ws = default_row f.settings_id ws

  abbrev reloaded_or : Option Workspace → Workspace → Workspace
  reloaded_or none w = w
  reloaded_or (some w') w = w'

  pub create : Fresh → String → String → M Workspace
  create f name creator db =
      let w : Workspace = record {
        id = f.workspace_id;
        name = name;
        created_at = f.now;
        updated_at = f.now;
      } in
      let db₁ : Db T = record db { workspaces = T.workspaces.save w db.workspaces } in
      let db₂ : Db T = save_member (new_member f w.id creator owner) db₁ in
      let db₃ : Db T = record db₂ {
        settings = T.settings.save (default_settings f w.id) db₂.settings;
      } in
      (ok (reloaded_or (T.workspaces.find_one (λ x. x.id == w.id) db₃.workspaces) w), db₃)

  -- `save` of a changed row sets its `updatedAt`.
  pub update_name : ℕ → String → String → M Workspace
  update_name now ws name db = and_then (find_by_id ws db) λ w db'.
      let w' : Workspace = record w { name = name; updated_at = now } in
      (ok w', record db' { workspaces = T.workspaces.save w' db'.workspaces })

  pub update_member_role : String → String → Role → String → M WorkspaceMember
  update_member_role ws user new_role current db =
      and_then (or_throw (get_membership ws user db) member_not_found db) λ m db'.
        if not (is_owner? (get_user_role ws current db'))
        then (err only_owner_updates, db')
        else if user == current
        then (err own_role, db')
        else let m' : WorkspaceMember = record m { role = new_role } in (ok m', save_member m' db')

  pub remove_member : String → String → String → M (Unit {0})
  remove_member ws user current db =
      and_then (or_throw (get_membership ws user db) member_not_found db) λ m db'.
        if user == current && is_owner m.role
        then (err owner_removes_self, db')
        else if is_owner m.role && not (is_owner? (get_user_role ws current db'))
        then (err only_owner_removes_owner, db')
        else (ok tt, record db' { members = T.members.remove m db'.members })

  -- `remove` on a workspace, with the ON DELETE CASCADE of its members and its settings.
  abbrev pub cascade : Workspace → Db T → Db T
  cascade w db = record db {
    workspaces = T.workspaces.remove w db.workspaces;
    members = T.members.delete (λ m. m.workspace_id == w.id) db.members;
    settings = T.settings.delete (λ s. s.workspace_id == w.id) db.settings;
  }

  pub delete : String → String → M Bool
  delete ws user db =
      if not (is_owner? (get_user_role ws user db))
      then (err only_owner_deletes, db)
      else elim (T.workspaces.find_one (λ w. w.id == ws) db.workspaces) [
        | none ↦ (ok false, db)
        | some w ↦ (ok true, cascade w db)
      ]
