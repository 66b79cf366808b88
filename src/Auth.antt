-- ===== src/Auth.antt =====
-- apps/api/src/auth/auth.service.ts: registration, sign-in, the account and its deletion, over the
-- tables of the workspaces. Columns of preferences are left out.
pub mod Deletion
pub mod Effects
pub mod Sessions
mod Tests
use contractor_reviewer.Entities.{Role, owner, User, WorkspaceMember, member_key, user_key}
use contractor_reviewer.Workspace.{Runtime, Tables, Db, Fresh, is_owner, is_empty}
use contractor_reviewer.Workspace.Invitations.{normalize_email}
use contractor_reviewer.Repository.Loops.{remove_all}
use contractor_reviewer.Common.{
  String, Bool, true, false, not, ◌&&◌, List, Option, none, some, eqb, length, any, if◌then◌else◌,
  ◌==◌,
}
use Prim.Native.String.{◌++◌}

-- The exceptions, one for each `throw`.
pub data Error : Type 0 where
  email_taken invalid_credentials only_owner : Error

pub data Result (A : Type 0) : Type 0 where
  ok : A → Result A
  err : Error → Result A

-- What the service calls: bcrypt and MD5, the token that JwtService signs for an id and an e-mail
-- address, and whether AssetManagerService has an avatar of a user.
pub record Services : Type 0 where
  pub runtime : Runtime
  pub compare : (password hash : String) → Bool
  pub md5 : String → String
  pub sign : (sub email : String) → String
  pub has_avatar : String → Bool

pub record RegisterDto : Type 0 where
  pub email : String
  pub password : String
  pub name : Option String

-- A user as the API shows it, without the hash of the password.
pub record ApiUser : Type 0 where
  pub id : String
  pub email : String
  pub name : Option String
  pub avatar_url : String

-- What `register` and `login` return.
pub record Session : Type 0 where
  pub user : ApiUser
  pub access_token : String

pub record Account : Type 0 where
  pub user : ApiUser
  pub is_owner_in_any_workspace : Bool

module _ (S : Services) where
  abbrev get_gravatar_url : String → String
  get_gravatar_url email =
      "https://www.gravatar.com/avatar/"
      ++ (S.md5 (S.runtime.to_lower_case (S.runtime.trim email)) ++ "?s=200&d=identicon")

  abbrev pub serialize_user_with_avatar : User → ApiUser
  serialize_user_with_avatar u = record {
    id = u.id;
    email = u.email;
    name = u.name;
    avatar_url = if S.has_avatar u.id then "account/avatar" else get_gravatar_url u.email;
  }

  abbrev pub session : User → Session
  session u = record { user = serialize_user_with_avatar u; access_token = S.sign u.id u.email }

  module _ (T : Tables) where
    abbrev pub has_email : String → User → Bool
    has_email email u = u.email == email

    abbrev pub has_id : String → User → Bool
    has_id id u = u.id == id

    abbrev pub new_user : Fresh → RegisterDto → User
    new_user f dto = record {
      id = f.user_id;
      email = dto.email;
      name = dto.name;
      password_hash = S.runtime.hash dto.password;
      is_active = true;
    }

    unfoldable pub register : Fresh → RegisterDto → Db T → Result Session × Db T
    register f dto db = elim (T.users.find_one (has_email dto.email) db.users) [
      | some u ↦ (err email_taken, db)
      | none ↦
          let u = new_user f dto in (ok (session u), record db { users = T.users.save u db.users })
    ]

    -- Whether the user may sign in with the password.
    abbrev pub checked : String → Option User → Option User
    checked password none = none
    checked password (some u) =
        if not u.is_active
        then none
        else if S.compare password u.password_hash
        then some u
        else none

    unfoldable pub validate_user : Option String → String → Db T → Option User
    validate_user email password db =
        let normalized = normalize_email S.runtime T email in
        if is_empty normalized
        then none
        else checked password (T.users.find_one (has_email normalized) db.users)

    unfoldable pub login : Option String → String → Db T → Result Session
    login email password db = elim (validate_user email password db) [
      | none ↦ err invalid_credentials
      | some u ↦ ok (session u)
    ]

    abbrev pub owns : String → WorkspaceMember → Bool
    owns user m = m.user_id == user && is_owner m.role

    -- `exists({ where: { userId, role: OWNER } })`
    abbrev has_owner_role : String → Db T → Bool
    has_owner_role user db = elim (T.members.find_one (owns user) db.members) [
      | none ↦ false
      | some m ↦ true
    ]

    unfoldable pub get_account : String → Db T → Option Account
    get_account user db = elim (T.users.find_one (has_id user) db.users) [
      | none ↦ none
      | some u ↦
          if not u.is_active
          then none
          else some (record {
            user = serialize_user_with_avatar u;
            is_owner_in_any_workspace = has_owner_role user db;
          })
    ]

    unfoldable pub find_by_id : String → Db T → Option User
    find_by_id id db = T.users.find_one (has_id id) db.users

    abbrev pub owner_in : String → WorkspaceMember → Bool
    owner_in ws m = m.workspace_id == ws && is_owner m.role

    -- `ownersCount === 1`, counted for the workspace of the membership.
    abbrev pub is_only_owner : Db T → WorkspaceMember → Bool
    is_only_owner db m = eqb (length (T.members.find (owner_in m.workspace_id) db.members)) 1

    -- The user's memberships, as the relation `workspaceMemberships` loads them.
    abbrev pub memberships : String → Db T → List WorkspaceMember
    memberships user db = T.members.find (λ m. m.user_id == user) db.members

    abbrev pub deactivate : User → Db T → Db T
    deactivate u db = record db { users = T.users.save (record u { is_active = false }) db.users }

    -- `remove` on the memberships and then on the user. Rows of other tables that go with a user by
    -- ON DELETE CASCADE, such as the user's storage settings and onboarding, are not in `Tables`.
    abbrev pub remove_user : User → Db T → Db T
    remove_user u db = record db {
      members = remove_all member_key T.members (memberships u.id db) db.members;
      users = T.users.remove u db.users;
    }

    unfoldable pub delete_account : String → Db T → Result Bool × Db T
    delete_account user db = elim (T.users.find_one (has_id user) db.users) [
      | none ↦ (ok false, db)
      | some u ↦
          if any (is_only_owner db) (T.members.find (owns user) db.members)
          then (err only_owner, deactivate u db)
          else (ok true, remove_user u db)
    ]
