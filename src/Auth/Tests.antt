-- ===== src/Auth/Tests.antt =====
-- Two owners of a workspace: one registers, one leaves.
use contractor_reviewer.Common.{
  String, true, false, ◌≡◌, refl, sym, ap, ◌∙◌, ◌≢◌, ◌⊎◌, inl, inr, arith, Option, none, some, [],
  ◌∷◌, Bool-cases, ◌==◌, if◌then◌else◌,
}
use contractor_reviewer.Repository.InMemory.{in_memory}
use contractor_reviewer.Repository.Lookup.{Has, IsUniqueFor}
use contractor_reviewer.Entities.{
  owner, viewer, User, Workspace, WorkspaceMember, workspace_key, member_key, settings_key,
  user_key,
}
use contractor_reviewer.Workspace.{Tables, Db, Fresh}
use contractor_reviewer.Workspace.Members.{IsUnique}
use contractor_reviewer.Workspace.Owners.{IsOwned}
use contractor_reviewer.Auth.{
  Services, RegisterDto, Session, ok, err, only_owner, invalid_credentials, validate_user,
  has_email, new_user, register, login, get_account, delete_account,
}
use contractor_reviewer.Auth.Sessions.{answer, login-register, delete_account-shut}
use contractor_reviewer.Auth.Effects.{delete_account-IsOwned}
use text.Mathlib.TextEquality.{eq_iff}

abbrev tables : Tables
tables = record {
  workspaces = in_memory workspace_key;
  members = in_memory member_key;
  settings = in_memory settings_key;
  users = in_memory user_key;
}

-- Only one address has capital letters.
abbrev to_lower_case : String → String
to_lower_case s = if s == "Cleo@shop" then "cleo@shop" else s

abbrev services : Services
services = record {
  runtime = record {
    trim = λ s. s;
    to_lower_case = to_lower_case;
    length = λ s. 8;
    sql_lower = to_lower_case;
    hash = λ s. s;
  };
  compare = λ password hash. password == hash;
  md5 = λ s. s;
  sign = λ sub email. sub;
  has_avatar = λ id. false;
}

abbrev anna : User
anna = record {
  id = "anna";
  email = "anna@shop";
  name = some "Anna";
  password_hash = "secret";
  is_active = true;
}

abbrev m1 : WorkspaceMember
m1 = record { id = "m1"; workspace_id = "w1"; user_id = "anna"; role = owner; joined_at = 1 }

abbrev m2 : WorkspaceMember
m2 = record { id = "m2"; workspace_id = "w1"; user_id = "ben"; role = owner; joined_at = 2 }

abbrev shop : Workspace
shop = record { id = "w1"; name = "Shop"; created_at = 1; updated_at = 1 }

abbrev start : Db tables
start = record { workspaces = shop ∷ []; members = m1 ∷ m2 ∷ []; settings = []; users = anna ∷ [] }

abbrev alone : Db tables
alone = record start { members = m1 ∷ [] }

abbrev fresh : Fresh
fresh = record {
  workspace_id = "w9";
  member_id = "m9";
  settings_id = "s9";
  user_id = "cleo";
  now = 9;
}

abbrev cleo : RegisterDto
cleo = record { email = "cleo@shop"; password = "open sesame"; name = none }

users-one : (a : User) → Has user_key tables.users start.users a → anna ≡ a
users-one a h = elim (Bool-cases ("anna" == a.id)) [
  | inl e ↦ ground arith
  | inr e ↦ absurd (ground arith)
]

emails_unique :
    (e : String) → IsUniqueFor user_key tables.users (has_email services tables e) start.users
emails_unique e a b ha hb pa pb = sym (users-one a ha) ∙ users-one b hb

login-register_example :
    login services tables
      (some "Cleo@shop")
      "open sesame"
      (register services tables fresh cleo start).1
    ≡ answer services tables "open sesame" (new_user services tables fresh cleo)
login-register_example =
    login-register services tables fresh cleo start (some "Cleo@shop") "open sesame" emails_unique
      refl refl

-- Who registers with a capital letter is not let in.
capital_refused :
    login services tables
      (some "Cleo@shop")
      "open sesame"
      (register services tables fresh (record cleo { email = "Cleo@shop" }) start).1
    ≡ err invalid_credentials
unfolding login validate_user register
capital_refused = refl

start-rows :
    (m : WorkspaceMember) → tables.members.at start.members m.id ≡ some m → (m1 ≡ m) ⊎ (m2 ≡ m)
start-rows m h = elim (Bool-cases ("m1" == m.id)) [
  | inl e ↦ inl (ground arith)
  | inr e ↦ elim (Bool-cases ("m2" == m.id)) [
    | inl f ↦ inr (ground arith)
    | inr f ↦ absurd (ground arith)
  ]
]

anna≢ben : m1.user_id ≢ m2.user_id
anna≢ben e = ground (arith, ap (λ x. x == "ben") e)

start-IsUnique : IsUnique tables.members start.members
start-IsUnique a b ha hb w u =
    let user = λ (x : WorkspaceMember). x.user_id in
    elim (start-rows a ha) [
      | inl e ↦ elim (start-rows b hb) [
        | inl f ↦ sym e ∙ f
        | inr f ↦ absurd (anna≢ben (ap user e ∙ u ∙ sym (ap user f)))
      ]
      | inr e ↦ elim (start-rows b hb) [
        | inl f ↦ absurd (anna≢ben (ap user f ∙ sym u ∙ sym (ap user e)))
        | inr f ↦ sym e ∙ f
      ]
    ]

start-IsOwned : IsOwned tables start
start-IsOwned w h = elim (Bool-cases ("w1" == w.id)) [
  | inl e ↦ (m1, refl, ground (arith, eq_iff "w1" w.id), refl)
  | inr e ↦ absurd (ground arith)
]

-- An owner beside another is deleted, the only owner is not.
deletes : (delete_account services tables "anna" start).0 ≡ ok true
unfolding delete_account
deletes = refl

refuses : (delete_account services tables "anna" alone).0 ≡ err only_owner
unfolding delete_account
refuses = refl

-- Anna owns no workspace.
abbrev as_viewer : WorkspaceMember
as_viewer = record m1 { role = viewer }

abbrev joined : Db tables
joined = record start { members = as_viewer ∷ [] }

delete_account-IsOwned_example : IsOwned tables (delete_account services tables "anna" start).1
delete_account-IsOwned_example =
    delete_account-IsOwned services tables "anna" start start-IsUnique start-IsOwned

delete_account-shut_example :
    ((email : Option String) (password : String) (s : Session)
      → login services tables email password (delete_account services tables "anna" alone).1 ≡ ok s
      → s.user.id ≢ "anna")
    × (get_account services tables "anna" (delete_account services tables "anna" alone).1 ≡ none)
delete_account-shut_example = delete_account-shut services tables "anna" alone
