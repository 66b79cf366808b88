-- ===== src/Workspace/Tests.antt =====
-- The service at work on a workspace with an owner and a member.
use contractor_reviewer.Common.{
  not, ◌||◌, String, true, ◌≡◌, refl, sym, ap, ◌∙◌, ◌≢◌, ◌⊎◌, ◌&&◌, inl, inr, arith, none, some, [],
  ◌∷◌, Bool-cases, ◌==◌, if◌then◌else◌,
}
use text.Mathlib.TextEquality.{eq_iff}
use contractor_reviewer.Repository.InMemory.{in_memory}
use contractor_reviewer.Entities.{
  Role, owner, admin, member, viewer, Workspace, WorkspaceMember, workspace_key, member_key,
  settings_key, user_key,
}
use contractor_reviewer.Workspace.{
  is_owner, Tables, Db, Runtime, Fresh, ok, err, find_by_id, get_user_role, get_membership,
  is_owner?, update_member_role, add_member, remove_member, only_owner_updates, owner_removes_self,
}
use contractor_reviewer.Workspace.Members.{Has, IsUnique}
use contractor_reviewer.Workspace.Owners.{OwnedIn, IsOwned}
use contractor_reviewer.Workspace.Calls.{
  updates_role, adds, removes, step, here, next, Reach-IsOwned,
}
use contractor_reviewer.Workspace.Effects.{
  update_member_role_lem, add_member_lem, remove_member_lem,
}
use contractor_reviewer.Workspace.Access.{
  Request, guards, guards_lem, allows, workspace_exists, may_pass,
}

abbrev tables : Tables
tables = record {
  workspaces = in_memory workspace_key;
  members = in_memory member_key;
  settings = in_memory settings_key;
  users = in_memory user_key;
}

abbrev runtime : Runtime
runtime = record {
  trim = λ s. s;
  to_lower_case = λ s. s;
  length = λ s. 8;
  sql_lower = λ s. s;
  hash = λ s. s;
}

abbrev shop : Workspace
shop = record { id = "w1"; name = "Shop"; created_at = 1; updated_at = 1 }

abbrev anna : WorkspaceMember
anna = record { id = "m1"; workspace_id = "w1"; user_id = "anna"; role = owner; joined_at = 1 }

abbrev ben : WorkspaceMember
ben = record { id = "m2"; workspace_id = "w1"; user_id = "ben"; role = member; joined_at = 2 }

abbrev start : Db tables
start = record { workspaces = shop ∷ []; members = anna ∷ ben ∷ []; settings = []; users = [] }

abbrev fresh : Fresh
fresh = record {
  workspace_id = "w9";
  member_id = "m9";
  settings_id = "s9";
  user_id = "u9";
  now = 9;
}

start-rows : (m : WorkspaceMember) → Has tables.members start.members m → (anna ≡ m) ⊎ (ben ≡ m)
start-rows m h = elim (Bool-cases ("m1" == m.id)) [
  | inl e ↦ inl (ground arith)
  | inr e ↦ elim (Bool-cases ("m2" == m.id)) [
    | inl f ↦ inr (ground arith)
    | inr f ↦ absurd (ground arith)
  ]
]

anna≢ben : anna.user_id ≢ ben.user_id
anna≢ben e = ground (arith, ap (λ x. x == "ben") e)

start-IsUnique : IsUnique tables.members start.members
start-IsUnique a b ha hb w u =
    let user = λ (x : WorkspaceMember). x.user_id in
    elim (start-rows a ha) [
      | inl e ↦ elim (start-rows b hb) [
        | inl f ↦ sym e ∙ f
        | inr f ↦ absurd (anna≢ben (ap user e ∙ u ∙ sym (ap user f)))
      ]
      | inr e ↦ elim (start-rows b hb) [
        | inl f ↦ absurd (anna≢ben (ap user f ∙ sym u ∙ sym (ap user e)))
        | inr f ↦ sym e ∙ f
      ]
    ]

start-IsOwned : IsOwned tables start
start-IsOwned w h = elim (Bool-cases ("w1" == w.id)) [
  | inl e ↦ (anna, refl, ground (arith, eq_iff "w1" w.id), refl)
  | inr e ↦ absurd (ground arith)
]

-- A member promotes nobody; the owner promotes another member.
update_refused :
    (update_member_role tables "w1" "anna" admin "ben" start).0 ≡ err only_owner_updates
unfolding update_member_role get_membership get_user_role
update_refused = refl

owner_stays : (remove_member tables "w1" "anna" "anna" start).0 ≡ err owner_removes_self
unfolding remove_member get_membership get_user_role
owner_stays = refl

abbrev promoted : Db tables
promoted = record start { members = record ben { role = admin } ∷ anna ∷ ben ∷ [] }

promotes :
    update_member_role tables "w1" "ben" admin "anna" start
    ≡ (ok (record ben { role = admin }), promoted)
unfolding update_member_role get_membership get_user_role
promotes = refl

-- Cara joins, Ben is promoted, and Anna's attempt to leave fails: the shop still has an owner.
Reach-IsOwned_example :
    OwnedIn tables.members
      (step runtime tables (removes "w1" "anna" "anna") (
        step runtime tables
          (updates_role "w1" "ben" admin "anna")
          (step runtime tables (adds fresh "w1" "cara" viewer) start))).members
      "w1"
unfolding step remove_member update_member_role add_member get_membership get_user_role find_by_id
Reach-IsOwned_example =
    Reach-IsOwned runtime tables {db = start} start-IsOwned
      (next (removes "w1" "anna" "anna")
        (next (updates_role "w1" "ben" admin "anna")
          (next (adds fresh "w1" "cara" viewer) here refl) tt)
        tt)
      shop refl

update_member_role_example :
    (is_owner? (get_user_role tables "w1" "anna" start) ≡ true)
    × (ben.user_id ≢ anna.user_id)
    × ((ws user : String)
        → get_user_role tables ws user promoted ≡ (
            if "w1" == ws && "ben" == user then some admin else get_user_role tables ws user start))
    × IsUnique tables.members promoted.members
update_member_role_example =
    update_member_role_lem tables start start-IsUnique "w1" "ben" admin "anna"
      (record ben { role = admin }) promoted promotes

abbrev cara : WorkspaceMember
cara = record { id = "m9"; workspace_id = "w1"; user_id = "cara"; role = viewer; joined_at = 9 }

joins :
    add_member tables fresh "w1" "cara" viewer start
    ≡ (ok cara, record start { members = cara ∷ anna ∷ ben ∷ [] })
unfolding add_member find_by_id get_membership
joins = refl

add_member_example :
    (get_membership tables "w1" "cara" start ≡ none)
    × ((ws user : String)
        → get_user_role tables ws user (record start { members = cara ∷ anna ∷ ben ∷ [] }) ≡ (
            if "w1" == ws && "cara" == user
            then some viewer
            else get_user_role tables ws user start))
    × IsUnique tables.members (cara ∷ anna ∷ ben ∷ [])
add_member_example =
    add_member_lem tables start start-IsUnique fresh "w1" "cara" viewer cara
      (record start { members = cara ∷ anna ∷ ben ∷ [] }) refl joins

leaves : remove_member tables "w1" "ben" "ben" start ≡ (ok tt, record start { members = anna ∷ [] })
unfolding remove_member get_membership get_user_role
leaves = refl

remove_member_example :
    (r : Role) × (get_user_role tables "w1" "ben" start ≡ some r)
    × ((not (is_owner r)
          || is_owner? (get_user_role tables "w1" "ben" start) && not (ben.user_id == ben.user_id))
        ≡ true)
    × ((ws user : String)
        → get_user_role tables ws user (record start { members = anna ∷ [] })
          ≡ (if "w1" == ws && "ben" == user then none else get_user_role tables ws user start))
    × IsUnique tables.members (anna ∷ [])
remove_member_example =
    remove_member_lem tables start start-IsUnique "w1" "ben" "ben"
      (record start { members = anna ∷ [] }) leaves

abbrev request : Request
request = record {
  params_workspace_id = some "w1";
  params_id = none;
  user_id = some "ben";
  workspace_id = none;
  workspace_membership = none;
}

guards_example :
    allows tables start (guards tables start (some (admin ∷ [])) request)
    ≡ (workspace_exists tables start "w1" && may_pass tables start (some (admin ∷ [])) "w1" "ben")
guards_example = guards_lem tables start (some (admin ∷ [])) request "w1" "ben" refl refl
