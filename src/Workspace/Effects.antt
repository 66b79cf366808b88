-- ===== src/Workspace/Effects.antt =====
-- What a change of memberships does to the roles of all users in all workspaces.
use contractor_reviewer.Common.{
  Bool-cases, not, ◌||◌, ==_of_ne, String, true, ◌&&◌, ◌≡◌, sym, ap, ◌∙◌, ◌≢◌, inl, inr, arith,
  Option, none, some, Option-cases, ◌==◌, if◌then◌else◌,
}
use contractor_reviewer.Entities.{Role, WorkspaceMember}
use contractor_reviewer.Workspace.{
  Tables, Db, Fresh, ok, in_workspace, get_membership, get_user_role, is_owner, is_owner?,
  add_member, find_by_id, update_member_role, remove_member, new_member, save_member,
}
use contractor_reviewer.Workspace.Members.{Has, IsUnique, find_one_none, get_membership-Has, Has-eq}
use contractor_reviewer.Workspace.Rows.{
  Replaces, save-IsUnique, find_one-save, remove-IsUnique, find_one-remove,
}
use text.Mathlib.TextEquality.{eq_iff}

abbrev role_of : Option WorkspaceMember → Option Role
role_of none = none
role_of (some m) = some m.role

module _ (T : Tables) (db : Db T) (unique : IsUnique T.members db.members) where
  pub role_after_save :
      (r : WorkspaceMember) (ws user : String)
      → Replaces T.members db.members r
      → get_user_role T ws user (save_member T r db)
        ≡ (if in_workspace ws user r then some r.role else get_user_role T ws user db)
  unfolding get_user_role get_membership
  role_after_save r ws user rep =
      ground (arith, ap role_of (find_one-save T.members db.members unique r ws user rep))

  role_after_remove :
      (r : WorkspaceMember) (ws user : String)
      → Has T.members db.members r
      → get_user_role T ws user (record db { members = T.members.remove r db.members })
        ≡ (if in_workspace ws user r then none else get_user_role T ws user db)
  unfolding get_user_role get_membership
  role_after_remove r ws user h =
      ground (arith, ap role_of (find_one-remove T.members db.members unique r ws user h))

  pub Replaces-update :
      (m : WorkspaceMember) (role : Role)
      → Has T.members db.members m
      → Replaces T.members db.members (record m { role = role })
  Replaces-update m role h = record {
    same = λ x hx e.
        let mx = Has-eq T.members db.members m x h hx e in
        (
          sym (ap (λ (y : WorkspaceMember). y.workspace_id) mx),
          sym (ap (λ (y : WorkspaceMember). y.user_id) mx),
        );
    apart = λ x hx n w u. n (ap (λ (y : WorkspaceMember). y.id) (unique m x h hx (sym w) (sym u)));
  }

  update_inv :
      (ws user : String) (role : Role) (current : String) (m' : WorkspaceMember) (db' : Db T)
      → update_member_role T ws user role current db ≡ (ok m', db')
      → (m : WorkspaceMember) × (get_membership T ws user db ≡ some m)
        × (is_owner? (get_user_role T ws current db) ≡ true)
        × (user ≢ current)
        × (db' ≡ save_member T (record m { role = role }) db)
  unfolding update_member_role
  update_inv ws user role current m' db' e = elim (Option-cases (get_membership T ws user db)) [
    | inl n ↦ absurd (ground arith)
    | inr (m, n) ↦ (m, n, ground arith, ground (arith, eq_iff user current), ground arith)
  ]

  -- Where no two rows are for one user in one workspace: if `updateMemberRole` returns, the caller
  -- was an owner of the workspace and not the target, the target has the new role, every other
  -- user has the same role as before in every workspace, and the rows stay unique.
  pub update_member_role_lem :
      (ws user : String) (role : Role) (current : String) (m' : WorkspaceMember) (db' : Db T)
      → update_member_role T ws user role current db ≡ (ok m', db')
      → (is_owner? (get_user_role T ws current db) ≡ true)
        × (user ≢ current)
        × ((ws' user' : String)
            → get_user_role T ws' user' db'
              ≡ (if ws == ws' && user == user' then some role else get_user_role T ws' user' db))
        × IsUnique T.members db'.members
  update_member_role_lem ws user role current m' db' e =
      let (m, n, o, ne, s) = update_inv ws user role current m' db' e in
      let (h, w, u) = get_membership-Has T ws user db m n in
      let rep = Replaces-update m role h in
      (
        o,
        ne,
        λ ws' user'. rw (s, ← w, ← u) (role_after_save (record m { role = role }) ws' user' rep),
        rw s (save-IsUnique T.members db.members unique (record m { role = role }) rep),
      )

  add_inv :
      (f : Fresh) (ws user : String) (role : Role) (m : WorkspaceMember) (db' : Db T)
      → add_member T f ws user role db ≡ (ok m, db')
      → (get_membership T ws user db ≡ none)
        × (db' ≡ save_member T (new_member T f ws user role) db)
  unfolding add_member find_by_id
  add_inv f ws user role m db' e =
      elim (Option-cases (T.workspaces.find_one (λ w. w.id == ws) db.workspaces)) [
        | inl n ↦ absurd (ground arith)
        | inr (w, n) ↦ elim (Option-cases (get_membership T ws user db)) [
          | inl k ↦ (k, ground arith)
          | inr (x, k) ↦ absurd (ground arith)
        ]
      ]

  pub Replaces-insert :
      (f : Fresh) (ws user : String) (role : Role)
      → T.members.at db.members f.member_id ≡ none
      → get_membership T ws user db ≡ none
      → Replaces T.members db.members (new_member T f ws user role)
  unfolding get_membership
  Replaces-insert f ws user role fresh n = record {
    same = λ x hx e. absurd (ground (arith, sym fresh ∙ ap (T.members.at db.members) e ∙ hx));
    apart = λ x hx ne w. find_one_none T.members db.members ws user x n hx w;
  }

  -- Where rows are unique and the new row's id is unused: if `addMember` returns, the user had no
  -- role in the workspace and has the given one, every other user has the same role as before in
  -- every workspace, and the rows stay unique.
  pub add_member_lem :
      (f : Fresh) (ws user : String) (role : Role) (m : WorkspaceMember) (db' : Db T)
      → T.members.at db.members f.member_id ≡ none
      → add_member T f ws user role db ≡ (ok m, db')
      → (get_membership T ws user db ≡ none)
        × ((ws' user' : String)
            → get_user_role T ws' user' db'
              ≡ (if ws == ws' && user == user' then some role else get_user_role T ws' user' db))
        × IsUnique T.members db'.members
  add_member_lem f ws user role m db' fresh e =
      let (n, s) = add_inv f ws user role m db' e in
      let rep = Replaces-insert f ws user role fresh n in
      (
        n,
        λ ws' user'. rw s (role_after_save (new_member T f ws user role) ws' user' rep),
        rw s (save-IsUnique T.members db.members unique (new_member T f ws user role) rep),
      )

  remove_inv :
      (ws user current : String) (db' : Db T)
      → remove_member T ws user current db ≡ (ok tt, db')
      → (m : WorkspaceMember) × (get_membership T ws user db ≡ some m)
        × (is_owner m.role ≡ true → is_owner? (get_user_role T ws current db) ≡ true)
        × (is_owner m.role ≡ true → user ≢ current)
        × (db' ≡ record db { members = T.members.remove m db.members })
  unfolding remove_member
  remove_inv ws user current db' e = elim (Option-cases (get_membership T ws user db)) [
    | inl n ↦ absurd (ground arith)
    | inr (m, n) ↦ (m, n, λ o. ground arith, λ o. ground (arith, eq_iff user current), ground arith)
  ]

  -- Where rows are unique: if `removeMember` returns, the user was a member, and an owner was
  -- removed only by another owner; the user has no role in the workspace any more, every other
  -- role is as before, and the rows stay unique.
  pub remove_member_lem :
      (ws user current : String) (db' : Db T)
      → remove_member T ws user current db ≡ (ok tt, db')
      → (r : Role) × (get_user_role T ws user db ≡ some r)
        × ((not (is_owner r) || is_owner? (get_user_role T ws current db) && not (user == current))
            ≡ true)
        × ((ws' user' : String)
            → get_user_role T ws' user' db'
              ≡ (if ws == ws' && user == user' then none else get_user_role T ws' user' db))
        × IsUnique T.members db'.members
  unfolding get_user_role
  remove_member_lem ws user current db' e =
      let (m, n, o, ne, s) = remove_inv ws user current db' e in
      let (h, w, u) = get_membership-Has T ws user db m n in
      (
        m.role,
        ground arith,
        elim (Bool-cases (is_owner m.role)) [
          | inr b ↦ ground arith
          | inl b ↦ ground (arith, o b, ==_of_ne user current (ne b))
        ],
        λ ws' user'. rw (s, ← w, ← u) (role_after_remove m ws' user' h),
        rw s (remove-IsUnique T.members db.members unique m),
      )
