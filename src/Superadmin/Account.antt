-- ===== src/Superadmin/Account.antt =====
-- `ensureSuperadmin`: the account after it.
use contractor_reviewer.Common.{
  String, ◌≡◌, refl, ap, ◌∙◌, inl, inr, List, [], ◌∷◌, some, Option-cases, Bool-cases,
}
use contractor_reviewer.Repository.Lookup.{Has-save_self}
use contractor_reviewer.Entities.{Workspace, User, user_key}
use contractor_reviewer.Workspace.{
  Runtime, Tables, Db, Fresh, is_owner, get_membership, get_user_role,
}
use contractor_reviewer.Superadmin.{
  stored, done, ensure_owner, ensure_owners, ensure_superadmin_ownership, ensure_superadmin,
  insert_superadmin, by_email, synced, new_superadmin, all_workspaces,
}
use contractor_reviewer.Superadmin.Ownership.{IsReady, Owns, ensure_superadmin_ownership_lem}
use text.Mathlib.TextEquality.{eq_iff}

module _ (R : Runtime) (T : Tables) (f : String → Fresh) where
  ensure_owner-users :
      (admin : String) (w : Workspace) (db : Db T)
      → (ensure_owner R T f admin w db).users ≡ db.users
  unfolding ensure_owner
  ensure_owner-users admin w db = elim (Option-cases (get_membership T w.id admin db)) [
    | inl n ↦ rw (n, ensure_owner) refl
    | inr (m, n) ↦ elim (Bool-cases (is_owner m.role)) [
      | inl o ↦ rw (n, o, ensure_owner) refl
      | inr o ↦ rw (n, o, ensure_owner) refl
    ]
  ]

  ensure_owners-users :
      (admin : String) (l : List Workspace) (db : Db T)
      → (ensure_owners R T f admin l db).users ≡ db.users
  unfolding ensure_owners
  ensure_owners-users admin [] db = refl
  ensure_owners-users admin (w ∷ l) db =
      ensure_owners-users admin l (ensure_owner R T f admin w db) ∙ ensure_owner-users admin w db

  -- The account has the configured e-mail address and password.
  pub record IsAccount (email password : String) (db : Db T) (u : User) : Type 0 where
    pub has : T.users.at db.users u.id ≡ some u
    pub has_email : u.email ≡ R.to_lower_case (R.trim email)
    pub has_password : u.password_hash ≡ R.hash password

  saved-IsAccount :
      (email password : String) (u : User) (db : Db T)
      → u.email ≡ R.to_lower_case (R.trim email)
      → u.password_hash ≡ R.hash password
      → IsAccount email password
          (ensure_superadmin_ownership R T f u.id (record db { users = T.users.save u db.users }))
          u
  unfolding ensure_superadmin_ownership
  saved-IsAccount email password u db e p =
      let db' : Db T = record db { users = T.users.save u db.users } in
      record {
        has =
            ap (λ t. T.users.at t u.id) (ensure_owners-users u.id (all_workspaces R T f db') db')
            ∙ Has-save_self user_key T.users db.users u;
        has_email = e;
        has_password = p;
      }

  -- Whether the account exists or is stored now: `ensureSuperadmin` returns, an account with the
  -- configured e-mail address and password is stored, and if the memberships are unique and the ids
  -- for new ones unused, it is an owner of every workspace.
  pub ensure_superadmin_lem :
      (id email password name : String) (db : Db T)
      → ((ws ws' : String) → (f ws).member_id ≡ (f ws').member_id → ws ≡ ws')
      → ((superadmin : String) → IsReady R T f superadmin db.members)
      → ((ensure_superadmin R T f stored id email password name db).0 ≡ done)
        × ((u : User) × IsAccount email password
              (ensure_superadmin R T f stored id email password name db).1
              u
            × Owns R T f u.id
                (all_workspaces R T f db)
                db
                (ensure_superadmin R T f stored id email password name db).1)
  unfolding ensure_superadmin insert_superadmin get_user_role get_membership
  ensure_superadmin_lem id email password name db inj ready =
      let normalized = R.to_lower_case (R.trim email) in
      elim (Option-cases (T.users.find_one (by_email R T f normalized) db.users)) [
        | inl n ↦
            let u = new_superadmin R T f id normalized name password in
            rw (n, ensure_superadmin)
              (
                refl,
                (
                  u,
                  saved-IsAccount email password u db refl refl,
                  (ensure_superadmin_ownership_lem R T f u.id inj
                      (record db { users = T.users.save u db.users }) (ready u.id)).0,
                ),
              )
        | inr (v, n) ↦
            let u = synced R T f name password v in
            let (h, q) = T.users.find_one_sound (by_email R T f normalized) db.users v n in
            rw (n, ensure_superadmin)
              (
                refl,
                (
                  u,
                  saved-IsAccount email password u db ((eq_iff v.email normalized).0 q) refl,
                  (ensure_superadmin_ownership_lem R T f u.id inj
                      (record db { users = T.users.save u db.users }) (ready u.id)).0,
                ),
              )
      ]
