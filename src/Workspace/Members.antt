-- ===== src/Workspace/Members.antt =====
-- Looking members up, and what a change of a role does to the roles of all.
use contractor_reviewer.Common.{
  String, true, ◌≡◌, sym, ap, ◌∙◌, ◌≢◌, inl, inr, arith, none, some, Option-cases,
}
use contractor_reviewer.Repository.{Repository}
use contractor_reviewer.Entities.{owner, WorkspaceMember, member_key}
use contractor_reviewer.Workspace.{
  Tables, Db, in_workspace, get_membership, get_user_role, is_owner?,
}
use text.Mathlib.TextEquality.{eq_iff}

module _ (N : Repository member_key) where
  -- The row is in the table.
  abbrev pub Has : N.Table → WorkspaceMember → Type 0
  Has t m = N.at t m.id ≡ some m

  -- No two rows for one user in one workspace: the table's unique constraint.
  abbrev pub IsUnique : N.Table → Type 0
  IsUnique t =
      (a b : WorkspaceMember)
      → Has t a
      → Has t b
      → a.workspace_id ≡ b.workspace_id
      → a.user_id ≡ b.user_id
      → a ≡ b

  pub find_one_Has :
      (t : N.Table) (ws user : String) (m : WorkspaceMember)
      → N.find_one (in_workspace ws user) t ≡ some m
      → Has t m × (m.workspace_id ≡ ws) × (m.user_id ≡ user)
  find_one_Has t ws user m e =
      let (h, p) = N.find_one_sound (in_workspace ws user) t m e in
      (h, ground (arith, eq_iff m.workspace_id ws), ground (arith, eq_iff m.user_id user))

  pub find_one_none :
      (t : N.Table) (ws user : String) (m : WorkspaceMember)
      → N.find_one (in_workspace ws user) t ≡ none
      → Has t m
      → m.workspace_id ≡ ws
      → m.user_id ≢ user
  find_one_none t ws user m e h w u = ground (
    arith,
    N.find_one_complete (in_workspace ws user) t m.id m e h,
    eq_iff m.workspace_id ws,
    eq_iff m.user_id user,
  )

  -- In a table with unique rows the row that `findOne` selects is determined.
  pub find_one_unique :
      (t : N.Table) (ws user : String) (m : WorkspaceMember)
      → IsUnique t
      → Has t m
      → m.workspace_id ≡ ws
      → m.user_id ≡ user
      → N.find_one (in_workspace ws user) t ≡ some m
  find_one_unique t ws user m unique h w u =
      elim (Option-cases (N.find_one (in_workspace ws user) t)) [
        | inl e ↦ absurd (find_one_none t ws user m e h w u)
        | inr (r, e) ↦
            let (hr, wr, ur) = find_one_Has t ws user r e in
            e ∙ ap some (unique r m hr h (wr ∙ sym w) (ur ∙ sym u))
      ]

  -- A row that is not the one written is in the table after the write exactly if it was before.
  pub Has-save_ne :
      (t : N.Table) (r m : WorkspaceMember) → r.id ≢ m.id → N.at (N.save r t) m.id ≡ N.at t m.id
  Has-save_ne t r m h = ground (arith, N.at-save r t m.id, eq_iff r.id m.id)

  pub Has-save_self : (t : N.Table) (r : WorkspaceMember) → Has (N.save r t) r
  Has-save_self t r = ground (arith, N.at-save r t r.id, eq_iff r.id r.id)

  pub Has-remove_ne :
      (t : N.Table) (r m : WorkspaceMember) → r.id ≢ m.id → N.at (N.remove r t) m.id ≡ N.at t m.id
  Has-remove_ne t r m h = ground (arith, N.at-remove r t m.id, eq_iff r.id m.id)

  pub Has-remove_self : (t : N.Table) (r m : WorkspaceMember) → r.id ≡ m.id → ¬ Has (N.remove r t) m
  Has-remove_self t r m h g = ground (arith, N.at-remove r t m.id, eq_iff r.id m.id)

  -- A row under the key of a written row is the written row.
  pub Has-save_eq : (t : N.Table) (r m : WorkspaceMember) → r.id ≡ m.id → Has (N.save r t) m → r ≡ m
  Has-save_eq t r m h g = ground (arith, N.at-save r t m.id, eq_iff r.id m.id)

  pub Has-ne_of_user :
      (t : N.Table) (a b : WorkspaceMember)
      → Has t a
      → Has t b
      → a.user_id ≢ b.user_id
      → a.id ≢ b.id
  Has-ne_of_user t a b ha hb h e = ground (arith, sym ha ∙ ap (N.at t) e ∙ hb)

  -- Two rows under one key are one.
  pub Has-eq : (t : N.Table) (a b : WorkspaceMember) → Has t a → Has t b → a.id ≡ b.id → a ≡ b
  Has-eq t a b ha hb e = ground (arith, sym ha ∙ ap (N.at t) e ∙ hb)

module _ (T : Tables) where
  pub get_membership-Has :
      (ws user : String) (db : Db T) (m : WorkspaceMember)
      → get_membership T ws user db ≡ some m
      → Has T.members db.members m × (m.workspace_id ≡ ws) × (m.user_id ≡ user)
  unfolding get_membership
  get_membership-Has ws user db m e = find_one_Has T.members db.members ws user m e

  -- A user whose role is OWNER has a row that says so.
  pub owner_row :
      (ws user : String) (db : Db T)
      → is_owner? (get_user_role T ws user db) ≡ true
      → (m : WorkspaceMember) × Has T.members db.members m
        × (m.workspace_id ≡ ws)
        × (m.user_id ≡ user)
        × (m.role ≡ owner)
  unfolding get_user_role
  owner_row ws user db h = elim (Option-cases (get_membership T ws user db)) [
    | inl e ↦ absurd (ground arith)
    | inr (m, e) ↦
        let (has, w, u) = get_membership-Has ws user db m e in (m, has, w, u, ground arith)
  ]
