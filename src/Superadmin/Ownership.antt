-- ===== src/Superadmin/Ownership.antt =====
-- `ensureSuperadminOwnership`: the roles of all users after it.
use contractor_reviewer.Common.{
  String, true, false, ◌&&◌, ◌||◌, ◌≡◌, refl, sym, ap, ◌∙◌, inl, inr, arith, List, [], ◌∷◌, none,
  some, Option-cases, Bool-cases, ◌==◌, ==-cases, if◌then◌else◌, any,
}
use contractor_reviewer.Entities.{Role, owner, admin, member, viewer, Workspace, WorkspaceMember}
use contractor_reviewer.Workspace.{
  Runtime, Tables, Db, Fresh, in_workspace, is_owner, get_membership, get_user_role, new_member,
}
use contractor_reviewer.Workspace.Members.{IsUnique, find_one_none, get_membership-Has}
use contractor_reviewer.Workspace.Rows.{save-IsUnique}
use contractor_reviewer.Workspace.Effects.{role_after_save, Replaces-update, Replaces-insert}
use contractor_reviewer.Superadmin.{
  ensure_owner, ensure_owners, ensure_superadmin_ownership, all_workspaces,
}
use text.Mathlib.TextEquality.{eq_iff}

owner_eq : (r : Role) → is_owner r ≡ true → r ≡ owner
owner_eq owner h = refl
owner_eq admin h = absurd (ground arith)
owner_eq member h = absurd (ground arith)
owner_eq viewer h = absurd (ground arith)

module _ (R : Runtime) (T : Tables) (f : String → Fresh) (superadmin : String) where
  -- Memberships are unique, and the id that the database would give to the admin's membership of a
  -- workspace is unused or used for that.
  pub record IsReady (t : T.members.Table) : Type 0 where
    pub unique : IsUnique T.members t
    pub own :
        (ws : String) (m : WorkspaceMember)
        → T.members.at t (f ws).member_id ≡ some m
        → (m.workspace_id ≡ ws) × (m.user_id ≡ superadmin)

  -- The roles after the workspaces of `l` are done.
  abbrev pub Owns : List Workspace → Db T → Db T → Type 0
  Owns l db db' =
      (ws user : String)
      → get_user_role T ws user db' ≡ (
          if any (λ w. w.id == ws) l && superadmin == user
          then some owner
          else get_user_role T ws user db)

  module _ (inj : (a b : String) → (f a).member_id ≡ (f b).member_id → a ≡ b) where
    own_saved :
        (t : T.members.Table) (r : WorkspaceMember)
        → IsReady t
        → ((ws : String)
            → r.id ≡ (f ws).member_id
            → (r.workspace_id ≡ ws) × (r.user_id ≡ superadmin))
        → (ws : String) (m : WorkspaceMember)
        → T.members.at (T.members.save r t) (f ws).member_id ≡ some m
        → (m.workspace_id ≡ ws) × (m.user_id ≡ superadmin)
    own_saved t r ready fits ws m h = elim (==-cases r.id (f ws).member_id) [
      | inl (b, e) ↦
          let same : r ≡ m = ground (arith, T.members.at-save r t (f ws).member_id) in
          rw (← same) (fits ws e)
      | inr (b, n) ↦ ready.own ws m (ground (arith, T.members.at-save r t (f ws).member_id))
    ]

    unused_id :
        (ws : String) (t : T.members.Table)
        → IsReady t
        → T.members.find_one (in_workspace ws superadmin) t ≡ none
        → T.members.at t (f ws).member_id ≡ none
    unused_id ws t ready n = elim (Option-cases (T.members.at t (f ws).member_id)) [
      | inl e ↦ e
      | inr (m, e) ↦
          let (hw, hu) = ready.own ws m e in
          absurd (
            find_one_none T.members t ws superadmin m n
              (ap (T.members.at t) (T.members.key-at t (f ws).member_id m e) ∙ e) hw hu)
    ]

    keeps_owner :
        (w ws user : String) (db : Db T) (m : WorkspaceMember)
        → get_membership T w superadmin db ≡ some m
        → is_owner m.role ≡ true
        → get_user_role T ws user db ≡ (
            if (w == ws || false) && superadmin == user
            then some owner
            else get_user_role T ws user db)
    unfolding get_user_role
    keeps_owner w ws user db m n o = elim (Bool-cases (w == ws)) [
      | inr b ↦ rw b refl
      | inl b ↦ elim (Bool-cases (superadmin == user)) [
        | inr c ↦ rw (b, c) refl
        | inl c ↦
            let same : w ≡ ws = (eq_iff w ws).0 b in
            let also : superadmin ≡ user = (eq_iff superadmin user).0 c in
            rw (b, c, ← same, ← also) (ground (arith, owner_eq m.role o))
      ]
    ]

    ensure_owner-Owns :
        (w : Workspace) (db : Db T)
        → IsReady db.members
        → Owns (w ∷ []) db (ensure_owner R T f superadmin w db)
          × IsReady (ensure_owner R T f superadmin w db).members
    unfolding ensure_owner get_membership
    ensure_owner-Owns w db ready = elim (Option-cases (get_membership T w.id superadmin db)) [
      | inl n ↦
          let unused = unused_id w.id db.members ready n in
          let r = new_member T (f w.id) w.id superadmin owner in
          let rep = Replaces-insert T db ready.unique (f w.id) w.id superadmin owner unused n in
          rw (n, ensure_owner)
            (
              λ ws user. ground (arith, role_after_save T db ready.unique r ws user rep),
              record {
                unique = save-IsUnique T.members db.members ready.unique r rep;
                own = own_saved db.members r ready (λ ws e. (inj w.id ws e, refl));
              },
            )
      | inr (m, n) ↦ elim (Bool-cases (is_owner m.role)) [
        | inl o ↦ rw (n, o, ensure_owner) (λ ws user. keeps_owner w.id ws user db m n o, ready)
        | inr o ↦
            let (h, hw, hu) = get_membership-Has T w.id superadmin db m n in
            let r : WorkspaceMember = record m { role = owner } in
            let rep = Replaces-update T db ready.unique m owner h in
            rw (n, o, ensure_owner)
              (
                λ ws user. ground (arith, role_after_save T db ready.unique r ws user rep, hw, hu),
                record {
                  unique = save-IsUnique T.members db.members ready.unique r rep;
                  own =
                      own_saved db.members r ready
                        (λ ws e. ready.own ws m (sym (ap (T.members.at db.members) e) ∙ h));
                },
              )
      ]
    ]

    ensure_owners-Owns :
        (l : List Workspace) (db : Db T)
        → IsReady db.members
        → Owns l db (ensure_owners R T f superadmin l db)
          × IsReady (ensure_owners R T f superadmin l db).members
    unfolding ensure_owners
    ensure_owners-Owns [] db ready = (λ ws user. refl, ready)
    ensure_owners-Owns (w ∷ l) db ready =
        let (owns, ready₁) = ensure_owner-Owns w db ready in
        let (owns', ready₂) = ensure_owners-Owns l (ensure_owner R T f superadmin w db) ready₁ in
        (λ ws user. ground (arith, owns ws user, owns' ws user), ready₂)

    -- Where memberships are unique and the ids for new ones are unused: after
    -- `ensureSuperadminOwnership` the superadmin is an owner of every workspace, every other role
    -- of every user in every workspace is as before, and the memberships stay unique.
    pub ensure_superadmin_ownership_lem :
        (db : Db T)
        → IsReady db.members
        → Owns (all_workspaces R T f db) db (ensure_superadmin_ownership R T f superadmin db)
          × IsReady (ensure_superadmin_ownership R T f superadmin db).members
    unfolding ensure_superadmin_ownership
    ensure_superadmin_ownership_lem db ready = ensure_owners-Owns (all_workspaces R T f db) db ready
