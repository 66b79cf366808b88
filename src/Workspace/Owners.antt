-- ===== src/Workspace/Owners.antt =====
-- No call leaves a workspace without an owner.
use contractor_reviewer.Common.{
  ℕ, String, false, ◌≡◌, refl, sym, ap, ◌∙◌, ◌≢◌, ◌⊎◌, inl, inr, arith, none, some, Option-cases,
  Bool-cases, ◌==◌, ==-cases, subst,
}
use contractor_reviewer.Repository.{Repository}
use contractor_reviewer.Entities.{Role, owner, Workspace, WorkspaceMember, member_key}
use contractor_reviewer.Workspace.{
  Tables, Db, Fresh, is_owner, is_owner?, get_membership, get_user_role, create, update_name,
  add_member, update_member_role, remove_member, delete, find_by_id, new_member, save_member,
  cascade,
}
use contractor_reviewer.Workspace.Members.{
  Has, Has-save_ne, Has-save_self, Has-remove_ne, Has-ne_of_user, Has-eq, get_membership-Has,
  owner_row,
}
use text.Mathlib.TextEquality.{eq_iff}

module _ (N : Repository member_key) where
  abbrev pub OwnedIn : N.Table → String → Type 0
  OwnedIn t ws = (m : WorkspaceMember) × Has N t m × (m.workspace_id ≡ ws) × (m.role ≡ owner)

  OwnedIn-insert :
      (t : N.Table) (r : WorkspaceMember) (ws : String)
      → N.at t r.id ≡ none
      → OwnedIn t ws
      → OwnedIn (N.save r t) ws
  OwnedIn-insert t r ws fresh (m, h, w, o) =
      (m, Has-save_ne N t r m (λ e. ground (arith, sym fresh ∙ ap (N.at t) e ∙ h)) ∙ h, w, o)

  -- A row `r` is written or removed while another row `c` of its workspace is an owner's.
  OwnedIn-change :
      (t t' : N.Table) (r c : WorkspaceMember) (ws : String)
      → ((m : WorkspaceMember) → r.id ≢ m.id → N.at t' m.id ≡ N.at t m.id)
      → Has N t r
      → Has N t c
      → c.workspace_id ≡ r.workspace_id
      → c.role ≡ owner
      → r.user_id ≢ c.user_id
      → OwnedIn t ws
      → OwnedIn t' ws
  OwnedIn-change t t' r c ws same hr hc w o u (m, h, wm, om) = elim (==-cases r.id m.id) [
    | inl (_, e) ↦
        let rm : r ≡ m = Has-eq N t r m hr h e in
        (
          c,
          same c (Has-ne_of_user N t r c hr hc u) ∙ hc,
          w ∙ ap (λ (x : WorkspaceMember). x.workspace_id) rm ∙ wm,
          o,
        )
    | inr (_, e) ↦ (m, same m e ∙ h, wm, om)
  ]

  -- A row that is no owner's is removed.
  OwnedIn-remove :
      (t : N.Table) (r : WorkspaceMember) (ws : String)
      → Has N t r
      → is_owner r.role ≡ false
      → OwnedIn t ws
      → OwnedIn (N.remove r t) ws
  OwnedIn-remove t r ws hr other (m, h, wm, om) = elim (==-cases r.id m.id) [
    | inl (_, e) ↦
        let rm : r ≡ m = Has-eq N t r m hr h e in
        absurd (ground (arith, ap (λ (x : WorkspaceMember). is_owner x.role) rm, ap is_owner om))
    | inr (_, e) ↦ (m, Has-remove_ne N t r m e ∙ h, wm, om)
  ]

-- Adding a member changes nothing, or saves the new row.
pub add_member-cases :
    (T : Tables) (f : Fresh) (ws user : String) (role : Role) (db : Db T)
    → ((add_member T f ws user role db).1 ≡ db)
      ⊎ ((add_member T f ws user role db).1 ≡ save_member T (new_member T f ws user role) db)
unfolding add_member find_by_id
add_member-cases T f ws user role db =
    elim (Option-cases (T.workspaces.find_one (λ w. w.id == ws) db.workspaces)) [
      | inl e ↦ inl (ground arith)
      | inr (w, e) ↦ elim (Option-cases (get_membership T ws user db)) [
        | inl n ↦ inr (ground arith)
        | inr (m, n) ↦ inl (ground arith)
      ]
    ]

module _ (T : Tables) where
  -- Every workspace has a member with the role OWNER.
  abbrev pub IsOwned : Db T → Type 0
  IsOwned db =
      (w : Workspace)
      → T.workspaces.at db.workspaces w.id ≡ some w
      → OwnedIn T.members db.members w.id

  module _ (db : Db T) (owned : IsOwned db) where
    pub add_member-IsOwned :
        (f : Fresh) (ws user : String) (role : Role)
        → T.members.at db.members f.member_id ≡ none
        → IsOwned (add_member T f ws user role db).1
    add_member-IsOwned f ws user role fresh = elim (add_member-cases T f ws user role db) [
      | inl e ↦ rw e owned
      | inr e ↦ rw e (λ x hx.
          OwnedIn-insert T.members db.members (new_member T f ws user role) x.id fresh (owned x hx))
    ]

    pub create-IsOwned :
        (f : Fresh) (name creator : String)
        → T.members.at db.members f.member_id ≡ none
        → IsOwned (create T f name creator db).1
    unfolding create
    create-IsOwned f name creator fresh x hx = elim (==-cases f.workspace_id x.id) [
      | inl (_, e) ↦ (
        new_member T f f.workspace_id creator owner,
        Has-save_self T.members db.members _,
        e,
        refl,
      )
      | inr (b, e) ↦
          OwnedIn-insert T.members db.members (new_member T f f.workspace_id creator owner) x.id
            fresh (owned x (sym (T.workspaces.at-save _ db.workspaces x.id ∙ rw b) ∙ hx))
    ]

    pub update_name-IsOwned :
        (now : ℕ) (ws name : String) → IsOwned (update_name T now ws name db).1
    unfolding update_name find_by_id
    update_name-IsOwned now ws name =
        elim (Option-cases (T.workspaces.find_one (λ w. w.id == ws) db.workspaces)) [
          | inl e ↦ rw (e, update_name, find_by_id) owned
          | inr (w, e) ↦
              rw (e, update_name, find_by_id)
                (λ x hx. elim (==-cases w.id x.id) [
                  | inl (_, i) ↦
                      subst (OwnedIn T.members db.members) i
                        (owned w (T.workspaces.find_one_sound _ db.workspaces w e).0)
                  | inr (b, i) ↦
                      owned x (sym (T.workspaces.at-save _ db.workspaces x.id ∙ rw b) ∙ hx)
                ])
        ]

    pub update_member_role-IsOwned :
        (ws user : String) (role : Role) (current : String)
        → IsOwned (update_member_role T ws user role current db).1
    unfolding update_member_role
    update_member_role-IsOwned ws user role current =
        elim (Option-cases (get_membership T ws user db)) [
          | inl e ↦ rw (e, update_member_role) owned
          | inr (m, e) ↦ elim (Bool-cases (is_owner? (get_user_role T ws current db))) [
            | inr o ↦ rw (e, o, update_member_role) owned
            | inl o ↦ elim (==-cases user current) [
              | inl (b, _) ↦ rw (e, o, b, update_member_role) owned
              | inr (b, ne) ↦
                  let (hm, wm, um) = get_membership-Has T ws user db m e in
                  let (c, hc, wc, uc, oc) = owner_row T ws current db o in
                  rw (e, o, b, update_member_role)
                    (λ x hx.
                      OwnedIn-change T.members db.members _ m c x.id
                        (λ y ny. Has-save_ne T.members db.members (record m { role = role }) y ny)
                        hm hc (wc ∙ sym wm) oc (λ q. ne (sym um ∙ q ∙ uc)) (owned x hx))
            ]
          ]
        ]

    pub remove_member-IsOwned :
        (ws user current : String) → IsOwned (remove_member T ws user current db).1
    unfolding remove_member
    remove_member-IsOwned ws user current = elim (Option-cases (get_membership T ws user db)) [
      | inl e ↦ rw (e, remove_member) owned
      | inr (m, e) ↦
          let (hm, wm, um) = get_membership-Has T ws user db m e in
          elim (Bool-cases (is_owner m.role)) [
            | inr other ↦ elim (Bool-cases (user == current)) [
              | inl b ↦
                  rw (e, other, b, remove_member)
                    (λ x hx. OwnedIn-remove T.members db.members m x.id hm other (owned x hx))
              | inr b ↦
                  rw (e, other, b, remove_member)
                    (λ x hx. OwnedIn-remove T.members db.members m x.id hm other (owned x hx))
            ]
            | inl is ↦ elim (==-cases user current) [
              | inl (b, _) ↦ rw (e, is, b, remove_member) owned
              | inr (b, ne) ↦ elim (Bool-cases (is_owner? (get_user_role T ws current db))) [
                | inr o ↦ rw (e, is, b, o, remove_member) owned
                | inl o ↦
                    let (c, hc, wc, uc, oc) = owner_row T ws current db o in
                    rw (e, is, b, o, remove_member)
                      (λ x hx.
                        OwnedIn-change T.members db.members _ m c x.id
                          (Has-remove_ne T.members db.members m) hm hc (wc ∙ sym wm) oc
                          (λ q. ne (sym um ∙ q ∙ uc)) (owned x hx))
              ]
            ]
          ]
    ]

    cascade-IsOwned : (w : Workspace) → IsOwned (cascade T w db)
    cascade-IsOwned w x hx = elim (==-cases w.id x.id) [
      | inl (b, _) ↦ absurd (ground (arith, hx, T.workspaces.at-remove w db.workspaces x.id, b))
      | inr (b, ne) ↦
          let (m, hm, wm, om) =
            owned x (sym (T.workspaces.at-remove w db.workspaces x.id ∙ rw b) ∙ hx) in
          (
            m,
            ground (
              arith,
              T.members.at-delete (λ y. y.workspace_id == w.id) db.members m.id,
              hm,
              eq_iff m.workspace_id w.id,
            ),
            wm,
            om,
          )
    ]

    pub delete-IsOwned : (ws user : String) → IsOwned (delete T ws user db).1
    unfolding delete
    delete-IsOwned ws user = elim (Bool-cases (is_owner? (get_user_role T ws user db))) [
      | inr o ↦ rw (o, delete) owned
      | inl o ↦ elim (Option-cases (T.workspaces.find_one (λ w. w.id == ws) db.workspaces)) [
        | inl e ↦ rw (o, e, delete) owned
        | inr (w, e) ↦ rw (o, e, delete) (cascade-IsOwned w)
      ]
    ]
