-- ===== src/Workspace/Invitations/Owned.antt =====
-- Invitations, which may register a user, keep an owner in every workspace.
use contractor_reviewer.Common.{
  String, ◌≡◌, inl, inr, arith, Option, none, some, Option-cases, Bool-cases, ltb, ◌||◌,
}
use contractor_reviewer.Entities.{Role}
use contractor_reviewer.Workspace.Invitations.{
  normalize_email, invite_member, invite_new, create_user_only, find_by_email,
}
use contractor_reviewer.Workspace.{
  and_then, Result, is_empty, trimmed, Tables, Db, Runtime, Fresh, InviteDto, ok, err, add_member,
}
use contractor_reviewer.Workspace.Owners.{IsOwned, add_member-IsOwned}

-- What holds after a step and after whatever follows it holds after both.
and_then_keeps :
    (T : Tables) {A B : Type 0} (P : Db T → Type 0) (r : Result A × Db T)
    (f : A → Db T → Result B × Db T)
    → P r.1
    → ((a : A) → P (f a r.1).1)
    → P (and_then T r f).1
and_then_keeps T P (ok a, db) f h k = k a
and_then_keeps T P (err e, db) f h k = h

-- An invitation ends in `addMember`, or changes at most the users.
module _ (R : Runtime) (T : Tables) (db : Db T) (owned : IsOwned T db) where
  create_user_only-members :
      (f : Fresh) (email name : Option String) (password : String)
      → (create_user_only R T f email name password db).1.members ≡ db.members
  unfolding create_user_only
  create_user_only-members f email name password = ground arith

  create_user_only-workspaces :
      (f : Fresh) (email name : Option String) (password : String)
      → (create_user_only R T f email name password db).1.workspaces ≡ db.workspaces
  unfolding create_user_only
  create_user_only-workspaces f email name password = ground arith

  create_then_add :
      (f : Fresh) (ws : String) (role : Role) (email name : Option String) (password : String)
      → T.members.at db.members f.member_id ≡ none
      → IsOwned T
          (and_then T
            (create_user_only R T f email name password db)
            λ u db'. add_member T f ws u.id role db').1
  create_then_add f ws role email name password fresh =
      let r = create_user_only R T f email name password db in
      let members = create_user_only-members f email name password in
      let kept : IsOwned T r.1 = λ x hx.
        rw members (owned x (rw (create_user_only-workspaces f email name password) at hx)) in
      and_then_keeps T (IsOwned T) r (λ u db'. add_member T f ws u.id role db') kept
        (λ u. add_member-IsOwned T r.1 kept f ws u.id role (rw members fresh))

  invite_new-IsOwned :
      (f : Fresh) (ws : String) (dto : InviteDto) (email : String)
      → T.members.at db.members f.member_id ≡ none
      → IsOwned T (invite_new R T f ws dto email db).1
  unfolding invite_new
  invite_new-IsOwned f ws dto email fresh = elim (Bool-cases (is_empty (trimmed R.trim dto.name))) [
    | inl b ↦ rw (b, invite_new) owned
    | inr b ↦ elim (Option-cases dto.password) [
      | inl e ↦ rw (b, e, invite_new) owned
      | inr (p, e) ↦ elim (Bool-cases (is_empty p || ltb (R.length p) 8)) [
        | inl c ↦ rw (b, e, c, invite_new) owned
        | inr c ↦
            rw (b, e, c, invite_new)
              (create_then_add f ws dto.role (some email) (some (trimmed R.trim dto.name)) p fresh)
      ]
    ]
  ]

  pub invite_member-IsOwned :
      (f : Fresh) (ws : String) (dto : InviteDto)
      → T.members.at db.members f.member_id ≡ none
      → IsOwned T (invite_member R T f ws dto db).1
  unfolding invite_member
  invite_member-IsOwned f ws dto fresh =
      let email = normalize_email R T dto.email in
      elim (Bool-cases (is_empty email)) [
        | inl b ↦ rw (b, invite_member) owned
        | inr b ↦ elim (Option-cases (find_by_email R T (some email) db)) [
          | inl e ↦ rw (b, e, invite_member) (invite_new-IsOwned f ws dto email fresh)
          | inr (u, e) ↦
              rw (b, e, invite_member) (add_member-IsOwned T db owned f ws u.id dto.role fresh)
        ]
      ]
