-- ===== src/Workspace/Invitations.antt =====
-- apps/api/src/workspace/workspace.service.ts, inviteMember, with findByEmail and createUserOnly of
-- apps/api/src/auth/auth.service.ts.
pub mod Owned
use contractor_reviewer.Entities.{User, WorkspaceMember}
use contractor_reviewer.Common.{
  ℕ, String, Bool, true, false, not, ◌&&◌, ◌||◌, Option, none, some, ltb, if◌then◌else◌, ◌==◌,
}
use contractor_reviewer.Workspace.{
  Runtime, Tables, Db, M, Fresh, InviteDto, ok, err, and_then, is_empty, trimmed, add_member,
  email_required, name_required, password_required, email_taken,
}

module _ (R : Runtime) (T : Tables) where
  abbrev pub normalize_email : Option String → String
  normalize_email none = ""
  normalize_email (some e) = R.to_lower_case (R.trim e)

  -- AuthService.findByEmail
  pub find_by_email : Option String → Db T → Option User
  find_by_email email db =
      let normalized = normalize_email email in
      if is_empty normalized
      then none
      else T.users.find_one (λ u. R.sql_lower u.email == R.sql_lower normalized && u.is_active)
          db.users

  abbrev name_or : String → String → String
  name_or name email = if is_empty name then email else name

  -- AuthService.createUserOnly
  pub create_user_only : Fresh → Option String → Option String → String → M T User
  create_user_only f email name password db =
      let normalized = normalize_email email in
      if is_empty normalized
      then (err email_required, db)
      else elim (T.users.find_one (λ u. u.email == normalized) db.users) [
        | some u ↦ (err email_taken, db)
        | none ↦
            let u : User = record {
              id = f.user_id;
              email = normalized;
              name = some (name_or (trimmed R.trim name) normalized);
              password_hash = R.hash password;
              is_active = true;
            } in
            (ok u, record db { users = T.users.save u db.users })
      ]

  -- The part of `inviteMember` for an address that no active user has.
  pub invite_new : Fresh → String → InviteDto → String → M T WorkspaceMember
  invite_new f ws dto normalized db =
      if is_empty (trimmed R.trim dto.name) then (err name_required, db) else elim dto.password [
        | none ↦ (err password_required, db)
        | some password ↦
            if is_empty password || ltb (R.length password) 8
            then (err password_required, db)
            else and_then T
                (create_user_only f (some normalized) (some (trimmed R.trim dto.name)) password db)
                λ u db'. add_member T f ws u.id dto.role db'
      ]

  pub invite_member : Fresh → String → InviteDto → M T WorkspaceMember
  invite_member f ws dto db =
      let normalized = normalize_email dto.email in
      if is_empty normalized
      then (err email_required, db)
      else elim (find_by_email (some normalized) db) [
        | some u ↦ add_member T f ws u.id dto.role db
        | none ↦ invite_new f ws dto normalized db
      ]
