-- ===== src/Auth/Sessions.antt =====
-- Who can sign in after a registration, and after the deletion of an account.
use contractor_reviewer.Common.{
  String, true, false, not, ◌&&◌, ◌≡◌, sym, ap, ◌∙◌, ◌≢◌, inl, inr, arith, Option, none, some,
  Option-cases, Bool-cases, if◌then◌else◌, ◌==◌, any,
}
use contractor_reviewer.Entities.{User, user_key}
use contractor_reviewer.Workspace.{Tables, Db, Fresh, is_empty}
use contractor_reviewer.Workspace.Invitations.{normalize_email}
use contractor_reviewer.Repository.Lookup.{IsUniqueFor, find_one-insert}
use contractor_reviewer.Auth.{
  Services, RegisterDto, Session, Result, ok, err, invalid_credentials, session, new_user,
  has_email, has_id, register, validate_user, login, get_account, delete_account, is_only_owner,
  owns,
}
use text.Mathlib.TextEquality.{eq_iff}

module _ (S : Services) (T : Tables) where
  -- The answer to a sign-in with the right address: whether the password is the registered one.
  abbrev pub answer : String → User → Result Session
  answer password u =
      if S.compare password u.password_hash then ok (session S u) else err invalid_credentials

  found-register :
      (f : Fresh) (dto : RegisterDto) (db : Db T) (e : String)
      → IsUniqueFor user_key T.users (has_email S T e) db.users
      → T.users.at db.users f.user_id ≡ none
      → T.users.find_one (has_email S T dto.email) db.users ≡ none
      → T.users.find_one (has_email S T e) (register S T f dto db).1.users ≡ (
          if dto.email == e
          then some (new_user S T f dto)
          else T.users.find_one (has_email S T e) db.users)
  unfolding register
  found-register f dto db e unique fresh free =
      rw (free, register)
        (find_one-insert user_key T.users (has_email S T e) db.users (new_user S T f dto) unique
          fresh
          (λ q.
            ap (λ x. T.users.find_one (has_email S T x) db.users) (sym ((eq_iff dto.email e).0 q))
            ∙ free))

  -- If no account has the address of a registration, addresses are unique and the id for the new
  -- account is unused, then a sign-in after the registration is answered by the new account where
  -- the address typed, trimmed and in lower case, is the registered one and not empty, and as
  -- before the registration otherwise.
  pub login-register :
      (f : Fresh) (dto : RegisterDto) (db : Db T) (email : Option String) (password : String)
      → ((e : String) → IsUniqueFor user_key T.users (has_email S T e) db.users)
      → T.users.at db.users f.user_id ≡ none
      → T.users.find_one (has_email S T dto.email) db.users ≡ none
      → login S T email password (register S T f dto db).1 ≡ (
          if not (is_empty (normalize_email S.runtime T email))
            && dto.email == normalize_email S.runtime T email
          then answer password (new_user S T f dto)
          else login S T email password db)
  unfolding login validate_user
  login-register f dto db email password unique fresh free =
      let n = normalize_email S.runtime T email in
      elim (Bool-cases (is_empty n)) [
        | inl b ↦ ground (arith, b)
        | inr b ↦ elim (Bool-cases (dto.email == n)) [
          | inl c ↦ ground (arith, b, c, found-register f dto db n (unique n) fresh free)
          | inr c ↦ ground (arith, b, c, found-register f dto db n (unique n) fresh free)
        ]
      ]

  -- A session is given for a stored, active user whose password it is.
  pub login-Has :
      (db : Db T) (email : Option String) (password : String) (s : Session)
      → login S T email password db ≡ ok s
      → (u : User) × (T.users.at db.users u.id ≡ some u)
        × (u.is_active ≡ true)
        × (S.compare password u.password_hash ≡ true)
        × (s ≡ session S u)
  unfolding login validate_user
  login-Has db email password s e =
      let n = normalize_email S.runtime T email in
      elim (Bool-cases (is_empty n)) [
        | inl b ↦ absurd (ground (arith, b))
        | inr b ↦ elim (Option-cases (T.users.find_one (has_email S T n) db.users)) [
          | inl h ↦ absurd (ground (arith, b, h))
          | inr (u, h) ↦ elim (Bool-cases u.is_active) [
            | inr a ↦ absurd (ground (arith, b, h, a))
            | inl a ↦ elim (Bool-cases (S.compare password u.password_hash)) [
              | inr c ↦ absurd (ground (arith, b, h, a, c))
              | inl c ↦
                  (u, (T.users.find_one_sound _ db.users u h).0, a, c, ground (arith, b, h, a, c))
            ]
          ]
        ]
      ]

  -- No active user is left under the id.
  abbrev pub IsOut : String → Db T → Type 0
  IsOut user db = (u : User) → T.users.at db.users user ≡ some u → u.is_active ≡ false

  pub delete_account-IsOut : (user : String) (db : Db T) → IsOut user (delete_account S T user db).1
  unfolding delete_account
  delete_account-IsOut user db v h =
      elim (Option-cases (T.users.find_one (has_id S T user) db.users)) [
        | inl e ↦ absurd (
            ground (
              arith,
              e,
              h,
              T.users.key-at db.users user v,
              T.users.find_one_complete (has_id S T user) db.users user v e,
              eq_iff v.id user,
            ))
        | inr (u, e) ↦
            let (hu, b) = T.users.find_one_sound (has_id S T user) db.users u e in
            elim (Bool-cases
              (any (is_only_owner S T db) (T.members.find (owns S T user) db.members))) [
                | inl o ↦ ground (
                  arith,
                  e,
                  o,
                  h,
                  b,
                  T.users.at-save (record u { is_active = false }) db.users user,
                )
                | inr o ↦ absurd (ground (arith, e, o, h, b, T.users.at-remove u db.users user))
              ]
      ]

  get_account-IsOut : (user : String) (db : Db T) → IsOut user db → get_account S T user db ≡ none
  unfolding get_account
  get_account-IsOut user db out =
      elim (Option-cases (T.users.find_one (has_id S T user) db.users)) [
        | inl e ↦ ground (arith, e)
        | inr (u, e) ↦
            let (h, b) = T.users.find_one_sound (has_id S T user) db.users u e in
            ground (arith, e, out u (rw (sym ((eq_iff u.id user).0 b)) h))
      ]

  -- After a deletion of an account, refused or not, nobody signs in as the user, whatever the
  -- address and the password, and the account is not shown.
  pub delete_account-shut :
      (user : String) (db : Db T)
      → ((email : Option String) (password : String) (s : Session)
          → login S T email password (delete_account S T user db).1 ≡ ok s
          → s.user.id ≢ user)
        × (get_account S T user (delete_account S T user db).1 ≡ none)
  delete_account-shut user db =
      let out = delete_account-IsOut user db in
      (
        λ email password s e k.
            let (u, h, a, c, q) = login-Has (delete_account S T user db).1 email password s e in
            let id : u.id ≡ user = sym (ap (λ (x : Session). x.user.id) q) ∙ k in
            ground
              (arith, a, out u (ap (T.users.at (delete_account S T user db).1.users) (sym id) ∙ h)),
        get_account-IsOut user (delete_account S T user db).1 out,
      )
