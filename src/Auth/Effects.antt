-- ===== src/Auth/Effects.antt =====
-- What the deletion of an account leaves.
use contractor_reviewer.Common.{
  String, Bool, true, false, ◌≡◌, sym, ap, ◌∙◌, ◌≢◌, inl, inr, arith, none, some, Option-cases,
  Bool-cases, if◌then◌else◌, ◌==◌, ==-cases, any,
}
use contractor_reviewer.Entities.{WorkspaceMember, User}
use contractor_reviewer.Repository.{unless}
use contractor_reviewer.Workspace.{Tables, Db}
use contractor_reviewer.Workspace.Members.{Has, IsUnique}
use contractor_reviewer.Workspace.Owners.{IsOwned, OwnedIn}
use contractor_reviewer.Auth.{
  Services, Result, ok, err, only_owner, has_id, owns, is_only_owner, deactivate, remove_user,
  delete_account,
}
use contractor_reviewer.Auth.Deletion.{IsSoleOwner, other_owner, at-remove_user}
use text.Mathlib.TextEquality.{eq_iff}

module _ (S : Services) (T : Tables) where
  -- There is no such user.
  pub record IsUnknown (user : String) (db : Db T) (r : Result Bool) (db' : Db T) : Type 0 where
    pub answer : r ≡ ok false
    pub same : db' ≡ db
    pub unknown : T.users.at db.users user ≡ none

  -- The user is the only owner of some workspace, and becomes inactive.
  pub record IsRefused (user : String) (db : Db T) (r : Result Bool) (db' : Db T) : Type 0 where
    pub answer : r ≡ err only_owner
    pub u : User
    pub stored : T.users.at db.users user ≡ some u
    pub sole : (m : WorkspaceMember) × IsSoleOwner S T user db m
    pub after : db' ≡ deactivate S T u db

  -- A user who owns no workspace: the user and their memberships are gone, and no other user and no
  -- other membership.
  pub record IsDeleted (user : String) (db : Db T) (r : Result Bool) (db' : Db T) : Type 0 where
    pub answer : r ≡ ok true
    pub stored : (u : User) × (T.users.at db.users user ≡ some u)
    pub users :
        (k : String) → T.users.at db'.users k ≡ (if user == k then none else T.users.at db.users k)
    pub members :
        (k : String)
        → T.members.at db'.members k ≡ unless (λ m. m.user_id == user) (T.members.at db.members k)
    pub no_owner : (m : WorkspaceMember) → Has T.members db.members m → owns S T user m ≡ false

  -- A user who owns workspaces, each together with another: no other user and no other membership
  -- is changed.
  pub record IsCoOwner (user : String) (db db' : Db T) : Type 0 where
    pub stored : (u : User) × (T.users.at db.users user ≡ some u)
    pub owner_row : (m : WorkspaceMember) × Has T.members db.members m × (owns S T user m ≡ true)
    pub not_sole : (m : WorkspaceMember) → ¬ IsSoleOwner S T user db m
    pub users :
        (k : String)
        → (if user == k then none else T.users.at db'.users k)
          ≡ (if user == k then none else T.users.at db.users k)
    pub members :
        (k : String)
        → unless (λ m. m.user_id == user) (T.members.at db'.members k)
          ≡ unless (λ m. m.user_id == user) (T.members.at db.members k)

  found-user :
      (user : String) (db : Db T) (u : User)
      → T.users.find_one (has_id S T user) db.users ≡ some u
      → (u.id ≡ user) × (T.users.at db.users user ≡ some u)
  found-user user db u e =
      let (h, b) = T.users.find_one_sound (has_id S T user) db.users u e in
      let id : u.id ≡ user = (eq_iff u.id user).0 b in (id, ap (T.users.at db.users) (sym id) ∙ h)

  -- A row of another user stays.
  Has-remove_user :
      (u : User) (db : Db T) (m : WorkspaceMember)
      → Has T.members db.members m
      → m.user_id ≢ u.id
      → Has T.members (remove_user S T u db).members m
  Has-remove_user u db m h ne =
      ground (arith, at-remove_user S T u db m.id, h, eq_iff m.user_id u.id)

  remove_user-OwnedIn :
      (u : User) (db : Db T) (ws : String)
      → IsUnique T.members db.members
      → any (is_only_owner S T db) (T.members.find (owns S T u.id) db.members) ≡ false
      → OwnedIn T.members db.members ws
      → OwnedIn T.members (remove_user S T u db).members ws
  remove_user-OwnedIn u db ws unique o (m, h, w, om) = elim (==-cases m.user_id u.id) [
    | inr (b, ne) ↦ (m, Has-remove_user u db m h ne, w, om)
    | inl (b, e) ↦
        let (c, hc, wc, oc, uc) = other_owner S T u.id db m unique o h e om in
        (c, Has-remove_user u db c hc uc, wc ∙ w, oc)
  ]

  -- If memberships are unique and every workspace has an owner, then so it is after a call of
  -- deleteAccount, whatever it answers.
  pub delete_account-IsOwned :
      (user : String) (db : Db T)
      → IsUnique T.members db.members
      → IsOwned T db
      → IsOwned T (delete_account S T user db).1
  unfolding delete_account
  delete_account-IsOwned user db unique owned =
      elim (Option-cases (T.users.find_one (has_id S T user) db.users)) [
        | inl e ↦ rw (e, delete_account) owned
        | inr (u, e) ↦
            let (id, h) = found-user user db u e in
            elim (Bool-cases
              (any (is_only_owner S T db) (T.members.find (owns S T user) db.members))) [
                | inl o ↦ rw (e, o, delete_account) owned
                | inr o ↦
                    rw (e, o, delete_account)
                      (λ w hw.
                        remove_user-OwnedIn u db w.id unique
                          (ap
                              (λ x.
                                any (is_only_owner S T db) (T.members.find (owns S T x) db.members))
                              id
                            ∙ o)
                          (owned w hw))
              ]
      ]
