-- ===== src/Workspace/Calls.antt =====
-- The calls of the service as steps, and an owner in every workspace after any series of them.
use contractor_reviewer.Common.{ℕ, String, ◌≡◌, none}
use contractor_reviewer.Entities.{Role}
use contractor_reviewer.Workspace.Invitations.{invite_member}
use contractor_reviewer.Workspace.{
  Tables, Db, Runtime, Fresh, InviteDto, create, update_name, add_member, update_member_role,
  remove_member, delete,
}
use contractor_reviewer.Workspace.Owners.{
  IsOwned, add_member-IsOwned, create-IsOwned, update_name-IsOwned, update_member_role-IsOwned,
  remove_member-IsOwned, delete-IsOwned,
}
use contractor_reviewer.Workspace.Invitations.Owned.{invite_member-IsOwned}

-- A call of the service.
pub data Call : Type 0 where
  creates : Fresh → String → String → Call
  renames : ℕ → String → String → Call
  adds : Fresh → String → String → Role → Call
  invites : Fresh → String → InviteDto → Call
  updates_role : String → String → Role → String → Call
  removes : String → String → String → Call
  deletes : String → String → Call

module _ (R : Runtime) (T : Tables) where
  -- The tables after a call, whether it returns or throws.
  unfoldable pub step : Call → Db T → Db T
  step (creates f name creator) db = (create T f name creator db).1
  step (renames now ws name) db = (update_name T now ws name db).1
  step (adds f ws user role) db = (add_member T f ws user role db).1
  step (invites f ws dto) db = (invite_member R T f ws dto db).1
  step (updates_role ws user role current) db = (update_member_role T ws user role current db).1
  step (removes ws user current) db = (remove_member T ws user current db).1
  step (deletes ws user) db = (delete T ws user db).1

  -- The id that the database makes for a new membership is not in use.
  abbrev pub IsFresh : Call → Db T → Type 0
  IsFresh (creates f name creator) db = T.members.at db.members f.member_id ≡ none
  IsFresh (adds f ws user role) db = T.members.at db.members f.member_id ≡ none
  IsFresh (invites f ws dto) db = T.members.at db.members f.member_id ≡ none
  IsFresh _ db = Unit

  -- The states that a series of calls, in any order and by any users, leads to.
  pub data Reach (db : Db T) : Db T → Type 0 where
    here : Reach db db
    next : {db' : Db T} (c : Call) → Reach db db' → IsFresh c db' → Reach db (step c db')

  step-IsOwned : (db : Db T) (c : Call) → IsOwned T db → IsFresh c db → IsOwned T (step c db)
  unfolding step
  step-IsOwned db (creates f name creator) owned fresh =
      create-IsOwned T db owned f name creator fresh
  step-IsOwned db (renames now ws name) owned fresh = update_name-IsOwned T db owned now ws name
  step-IsOwned db (adds f ws user role) owned fresh =
      add_member-IsOwned T db owned f ws user role fresh
  step-IsOwned db (invites f ws dto) owned fresh = invite_member-IsOwned R T db owned f ws dto fresh
  step-IsOwned db (updates_role ws user role current) owned fresh =
      update_member_role-IsOwned T db owned ws user role current
  step-IsOwned db (removes ws user current) owned fresh =
      remove_member-IsOwned T db owned ws user current
  step-IsOwned db (deletes ws user) owned fresh = delete-IsOwned T db owned ws user

  -- If every workspace has a member with the role OWNER, then so it is after any series of calls
  -- of the service, successful or not, that draw unused ids for new memberships.
  pub Reach-IsOwned : {db db' : Db T} → IsOwned T db → Reach db db' → IsOwned T db'
  Reach-IsOwned owned here = owned
  Reach-IsOwned owned (next {db'} c r fresh) = step-IsOwned db' c (Reach-IsOwned owned r) fresh
