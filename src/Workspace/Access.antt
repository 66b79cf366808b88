-- ===== src/Workspace/Access.antt =====
-- apps/api/src/workspace/guards: WorkspaceGuard and then RolesGuard stand before the handlers of
-- the controllers.
use contractor_reviewer.Common.{
  String, Bool, true, false, ◌&&◌, ◌≡◌, ◌⊎◌, inl, inr, arith, Option, none, some, List, [], ◌∷◌,
  Option-cases, ◌==◌, if◌then◌else◌, any, leb,
}
use contractor_reviewer.Entities.{Role, Workspace, WorkspaceMember}
use contractor_reviewer.Workspace.{
  Tables, Db, Error, Result, ok, err, find_by_id, get_membership, get_user_role, is_member,
  verify_membership, has_any_role, role_hierarchy, is_empty,
}

-- The parts of an Express request that the guards read and write.
pub record Request : Type 0 where
  pub params_workspace_id : Option String
  pub params_id : Option String
  pub user_id : Option String
  pub workspace_id : Option String
  pub workspace_membership : Option WorkspaceMember

pub data GuardError : Type 0 where
  workspace_id_required not_authenticated context_required not_a_member_of required_role :
      GuardError
  service : Error → GuardError

-- What a guard answers: the request goes on, perhaps with more attached to it, or is refused.
pub data Answer : Type 0 where
  allow : Request → Answer
  refuse : GuardError → Answer

-- `a || b` on texts that may be missing: the empty text counts as missing.
abbrev pub truthy : Option String → Option String
truthy none = none
truthy (some s) = if is_empty s then none else some s

abbrev pub or_else : Option String → Option String → Option String
or_else a b = elim (truthy a) [ none ↦ truthy b | some s ↦ some s ]

module _ (T : Tables) (db : Db T) where
  abbrev admit : Request → String → Result WorkspaceMember → Answer
  admit req ws (err e) = refuse (service e)
  admit req ws (ok m) = allow (record req { workspace_id = some ws; workspace_membership = some m })

  abbrev if_found : Result Workspace → Answer → Answer
  if_found (err e) a = refuse (service e)
  if_found (ok w) a = a

  abbrev guard_member : Request → String → String → Answer
  guard_member req ws user =
      if_found (find_by_id T ws db).0 (admit req ws (verify_membership T ws user db).0)

  -- WorkspaceGuard.canActivate
  pub workspace_guard : Request → Answer
  workspace_guard req = elim (or_else req.params_workspace_id req.params_id) [
    | none ↦ refuse workspace_id_required
    | some ws ↦ elim (truthy req.user_id) [
      | none ↦ refuse not_authenticated
      | some user ↦ guard_member req ws user
    ]
  ]

  abbrev check_roles : Request → List Role → Option Role → Answer
  check_roles req required none = refuse not_a_member_of
  check_roles req required (some r) =
      if any (λ q. leb (role_hierarchy q) (role_hierarchy r)) required
      then allow req
      else refuse required_role

  abbrev request_workspace : Request → Option String
  request_workspace req = or_else (or_else req.workspace_id req.params_workspace_id) req.params_id

  abbrev guard_roles : Request → List Role → Answer
  guard_roles req required = elim (request_workspace req) [
    | none ↦ refuse context_required
    | some ws ↦ elim (truthy req.user_id) [
      | none ↦ refuse context_required
      | some user ↦ check_roles req required (get_user_role T ws user db)
    ]
  ]

  -- RolesGuard.canActivate, given the roles that the handler's metadata requires.
  pub roles_guard : Option (List Role) → Request → Answer
  roles_guard none req = allow req
  roles_guard (some []) req = allow req
  roles_guard (some (q ∷ qs)) req = guard_roles req (q ∷ qs)

  abbrev and_roles : Option (List Role) → Answer → Answer
  and_roles required (refuse e) = refuse e
  and_roles required (allow req) = roles_guard required req

  -- Both guards, in the controllers' order.
  pub guards : Option (List Role) → Request → Answer
  guards required req = and_roles required (workspace_guard req)

  abbrev pub allows : Answer → Bool
  allows (allow req) = true
  allows (refuse e) = false

  abbrev pub workspace_exists : String → Bool
  workspace_exists ws = elim (find_by_id T ws db).0 [ ok w ↦ true | err e ↦ false ]

  -- What the decorators promise: with no role named, a member may pass; else a user with a role
  -- that `hasAnyRole` accepts.
  abbrev pub may_pass : Option (List Role) → String → String → Bool
  may_pass none ws user = is_member T ws user db
  may_pass (some []) ws user = is_member T ws user db
  may_pass (some (q ∷ qs)) ws user = has_any_role T ws user (q ∷ qs) db

  workspace_guard_lem :
      (req : Request) (ws user : String)
      → or_else req.params_workspace_id req.params_id ≡ some ws
      → truthy req.user_id ≡ some user
      → workspace_guard req ≡ guard_member req ws user
  unfolding workspace_guard
  workspace_guard_lem req ws user hw hu = rw (hw, hu, workspace_guard)

  truthy_idem : (o : Option String) (s : String) → truthy o ≡ some s → truthy (some s) ≡ some s
  truthy_idem none s e = ground arith
  truthy_idem (some r) s e = ground arith

  or_else-truthy :
      (a b : Option String) (s : String) → or_else a b ≡ some s → truthy (some s) ≡ some s
  or_else-truthy a b s e = elim (Option-cases (truthy a)) [
    | inl n ↦ truthy_idem b s (ground arith)
    | inr (r, n) ↦ truthy_idem a s (ground arith)
  ]

  request_workspace-admitted :
      (req : Request) (ws : String) (m : WorkspaceMember)
      → truthy (some ws) ≡ some ws
      → request_workspace (record req { workspace_id = some ws; workspace_membership = some m })
        ≡ some ws
  request_workspace-admitted req ws m e = ground arith

  guard_roles_lem :
      (req : Request) (required : List Role) (ws user : String)
      → request_workspace req ≡ some ws
      → truthy req.user_id ≡ some user
      → allows (guard_roles req required) ≡ has_any_role T ws user required db
  unfolding has_any_role
  guard_roles_lem req required ws user hw hu = elim (Option-cases (get_user_role T ws user db)) [
    | inl n ↦ ground arith
    | inr (r, n) ↦ ground arith
  ]

  and_roles_lem :
      (required : Option (List Role)) (req : Request) (ws user : String) (m : WorkspaceMember)
      → get_membership T ws user db ≡ some m
      → truthy (some ws) ≡ some ws
      → truthy req.user_id ≡ some user
      → allows (and_roles required (admit req ws (ok m))) ≡ may_pass required ws user
  unfolding roles_guard is_member
  and_roles_lem none req ws user m e t hu = ground arith
  and_roles_lem (some []) req ws user m e t hu = ground arith
  and_roles_lem (some (q ∷ qs)) req ws user m e t hu =
      guard_roles_lem (record req { workspace_id = some ws; workspace_membership = some m })
        (q ∷ qs) ws user (request_workspace-admitted req ws m t) hu

  not_a_member-refused :
      (required : Option (List Role)) (ws user : String)
      → get_membership T ws user db ≡ none
      → may_pass required ws user ≡ false
  unfolding is_member has_any_role get_user_role
  not_a_member-refused none ws user e = ground arith
  not_a_member-refused (some []) ws user e = ground arith
  not_a_member-refused (some (q ∷ qs)) ws user e = ground arith

  -- For a request that names a workspace, in the path, and an authenticated user: the two guards
  -- let it pass exactly if the workspace exists and the user is a member of it, or has one of the
  -- roles that the handler names or a higher one, where it names any. So the guard's own table of
  -- roles decides as `hasAnyRole` of the service does.
  pub guards_lem :
      (required : Option (List Role)) (req : Request) (ws user : String)
      → or_else req.params_workspace_id req.params_id ≡ some ws
      → truthy req.user_id ≡ some user
      → allows (guards required req) ≡ (workspace_exists ws && may_pass required ws user)
  unfolding guards find_by_id verify_membership
  guards_lem required req ws user hw hu =
      let t = or_else-truthy req.params_workspace_id req.params_id ws hw in
      elim (Option-cases (T.workspaces.find_one (λ w. w.id == ws) db.workspaces)) [
        | inl n ↦ rw (workspace_guard_lem req ws user hw hu) (ground arith)
        | inr (w, n) ↦ elim (Option-cases (get_membership T ws user db)) [
          | inl k ↦
              rw (workspace_guard_lem req ws user hw hu)
                (ground (arith, not_a_member-refused required ws user k))
          | inr (m, k) ↦
              rw (workspace_guard_lem req ws user hw hu)
                (ground (arith, and_roles_lem required req ws user m k t hu))
        ]
      ]

  -- A request without a workspace in its path, or without a user, is refused whatever roles the
  -- handler names.
  pub guards_refuse :
      (required : Option (List Role)) (req : Request)
      → (or_else req.params_workspace_id req.params_id ≡ none) ⊎ (truthy req.user_id ≡ none)
      → allows (guards required req) ≡ false
  unfolding guards workspace_guard
  guards_refuse required req (inl e) = ground arith
  guards_refuse required req (inr e) = ground arith
