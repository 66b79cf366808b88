-- ===== src/Workspace/Roles.antt =====
-- The hierarchy OWNER > ADMIN > MEMBER > VIEWER.
use contractor_reviewer.Common.{
  ℕ, ◌≤◌, String, true, ◌≡◌, refl, ◌↔◌, List, [], ◌∷◌, arith, any, leb, leb→le, le→leb, some,
  Option-cases, Bool-cases, ap, ◌∙◌, inl, inr, In,
}
use contractor_reviewer.Entities.{Role, WorkspaceMember}
use contractor_reviewer.Workspace.{
  Tables, Db, role_hierarchy, get_user_role, has_required_role, has_any_role, verify_role,
  verify_membership, get_membership, ok,
}

module _ (T : Tables) (ws user : String) (db : Db T) where
  -- A user who holds a role holds every role below it.
  pub has_required_role_mono :
      (high low : Role)
      → role_hierarchy low ≤ role_hierarchy high
      → has_required_role T ws user high db ≡ true
      → has_required_role T ws user low db ≡ true
  unfolding has_required_role
  has_required_role_mono high low h e = elim (Option-cases (get_user_role T ws user db)) [
    | inl n ↦ ground arith
    | inr (r, n) ↦ ground arith
  ]

  any-role_sound :
      (r : ℕ) (required : List Role)
      → any (λ q. leb (role_hierarchy q) r) required ≡ true
      → (q : Role) × In q required × (role_hierarchy q ≤ r)
  any-role_sound r [] h = absurd (ground arith)
  any-role_sound r (q ∷ required) h = elim (Bool-cases (leb (role_hierarchy q) r)) [
    | inl e ↦ (q, inl refl, leb→le _ _ e)
    | inr e ↦ let (q', m, l) = any-role_sound r required (ground arith) in (q', inr m, l)
  ]

  any-role_complete :
      (r : ℕ) (required : List Role) (q : Role)
      → In q required
      → role_hierarchy q ≤ r
      → any (λ q'. leb (role_hierarchy q') r) required ≡ true
  any-role_complete r [] q m h = absurd m
  any-role_complete r (q' ∷ required) q (inl e) h = ground (arith, le→leb (role_hierarchy q) r)
  any-role_complete r (q' ∷ required) q (inr m) h =
      ground (arith, any-role_complete r required q m h)

  -- `hasAnyRole` is true exactly when `hasRequiredRole` is true of some listed role.
  pub has_any_role_iff :
      (required : List Role)
      → (has_any_role T ws user required db ≡ true)
        ↔ ((q : Role) × In q required × (has_required_role T ws user q db ≡ true))
  unfolding has_any_role has_required_role
  has_any_role_iff required = elim (Option-cases (get_user_role T ws user db)) [
    | inl n ↦ (λ e. absurd (ground arith), λ w. absurd (ground (arith, w.2)))
    | inr (r, n) ↦ (
      λ e.
          let (q, m, l) = any-role_sound (role_hierarchy r) required (rw (n, has_any_role) at e) in
          (q, m, rw (n, has_required_role) (le→leb _ _ l)),
      λ w.
          rw (n, has_any_role)
            (any-role_complete (role_hierarchy r) required w.0 w.1
              (leb→le _ _ (rw (n, has_required_role) at (w.2)))),
    )
  ]

  -- `verifyRole` returns a membership exactly if it is the user's in the workspace and its role is
  -- as high as the required one; and whether it returns or throws, it changes nothing.
  pub verify_role_lem :
      (required : Role) (m : WorkspaceMember)
      → ((verify_role T ws user required db).0 ≡ ok m
          ↔ (get_membership T ws user db ≡ some m)
            × (role_hierarchy required ≤ role_hierarchy m.role))
        × ((verify_role T ws user required db).1 ≡ db)
  unfolding verify_role verify_membership has_required_role get_user_role
  verify_role_lem required m = elim (Option-cases (get_membership T ws user db)) [
    | inl n ↦ ((λ e. absurd (ground arith), λ c. absurd (ground (arith, c.0))), ground arith)
    | inr (x, n) ↦ elim (Bool-cases (leb (role_hierarchy required) (role_hierarchy x.role))) [
      | inl b ↦ (
        (
          λ e. let same : x ≡ m = ground arith in (n ∙ ap some same, rw (← same) (leb→le _ _ b)),
          λ c. ground (arith, c.0),
        ),
        ground arith,
      )
      | inr b ↦ (
        (
          λ e. absurd (ground arith),
          λ c.
              let same : x ≡ m = ground (arith, c.0) in
              absurd (ground (arith, le→leb _ _ (c.1), same)),
        ),
        ground arith,
      )
    ]
  ]
