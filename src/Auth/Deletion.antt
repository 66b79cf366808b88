-- ===== src/Auth/Deletion.antt =====
-- The loop of deleteAccount over the owned workspaces, and the memberships it removes.
use contractor_reviewer.Common.{
  String, true, false, ◌≡◌, refl, sym, ap, ◌∙◌, ◌≢◌, inl, inr, arith, List, [], ◌∷◌, Bool-cases,
  ◌==◌, any, eqb, length, In,
}
use contractor_reviewer.Entities.{Role, owner, WorkspaceMember, User, member_key}
use contractor_reviewer.Repository.{Distinct, unless}
use contractor_reviewer.Repository.Loops.{remove_all-found, any-In, In-any}
use contractor_reviewer.Workspace.{Tables, Db, is_owner}
use contractor_reviewer.Workspace.Members.{Has, IsUnique}
use contractor_reviewer.Auth.{Services, owns, owner_in, is_only_owner, memberships, remove_user}
use text.Mathlib.TextEquality.{eq_iff}

-- A list of one element has no other.
In-one : {A : Type 0} (xs : List A) (x y : A) → eqb (length xs) 1 ≡ true → In x xs → In y xs → x ≡ y
In-one [] x y e mx my = absurd mx
In-one (z ∷ []) x y e (inl ex) (inl ey) = ex ∙ sym ey
In-one (z ∷ []) x y e (inl ex) (inr my) = absurd my
In-one (z ∷ []) x y e (inr mx) my = absurd mx
In-one (z ∷ w ∷ xs) x y e mx my = absurd (ground arith)

-- A list of another length than one with different keys has, beside each of its elements, another.
In-other :
    {Row : Type 0} (key : Row → String) (xs : List Row) (x : Row)
    → Distinct key xs
    → eqb (length xs) 1 ≡ false
    → In x xs
    → (y : Row) × In y xs × (key y ≢ key x)
In-other key [] x d e m = absurd m
In-other key (z ∷ []) x d e m = absurd (ground arith)
In-other key (z ∷ w ∷ xs) x (dz, dw) e (inl ex) =
    (w, inr (inl refl), λ k. dz w (inl refl) (sym (k ∙ ap key ex)))
In-other key (z ∷ w ∷ xs) x (dz, dw) e (inr m) = (z, inl refl, dz x m)

is_owner_iff : (r : Role) → is_owner r ≡ true → r ≡ owner
is_owner_iff owner e = refl
is_owner_iff _ e = absurd (ground arith)

module _ (S : Services) (T : Tables) where
  owned-rows :
      (user : String) (db : Db T) (m : WorkspaceMember)
      → In m (T.members.find (owns S T user) db.members)
      → Has T.members db.members m × (m.user_id ≡ user) × (m.role ≡ owner)
  owned-rows user db m i =
      let (h, q) = T.members.find_sound (owns S T user) db.members m i in
      (h, ground (arith, q, eq_iff m.user_id user), is_owner_iff m.role (ground (arith, q)))

  owner_rows :
      (ws : String) (db : Db T) (m : WorkspaceMember)
      → In m (T.members.find (owner_in S T ws) db.members)
      → Has T.members db.members m × (m.workspace_id ≡ ws) × (m.role ≡ owner)
  owner_rows ws db m i =
      let (h, q) = T.members.find_sound (owner_in S T ws) db.members m i in
      (h, ground (arith, q, eq_iff m.workspace_id ws), is_owner_iff m.role (ground (arith, q)))

  In-owner_rows :
      (db : Db T) (m : WorkspaceMember) (ws : String)
      → Has T.members db.members m
      → m.workspace_id ≡ ws
      → m.role ≡ owner
      → In m (T.members.find (owner_in S T ws) db.members)
  In-owner_rows db m ws h w o =
      T.members.find_complete (owner_in S T ws) db.members m.id m h
        (ground (arith, eq_iff m.workspace_id ws, w, ap is_owner o))

  In-owned_rows :
      (db : Db T) (m : WorkspaceMember) (user : String)
      → Has T.members db.members m
      → m.user_id ≡ user
      → m.role ≡ owner
      → In m (T.members.find (owns S T user) db.members)
  In-owned_rows db m user h u o =
      T.members.find_complete (owns S T user) db.members m.id m h
        (ground (arith, eq_iff m.user_id user, u, ap is_owner o))

  -- Deleting the memberships deletes the user's rows.
  pub at-remove_user :
      (u : User) (db : Db T) (k : String)
      → T.members.at (remove_user S T u db).members k
        ≡ unless (λ m. m.user_id == u.id) (T.members.at db.members k)
  at-remove_user u db k =
      remove_all-found member_key T.members (λ m. true) (λ m. m.user_id == u.id)
        (memberships S T u.id db) db.members k
        (λ m i. let (h, q) = T.members.find_sound _ db.members m i in (h, refl, q))
        (λ m h t q. T.members.find_complete (λ m. m.user_id == u.id) db.members k m h q)

  -- The membership is an owner's, and the only one of its workspace.
  pub record IsSoleOwner (user : String) (db : Db T) (m : WorkspaceMember) : Type 0 where
    pub has : Has T.members db.members m
    pub is_theirs : m.user_id ≡ user
    pub is_owned : m.role ≡ owner
    pub alone :
        (c : WorkspaceMember)
        → Has T.members db.members c
        → c.workspace_id ≡ m.workspace_id
        → c.role ≡ owner
        → c ≡ m

  -- The loop over the owned workspaces finds one where the user is the only owner.
  pub any-IsSoleOwner :
      (user : String) (db : Db T)
      → any (is_only_owner S T db) (T.members.find (owns S T user) db.members) ≡ true
      → (m : WorkspaceMember) × IsSoleOwner user db m
  any-IsSoleOwner user db e =
      let (m, i, one) =
        In-any (is_only_owner S T db) (T.members.find (owns S T user) db.members) e in
      let (h, u, o) = owned-rows user db m i in
      (
        m,
        record {
          has = h;
          is_theirs = u;
          is_owned = o;
          alone = λ c hc w oc.
              In-one (T.members.find (owner_in S T m.workspace_id) db.members) c m one
                (In-owner_rows db c m.workspace_id hc w oc)
                (In-owner_rows db m m.workspace_id h refl o);
        },
      )

  -- Where it finds none, each workspace that the user owns has an owner that is another user.
  pub other_owner :
      (user : String) (db : Db T) (m : WorkspaceMember)
      → IsUnique T.members db.members
      → any (is_only_owner S T db) (T.members.find (owns S T user) db.members) ≡ false
      → Has T.members db.members m
      → m.user_id ≡ user
      → m.role ≡ owner
      → (c : WorkspaceMember) × Has T.members db.members c
        × (c.workspace_id ≡ m.workspace_id)
        × (c.role ≡ owner)
        × (c.user_id ≢ user)
  other_owner user db m unique e h u o = elim (Bool-cases (is_only_owner S T db m)) [
    | inl b ↦ absurd (
        ground (
          arith,
          e,
          any-In (is_only_owner S T db) m (T.members.find (owns S T user) db.members)
              (In-owned_rows db m user h u o) b,
        ))
    | inr b ↦
        let (c, i, ne) =
          In-other member_key (T.members.find (owner_in S T m.workspace_id) db.members) m
            (T.members.find-Distinct _ db.members) b (In-owner_rows db m m.workspace_id h refl o) in
        let (hc, wc, oc) = owner_rows m.workspace_id db c i in
        (
          c,
          hc,
          wc,
          oc,
          λ uc. ne (ap (λ (x : WorkspaceMember). x.id) (unique c m hc h wc (uc ∙ sym u))),
        )
  ]
