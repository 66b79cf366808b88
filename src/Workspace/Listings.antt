-- ===== src/Workspace/Listings.antt =====
-- findByUserId and getMembers of the service.
use contractor_reviewer.Common.{
  String, Bool, true, ◌≡◌, refl, sym, ap, ◌∙◌, ◌↔◌, inl, inr, arith, List, [], ◌∷◌, none, some,
  Option-cases, Bool-cases, ◌==◌, if◌then◌else◌, any, find, map, In, leb, get_or, subst,
}
use contractor_reviewer.Entities.{Workspace, WorkspaceMember}
use contractor_reviewer.Workspace.{
  Tables, Db, Result, ok, and_then, find_by_id, get_membership, is_member, in_workspace,
}
use contractor_reviewer.Workspace.Members.{get_membership-Has, find_one_none}
use text.Mathlib.TextEquality.{eq_iff}

module _ (T : Tables) (db : Db T) where
  -- The relation `workspace` of the memberships, without those that have none.
  pub loaded : List WorkspaceMember → List Workspace
  loaded [] = []
  loaded (m ∷ ms) =
      let rest = loaded ms in
      elim (T.workspaces.find_one (λ w. w.id == m.workspace_id) db.workspaces) [
        | none ↦ rest
        | some w ↦ w ∷ rest
      ]

  -- The rows with one of the ids of the list.
  abbrev pub reloaded : List Workspace → List Workspace
  reloaded ws = T.workspaces.find (λ w. any (λ v. v.id == w.id) ws) db.workspaces

  -- `workspaceMap.get(ws.id) || ws`
  pub reload : List Workspace → Workspace → Workspace
  reload rows w = get_or (find (λ r. r.id == w.id) rows) w

  abbrev pub memberships : String → List WorkspaceMember
  memberships user = T.members.find (λ m. m.user_id == user) db.members

  pub find_by_user_id : String → List Workspace
  find_by_user_id user = let ws = loaded (memberships user) in map (reload (reloaded ws)) ws

  abbrev pub insert_member : WorkspaceMember → List WorkspaceMember → List WorkspaceMember
  insert_member m [] = m ∷ []
  insert_member m (n ∷ ns) =
      let rest = insert_member m ns in if leb m.joined_at n.joined_at then m ∷ n ∷ ns else n ∷ rest

  -- The order `joinedAt: 'ASC'`.
  abbrev pub oldest_first : List WorkspaceMember → List WorkspaceMember
  oldest_first [] = []
  oldest_first (m ∷ ms) = insert_member m (oldest_first ms)

  pub get_members : String → Result (List WorkspaceMember) × Db T
  get_members ws =
      and_then T (find_by_id T ws db)
        λ w db'. (ok (oldest_first (T.members.find (λ m. m.workspace_id == ws) db'.members)), db')

  -- The row is in the table.
  abbrev Stored : Workspace → Type 0
  Stored w = T.workspaces.at db.workspaces w.id ≡ some w

  loaded_sound :
      (w : Workspace) (ms : List WorkspaceMember)
      → In w (loaded ms)
      → Stored w × ((m : WorkspaceMember) × In m ms × (w.id ≡ m.workspace_id))
  unfolding loaded
  loaded_sound w [] i = absurd i
  loaded_sound w (m ∷ ms) i =
      elim (Option-cases (T.workspaces.find_one (λ w. w.id == m.workspace_id) db.workspaces)) [
        | inl e ↦ let (s, (n, k, q)) = loaded_sound w ms (rw (e, loaded) at i) in (s, (n, inr k, q))
        | inr (v, e) ↦
            let (h, p) =
              T.workspaces.find_one_sound (λ w. w.id == m.workspace_id) db.workspaces v e in
            let i' : In w (v ∷ loaded ms) = rw (e, loaded) at i in
            elim i' [
              | inl q ↦
                  subst
                    (λ x.
                      Stored x
                      × ((m' : WorkspaceMember) × In m' (m ∷ ms) × (x.id ≡ m'.workspace_id)))
                    (sym q) (h, (m, inl refl, (eq_iff v.id m.workspace_id).0 p))
              | inr k ↦ let (s, (n, l, q)) = loaded_sound w ms k in (s, (n, inr l, q))
            ]
      ]

  loaded_complete :
      (w : Workspace) (m : WorkspaceMember) (ms : List WorkspaceMember)
      → Stored w
      → In m ms
      → m.workspace_id ≡ w.id
      → In w (loaded ms)
  unfolding loaded
  loaded_complete w m [] s i q = absurd i
  loaded_complete w m (n ∷ ms) s i q =
      elim (Option-cases (T.workspaces.find_one (λ w. w.id == n.workspace_id) db.workspaces)) [
        | inl e ↦ elim i [
          | inl k ↦
              let same : w.id ≡ n.workspace_id =
                sym q ∙ ap (λ (x : WorkspaceMember). x.workspace_id) k in
              let no =
                T.workspaces.find_one_complete (λ w. w.id == n.workspace_id) db.workspaces w.id w e
                  s in
              absurd (ground (arith, no, eq_iff w.id n.workspace_id))
          | inr k ↦ rw (e, loaded) (loaded_complete w m ms s k q)
        ]
        | inr (v, e) ↦ elim i [
          | inl k ↦
              let (h, p) =
                T.workspaces.find_one_sound (λ w. w.id == n.workspace_id) db.workspaces v e in
              let same : v.id ≡ w.id =
                (eq_iff v.id n.workspace_id).0 p
                ∙ sym (ap (λ (x : WorkspaceMember). x.workspace_id) k)
                ∙ q in
              let both : v ≡ w =
                ground (arith, sym h ∙ ap (T.workspaces.at db.workspaces) same ∙ s) in
              rw (e, loaded) (inl (sym both))
          | inr k ↦ rw (e, loaded) (inr (loaded_complete w m ms s k q))
        ]
      ]

  find_sound_list :
      (p : Workspace → Bool) (r : Workspace) (xs : List Workspace)
      → find p xs ≡ some r
      → In r xs × (p r ≡ true)
  find_sound_list p r [] e = absurd (ground arith)
  find_sound_list p r (x ∷ xs) e = elim (Bool-cases (p x)) [
    | inl b ↦ let same : x ≡ r = ground arith in (inl (sym same), rw (← same) b)
    | inr b ↦ let (i, q) = find_sound_list p r xs (ground arith) in (inr i, q)
  ]

  -- A row that is read again is the same.
  reload-Stored : (ws : List Workspace) (w : Workspace) → Stored w → reload (reloaded ws) w ≡ w
  unfolding reload
  reload-Stored ws w s = elim (Option-cases (find (λ r. r.id == w.id) (reloaded ws))) [
    | inl e ↦ rw (e, reload) refl
    | inr (r, e) ↦
        let (i, q) = find_sound_list (λ r. r.id == w.id) r (reloaded ws) e in
        let (h, p) = T.workspaces.find_sound (λ x. any (λ v. v.id == x.id) ws) db.workspaces r i in
        let same : r.id ≡ w.id = (eq_iff r.id w.id).0 q in
        rw (e, reload) (ground (arith, sym h ∙ ap (T.workspaces.at db.workspaces) same ∙ s))
  ]

  map-same :
      (f : Workspace → Workspace) (l : List Workspace)
      → ((x : Workspace) → In x l → f x ≡ x)
      → map f l ≡ l
  map-same f [] h = refl
  map-same f (x ∷ l) h =
      ap (λ y. y ∷ map f l) (h x (inl refl)) ∙ ap (λ k. x ∷ k) (map-same f l (λ y i. h y (inr i)))

  find_by_user_id-loaded : (user : String) → find_by_user_id user ≡ loaded (memberships user)
  unfolding find_by_user_id
  find_by_user_id-loaded user =
      let ws = loaded (memberships user) in
      map-same (reload (reloaded ws)) ws
        (λ x i. reload-Stored ws x (loaded_sound x (memberships user) i).0)

  -- `findByUserId` lists exactly the workspaces that are stored and that the user is a member of.
  pub find_by_user_id_lem :
      (user : String) (w : Workspace)
      → In w (find_by_user_id user)
        ↔ ((T.workspaces.at db.workspaces w.id ≡ some w) × (is_member T w.id user db ≡ true))
  unfolding is_member get_membership
  find_by_user_id_lem user w = (
    λ i.
        let (s, (m, k, q)) =
          loaded_sound w (memberships user) (subst (λ l. In w l) (find_by_user_id-loaded user) i) in
        let (h, p) = T.members.find_sound (λ m. m.user_id == user) db.members m k in
        let u : m.user_id ≡ user = (eq_iff m.user_id user).0 p in
        (
          s,
          elim (Option-cases (T.members.find_one (in_workspace w.id user) db.members)) [
            | inl e ↦ absurd (find_one_none T.members db.members w.id user m e h (sym q) u)
            | inr (x, e) ↦ rw (e, is_member) refl
          ],
        ),
    λ c. elim (Option-cases (T.members.find_one (in_workspace w.id user) db.members)) [
      | inl e ↦ absurd (ground (arith, c.1))
      | inr (m, e) ↦
          let (h, v, u) = get_membership-Has T w.id user db m e in
          let k =
            T.members.find_complete (λ m. m.user_id == user) db.members m.id m h
              ((eq_iff m.user_id user).1 u) in
          subst (λ l. In w l) (sym (find_by_user_id-loaded user))
            (loaded_complete w m (memberships user) c.0 k v)
    ],
  )

  In-insert_member :
      (x m : WorkspaceMember) (ns : List WorkspaceMember)
      → In x (insert_member m ns) ↔ In x (m ∷ ns)
  In-insert_member x m [] = (λ i. i, λ i. i)
  In-insert_member x m (n ∷ ns) =
      let (to, from) = In-insert_member x m ns in
      elim (Bool-cases (leb m.joined_at n.joined_at)) [
        | inl b ↦ rw b (λ i. i, λ i. i)
        | inr b ↦ rw b (
          λ i. elim i [
            | inl e ↦ inr (inl e)
            | inr k ↦ elim (to k) [ inl e ↦ inl e | inr l ↦ inr (inr l) ]
          ],
          λ i. elim i [
            | inl e ↦ inr (from (inl e))
            | inr k ↦ elim k [ inl e ↦ inl e | inr l ↦ inr (from (inr l)) ]
          ],
        )
      ]

  In-oldest_first :
      (x : WorkspaceMember) (ms : List WorkspaceMember) → In x (oldest_first ms) ↔ In x ms
  In-oldest_first x [] = (λ i. i, λ i. i)
  In-oldest_first x (m ∷ ms) =
      let (to, from) = In-insert_member x m (oldest_first ms) in
      let (to', from') = In-oldest_first x ms in
      (
        λ i. elim (to i) [ inl e ↦ inl e | inr k ↦ inr (to' k) ],
        λ i. from (elim i [ inl e ↦ inl e | inr k ↦ inr (from' k) ]),
      )

  -- For a stored workspace `getMembers` returns its memberships, all of them and no others.
  pub get_members_lem :
      (ws : String) (w : Workspace)
      → T.workspaces.find_one (λ x. x.id == ws) db.workspaces ≡ some w
      → (ms : List WorkspaceMember) × (get_members ws ≡ (ok ms, db))
        × ((m : WorkspaceMember)
            → In m ms ↔ (T.members.at db.members m.id ≡ some m) × (m.workspace_id ≡ ws))
  unfolding get_members find_by_id
  get_members_lem ws w e =
      let found = T.members.find (λ m. m.workspace_id == ws) db.members in
      (
        oldest_first found,
        rw (e, get_members) refl,
        λ m.
            let (to, from) = In-oldest_first m found in
            (
              λ i.
                  let (h, p) =
                    T.members.find_sound (λ m. m.workspace_id == ws) db.members m (to i) in
                  (h, (eq_iff m.workspace_id ws).0 p),
              λ c. from (
                  T.members.find_complete (λ m. m.workspace_id == ws) db.members m.id m c.0
                    ((eq_iff m.workspace_id ws).1 c.1)),
            ),
      )
