-- ===== src/Workspace/Rows.antt =====
-- Which row a look-up by workspace and user selects after a row is written or removed.
use contractor_reviewer.Common.{
  String, ◌≡◌, sym, ap, ◌∙◌, ◌≢◌, inl, inr, arith, none, some, Option-cases, Bool-cases, ==-cases,
  if◌then◌else◌,
}
use contractor_reviewer.Repository.{Repository}
use contractor_reviewer.Entities.{WorkspaceMember, member_key}
use contractor_reviewer.Workspace.{in_workspace}
use contractor_reviewer.Workspace.Members.{
  Has, IsUnique, find_one_Has, find_one_none, find_one_unique, Has-save_ne, Has-save_self,
  Has-remove_ne, Has-remove_self, Has-save_eq, Has-eq,
}
use text.Mathlib.TextEquality.{eq_iff}

module _ (N : Repository member_key) where
  -- Writing `r` replaces at most a row of the same user and workspace, and meets no other.
  pub record Replaces (t : N.Table) (r : WorkspaceMember) : Type 0 where
    pub same :
        (m : WorkspaceMember)
        → Has N t m
        → r.id ≡ m.id
        → (m.workspace_id ≡ r.workspace_id) × (m.user_id ≡ r.user_id)
    pub apart :
        (m : WorkspaceMember)
        → Has N t m
        → r.id ≢ m.id
        → m.workspace_id ≡ r.workspace_id
        → m.user_id ≢ r.user_id

  module _ (t : N.Table) (unique : IsUnique N t) where
    pub save-IsUnique : (r : WorkspaceMember) → Replaces t r → IsUnique N (N.save r t)
    save-IsUnique r rep a b ha hb w u = elim (==-cases r.id a.id) [
      | inl (_, ea) ↦ elim (==-cases r.id b.id) [
        | inl (_, eb) ↦ sym (Has-save_eq N t r a ea ha) ∙ Has-save_eq N t r b eb hb
        | inr (_, nb) ↦
            let ra = Has-save_eq N t r a ea ha in
            absurd (
              rep.apart b (sym (Has-save_ne N t r b nb) ∙ hb) nb
                (sym w ∙ sym (ap (λ (m : WorkspaceMember). m.workspace_id) ra))
                (sym u ∙ sym (ap (λ (m : WorkspaceMember). m.user_id) ra)))
      ]
      | inr (_, na) ↦
          let ha' = sym (Has-save_ne N t r a na) ∙ ha in
          elim (==-cases r.id b.id) [
            | inl (_, eb) ↦
                let rb = Has-save_eq N t r b eb hb in
                absurd (
                  rep.apart a ha' na (w ∙ sym (ap (λ (m : WorkspaceMember). m.workspace_id) rb))
                    (u ∙ sym (ap (λ (m : WorkspaceMember). m.user_id) rb)))
            | inr (_, nb) ↦ unique a b ha' (sym (Has-save_ne N t r b nb) ∙ hb) w u
          ]
    ]

    pub find_one-save :
        (r : WorkspaceMember) (ws user : String)
        → Replaces t r
        → N.find_one (in_workspace ws user) (N.save r t)
          ≡ (if in_workspace ws user r then some r else N.find_one (in_workspace ws user) t)
    find_one-save r ws user rep = elim (Bool-cases (in_workspace ws user r)) [
      | inl b ↦ rw b (
          find_one_unique N (N.save r t) ws user r (save-IsUnique r rep) (Has-save_self N t r)
            (ground (arith, eq_iff r.workspace_id ws)) (ground (arith, eq_iff r.user_id user)))
      | inr b ↦ rw b (elim (Option-cases (N.find_one (in_workspace ws user) t)) [
        | inr (m, e) ↦
            let (h, w, u) = find_one_Has N t ws user m e in
            let ne : r.id ≢ m.id = λ i.
              let (w', u') = rep.same m h i in
              ground
                (arith, eq_iff r.workspace_id ws, eq_iff r.user_id user, sym w' ∙ w, sym u' ∙ u) in
            find_one_unique N (N.save r t) ws user m (save-IsUnique r rep)
              (Has-save_ne N t r m ne ∙ h) w u
            ∙ sym e
        | inl e ↦ elim (Option-cases (N.find_one (in_workspace ws user) (N.save r t))) [
          | inl e' ↦ e' ∙ sym e
          | inr (m, e') ↦
              let (h, w, u) = find_one_Has N (N.save r t) ws user m e' in
              elim (==-cases r.id m.id) [
                | inl (_, i) ↦
                    let rm = Has-save_eq N t r m i h in
                    absurd (
                      ground (
                        arith,
                        eq_iff r.workspace_id ws,
                        eq_iff r.user_id user,
                        ap (λ (x : WorkspaceMember). x.workspace_id) rm ∙ w,
                        ap (λ (x : WorkspaceMember). x.user_id) rm ∙ u,
                      ))
                | inr (_, i) ↦
                    absurd (find_one_none N t ws user m e (sym (Has-save_ne N t r m i) ∙ h) w u)
              ]
        ]
      ])
    ]

    pub remove-IsUnique : (r : WorkspaceMember) → IsUnique N (N.remove r t)
    remove-IsUnique r a b ha hb w u = elim (==-cases r.id a.id) [
      | inl (_, e) ↦ absurd (Has-remove_self N t r a e ha)
      | inr (_, na) ↦ elim (==-cases r.id b.id) [
        | inl (_, e) ↦ absurd (Has-remove_self N t r b e hb)
        | inr (_, nb) ↦
            unique a b (sym (Has-remove_ne N t r a na) ∙ ha) (sym (Has-remove_ne N t r b nb) ∙ hb) w
              u
      ]
    ]

    pub find_one-remove :
        (r : WorkspaceMember) (ws user : String)
        → Has N t r
        → N.find_one (in_workspace ws user) (N.remove r t)
          ≡ (if in_workspace ws user r then none else N.find_one (in_workspace ws user) t)
    find_one-remove r ws user hr =
        elim (Option-cases (N.find_one (in_workspace ws user) (N.remove r t))) [
          | inr (m, e) ↦
              let (h, w, u) = find_one_Has N (N.remove r t) ws user m e in
              let ne : r.id ≢ m.id = λ i. Has-remove_self N t r m i h in
              let h' = sym (Has-remove_ne N t r m ne) ∙ h in
              elim (Bool-cases (in_workspace ws user r)) [
                | inl b ↦ absurd (
                    ne (
                      ap (λ (x : WorkspaceMember). x.id)
                        (unique r m hr h' (ground (arith, eq_iff r.workspace_id ws))
                          (ground (arith, eq_iff r.user_id user)))))
                | inr b ↦ rw b (e ∙ sym (find_one_unique N t ws user m unique h' w u))
              ]
          | inl e ↦ elim (Bool-cases (in_workspace ws user r)) [
            | inl b ↦ rw b e
            | inr b ↦ rw b (elim (Option-cases (N.find_one (in_workspace ws user) t)) [
              | inl e' ↦ e ∙ sym e'
              | inr (m, e') ↦
                  let (h, w, u) = find_one_Has N t ws user m e' in
                  let ne : r.id ≢ m.id = λ i.
                    let rm = Has-eq N t r m hr h i in
                    ground (
                      arith,
                      eq_iff r.workspace_id ws,
                      eq_iff r.user_id user,
                      ap (λ (x : WorkspaceMember). x.workspace_id) rm ∙ w,
                      ap (λ (x : WorkspaceMember). x.user_id) rm ∙ u,
                    ) in
                  absurd
                    (find_one_none N (N.remove r t) ws user m e (Has-remove_ne N t r m ne ∙ h) w u)
            ])
          ]
        ]
