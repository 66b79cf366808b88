-- ===== src/Merge/Cover.antt =====
-- What `merge` does with each issue that it is given.
use contractor_reviewer.Common.{
  ℕ, refl, sym, ◌⊎◌, inl, inr, List, [], ◌∷◌, In, All, Bool-cases, subst, All-append,
  In-append_left, In-append_right,
}
use contractor_reviewer.Merge.{
  LegalIssue, Group, issues_of, join, alone, similar, add_to_cluster, cluster_by_similarity,
}

-- A group of the list has the issue.
pub record Holds (i : LegalIssue) (gs : List Group) : Type 0 where
  pub group : Group
  pub group-In : In group gs
  pub issue-In : In i (issues_of group)

pub In-join_self : (i : LegalIssue) (g : Group) → In i (issues_of (join i g))
In-join_self i g = inr (In-append_right i g.rest (i ∷ []) (inl refl))

pub In-join_kept : (x i : LegalIssue) (g : Group) → In x (issues_of g) → In x (issues_of (join i g))
In-join_kept x i g (inl e) = inl e
In-join_kept x i g (inr m) = inr (In-append_left x g.rest (i ∷ []) m)

pub All-join :
    (P : LegalIssue → Type 0) (i : LegalIssue) (g : Group)
    → P i
    → All P (issues_of g)
    → All P (issues_of (join i g))
All-join P i g p h = (h.0, All-append P g.rest (i ∷ []) h.1 (p, tt))

pub Holds-cons : (i : LegalIssue) (g : Group) (gs : List Group) → Holds i gs → Holds i (g ∷ gs)
Holds-cons i g gs h = record { group = h.group; group-In = inr h.group-In; issue-In = h.issue-In }

module _ (lower : List ℕ → List ℕ) where
  add_to_cluster-Holds_self :
      (i : LegalIssue) (cs : List Group) → Holds i (add_to_cluster lower i cs)
  unfolding add_to_cluster
  add_to_cluster-Holds_self i [] = record {
    group = alone i;
    group-In = inl refl;
    issue-In = inl refl;
  }
  add_to_cluster-Holds_self i (c ∷ cs) =
      elim (Bool-cases (similar lower c.first.message i.message)) [
        | inl e ↦
            rw (e, add_to_cluster)
              (record { group = join i c; group-In = inl refl; issue-In = In-join_self i c })
        | inr e ↦
            rw (e, add_to_cluster)
              (Holds-cons i c (add_to_cluster lower i cs) (add_to_cluster-Holds_self i cs))
      ]

  add_to_cluster-Holds_kept :
      (x i : LegalIssue) (cs : List Group) → Holds x cs → Holds x (add_to_cluster lower i cs)
  unfolding add_to_cluster
  add_to_cluster-Holds_kept x i [] h = absurd h.group-In
  add_to_cluster-Holds_kept x i (c ∷ cs) h =
      elim (Bool-cases (similar lower c.first.message i.message)) [
        | inl e ↦
            rw (e, add_to_cluster)
              (elim h.group-In [
                | inl q ↦ record {
                  group = join i c;
                  group-In = inl refl;
                  issue-In = In-join_kept x i c (subst (λ g. In x (issues_of g)) q h.issue-In);
                }
                | inr m ↦ record { group = h.group; group-In = inr m; issue-In = h.issue-In }
              ])
        | inr e ↦
            rw (e, add_to_cluster)
              (elim h.group-In [
                | inl q ↦ record { group = h.group; group-In = inl q; issue-In = h.issue-In }
                | inr m ↦ Holds-cons x c (add_to_cluster lower i cs) (
                    add_to_cluster-Holds_kept x i cs
                      (record { group = h.group; group-In = m; issue-In = h.issue-In }))
              ])
      ]

  add_to_cluster-All :
      (P : LegalIssue → Type 0) (i : LegalIssue) (cs : List Group)
      → P i
      → All (λ c. All P (issues_of c)) cs
      → All (λ c. All P (issues_of c)) (add_to_cluster lower i cs)
  unfolding add_to_cluster
  add_to_cluster-All P i [] p h = ((p, tt), tt)
  add_to_cluster-All P i (c ∷ cs) p h =
      elim (Bool-cases (similar lower c.first.message i.message)) [
        | inl e ↦ rw (e, add_to_cluster) (All-join P i c p h.0, h.1)
        | inr e ↦ rw (e, add_to_cluster) (h.0, add_to_cluster-All P i cs p h.1)
      ]

  pub cluster-Holds :
      (x : LegalIssue) (is : List LegalIssue) (cs : List Group)
      → In x is ⊎ Holds x cs
      → Holds x (cluster_by_similarity lower is cs)
  unfolding cluster_by_similarity
  cluster-Holds x [] cs (inl m) = absurd m
  cluster-Holds x [] cs (inr h) = h
  cluster-Holds x (i ∷ is) cs (inl (inl e)) = cluster-Holds x is (add_to_cluster lower i cs) (
      inr
        (subst (λ y. Holds y (add_to_cluster lower i cs)) (sym e) (add_to_cluster-Holds_self i cs)))
  cluster-Holds x (i ∷ is) cs (inl (inr m)) = cluster-Holds x is (add_to_cluster lower i cs) (inl m)
  cluster-Holds x (i ∷ is) cs (inr h) =
      cluster-Holds x is (add_to_cluster lower i cs) (inr (add_to_cluster-Holds_kept x i cs h))

  pub cluster-All :
      (P : LegalIssue → Type 0) (is : List LegalIssue) (cs : List Group)
      → All P is
      → All (λ c. All P (issues_of c)) cs
      → All (λ c. All P (issues_of c)) (cluster_by_similarity lower is cs)
  unfolding cluster_by_similarity
  cluster-All P [] cs p h = h
  cluster-All P (i ∷ is) cs p h =
      cluster-All P is (add_to_cluster lower i cs) p.1 (add_to_cluster-All P i cs p.0 h)
