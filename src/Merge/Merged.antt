-- ===== src/Merge/Merged.antt =====
-- What `merge` does with each issue that it is given.
use contractor_reviewer.Common.{
  ℕ, ◌≤◌, String, ◌≡◌, refl, sym, ap, ◌⊎◌, inl, inr, arith, List, [], ◌∷◌, ◌++◌, ◌==◌, In, All,
  Bool-cases, subst, In-append_left, In-append_right, map,
}
use contractor_reviewer.Merge.{
  LegalIssue, rank, Group, issues_of, join, alone, issue_key, add_to_bucket, fill_buckets,
  cluster_by_similarity, worst, collapse_cluster, merge_group, merge_groups, merge,
}
use contractor_reviewer.Merge.Clusters.{
  IsSorted, sort_issues-IsSorted, In-sort, All-In, worst-below, worst-All,
}
use contractor_reviewer.Merge.Cover.{
  In-join_self, In-join_kept, All-join, cluster-Holds, cluster-All,
}
use text.Mathlib.TextEquality.{eq_iff}

-- Some output stands for the input `i`: it has the severity and category of an input `source` that
-- has the key of `i`, and is at least as severe as `i`.
pub record Stands (inputs outputs : List LegalIssue) (i : LegalIssue) : Type 0 where
  pub output : LegalIssue
  pub source : LegalIssue
  pub output-In : In output outputs
  pub source-In : In source inputs
  pub source-key : issue_key source ≡ issue_key i
  pub source-severity : output.severity ≡ source.severity
  pub source-category : output.category ≡ source.category
  pub not_milder : rank i.severity ≤ rank output.severity

-- Likewise, with any predicate of the source.
record StandsFor (P : LegalIssue → Type 0) (outputs : List LegalIssue) (i : LegalIssue)
    : Type 0 where
  pub output : LegalIssue
  pub source : LegalIssue
  pub output-In : In output outputs
  pub source-P : P source
  pub source-severity : output.severity ≡ source.severity
  pub source-category : output.category ≡ source.category
  pub not_milder : rank i.severity ≤ rank output.severity

abbrev Bucket : Type 0
Bucket = String × Group

-- The issues of a bucket are inputs with its key.
abbrev IsKeyed : List LegalIssue → Bucket → Type 0
IsKeyed inputs b = All (λ j. In j inputs × (issue_key j ≡ b.0)) (issues_of b.1)

record InBucket (i : LegalIssue) (bs : List Bucket) : Type 0 where
  pub bucket : Bucket
  pub bucket-In : In bucket bs
  pub issue-In : In i (issues_of bucket.1)

InBucket-cons :
    (i : LegalIssue) (b : Bucket) (bs : List Bucket) → InBucket i bs → InBucket i (b ∷ bs)
InBucket-cons i b bs h = record {
  bucket = h.bucket;
  bucket-In = inr h.bucket-In;
  issue-In = h.issue-In;
}

add_to_bucket-InBucket_self : (i : LegalIssue) (bs : List Bucket) → InBucket i (add_to_bucket i bs)
unfolding add_to_bucket
add_to_bucket-InBucket_self i [] = record {
  bucket = (issue_key i, alone i);
  bucket-In = inl refl;
  issue-In = inl refl;
}
add_to_bucket-InBucket_self i ((k, g) ∷ bs) = elim (Bool-cases (k == issue_key i)) [
  | inl e ↦
      rw (e, add_to_bucket)
        (record { bucket = (k, join i g); bucket-In = inl refl; issue-In = In-join_self i g })
  | inr e ↦
      rw (e, add_to_bucket)
        (InBucket-cons i (k, g) (add_to_bucket i bs) (add_to_bucket-InBucket_self i bs))
]

add_to_bucket-InBucket_kept :
    (x i : LegalIssue) (bs : List Bucket) → InBucket x bs → InBucket x (add_to_bucket i bs)
unfolding add_to_bucket
add_to_bucket-InBucket_kept x i [] h = absurd h.bucket-In
add_to_bucket-InBucket_kept x i ((k, g) ∷ bs) h = elim (Bool-cases (k == issue_key i)) [
  | inl e ↦
      rw (e, add_to_bucket)
        (elim h.bucket-In [
          | inl q ↦ record {
            bucket = (k, join i g);
            bucket-In = inl refl;
            issue-In =
                In-join_kept x i g (subst (λ (b : Bucket). In x (issues_of b.1)) q h.issue-In);
          }
          | inr m ↦ record { bucket = h.bucket; bucket-In = inr m; issue-In = h.issue-In }
        ])
  | inr e ↦
      rw (e, add_to_bucket)
        (elim h.bucket-In [
          | inl q ↦ record { bucket = h.bucket; bucket-In = inl q; issue-In = h.issue-In }
          | inr m ↦
              InBucket-cons x (k, g) (add_to_bucket i bs)
                (add_to_bucket-InBucket_kept x i bs
                  (record { bucket = h.bucket; bucket-In = m; issue-In = h.issue-In }))
        ])
]

add_to_bucket-IsKeyed :
    (inputs : List LegalIssue) (i : LegalIssue) (bs : List Bucket)
    → In i inputs
    → All (IsKeyed inputs) bs
    → All (IsKeyed inputs) (add_to_bucket i bs)
unfolding add_to_bucket
add_to_bucket-IsKeyed inputs i [] p h = (((p, refl), tt), tt)
add_to_bucket-IsKeyed inputs i ((k, g) ∷ bs) p h = elim (Bool-cases (k == issue_key i)) [
  | inl e ↦
      let same : issue_key i ≡ k = sym ((eq_iff k (issue_key i)).0 e) in
      rw (e, add_to_bucket) (All-join (λ j. In j inputs × (issue_key j ≡ k)) i g (p, same) h.0, h.1)
  | inr e ↦ rw (e, add_to_bucket) (h.0, add_to_bucket-IsKeyed inputs i bs p h.1)
]

fill_buckets-InBucket :
    (x : LegalIssue) (is : List LegalIssue) (bs : List Bucket)
    → In x is ⊎ InBucket x bs
    → InBucket x (fill_buckets is bs)
unfolding fill_buckets
fill_buckets-InBucket x [] bs (inl m) = absurd m
fill_buckets-InBucket x [] bs (inr h) = h
fill_buckets-InBucket x (i ∷ is) bs (inl (inl e)) =
    fill_buckets-InBucket x is (add_to_bucket i bs) (
      inr (subst (λ y. InBucket y (add_to_bucket i bs)) (sym e) (add_to_bucket-InBucket_self i bs)))
fill_buckets-InBucket x (i ∷ is) bs (inl (inr m)) =
    fill_buckets-InBucket x is (add_to_bucket i bs) (inl m)
fill_buckets-InBucket x (i ∷ is) bs (inr h) =
    fill_buckets-InBucket x is (add_to_bucket i bs) (inr (add_to_bucket-InBucket_kept x i bs h))

fill_buckets-IsKeyed :
    (inputs is : List LegalIssue) (bs : List Bucket)
    → All (λ i. In i inputs) is
    → All (IsKeyed inputs) bs
    → All (IsKeyed inputs) (fill_buckets is bs)
unfolding fill_buckets
fill_buckets-IsKeyed inputs [] bs p h = h
fill_buckets-IsKeyed inputs (i ∷ is) bs p h =
    fill_buckets-IsKeyed inputs is (add_to_bucket i bs) p.1
      (add_to_bucket-IsKeyed inputs i bs p.0 h)

All-In_self :
    (is js : List LegalIssue) → ((i : LegalIssue) → In i is → In i js) → All (λ i. In i js) is
All-In_self [] js h = tt
All-In_self (i ∷ is) js h = (h i (inl refl), All-In_self is js (λ k m. h k (inr m)))

In-map_cluster :
    (f : Group → LegalIssue) (c : Group) (cs : List Group) → In c cs → In (f c) (map f cs)
In-map_cluster f c [] m = absurd m
In-map_cluster f c (d ∷ cs) (inl e) = inl (ap f e)
In-map_cluster f c (d ∷ cs) (inr m) = inr (In-map_cluster f c cs m)

module _ (lower : List ℕ → List ℕ) where
  merge_group-StandsFor :
      (P : LegalIssue → Type 0) (i first : LegalIssue) (rest : List LegalIssue)
      → All P (first ∷ rest)
      → In i (first ∷ rest)
      → StandsFor P (merge_group lower (record { first = first; rest = rest })) i
  unfolding merge_group collapse_cluster
  merge_group-StandsFor P i first [] p (inl e) = record {
    output = first;
    source = first;
    output-In = inl refl;
    source-P = p.0;
    source-severity = refl;
    source-category = refl;
    not_milder =
        subst (λ (y : LegalIssue). rank y.severity ≤ rank first.severity) (sym e) (omega arith);
  }
  merge_group-StandsFor P i first [] p (inr m) = absurd m
  merge_group-StandsFor P i first (j ∷ js) p m =
      let cs = cluster_by_similarity lower (first ∷ j ∷ js) [] in
      let h = cluster-Holds lower i (first ∷ j ∷ js) [] (inl m) in
      let all =
        All-In (λ c. All P (issues_of c)) h.group cs (cluster-All lower P (first ∷ j ∷ js) [] p tt)
          h.group-In in
      record {
        output = collapse_cluster lower h.group;
        source = worst lower h.group;
        output-In = In-map_cluster (collapse_cluster lower) h.group cs h.group-In;
        source-P = worst-All lower P h.group all;
        source-severity = refl;
        source-category = refl;
        not_milder = worst-below lower i h.group h.issue-In;
      }

  StandsFor-In :
      (P : LegalIssue → Type 0) (i : LegalIssue) (xs ys : List LegalIssue)
      → ((o : LegalIssue) → In o xs → In o ys)
      → StandsFor P xs i
      → StandsFor P ys i
  StandsFor-In P i xs ys sub s = record {
    output = s.output;
    source = s.source;
    output-In = sub s.output s.output-In;
    source-P = s.source-P;
    source-severity = s.source-severity;
    source-category = s.source-category;
    not_milder = s.not_milder;
  }

  merge_groups-StandsFor :
      (inputs : List LegalIssue) (i : LegalIssue) (b : Bucket) (bs : List Bucket)
      → All (IsKeyed inputs) bs
      → In b bs
      → In i (issues_of b.1)
      → StandsFor (λ j. In j inputs × (issue_key j ≡ issue_key i)) (merge_groups lower bs) i
  unfolding merge_groups
  merge_groups-StandsFor inputs i b [] p m n = absurd m
  merge_groups-StandsFor inputs i b ((k, g) ∷ bs) p (inl e) n =
      let n' : In i (issues_of g) = subst (λ (c : Bucket). In i (issues_of c.1)) e n in
      let key = (All-In (λ j. In j inputs × (issue_key j ≡ k)) i (issues_of g) p.0 n').1 in
      StandsFor-In (λ j. In j inputs × (issue_key j ≡ issue_key i)) i (merge_group lower g)
        (merge_group lower g ++ merge_groups lower bs)
        (λ o m. In-append_left o (merge_group lower g) (merge_groups lower bs) m)
        (merge_group-StandsFor (λ j. In j inputs × (issue_key j ≡ issue_key i)) i g.first g.rest
          (subst (λ l. All (λ j. In j inputs × (issue_key j ≡ l)) (issues_of g)) (sym key) p.0) n')
  merge_groups-StandsFor inputs i b ((k, g) ∷ bs) p (inr m) n =
      StandsFor-In (λ j. In j inputs × (issue_key j ≡ issue_key i)) i (merge_groups lower bs)
        (merge_group lower g ++ merge_groups lower bs)
        (λ o q. In-append_right o (merge_group lower g) (merge_groups lower bs) q)
        (merge_groups-StandsFor inputs i b bs p.1 m n)

  -- Merging loses no issue and softens none: for each issue of the rules or of the model, some
  -- merged issue is at least as severe, and has the severity and the category of an issue with the
  -- same key. The merged issues are in the order of their severities, the worst first.
  pub merge-Stands :
      (rules llm : List LegalIssue) (i : LegalIssue)
      → In i (rules ++ llm)
      → Stands (rules ++ llm) (merge lower rules llm) i × IsSorted (merge lower rules llm)
  unfolding merge
  merge-Stands rules llm i m =
      let inputs = rules ++ llm in
      let h = fill_buckets-InBucket i inputs [] (inl m) in
      let keyed = fill_buckets-IsKeyed inputs inputs [] (All-In_self inputs inputs (λ k n. n)) tt in
      let outs = merge_groups lower (fill_buckets inputs []) in
      let s =
        merge_groups-StandsFor inputs i h.bucket (fill_buckets inputs []) keyed h.bucket-In
          h.issue-In in
      (
        record {
          output = s.output;
          source = s.source;
          output-In = In-sort s.output outs s.output-In;
          source-In = s.source-P.0;
          source-key = s.source-P.1;
          source-severity = s.source-severity;
          source-category = s.source-category;
          not_milder = s.not_milder;
        },
        sort_issues-IsSorted outs,
      )
