-- ===== src/Review/Issues.antt =====
-- The issues that a review stores.
use contractor_reviewer.Common.{
  ℕ, ◌+◌, ◌≤◌, true, ◌≡◌, refl, ◌⊎◌, inl, inr, arith, List, [], ◌∷◌, ◌++◌, none, some, Bool-cases,
  if◌then◌else◌, eqb, length, filter, In, All,
}
use contractor_reviewer.Merge.{
  IssueSeverity, blocker, high, medium, low, info, rank, LegalIssue, merge,
}
use contractor_reviewer.Merge.Clusters.{IsBelow, IsSorted, All-IsBelow}
use contractor_reviewer.Merge.Merged.{Stands, merge-Stands}
use contractor_reviewer.Repository.{Repository}
use contractor_reviewer.Repository.Lookup.{Has-save_self}
use contractor_reviewer.Review.{
  ReviewedDocument, DocumentReview, IssueCounts, document_key, review_key, LlmDetectorResult,
  LlmOutcome, ok, Services, ReviewOptions, Fresh, count_issue, count_from, count_severities,
}
use contractor_reviewer.Review.Runs.{
  goes_after, insert_by_severity, sort_issues_by_severity, llm_part, rule_issues, is_existing,
  new_review, store_review, readable, run_review,
}
use contractor_reviewer.Review.Again.{run_review-ok}

-- The count of a severity.
abbrev pub count_of : IssueSeverity → IssueCounts → ℕ
count_of blocker c = c.blocker
count_of high c = c.high
count_of medium c = c.medium
count_of low c = c.low
count_of info c = c.info

-- How many of the issues have the severity.
abbrev pub number_of : IssueSeverity → List LegalIssue → ℕ
number_of s is = length (filter (λ i. eqb (rank i.severity) (rank s)) is)

count_issue_lem :
    (s t : IssueSeverity) (c : IssueCounts)
    → count_of s (count_issue t c) ≡ count_of s c + (if eqb (rank t) (rank s) then 1 else 0)
unfolding count_issue
count_issue_lem blocker blocker c = omega arith
count_issue_lem blocker high c = omega arith
count_issue_lem blocker medium c = omega arith
count_issue_lem blocker low c = omega arith
count_issue_lem blocker info c = omega arith
count_issue_lem high blocker c = omega arith
count_issue_lem high high c = omega arith
count_issue_lem high medium c = omega arith
count_issue_lem high low c = omega arith
count_issue_lem high info c = omega arith
count_issue_lem medium blocker c = omega arith
count_issue_lem medium high c = omega arith
count_issue_lem medium medium c = omega arith
count_issue_lem medium low c = omega arith
count_issue_lem medium info c = omega arith
count_issue_lem low blocker c = omega arith
count_issue_lem low high c = omega arith
count_issue_lem low medium c = omega arith
count_issue_lem low low c = omega arith
count_issue_lem low info c = omega arith
count_issue_lem info blocker c = omega arith
count_issue_lem info high c = omega arith
count_issue_lem info medium c = omega arith
count_issue_lem info low c = omega arith
count_issue_lem info info c = omega arith

count_from_lem :
    (s : IssueSeverity) (is : List LegalIssue) (c : IssueCounts)
    → count_of s (count_from is c) ≡ count_of s c + number_of s is
unfolding count_from
count_from_lem s [] c = omega arith
count_from_lem s (i ∷ is) c =
    ground (arith, count_from_lem s is (count_issue i.severity c), count_issue_lem s i.severity c)

abbrev zero_counts : IssueCounts
zero_counts = record { blocker = 0; high = 0; medium = 0; low = 0; info = 0 }

count_severities_lem :
    (s : IssueSeverity) (is : List LegalIssue) → count_of s (count_severities is) ≡ number_of s is
count_severities_lem blocker is = omega (arith, count_from_lem blocker is zero_counts)
count_severities_lem high is = omega (arith, count_from_lem high is zero_counts)
count_severities_lem medium is = omega (arith, count_from_lem medium is zero_counts)
count_severities_lem low is = omega (arith, count_from_lem low is zero_counts)
count_severities_lem info is = omega (arith, count_from_lem info is zero_counts)

module _ (S : Services) where
  In-insert :
      (x i : LegalIssue) (is : List LegalIssue)
      → (x ≡ i) ⊎ In x is
      → In x (insert_by_severity S i is)
  unfolding insert_by_severity
  In-insert x i [] m = m
  In-insert x i (j ∷ js) m = elim (Bool-cases (goes_after S i j)) [
    | inr b ↦ rw (b, insert_by_severity) m
    | inl b ↦
        rw (b, insert_by_severity)
          (elim m [
            | inl e ↦ inr (In-insert x i js (inl e))
            | inr (inl e) ↦ inl e
            | inr (inr n) ↦ inr (In-insert x i js (inr n))
          ])
  ]

  In-sort : (x : LegalIssue) (is : List LegalIssue) → In x is → In x (sort_issues_by_severity S is)
  unfolding sort_issues_by_severity
  In-sort x [] m = m
  In-sort x (i ∷ is) (inl e) = In-insert x i (sort_issues_by_severity S is) (inl e)
  In-sort x (i ∷ is) (inr m) = In-insert x i (sort_issues_by_severity S is) (inr (In-sort x is m))

  All-insert :
      (i k : LegalIssue) (is : List LegalIssue)
      → IsBelow k i
      → All (IsBelow k) is
      → All (IsBelow k) (insert_by_severity S i is)
  unfolding insert_by_severity
  All-insert i k [] p h = (p, tt)
  All-insert i k (j ∷ js) p h = elim (Bool-cases (goes_after S i j)) [
    | inr b ↦ rw (b, insert_by_severity) (p, h)
    | inl b ↦ rw (b, insert_by_severity) (h.0, All-insert i k js p h.1)
  ]

  insert-IsSorted :
      (i : LegalIssue) (is : List LegalIssue) → IsSorted is → IsSorted (insert_by_severity S i is)
  unfolding insert_by_severity
  insert-IsSorted i [] h = (tt, tt)
  insert-IsSorted i (j ∷ js) h = elim (Bool-cases (goes_after S i j)) [
    | inr b ↦
        let le : rank j.severity ≤ rank i.severity = ground (arith, b) in
        rw (b, insert_by_severity) ((le, All-IsBelow i j js le h.0), h)
    | inl b ↦
        rw (b, insert_by_severity)
          (All-insert i j js (ground (arith, b)) h.0, insert-IsSorted i js h.1)
  ]

  sort-IsSorted : (is : List LegalIssue) → IsSorted (sort_issues_by_severity S is)
  unfolding sort_issues_by_severity
  sort-IsSorted [] = tt
  sort-IsSorted (i ∷ is) = insert-IsSorted i (sort_issues_by_severity S is) (sort-IsSorted is)

  -- The stored review.
  pub record IsReview (rules llm : List LegalIssue) (N : Repository review_key) (t' : N.Table)
      (r : DocumentReview) : Type 0 where
    pub stored : N.at t' r.id ≡ some r
    pub complete : (i : LegalIssue) → In i (rules ++ llm) → Stands (rules ++ llm) r.issues i
    pub sorted : IsSorted r.issues
    pub counted : (s : IssueSeverity) → count_of s r.issue_counts ≡ number_of s r.issues

  new_review-IsReview :
      (f : Fresh) (o : ReviewOptions) (d : ReviewedDocument) (text : List ℕ)
      (llm : LlmDetectorResult) (N : Repository review_key) (t : N.Table)
      → let r = new_review S f o d text llm in
        IsReview (rule_issues S d text) llm.issues N (N.save r t) r
  new_review-IsReview f o d text llm N t =
      let rules = rule_issues S d text in
      let merged = merge S.lower rules llm.issues in
      record {
        stored = Has-save_self review_key N t (new_review S f o d text llm);
        complete = λ i m.
            let s = (merge-Stands S.lower rules llm.issues i m).0 in
            record {
              output = s.output;
              source = s.source;
              output-In = In-sort s.output merged s.output-In;
              source-In = s.source-In;
              source-key = s.source-key;
              source-severity = s.source-severity;
              source-category = s.source-category;
              not_milder = s.not_milder;
            };
        sorted = sort-IsSorted merged;
        counted = λ s. count_severities_lem s (sort_issues_by_severity S merged);
      }

  module _ (D : Repository document_key) (N : Repository review_key) where
    -- If the document is in the workspace and has a readable text, and the run is forced or finds no
    -- review for the rules and the model, then it returns a review that it has stored. For each
    -- issue of the rules or of the model, the review has one with the severity and the category of
    -- an issue of the same key that is at least as severe. The issues are in the order of their
    -- severities, the worst first, and the counts are their numbers.
    pub run_review-IsReview :
        (f : Fresh) (o : ReviewOptions) (llm : LlmOutcome) (documents : D.Table) (t : N.Table)
        (d : ReviewedDocument) (text : List ℕ)
        → readable S D N o.document_id o.workspace_id documents ≡ ok (d, text)
        → (o.force ≡ true)
          ⊎ (N.find_one (is_existing S o.document_id (llm_part S llm).model_used) t ≡ none)
        → let x = run_review S D N f o llm documents t in
          (r : DocumentReview) × (x.0 ≡ ok r)
          × IsReview (rule_issues S d text) (llm_part S llm).issues N x.1 r
    unfolding store_review
    run_review-IsReview f o llm documents t d text h free =
        let existing = is_existing S o.document_id (llm_part S llm).model_used in
        let review = new_review-IsReview f o d text (llm_part S llm) N in
        let ran = run_review-ok S N D f o llm documents t (d, text) h in
        elim (Bool-cases o.force) [
          | inl b ↦
              rw (ran, b, store_review)
                (new_review S f o d text (llm_part S llm), refl, review (N.delete existing t))
          | inr b ↦ elim free [
            | inl c ↦ absurd (ground (arith, b, c))
            | inr n ↦
                rw (ran, b, n, store_review)
                  (new_review S f o d text (llm_part S llm), refl, review t)
          ]
        ]
