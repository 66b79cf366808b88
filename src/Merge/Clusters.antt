-- ===== src/Merge/Clusters.antt =====
-- What sorting and collapsing do to the severities.
use contractor_reviewer.Common.{
  ℕ, ◌≤◌, refl, sym, inl, inr, arith, List, [], ◌∷◌, leb, In, All, Bool-cases, subst,
}
use contractor_reviewer.Merge.{
  LegalIssue, rank, Group, issues_of, insert_issue, sort_issues, worst, head_or,
}

-- Not after a worse issue.
abbrev pub IsBelow : LegalIssue → LegalIssue → Type 0
IsBelow i j = rank j.severity ≤ rank i.severity

-- Each issue is at least as severe as all after it.
abbrev pub IsSorted : List LegalIssue → Type 0
IsSorted [] = Unit
IsSorted (i ∷ is) = All (IsBelow i) is × IsSorted is

pub All-IsBelow :
    (i j : LegalIssue) (is : List LegalIssue)
    → rank j.severity ≤ rank i.severity
    → All (IsBelow j) is
    → All (IsBelow i) is
All-IsBelow i j [] le h = tt
All-IsBelow i j (k ∷ is) le h = (omega (arith, le, h.0), All-IsBelow i j is le h.1)

All-insert :
    (P : LegalIssue → Type 0) (i : LegalIssue) (is : List LegalIssue)
    → P i
    → All P is
    → All P (insert_issue i is)
unfolding insert_issue
All-insert P i [] p h = (p, tt)
All-insert P i (j ∷ is) p h = elim (Bool-cases (leb (rank j.severity) (rank i.severity))) [
  | inl e ↦ rw (e, insert_issue) (p, h)
  | inr e ↦ rw (e, insert_issue) (h.0, All-insert P i is p h.1)
]

pub insert_issue-IsSorted :
    (i : LegalIssue) (is : List LegalIssue) → IsSorted is → IsSorted (insert_issue i is)
unfolding insert_issue
insert_issue-IsSorted i [] h = (tt, tt)
insert_issue-IsSorted i (j ∷ is) h = elim (Bool-cases (leb (rank j.severity) (rank i.severity))) [
  | inl e ↦
      let le : rank j.severity ≤ rank i.severity = ground arith in
      rw (e, insert_issue) ((le, All-IsBelow i j is le h.0), h)
  | inr e ↦
      rw (e, insert_issue)
        (All-insert (IsBelow j) i is (ground arith) h.0, insert_issue-IsSorted i is h.1)
]

pub sort_issues-IsSorted : (is : List LegalIssue) → IsSorted (sort_issues is)
unfolding sort_issues
sort_issues-IsSorted [] = tt
sort_issues-IsSorted (i ∷ is) = insert_issue-IsSorted i (sort_issues is) (sort_issues-IsSorted is)

In-insert_self : (i : LegalIssue) (is : List LegalIssue) → In i (insert_issue i is)
unfolding insert_issue
In-insert_self i [] = inl refl
In-insert_self i (j ∷ is) = elim (Bool-cases (leb (rank j.severity) (rank i.severity))) [
  | inl e ↦ rw (e, insert_issue) (inl refl)
  | inr e ↦ rw (e, insert_issue) (inr (In-insert_self i is))
]

In-insert_kept : (x i : LegalIssue) (is : List LegalIssue) → In x is → In x (insert_issue i is)
unfolding insert_issue
In-insert_kept x i [] m = absurd m
In-insert_kept x i (j ∷ is) m = elim (Bool-cases (leb (rank j.severity) (rank i.severity))) [
  | inl e ↦ rw (e, insert_issue) (inr m)
  | inr e ↦ rw (e, insert_issue) (elim m [ inl q ↦ inl q | inr n ↦ inr (In-insert_kept x i is n) ])
]

pub In-sort : (x : LegalIssue) (is : List LegalIssue) → In x is → In x (sort_issues is)
unfolding sort_issues
In-sort x [] m = m
In-sort x (i ∷ is) (inl e) =
    subst (λ y. In y (insert_issue i (sort_issues is))) (sym e) (In-insert_self i (sort_issues is))
In-sort x (i ∷ is) (inr m) = In-insert_kept x i (sort_issues is) (In-sort x is m)

pub All-sort : (P : LegalIssue → Type 0) (is : List LegalIssue) → All P is → All P (sort_issues is)
unfolding sort_issues
All-sort P [] h = tt
All-sort P (i ∷ is) h = All-insert P i (sort_issues is) h.0 (All-sort P is h.1)

pub All-In : {A : Type 0} (P : A → Type 0) (x : A) (xs : List A) → All P xs → In x xs → P x
All-In P x [] h m = absurd m
All-In P x (y ∷ ys) h (inl e) = subst P (sym e) h.0
All-In P x (y ∷ ys) h (inr m) = All-In P x ys h.1 m

-- The head of a sorted list is as severe as all of it.
head-worst :
    (d x : LegalIssue) (is : List LegalIssue)
    → IsSorted is
    → In x is
    → rank x.severity ≤ rank (head_or d is).severity
head-worst d x [] h m = absurd m
head-worst d x (i ∷ is) h (inl e) =
    subst (λ (y : LegalIssue). rank y.severity ≤ rank i.severity) (sym e) (omega arith)
head-worst d x (i ∷ is) h (inr m) = All-In (IsBelow i) x is h.0 m

head-All :
    (P : LegalIssue → Type 0) (d : LegalIssue) (is : List LegalIssue)
    → P d
    → All P is
    → P (head_or d is)
head-All P d [] p h = p
head-All P d (i ∷ is) p h = h.0

-- No issue of a cluster is worse than its worst one, which is one of them.
pub worst-below :
    (lower : List ℕ → List ℕ) (x : LegalIssue) (c : Group)
    → In x (issues_of c)
    → rank x.severity ≤ rank (worst lower c).severity
unfolding worst
worst-below lower x c m =
    head-worst c.first x (sort_issues (issues_of c)) (sort_issues-IsSorted (issues_of c))
      (In-sort x (issues_of c) m)

pub worst-All :
    (lower : List ℕ → List ℕ) (P : LegalIssue → Type 0) (c : Group)
    → All P (issues_of c)
    → P (worst lower c)
unfolding worst
worst-All lower P c h =
    head-All P c.first (sort_issues (issues_of c)) h.0 (All-sort P (issues_of c) h)
