-- ===== src/Merge.antt =====
-- apps/api/src/document-review/merge.service.ts: one set of issues from those of the rules and of
-- the language model. A message is the list of its UTF-16 code units; `toLowerCase` is a parameter.
pub mod Distance
pub mod Clusters
pub mod Cover
pub mod Merged
mod Tests
use Prim.Native.String
use contractor_reviewer.Common.{
  ℕ, ◌+◌, ◌*◌, String, Bool, true, false, not, ◌&&◌, ◌||◌, List, [], ◌∷◌, ◌++◌, Option, none, some,
  leb, eqb, if◌then◌else◌, ◌==◌, length, find, map, get_or, min, max,
}

-- packages/shared/src/types/legal-review.ts
pub data IssueSeverity : Type 0 where
  blocker high medium low info : IssueSeverity

-- ISSUE_SEVERITY_RANK
abbrev pub rank : IssueSeverity → ℕ
rank blocker = 4
rank high = 3
rank medium = 2
rank low = 1
rank info = 0

pub record LegalIssue : Type 0 where
  pub severity : IssueSeverity
  pub category : String
  pub clause_ref : Option String
  pub message : List ℕ
  pub legislation_ref : Option String
  pub suggestion : Option String

-- A list that is not empty, such as a bucket or a cluster.
pub record Group : Type 0 where
  pub first : LegalIssue
  pub rest : List LegalIssue

abbrev pub issues_of : Group → List LegalIssue
issues_of g = g.first ∷ g.rest

abbrev pub join : LegalIssue → Group → Group
join i g = record g { rest = g.rest ++ i ∷ [] }

abbrev pub alone : LegalIssue → Group
alone i = record { first = i; rest = [] }

-- `${issue.category}::${issue.clauseRef ?? '__none__'}`
pub issue_key : LegalIssue → String
issue_key i = String.◌++◌ i.category (String.◌++◌ "::" (get_or i.clause_ref "__none__"))

-- The map `buckets`, in the order of its insertions.
pub add_to_bucket : LegalIssue → List (String × Group) → List (String × Group)
add_to_bucket i [] = (issue_key i, alone i) ∷ []
add_to_bucket i ((k, g) ∷ bs) =
    let rest = add_to_bucket i bs in if k == issue_key i then (k, join i g) ∷ bs else (k, g) ∷ rest

pub fill_buckets : List LegalIssue → List (String × Group) → List (String × Group)
fill_buckets [] bs = bs
fill_buckets (i ∷ is) bs = fill_buckets is (add_to_bucket i bs)

-- `sort((a, b) => RANK[b.severity] - RANK[a.severity])`, which is stable.
pub insert_issue : LegalIssue → List LegalIssue → List LegalIssue
insert_issue i [] = i ∷ []
insert_issue i (j ∷ js) =
    let rest = insert_issue i js in
    if leb (rank j.severity) (rank i.severity) then i ∷ j ∷ js else j ∷ rest

pub sort_issues : List LegalIssue → List LegalIssue
sort_issues [] = []
sort_issues (i ∷ is) = insert_issue i (sort_issues is)

-- The inner loop of `levenshtein`: the rest of a row, from the value to its left, the value above
-- that, and the rest of the row above.
pub row_rest : ℕ → (left above_left : ℕ) → List ℕ → List ℕ → List ℕ
row_rest x left d [] b = []
row_rest x left d (u ∷ us) [] = []
row_rest x left d (u ∷ us) (y ∷ b) =
    let v = min (min (left + 1) (u + 1)) (d + (if eqb x y then 0 else 1)) in v ∷ row_rest x v u us b

-- `prev[n]`
pub last_cell : ℕ → List ℕ → ℕ
last_cell d [] = d
last_cell d (u ∷ us) = last_cell u us

-- The outer loop; `d` and `us` are the row above, `d` the number of code units of `a` done.
pub rows : ℕ → List ℕ → List ℕ → List ℕ → ℕ
rows d us [] b = last_cell d us
rows d us (x ∷ a) b = rows (d + 1) (row_rest x (d + 1) d us b) a b

-- The rest of the first row, 1 to n
pub count_from : ℕ → List ℕ → List ℕ
count_from n [] = []
count_from n (y ∷ b) = (n + 1) ∷ count_from (n + 1) b

pub levenshtein : List ℕ → List ℕ → ℕ
levenshtein [] b = length b
levenshtein (x ∷ a) [] = length (x ∷ a)
levenshtein (x ∷ a) (y ∷ b) = rows 0 (count_from 0 (y ∷ b)) (x ∷ a) (y ∷ b)

abbrev pub same_text : List ℕ → List ℕ → Bool
same_text [] [] = true
same_text (x ∷ a) (y ∷ b) = eqb x y && same_text a b
same_text (x ∷ a) [] = false
same_text [] (y ∷ b) = false

-- The first issue; the default is for a list without one.
abbrev pub head_or : LegalIssue → List LegalIssue → LegalIssue
head_or d [] = d
head_or d (i ∷ is) = i

module _ (lower : List ℕ → List ℕ) where
  -- `similarity(a, b) >= 0.85`: 1 - dist / max ≥ 0.85 in whole numbers.
  pub similar : List ℕ → List ℕ → Bool
  similar a b =
      if same_text a b
      then true
      else if eqb (length a) 0 || eqb (length b) 0
      then false
      else leb (100 * levenshtein (lower a) (lower b)) (15 * max (length a) (length b))

  pub add_to_cluster : LegalIssue → List Group → List Group
  add_to_cluster i [] = alone i ∷ []
  add_to_cluster i (c ∷ cs) =
      let rest = add_to_cluster i cs in
      if similar c.first.message i.message then join i c ∷ cs else c ∷ rest

  pub cluster_by_similarity : List LegalIssue → List Group → List Group
  cluster_by_similarity [] cs = cs
  cluster_by_similarity (i ∷ is) cs = cluster_by_similarity is (add_to_cluster i cs)

  abbrev pub truthy : Option String → Option String
  truthy none = none
  truthy (some s) = if s == "" then none else some s

  abbrev pub present : Option String → Bool
  present none = false
  present (some s) = not (s == "")

  -- `sorted[0]`
  pub worst : Group → LegalIssue
  worst c = head_or c.first (sort_issues (issues_of c))

  pub collapse_cluster : Group → LegalIssue
  collapse_cluster c =
      let w = worst c in
      let with_leg = find (λ i. present i.legislation_ref) (issues_of c) in
      record {
        severity = w.severity;
        category = w.category;
        clause_ref = truthy w.clause_ref;
        message = elim with_leg [ none ↦ w.message | some i ↦ i.message ];
        legislation_ref = elim with_leg [ none ↦ none | some i ↦ i.legislation_ref ];
        suggestion = elim (find (λ i. present i.suggestion) (issues_of c)) [
          | none ↦ none
          | some i ↦ i.suggestion
        ];
      }

  pub merge_group : Group → List LegalIssue
  merge_group g = elim g.rest [
    | [] ↦ g.first ∷ []
    | j ∷ js ↦ map collapse_cluster (cluster_by_similarity (issues_of g) [])
  ]

  pub merge_groups : List (String × Group) → List LegalIssue
  merge_groups [] = []
  merge_groups ((k, g) ∷ bs) = merge_group g ++ merge_groups bs

  pub merge : (rule_issues llm_issues : List LegalIssue) → List LegalIssue
  merge rule_issues llm_issues =
      sort_issues (merge_groups (fill_buckets (rule_issues ++ llm_issues) []))
