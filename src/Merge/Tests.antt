-- ===== src/Merge/Tests.antt =====
-- Two reports of one issue, with different severities.
use contractor_reviewer.Common.{ℕ, ◌≡◌, refl, inl, inr, none, some, List, [], ◌∷◌}
use contractor_reviewer.Merge.{
  LegalIssue, high, low, merge, levenshtein, rows, row_rest, count_from, last_cell,
}
use contractor_reviewer.Merge.Clusters.{IsSorted}
use contractor_reviewer.Merge.Distance.{edit, backwards, levenshtein-edit}
use contractor_reviewer.Merge.Merged.{Stands, merge-Stands}

-- "sunday" and "saturday"
abbrev sunday : List ℕ
sunday = b's' ∷ b'u' ∷ b'n' ∷ b'd' ∷ b'a' ∷ b'y' ∷ []

abbrev saturday : List ℕ
saturday = b's' ∷ b'a' ∷ b't' ∷ b'u' ∷ b'r' ∷ b'd' ∷ b'a' ∷ b'y' ∷ []

three : levenshtein sunday saturday ≡ 3
unfolding levenshtein rows row_rest count_from last_cell
three = refl

levenshtein-edit_example :
    levenshtein sunday saturday ≡ edit (backwards sunday []) (backwards saturday [])
levenshtein-edit_example = levenshtein-edit sunday saturday

abbrev rule_issue : LegalIssue
rule_issue = record {
  severity = low;
  category = "pension";
  clause_ref = some "9.1";
  message = sunday;
  legislation_ref = some "Act";
  suggestion = none;
}

abbrev llm_issue : LegalIssue
llm_issue = record {
  severity = high;
  category = "pension";
  clause_ref = some "9.1";
  message = sunday;
  legislation_ref = none;
  suggestion = none;
}

merge-Stands_example :
    Stands
      (rule_issue ∷ llm_issue ∷ [])
      (merge (λ s. s) (rule_issue ∷ []) (llm_issue ∷ []))
      llm_issue
    × IsSorted (merge (λ s. s) (rule_issue ∷ []) (llm_issue ∷ []))
merge-Stands_example =
    merge-Stands (λ s. s) (rule_issue ∷ []) (llm_issue ∷ []) llm_issue (inr (inl refl))
