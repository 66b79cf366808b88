-- ===== src/Review/Tests.antt =====
-- A review of a contract with one full stop, for which there is a rule, first run and run again.
use contractor_reviewer.Common.{true, false, ◌≡◌, refl, inr, [], ◌∷◌, none, some}
use contractor_reviewer.Repository.InMemory.{in_memory}
use contractor_reviewer.Merge.{high, LegalIssue}
use contractor_reviewer.Review.{
  ReviewedDocument, DocumentReview, document_key, review_key, LlmOutcome, returned, thrown,
  degraded, Services, ReviewOptions, Fresh, ok,
}
use contractor_reviewer.Review.Runs.{
  llm_part, rule_issues, new_review, run_review, readable, store_review,
}
use contractor_reviewer.Review.Again.{run_review-again}
use contractor_reviewer.Review.Issues.{IsReview, run_review-IsReview}

abbrev services : Services
services = record {
  regexes = record { compile = λ p flags. none; digits = λ n. "" };
  load = λ v. [];
  active_rules_version = "v1";
  llm_enabled = true;
  lower = λ s. s;
  is_after = λ a b. false;
}

abbrev contract : ReviewedDocument
contract = record {
  id = "d1";
  workspace_id = "w1";
  resolved_jurisdiction = some "IE";
  files = record { is_available = true; ocr_text = some (97 ∷ 46 ∷ []) } ∷ [];
}

abbrev options : ReviewOptions
options = record { workspace_id = "w1"; document_id = "d1"; force = false }

abbrev issue : LegalIssue
issue = record {
  severity = high;
  category = "drafting";
  clause_ref = none;
  message = 97 ∷ [];
  legislation_ref = none;
  suggestion = none;
}

abbrev answer : LlmOutcome
answer = returned (record {
  issues = issue ∷ [];
  compliant_elements = [];
  recommendations = [];
  legislation_referenced = [];
  status = degraded;
  model_used = none;
  error_message = some "one window failed";
})

abbrev fresh : Fresh
fresh = record { review_id = "r1"; started_at = 1; ended_at = 2 }

abbrev later : Fresh
later = record { review_id = "r2"; started_at = 3; ended_at = 4 }

abbrev stored : DocumentReview
stored = new_review services fresh options contract (97 ∷ 46 ∷ []) (llm_part services answer)

first_run :
    run_review services
      (in_memory document_key)
      (in_memory review_key)
      fresh
      options
      answer
      (contract ∷ [])
      []
    ≡ (ok stored, stored ∷ [])
unfolding run_review readable store_review
first_run = refl

-- In the second run the language model fails, which names no model either.
run_review-again_example :
    run_review services
      (in_memory document_key)
      (in_memory review_key)
      later
      (record options { force = false })
      (thrown "no answer")
      (contract ∷ [])
      (stored ∷ [])
    ≡ (ok stored, stored ∷ [])
run_review-again_example =
    run_review-again services (in_memory review_key) (in_memory document_key) fresh later options
      answer (thrown "no answer") (contract ∷ []) [] (stored ∷ []) stored refl refl first_run

is_readable :
    readable services (in_memory document_key) (in_memory review_key) "d1" "w1" (contract ∷ [])
    ≡ ok (contract, 97 ∷ 46 ∷ [])
unfolding readable
is_readable = refl

run_review-IsReview_example :
    let x =
      run_review services
        (in_memory document_key)
        (in_memory review_key)
        fresh
        options
        answer
        (contract ∷ [])
        [] in
    (r : DocumentReview) × (x.0 ≡ ok r)
    × IsReview services
        (rule_issues services contract (97 ∷ 46 ∷ []))
        (llm_part services answer).issues
        (in_memory review_key)
        x.1
        r
run_review-IsReview_example =
    run_review-IsReview services (in_memory document_key) (in_memory review_key) fresh options
      answer (contract ∷ []) [] contract (97 ∷ 46 ∷ []) is_readable (inr refl)
