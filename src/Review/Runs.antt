-- ===== src/Review/Runs.antt =====
-- apps/api/src/document-review/document-review.service.ts, runReview and getLatest, with
-- sortIssuesBySeverity of packages/shared/src/types/legal-review.ts.
use contractor_reviewer.Repository.{Repository}
use contractor_reviewer.Merge.{rank, LegalIssue, merge}
use contractor_reviewer.Rules.{DetectorContext, DetectorRuleHit, detect}
use contractor_reviewer.Common.{
  ℕ, ◌-◌, String, Bool, not, ◌&&◌, ◌||◌, List, [], ◌∷◌, Option, none, some, ltb, eqb, find, map,
  get_or, if◌then◌else◌, ◌==◌,
}
use contractor_reviewer.Review.{
  ReviewedDocument, DocumentReview, document_key, review_key, LlmDetectorResult, LlmOutcome,
  returned, thrown, succeeded, degraded, not_in_workspace, not_found, no_text, Result, ok, err,
  Services, ReviewOptions, Fresh, is_succeeded, same_model, has_text, count_severities, latest,
  nothing_detected,
}

module _ (S : Services) where
  -- Whether the comparator of `sortIssuesBySeverity` is positive.
  abbrev pub goes_after : LegalIssue → LegalIssue → Bool
  goes_after a b =
      ltb (rank a.severity) (rank b.severity)
      || eqb (rank a.severity) (rank b.severity)
        && S.is_after (get_or a.clause_ref "") (get_or b.clause_ref "")

  unfoldable pub insert_by_severity : LegalIssue → List LegalIssue → List LegalIssue
  insert_by_severity i [] = i ∷ []
  insert_by_severity i (j ∷ js) =
      let rest = insert_by_severity i js in if goes_after i j then j ∷ rest else i ∷ j ∷ js

  -- A stable sort.
  unfoldable pub sort_issues_by_severity : List LegalIssue → List LegalIssue
  sort_issues_by_severity [] = []
  sort_issues_by_severity (i ∷ is) = insert_by_severity i (sort_issues_by_severity is)

  -- What a run keeps of the language model.
  abbrev pub llm_part : LlmOutcome → LlmDetectorResult
  llm_part outcome = if not S.llm_enabled then nothing_detected succeeded none else elim outcome [
    | thrown message ↦ nothing_detected degraded (some message)
    | returned r ↦ record r {
      status = if is_succeeded r.status then succeeded else degraded;
      error_message = if is_succeeded r.status then none else r.error_message;
    }
  ]

  abbrev pub context : ReviewedDocument → List ℕ → DetectorContext
  context d text = record {
    jurisdiction = d.resolved_jurisdiction;
    text = text;
    chunks = record { text = text; clause_number = none } ∷ [];
  }

  abbrev pub rule_issues : ReviewedDocument → List ℕ → List LegalIssue
  rule_issues d text =
      map (λ (h : DetectorRuleHit). h.issue)
        (detect S.regexes (S.load S.active_rules_version) (context d text))

  -- `existingWhere`
  abbrev pub is_existing : String → Option String → DocumentReview → Bool
  is_existing document model r =
      r.document_id == document
      && r.rules_version == S.active_rules_version
      && same_model r.llm_model model

  abbrev pub new_review :
      Fresh → ReviewOptions → ReviewedDocument → List ℕ → LlmDetectorResult → DocumentReview
  new_review f o d text llm =
      let issues = sort_issues_by_severity (merge S.lower (rule_issues d text) llm.issues) in
      record {
        id = f.review_id;
        document_id = o.document_id;
        rules_version = S.active_rules_version;
        llm_model = llm.model_used;
        issues = issues;
        compliant_elements = llm.compliant_elements;
        recommendations = llm.recommendations;
        legislation_referenced = llm.legislation_referenced;
        issue_counts = count_severities issues;
        duration_ms = f.ended_at - f.started_at;
        status = llm.status;
        error_message = llm.error_message;
        updated_at = f.ended_at;
      }

  module _ (D : Repository document_key) (N : Repository review_key) where
    -- The part from the look-up of an earlier review on.
    unfoldable pub store_review :
        Fresh
        → ReviewOptions
        → ReviewedDocument
        → List ℕ
        → LlmDetectorResult
        → N.Table
        → DocumentReview × N.Table
    store_review f o d text llm t =
        let r = new_review f o d text llm in
        let existing = is_existing o.document_id llm.model_used in
        if o.force
        then (r, N.save r (N.delete existing t))
        else elim (N.find_one existing t) [ some e ↦ (e, t) | none ↦ (r, N.save r t) ]

    abbrev pub in_workspace : String → String → ReviewedDocument → Bool
    in_workspace document ws d = d.id == document && d.workspace_id == ws

    -- The document and the text of the first file that has one.
    unfoldable pub readable : (document ws : String) → D.Table → Result (ReviewedDocument × List ℕ)
    readable document ws documents = elim (D.find_one (in_workspace document ws) documents) [
      | none ↦ err not_in_workspace
      | some x ↦ elim (D.find_one (λ d. d.id == document) documents) [
        | none ↦ err not_found
        | some d ↦ elim (find has_text d.files) [
          | none ↦ err no_text
          | some file ↦ ok (d, get_or file.ocr_text [])
        ]
      ]
    ]

    unfoldable pub run_review :
        Fresh → ReviewOptions → LlmOutcome → D.Table → N.Table → Result DocumentReview × N.Table
    run_review f o outcome documents t = elim (readable o.document_id o.workspace_id documents) [
      | err e ↦ (err e, t)
      | ok x ↦ let (r, t') = store_review f o x.0 x.1 (llm_part outcome) t in (ok r, t')
    ]

    unfoldable pub get_latest :
        (document ws : String) → D.Table → N.Table → Result (Option DocumentReview)
    get_latest document ws documents t = elim (D.find_one (in_workspace document ws) documents) [
      | none ↦ err not_in_workspace
      | some d ↦ ok (latest (N.find (λ r. r.document_id == document) t))
    ]
