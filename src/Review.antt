-- ===== src/Review.antt =====
-- apps/api/src/document-review/document-review.service.ts: the review of a document, from the rules,
-- the language model and the merging of their issues. A document is read with its files. The result
-- of the language model is an argument of a run, or that it throws.
pub mod Runs
pub mod Again
pub mod Issues
mod Tests
use contractor_reviewer.Repository.{Repository}
use contractor_reviewer.Merge.{
  IssueSeverity, blocker, high, medium, low, info, rank, LegalIssue, merge,
}
use contractor_reviewer.Rules.{Runtime, RawRuleFile, DetectorContext, DetectorRuleHit, detect}
use contractor_reviewer.Common.{
  ℕ, ◌+◌, ◌-◌, String, Bool, true, false, not, ◌&&◌, ◌||◌, List, [], ◌∷◌, Option, none, some, ltb,
  eqb, length, find, map, get_or, if◌then◌else◌, ◌==◌,
}

pub record ReviewedFile : Type 0 where
  pub is_available : Bool
  pub ocr_text : Option (List ℕ)

pub record ReviewedDocument : Type 0 where
  pub id : String
  pub workspace_id : String
  pub resolved_jurisdiction : Option String
  pub files : List ReviewedFile

pub record CompliantElement : Type 0 where
  pub clause_ref : Option String
  pub rationale : String

pub record LegislationReference : Type 0 where
  pub name : String
  pub year : Option ℕ
  pub section : Option String

pub data ReviewStatus : Type 0 where
  succeeded degraded failed : ReviewStatus

pub record IssueCounts : Type 0 where
  pub blocker : ℕ
  pub high : ℕ
  pub medium : ℕ
  pub low : ℕ
  pub info : ℕ

pub record DocumentReview : Type 0 where
  pub id : String
  pub document_id : String
  pub rules_version : String
  pub llm_model : Option String
  pub issues : List LegalIssue
  pub compliant_elements : List CompliantElement
  pub recommendations : List String
  pub legislation_referenced : List LegislationReference
  pub issue_counts : IssueCounts
  pub duration_ms : ℕ
  pub status : ReviewStatus
  pub error_message : Option String
  pub updated_at : ℕ

abbrev pub document_key : ReviewedDocument → String
document_key d = d.id

abbrev pub review_key : DocumentReview → String
review_key r = r.id

pub record LlmDetectorResult : Type 0 where
  pub issues : List LegalIssue
  pub compliant_elements : List CompliantElement
  pub recommendations : List String
  pub legislation_referenced : List LegislationReference
  pub status : ReviewStatus
  pub model_used : Option String
  pub error_message : Option String

-- What the call of the language model ends with.
pub data LlmOutcome : Type 0 where
  returned : LlmDetectorResult → LlmOutcome
  thrown : String → LlmOutcome

pub data Error : Type 0 where
  not_in_workspace not_found no_text : Error

pub data Result (A : Type 0) : Type 0 where
  ok : A → Result A
  err : Error → Result A

-- The rest of the program and the configuration: the rules of a version, the version in use, whether
-- `LEGAL_REVIEW_MODE` is on, `toLowerCase`, and whether `localeCompare` puts a text after another.
pub record Services : Type 0 where
  pub regexes : Runtime
  pub load : String → List RawRuleFile
  pub active_rules_version : String
  pub llm_enabled : Bool
  pub lower : List ℕ → List ℕ
  pub is_after : String → String → Bool

pub record ReviewOptions : Type 0 where
  pub workspace_id : String
  pub document_id : String
  pub force : Bool

-- What a run takes from the database and the clock.
pub record Fresh : Type 0 where
  pub review_id : String
  pub started_at : ℕ
  pub ended_at : ℕ

abbrev pub is_succeeded : ReviewStatus → Bool
is_succeeded succeeded = true
is_succeeded _ = false

abbrev pub same_model : Option String → Option String → Bool
same_model none none = true
same_model (some a) (some b) = a == b
same_model _ _ = false

abbrev pub nothing_detected : ReviewStatus → Option String → LlmDetectorResult
nothing_detected status message = record {
  issues = [];
  compliant_elements = [];
  recommendations = [];
  legislation_referenced = [];
  status = status;
  model_used = none;
  error_message = message;
}

abbrev pub has_text : ReviewedFile → Bool
has_text f = f.is_available && ltb 0 (length (get_or f.ocr_text []))

-- `out[issue.severity] + 1`
unfoldable pub count_issue : IssueSeverity → IssueCounts → IssueCounts
count_issue blocker c = record c { blocker = c.blocker + 1 }
count_issue high c = record c { high = c.high + 1 }
count_issue medium c = record c { medium = c.medium + 1 }
count_issue low c = record c { low = c.low + 1 }
count_issue info c = record c { info = c.info + 1 }

unfoldable pub count_from : List LegalIssue → IssueCounts → IssueCounts
count_from [] c = c
count_from (i ∷ is) c = count_from is (count_issue i.severity c)

abbrev pub count_severities : List LegalIssue → IssueCounts
count_severities is =
    count_from is (record { blocker = 0; high = 0; medium = 0; low = 0; info = 0 })

-- `getLatest` reads the first row in the order of `updatedAt`, the newest first.
unfoldable pub latest : List DocumentReview → Option DocumentReview
latest [] = none
latest (r ∷ rs) = elim (latest rs) [
  | none ↦ some r
  | some s ↦ if ltb r.updated_at s.updated_at then some s else some r
]
