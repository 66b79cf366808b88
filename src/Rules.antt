-- ===== src/Rules.antt =====
-- apps/api/src/document-review/rules/rule-detector.service.ts: the issues that the rules find in a
-- text. A document's text is the list of its UTF-16 code units. Regular expressions and the digits of
-- a number are the runtime's, and a parameter.
pub mod Bounds
pub mod Hits
pub mod Clauses
pub mod Missing
mod Tests
use Prim.Native.String.{◌++◌ as ◌+++◌, slice, len, find}
use text.Mathlib.Text
use contractor_reviewer.Common.{
  ℕ, zero, suc, ◌+◌, String, Bool, true, false, not, ◌&&◌, ◌||◌, List, [], ◌∷◌, ◌++◌, Option, none,
  some, eqb, ltb, length, map, if◌then◌else◌, ◌==◌,
}
use contractor_reviewer.Merge.{IssueSeverity, LegalIssue}

-- A compiled expression. `exec` takes the text and `lastIndex`, and gives the place of the match and
-- the new `lastIndex`.
pub record Regex : Type 0 where
  pub global : Bool
  pub exec : List ℕ → ℕ → Option (ℕ × ℕ)

-- `new RegExp(pattern, flags)` throws on a malformed pattern.
pub record Runtime : Type 0 where
  pub compile : (pattern flags : String) → Option Regex
  pub digits : ℕ → String

pub record Legislation : Type 0 where
  pub act_name : String
  pub act_year : Option ℕ
  pub section : Option String

pub record RawRule : Type 0 where
  pub id : String
  pub pattern : Option String
  pub flags : Option String
  pub topic_pattern : Option String
  pub required_any_pattern : Option (List String)
  pub severity : IssueSeverity
  pub message : List ℕ
  pub remediation : Option String
  pub legislation_referenced : Option (List Legislation)

pub record RawRuleFile : Type 0 where
  pub rules_version : String
  pub category : String
  pub applies_to : String
  pub rules : List RawRule

pub record DetectorChunk : Type 0 where
  pub text : List ℕ
  pub clause_number : Option String

pub record DetectorContext : Type 0 where
  pub jurisdiction : Option String
  pub text : List ℕ
  pub chunks : List DetectorChunk

pub record DetectorRuleHit : Type 0 where
  pub rule_id : String
  pub rules_version : String
  pub issue : LegalIssue

-- A missing text, or an empty one, is falsy.
abbrev pub truthy : Option String → Option String
truthy none = none
truthy (some s) = if s == "" then none else some s

abbrev pub is_text : String → Option String → Bool
is_text s none = false
is_text s (some t) = t == s

-- `split(':')[0]`
abbrev pub before_colon : String → String
before_colon s = slice s 0 (find s ":")

-- `split(':')[1]`, of a text that starts with `jurisdiction:`
abbrev pub jurisdiction_of : String → Option String
jurisdiction_of s =
    if Text.starts_with s "jurisdiction:" then some (before_colon (slice s 13 (len s))) else none

-- `offset` falls into the chunk, or into the two line feeds after it.
unfoldable pub clause_from : List DetectorChunk → (cursor offset : ℕ) → Option String
clause_from [] cursor offset = none
clause_from (c ∷ cs) cursor offset =
    let next = cursor + length c.text + 2 in
    let rest = clause_from cs next offset in if ltb offset next then c.clause_number else rest

abbrev pub find_clause_ref : DetectorContext → ℕ → Option String
find_clause_ref ctx offset = clause_from ctx.chunks 0 offset

module _ (R : Runtime) where
  abbrev pub applies_to : RawRuleFile → Option String → Bool
  applies_to file jurisdiction =
      if file.applies_to == "any" || file.applies_to == ""
      then true
      else elim (jurisdiction_of file.applies_to) [
        | none ↦ true
        | some target ↦ is_text target jurisdiction
      ]

  abbrev year_of : Legislation → String
  year_of l = elim l.act_year [
    | none ↦ l.act_name
    | some y ↦ if eqb y 0 then l.act_name else l.act_name +++ (" " +++ R.digits y)
  ]

  abbrev pub format_legislation_ref : Legislation → String
  format_legislation_ref l = elim (truthy l.section) [
    | none ↦ year_of l
    | some s ↦ year_of l +++ (", " +++ s)
  ]

  abbrev pub first_ref : Option (List Legislation) → Option String
  first_ref none = none
  first_ref (some []) = none
  first_ref (some (l ∷ ls)) = some (format_legislation_ref l)

  abbrev pub issue_of : RawRuleFile → RawRule → Option String → LegalIssue
  issue_of file rule clause = record {
    severity = rule.severity;
    category = file.category;
    clause_ref = clause;
    message = rule.message;
    legislation_ref = first_ref rule.legislation_referenced;
    suggestion = truthy rule.remediation;
  }

  abbrev pub hit_of : RawRuleFile → RawRule → Option String → DetectorRuleHit
  hit_of file rule clause = record {
    rule_id = rule.id;
    rules_version = file.rules_version;
    issue = issue_of file rule clause;
  }

  -- The places of the matches, `more` of them at most after the first. A match of no width moves
  -- `lastIndex` on by one.
  unfoldable pub match_places : Regex → List ℕ → (more last_index : ℕ) → List ℕ
  match_places re text zero last = elim (re.exec text last) [ none ↦ [] | some m ↦ m.0 ∷ [] ]
  match_places re text (suc more) last = elim (re.exec text last) [
    | none ↦ []
    | some m ↦
        let rest = match_places re text more (if eqb m.0 m.1 then m.1 + 1 else m.1) in
        m.0 ∷ (if re.global then rest else [])
  ]

  -- `++safetyBreak > 200`
  abbrev pub safety_break : ℕ
  safety_break = 200

  abbrev pub flags_of : RawRule → String
  flags_of rule = elim rule.flags [ none ↦ "g" | some f ↦ f ]

  -- Missing where the pattern is malformed.
  unfoldable pub run_pattern_rule :
      RawRuleFile → RawRule → String → DetectorContext → Option (List DetectorRuleHit)
  run_pattern_rule file rule pattern ctx = elim (R.compile pattern (flags_of rule)) [
    | none ↦ none
    | some re ↦ some (
        map (λ i. hit_of file rule (truthy (find_clause_ref ctx i)))
          (match_places re ctx.text safety_break 0))
  ]

  -- `re.test(text)`, for an expression that is new
  abbrev pub found : Regex → List ℕ → Bool
  found re text = elim (re.exec text 0) [ none ↦ false | some m ↦ true ]

  -- Whether none of the required patterns is found; missing where one is malformed before that.
  unfoldable pub none_found : List String → List ℕ → Option Bool
  none_found [] text = some true
  none_found (p ∷ ps) text =
      let rest = none_found ps text in
      elim (R.compile p "gi") [ none ↦ none | some re ↦ if found re text then some false else rest ]

  unfoldable pub run_missing_statute_rule :
      RawRuleFile
      → RawRule
      → (topic : String) (required : List String) → DetectorContext
      → Option (List DetectorRuleHit)
  run_missing_statute_rule file rule topic required ctx = elim (R.compile topic "gi") [
    | none ↦ none
    | some re ↦ if not (found re ctx.text) then some [] else elim (none_found required ctx.text) [
      | none ↦ none
      | some false ↦ some []
      | some true ↦ some (hit_of file rule none ∷ [])
    ]
  ]

  -- What one pass of the inner loop does; a rule that throws is logged and gives no hits.
  abbrev pub caught : Option (List DetectorRuleHit) → List DetectorRuleHit
  caught none = []
  caught (some hits) = hits

  unfoldable pub run_rule : RawRuleFile → RawRule → DetectorContext → List DetectorRuleHit
  run_rule file rule ctx = elim (truthy rule.pattern) [
    | some p ↦ caught (run_pattern_rule file rule p ctx)
    | none ↦ elim (truthy rule.topic_pattern) [
      | none ↦ []
      | some topic ↦ elim rule.required_any_pattern [
        | none ↦ []
        | some required ↦ caught (run_missing_statute_rule file rule topic required ctx)
      ]
    ]
  ]

  unfoldable pub run_rules : RawRuleFile → List RawRule → DetectorContext → List DetectorRuleHit
  run_rules file [] ctx = []
  run_rules file (rule ∷ rules) ctx = run_rule file rule ctx ++ run_rules file rules ctx

  unfoldable pub detect : List RawRuleFile → DetectorContext → List DetectorRuleHit
  detect [] ctx = []
  detect (file ∷ files) ctx =
      let rest = detect files ctx in
      if applies_to file ctx.jurisdiction then run_rules file file.rules ctx ++ rest else rest
