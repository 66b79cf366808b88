-- ===== src/Rules/Tests.antt =====
-- A rule for full stops and one for a missing question mark; expressions that look for one code unit.
use contractor_reviewer.Common.{
  ℕ, ◌+◌, ◌≤◌, String, true, ◌&&◌, ◌≡◌, refl, ◌↔◌, List, [], ◌∷◌, Option, none, some, eqb, leb,
  length, In, if◌then◌else◌, ◌==◌,
}
use contractor_reviewer.Merge.{high}
use contractor_reviewer.Rules.{
  Regex, Runtime, RawRule, RawRuleFile, DetectorChunk, DetectorContext, DetectorRuleHit, hit_of,
  match_places, run_pattern_rule, run_missing_statute_rule, run_rule, run_rules, detect,
  clause_from,
}
use contractor_reviewer.Rules.Hits.{IsHit, Runs, detect_lem}
use contractor_reviewer.Rules.Missing.{run_missing_statute_rule_lem}

-- The first place from `last` on with the code unit.
abbrev place_from : ℕ → List ℕ → (cursor last : ℕ) → Option (ℕ × ℕ)
place_from u [] cursor last = none
place_from u (v ∷ vs) cursor last =
    let rest = place_from u vs (cursor + 1) last in
    if eqb u v && leb last cursor then some (cursor, cursor + 1) else rest

abbrev regex : ℕ → Regex
regex u = record { global = true; exec = λ text last. place_from u text 0 last }

abbrev regex_of : String → Regex
regex_of p = if p == "[.]" then regex 46 else regex 63

abbrev runtime : Runtime
runtime = record {
  compile = λ p flags. if p == "[" then none else some (regex_of p);
  digits = λ n. "";
}

abbrev stops : RawRule
stops = record {
  id = "stops";
  pattern = some "[.]";
  flags = none;
  topic_pattern = none;
  required_any_pattern = none;
  severity = high;
  message = [];
  remediation = none;
  legislation_referenced = none;
}

abbrev broken : RawRule
broken = record stops { id = "broken"; pattern = some "[" }

abbrev irish : RawRuleFile
irish = record {
  rules_version = "v1";
  category = "drafting";
  applies_to = "jurisdiction:IE";
  rules = broken ∷ stops ∷ [];
}

abbrev first : DetectorChunk
first = record { text = 97 ∷ 46 ∷ []; clause_number = some "1" }

abbrev second : DetectorChunk
second = record { text = 46 ∷ []; clause_number = some "2" }

abbrev context : DetectorContext
context = record {
  jurisdiction = some "IE";
  text = 97 ∷ 46 ∷ 10 ∷ 10 ∷ 46 ∷ [];
  chunks = first ∷ second ∷ [];
}

detects :
    detect runtime (irish ∷ []) context
    ≡ hit_of runtime irish stops (some "1") ∷ hit_of runtime irish stops (some "2") ∷ []
unfolding detect run_rules run_rule run_pattern_rule match_places clause_from
detects = refl

elsewhere : detect runtime (irish ∷ []) (record context { jurisdiction = some "GB" }) ≡ []
unfolding detect
elsewhere = refl

detect_example :
    ((h : DetectorRuleHit)
      → In h (detect runtime (irish ∷ []) context) ↔ (
          (file : RawRuleFile) × (rule : RawRule) × Runs runtime context (irish ∷ []) file rule
          × In h (run_rule runtime file rule context)))
    × ((file : RawRuleFile) (rule : RawRule)
        → ((h : DetectorRuleHit)
            → In h (run_rule runtime file rule context)
            → IsHit runtime context file rule h)
          × (length (run_rule runtime file rule context) ≤ 201))
detect_example = detect_lem runtime context (irish ∷ [])

missing_example :
    run_missing_statute_rule runtime irish stops "[.]" ("[?]" ∷ []) context
    ≡ some (hit_of runtime irish stops none ∷ [])
missing_example =
    run_missing_statute_rule_lem runtime irish stops "[.]" ("[?]" ∷ []) context regex_of refl
      (refl, tt)
