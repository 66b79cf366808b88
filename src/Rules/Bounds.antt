-- ===== src/Rules/Bounds.antt =====
-- How many hits a rule gives.
use contractor_reviewer.Common.{
  ℕ, zero, suc, ◌+◌, ◌≤◌, String, inl, inr, arith, List, eqb, length, Option-cases, Bool-cases,
  if◌then◌else◌, length-map,
}
use contractor_reviewer.Rules.{
  Runtime, Regex, RawRule, RawRuleFile, DetectorContext, truthy, find_clause_ref, hit_of,
  match_places, safety_break, flags_of, run_pattern_rule, found, none_found,
  run_missing_statute_rule, caught, run_rule,
}

length-match_places :
    (R : Runtime) (re : Regex) (text : List ℕ) (more last : ℕ)
    → length (match_places R re text more last) ≤ more + 1
unfolding match_places
length-match_places R re text zero last = elim (Option-cases (re.exec text last)) [
  | inl e ↦ ground (arith, e)
  | inr (m, e) ↦ ground (arith, e)
]
length-match_places R re text (suc more) last = elim (Option-cases (re.exec text last)) [
  | inl e ↦ ground (arith, e)
  | inr (m, e) ↦ elim (Bool-cases re.global) [
    | inl g ↦
        ground
          (arith, e, g, length-match_places R re text more (if eqb m.0 m.1 then m.1 + 1 else m.1))
    | inr g ↦ ground (arith, e, g)
  ]
]

module _ (R : Runtime) (ctx : DetectorContext) where
  length-run_pattern_rule :
      (file : RawRuleFile) (rule : RawRule) (p : String)
      → length (caught R (run_pattern_rule R file rule p ctx)) ≤ 201
  unfolding run_pattern_rule
  length-run_pattern_rule file rule p = elim (Option-cases (R.compile p (flags_of R rule))) [
    | inl e ↦ ground (arith, e)
    | inr (re, e) ↦
        let places = match_places R re ctx.text (safety_break R) 0 in
        let same = length-map (λ i. hit_of R file rule (truthy (find_clause_ref ctx i))) places in
        rw (e, run_pattern_rule)
          (omega (arith, same, length-match_places R re ctx.text (safety_break R) 0))
  ]

  length-run_missing_statute_rule :
      (file : RawRuleFile) (rule : RawRule) (topic : String) (required : List String)
      → length (caught R (run_missing_statute_rule R file rule topic required ctx)) ≤ 201
  unfolding run_missing_statute_rule
  length-run_missing_statute_rule file rule topic required =
      elim (Option-cases (R.compile topic "gi")) [
        | inl e ↦ ground (arith, e)
        | inr (re, e) ↦ elim (Bool-cases (found R re ctx.text)) [
          | inr f ↦ ground (arith, e, f)
          | inl f ↦ elim (Option-cases (none_found R required ctx.text)) [
            | inl n ↦ ground (arith, e, f, n)
            | inr (b, n) ↦ elim (Bool-cases b) [
              | inr c ↦ ground (arith, e, f, n, c)
              | inl c ↦ ground (arith, e, f, n, c)
            ]
          ]
        ]
      ]

  pub length-run_rule :
      (file : RawRuleFile) (rule : RawRule) → length (run_rule R file rule ctx) ≤ 201
  unfolding run_rule
  length-run_rule file rule = elim (Option-cases (truthy rule.pattern)) [
    | inr (p, e) ↦ ground (arith, e, length-run_pattern_rule file rule p)
    | inl e ↦ elim (Option-cases (truthy rule.topic_pattern)) [
      | inl f ↦ ground (arith, e, f)
      | inr (topic, f) ↦ elim (Option-cases rule.required_any_pattern) [
        | inl g ↦ ground (arith, e, f, g)
        | inr (required, g) ↦
            ground (arith, e, f, g, length-run_missing_statute_rule file rule topic required)
      ]
    ]
  ]
