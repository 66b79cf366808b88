-- ===== src/Rules/Hits.antt =====
-- Where the hits of the detector come from.
use contractor_reviewer.Common.{
  ◌≤◌, String, true, ◌≡◌, refl, ap, subst, inl, inr, arith, List, [], ◌∷◌, Option, none, length,
  map, In, Option-cases, Bool-cases, ◌↔◌, In-append_left, In-append_right, In-append_cases,
}
use contractor_reviewer.Rules.{
  Runtime, RawRule, RawRuleFile, DetectorContext, DetectorRuleHit, truthy, find_clause_ref,
  applies_to, hit_of, match_places, safety_break, flags_of, run_pattern_rule, found, none_found,
  run_missing_statute_rule, caught, run_rule, run_rules, detect,
}
use contractor_reviewer.Rules.Bounds.{length-run_rule}

In-map :
    {A B : Type 0} (f : A → B) (b : B) (xs : List A)
    → In b (map f xs)
    → (a : A) × In a xs × (b ≡ f a)
In-map f b [] m = absurd m
In-map f b (x ∷ xs) (inl e) = (x, inl refl, e)
In-map f b (x ∷ xs) (inr m) = let (a, i, e) = In-map f b xs m in (a, inr i, e)

module _ (R : Runtime) (ctx : DetectorContext) where
  -- A hit that reports the rule: what it and its issue hold.
  pub record IsHit (file : RawRuleFile) (rule : RawRule) (h : DetectorRuleHit) : Type 0 where
    pub id : h.rule_id ≡ rule.id
    pub version : h.rules_version ≡ file.rules_version
    pub category : h.issue.category ≡ file.category
    pub severity : h.issue.severity ≡ rule.severity
    pub message : h.issue.message ≡ rule.message

  hit_of-IsHit :
      (file : RawRuleFile) (rule : RawRule) (clause : Option String) (h : DetectorRuleHit)
      → h ≡ hit_of R file rule clause
      → IsHit file rule h
  hit_of-IsHit file rule clause h e = record {
    id = ap (λ (x : DetectorRuleHit). x.rule_id) e;
    version = ap (λ (x : DetectorRuleHit). x.rules_version) e;
    category = ap (λ (x : DetectorRuleHit). x.issue.category) e;
    severity = ap (λ (x : DetectorRuleHit). x.issue.severity) e;
    message = ap (λ (x : DetectorRuleHit). x.issue.message) e;
  }

  run_pattern_rule-IsHit :
      (file : RawRuleFile) (rule : RawRule) (p : String) (h : DetectorRuleHit)
      → In h (caught R (run_pattern_rule R file rule p ctx))
      → IsHit file rule h
  unfolding run_pattern_rule
  run_pattern_rule-IsHit file rule p h m = elim (Option-cases (R.compile p (flags_of R rule))) [
    | inl e ↦ absurd (ground (arith, e, m))
    | inr (re, e) ↦
        let (i, n, q) =
          In-map (λ i. hit_of R file rule (truthy (find_clause_ref ctx i))) h
            (match_places R re ctx.text (safety_break R) 0) (ground (arith, e, m)) in
        hit_of-IsHit file rule (truthy (find_clause_ref ctx i)) h q
  ]

  run_missing_statute_rule-IsHit :
      (file : RawRuleFile) (rule : RawRule) (topic : String) (required : List String)
      (h : DetectorRuleHit)
      → In h (caught R (run_missing_statute_rule R file rule topic required ctx))
      → IsHit file rule h
  unfolding run_missing_statute_rule
  run_missing_statute_rule-IsHit file rule topic required h m =
      elim (Option-cases (R.compile topic "gi")) [
        | inl e ↦ absurd (ground (arith, e, m))
        | inr (re, e) ↦ elim (Bool-cases (found R re ctx.text)) [
          | inr f ↦ absurd (ground (arith, e, f, m))
          | inl f ↦ elim (Option-cases (none_found R required ctx.text)) [
            | inl n ↦ absurd (ground (arith, e, f, n, m))
            | inr (b, n) ↦ elim (Bool-cases b) [
              | inr c ↦ absurd (ground (arith, e, f, n, c, m))
              | inl c ↦ hit_of-IsHit file rule none h (ground (arith, e, f, n, c, m))
            ]
          ]
        ]
      ]

  run_rule-IsHit :
      (file : RawRuleFile) (rule : RawRule) (h : DetectorRuleHit)
      → In h (run_rule R file rule ctx)
      → IsHit file rule h
  unfolding run_rule
  run_rule-IsHit file rule h m = elim (Option-cases (truthy rule.pattern)) [
    | inr (p, e) ↦ run_pattern_rule-IsHit file rule p h (ground (arith, e, m))
    | inl e ↦ elim (Option-cases (truthy rule.topic_pattern)) [
      | inl f ↦ absurd (ground (arith, e, f, m))
      | inr (topic, f) ↦ elim (Option-cases rule.required_any_pattern) [
        | inl g ↦ absurd (ground (arith, e, f, g, m))
        | inr (required, g) ↦
            run_missing_statute_rule-IsHit file rule topic required h (ground (arith, e, f, g, m))
      ]
    ]
  ]

  run_rules_iff :
      (file : RawRuleFile) (rules : List RawRule) (h : DetectorRuleHit)
      → In h (run_rules R file rules ctx)
        ↔ ((rule : RawRule) × In rule rules × In h (run_rule R file rule ctx))
  unfolding run_rules
  run_rules_iff file [] h = (λ m. absurd m, λ s. absurd s.1)
  run_rules_iff file (r ∷ rules) h = (
    λ m. elim (In-append_cases h (run_rule R file r ctx) (run_rules R file rules ctx) m) [
      | inl n ↦ (r, inl refl, n)
      | inr n ↦ let (rule, i, q) = (run_rules_iff file rules h).0 n in (rule, inr i, q)
    ],
    λ s. elim s.1 [
      | inl e ↦
          In-append_left h (run_rule R file r ctx) (run_rules R file rules ctx)
            (subst (λ x. In h (run_rule R file x ctx)) e s.2)
      | inr i ↦
          In-append_right h (run_rule R file r ctx) (run_rules R file rules ctx)
            ((run_rules_iff file rules h).1 (s.0, i, s.2))
    ],
  )

  -- What the detector runs: a rule of a loaded file that applies to the jurisdiction.
  pub record Runs (files : List RawRuleFile) (file : RawRuleFile) (rule : RawRule) : Type 0 where
    pub file-In : In file files
    pub applies : applies_to R file ctx.jurisdiction ≡ true
    pub rule-In : In rule file.rules

  -- A hit is reported exactly if a rule of a file that applies to the jurisdiction gives it.
  detect_iff :
      (files : List RawRuleFile) (h : DetectorRuleHit)
      → In h (detect R files ctx) ↔ (
          (file : RawRuleFile) × (rule : RawRule) × Runs files file rule
          × In h (run_rule R file rule ctx))
  unfolding detect
  detect_iff [] h = (λ m. absurd m, λ s. absurd s.2.file-In)
  detect_iff (f ∷ files) h = elim (Bool-cases (applies_to R f ctx.jurisdiction)) [
    | inr b ↦
        rw (b, detect)
          (
            λ m.
                let (file, rule, r, n) = (detect_iff files h).0 m in
                (
                  file,
                  rule,
                  record { file-In = inr r.file-In; applies = r.applies; rule-In = r.rule-In },
                  n,
                ),
            λ s. elim s.2.file-In [
              | inl e ↦
                  absurd
                    (ground (arith, b, s.2.applies, ap (λ x. applies_to R x ctx.jurisdiction) e))
              | inr i ↦ (detect_iff files h).1 (
                s.0,
                s.1,
                record { file-In = i; applies = s.2.applies; rule-In = s.2.rule-In },
                s.3,
              )
            ],
          )
    | inl b ↦
        rw (b, detect)
          (
            λ m. elim (In-append_cases h (run_rules R f f.rules ctx) (detect R files ctx) m) [
              | inl n ↦
                  let (rule, i, q) = (run_rules_iff f f.rules h).0 n in
                  (f, rule, record { file-In = inl refl; applies = b; rule-In = i }, q)
              | inr n ↦
                  let (file, rule, r, q) = (detect_iff files h).0 n in
                  (
                    file,
                    rule,
                    record { file-In = inr r.file-In; applies = r.applies; rule-In = r.rule-In },
                    q,
                  )
            ],
            λ s. elim s.2.file-In [
              | inl e ↦ In-append_left h (run_rules R f f.rules ctx) (detect R files ctx) (
                  (run_rules_iff f f.rules h).1 (
                    s.1,
                    subst (λ (x : RawRuleFile). In s.1 x.rules) e s.2.rule-In,
                    subst (λ x. In h (run_rule R x s.1 ctx)) e s.3,
                  ))
              | inr i ↦ In-append_right h (run_rules R f f.rules ctx) (detect R files ctx) (
                  (detect_iff files h).1 (
                    s.0,
                    s.1,
                    record { file-In = i; applies = s.2.applies; rule-In = s.2.rule-In },
                    s.3,
                  ))
            ],
          )
  ]

  -- The detector reports exactly the hits of the rules of the files that apply to the jurisdiction;
  -- each hit of a rule has the id, the version, the category, the severity and the message of the
  -- rule; and a rule gives at most 201 hits. Rules that throw take none of this from the others.
  pub detect_lem :
      (files : List RawRuleFile)
      → ((h : DetectorRuleHit)
          → In h (detect R files ctx) ↔ (
              (file : RawRuleFile) × (rule : RawRule) × Runs files file rule
              × In h (run_rule R file rule ctx)))
        × ((file : RawRuleFile) (rule : RawRule)
            → ((h : DetectorRuleHit) → In h (run_rule R file rule ctx) → IsHit file rule h)
              × (length (run_rule R file rule ctx) ≤ 201))
  detect_lem files =
      (detect_iff files, λ file rule. (run_rule-IsHit file rule, length-run_rule R ctx file rule))
