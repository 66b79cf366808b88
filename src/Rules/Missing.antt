-- ===== src/Rules/Missing.antt =====
-- The rules for a statute that a text should name.
use contractor_reviewer.Common.{
  String, ℕ, not, ◌&&◌, ◌≡◌, refl, inl, inr, arith, List, [], ◌∷◌, none, some, All, Bool-cases,
  if◌then◌else◌, any,
}
use contractor_reviewer.Rules.{
  Runtime, Regex, RawRule, RawRuleFile, DetectorContext, hit_of, found, none_found,
  run_missing_statute_rule,
}

module _ (R : Runtime) where
  none_found-any :
      (re : String → Regex) (required : List String) (text : List ℕ)
      → All (λ p. R.compile p "gi" ≡ some (re p)) required
      → none_found R required text ≡ some (not (any (λ p. found R (re p) text) required))
  unfolding none_found
  none_found-any re [] text h = refl
  none_found-any re (p ∷ ps) text h = elim (Bool-cases (found R (re p) text)) [
    | inl f ↦ ground (arith, h.0, f)
    | inr f ↦ ground (arith, h.0, f, none_found-any re ps text h.1)
  ]

  -- If the patterns of the rule are well formed, it reports one issue, without a clause, exactly if
  -- its topic is found in the text and none of the required patterns is.
  pub run_missing_statute_rule_lem :
      (file : RawRuleFile) (rule : RawRule) (topic : String) (required : List String)
      (ctx : DetectorContext) (re : String → Regex)
      → R.compile topic "gi" ≡ some (re topic)
      → All (λ p. R.compile p "gi" ≡ some (re p)) required
      → run_missing_statute_rule R file rule topic required ctx
        ≡ some (
            if found R (re topic) ctx.text && not (any (λ p. found R (re p) ctx.text) required)
            then hit_of R file rule none ∷ []
            else [])
  unfolding run_missing_statute_rule
  run_missing_statute_rule_lem file rule topic required ctx re ht hr =
      let n = none_found-any re required ctx.text hr in
      elim (Bool-cases (found R (re topic) ctx.text)) [
        | inr f ↦ ground (arith, ht, f)
        | inl f ↦ elim (Bool-cases (any (λ p. found R (re p) ctx.text) required)) [
          | inl a ↦ ground (arith, ht, f, a, n)
          | inr a ↦ ground (arith, ht, f, a, n)
        ]
      ]
