-- ===== src/Parsers/Fallback.antt =====
-- What `getParserWithFallback` promises of the parser that it returns.
use contractor_reviewer.Common.{
  String, true, ◌≡◌, ◌⊎◌, refl, inl, inr, arith, none, some, Option-cases, Bool-cases, subst,
}
use contractor_reviewer.Parsers.{
  DocumentParser, primary_parser, Services, Choice, Result, Error, ok, err, unavailable,
  settings_failed, answer, throws, get_parser_with_api_key, preferred, parser_or_primary,
  get_parser_with_fallback,
}

module _ (S : Services) (mime ws : String) where
  -- The parser can be used for the document: it supports the type, and a key is there if it needs one.
  pub record IsUsable (c : Choice) : Type 0 where
    pub supported : S.is_supported c.parser_id mime ≡ true
    pub with_options : get_parser_with_api_key S c.parser_id ws ≡ ok c.options

  Result-cases : {A : Type 0} (r : Result A) → ((a : A) × (r ≡ ok a)) ⊎ ((e : Error) × (r ≡ err e))
  Result-cases (ok a) = inl (a, refl)
  Result-cases (err e) = inr (e, refl)

  preferred-some :
      (id : DocumentParser) (c : Choice)
      → preferred S mime id ws ≡ some c
      → (c.parser_id ≡ id) × IsUsable c
  preferred-some id c h = elim (Result-cases (get_parser_with_api_key S id ws)) [
    | inr (e, r) ↦ absurd (ground (arith, rw (r, preferred) at h))
    | inl (o, r) ↦ elim (Bool-cases (S.is_supported id mime)) [
      | inr b ↦ absurd (ground (arith, rw (r, b, preferred) at h))
      | inl b ↦
          let k : some (record { parser_id = id; options = o }) ≡ some c =
            rw (r, b, preferred) at h in
          let same : record { parser_id = id; options = o } ≡ c = ground (arith, k) in
          rw (← same) (refl, record { supported = b; with_options = r })
    ]
  ]

  -- The parser supports the type, and its options can be had.
  abbrev pub CanServe : DocumentParser → Type 0
  CanServe id = (c : Choice) × (c.parser_id ≡ id) × IsUsable c

  preferred-none : (id : DocumentParser) → preferred S mime id ws ≡ none → ¬ CanServe id
  preferred-none id e (c, same, u) =
      let r : get_parser_with_api_key S id ws ≡ ok c.options =
        subst (λ x. get_parser_with_api_key S x ws ≡ ok c.options) same u.with_options in
      let b : S.is_supported id mime ≡ true =
        subst (λ x. S.is_supported x mime ≡ true) same u.supported in
      ground (arith, rw (r, b, preferred) at e)

  -- What is promised where a parser is preferred.
  abbrev pub Answers : DocumentParser → Result Choice → Type 0
  Answers id r =
      ((c : Choice) × (r ≡ ok c)
        × IsUsable c
        × ((c.parser_id ≡ id) ⊎ (c.parser_id ≡ primary_parser) × ¬ CanServe id))
      ⊎ (r ≡ err unavailable) × ¬ CanServe id × ¬ CanServe primary_parser

  parser_or_primary-Answers : (id : DocumentParser) → Answers id (parser_or_primary S mime id ws)
  unfolding parser_or_primary get_parser_with_api_key
  parser_or_primary-Answers id = elim (Option-cases (preferred S mime id ws)) [
    | inr (c, e) ↦
        let (same, usable) = preferred-some id c e in
        inl (c, rw (e, parser_or_primary) refl, usable, inl same)
    | inl e ↦ elim (Bool-cases (S.is_supported primary_parser mime)) [
      | inl b ↦
          let c : Choice = record {
            parser_id = primary_parser;
            options = record { timeout = 60000; api_key = none };
          } in
          inl (
            c,
            rw (e, parser_or_primary) (rw b refl),
            record { supported = b; with_options = refl },
            inr (refl, preferred-none id e),
          )
      | inr b ↦ inr (
        rw (e, parser_or_primary) (rw b refl),
        preferred-none id e,
        λ s.
            let t : S.is_supported primary_parser mime ≡ true =
              subst (λ x. S.is_supported x mime ≡ true) s.1 s.2.supported in
            ground (arith, b, t),
      )
    ]
  ]

  -- With a preferred parser, which is the one given, else the default of the workspace's settings,
  -- else the primary one: the answer is that parser if it supports the type and its key, where it
  -- needs one, can be read; else the primary parser if that supports the type; else an error. If no
  -- parser is given and the settings cannot be read, the answer is that error.
  pub get_parser_with_fallback_lem :
      ((id : DocumentParser) → Answers id (get_parser_with_fallback S mime (some id) ws))
      × ((id : DocumentParser)
          → S.default_document_parser ws ≡ answer (some id)
          → Answers id (get_parser_with_fallback S mime none ws))
      × (S.default_document_parser ws ≡ answer none
          → Answers primary_parser (get_parser_with_fallback S mime none ws))
      × (S.default_document_parser ws ≡ throws
          → get_parser_with_fallback S mime none ws ≡ err settings_failed)
  unfolding get_parser_with_fallback
  get_parser_with_fallback_lem = (
    λ id. parser_or_primary-Answers id,
    λ id e. rw (e, get_parser_with_fallback) (parser_or_primary-Answers id),
    λ e. rw (e, get_parser_with_fallback) (parser_or_primary-Answers primary_parser),
    λ e. rw (e, get_parser_with_fallback) refl,
  )
