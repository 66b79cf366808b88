-- ===== src/Prompts/Rendering.antt =====
-- Templates as sequences of literal parts and placeholders, and what interpolation makes of them.
use contractor_reviewer.Common.{
  zero, ◌+◌, ◌↔◌, sym, inl, inr, In, Option-cases, Bool-cases, Bool, true, false, not, ◌&&◌, ◌≡◌,
  refl, ap, ◌∙◌, arith, List, [], ◌∷◌, ◌++◌, Option, none, some, eqb, length, length-append,
}
use contractor_reviewer.Prompts.Template.{
  Code, Params, is_word, brace, close_brace, word, after_word, name_of, placeholder, spelled,
  replace_from, own_value, same_text, value_of, interpolate,
}
use mathlib.Core.List.{append_assoc}
use mathlib.Core.Path.{ap₂}

pub data Segment : Type 0 where
  literal : List Code → Segment
  hole : List Code → Segment

-- No `{{` stands in the text, and it does not end in `{`.
abbrev pub no_open : List Code → Bool
no_open [] = true
no_open (a ∷ []) = not (eqb a brace)
no_open (a ∷ b ∷ s) = not (eqb a brace && eqb b brace) && no_open (b ∷ s)

abbrev pub all_word : List Code → Bool
all_word [] = true
all_word (c ∷ w) = is_word c && all_word w

abbrev pub is_name : List Code → Bool
is_name [] = false
is_name (c ∷ w) = all_word (c ∷ w)

abbrev pub IsTemplate : List Segment → Type 0
IsTemplate [] = Unit
IsTemplate (literal t ∷ segments) = (no_open t ≡ true) × IsTemplate segments
IsTemplate (hole w ∷ segments) = (is_name w ≡ true) × IsTemplate segments

abbrev pub print : List Segment → List Code
print [] = []
print (literal t ∷ segments) = t ++ print segments
print (hole w ∷ segments) = spelled w ++ print segments

abbrev pub render : (List Code → List Code) → List Segment → List Code
render value [] = []
render value (literal t ∷ segments) = t ++ render value segments
render value (hole w ∷ segments) = value w ++ render value segments

word-closed : (w s : List Code) → all_word w ≡ true → word (w ++ close_brace ∷ s) ≡ w
word-closed [] s h = refl
word-closed (c ∷ w) s h = ground (arith, word-closed w s)

after_word-closed :
    (w s : List Code) → all_word w ≡ true → after_word (w ++ close_brace ∷ s) ≡ close_brace ∷ s
after_word-closed [] s h = refl
after_word-closed (c ∷ w) s h = ground (arith, after_word-closed w s)

placeholder-spelled : (w s : List Code) → is_name w ≡ true → placeholder (spelled w ++ s) ≡ some w
placeholder-spelled [] s h = absurd (ground arith)
placeholder-spelled (c ∷ w) s h =
    ap (λ (t : List Code). placeholder (brace ∷ brace ∷ t))
      (append_assoc (c ∷ w) (close_brace ∷ close_brace ∷ []) s)
    ∙ ap₂ name_of (word-closed (c ∷ w) (close_brace ∷ s) h)
        (after_word-closed (c ∷ w) (close_brace ∷ s) h)

module _ (value : List Code → List Code) where
  skip_all :
      (xs ys : List Code) → replace_from value (length xs) (xs ++ ys) ≡ replace_from value zero ys
  unfolding replace_from
  skip_all [] ys = refl
  skip_all (x ∷ xs) ys = skip_all xs ys

  step_none :
      (c : Code) (s : List Code)
      → placeholder (c ∷ s) ≡ none
      → replace_from value zero (c ∷ s) ≡ c ∷ replace_from value zero s
  unfolding replace_from
  step_none c s e = rw (e, replace_from)

  step_some :
      (c : Code) (s w : List Code)
      → placeholder (c ∷ s) ≡ some w
      → replace_from value zero (c ∷ s) ≡ value w ++ replace_from value (length w + 3) s
  unfolding replace_from
  step_some c s w e = rw (e, replace_from)

  replace_literal :
      (t rest : List Code)
      → no_open t ≡ true
      → replace_from value zero (t ++ rest) ≡ t ++ replace_from value zero rest
  replace_literal [] rest h = refl
  replace_literal (a ∷ []) [] h = step_none a [] refl
  replace_literal (a ∷ []) (b ∷ rest) h = step_none a (b ∷ rest) (ground arith)
  replace_literal (a ∷ b ∷ t) rest h =
      step_none a (b ∷ t ++ rest) (ground arith)
      ∙ ap (a ∷◌) (replace_literal (b ∷ t) rest (ground arith))

  replace_hole :
      (w rest : List Code)
      → is_name w ≡ true
      → replace_from value zero (spelled w ++ rest) ≡ value w ++ replace_from value zero rest
  replace_hole w rest h =
      step_some brace (brace ∷ (w ++ close_brace ∷ close_brace ∷ []) ++ rest) w
        (placeholder-spelled w rest h)
      ∙ ap (value w ++◌) (
          ap (λ n. replace_from value n (brace ∷ (w ++ close_brace ∷ close_brace ∷ []) ++ rest))
            (omega (arith, length-append w (close_brace ∷ close_brace ∷ [])))
          ∙ skip_all (brace ∷ (w ++ close_brace ∷ close_brace ∷ [])) rest)

  replace-print :
      (segments : List Segment)
      → IsTemplate segments
      → replace_from value zero (print segments) ≡ render value segments
  unfolding replace_from
  replace-print [] h = refl
  replace-print (literal t ∷ segments) h =
      replace_literal t (print segments) h.0 ∙ ap (t ++◌) (replace-print segments h.1)
  replace-print (hole w ∷ segments) h =
      replace_hole w (print segments) h.0 ∙ ap (value w ++◌) (replace-print segments h.1)

pub interpolate-render :
    (inherited : List Code → Option (List Code)) (params : Params) (segments : List Segment)
    → IsTemplate segments
    → interpolate inherited params (print segments) ≡ render (value_of inherited params) segments
unfolding interpolate
interpolate-render inherited params segments h =
    replace-print (value_of inherited params) segments h

same_text_iff : (a b : List Code) → (same_text a b ≡ true) ↔ (a ≡ b)
same_text_iff [] [] = (λ e. refl, λ e. refl)
same_text_iff [] (d ∷ t) = (λ e. absurd (ground arith), λ e. absurd (cc e))
same_text_iff (c ∷ s) [] = (λ e. absurd (ground arith), λ e. absurd (cc e))
same_text_iff (c ∷ s) (d ∷ t) =
    let rest = same_text_iff s t in (λ e. ground (arith, rest, e), λ e. ground (arith, rest, e))

own_value-some :
    (w v : List Code) (params : Params) → own_value w params ≡ some v → In (w, v) params
own_value-some w v [] e = absurd (ground arith)
own_value-some w v ((k, x) ∷ params) e = elim (Bool-cases (same_text k w)) [
  | inl b ↦
      let key : k ≡ w = (same_text_iff k w).0 b in
      let value : x ≡ v = ground (arith, b, e) in inl (ap₂ (λ a c. (a, c)) (sym key) (sym value))
  | inr b ↦ inr (own_value-some w v params (ground (arith, b, e)))
]

own_value-none :
    (w v : List Code) (params : Params) → own_value w params ≡ none → ¬ In (w, v) params
own_value-none w v [] e m = m
own_value-none w v ((k, x) ∷ params) e m = elim (Bool-cases (same_text k w)) [
  | inl b ↦ absurd (ground (arith, b, e))
  | inr b ↦ elim m [
    | inl q ↦ absurd (ground (arith, b, (same_text_iff k w).1 (sym (ap (λ (y : _ × _). y.0) q))))
    | inr n ↦ own_value-none w v params (ground (arith, b, e)) n
  ]
]

-- An object has one value at most for a key.
abbrev pub IsObject : Params → Type 0
IsObject params = (w v v' : List Code) → In (w, v) params → In (w, v') params → v ≡ v'

-- What a reader expects in place of a placeholder: a value of its name that is not empty, or, where
-- there is none by that name, the placeholder as it is spelled.
pub data Replaces (inherited : List Code → Option (List Code)) (params : Params) (w : List Code)
    : List Code → Type 0 where
  by_value : (c : Code) (v : List Code) → In (w, c ∷ v) params → Replaces inherited params w (c ∷ v)
  by_itself :
      ((v : List Code) → ¬ In (w, v) params)
      → inherited w ≡ none
      → Replaces inherited params w (brace ∷ brace ∷ (w ++ close_brace ∷ close_brace ∷ []))

-- The text reads as the template with its placeholders replaced.
pub data Reads (inherited : List Code → Option (List Code)) (params : Params)
    : List Segment → List Code → Type 0 where
  nothing_left : Reads inherited params [] []
  keeps :
      (t : List Code) {segments : List Segment} {s : List Code}
      → Reads inherited params segments s
      → Reads inherited params (literal t ∷ segments) (t ++ s)
  replaces :
      {w v : List Code} {segments : List Segment} {s : List Code}
      → Replaces inherited params w v
      → Reads inherited params segments s
      → Reads inherited params (hole w ∷ segments) (v ++ s)

module _ (inherited : List Code → Option (List Code)) (params : Params)
    (object : IsObject params) where
  value_of-Replaces :
      (w v : List Code) → Replaces inherited params w v → value_of inherited params w ≡ v
  value_of-Replaces w _ (by_value c v m) = elim (Option-cases (own_value w params)) [
    | inl e ↦ absurd (own_value-none w (c ∷ v) params e m)
    | inr (x, e) ↦
        let same : x ≡ c ∷ v = object w x (c ∷ v) (own_value-some w x params e) m in
        rw (e, value_of) same
  ]
  value_of-Replaces w _ (by_itself missing plain) = elim (Option-cases (own_value w params)) [
    | inl e ↦ rw (e, plain, value_of) refl
    | inr (x, e) ↦ absurd (missing x (own_value-some w x params e))
  ]

  render-Reads :
      (segments : List Segment) (s : List Code)
      → Reads inherited params segments s
      → render (value_of inherited params) segments ≡ s
  render-Reads _ _ nothing_left = refl
  render-Reads _ _ (keeps t r) = ap (t ++◌) (render-Reads _ _ r)
  render-Reads _ _ (replaces {w} {v} {segments} {s} p r) =
      ap₂ (λ a b. a ++ b) (value_of-Replaces w v p) (render-Reads segments s r)

  -- Where a template is literal parts and placeholders, and each placeholder's name has a value that
  -- is not empty or none at all, interpolation keeps each literal part, puts the value in place of
  -- a placeholder that has one and leaves the others as they are spelled; a value is not searched
  -- for placeholders. Nothing is said of a name with an empty value.
  pub interpolate-print :
      (segments : List Segment) (s : List Code)
      → IsTemplate segments
      → Reads inherited params segments s
      → interpolate inherited params (print segments) ≡ s
  interpolate-print segments s h r =
      interpolate-render inherited params segments h ∙ render-Reads segments s r
