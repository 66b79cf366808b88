-- ===== src/Prompts/Template.antt =====
-- PromptService.interpolate of apps/api/src/prompts/prompt.service.ts: the placeholders `{{name}}` of
-- a template and the values that replace them. A text is the list of its UTF-16 code units.
use contractor_reviewer.Common.{
  ℕ, zero, suc, ◌+◌, Bool, true, false, ◌&&◌, ◌||◌, List, [], ◌∷◌, ◌++◌, Option, none, some, leb,
  eqb, if◌then◌else◌, length,
}

abbrev pub Code : Type 0
Code = ℕ

-- `\w`
abbrev pub is_word : Code → Bool
is_word c =
    leb b'0' c && leb c b'9' || leb b'A' c && leb c b'Z' || leb b'a' c && leb c b'z' || eqb c b'_'

abbrev pub brace : Code
brace = b'{'

abbrev pub close_brace : Code
close_brace = b'}'

-- `\w*`: the longest run of word characters. What follows a run in the pattern is no word character,
-- so that a shorter run never leads to a match.
abbrev pub word : List Code → List Code
word [] = []
word (c ∷ s) = let rest = word s in if is_word c then c ∷ rest else []

abbrev pub after_word : List Code → List Code
after_word [] = []
after_word (c ∷ s) = let rest = after_word s in if is_word c then rest else c ∷ s

-- `\}\}`
abbrev pub is_closed : List Code → Bool
is_closed [] = false
is_closed (a ∷ []) = false
is_closed (a ∷ b ∷ s) = eqb a close_brace && eqb b close_brace

abbrev pub name_of : List Code → List Code → Option (List Code)
name_of [] rest = none
name_of (c ∷ w) rest = if is_closed rest then some (c ∷ w) else none

-- The name in a match of `\{\{(\w+)\}\}` at the head of the text.
abbrev pub placeholder : List Code → Option (List Code)
placeholder [] = none
placeholder (a ∷ []) = none
placeholder (a ∷ b ∷ s) =
    if eqb a brace && eqb b brace then name_of (word s) (after_word s) else none

abbrev pub spelled : List Code → List Code
spelled w = brace ∷ brace ∷ (w ++ close_brace ∷ close_brace ∷ [])

-- `template.replace(/\{\{(\w+)\}\}/g, …)`; the number is what is left of the last match.
unfoldable pub replace_from : (List Code → List Code) → ℕ → List Code → List Code
replace_from value skip [] = []
replace_from value (suc skip) (c ∷ s) = replace_from value skip s
replace_from value zero (c ∷ s) = elim (placeholder (c ∷ s)) [
  | none ↦ c ∷ replace_from value zero s
  | some w ↦ value w ++ replace_from value (length w + 3) s
]

abbrev pub same_text : List Code → List Code → Bool
same_text [] [] = true
same_text [] (d ∷ t) = false
same_text (c ∷ s) [] = false
same_text (c ∷ s) (d ∷ t) = eqb c d && same_text s t

abbrev pub Params : Type 0
Params = List (List Code × List Code)

abbrev pub own_value : List Code → Params → Option (List Code)
own_value w [] = none
own_value w ((k, v) ∷ params) = if same_text k w then some v else own_value w params

-- `params[key]`: the object's own property, else the one it inherits from Object.prototype, as text.
abbrev pub value_of : (List Code → Option (List Code)) → Params → List Code → List Code
value_of inherited params w = elim (own_value w params) [
  | some v ↦ v
  | none ↦ elim (inherited w) [ some v ↦ v | none ↦ spelled w ]
]

unfoldable pub interpolate : (List Code → Option (List Code)) → Params → List Code → List Code
unfolding replace_from
interpolate inherited params template = replace_from (value_of inherited params) zero template
