-- ===== src/Prompts/Slots.antt =====
-- The places that a prompt can be stored for, and what a change of the table means for each.
use contractor_reviewer.Common.{
  String, Bool, true, ◌≡◌, refl, sym, ap, ◌∙◌, subst, ◌≢◌, inl, inr, arith, Option, none, some,
  if◌then◌else◌, Bool-cases, Option-cases, get_or, List, ℕ,
}
use contractor_reviewer.Repository.{Repository}
use contractor_reviewer.Repository.Lookup.{
  IsUniqueFor, find_one-insert, find_one-update, IsUniqueFor-save, IsUniqueFor-remove,
  find_one-remove,
}
use contractor_reviewer.Entities.{Prompt, PromptMetadata, prompt_key}
use contractor_reviewer.Prompts.{PromptOptions, truthy, at_global, at_workspace, at_document}
use contractor_reviewer.Prompts.Store.{
  Change, changed, new_prompt, store, store_shared, store_for, upsert_prompt, reset,
  reset_global_prompt, reset_prompt, reset_document_prompt,
}
use text.Mathlib.TextEquality.{eq_iff}

-- Key and variant, and whom the prompt is for.
pub data Slot : Type 0 where
  account : (key variant : String) → Slot
  workspace : (key variant ws : String) → Slot
  document : (key variant doc : String) → Slot

abbrev pub is_at : Slot → Prompt → Bool
is_at (account k v) = at_global k v
is_at (workspace k v ws) = at_workspace k v ws
is_at (document k v doc) = at_document k v doc

abbrev pub shared_place : (key variant : String) → Option String → Slot
shared_place k v none = account k v
shared_place k v (some ws) = workspace k v ws

abbrev pub place : (key variant : String) → (doc ws given : Option String) → Slot
place k v none ws given = shared_place k v given
place k v (some doc) none given = shared_place k v given
place k v (some doc) (some ws) given = document k v doc

-- The place that the options of an update name.
abbrev pub target : String → PromptOptions → Slot
target key o =
    place key (get_or o.variant "default") (truthy o.document_id) (truthy o.workspace_id)
      o.workspace_id

abbrev pub slot_of : Prompt → Slot
slot_of p = elim p.document_id [
  | some doc ↦ document p.key p.variant doc
  | none ↦ elim p.workspace_id [
    | some ws ↦ workspace p.key p.variant ws
    | none ↦ account p.key p.variant
  ]
]

pub slot_of-is_at : (s : Slot) (p : Prompt) → is_at s p ≡ true → slot_of p ≡ s
slot_of-is_at (account k v) p h = ground (arith, eq_iff p.key k, eq_iff p.variant v)
slot_of-is_at (workspace k v ws) p h = elim (Option-cases p.workspace_id) [
  | inl e ↦ absurd (ground (arith, e))
  | inr (w, e) ↦ ground (arith, e, eq_iff p.key k, eq_iff p.variant v, eq_iff w ws)
]
slot_of-is_at (document k v doc) p h = elim (Option-cases p.document_id) [
  | inl e ↦ absurd (ground (arith, e))
  | inr (d, e) ↦ ground (arith, e, eq_iff p.key k, eq_iff p.variant v, eq_iff d doc)
]

pub is_at_unique : (s r : Slot) (p : Prompt) → is_at s p ≡ true → is_at r p ≡ true → s ≡ r
is_at_unique s r p h k = sym (slot_of-is_at s p h) ∙ slot_of-is_at r p k

module _ (P : Repository prompt_key) where
  abbrev pub find_at : Slot → P.Table → Option Prompt
  find_at s t = P.find_one (is_at s) t

  -- One prompt at most in each place: the unique indexes of the table.
  abbrev pub IsUnique : P.Table → Type 0
  IsUnique t = (s : Slot) → IsUniqueFor prompt_key P (is_at s) t

  -- The table `t'` differs from `t` at the place `s` alone, where it holds `found`.
  abbrev pub Differs : Slot → Option Prompt → P.Table → P.Table → Type 0
  Differs s found t t' = (find_at s t' ≡ found) × ((r : Slot) → r ≢ s → find_at r t' ≡ find_at r t)

  found-Differs :
      (s : Slot) (p : Prompt) (t t' : P.Table)
      → is_at s p ≡ true
      → ((r : Slot) → find_at r t' ≡ (if is_at r p then some p else find_at r t))
      → Differs s (some p) t t'
  found-Differs s p t t' h look = (
    ground (arith, look s, h),
    λ r n. elim (Bool-cases (is_at r p)) [
      | inl b ↦ absurd (n (is_at_unique r s p b h))
      | inr b ↦ ground (arith, look r, b)
    ],
  )

  -- What a call that stores a content for the place `s` returns.
  abbrev pub IsStored : Slot → List ℕ → P.Table → Prompt × P.Table → Type 0
  IsStored s content t (p, t') = (p.content ≡ content) × IsUnique t' × Differs s (some p) t t'

  pub store_lem :
      (s : Slot) (id : String) (c : Change) (ws doc : Option String) (t : P.Table)
      → IsUnique t
      → P.at t id ≡ none
      → is_at s (new_prompt id c ws doc) ≡ true
      → IsStored s c.content t (store P (is_at s) id c ws doc t)
  store_lem s id c ws doc t unique fresh h = elim (Option-cases (find_at s t)) [
    | inl e ↦
        let p = new_prompt id c ws doc in
        let first : (r : Slot) → is_at r p ≡ true → find_at r t ≡ none =
          λ r q. rw (is_at_unique r s p q h) e in
        let out : store P (is_at s) id c ws doc t ≡ (p, P.save p t) = ground (arith, e) in
        subst (IsStored s c.content t) (sym out) (
          refl,
          λ r. IsUniqueFor-save prompt_key P (is_at r) t p (unique r) (λ x hx qx qp.
              absurd (ground (arith, qx, P.find_one_complete (is_at r) t x.id x (first r qp) hx))),
          found-Differs s p t (P.save p t) h
              (λ r. find_one-insert prompt_key P (is_at r) t p (unique r) fresh (first r)),
        )
    | inr (old, e) ↦
        let (ho, qo) = P.find_one_sound (is_at s) t old e in
        let p = changed c.content c.metadata old in
        let out : store P (is_at s) id c ws doc t ≡ (p, P.save p t) = ground (arith, e) in
        subst (IsStored s c.content t) (sym out) (
          refl,
          λ r.
              IsUniqueFor-save prompt_key P (is_at r) t p (unique r)
                (λ x hx qx qp. ap prompt_key (unique r x old hx ho qx (same r old ∙ qp))),
          found-Differs s p t (P.save p t) (sym (same s old) ∙ qo)
              (λ r. find_one-update prompt_key P (is_at r) t old p (unique r) ho refl (same r old)),
        )
  ]
    where
      same : (r : Slot) (old : Prompt) → is_at r old ≡ is_at r (changed c.content c.metadata old)
      same (account k v) old = refl
      same (workspace k v w) old = refl
      same (document k v d) old = refl

  store_shared_lem :
      (id : String) (c : Change) (given : Option String) (t : P.Table)
      → IsUnique t
      → P.at t id ≡ none
      → IsStored (shared_place c.key c.variant given) c.content t (store_shared P id c given t)
  store_shared_lem id c none t unique fresh =
      store_lem (account c.key c.variant) id c none none t unique fresh
        (ground (arith, eq_iff c.key c.key, eq_iff c.variant c.variant))
  store_shared_lem id c (some ws) t unique fresh =
      store_lem (workspace c.key c.variant ws) id c (some ws) none t unique fresh
        (ground (arith, eq_iff c.key c.key, eq_iff c.variant c.variant, eq_iff ws ws))

  store_for_lem :
      (id : String) (c : Change) (doc ws given : Option String) (t : P.Table)
      → IsUnique t
      → P.at t id ≡ none
      → IsStored (place c.key c.variant doc ws given) c.content t (store_for P id c doc ws given t)
  store_for_lem id c none ws given t unique fresh = store_shared_lem id c given t unique fresh
  store_for_lem id c (some doc) none given t unique fresh =
      store_shared_lem id c given t unique fresh
  store_for_lem id c (some doc) (some ws) given t unique fresh =
      store_lem (document c.key c.variant doc) id c (some ws) (some doc) t unique fresh
        (ground (arith, eq_iff c.key c.key, eq_iff c.variant c.variant, eq_iff doc doc))

  -- upsertPrompt stores the content in one place, that of the document if both a document and a
  -- workspace are given, else that of the workspace if one is given, else that of the account. The
  -- row that it returns is found there afterwards, what is found in every other place is as
  -- before, and each place holds one row at most still, if that was so and the key that the
  -- database gives to a new row was unused.
  pub upsert_prompt_lem :
      (id key : String) (content : List ℕ) (o : PromptOptions) (metadata : Option PromptMetadata)
      (t : P.Table)
      → IsUnique t
      → P.at t id ≡ none
      → IsStored (target key o) content t (upsert_prompt P id key content o metadata t)
  unfolding upsert_prompt
  upsert_prompt_lem id key content o metadata t unique fresh =
      store_for_lem id
        (record {
          key = key;
          variant = get_or o.variant "default";
          content = content;
          metadata = metadata;
        })
        (truthy o.document_id) (truthy o.workspace_id) o.workspace_id t unique fresh

  reset_lem :
      (s : Slot) (t : P.Table)
      → IsUnique t
      → IsUnique (reset P (is_at s) t) × Differs s none t (reset P (is_at s) t)
  unfolding reset
  reset_lem s t unique = elim (Option-cases (find_at s t)) [
    | inl e ↦ rw (e, reset) (unique, (e, λ r n. refl))
    | inr (p, e) ↦
        let (hp, qp) = P.find_one_sound (is_at s) t p e in
        rw (e, reset)
          (
            λ r. IsUniqueFor-remove prompt_key P (is_at r) t p (unique r),
            (
              ground (arith, find_one-remove prompt_key P (is_at s) t p (unique s) hp, qp),
              λ r n. elim (Bool-cases (is_at r p)) [
                | inl b ↦ absurd (n (is_at_unique r s p b qp))
                | inr b ↦
                    ground (arith, find_one-remove prompt_key P (is_at r) t p (unique r) hp, b)
              ],
            ),
          )
  ]

  -- Each of the three resets empties one place, of the variant "default", and what is found in every
  -- other place is as before, if each place holds one row at most.
  pub resets_lem :
      (key ws doc : String) (t : P.Table)
      → IsUnique t
      → Differs (account key "default") none t (reset_global_prompt P key t)
        × Differs (workspace key "default" ws) none t (reset_prompt P ws key t)
        × Differs (document key "default" doc) none t (reset_document_prompt P ws doc key t)
  resets_lem key ws doc t unique = (
    (reset_lem (account key "default") t unique).1,
    (reset_lem (workspace key "default" ws) t unique).1,
    (reset_lem (document key "default" doc) t unique).1,
  )
