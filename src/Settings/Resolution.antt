-- ===== src/Settings/Resolution.antt =====
-- Which provider a workspace's calls use.
use contractor_reviewer.Common.{
  String, ◌≡◌, refl, sym, ap, ◌∙◌, subst, ◌≢◌, inl, inr, arith, List, [], ◌∷◌, ◌++◌, Option, none,
  some, Option-cases, Dict, lookup, All, ==-cases,
}
use contractor_reviewer.Repository.{Repository}
use contractor_reviewer.Entities.{settings_key}
use contractor_reviewer.Encryption.{Crypto, Bytes}
use contractor_reviewer.Settings.{
  truthy, if_included, decrypted, key_of, first_with_key, or_first, preferred_with_key, column,
  with_config, transcription_provider, tts_provider, transcription_provider_ids, tts_provider_ids,
  tts_provider_fallback_order, resolve_effective_transcription_provider,
  resolve_effective_tts_provider,
}
use mathlib.Core.Path.{ap₂}

-- The provider `p.0` is the first of the identifiers with a key that is not empty, and has the key `p.1`.
pub record IsFirst (get : String → Option String) (ids : List String) (p : String × String)
    : Type 0 where
  pub before : List String
  pub after : List String
  pub splits : ids ≡ before ++ p.0 ∷ after
  pub none_before : All (λ i. truthy (get i) ≡ none) before
  pub has_key : get p.0 ≡ some p.1
  pub filled : p.1 ≢ ""

-- What a search of the identifiers for a key finds.
abbrev pub Finds : (String → Option String) → List String → Option (String × String) → Type 0
Finds get ids none = All (λ i. truthy (get i) ≡ none) ids
Finds get ids (some p) = IsFirst get ids p

truthy-eq-some : (o : Option String) (k : String) → truthy o ≡ some k → (o ≡ some k) × (k ≢ "")
truthy-eq-some none k e = absurd (cc e)
truthy-eq-some (some s) k e = elim (==-cases s "") [
  | inl (b, q) ↦ absurd (ground (arith, e, b))
  | inr (b, n) ↦
      let same : s ≡ k = ground (arith, e, b) in (ap (λ x. some x) same, λ q. n (same ∙ q))
]

none_found :
    (get : String → Option String) (ids : List String)
    → ((i : String) → get i ≡ none)
    → Finds get ids none
none_found get [] e = tt
none_found get (i ∷ ids) e = (ap truthy (e i), none_found get ids e)

-- The preferred provider, if one is set and is known.
abbrev pub preferred_first : List String → Option String → List String
preferred_first ids preferred = elim (if_included ids (truthy preferred)) [
  | none ↦ []
  | some id ↦ id ∷ []
]

module _ (C : Crypto) (key : Option Bytes) where
  abbrev stored : Dict String → String → Option String
  stored keys id = decrypted C key (lookup id keys)

  first_with_key_lem :
      (keys : Dict String) (ids : List String)
      → Finds (stored keys) ids (first_with_key C key keys ids)
  first_with_key_lem keys [] = tt
  first_with_key_lem keys (id ∷ ids) = elim (Option-cases (truthy (stored keys id))) [
    | inr (k, e) ↦
        let (has, filled) = truthy-eq-some (stored keys id) k e in
        rw (e, first_with_key)
          (record {
            before = [];
            after = ids;
            splits = refl;
            none_before = tt;
            has_key = has;
            filled = filled;
          })
    | inl e ↦
        rw (e, first_with_key)
          (later e (first_with_key C key keys ids) (first_with_key_lem keys ids))
  ]
    where
      later :
          truthy (stored keys id) ≡ none
          → (found : Option (String × String)) → Finds (stored keys) ids found
          → Finds (stored keys) (id ∷ ids) found
      later e none h = (e, h)
      later e (some p) h = record {
        before = id ∷ h.before;
        after = h.after;
        splits = ap (id ∷◌) h.splits;
        none_before = (e, h.none_before);
        has_key = h.has_key;
        filled = h.filled;
      }

  first_with_key-append :
      (keys : Dict String) (xs ys : List String)
      → or_first C key (first_with_key C key keys xs) (first_with_key C key keys ys)
        ≡ first_with_key C key keys (xs ++ ys)
  first_with_key-append keys [] ys = refl
  first_with_key-append keys (x ∷ xs) ys = ground (arith, first_with_key-append keys xs ys)

  preferred_with_key-first :
      (keys : Dict String) (ids : List String) (preferred : Option String)
      → preferred_with_key C key keys ids preferred
        ≡ first_with_key C key keys (preferred_first ids preferred)
  preferred_with_key-first keys ids preferred =
      elim (Option-cases (if_included ids (truthy preferred))) [
        | inl e ↦ ground (arith, e)
        | inr (id, e) ↦ ground (arith, e)
      ]

  transcription_provider_lem :
      (keys : Option (Dict String)) (preferred : Option String) (fallback : String)
      → Finds
          (key_of C key keys)
          (preferred_first transcription_provider_ids preferred
            ++ (transcription_provider_ids ++ fallback ∷ []))
          (transcription_provider C key keys preferred fallback)
  unfolding transcription_provider
  transcription_provider_lem none preferred fallback =
      none_found (key_of C key none)
        (preferred_first transcription_provider_ids preferred
          ++ (transcription_provider_ids ++ fallback ∷ []))
        (λ i. refl)
  transcription_provider_lem (some keys) preferred fallback =
      let ids = preferred_first transcription_provider_ids preferred in
      let rest = transcription_provider_ids ++ fallback ∷ [] in
      subst (Finds (stored keys) (ids ++ rest))
        (sym (
          ap₂ (or_first C key) (preferred_with_key-first keys transcription_provider_ids preferred)
            (first_with_key-append keys transcription_provider_ids (fallback ∷ []))
          ∙ first_with_key-append keys ids rest))
        (first_with_key_lem keys (ids ++ rest))

  tts_provider_lem :
      (keys : Option (Dict String)) (preferred : Option String)
      → Finds
          (key_of C key keys)
          (preferred_first tts_provider_ids preferred ++ tts_provider_fallback_order)
          (tts_provider C key keys preferred)
  unfolding tts_provider
  tts_provider_lem none preferred =
      none_found (key_of C key none)
        (preferred_first tts_provider_ids preferred ++ tts_provider_fallback_order) (λ i. refl)
  tts_provider_lem (some keys) preferred =
      let ids = preferred_first tts_provider_ids preferred in
      subst (Finds (stored keys) (ids ++ tts_provider_fallback_order))
        (sym (
          ap (λ x. or_first C key x (first_with_key C key keys tts_provider_fallback_order))
            (preferred_with_key-first keys tts_provider_ids preferred)
          ∙ first_with_key-append keys ids tts_provider_fallback_order))
        (first_with_key_lem keys (ids ++ tts_provider_fallback_order))

  module _ (S : Repository settings_key) where
    -- resolveEffectiveTranscriptionProvider returns the first provider that has a key which can be
    -- decrypted and is not empty, in the order of the preferred one, if it is known, then Hugging
    -- Face and OpenAI, then the one that the environment names, and it returns that key; it returns
    -- null exactly if none of them has such a key. resolveEffectiveTtsProvider does so in the order of
    -- the preferred one, if it is known, then Hugging Face, OpenAI, ElevenLabs and Replicate, and
    -- adds the stored configuration of the provider.
    pub resolve_effective_providers_lem :
        (ws fallback : String) (t : S.Table)
        → Finds
            (key_of C key (column C key S ws (λ s. s.transcription_provider_api_keys) t))
            (preferred_first transcription_provider_ids
                (column C key S ws (λ s. s.preferred_transcription_provider) t)
              ++ (transcription_provider_ids ++ fallback ∷ []))
            (resolve_effective_transcription_provider C key S ws fallback t)
          × ((found : Option (String × String)) × (resolve_effective_tts_provider C key S ws t
                ≡ with_config C key (column C key S ws (λ s. s.tts_provider_config) t) found)
              × Finds
                  (key_of C key (column C key S ws (λ s. s.tts_provider_api_keys) t))
                  (preferred_first tts_provider_ids
                      (column C key S ws (λ s. s.preferred_tts_provider) t)
                    ++ tts_provider_fallback_order)
                  found)
    resolve_effective_providers_lem ws fallback t = (
      transcription_provider_lem (column C key S ws (λ s. s.transcription_provider_api_keys) t)
          (column C key S ws (λ s. s.preferred_transcription_provider) t) fallback,
      (
        tts_provider C key (column C key S ws (λ s. s.tts_provider_api_keys) t)
            (column C key S ws (λ s. s.preferred_tts_provider) t),
        refl,
        tts_provider_lem (column C key S ws (λ s. s.tts_provider_api_keys) t)
            (column C key S ws (λ s. s.preferred_tts_provider) t),
      ),
    )
