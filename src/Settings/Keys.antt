-- ===== src/Settings/Keys.antt =====
-- The API keys that updateSettings stores, as the getters give them back.
use contractor_reviewer.Common.{
  String, Bool, true, false, ◌≡◌, refl, sym, ap, ◌∙◌, subst, inl, inr, arith, [], ◌∷◌, Option, none,
  some, if◌then◌else◌, ◌==◌, Bool-cases, get_or, Dict, lookup, insert, erase, lookup-insert,
  lookup-erase, ==_of_ne, length,
}
use contractor_reviewer.Encryption
use contractor_reviewer.Encryption.{Crypto, Bytes, iv_length, encrypt, encrypt-eq-ok, decrypt}
use contractor_reviewer.Settings.{decrypted, key_of}
use contractor_reviewer.Settings.Update.{
  Error, ok, RawValue, plain, flag, null, ObjectField, missing, null_object, object, Outside,
  encrypted, apply_value, apply_values, update_keys, object_or_null,
}
use contractor_reviewer.Settings.Outcomes.{Ensures, returns, throws, bind}

-- The key of a provider after one value for it: a text that is not blank is the new key, false and
-- null remove the key, and a blank text and true keep it.
abbrev pub new_key : (String → String) → RawValue → Option String → Option String
new_key trim (plain s) old = if trim s == "" then old else some (trim s)
new_key trim (flag true) old = old
new_key trim (flag false) old = none
new_key trim null old = none

-- The key of the provider `id` after the values of a request.
abbrev pub key_after :
    (String → String) → (String → Bool) → String → Dict RawValue → Option String → Option String
key_after trim accepts id [] old = old
key_after trim accepts id ((j, value) ∷ values) old =
    key_after trim accepts id values
      (if j == id then (if accepts j then new_key trim value old else old) else old)

module _ (C : Crypto) (key : Option Bytes) (E : Outside) where
  Ensures-encrypted :
      (failure : Error) (iv : Bytes) (s : String)
      → length iv ≡ iv_length
      → Ensures (λ c. decrypted C key (some c) ≡ some s) (encrypted C key E failure iv s)
  Ensures-encrypted failure iv s e = go (encrypt C key iv s) refl
    where
      go :
          (r : Encryption.Result)
          → encrypt C key iv s ≡ r
          → Ensures (λ c. decrypted C key (some c) ≡ some s) (encrypted C key E failure iv s)
      go (Encryption.err x) q = rw (q, encrypted) throws
      go (Encryption.ok c) q =
          let (filled, read) = encrypt-eq-ok C key iv s c e q in
          rw (q, encrypted) (returns (ground (arith, ==_of_ne c "" filled, read)))

  -- The stored key of `id`, decrypted.
  abbrev pub current : String → Dict String → Option String
  current id keys = decrypted C key (lookup id keys)

  current-insert :
      (id j c : String) (keys : Dict String)
      → current id (insert j c keys)
        ≡ (if j == id then decrypted C key (some c) else current id keys)
  current-insert id j c keys = elim (Bool-cases (j == id)) [
    | inl b ↦ rw (lookup-insert id j c keys, b) refl
    | inr b ↦ rw (lookup-insert id j c keys, b) refl
  ]

  current-erase :
      (id j : String) (keys : Dict String)
      → current id (erase j keys) ≡ (if j == id then none else current id keys)
  current-erase id j keys = elim (Bool-cases (j == id)) [
    | inl b ↦ rw (lookup-erase id j keys, b) refl
    | inr b ↦ rw (lookup-erase id j keys, b) refl
  ]

  abbrev Follows : String → RawValue → String → Dict String → Dict String → Type 0
  Follows j value id keys keys' =
      current id keys'
      ≡ (if j == id then new_key E.trim value (current id keys) else current id keys)

  kept : (b : Bool) (x : Option String) → x ≡ (if b then x else x)
  kept true x = refl
  kept false x = refl

  apply_value_lem :
      (failure : Error) (iv : Bytes) (j : String) (value : RawValue) (keys : Dict String)
      (id : String)
      → length iv ≡ iv_length
      → Ensures (Follows j value id keys) (apply_value C key E failure iv j value keys)
  apply_value_lem failure iv j (plain s) keys id e = elim (Bool-cases (E.trim s == "")) [
    | inl blank ↦
        let same : new_key E.trim (plain s) (current id keys) ≡ current id keys = rw blank refl in
        rw blank (
          returns (
            kept (j == id) (current id keys)
            ∙ ap (λ x. if j == id then x else current id keys) (sym same)))
    | inr filled ↦
        let new : new_key E.trim (plain s) (current id keys) ≡ some (E.trim s) = rw filled refl in
        rw filled (
          bind (Ensures-encrypted failure iv (E.trim s) e) λ c h. returns (
            current-insert id j c keys
            ∙ ap (λ x. if j == id then x else current id keys) (h ∙ sym new)))
  ]
  apply_value_lem failure iv j (flag true) keys id e = returns (kept (j == id) (current id keys))
  apply_value_lem failure iv j (flag false) keys id e = returns (current-erase id j keys)
  apply_value_lem failure iv j null keys id e = returns (current-erase id j keys)

  -- One entry, which may be skipped.
  entry_lem :
      (failure : Error) (ivs : String → Bytes) (accepts : String → Bool) (j : String)
      (value : RawValue) (keys : Dict String) (id : String)
      → length (ivs j) ≡ iv_length
      → Ensures
          (λ keys'. current id keys' ≡ (
            if j == id
            then if accepts j then new_key E.trim value (current id keys) else current id keys
            else current id keys))
          (if accepts j then apply_value C key E failure (ivs j) j value keys else ok keys)
  entry_lem failure ivs accepts j value keys id e = elim (Bool-cases (accepts j)) [
    | inl y ↦ rw y (apply_value_lem failure (ivs j) j value keys id e)
    | inr n ↦ rw n (returns (kept (j == id) (current id keys)))
  ]

  apply_values_lem :
      (failure : Error) (ivs : String → Bytes) (accepts : String → Bool) (values : Dict RawValue)
      (keys : Dict String) (id : String)
      → ((j : String) → length (ivs j) ≡ iv_length)
      → Ensures
          (λ keys'. current id keys' ≡ key_after E.trim accepts id values (current id keys))
          (apply_values C key E failure ivs accepts values keys)
  unfolding apply_values
  apply_values_lem failure ivs accepts [] keys id e = returns refl
  apply_values_lem failure ivs accepts ((j, value) ∷ values) keys id e =
      bind (entry_lem failure ivs accepts j value keys id (e j)) λ keys' h.
        subst
          (λ x.
            Ensures (λ keys''. current id keys'' ≡ key_after E.trim accepts id values x)
              (apply_values C key E failure ivs accepts values keys'))
          h (apply_values_lem failure ivs accepts values keys' id e)

  -- The key of a provider after a field of a request.
  abbrev pub key_after_field :
      (String → Bool) → String → ObjectField RawValue → Option String → Option String
  key_after_field accepts id missing old = old
  key_after_field accepts id null_object old = old
  key_after_field accepts id (object values) old = key_after E.trim accepts id values old

  key_of-object_or_null :
      (keys : Dict String) (id : String) → key_of C key (object_or_null keys) id ≡ current id keys
  key_of-object_or_null [] id = refl
  key_of-object_or_null (e ∷ keys) id = refl

  pub update_keys_lem :
      (failure : Error) (ivs : String → Bytes) (accepts : String → Bool)
      (field : ObjectField RawValue) (old : Option (Dict String)) (id : String)
      → ((j : String) → length (ivs j) ≡ iv_length)
      → Ensures
          (λ keys. key_of C key keys id ≡ key_after_field accepts id field (key_of C key old id))
          (update_keys C key E failure ivs accepts field old)
  update_keys_lem failure ivs accepts missing old id e = returns refl
  update_keys_lem failure ivs accepts null_object old id e = throws
  update_keys_lem failure ivs accepts (object values) old id e =
      bind (apply_values_lem failure ivs accepts values (get_or old []) id e)
        λ keys h. returns (key_of-object_or_null keys id ∙ h)
