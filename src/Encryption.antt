-- ===== src/Encryption.antt =====
-- apps/api/src/common/encryption.service.ts: how API keys are encrypted. The cipher, base64 and
-- hexadecimal are Node's and a parameter; the layout of a payload is the service's. Bytes are
-- numbers.
pub mod Toy
mod Tests
use contractor_reviewer.Common.{
  ℕ, ◌+◌, ◌*◌, ◌≡◌, refl, sym, ap, ◌∙◌, subst, ◌⊎◌, ◌≢◌, take-append, drop-append, String, Bool,
  true, false, List, [], ◌∷◌, ◌++◌, Option, none, some, inl, inr, arith, if◌then◌else◌, ltb, eqb,
  length, take, drop, length-append, Option-cases, Bool-cases,
}
use mathlib.Core.List.{append_assoc}

abbrev pub Bytes : Type 0
Bytes = List ℕ

-- `createCipheriv('aes-256-gcm', …)` gives the ciphertext and its tag, and throws on a key that has not
-- 32 bytes; `createDecipheriv` gives the text back, or throws where the tag does not fit or the key has
-- not 32 bytes. `Buffer.from(s, 'hex')` stops at the first that is no digit. `Buffer.from(s, 'base64')` skips what is no
-- base64, and so has a result for every text.
pub record Crypto : Type 0 where
  pub cipher : (key iv : Bytes) → String → Option (Bytes × Bytes)
  pub decipher : (key iv tag : Bytes) → Bytes → Option String
  pub to_base64 : Bytes → String
  pub from_base64 : String → Bytes
  pub from_hex : List ℕ → Bytes
  pub cipher-none :
      (key iv : Bytes) (s : String) → eqb (length key) 32 ≡ false → cipher key iv s ≡ none
  pub cipher-some :
      (key iv : Bytes) (s : String)
      → eqb (length key) 32 ≡ true
      → (x : Bytes × Bytes) × (cipher key iv s ≡ some x)
  pub length-tag :
      (key iv : Bytes) (s : String) (x : Bytes × Bytes) → cipher key iv s ≡ some x → length x.1 ≡ 16
  pub decipher-cipher :
      (key iv : Bytes) (s : String) (x : Bytes × Bytes)
      → cipher key iv s ≡ some x
      → decipher key iv x.1 x.0 ≡ some s
  pub from-to_base64 : (b : Bytes) → from_base64 (to_base64 b) ≡ b
  pub from_base64-empty : from_base64 "" ≡ []

abbrev pub iv_length : ℕ
iv_length = 12

abbrev pub auth_tag_length : ℕ
auth_tag_length = 16

abbrev pub key_length : ℕ
key_length = 32

pub data Error : Type 0 where
  key_not_set invalid_key invalid_payload not_authentic : Error

pub data Result : Type 0 where
  ok : String → Result
  err : Error → Result

module _ (C : Crypto) where
  -- The constructor: the key, if the configuration has one of the right length.
  abbrev pub configured_key : Option (List ℕ) → Option Bytes
  configured_key none = none
  configured_key (some hex) =
      if eqb (length hex) (key_length * 2) then some (C.from_hex hex) else none

  -- `iv` is what `randomBytes` returns.
  abbrev pub payload : Bytes → Bytes × Bytes → Bytes
  payload iv x = iv ++ (x.1 ++ x.0)

  unfoldable pub encrypt : Option Bytes → Bytes → String → Result
  encrypt none iv s = err key_not_set
  encrypt (some key) iv s = elim (C.cipher key iv s) [
    | none ↦ err invalid_key
    | some x ↦ ok (C.to_base64 (payload iv x))
  ]

  abbrev pub or_not_authentic : Option String → Result
  or_not_authentic none = err not_authentic
  or_not_authentic (some s) = ok s

  abbrev pub decrypt_bytes : Bytes → Bytes → Result
  decrypt_bytes key b =
      if ltb (length b) (iv_length + auth_tag_length)
      then err invalid_payload
      else or_not_authentic (
          C.decipher key (take iv_length b) (take auth_tag_length (drop iv_length b))
            (drop (iv_length + auth_tag_length) b))

  unfoldable pub decrypt : Option Bytes → String → Result
  decrypt none s = err key_not_set
  decrypt (some key) s = decrypt_bytes key (C.from_base64 s)

  decrypt-payload :
      (key iv : Bytes) (s : String) (x : Bytes × Bytes)
      → length iv ≡ iv_length
      → C.cipher key iv s ≡ some x
      → decrypt_bytes key (payload iv x) ≡ ok s
  decrypt-payload key iv s x e made =
      let (encrypted, tag) = x in
      let tag_length = C.length-tag key iv s x made in
      let rest = tag ++ encrypted in
      let long : ltb (length (payload iv x)) (iv_length + auth_tag_length) ≡ false =
        ground (arith, length-append iv rest, length-append tag encrypted, e, tag_length) in
      let head : take iv_length (iv ++ rest) ≡ iv =
        subst (λ n. take n (iv ++ rest) ≡ iv) e (take-append iv rest) in
      let after : drop iv_length (iv ++ rest) ≡ rest =
        subst (λ n. drop n (iv ++ rest) ≡ rest) e (drop-append iv rest) in
      let middle : take auth_tag_length rest ≡ tag =
        subst (λ n. take n rest ≡ tag) tag_length (take-append tag encrypted) in
      let both : length (iv ++ tag) ≡ iv_length + auth_tag_length =
        omega (arith, length-append iv tag, e, tag_length) in
      let last : drop (iv_length + auth_tag_length) (iv ++ rest) ≡ encrypted =
        subst (λ n. drop n (iv ++ rest) ≡ encrypted) both
          (ap (drop (length (iv ++ tag))) (sym (append_assoc iv tag encrypted))
            ∙ drop-append (iv ++ tag) encrypted) in
      rw (long, head, after, middle, last, C.decipher-cipher key iv s x made) refl

  -- With 64 digits in the configuration that give a key of 32 bytes, every text is encrypted, and
  -- decrypting gives it back, if the random bytes are 12. With 64 characters that give a key of
  -- another length every encryption throws, and without 64 characters both operations throw.
  pub decrypt-encrypt :
      (hex : List ℕ) (iv : Bytes) (s : String)
      → length iv ≡ iv_length
      → (length hex ≡ 64
          → length (C.from_hex hex) ≡ key_length
          → (c : String) × (encrypt (configured_key (some hex)) iv s ≡ ok c)
            × (decrypt (configured_key (some hex)) c ≡ ok s))
        × (length hex ≡ 64
            → length (C.from_hex hex) ≢ key_length
            → encrypt (configured_key (some hex)) iv s ≡ err invalid_key)
        × (length hex ≢ 64
            → (encrypt (configured_key (some hex)) iv s ≡ err key_not_set)
              × ((c : String) → decrypt (configured_key (some hex)) c ≡ err key_not_set))
  unfolding encrypt decrypt
  decrypt-encrypt hex iv s e = (
    λ given full.
        let key = C.from_hex hex in
        let set : configured_key (some hex) ≡ some key = ground (arith, given) in
        let (x, made) = C.cipher-some key iv s (ground (arith, full)) in
        (
          C.to_base64 (payload iv x),
          rw (set, encrypt, made) refl,
          rw (set, decrypt, C.from-to_base64 (payload iv x)) (decrypt-payload key iv s x e made),
        ),
    λ given short.
        let key = C.from_hex hex in
        let set : configured_key (some hex) ≡ some key = ground (arith, given) in
        rw (set, encrypt, C.cipher-none key iv s (ground (arith, short))) refl,
    λ other.
        let missing : configured_key (some hex) ≡ none = ground (arith, other) in
        (rw (missing, encrypt) refl, λ c. rw (missing, decrypt) refl),
  )

  -- What was encrypted is not the empty text, and is decrypted again.
  pub encrypt-eq-ok :
      (key : Option Bytes) (iv : Bytes) (s c : String)
      → length iv ≡ iv_length
      → encrypt key iv s ≡ ok c
      → (c ≢ "") × (decrypt key c ≡ ok s)
  unfolding encrypt decrypt
  encrypt-eq-ok none iv s c e h = absurd (cc h)
  encrypt-eq-ok (some key) iv s c e h = elim (Option-cases (C.cipher key iv s)) [
    | inl n ↦ absurd (ground (arith, h, n))
    | inr (x, made) ↦
        let spelled : C.to_base64 (payload iv x) ≡ c = ground (arith, h, made) in
        let read = C.from-to_base64 (payload iv x) in
        (
          λ empty.
              let nothing : payload iv x ≡ [] =
                sym read ∙ ap C.from_base64 (spelled ∙ empty) ∙ C.from_base64-empty in
              absurd (
                omega
                  (arith, ap (λ (b : Bytes). length b) nothing, length-append iv (x.1 ++ x.0), e)),
          rw (← spelled) (rw read (decrypt-payload key iv s x e made)),
        )
  ]
