-- ===== src/Encryption/Toy.antt =====
-- A toy cipher, which shows that the parameter can be instantiated: a text is written out as its
-- code points, the tag is sixteen zeros, and bytes are spelled in a unary code.
use contractor_reviewer.Common.{
  ℕ, zero, suc, ◌≡◌, refl, ap, inl, inr, arith, ◌∙◌, ◌⊎◌, String, [], ◌∷◌, some, none, eqb, length,
  take, Bool-cases, if◌then◌else◌,
}
use contractor_reviewer.Encryption.{Bytes, Crypto}
use Prim.Native.Char.{Char, char, code, nul, IsScalar}
use Prim.Native.Nat.{compare, Ordering}
use text.Mathlib.TextEquality.{Char-path}

abbrev Is : Ordering → Ordering → Type 0
Is o p = o ≡ p

Ordering-cases : (o : Ordering) → Is o Ordering.lt ⊎ Is o Ordering.eq ⊎ Is o Ordering.gt
Ordering-cases Ordering.lt = inl refl
Ordering-cases Ordering.eq = inr (inl refl)
Ordering-cases Ordering.gt = inr (inr refl)

pub dec_scalar : (n : ℕ) → Dec (IsScalar n)
dec_scalar n = elim (Ordering-cases (compare n 55296)) [
  | inl a ↦ yes (rw a tt)
  | inr (inl a) ↦ go (λ l. cc (a, l))
  | inr (inr a) ↦ go (λ l. cc (a, l))
]
  where
    go : (Is (compare n 55296) Ordering.lt → ⊥) → Dec (IsScalar n)
    go a = elim (Ordering-cases (compare 57343 n)) [
      | inl b ↦ elim (Ordering-cases (compare n 1114112)) [
        | inl c ↦ yes (ground (arith, b, c))
        | inr c ↦ no (λ p. ground (arith, p))
      ]
      | inr b ↦ no (λ p. ground (arith, p))
    ]

abbrev pub chr_if : (n : ℕ) → Dec (IsScalar n) → Char
chr_if n (yes p) = char n p
chr_if n (no q) = nul

abbrev pub chr : ℕ → Char
chr n = chr_if n (dec_scalar n)

chr-code : (c : Char) → chr (code c) ≡ c
chr-code (char n p) = Char-path _ _ (go (dec_scalar n))
  where
    go : (d : Dec (IsScalar n)) → code (chr_if n d) ≡ n
    go (yes q) = refl
    go (no q) = absurd (q p)

abbrev pub written : String → Bytes
written String.[] = []
written (String.◌∷◌ c s) = code c ∷ written s

abbrev pub read : Bytes → String
read [] = String.[]
read (n ∷ b) = String.◌∷◌ (chr n) (read b)

pub read-written : (s : String) → read (written s) ≡ s
read-written String.[] = refl
read-written (String.◌∷◌ c s) =
    ap (λ x. String.◌∷◌ x (read (written s))) (chr-code c) ∙ ap (String.◌∷◌ c) (read-written s)

abbrev pub one : Char
one = char 49 tt

abbrev pub end : Char
end = char 46 tt

abbrev pub spell : ℕ → String → String
spell zero s = String.◌∷◌ end s
spell (suc n) s = String.◌∷◌ one (spell n s)

abbrev pub spell_all : Bytes → String
spell_all [] = String.[]
spell_all (n ∷ b) = spell n (spell_all b)

abbrev pub is_end : Char → Ordering
is_end c = compare (code c) 46

abbrev pub count_on : Ordering → ℕ → Bytes → Bytes
count_on Ordering.eq n b = zero ∷ b
count_on Ordering.lt n [] = zero ∷ []
count_on Ordering.lt n (m ∷ b) = suc m ∷ b
count_on Ordering.gt n [] = zero ∷ []
count_on Ordering.gt n (m ∷ b) = suc m ∷ b

abbrev pub unspell : String → Bytes
unspell String.[] = []
unspell (String.◌∷◌ c s) = count_on (is_end c) zero (unspell s)

unspell-spell : (n : ℕ) (s : String) → unspell (spell n s) ≡ n ∷ unspell s
unspell-spell zero s = refl
unspell-spell (suc n) s = ap (count_on Ordering.gt zero) (unspell-spell n s)

pub unspell-spell_all : (b : Bytes) → unspell (spell_all b) ≡ b
unspell-spell_all [] = refl
unspell-spell_all (n ∷ b) = unspell-spell n (spell_all b) ∙ ap (n ∷◌) (unspell-spell_all b)

abbrev pub zeros : ℕ → Bytes
zeros zero = []
zeros (suc n) = zero ∷ zeros n

pub toy-cipher :
    (key : Bytes) (s : String) (x : Bytes × Bytes)
    → (if eqb (length key) 32 then some (written s, zeros 16) else none) ≡ some x
    → x ≡ (written s, zeros 16)
toy-cipher key s x made = elim (Bool-cases (eqb (length key) 32)) [
  | inl b ↦ ground (arith, b, made)
  | inr b ↦ absurd (ground (arith, b, made))
]

abbrev pub toy : Crypto
toy = record {
  cipher = λ key iv s. if eqb (length key) 32 then some (written s, zeros 16) else none;
  decipher = λ key iv tag b. some (read b);
  to_base64 = spell_all;
  from_base64 = unspell;
  from_hex = take 32;
  cipher-none = λ key iv s short. rw short refl;
  cipher-some = λ key iv s full. ((written s, zeros 16), rw full refl);
  length-tag = λ key iv s x made.
      let same : x ≡ (written s, zeros 16) = toy-cipher key s x made in rw same refl;
  decipher-cipher = λ key iv s x made.
      let same : x ≡ (written s, zeros 16) = toy-cipher key s x made in
      rw same (ap (λ x. some x) (read-written s));
  from-to_base64 = unspell-spell_all;
  from_base64-empty = refl;
}
