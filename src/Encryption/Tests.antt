-- ===== src/Encryption/Tests.antt =====
-- Encryption and decryption with the toy cipher.
use contractor_reviewer.Common.{◌≡◌, ◌≢◌, refl, String, some, length}
use contractor_reviewer.Encryption.{
  ok, err, key_not_set, invalid_key, configured_key, encrypt, decrypt, decrypt-encrypt, key_length,
}
use contractor_reviewer.Encryption.Toy.{toy, zeros}

decrypt-encrypt_example :
    (length (zeros 64) ≡ 64
      → length (toy.from_hex (zeros 64)) ≡ key_length
      → (c : String) × (encrypt toy (configured_key toy (some (zeros 64))) (zeros 12) "sk-1" ≡ ok c)
        × (decrypt toy (configured_key toy (some (zeros 64))) c ≡ ok "sk-1"))
    × (length (zeros 64) ≡ 64
        → length (toy.from_hex (zeros 64)) ≢ key_length
        → encrypt toy (configured_key toy (some (zeros 64))) (zeros 12) "sk-1" ≡ err invalid_key)
    × (length (zeros 64) ≢ 64
        → (encrypt toy (configured_key toy (some (zeros 64))) (zeros 12) "sk-1" ≡ err key_not_set)
          × ((c : String) → decrypt toy (configured_key toy (some (zeros 64))) c ≡ err key_not_set))
decrypt-encrypt_example = decrypt-encrypt toy (zeros 64) (zeros 12) "sk-1" refl
