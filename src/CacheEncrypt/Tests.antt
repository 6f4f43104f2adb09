-- ===== src/CacheEncrypt/Tests.antt =====
-- Encrypted archives with a toy cipher, which leaves its input as it is.
use setup_soldr.Base.{◌≡◌, refl}
use setup_soldr.Base.{some}
use setup_soldr.Base.{[], ◌∷◌, ◌++◌}
use setup_soldr.Base.{nat_eq, list_eq, option_eq, length}
use setup_soldr.Base.{Result, ok}
use setup_soldr.Base.{◌>>=◌}
use setup_soldr.Base.Text.{Text, text, trim, to_lower}
use setup_soldr.Base.Env.{Env, env_get}
use setup_soldr.CacheEncrypt.{
  Bytes, EncryptionConfig, error, skip, build_aad, encrypt_file, decrypt_file, key_bytes,
  parse_encryption_key, get_encryption_config, is_any_hex,
}
use setup_soldr.CacheEncrypt.Laws.{decrypt_file-encrypt_file}
use setup_soldr.CacheEncrypt.Keys.{get_encryption_config_sound}

abbrev sixteen : Bytes
sixteen = 7 ∷ 7 ∷ 7 ∷ 7 ∷ 7 ∷ 7 ∷ 7 ∷ 7 ∷ 7 ∷ 7 ∷ 7 ∷ 7 ∷ 7 ∷ 7 ∷ 7 ∷ 7 ∷ []

abbrev nonce : Bytes
nonce = 1 ∷ 2 ∷ 3 ∷ 4 ∷ 5 ∷ 6 ∷ 7 ∷ 8 ∷ 9 ∷ 10 ∷ 11 ∷ 12 ∷ []

abbrev toy_seal : Bytes → Bytes → Text → Bytes → Bytes × Bytes
toy_seal key iv aad plain = (plain, sixteen)

abbrev toy_unseal : Bytes → Bytes → Text → Bytes → Bytes → Result Bytes
toy_unseal key iv aad body tag = ok body

abbrev config : EncryptionConfig
config = record { key = sixteen ++ sixteen; aad = []; on_failure = error }

decrypt_file-encrypt_file_example :
    (encrypt_file toy_seal toy_unseal config nonce (5 ∷ 6 ∷ []) >>= λ sealed.
    decrypt_file toy_seal toy_unseal config sealed.0)
    ≡ ok (5 ∷ 6 ∷ [], 2)
decrypt_file-encrypt_file_example =
    decrypt_file-encrypt_file toy_seal toy_unseal config nonce refl (λ plain. refl) (λ plain. refl)
      (λ plain. refl) (5 ∷ 6 ∷ [])

abbrev hex_key : Text
hex_key = text "000102030405060708090a0b0c0d0e0f101112131415161718191a1b1c1d1e1F"

abbrev env : Env
env =
    (text "SETUP_SOLDR_CACHE_ENCRYPT_KEY", hex_key)
    ∷ (text "SETUP_SOLDR_CACHE_ENCRYPT_ON_FAILURE", text "Skip")
    ∷ []

abbrev toy_hex : Text → Bytes
toy_hex s = sixteen ++ sixteen

abbrev keyed : EncryptionConfig
keyed = record { key = sixteen ++ sixteen; aad = text "v1|linux|target-1"; on_failure = skip }

reads :
    get_encryption_config toy_hex (λ s. []) (λ s. []) (text "linux") env (text "target-1")
    ≡ ok (some keyed)
unfolding get_encryption_config trim to_lower parse_encryption_key is_any_hex build_aad env_get text
    nat_eq list_eq
reads = refl

get_encryption_config_sound_example :
    (length keyed.key ≡ key_bytes) × (keyed.aad ≡ build_aad (text "target-1") (text "linux"))
get_encryption_config_sound_example =
    get_encryption_config_sound toy_hex (λ s. []) (λ s. []) (λ s digits long. refl) (text "linux")
      env (text "target-1") keyed reads
