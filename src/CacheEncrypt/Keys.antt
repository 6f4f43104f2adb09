-- ===== src/CacheEncrypt/Keys.antt =====
-- The configuration that the environment gives.
use setup_soldr.Base.{◌≡◌, refl, sym, ◌∙◌, ap}
use setup_soldr.Base.{Bool, true, false, ◌&&◌, Option, none, some}
use setup_soldr.Base.{if◌then◌else◌, ◌==◌, ==_iff}
use setup_soldr.Base.{nat_eq, list_eq, option_eq, length}
use setup_soldr.Base.{all, Result, ok, err}
use setup_soldr.Base.{◌>>=◌}
use setup_soldr.Base.{ok_injective}
use setup_soldr.Base.Text.{Text, trim}
use setup_soldr.Base.Text.{is_empty}
use setup_soldr.Base.Env.{Env}
use setup_soldr.CacheEncrypt.{
  Bytes, EncryptionConfig, is_run, is_any_hex, is_base64url, is_padded, accept_key, key_bytes,
  parse_encryption_key, build_aad, get_encryption_config, config_with, raw_key, raw_on_failure,
}

some_injective {ℓ} : {A : Type ℓ} (a b : A) → some a ≡ some b → a ≡ b
some_injective a b h = cc

split_and : (a b : Bool) → (a && b) ≡ true → (a ≡ true) × (b ≡ true)
split_and true b h = (refl, h)
split_and false b h = absurd cc

module _ (from_hex from_base64 from_base64url : Text → Bytes)
    (hex_key : (s : Text)
      → all is_any_hex s ≡ true
      → length s ≡ 64
      → length (from_hex s) ≡ key_bytes) where
  accepted_if :
      (b : Bool) (key wanted : Bytes) (later : Result Bytes)
      → (b ≡ true → length key ≡ key_bytes)
      → (later ≡ ok wanted → length wanted ≡ key_bytes)
      → (if b then ok key else later) ≡ ok wanted
      → length wanted ≡ key_bytes
  accepted_if true key wanted later good rest h =
      sym (ap length (ok_injective key wanted h)) ∙ good refl
  accepted_if false key wanted later good rest h = rest h

  accepted :
      (fits : Bool) (key wanted : Bytes) (later : Result Bytes)
      → (later ≡ ok wanted → length wanted ≡ key_bytes)
      → accept_key from_hex from_base64 from_base64url fits key later ≡ ok wanted
      → length wanted ≡ key_bytes
  accepted fits key wanted later rest h =
      accepted_if (fits && length key == key_bytes) key wanted later
        (λ b. (==_iff (length key) key_bytes).0 (split_and fits _ b).1) rest h

  past_empty :
      (b : Bool) (m : Text) (key : Bytes) (later : Result Bytes)
      → (if b then err m else later) ≡ ok key
      → later ≡ ok key
  past_empty true m key later h = absurd cc
  past_empty false m key later h = h

  parse_encryption_key-length :
      (raw : Text) (key : Bytes)
      → parse_encryption_key from_hex from_base64 from_base64url raw ≡ ok key
      → length key ≡ key_bytes
  unfolding parse_encryption_key
  parse_encryption_key-length raw key h =
      let s = trim raw in
      accepted_if (is_run is_any_hex 64 s) (from_hex s) key _
        (λ b.
          hex_key s (split_and (all is_any_hex s) _ b).0
            ((==_iff (length s) 64).0 (split_and (all is_any_hex s) _ b).1))
        (accepted (is_padded s) (from_base64 s) key _
          (accepted (is_run is_base64url 43 s) (from_base64url s) key _ (λ e. absurd cc)))
        (past_empty (is_empty s) _ key _ h)

  -- The rest of the configuration for a parsed key.
  bound :
      (r : Result Bytes) (make : Bytes → EncryptionConfig) (cfg : EncryptionConfig)
      → (r >>= λ key. ok (some (make key))) ≡ ok (some cfg)
      → (key : Bytes) × ((r ≡ ok key) × (make key ≡ cfg))
  bound (ok key) make cfg h = (key, (refl, some_injective _ _ (ok_injective _ _ h)))
  bound (err m) make cfg h = absurd cc

  past_none :
      (b : Bool) (cfg : EncryptionConfig) (later : Result (Option EncryptionConfig))
      → (if b then ok none else later) ≡ ok (some cfg)
      → later ≡ ok (some cfg)
  past_none true cfg later h = absurd cc
  past_none false cfg later h = h

  -- Where 64 hex digits decode to 32 bytes, every configuration that the environment gives has a key
  -- of 32 bytes, whichever of the three spellings it was read from, and is bound to the cache key and
  -- the platform.
  pub get_encryption_config_sound :
      (platform : Text) (env : Env) (cache_key : Text) (cfg : EncryptionConfig)
      → get_encryption_config from_hex from_base64 from_base64url platform env cache_key
        ≡ ok (some cfg)
      → (length cfg.key ≡ key_bytes) × (cfg.aad ≡ build_aad cache_key platform)
  unfolding get_encryption_config
  get_encryption_config_sound platform env cache_key cfg h =
      let (key, (parsed, made)) =
        bound (parse_encryption_key from_hex from_base64 from_base64url (raw_key env))
          (config_with platform (raw_on_failure env) cache_key) cfg
          (past_none (is_empty (raw_key env)) cfg _ h) in
      (
        ap (λ c. length c.key) (sym made) ∙ parse_encryption_key-length (raw_key env) key parsed,
        ap (λ c. c.aad) (sym made),
      )
