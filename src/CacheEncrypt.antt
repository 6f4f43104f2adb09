-- ===== src/CacheEncrypt.antt =====
-- src/lib/cache-encrypt.ts: the frame of an encrypted archive, the key and the additional data. A
-- file is the list of its bytes. AES-256-GCM and the decoders of Buffer.from are parameters; an
-- additional data is a text, before its encoding in UTF-8.
pub mod Laws
pub mod Keys
mod Tests
use setup_soldr.Base.{ℕ, suc, ◌+◌, ◌-◌, ◌/◌}
use setup_soldr.Base.{Bool, ◌&&◌, ◌||◌, Option, none, some}
use setup_soldr.Base.{List, [], ◌∷◌, ◌++◌, if◌then◌else◌, leb, ◌==◌}
use setup_soldr.Base.{nat_eq, list_eq, option_eq, length, take, drop}
use setup_soldr.Base.{all, get_or, Result, ok, err, ensure}
use setup_soldr.Base.{◌>>=◌, ◌>>◌}
use setup_soldr.Base.Text.{Text, text, trim, to_lower}
use setup_soldr.Base.Text.{is_empty}
use setup_soldr.Base.Env.{Env, env_get}
use setup_soldr.Base.Decimal.{decimal}

abbrev pub Bytes : Type 0
Bytes = List ℕ

unfoldable pub encrypt_magic : Bytes
unfolding text
encrypt_magic = text "SOLDRENC"

abbrev pub encrypt_version : ℕ
encrypt_version = 1

abbrev pub iv_bytes : ℕ
iv_bytes = 12

abbrev pub tag_bytes : ℕ
tag_bytes = 16

-- The length of the magic bytes, the version and the nonce.
abbrev pub header_bytes : ℕ
header_bytes = 8 + 1 + iv_bytes

abbrev pub key_bytes : ℕ
key_bytes = 32

pub data OnFailureMode : Type 0 where
  error skip : OnFailureMode

pub record EncryptionConfig : Type 0 where
  pub key : Bytes
  pub aad : Text
  pub on_failure : OnFailureMode

-- `[0-9a-fA-F]`
unfoldable pub is_any_hex : ℕ → Bool
is_any_hex c = leb b'0' c && leb c b'9' || leb b'a' c && leb c b'f' || leb b'A' c && leb c b'F'

unfoldable pub is_alphanumeric : ℕ → Bool
is_alphanumeric c = leb b'0' c && leb c b'9' || leb b'a' c && leb c b'z' || leb b'A' c && leb c b'Z'

-- `[A-Za-z0-9+/]` and `[A-Za-z0-9_-]`
unfoldable pub is_base64 : ℕ → Bool
unfolding is_alphanumeric
is_base64 c = is_alphanumeric c || c == b'+' || c == b'/'

unfoldable pub is_base64url : ℕ → Bool
unfolding is_alphanumeric
is_base64url c = is_alphanumeric c || c == b'_' || c == b'-'

-- The whole text is a run of so many characters of the class.
abbrev pub is_run : (ℕ → Bool) → ℕ → Text → Bool
is_run p n s = all p s && length s == n

-- `/^[A-Za-z0-9+\/]{43}=$/` or `/^[A-Za-z0-9+\/]{44}$/`
unfoldable pub is_padded : Text → Bool
unfolding is_base64 text
is_padded s = is_run is_base64 43 (take 43 s) && drop 43 s == text "=" || is_run is_base64 44 s

module _ (from_hex from_base64 from_base64url : Text → Bytes) where
  -- A decoded key of the right length, or what comes next.
  abbrev pub accept_key : Bool → Bytes → Result Bytes → Result Bytes
  accept_key fits key later = if fits && length key == key_bytes then ok key else later

  unfoldable pub parse_encryption_key : Text → Result Bytes
  unfolding is_any_hex is_padded is_base64url trim text
  parse_encryption_key raw =
      let trimmed = trim raw in
      if is_empty trimmed
      then err (text "cache-encrypt-key: empty value")
      else if is_run is_any_hex 64 trimmed
      then ok (from_hex trimmed)
      else accept_key (is_padded trimmed) (from_base64 trimmed) (
          accept_key (is_run is_base64url 43 trimmed) (from_base64url trimmed) (
            err (
              text
                "cache-encrypt-key: expected a 256-bit key as 64-char hex, 44-char base64, or 43-char base64url")))

unfoldable pub build_aad : Text → Text → Text
unfolding text
build_aad cache_key platform = text "v1|" ++ (platform ++ (text "|" ++ cache_key))

-- `{ key, aad, onFailure }`
abbrev pub config_with : Text → Text → Text → Bytes → EncryptionConfig
config_with platform on_failure cache_key key = record {
  key = key;
  aad = build_aad cache_key platform;
  on_failure = if on_failure == text "skip" then skip else error;
}

-- `(opts.env["SETUP_SOLDR_CACHE_ENCRYPT_KEY"] ?? "").trim()`
abbrev pub raw_key : Env → Text
raw_key env = trim (get_or (env_get env (text "SETUP_SOLDR_CACHE_ENCRYPT_KEY")) [])

abbrev pub raw_on_failure : Env → Text
raw_on_failure env =
    to_lower
      (trim (get_or (env_get env (text "SETUP_SOLDR_CACHE_ENCRYPT_ON_FAILURE")) (text "error")))

-- `getEncryptionConfig` on a platform; none where no key is given.
module _ (from_hex from_base64 from_base64url : Text → Bytes) where
  unfoldable pub get_encryption_config : Text → Env → Text → Result (Option EncryptionConfig)
  unfolding env_get trim to_lower build_aad parse_encryption_key text
  get_encryption_config platform env cache_key =
      if is_empty (raw_key env)
      then ok none
      else (parse_encryption_key from_hex from_base64 from_base64url (raw_key env) >>= λ key.
          ok (some (config_with platform (raw_on_failure env) cache_key key)))

-- `headerBuf[ENCRYPT_MAGIC.length]`, of a file that is long enough.
unfoldable pub version_of : Bytes → ℕ
version_of file = elim (drop 8 file) [ [] ↦ 0 | v ∷ rest ↦ v ]

-- The message of an error that decryption throws.
abbrev pub decrypt_error : Result Bytes → Result Bytes
decrypt_error (ok plain) = ok plain
decrypt_error (err e) = err (text "cache-encrypt: " ++ e)

-- `seal key nonce aad plaintext` is the ciphertext and the tag; `unseal` takes both back.
module _ (seal : Bytes → Bytes → Text → Bytes → Bytes × Bytes)
    (unseal : Bytes → Bytes → Text → Bytes → Bytes → Result Bytes) where
  -- The file that `encryptFile` leaves, and the bytes of its ciphertext.
  unfoldable pub encrypt_file : EncryptionConfig → Bytes → Bytes → Result (Bytes × ℕ)
  unfolding encrypt_magic text
  encrypt_file cfg iv plain =
      let (body, tag) = seal cfg.key iv cfg.aad plain in
      ensure (length tag == tag_bytes)
        (text "cache-encrypt: unexpected GCM tag length " ++ decimal (length tag))
      >> ok (encrypt_magic ++ (encrypt_version ∷ (iv ++ (body ++ tag))), length body)

  -- `createReadStream(path, { start, end })`, with an inclusive end, throws if the start is behind
  -- the end.
  abbrev pub read_range : ℕ → ℕ → Bytes → Result Bytes
  read_range start last file =
      ensure (leb start last) (text "ERR_OUT_OF_RANGE")
      >> ok (take (suc last - start) (drop start file))

  -- The ciphertext is decrypted with the nonce and the tag of the file.
  unfoldable pub unseal_body : EncryptionConfig → Bytes → Bytes → Result (Bytes × ℕ)
  unfolding text
  unseal_body cfg file body =
      decrypt_error (
        unseal cfg.key (take iv_bytes (drop 9 file)) cfg.aad body
          (drop (length file - tag_bytes) file))
      >>= λ plain. ok (plain, length plain)

  unfoldable pub decrypt_file : EncryptionConfig → Bytes → Result (Bytes × ℕ)
  unfolding encrypt_magic version_of unseal_body text
  decrypt_file cfg file =
      ensure (leb (header_bytes + tag_bytes) (length file))
        (text "cache-encrypt: encrypted archive is shorter than header+tag")
      >> (ensure (take 8 file == encrypt_magic) (text "cache-encrypt: magic byte mismatch")
          >> (ensure (version_of file == encrypt_version)
                (text "cache-encrypt: unsupported frame version " ++ decimal (version_of file))
              >> (read_range header_bytes (length file - tag_bytes - 1) file
                  >>= unseal_body cfg file)))

-- `isEncryptedArchive`, of the bytes of a file that can be read.
unfoldable pub is_encrypted_archive : Bytes → Bool
unfolding encrypt_magic
is_encrypted_archive file = take 8 file == encrypt_magic
