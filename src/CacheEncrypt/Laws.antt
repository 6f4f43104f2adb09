-- ===== src/CacheEncrypt/Laws.antt =====
-- What a frame gives back, and what its additional data binds.
use setup_soldr.Base.{ℕ, zero, suc, ◌+◌, ◌-◌, ◌≤◌, ◌<◌, ◌≡◌, refl, sym, ◌∙◌, ap}
use setup_soldr.Base.{Bool, true, false, not}
use setup_soldr.Base.{[], ◌∷◌, ◌++◌, arith, leb, ◌==◌, ==_iff}
use setup_soldr.Base.{nat_eq, list_eq, option_eq, length, take, drop}
use setup_soldr.Base.{all, Result, ok, err, ensure}
use setup_soldr.Base.{◌>>=◌, ◌>>◌, length-append, le→leb}
use setup_soldr.Base.Text.{Text, text}
use mathlib.Core.List.{append_assoc}
use setup_soldr.Base.Span.{span, span-append}
use setup_soldr.CacheEncrypt.{
  Bytes, encrypt_magic, encrypt_version, iv_bytes, tag_bytes, header_bytes, EncryptionConfig,
  build_aad, encrypt_file, decrypt_file, read_range, version_of, unseal_body, decrypt_error,
}

take-append : (n : ℕ) (xs ys : Bytes) → n ≡ length xs → take n (xs ++ ys) ≡ xs
take-append zero [] ys h = refl
take-append zero (x ∷ xs) ys h = absurd (omega arith)
take-append (suc n) [] ys h = absurd (omega arith)
take-append (suc n) (x ∷ xs) ys h = ap (λ z. x ∷ z) (take-append n xs ys (omega arith))

drop-append : (n : ℕ) (xs ys : Bytes) → n ≡ length xs → drop n (xs ++ ys) ≡ ys
drop-append zero [] ys h = refl
drop-append zero (x ∷ xs) ys h = absurd (omega arith)
drop-append (suc n) [] ys h = absurd (omega arith)
drop-append (suc n) (x ∷ xs) ys h = drop-append n xs ys (omega arith)

ensure_past {ℓ} :
    {A : Type ℓ} (b : Bool) (m : Text) (k : Result A) → b ≡ true → (ensure b m >> k) ≡ k
ensure_past true m k h = refl
ensure_past false m k h = cc

gt→leb : (a b : ℕ) → b < a → leb a b ≡ false
gt→leb a b h = ground arith

-- The parts of a frame.
abbrev frame : Bytes → Bytes → Bytes → Bytes
frame iv body tag = encrypt_magic ++ (encrypt_version ∷ (iv ++ (body ++ tag)))

abbrev front : Bytes → Bytes → Bytes
front iv body = encrypt_magic ++ (encrypt_version ∷ (iv ++ body))

module _ (iv body tag : Bytes) (iv_long : length iv ≡ iv_bytes)
    (tag_long : length tag ≡ tag_bytes) where
  length-frame : length (frame iv body tag) ≡ 37 + length body
  unfolding encrypt_magic text
  length-frame =
      omega (arith, length-append iv (body ++ tag), length-append body tag, iv_long, tag_long)

  length-front : length (front iv body) ≡ 21 + length body
  unfolding encrypt_magic text
  length-front = omega (arith, length-append iv body, iv_long)

  frame-front : frame iv body tag ≡ front iv body ++ tag
  unfolding encrypt_magic text
  frame-front = simp append_assoc

  tag-frame : drop (length (frame iv body tag) - tag_bytes) (frame iv body tag) ≡ tag
  tag-frame =
      ap (drop (length (frame iv body tag) - tag_bytes)) frame-front
      ∙ drop-append (length (frame iv body tag) - tag_bytes) (front iv body) tag
          (omega (arith, length-frame, length-front))

  iv-frame : take iv_bytes (drop 9 (frame iv body tag)) ≡ iv
  unfolding encrypt_magic text
  iv-frame = take-append iv_bytes iv (body ++ tag) (sym iv_long)

  body-frame : take (length body) (drop header_bytes (frame iv body tag)) ≡ body
  unfolding encrypt_magic text
  body-frame =
      ap (take (length body)) (drop-append iv_bytes iv (body ++ tag) (sym iv_long))
      ∙ take-append (length body) body tag refl

  module _ (seal : Bytes → Bytes → Text → Bytes → Bytes × Bytes)
      (unseal : Bytes → Bytes → Text → Bytes → Bytes → Result Bytes) (cfg : EncryptionConfig) where
    past_checks :
        (file : Bytes)
        → header_bytes + tag_bytes ≤ length file
        → take 8 file ≡ encrypt_magic
        → version_of file ≡ encrypt_version
        → decrypt_file seal unseal cfg file ≡ (
            read_range seal unseal header_bytes (length file - tag_bytes - 1) file
            >>= unseal_body seal unseal cfg file)
    unfolding decrypt_file
    past_checks file long magic version =
        ensure_past _ _ _ (le→leb _ _ long)
        ∙ (ensure_past _ _ _ ((==_iff (take 8 file) encrypt_magic).1 magic)
            ∙ ensure_past _ _ _ ((==_iff (version_of file) encrypt_version).1 version))

    magic-frame : take 8 (frame iv body tag) ≡ encrypt_magic
    unfolding encrypt_magic text
    magic-frame = refl

    version-frame : version_of (frame iv body tag) ≡ encrypt_version
    unfolding encrypt_magic version_of text
    version-frame = refl

    checked : decrypt_file seal unseal cfg (frame iv body tag) ≡ (
        read_range seal unseal header_bytes
          (length (frame iv body tag) - tag_bytes - 1)
          (frame iv body tag)
        >>= unseal_body seal unseal cfg (frame iv body tag))
    checked =
        past_checks (frame iv body tag) (omega (arith, length-frame)) magic-frame version-frame

    read-frame :
        0 < length body
        → read_range seal unseal header_bytes
            (length (frame iv body tag) - tag_bytes - 1)
            (frame iv body tag)
          ≡ ok body
    read-frame some_body =
        ensure_past _ _ _ (le→leb _ _ (omega (arith, length-frame)))
        ∙ ap ok (
            ap (λ n. take n (drop header_bytes (frame iv body tag)))
              (let n : suc (length (frame iv body tag) - tag_bytes - 1) - header_bytes
                    ≡ length body =
                  omega (arith, length-frame) in
                n)
            ∙ body-frame)

    unseal-frame :
        unseal_body seal unseal cfg (frame iv body tag) body
        ≡ (decrypt_error (unseal cfg.key iv cfg.aad body tag) >>= λ plain. ok (plain, length plain))
    unfolding unseal_body
    unseal-frame =
        ap
          (λ z.
            decrypt_error (
              unseal cfg.key z cfg.aad body
                (drop (length (frame iv body tag) - tag_bytes) (frame iv body tag)))
            >>= λ plain. ok (plain, length plain))
          iv-frame
        ∙ ap
            (λ z. decrypt_error (unseal cfg.key iv cfg.aad body z) >>= λ plain.
              ok (plain, length plain))
            tag-frame

    decrypt-frame :
        0 < length body
        → decrypt_file seal unseal cfg (frame iv body tag) ≡ (
            decrypt_error (unseal cfg.key iv cfg.aad body tag) >>= λ plain.
            ok (plain, length plain))
    decrypt-frame some_body =
        checked
        ∙ (ap (λ r. r >>= unseal_body seal unseal cfg (frame iv body tag)) (read-frame some_body)
            ∙ unseal-frame)

    decrypt-frame_empty :
        length body ≡ 0
        → decrypt_file seal unseal cfg (frame iv body tag) ≡ err (text "ERR_OUT_OF_RANGE")
    decrypt-frame_empty no_body =
        checked
        ∙ ap
            (λ b.
              (ensure b (text "ERR_OUT_OF_RANGE")
                >> ok (
                    take (suc (length (frame iv body tag) - tag_bytes - 1) - header_bytes)
                      (drop header_bytes (frame iv body tag))))
              >>= unseal_body seal unseal cfg (frame iv body tag))
            (gt→leb _ _ (omega (arith, length-frame)))

-- What a reader gets of an archive of these bytes.
abbrev pub reopened : Bytes → Result (Bytes × ℕ)
reopened [] = err (text "ERR_OUT_OF_RANGE")
reopened (b ∷ bs) = ok (b ∷ bs, suc (length bs))

module _ (seal : Bytes → Bytes → Text → Bytes → Bytes × Bytes)
    (unseal : Bytes → Bytes → Text → Bytes → Bytes → Result Bytes) (cfg : EncryptionConfig)
    (iv : Bytes) (iv_long : length iv ≡ iv_bytes) where
  decrypt-sealed :
      (plain body tag : Bytes)
      → length tag ≡ tag_bytes
      → length body ≡ length plain
      → unseal cfg.key iv cfg.aad body tag ≡ ok plain
      → decrypt_file seal unseal cfg (frame iv body tag) ≡ reopened plain
  decrypt-sealed [] body tag tag_long same_length opens =
      decrypt-frame_empty iv body tag iv_long tag_long seal unseal cfg same_length
  decrypt-sealed (b ∷ bs) body tag tag_long same_length opens =
      decrypt-frame iv body tag iv_long tag_long seal unseal cfg (omega (arith, same_length))
      ∙ ap (λ r. decrypt_error r >>= λ plain. ok (plain, length plain)) opens

  -- Where the cipher gives a tag of 16 bytes and a ciphertext as long as its input, and opens what
  -- it sealed, encrypting a file with a nonce of 12 bytes and decrypting the result with the same
  -- configuration gives the file back with its length, unless the file is empty: then the decryption
  -- fails, since the range of the ciphertext ends before it starts.
  pub decrypt_file-encrypt_file :
      (tags : (plain : Bytes) → length (seal cfg.key iv cfg.aad plain).1 ≡ tag_bytes)
      → (lengths : (plain : Bytes) → length (seal cfg.key iv cfg.aad plain).0 ≡ length plain)
      → (opens : (plain : Bytes)
          → unseal cfg.key iv cfg.aad
              (seal cfg.key iv cfg.aad plain).0
              (seal cfg.key iv cfg.aad plain).1
            ≡ ok plain)
      → (plain : Bytes)
      → (encrypt_file seal unseal cfg iv plain >>= λ sealed. decrypt_file seal unseal cfg sealed.0)
        ≡ reopened plain
  unfolding encrypt_file
  decrypt_file-encrypt_file tags lengths opens plain =
      ap (λ r. r >>= λ sealed. decrypt_file seal unseal cfg sealed.0)
        (ensure_past _ _ _
          ((==_iff (length (seal cfg.key iv cfg.aad plain).1) tag_bytes).1 (tags plain)))
      ∙ decrypt-sealed plain _ _ (tags plain) (lengths plain) (opens plain)

-- No character of the name is a bar.
abbrev pub no_bar : ℕ → Bool
no_bar c = not (c == b'|')

split-aad :
    (key platform : Text)
    → all no_bar platform ≡ true
    → span no_bar (drop 3 (build_aad key platform)) ≡ (platform, text "|" ++ key)
unfolding build_aad text nat_eq
split-aad key platform clean = span-append no_bar platform (text "|" ++ key) clean refl

-- Where the names of the platforms have no bar, the additional data of two archives is the same only
-- if their cache keys and their platforms are: an archive cannot stand for one of another key.
pub build_aad_injective :
    (k l p q : Text)
    → all no_bar p ≡ true
    → all no_bar q ≡ true
    → build_aad k p ≡ build_aad l q
    → (k ≡ l) × (p ≡ q)
unfolding text
build_aad_injective k l p q clean_p clean_q same =
    let both =
      sym (split-aad k p clean_p)
      ∙ (ap (λ s. span no_bar (drop 3 s)) same ∙ split-aad l q clean_q) in
    (ap (λ r. drop 1 r.1) both, ap (λ r. r.0) both)
