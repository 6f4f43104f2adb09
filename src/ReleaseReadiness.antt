-- ===== src/ReleaseReadiness.antt =====
-- src/lib/release-readiness.ts: which assets make a release usable, and the retry of a request.
pub mod Laws
mod Tests
use setup_soldr.Base.{ℕ, zero, suc, ◌+◌, ◌-◌}
use setup_soldr.Base.{◌⊎◌, inl, inr, Bool, true, false, not, ◌&&◌, ◌||◌, Option, none, some}
use setup_soldr.Base.{List, [], ◌∷◌, ◌++◌, if◌then◌else◌, leb, ◌==◌}
use setup_soldr.Base.{nat_eq, list_eq, option_eq, length, take}
use setup_soldr.Base.{filter, any, all, get_or, Result, ok, err, ensure}
use setup_soldr.Base.{◌>>◌}
use setup_soldr.Base.Text.{Text, text, trim, to_lower, strip_prefix, starts_with, ends_with, join}
use setup_soldr.Base.Text.{is_empty, contains_text}
use setup_soldr.Base.Env.{Env, env_get}
use setup_soldr.Base.Json.{Json, Items, prop}
use setup_soldr.Base.Span.{is_digit, is_hex}
use setup_soldr.Base.Decimal.{value, decimal}
use setup_soldr.Base.Text.{is_space}

unfoldable pub required_release_targets : List Text
unfolding text
required_release_targets =
    text "x86_64-unknown-linux-gnu"
    ∷ text "aarch64-unknown-linux-gnu"
    ∷ text "x86_64-apple-darwin"
    ∷ text "aarch64-apple-darwin"
    ∷ text "x86_64-pc-windows-msvc"
    ∷ text "aarch64-pc-windows-msvc"
    ∷ []

-- The table of platform tags, by target.
unfoldable pub pypi_wheel_platform_tags : Env
unfolding text
pypi_wheel_platform_tags =
    (text "x86_64-unknown-linux-gnu", text "manylinux_2_17_x86_64.manylinux2014_x86_64")
    ∷ (text "aarch64-unknown-linux-gnu", text "manylinux_2_17_aarch64.manylinux2014_aarch64")
    ∷ (text "x86_64-apple-darwin", text "macosx_10_12_x86_64")
    ∷ (text "aarch64-apple-darwin", text "macosx_11_0_arm64")
    ∷ (text "x86_64-pc-windows-msvc", text "win_amd64")
    ∷ (text "aarch64-pc-windows-msvc", text "win_arm64")
    ∷ []

unfoldable pub archive_suffixes : List Text
unfolding text
archive_suffixes = text ".tar.zst" ∷ text ".tar.gz" ∷ text ".zip" ∷ []

-- The name without the first of the suffixes that it ends with.
unfoldable pub strip_suffix : List Text → Text → Option Text
strip_suffix [] name = none
strip_suffix (s ∷ ss) name =
    let rest = strip_suffix ss name in
    if ends_with name s then some (take (length name - length s) name) else rest

unfoldable pub is_symbols_sidecar : Text → Bool
unfolding strip_suffix archive_suffixes text
is_symbols_sidecar name = elim (strip_suffix archive_suffixes name) [
  | none ↦ false
  | some stem ↦ ends_with stem (text "-symbols")
]

-- `typeof record[name] === "string" ? record[name] : ""`
unfoldable pub text_prop : Option Json → Text → Text
unfolding prop
text_prop j name = elim (prop j name) [ some (Json.str s) ↦ s | _ ↦ [] ]

unfoldable pub asset_has_target : Json → Text → Bool
unfolding is_symbols_sidecar text_prop text
asset_has_target asset target =
    let name = text_prop (some asset) (text "name") in
    let url = trim (text_prop (some asset) (text "browser_download_url")) in
    contains_text name target
    && (any (ends_with name) archive_suffixes
        && (not (is_symbols_sidecar name) && not (is_empty url)))

abbrev pub is_true : Option Json → Bool
is_true (some (Json.bool true)) = true
is_true _ = false

-- `/^[0-9a-f]{64}$/`
unfoldable pub is_sha256 : Text → Bool
unfolding is_hex
is_sha256 s = all is_hex s && length s == 64

unfoldable pub pypi_wheel_has_target : Json → Text → Bool
unfolding text_prop pypi_wheel_platform_tags is_sha256 text
pypi_wheel_has_target file target = elim (env_get pypi_wheel_platform_tags target) [
  | none ↦ false
  | some tag ↦
      let filename = text_prop (some file) (text "filename") in
      let url = trim (text_prop (some file) (text "url")) in
      let sha256 = to_lower (text_prop (prop (some file) (text "digests")) (text "sha256")) in
      starts_with filename (text "soldr-")
      && (ends_with filename (text "-" ++ (tag ++ text ".whl"))
          && (not (is_true (prop (some file) (text "yanked")))
              && (not (is_empty url) && is_sha256 sha256)))
]

unfoldable pub any_item : (Json → Bool) → Items → Bool
any_item p Items.nil = false
any_item p (Items.cons j js) = p j || any_item p js

-- `Array.isArray(j) && j.some(p)`
abbrev pub any_in : (Json → Bool) → Option Json → Bool
any_in p (some (Json.arr js)) = any_item p js
any_in p _ = false

unfoldable pub missing_targets : List Text → Items → Option Json → List Text
unfolding asset_has_target pypi_wheel_has_target any_item
missing_targets required assets pypi_files =
    filter
      (λ t.
        not (any_item (λ a. asset_has_target a t) assets)
        && not (any_in (λ f. pypi_wheel_has_target f t) pypi_files))
      required

-- The throw for targets that are missing.
abbrev pub refuse_missing : Text → List Text → Result (Unit {0})
refuse_missing tag [] = ok tt
refuse_missing tag (t ∷ ts) = err (
    text "release "
    ++ (tag ++ (text " is missing usable assets for: " ++ join (text ", ") (t ∷ ts))))

abbrev pub check_assets : Text → List Text → Option Json → Option Json → Result (Unit {0})
check_assets tag required (some (Json.arr assets)) pypi_files =
    refuse_missing tag (missing_targets required assets pypi_files)
check_assets tag required _ pypi_files =
    err (text "release " ++ (tag ++ text " has no assets array"))

unfoldable pub assert_release_ready : Json → List Text → Option Json → Result (Unit {0})
unfolding missing_targets text_prop text
assert_release_ready release required pypi_release =
    let tag = trim (text_prop (some release) (text "tag_name")) in
    ensure (not (is_empty tag)) (text "release payload has no tag_name")
    >> (ensure (not (is_true (prop (some release) (text "draft"))))
          (text "release " ++ (tag ++ text " is still a draft"))
        >> check_assets tag required (prop (some release) (text "assets"))
            (prop pypi_release (text "urls")))

-- A character of `\w`.
unfoldable pub is_word : ℕ → Bool
unfolding is_digit
is_word c = is_digit c || leb b'a' c && leb c b'z' || leb b'A' c && leb c b'Z' || c == b'_'

abbrev ends_word : Text → Bool
ends_word [] = true
ends_word (c ∷ s) = not (is_word c)

-- `(\d{3})\b`
unfoldable pub status_digits : Text → Option ℕ
unfolding is_word value
status_digits (a ∷ b ∷ c ∷ s) =
    if is_digit a && (is_digit b && (is_digit c && ends_word s))
    then some (value (a ∷ b ∷ c ∷ []))
    else none
status_digits _ = none

-- `\s+(\d{3})\b`; the Boolean says that a space was read.
unfoldable pub status_after_space : Bool → Text → Option ℕ
unfolding status_digits is_space
status_after_space b [] = none
status_after_space b (c ∷ s) = elim (is_space c) [
  | true ↦ status_after_space true s
  | false ↦ elim b [ true ↦ status_digits (c ∷ s) | false ↦ none ]
]

abbrev status_here : Text → Option ℕ
status_here s = elim (strip_prefix (text "HTTP") s) [
  | none ↦ none
  | some r ↦ status_after_space false r
]

-- The first match of `HTTP\s+(\d{3})\b` in the message.
unfoldable pub http_status : Text → Option ℕ
unfolding status_after_space strip_prefix text
http_status [] = none
http_status (c ∷ s) =
    let later = http_status s in elim (status_here (c ∷ s)) [ none ↦ later | some n ↦ some n ]

unfoldable pub is_retryable_release_error : Text → Bool
unfolding http_status
is_retryable_release_error message = elim (http_status message) [
  | none ↦ false
  | some code ↦ code == 404 || leb 500 code
]

-- The request, by the number of the attempt. A run gives what the loop ends with, `inr` for the last
-- error, and the attempts that were made.
module _ {A : Type 0} (request : ℕ → Result A) where
  -- The `catch`; the Boolean says that the loop breaks.
  abbrev pub settle_error : Bool → ℕ → Text → (A ⊎ Text) × List ℕ → (A ⊎ Text) × List ℕ
  settle_error true attempt e later = (inr e, attempt ∷ [])
  settle_error false attempt e (result, made) = (result, attempt ∷ made)

  abbrev pub settle_attempt : ℕ → ℕ → Result A → (A ⊎ Text) × List ℕ → (A ⊎ Text) × List ℕ
  settle_attempt attempt left (ok a) later = (inl a, attempt ∷ [])
  settle_attempt attempt left (err e) later =
      settle_error (left == 0 || not (is_retryable_release_error e)) attempt e later

  -- The loop with `left` attempts to go.
  unfoldable pub attempt_from : ℕ → ℕ → (A ⊎ Text) × List ℕ
  attempt_from attempt zero = (inr (text "undefined"), [])
  attempt_from attempt (suc left) =
      settle_attempt attempt left (request attempt) (attempt_from (suc attempt) left)

  abbrev pub conclude_retry : ℕ → A ⊎ Text → Result A
  conclude_retry attempts (inl a) = ok a
  conclude_retry attempts (inr e) =
      err (text "release request failed after " ++ (decimal attempts ++ (text " attempts: " ++ e)))

  unfoldable pub retry_release_request : Option ℕ → Result A × List ℕ
  unfolding attempt_from
  retry_release_request attempts =
      let (result, made) = attempt_from 1 (get_or attempts 3) in
      (conclude_retry (get_or attempts 3) result, made)
