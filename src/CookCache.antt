-- ===== src/CookCache.antt =====
-- src/lib/cook-cache.ts: the cache of compiled dependencies, the keys of its base layer and of its
-- delta layer. `sha256` is the hexadecimal digest of a text in UTF-8.
pub mod Flags
pub mod Layers
pub mod Save
pub mod Gate
pub mod Keys
mod Tests
use setup_soldr.Base.{ℕ, ◌+◌, ◌-◌}
use setup_soldr.Base.{Bool, true, false, not, ◌&&◌, ◌||◌, Option, none, some}
use setup_soldr.Base.{List, [], ◌∷◌, ◌++◌, if◌then◌else◌, ltb, leb, ◌==◌}
use setup_soldr.Base.{nat_eq, list_eq, option_eq, includes, take}
use setup_soldr.Base.{any}
use setup_soldr.Base.Text.{Text, text, trim, to_lower, join, or_text}
use setup_soldr.Base.Text.{is_empty}
use setup_soldr.Base.Decimal.{value}
use setup_soldr.Base.Span.{span, is_digit}

pub record CookCacheKeyParts : Type 0 where
  pub runner_os : Text
  pub runner_arch : Text
  pub libc : Text
  pub rustc_release : Text
  pub flags_hash : Text
  pub lock_hash : Text
  pub soldr_version : Text
  pub key_suffix : Option Text

-- `[A-Za-z0-9_.-]`
unfoldable pub is_key_char : ℕ → Bool
is_key_char c =
    leb b'A' c && leb c b'Z'
    || leb b'a' c && leb c b'z'
    || leb b'0' c && leb c b'9'
    || c == b'_'
    || c == b'.'
    || c == b'-'

-- `replace(/[^A-Za-z0-9_.-]+/g, "_")`; the Boolean says that the last character was replaced.
unfoldable pub replace_runs : Bool → Text → Text
unfolding is_key_char
replace_runs b [] = []
replace_runs b (c ∷ s) = elim (is_key_char c) [
  | true ↦ c ∷ replace_runs false s
  | false ↦ elim b [ true ↦ replace_runs true s | false ↦ b'_' ∷ replace_runs true s ]
]

unfoldable pub key_fragment : Text → Text → Text
unfolding replace_runs trim
key_fragment value fallback = or_text (replace_runs false (trim value)) fallback

-- `if (parts.keySuffix?.trim()) segments.push(...)`
unfoldable pub suffix_segment : Option Text → List Text
unfolding key_fragment text
suffix_segment none = []
suffix_segment (some s) =
    if is_empty (trim s) then [] else (text "x" ++ key_fragment s (text "none")) ∷ []

unfoldable pub build_cook_cache_key : CookCacheKeyParts → Text
unfolding suffix_segment text
build_cook_cache_key parts =
    let release = or_text (trim parts.rustc_release) (text "unresolved") in
    join (text "-") (
      text "cook"
      ∷ parts.runner_os
      ∷ parts.runner_arch
      ∷ parts.libc
      ∷ (text "rustc" ++ release)
      ∷ (text "f" ++ parts.flags_hash)
      ∷ (text "l" ++ parts.lock_hash)
      ∷ (text "soldr" ++ parts.soldr_version)
      ∷ suffix_segment parts.key_suffix)

unfoldable pub cook_key_parts : CookCacheKeyParts → List Text
unfolding suffix_segment text
cook_key_parts parts =
    key_fragment parts.runner_os (text "unknown-os")
    ∷ key_fragment parts.runner_arch (text "unknown-arch")
    ∷ key_fragment parts.libc (text "unknown-libc")
    ∷ (text "rustc" ++ key_fragment parts.rustc_release (text "unresolved"))
    ∷ (text "f" ++ key_fragment parts.flags_hash (text "none"))
    ∷ (text "l" ++ key_fragment parts.lock_hash (text "no-lock"))
    ∷ (text "soldr" ++ key_fragment parts.soldr_version (text "unset"))
    ∷ suffix_segment parts.key_suffix

unfoldable pub build_cook_base_cache_key : CookCacheKeyParts → Text
unfolding cook_key_parts
build_cook_base_cache_key parts = join (text "-") (text "cook-base-v2" ∷ cook_key_parts parts)

module _ (sha256 : Text → Text) where
  unfoldable pub short_hash : Text → Text → Text
  unfolding trim
  short_hash value fallback =
      if is_empty (trim value) then fallback else take 12 (sha256 (trim value))

  unfoldable pub hash_cook_build_shape : Text → Text
  unfolding short_hash
  hash_cook_build_shape value = short_hash value (text "no-shape")

unfoldable pub build_cook_delta_cache_key : CookCacheKeyParts → Text → Text → Text
unfolding cook_key_parts
build_cook_delta_cache_key parts build_shape_hash github_sha =
    let sha = take 16 (key_fragment (or_text github_sha (text "nosha")) (text "nosha")) in
    let shape = key_fragment build_shape_hash (text "no-shape") in
    join (text "-") (
      text "cook-delta-v2"
      ∷ (cook_key_parts parts ++ ((text "s" ++ shape) ∷ (text "g" ++ sha) ∷ [])))

unfoldable pub build_cook_delta_cache_restore_prefix : CookCacheKeyParts → Text → Text
unfolding cook_key_parts
build_cook_delta_cache_restore_prefix parts build_shape_hash =
    let shape = key_fragment build_shape_hash (text "no-shape") in
    join (text "-") (text "cook-delta-v2" ∷ (cook_key_parts parts ++ ((text "s" ++ shape) ∷ [])))
    ++ text "-"

-- The three numbers of a version, of any length.
pub record Version : Type 0 where
  pub major : ℕ
  pub minor : ℕ
  pub patch : ℕ

-- `replace(/^v/i, "")`
unfoldable pub strip_v : Text → Text
strip_v [] = []
strip_v (c ∷ s) = if c == b'v' || c == b'V' then s else c ∷ s

-- `\d+` and what follows.
unfoldable pub take_number : Text → Option (ℕ × Text)
unfolding span value
take_number s =
    let (run, rest) = span is_digit s in if is_empty run then none else some (value run, rest)

abbrev after_dot : Text → Option Text
after_dot [] = none
after_dot (c ∷ s) = if c == b'.' then some s else none

-- `(?:[.+-].*)?$`, where `.` matches no line terminator.
abbrev is_tail : Text → Bool
is_tail [] = true
is_tail (c ∷ s) =
    (c == b'.' || c == b'+' || c == b'-')
    && not (any (λ d. d == 10 || d == 13 || d == 0x2028 || d == 0x2029) s)

unfoldable pub parse_version : Text → Option Version
unfolding take_number strip_v trim
parse_version s = elim (take_number (strip_v (trim s))) [
  | none ↦ none
  | some (a, r) ↦ elim (after_dot r) [
    | none ↦ none
    | some r1 ↦ elim (take_number r1) [
      | none ↦ none
      | some (b, r2) ↦ elim (after_dot r2) [
        | none ↦ none
        | some r3 ↦ elim (take_number r3) [
          | none ↦ none
          | some (c, r4) ↦
              if is_tail r4 then some (record { major = a; minor = b; patch = c }) else none
        ]
      ]
    ]
  ]
]

unfoldable pub layered_cook_min_soldr_version : Text
unfolding text
layered_cook_min_soldr_version = text "0.7.38"

-- At least the other version, number by number.
unfoldable pub is_at_least : Version → Version → Bool
is_at_least parsed min =
    if not (parsed.major == min.major)
    then ltb min.major parsed.major
    else if not (parsed.minor == min.minor)
    then ltb min.minor parsed.minor
    else leb min.patch parsed.patch

unfoldable pub supports_over : Option Version → Option Version → Bool
unfolding is_at_least
supports_over none min = false
supports_over (some parsed) none = false
supports_over (some parsed) (some min) = is_at_least parsed min

unfoldable pub supports_layered_cook_cache : Text → Bool
unfolding parse_version supports_over layered_cook_min_soldr_version
supports_layered_cook_cache soldr_version =
    supports_over (parse_version soldr_version) (parse_version layered_cook_min_soldr_version)

unfoldable pub is_cook_mode : Text → Bool
unfolding trim to_lower text
is_cook_mode mode =
    let normalized = to_lower (trim mode) in
    normalized == text "soldr-cook" || normalized == text "cargo-chef"

pub record CookGate : Type 0 where
  pub enabled : Bool
  pub reason : Text

abbrev pub refused : Text → CookGate
refused reason = record { enabled = false; reason = reason }

-- The branches, on whether the input turns cook off, on whether it names a strategy, on the umbrella
-- and on whether the lockfile exists.
unfoldable pub gate_of : Bool → Bool → Bool → Text → Bool → Text → CookGate
unfolding text
gate_of true known umbrella lockfile_path found prebuild_deps =
    refused
      (text "prebuild-deps=" ++ (or_text prebuild_deps (text "(empty)") ++ text " - cook disabled"))
gate_of false false umbrella lockfile_path found prebuild_deps = refused (
    text "prebuild-deps="
    ++ (prebuild_deps
        ++ text
            " - unknown strategy, only \"soldr-cook\" supported (\"cargo-chef\" remains an alias)"))
gate_of false true false lockfile_path found prebuild_deps =
    refused (text "cache: false - cook produces no value without caching")
gate_of false true true [] found prebuild_deps =
    refused (text "no Cargo.lock found - cook needs a lockfile to derive recipe")
gate_of false true true (c ∷ s) false prebuild_deps =
    refused (text "Cargo.lock path " ++ ((c ∷ s) ++ text " does not exist"))
gate_of false true true (c ∷ s) true prebuild_deps = record {
  enabled = true;
  reason = text "soldr-cook enabled";
}

unfoldable pub off_words : List Text
unfolding text
off_words = [] ∷ text "none" ∷ text "off" ∷ text "false" ∷ []

-- `isCookMode` is asked of the trimmed and lowered text, as in the source.
unfoldable pub decide_cook_gate : (Text → Bool) → Text → Bool → Text → CookGate
unfolding gate_of is_cook_mode off_words
decide_cook_gate exists prebuild_deps cache_umbrella lockfile_path =
    let mode = to_lower (trim prebuild_deps) in
    gate_of (includes off_words mode) (is_cook_mode mode) cache_umbrella lockfile_path
      (exists lockfile_path) prebuild_deps
