-- ===== src/AncestorCache.antt =====
-- src/lib/ancestor-cache.ts: the keys of the ancestor build cache.
pub mod Distances
pub mod History
pub mod Trust
pub mod CleanSave
pub mod Keys
pub mod Select
mod Tests
use setup_soldr.Base.{◌^◌, ℕ, ◌-◌}
use setup_soldr.Base.{Bool, true, false, ◌&&◌, ◌||◌, Option, none, some}
use setup_soldr.Base.{List, [], ◌∷◌, ◌++◌, if◌then◌else◌, ltb, leb, Eq, ◌==◌, ==_refl}
use setup_soldr.Base.{nat_eq, list_eq, option_eq, length}
use setup_soldr.Base.{all, get_or, Result, ok, err, ensure}
use setup_soldr.Base.{◌>>=◌, ◌>>◌}
use setup_soldr.Base.Text.{Text, text, trim, to_lower, strip_prefix}
use setup_soldr.Base.Text.{is_empty}
use setup_soldr.Base.Span.{span, is_hex}
use setup_soldr.Base.Decimal.{decimal, number}

pub record AncestorKey : Type 0 where
  pub identity : Text
  pub sha : Text
  pub run_id : ℕ
  pub attempt : ℕ
  pub pr : Option ℕ

unfoldable pub auto_key_enabled : Option Text → Option Text → Bool
auto_key_enabled key flag =
    let explicit = trim (get_or key []) in
    explicit == text "auto" || is_empty explicit && to_lower (trim (get_or flag [])) == text "true"

-- `[0-9a-f]{lo,hi}` for the whole text.
unfoldable pub hex_between : ℕ → ℕ → Text → Bool
unfolding is_hex
hex_between lo hi s = all is_hex s && (leb lo (length s) && leb (length s) hi)

-- `[0-9a-f]{40}|[0-9a-f]{64}`
unfoldable pub is_sha : Text → Bool
unfolding hex_between
is_sha s = hex_between 40 40 s || hex_between 64 64 s

abbrev pub key_prefix : Text
key_prefix = text "setup-soldr-ancestor-build-v1-"

unfoldable pub ancestor_key_prefix : Text → Result Text
ancestor_key_prefix identity = do
  ensure (hex_between 16 64 identity) (text "invalid ancestor cache identity")
  ok (key_prefix ++ (identity ++ text "-"))

unfoldable pub ancestor_family_prefix : Text → Result Text
ancestor_family_prefix family = do
  ensure (hex_between 16 16 family) (text "invalid ancestor cache family")
  ok (key_prefix ++ family)

abbrev pub max_safe_integer : ℕ
max_safe_integer = 2 ^ 53 - 1

-- `Number.isSafeInteger(n) && n > 0`
unfoldable pub is_safe_positive : ℕ → Bool
is_safe_positive n = ltb 0 n && leb n max_safe_integer

abbrev pub pr_ok : Option ℕ → Bool
pr_ok none = true
pr_ok (some n) = is_safe_positive n

abbrev pub pr_part : Option ℕ → Text
pr_part none = []
pr_part (some n) = text "-pr-" ++ decimal n

unfoldable pub make_ancestor_key : AncestorKey → Result Text
unfolding ancestor_key_prefix
make_ancestor_key key = do
  prefix ← ancestor_key_prefix key.identity
  ensure
      (is_sha key.sha
        && (is_safe_positive key.run_id && (is_safe_positive key.attempt && pr_ok key.pr)))
      (text "invalid ancestor cache provenance")
  ok (
      prefix
      ++ (text "source-"
          ++ (key.sha
              ++ (text "-run-"
                  ++ (decimal key.run_id
                      ++ (text "-attempt-" ++ (decimal key.attempt ++ pr_part key.pr)))))))

-- Binds of the parser, which has no message.
infixl 5 ◌>>?◌
abbrev pub ◌>>?◌ {ℓ κ} : {A : Type ℓ} {B : Type κ} → Option A → (A → Option B) → Option B
none >>? k = none
some a >>? k = k a

abbrev pub accept : Bool → Option (Unit {0})
accept true = some tt
accept false = none

-- `(?:-pr-([1-9][0-9]*))?$`
parse_pr : Text → Option (Option ℕ)
parse_pr [] = some none
parse_pr (c ∷ s) = strip_prefix (text "-pr-") (c ∷ s) >>? λ r.
    number r >>? λ (n, rest). accept (is_empty rest) >>? λ _. some (some n)

-- The pattern of `parseAncestorKey`. A run of hexadecimal or decimal digits is followed by "-" or
-- by the end, so each group is a longest run.
match_ancestor_key : Text → Option AncestorKey
unfolding parse_pr
match_ancestor_key value = strip_prefix key_prefix value >>? λ s₁.
    let (identity, s₂) = span is_hex s₁ in
    accept (hex_between 16 64 identity) >>? λ _. strip_prefix (text "-source-") s₂ >>? λ s₃.
    let (sha, s₄) = span is_hex s₃ in
    accept (is_sha sha) >>? λ _. strip_prefix (text "-run-") s₄ >>? λ s₅.
    number s₅ >>? λ (run_id, s₆). strip_prefix (text "-attempt-") s₆ >>? λ s₇.
    number s₇ >>? λ (attempt, s₈). parse_pr s₈ >>? λ pr.
    some (record { identity = identity; sha = sha; run_id = run_id; attempt = attempt; pr = pr })

-- A key that does not print back to the value is refused.
abbrev confirm : Text → AncestorKey → Option AncestorKey
confirm value key = elim (make_ancestor_key key) [
  | ok printed ↦ if printed == value then some key else none
  | err e ↦ none
]

unfoldable pub parse_ancestor_key : Text → Option AncestorKey
unfolding match_ancestor_key
parse_ancestor_key value = match_ancestor_key value >>? λ key. confirm value key
