-- ===== src/CacheKeys/Normalize.antt =====
-- src/lib/cache-keys.ts: the parsers of the inputs of the target cache. What a caller logs is a list
-- of lines.
use setup_soldr.Base.{ℕ, ◌*◌}
use setup_soldr.Base.{Bool, true, false, not, ◌&&◌, ◌||◌, Option, none, some}
use setup_soldr.Base.{List, [], ◌∷◌, ◌++◌, if◌then◌else◌, leb, ◌==◌}
use setup_soldr.Base.{nat_eq, list_eq, option_eq, includes}
use setup_soldr.Base.{all, Result, ok, err, ensure}
use setup_soldr.Base.{◌>>=◌, ◌>>◌}
use setup_soldr.Base.Text.{Text, text, trim, to_lower, join, or_text}
use setup_soldr.Base.Text.{is_empty}
use setup_soldr.Base.Span.{is_digit}
use setup_soldr.Base.Decimal.{decimal, value}

abbrev pub normalized : Text → Text
normalized value = to_lower (trim value)

abbrev pub accept_word : List Text → Text → Text → Result Text
accept_word words message word = if includes words word then ok word else err message

abbrev pub target_cache_profiles : List Text
target_cache_profiles = text "thin-v1" ∷ text "thin-v2" ∷ text "thin-v3" ∷ []

unfoldable pub normalize_target_cache_profile : Text → Result Text
unfolding trim to_lower text
normalize_target_cache_profile value =
    if is_empty (normalized value)
    then ok (text "thin-v1")
    else accept_word target_cache_profiles
        (text "invalid target-cache-profile '"
          ++ (value ++ text "'; expected thin-v1, thin-v2, or thin-v3"))
        (normalized value)

abbrev pub target_cache_bool_true : List Text
target_cache_bool_true = text "true" ∷ text "1" ∷ text "yes" ∷ text "on" ∷ []

abbrev pub target_cache_bool_false : List Text
target_cache_bool_false = text "false" ∷ text "0" ∷ text "no" ∷ text "off" ∷ []

-- The Boolean words "true" and "false", or null for an input that is not set.
unfoldable pub normalize_target_cache_bool : Text → Text → Result (Option Bool)
unfolding trim to_lower text
normalize_target_cache_bool input_name value =
    if is_empty (normalized value)
    then ok none
    else if includes target_cache_bool_true (normalized value)
    then ok (some true)
    else if includes target_cache_bool_false (normalized value)
    then ok (some false)
    else err (
        text "invalid "
        ++ (input_name
            ++ (text " '" ++ (value ++ text "'; expected true, false, 1, 0, yes, no, on, or off"))))

abbrev pub Logged : Type 0
Logged = Text × List Text

unfoldable pub normalize_legacy_target_cache_mode : Text → Result Logged
unfolding trim to_lower text
normalize_legacy_target_cache_mode value =
    if is_empty (normalized value)
    then ok ([], [])
    else if normalized value == text "hot"
    then ok (
      text "thin",
      text "target-cache-mode 'hot' is deprecated; using build-cache-mode 'thin'." ∷ [],
    )
    else if includes (text "thin" ∷ text "full" ∷ text "off" ∷ []) (normalized value)
    then ok (normalized value, [])
    else err
        (text "invalid target-cache-mode '" ++ (value ++ text "'; expected thin, full, or off"))

abbrev pub build_cache_modes : List Text
build_cache_modes = text "once" ∷ text "thin" ∷ text "full" ∷ []

-- The mode of the input, or the mode of the older input that stands in for it.
abbrev pub translated : Bool → Text → Text → Logged → Logged
translated allowed explicit mode (legacy, lines) =
    if allowed && is_empty explicit && (legacy == text "thin" || legacy == text "full")
    then (
      legacy,
      lines
          ++ ((text "target-cache-mode '"
                ++ (legacy
                    ++ (text "' is deprecated; translating to build-cache-mode '"
                        ++ (legacy ++ text "'."))))
              ∷ []),
    )
    else (mode, lines)

unfoldable pub normalize_build_cache_mode : Text → Text → Bool → Result Logged
unfolding normalize_legacy_target_cache_mode trim to_lower text
normalize_build_cache_mode value legacy_target_mode allow_legacy_translation =
    let mode =
      or_text (normalized value) (if allow_legacy_translation then text "thin" else text "once") in
    ensure (includes build_cache_modes mode)
      (text "invalid build-cache-mode '" ++ (value ++ text "'; expected once, thin, or full"))
    >> (normalize_legacy_target_cache_mode legacy_target_mode >>= λ legacy.
        ok (translated allow_legacy_translation (normalized value) mode legacy))

abbrev pub target_cache_compress_codecs : List Text
target_cache_compress_codecs = text "auto" ∷ text "zstd" ∷ text "none" ∷ []

unfoldable pub normalize_target_cache_compress : Text → Result Text
unfolding trim to_lower join text
normalize_target_cache_compress value =
    if is_empty (normalized value)
    then ok (text "zstd")
    else accept_word target_cache_compress_codecs
        (text "invalid target-cache-compress '"
          ++ (value ++ (text "'; expected " ++ join (text ", ") target_cache_compress_codecs)))
        (normalized value)

-- `/^[+-]?\d+$/`, and the number: its sign, and the digits behind it.
abbrev pub signed : Text → Bool × Text
signed [] = (false, [])
signed (c ∷ s) = if c == b'-' then (true, s) else if c == b'+' then (false, s) else (false, c ∷ s)

abbrev pub all_digits : Text → Bool
all_digits s = not (is_empty s) && all is_digit s

-- The level of the digits: a negative number is below the lowest level.
abbrev pub level_in_range : Bool × Text → Bool
level_in_range (negative, digits) =
    all_digits digits && not negative && leb 1 (value digits) && leb (value digits) 22

unfoldable pub normalize_target_cache_compress_level : Text → Result Text
unfolding trim is_digit value decimal text
normalize_target_cache_compress_level value' =
    if is_empty (trim value')
    then ok (text "3")
    else if level_in_range (signed (trim value'))
    then ok (decimal (value (signed (trim value')).1))
    else err (
        text "invalid target-cache-compress-level '"
        ++ (value' ++ text "'; expected integer between 1 and 22"))

abbrev pub mib : ℕ
mib = 1024 * 1024

abbrev pub gib : ℕ
gib = 1024 * mib

-- The bytes and the files that a target cache should not exceed.
unfoldable pub target_cache_soft_budgets : Text → Option (ℕ × ℕ)
unfolding text
target_cache_soft_budgets mode =
    if mode == text "once"
    then some (1024 * 1024 * 1024, 8000)
    else if mode == text "thin"
    then some (512 * 1024 * 1024, 4000)
    else if mode == text "full"
    then some (2 * gib, 12000)
    else none

abbrev pub print_budget : Text → Option (ℕ × ℕ) → Result (Text × Text)
print_budget mode none =
    err (text "internal: unknown build-cache-mode '" ++ (mode ++ text "' for budget lookup"))
print_budget mode (some (size, files)) = ok (decimal size, decimal files)

-- The names that every object inherits: a lookup of one finds a value that has no first and no second
-- element.
abbrev pub inherited_names : List Text
inherited_names =
    text "constructor"
    ∷ text "hasOwnProperty"
    ∷ text "isPrototypeOf"
    ∷ text "propertyIsEnumerable"
    ∷ text "toLocaleString"
    ∷ text "toString"
    ∷ text "valueOf"
    ∷ text "__defineGetter__"
    ∷ text "__defineSetter__"
    ∷ text "__lookupGetter__"
    ∷ text "__lookupSetter__"
    ∷ text "__proto__"
    ∷ []

unfoldable pub target_cache_soft_budget : Bool → Text → Result (Text × Text)
unfolding target_cache_soft_budgets decimal text
target_cache_soft_budget target_cache_enabled build_cache_mode =
    if target_cache_enabled
    then (if includes inherited_names build_cache_mode
        then ok (text "undefined", text "undefined")
        else print_budget build_cache_mode (target_cache_soft_budgets build_cache_mode))
    else ok ([], [])
