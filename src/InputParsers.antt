-- ===== src/InputParsers.antt =====
-- src/lib/input-parsers.ts: the parsers of the action's inputs, and src/lib/cleanup-inputs.ts. A
-- number is exact, as it is in the source below 2^53.
pub mod Laws
mod Tests
use setup_soldr.Base.{ℕ, ◌+◌, ◌-◌, ◌*◌, ◌/◌, ◌<◌}
use setup_soldr.Base.{Bool, true, false, not, ◌&&◌, ◌||◌, Option, none, some}
use setup_soldr.Base.{List, [], ◌∷◌, ◌++◌, map, if◌then◌else◌, ◌==◌}
use setup_soldr.Base.{nat_eq, list_eq, option_eq, includes}
use setup_soldr.Base.{filter, all, Result, ok, err}
use setup_soldr.Base.Text.{Text, text, trim, to_lower, starts_with, ends_with}
use setup_soldr.Base.Text.{is_empty}
use setup_soldr.Base.Env.{Env}
use setup_soldr.Base.Span.{span, is_digit}
use setup_soldr.Base.Sort.{compare_text, sort}
use setup_soldr.Base.Decimal.{value}
use setup_soldr.Base.Text.{is_space}

abbrev pub disabled_words : List Text
disabled_words = [] ∷ text "0" ∷ text "off" ∷ text "false" ∷ text "no" ∷ []

-- The seconds of a unit; none for what is no unit.
unfoldable pub unit_seconds : Text → Option ℕ
unfolding text
unit_seconds unit =
    if is_empty unit || unit == text "s"
    then some 1
    else if unit == text "m"
    then some 60
    else if unit == text "h"
    then some 3600
    else none

abbrev pub times : ℕ → Option ℕ → Option ℕ
times n none = none
times n (some k) = some (n * k)

-- `/^(\d+)\s*(s|m|h)?$/`: no unit starts with a digit or a space, so each run is a longest one.
unfoldable pub match_seconds : Text → Option ℕ
unfolding span is_digit is_space unit_seconds
match_seconds s =
    let (digits, behind) = span is_digit s in
    let (spaces, unit) = span is_space behind in
    if is_empty digits then none else times (value digits) (unit_seconds unit)

abbrev pub seconds_or_error : Text → Option ℕ → Result (Option ℕ)
seconds_or_error raw (some n) = ok (some n)
seconds_or_error raw none = err (
    text "invalid 'cache-shutdown-on-idle' input: '"
    ++ (raw ++ text "'. Expected <seconds>, <N>s, <N>m, <N>h, or empty/off/false to disable."))

-- `raw.trim().toLowerCase()`
abbrev pub normalized : Text → Text
normalized raw = to_lower (trim raw)

unfoldable pub parse_cache_shutdown_on_idle_seconds : Text → Result (Option ℕ)
unfolding match_seconds trim to_lower text
parse_cache_shutdown_on_idle_seconds raw =
    if includes disabled_words (normalized raw)
    then ok none
    else seconds_or_error raw (match_seconds (normalized raw))

-- A variable that soldr's linker would overwrite.
unfoldable pub is_linker_variable : Text × Text → Bool
unfolding starts_with ends_with text
is_linker_variable (name, raw) =
    not (is_empty raw)
    && starts_with name (text "CARGO_TARGET_")
    && (ends_with name (text "_LINKER") || ends_with name (text "_RUSTFLAGS"))

unfoldable pub detect_user_linker_env : Env → List Text
unfolding is_linker_variable sort compare_text text
detect_user_linker_env env =
    sort compare_text (map (λ v. v.0 ++ (text "=" ++ v.1)) (filter is_linker_variable env))

unfoldable pub parse_rust_backtrace : Text → Result (Option Text)
unfolding trim to_lower text
parse_rust_backtrace raw =
    let v = normalized raw in
    if includes ([] ∷ text "0" ∷ text "false" ∷ text "off" ∷ text "no" ∷ []) v
    then ok none
    else if includes (text "1" ∷ text "true" ∷ text "on" ∷ text "yes" ∷ []) v
    then ok (some (text "1"))
    else if v == text "full"
    then ok (some (text "full"))
    else err (
        text "invalid 'rust-backtrace' input: '"
        ++ (raw ++ text "'. Expected 1/true/on/yes, full, or 0/false/off/no/'' to disable."))

unfoldable pub normalize_stats_mode : Text → Text
unfolding trim to_lower text
normalize_stats_mode raw =
    let v = normalized raw in
    if v == text "none" || v == text "summarize" || v == text "detailed"
    then v
    else text "summarize"

unfoldable pub normalize_compile_cache_stats : Text → Text
unfolding trim to_lower text
normalize_compile_cache_stats raw =
    let v = normalized raw in
    if v == text "none"
    then text "none"
    else if v == text "insights"
    then text "insights"
    else if v == text "detailed"
    then text "detailed"
    else text "summarize"

unfoldable pub parse_boolean_input : Text → Text → Bool → Result Bool
unfolding trim to_lower text
parse_boolean_input name raw default =
    let v = normalized raw in
    if is_empty v
    then ok default
    else if includes (text "1" ∷ text "true" ∷ text "yes" ∷ text "on" ∷ []) v
    then ok true
    else if includes (text "0" ∷ text "false" ∷ text "no" ∷ text "off" ∷ []) v
    then ok false
    else err (
        text "invalid '"
        ++ (name ++ (text "' input: '" ++ (raw ++ text "'. Expected true or false."))))

unfoldable pub parse_optional_seconds : Text → Text → Result (Option ℕ)
unfolding trim is_digit text
parse_optional_seconds name raw =
    let v = trim raw in
    if is_empty v
    then ok none
    else if all is_digit v
    then ok (some (value v))
    else err (
        text "invalid '"
        ++ (name ++ (text "' input: '" ++ (raw ++ text "'. Expected a non-negative integer."))))
