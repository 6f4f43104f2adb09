-- ===== src/ShutdownCache.antt =====
-- src/lib/shutdown-cache.ts: asking the cache daemons to stop. The lookup on PATH and the run of a
-- command are parameters, an exit code is a natural number, and the lines of the log are left out.
pub mod Laws
mod Tests
use setup_soldr.Base.{ℕ}
use setup_soldr.Base.{Bool, true, false, not, ◌&&◌, ◌||◌, Option, none, some}
use setup_soldr.Base.{List, [], ◌∷◌, ◌++◌, if◌then◌else◌, leb, Eq, ◌==◌}
use setup_soldr.Base.{nat_eq, list_eq, option_eq}
use setup_soldr.Base.{any, get_or, Result, ok, err}
use setup_soldr.Base.Text.{Text, text, to_lower, join, or_text}
use setup_soldr.Base.Text.{is_empty, contains_text}
use setup_soldr.Base.Decimal.{decimal}

-- `io.which`, whether it finds a command, and `exec.exec`: the exit code and what the command wrote
-- to its error stream, or the message of the error it was not started for.
pub record System : Type 0 where
  pub which : Text → Bool
  pub exec : Text → List Text → Result (ℕ × Text)

pub record ShutdownTarget : Type 0 where
  pub label : Text
  pub cmd : Text
  pub args : List Text

-- `ran` is `status === "ran"`.
pub record ShutdownRunResult : Type 0 where
  pub ran : Bool
  pub code : Option ℕ
  pub stderr : Text
  pub failure : Option Text

-- The commands that were started.
abbrev pub Calls : Type 0
Calls = List (Text × List Text)

abbrev pub is_slash : ℕ → Bool
is_slash c = c == 92 || c == b'/'

abbrev pub is_letter : ℕ → Bool
is_letter c = leb b'A' c && leb c b'Z' || leb b'a' c && leb c b'z'

-- `/^[\\/]/` or `/^[A-Za-z]:[\\/]/`
unfoldable pub is_absolute : Text → Bool
is_absolute (a ∷ b ∷ c ∷ s) = is_slash a || is_letter a && b == b':' && is_slash c
is_absolute (a ∷ s) = is_slash a
is_absolute [] = false

abbrev pub skipped : Text → ShutdownRunResult
skipped failure = record { ran = false; code = none; stderr = []; failure = some failure }

abbrev pub exited : Text → ℕ → Text → ShutdownRunResult
exited label code stderr = record {
  ran = true;
  code = some code;
  stderr = stderr;
  failure = if code == 0 then none else some (label ++ (text ": exit " ++ decimal code));
}

abbrev pub exec_result : Text → Result (ℕ × Text) → ShutdownRunResult
exec_result label (err message) =
    skipped (label ++ (text ": spawn failed (" ++ (message ++ text ")")))
exec_result label (ok (code, stderr)) = exited label code stderr

unfoldable pub run_shutdown : System → ShutdownTarget → ShutdownRunResult × Calls
unfolding is_absolute text decimal
run_shutdown system target =
    if not (is_absolute target.cmd) && not (system.which target.cmd)
    then (skipped (target.label ++ (text ": '" ++ (target.cmd ++ text "' not on PATH"))), [])
    else (
      exec_result target.label (system.exec target.cmd target.args),
      (target.cmd, target.args) ∷ [],
    )

abbrev pub unknown_phrases : List Text
unknown_phrases =
    text "unrecognized subcommand"
    ∷ text "unexpected argument 'shutdown'"
    ∷ text "unexpected argument \"shutdown\""
    ∷ text "unknown subcommand"
    ∷ text "invalid subcommand"
    ∷ text "tool not found"
    ∷ text "no release found"
    ∷ []

unfoldable pub looks_like_unknown_subcommand : Text → Bool
unfolding to_lower contains_text text
looks_like_unknown_subcommand stderr = any (contains_text (to_lower stderr)) unknown_phrases

-- An empty path is no path. The timeout is a natural number of seconds.
pub record ShutdownCacheDaemonsOptions : Type 0 where
  pub soldr_path : Text
  pub logs_archive_dir : Text
  pub shutdown_timeout_seconds : Option ℕ
  pub fail_on_error : Bool

abbrev pub archive_args : Text → List Text
archive_args [] = []
archive_args (c ∷ dir) = text "--archive-logs" ∷ (c ∷ dir) ∷ []

abbrev pub timeout_args : Option ℕ → List Text
timeout_args none = []
timeout_args (some n) = text "--shutdown-timeout-seconds" ∷ decimal n ∷ []

abbrev pub soldr_target : ShutdownCacheDaemonsOptions → ShutdownTarget
soldr_target opts = record {
  label = text "soldr";
  cmd = opts.soldr_path;
  args =
      text "cache"
      ∷ text "shutdown"
      ∷ (archive_args opts.logs_archive_dir ++ timeout_args opts.shutdown_timeout_seconds);
}

abbrev pub zccache_target : ShutdownTarget
zccache_target = record { label = text "zccache"; cmd = text "zccache"; args = text "stop" ∷ [] }

abbrev pub remember_failure : List Text → Option Text → List Text
remember_failure failures none = failures
remember_failure failures (some message) =
    if is_empty message then failures else failures ++ message ∷ []

abbrev pub Unit0 : Type 0
Unit0 = Unit {0}

unfoldable pub fail_if_required : Bool → List Text → Option Text → Result Unit0
unfolding join text
fail_if_required fail_on_error failures message =
    if fail_on_error
    then err (
        text "shutdown-cache: "
        ++ or_text (get_or message []) (
            or_text (join (text "; ") (remember_failure failures message))
              (text "no shutdown path succeeded")))
    else ok tt

abbrev pub exited_with : ShutdownRunResult → ℕ → Bool
exited_with result code = result.ran && result.code == some code

abbrev pub or_else : Option Text → Text → Text
or_else o d = get_or o d

-- `fallback.failure ?? (failures.length > 0 ? failures.join("; ") : ...)`
abbrev pub fallback_message : Option Text → List Text → Text
fallback_message failure [] = or_else failure (text "no cache daemon shutdown path succeeded")
fallback_message failure (f ∷ failures) = or_else failure (join (text "; ") (f ∷ failures))

-- The direct stop of zccache, behind the failures and the calls so far.
unfoldable pub stop_zccache : System → Bool → List Text → Calls → Result Unit0 × Calls
unfolding run_shutdown fail_if_required text join
stop_zccache system fail_on_error failures calls =
    let run = run_shutdown system zccache_target in
    if exited_with run.0 0 then (ok tt, calls ++ run.1) else (
      fail_if_required fail_on_error failures (some (fallback_message run.0.failure failures)),
      calls ++ run.1,
    )

abbrev pub print_code : Option ℕ → Text
print_code none = text "null"
print_code (some code) = decimal code

-- What follows the run of `soldr cache shutdown`.
unfoldable pub after_soldr : System → Bool → ShutdownRunResult × Calls → Result Unit0 × Calls
unfolding stop_zccache fail_if_required looks_like_unknown_subcommand decimal text
after_soldr system fail_on_error (result, calls) =
    if exited_with result 0
    then (ok tt, calls)
    else if not result.ran
    then stop_zccache system fail_on_error (remember_failure [] result.failure) calls
    else if result.code == some 2 && looks_like_unknown_subcommand result.stderr
    then stop_zccache system fail_on_error [] calls
    else (
      fail_if_required fail_on_error [] (
          some (
            or_else result.failure
              (text "soldr cache shutdown exited " ++ print_code result.code))),
      calls,
    )

unfoldable pub shutdown_cache_daemons : System → ShutdownCacheDaemonsOptions → Result Unit0 × Calls
unfolding after_soldr stop_zccache run_shutdown text decimal
shutdown_cache_daemons system opts =
    if is_empty opts.soldr_path
    then stop_zccache system opts.fail_on_error [] []
    else after_soldr system opts.fail_on_error (run_shutdown system (soldr_target opts))
