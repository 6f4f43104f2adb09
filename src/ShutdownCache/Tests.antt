-- ===== src/ShutdownCache/Tests.antt =====
-- An old soldr that does not know the command, and a zccache that stops.
use setup_soldr.Base.{ℕ, ◌≡◌, refl}
use setup_soldr.Base.{true, false, ◌||◌, some}
use setup_soldr.Base.{[], ◌∷◌, if◌then◌else◌, ◌==◌}
use setup_soldr.Base.{nat_eq, list_eq, option_eq}
use setup_soldr.Base.{Result, ok}
use setup_soldr.Base.Text.{Text, text}
use setup_soldr.ShutdownCache.{
  System, ShutdownCacheDaemonsOptions, shutdown_cache_daemons, looks_like_unknown_subcommand,
  run_shutdown, is_absolute,
}
use setup_soldr.ShutdownCache.Laws.{is_ok, stopped, expected_calls, shutdown_cache_daemons_lem}

abbrev answers : Text → Result (ℕ × Text)
answers cmd =
    if cmd == text "/bin/soldr"
    then ok (2, text "error: Unrecognized subcommand 'cache'")
    else ok (0, [])

abbrev old_soldr : System
old_soldr = record { which = λ cmd. true; exec = λ cmd args. answers cmd }

abbrev options : ShutdownCacheDaemonsOptions
options = record {
  soldr_path = text "/bin/soldr";
  logs_archive_dir = [];
  shutdown_timeout_seconds = some 30;
  fail_on_error = true;
}

falls_back_to_zccache : shutdown_cache_daemons old_soldr options ≡ (
  ok tt,
  (
    text "/bin/soldr",
    text "cache" ∷ text "shutdown" ∷ text "--shutdown-timeout-seconds" ∷ text "30" ∷ [],
  )
      ∷ (text "zccache", text "stop" ∷ [])
      ∷ [],
)
unfolding shutdown_cache_daemons run_shutdown is_absolute looks_like_unknown_subcommand text nat_eq
    list_eq option_eq
falls_back_to_zccache = refl

shutdown_cache_daemons_lem_example :
    (is_ok (shutdown_cache_daemons old_soldr options).0 ≡ (false || stopped old_soldr options))
    × ((shutdown_cache_daemons old_soldr options).1 ≡ expected_calls old_soldr options)
shutdown_cache_daemons_lem_example = shutdown_cache_daemons_lem old_soldr options
