-- ===== src/ShutdownCache/Laws.antt =====
-- src/lib/shutdown-cache.ts: when the direct stop of zccache is tried, and when the shutdown throws.
use setup_soldr.Base.{ℕ, ◌≡◌, refl, sym}
use setup_soldr.Base.{Bool, true, false, not, ◌&&◌, ◌||◌, Option, some}
use setup_soldr.Base.{List, [], ◌++◌, arith, if◌then◌else◌, ◌==◌}
use setup_soldr.Base.{nat_eq, list_eq, option_eq}
use setup_soldr.Base.{Result, ok, err}
use setup_soldr.Base.Text.{Text, text}
use setup_soldr.Base.Text.{is_empty}
use mathlib.Core.List.{append-nil}
use setup_soldr.ShutdownCache.{
  System, ShutdownRunResult, ShutdownCacheDaemonsOptions, Calls, Unit0, run_shutdown, soldr_target,
}
use setup_soldr.ShutdownCache.{
  zccache_target, exited_with, stop_zccache, after_soldr, fail_if_required, shutdown_cache_daemons,
}
use setup_soldr.ShutdownCache.{
  looks_like_unknown_subcommand, fallback_message, remember_failure, or_else, print_code,
}

abbrev pub is_ok : Result Unit0 → Bool
is_ok (ok value) = true
is_ok (err message) = false

-- The run of soldr does not speak for itself: it was not started, or does not know the command.
abbrev pub unanswered : ShutdownRunResult → Bool
unanswered result =
    not result.ran || result.code == some 2 && looks_like_unknown_subcommand result.stderr

module _ (system : System) (opts : ShutdownCacheDaemonsOptions) where
  abbrev pub soldr_run : ShutdownRunResult × Calls
  soldr_run = run_shutdown system (soldr_target opts)

  abbrev pub zccache_run : ShutdownRunResult × Calls
  zccache_run = run_shutdown system zccache_target

  abbrev pub falls_back : Bool
  falls_back = is_empty opts.soldr_path || unanswered soldr_run.0

  abbrev pub stopped : Bool
  stopped =
      not (is_empty opts.soldr_path) && exited_with soldr_run.0 0
      || falls_back && exited_with zccache_run.0 0

  abbrev pub expected_calls : Calls
  expected_calls =
      (if is_empty opts.soldr_path then [] else soldr_run.1)
      ++ (if falls_back then zccache_run.1 else [])

fail_if_required-is_ok :
    (fail : Bool) (failures : List Text) (message : Option Text)
    → is_ok (fail_if_required fail failures message) ≡ not fail
unfolding fail_if_required
fail_if_required-is_ok true failures message = refl
fail_if_required-is_ok false failures message = refl

abbrev Outcome : Type 0
Outcome = Result Unit0 × Calls

-- The outcome is a success exactly if the flag is set, and the calls are the given ones.
abbrev Answers : Outcome → Bool → Calls → Type 0
Answers outcome good calls = (is_ok outcome.0 ≡ good) × (outcome.1 ≡ calls)

stop-Answers :
    (fail stops : Bool) (failed : Result Unit0) (calls : Calls)
    → is_ok failed ≡ not fail
    → Answers
        (if◌then◌else◌ {A = Outcome} stops (ok tt, calls) (failed, calls))
        (not fail || stops)
        calls
stop-Answers true true failed calls h = (refl, refl)
stop-Answers false true failed calls h = (refl, refl)
stop-Answers true false failed calls h = (h, refl)
stop-Answers false false failed calls h = (h, refl)

stop_zccache-is_ok :
    (system : System) (fail : Bool) (failures : List Text) (calls : Calls)
    → Answers
        (stop_zccache system fail failures calls)
        (not fail || exited_with (run_shutdown system zccache_target).0 0)
        (calls ++ (run_shutdown system zccache_target).1)
unfolding stop_zccache
stop_zccache-is_ok system fail failures calls =
    stop-Answers fail (exited_with (run_shutdown system zccache_target).0 0) _ _ (
      fail_if_required-is_ok fail failures
        (some (fallback_message (run_shutdown system zccache_target).0.failure failures)))

after-Answers :
    (fail ran clean two unknown stops : Bool) (calls more : Calls) (first second : Outcome)
    (failed : Result Unit0)
    → (clean && two) ≡ false
    → Answers first (not fail || stops) (calls ++ more)
    → Answers second (not fail || stops) (calls ++ more)
    → is_ok failed ≡ not fail
    → Answers
        (if◌then◌else◌ {A = Outcome}
          (ran && clean)
          (ok tt, calls)
          (if◌then◌else◌ {A = Outcome}
            (not ran)
            first
            (if◌then◌else◌ {A = Outcome} (two && unknown) second (failed, calls))))
        (not fail || (ran && clean || (not ran || two && unknown) && stops))
        (calls ++ (if not ran || two && unknown then more else []))
after-Answers true false clean two unknown stops calls more first second failed h a b c = a
after-Answers false false clean two unknown stops calls more first second failed h a b c = a
after-Answers fail true true true unknown stops calls more first second failed h a b c = cc
after-Answers true true true false unknown stops calls more first second failed h a b c =
    (refl, sym (append-nil calls))
after-Answers false true true false unknown stops calls more first second failed h a b c =
    (refl, sym (append-nil calls))
after-Answers fail true false true true stops calls more first second failed h a b c = b
after-Answers true true false true false stops calls more first second failed h a b c =
    (c, sym (append-nil calls))
after-Answers false true false true false stops calls more first second failed h a b c =
    (c, sym (append-nil calls))
after-Answers true true false false unknown stops calls more first second failed h a b c =
    (c, sym (append-nil calls))
after-Answers false true false false unknown stops calls more first second failed h a b c =
    (c, sym (append-nil calls))

not_both : (code : Option ℕ) → (code == some 0 && code == some 2) ≡ false
not_both code = ground arith

after_soldr-is_ok :
    (system : System) (fail : Bool) (result : ShutdownRunResult) (calls : Calls)
    → Answers
        (after_soldr system fail (result, calls))
        (not fail
          || (exited_with result 0
              || unanswered result && exited_with (run_shutdown system zccache_target).0 0))
        (calls ++ (if unanswered result then (run_shutdown system zccache_target).1 else []))
unfolding after_soldr
after_soldr-is_ok system fail result calls =
    after-Answers fail result.ran (result.code == some 0) (result.code == some 2)
      (looks_like_unknown_subcommand result.stderr) _ calls _ _ _ _ (not_both result.code)
      (stop_zccache-is_ok system fail (remember_failure [] result.failure) calls)
      (stop_zccache-is_ok system fail [] calls)
      (fail_if_required-is_ok fail [] (
        some
          (or_else result.failure (text "soldr cache shutdown exited " ++ print_code result.code))))

-- The shutdown throws if and only if the caller asks for it and no daemon was stopped: neither
-- did `soldr cache shutdown` exit with 0, nor was zccache tried and exited with 0. zccache is tried
-- if and only if there is no path of soldr, soldr was not started, or it exited with 2 and an error text
-- that says the command is unknown; and no other command is ever started.
pub shutdown_cache_daemons_lem :
    (system : System) (opts : ShutdownCacheDaemonsOptions)
    → (is_ok (shutdown_cache_daemons system opts).0
        ≡ (not opts.fail_on_error || stopped system opts))
      × ((shutdown_cache_daemons system opts).1 ≡ expected_calls system opts)
unfolding shutdown_cache_daemons
shutdown_cache_daemons_lem system opts = go (is_empty opts.soldr_path)
  where
    go :
        (empty : Bool)
        → Answers
            (if◌then◌else◌ {A = Outcome} empty
              (stop_zccache system opts.fail_on_error [] [])
              (after_soldr system opts.fail_on_error (soldr_run system opts)))
            (not opts.fail_on_error
              || (not empty && exited_with (soldr_run system opts).0 0
                  || (empty || unanswered (soldr_run system opts).0)
                    && exited_with (zccache_run system opts).0 0))
            ((if empty then [] else (soldr_run system opts).1)
              ++ (if empty || unanswered (soldr_run system opts).0
                  then (zccache_run system opts).1
                  else []))
    go true = stop_zccache-is_ok system opts.fail_on_error [] []
    go false =
        after_soldr-is_ok system opts.fail_on_error (soldr_run system opts).0
          (soldr_run system opts).1
