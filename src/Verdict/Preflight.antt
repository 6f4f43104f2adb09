-- ===== src/Verdict/Preflight.antt =====
-- `verdictPreflight` of src/lib/verdict-setup.ts. The effects are the saved state, the installation
-- and the reset of the log of invocations; lines of the job's log are left out.
pub mod Laws
use setup_soldr.Base.{◌+◌, ◌-◌}
use setup_soldr.Base.{Bool, true, false, ◌&&◌, ◌||◌, Option, none, some}
use setup_soldr.Base.{List, [], ◌∷◌, ◌++◌, if◌then◌else◌, ◌==◌}
use setup_soldr.Base.{nat_eq, list_eq, option_eq, includes}
use setup_soldr.Base.{get_or, is_some, Result, ok, err}
use setup_soldr.Base.Text.{Text, text, trim, to_lower}
use setup_soldr.Base.Env.{Env}
use setup_soldr.Base.Json.{Json}
use setup_soldr.Verdict.{
  VerdictPaths, SoldrRunner, verdict_paths, manifest_prefix, Prediction, predict, restore_verdicts,
  is_lazy,
}
use setup_soldr.Verdict.Scope.{manifest_scope}

pub data VerdictsMode : Type 0 where
  auto restore off : VerdictsMode

unfoldable pub parse_verdicts_input : Option Text → VerdictsMode
unfolding trim to_lower text
parse_verdicts_input raw =
    let value = to_lower (trim (get_or raw [])) in
    if includes (text "off" ∷ text "false" ∷ text "0" ∷ text "no" ∷ []) value
    then off
    else if value == text "restore"
    then restore
    else auto

abbrev pub is_auto : VerdictsMode → Bool
is_auto auto = true
is_auto _ = false

abbrev pub mode_text : VerdictsMode → Text
mode_text auto = text "auto"
mode_text restore = text "restore"
mode_text off = text "off"

pub record VerdictPreflight : Type 0 where
  pub lazy : Bool
  pub paths : Option VerdictPaths
  pub mode : VerdictsMode

pub record PreflightOptions : Type 0 where
  pub mode : VerdictsMode
  pub enabled : Bool
  pub shims_enabled : Bool
  pub workspace : Text
  pub staging : Text

pub data Effect : Type 0 where
  save_mode : VerdictsMode → Effect
  install_soldr : Effect
  reset_seen : VerdictPaths → Effect
  save_paths : VerdictPaths → Effect
  save_lazy : Bool → Effect

abbrev pub Outcome : Type 0
Outcome = Result VerdictPreflight × List Effect

abbrev pub no_preflight : VerdictsMode → VerdictPreflight
no_preflight mode = record { lazy = false; paths = none; mode = mode }

-- An effect before the rest.
abbrev pub after : Effect → Outcome → Outcome
after e (r, es) = (r, e ∷ es)

module _ (parse_json : Text → Option Json) (path_join : Text → Text → Text)
    (sha256_hex : Text → Text) (restore_cache : List Text → Text → List Text → Result (Option Text))
    (staging_exists : Bool) (installed : Result (Unit {0})) (run : SoldrRunner)
    (o : PreflightOptions) where
  -- `(p, k) => cache.restoreCache(p, k)`
  abbrev pub restore_exactly : List Text → Text → Result (Option Text)
  restore_exactly files key = restore_cache files key []

  -- The end, for what soldr predicts.
  unfoldable pub judge : VerdictsMode → VerdictPaths → Option Prediction → Outcome
  unfolding restore_verdicts is_lazy
  judge mode paths none = (ok (record { lazy = false; paths = some paths; mode = mode }), [])
  judge mode paths (some p) =
      let restored = restore_verdicts path_join restore_exactly p.keys paths in
      let lazy = is_auto o.mode && o.shims_enabled && is_lazy (some p) restored in
      (ok (record { lazy = lazy; paths = some paths; mode = mode }), save_lazy lazy ∷ [])

  unfoldable pub ask_soldr : VerdictsMode → Option VerdictPaths → Outcome
  unfolding judge predict
  ask_soldr mode none = (ok (no_preflight off), [])
  ask_soldr mode (some paths) =
      after (reset_seen paths)
        (after (save_paths paths) (judge mode paths (predict parse_json run o.staging o.workspace)))

  unfoldable pub with_soldr : VerdictsMode → Result (Unit {0}) → Outcome
  unfolding ask_soldr verdict_paths
  with_soldr mode (err e) = (err e, [])
  with_soldr mode (ok done) = ask_soldr mode (verdict_paths parse_json run o.workspace)

  -- A manifest was restored, and is there.
  abbrev pub has_manifest : Result (Option Text) → Bool
  has_manifest (ok (some (c ∷ key))) = staging_exists
  has_manifest _ = false

  unfoldable pub from_manifest : VerdictsMode → Bool → Outcome
  unfolding with_soldr
  from_manifest mode false = (ok (no_preflight mode), [])
  from_manifest mode true = after install_soldr (with_soldr mode installed)

  abbrev pub restored_manifest : Env → Result (Option Text)
  restored_manifest env =
      let prefix = manifest_prefix ++ (manifest_scope sha256_hex env ++ text "-") in
      restore_cache (o.staging ∷ []) prefix (prefix ∷ [])

  abbrev pub effective_mode : VerdictsMode
  effective_mode = if o.enabled then o.mode else off

  unfoldable pub preflight_in : VerdictsMode → Env → Outcome
  unfolding from_manifest manifest_scope text
  preflight_in off env = (ok (no_preflight off), [])
  preflight_in mode env = from_manifest mode (has_manifest (restored_manifest env))

  unfoldable pub verdict_preflight : Env → Outcome
  unfolding preflight_in
  verdict_preflight env = after (save_mode effective_mode) (preflight_in effective_mode env)

abbrev pub is_off : VerdictsMode → Bool
is_off off = true
is_off _ = false

-- `verdictAfterInstall`, which starts the log of a job whose preflight found no ledger.
module _ (parse_json : Text → Option Json) (run : SoldrRunner) (workspace : Text) where
  abbrev pub start_log : Option VerdictPaths → List Effect
  start_log none = []
  start_log (some paths) = reset_seen paths ∷ save_paths paths ∷ []

  unfoldable pub verdict_after_install : VerdictPreflight → List Effect
  unfolding verdict_paths
  verdict_after_install preflight =
      if is_some preflight.paths || is_off preflight.mode
      then []
      else start_log (verdict_paths parse_json run workspace)
