-- ===== src/SavePolicy/Laws.antt =====
-- When the save policy allows an upload, and what the gates leave behind.
use setup_soldr.Base.Env.{env_set, env_get-set_other}
use setup_soldr.Base.{◌≡◌, refl}
use setup_soldr.Base.{◌≢◌, ◌↔◌, ◌⊎◌, Bool, true, false, Option, none, some}
use setup_soldr.Base.{List, [], ◌∷◌, ◌++◌, arith, ◌==◌}
use setup_soldr.Base.{nat_eq, list_eq, option_eq, includes, length}
use setup_soldr.Base.{get_or, Result, ok}
use setup_soldr.Base.{length-append}
use setup_soldr.Base.Text.{Text, text, trim}
use setup_soldr.Base.Env.{Env, env_get}
use setup_soldr.Base.Json.{Json}
use setup_soldr.LocalProfile.{is_local_runner}
use setup_soldr.SavePolicy.{
  decide_in, SaveCacheMode, auto, always, never, RefScope, SaveDecision, decide_cache_save,
  is_foreign_ref, decide_in, current_save_decision, parse_save_cache_mode, mode_or_auto,
}
use setup_soldr.SavePolicy.Gate.{
  CacheId, not_saved, Gate, note_skip, allow, allow_cache_save, allow_verdict_save,
  gated_save_cache, ask_all,
}

abbrev pub NodupText : List Text → Type 0
NodupText [] = Unit
NodupText (t ∷ ts) = (includes ts t ≡ false) × NodupText ts

-- Who may write to the shared cache, said without the order in which the code asks.
abbrev pub RemoteDecides : Bool → SaveCacheMode → Type 0
RemoteDecides local remote = (local ≡ false) × (remote ≢ auto)

abbrev pub IsTrustedRun : Option Text → Bool → RefScope → Type 0
IsTrustedRun event local scope =
    (local ≡ true)
    ⊎ ((trim (get_or event []) ≢ text "pull_request") × (is_foreign_ref scope ≡ false))

abbrev pub MayUpload : SaveCacheMode → Option Text → Bool → SaveCacheMode → RefScope → Type 0
MayUpload mode event local remote scope =
    (mode ≢ never)
    × (RemoteDecides local remote → remote ≡ always)
    × ((mode ≡ always) ⊎ ((remote ≡ always) × (local ≡ false)) ⊎ IsTrustedRun event local scope)

-- The decision is to save exactly when the mode is not `false`, a remote mode that applies (a run
-- that is not local, with a remote mode other than `auto`) says `true`, and one of these holds:
-- the mode is `true`, the applicable remote mode is `true`, the runner is local, or the event is
-- no pull request and the ref is not known to differ from the default branch.
pub decide_cache_save_iff :
    (mode : SaveCacheMode) (event : Option Text) (local : Bool) (remote : SaveCacheMode)
    (scope : RefScope)
    → ((decide_cache_save mode event local remote scope).save ≡ true)
      ↔ MayUpload mode event local remote scope
unfolding decide_cache_save
decide_cache_save_iff auto event true auto scope = ground arith
decide_cache_save_iff auto event false auto scope = ground arith
decide_cache_save_iff mode event local remote scope = ground arith

-- On a GitHub runner the event `pull_request` uploads nothing unless an input says so: with
-- neither `save-cache` nor `save-cache-remote` at `true`, `gatedSaveCache` returns -1, asks the
-- backend for nothing and leaves the uploads of the run as they were.
pub gated_save_cache_pull_request :
    (read_json : Text → Result Json) (env : Env) (backend : List Text → Text → Result CacheId)
    (layer : Text) (paths : List Text) (key : Text) (g : Gate)
    → is_local_runner env ≡ false
    → trim (get_or (env_get env (text "GITHUB_EVENT_NAME")) []) ≡ text "pull_request"
    → mode_or_auto (parse_save_cache_mode (env_get env (text "INPUT_SAVE-CACHE")) auto) ≢ always
    → parse_save_cache_mode (env_get env (text "INPUT_SAVE-CACHE-REMOTE")) auto ≢ ok always
    → ((gated_save_cache read_json env backend layer paths key g).0 ≡ ok not_saved)
      × ((gated_save_cache read_json env backend layer paths key g).1.uploads ≡ g.uploads)
unfolding gated_save_cache current_save_decision decide_in
gated_save_cache_pull_request read_json env backend layer paths key g here event mode remote =
    ground arith

-- The other variables that the decision reads are not `INPUT_SAVE-CACHE`.
abbrev save_cache : Text
save_cache = text "INPUT_SAVE-CACHE"

other_names :
    (save_cache == text "INPUT_SAVE-CACHE-REMOTE" ≡ false)
    × (save_cache == text "GITHUB_EVENT_NAME" ≡ false)
    × (save_cache == text "GITHUB_REF" ≡ false)
    × (save_cache == text "GITHUB_EVENT_PATH" ≡ false)
    × (save_cache == text "ACT" ≡ false)
unfolding text list_eq nat_eq
other_names = (refl, refl, refl, refl, refl)

is_local_runner-env_set :
    (env : Env) (value : Text)
    → is_local_runner (env_set env save_cache value) ≡ is_local_runner env
unfolding is_local_runner
is_local_runner-env_set env value =
    rw (env_get-set_other env save_cache (text "ACT") value other_names.4)

decide_in-env_set :
    (read_json : Text → Result Json) (env : Env) (value : Text) (mode remote : SaveCacheMode)
    → decide_in read_json (env_set env save_cache value) mode remote
      ≡ decide_in read_json env mode remote
unfolding decide_in
decide_in-env_set read_json env value mode remote = cc (
  env_get-set_other env save_cache (text "GITHUB_EVENT_NAME") value other_names.1,
  env_get-set_other env save_cache (text "GITHUB_REF") value other_names.2,
  env_get-set_other env save_cache (text "GITHUB_EVENT_PATH") value other_names.3,
  is_local_runner-env_set env value,
)

current_save_decision-env_set :
    (read_json : Text → Result Json) (env : Env) (value : Text)
    → current_save_decision read_json (env_set env save_cache value) (some auto)
      ≡ current_save_decision read_json env (some auto)
unfolding current_save_decision
current_save_decision-env_set read_json env value = grind (
  arith,
  env_get-set_other env save_cache (text "INPUT_SAVE-CACHE-REMOTE") value other_names.0,
  decide_in-env_set,
)

-- The verdict ledger's gate does not read `save-cache`: whatever the input is set to, its answer
-- and what it logs stay the same.
pub allow_verdict_save-env_set :
    (read_json : Text → Result Json) (env : Env) (value : Text) (g : Gate)
    → allow_verdict_save read_json (env_set env (text "INPUT_SAVE-CACHE") value) g
      ≡ allow_verdict_save read_json env g
unfolding allow_verdict_save
allow_verdict_save-env_set read_json env value g =
    rw (current_save_decision-env_set read_json env value)

-- Every layer that was refused is on record, at most once, and each has one line in the log.
pub record LogsOnce (g : Gate) : Type 0 where
  pub distinct : NodupText g.logged_skips
  pub one_line : length g.log ≡ length g.logged_skips

pub note_skip-LogsOnce :
    (layer reason : Text) (g : Gate) → LogsOnce g → LogsOnce (note_skip layer reason g)
unfolding note_skip
note_skip-LogsOnce layer reason g v =
    ground (arith, length-append g.log ((layer ++ (text ": save skipped: " ++ reason)) ∷ []))

allow-LogsOnce :
    (d : SaveDecision) (layer : Text) (g : Gate) → LogsOnce g → LogsOnce (allow d layer g).1
unfolding allow
allow-LogsOnce d layer g v = ground (arith, note_skip-LogsOnce layer d.reason g v)

-- However often the layers of a run ask the gate, each refused layer is recorded once and the log
-- has exactly one line for each of them.
pub ask_all-LogsOnce :
    (read_json : Text → Result Json) (env : Env) (layers : List Text) (g : Gate)
    → LogsOnce g
    → LogsOnce (ask_all (allow_cache_save read_json env) layers g)
unfolding ask_all allow_cache_save
ask_all-LogsOnce read_json env [] g v = v
ask_all-LogsOnce read_json env (layer ∷ layers) g v =
    ask_all-LogsOnce read_json env layers (allow_cache_save read_json env layer g).1
      (allow-LogsOnce (current_save_decision read_json env none) layer g v)
