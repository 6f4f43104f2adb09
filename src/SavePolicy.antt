-- ===== src/SavePolicy.antt =====
-- src/lib/save-policy.ts: whether a layer may upload to the Actions cache.
pub mod Gate
pub mod Laws
mod Tests
use setup_soldr.Base.{Bool, true, false, not, ◌&&◌, Option, none, some}
use setup_soldr.Base.{List, [], ◌∷◌, ◌++◌, if◌then◌else◌, ◌==◌}
use setup_soldr.Base.{nat_eq, list_eq, option_eq, includes}
use setup_soldr.Base.{get_or, Result, ok, err}
use setup_soldr.Base.Text.{Text, text, trim, to_lower, or_text}
use setup_soldr.Base.Text.{is_empty}
use setup_soldr.Base.Env.{Env, env_get}
use setup_soldr.Base.Json.{Json, prop}
use setup_soldr.LocalProfile.{is_local_runner}

-- `SaveCacheMode`: "auto", "true" and "false".
pub data SaveCacheMode : Type 0 where
  auto always never : SaveCacheMode

pub record SaveDecision : Type 0 where
  pub save : Bool
  pub mode : SaveCacheMode
  pub reason : Text

pub record RefScope : Type 0 where
  pub ref : Option Text
  pub default_branch : Option Text

abbrev pub yes_words : List Text
yes_words = text "1" ∷ text "true" ∷ text "yes" ∷ text "on" ∷ []

abbrev pub no_words : List Text
no_words = text "0" ∷ text "false" ∷ text "no" ∷ text "off" ∷ []

unfoldable pub parse_save_cache_mode : Option Text → SaveCacheMode → Result SaveCacheMode
unfolding text
parse_save_cache_mode raw default_mode =
    let value = to_lower (trim (get_or raw [])) in
    if is_empty value
    then ok default_mode
    else if value == text "auto"
    then ok auto
    else if includes yes_words value
    then ok always
    else if includes no_words value
    then ok never
    else err (
        text "save-cache must be one of auto, true, false (got '"
        ++ (get_or raw (text "undefined") ++ text "')"))

abbrev pub mode_text : SaveCacheMode → Text
mode_text auto = text "auto"
mode_text always = text "true"
mode_text never = text "false"

abbrev pub is_auto : SaveCacheMode → Bool
is_auto auto = true
is_auto _ = false

abbrev pub is_always : SaveCacheMode → Bool
is_always always = true
is_always _ = false

abbrev pub is_never : SaveCacheMode → Bool
is_never never = true
is_never _ = false

-- `ref && defaultBranch && ref !== "refs/heads/" + defaultBranch`: both are set and not empty.
unfoldable pub is_foreign_ref : RefScope → Bool
is_foreign_ref scope =
    let ref = get_or scope.ref [] in
    let branch = get_or scope.default_branch [] in
    not (is_empty ref) && (not (is_empty branch) && not (ref == text "refs/heads/" ++ branch))

decision : SaveCacheMode → Bool → Text → SaveDecision
decision mode save reason = record { save = save; mode = mode; reason = reason }

unfoldable pub decide_cache_save :
    SaveCacheMode → Option Text → Bool → SaveCacheMode → RefScope → SaveDecision
unfolding is_foreign_ref decision
decide_cache_save mode event_name local_runner remote_mode ref_scope =
    let event = trim (get_or event_name []) in
    if is_never mode
    then decision mode false (text "save-cache=false")
    else if not local_runner && not (is_auto remote_mode)
    then decision mode (is_always remote_mode) (text "save-cache-remote=" ++ mode_text remote_mode)
    else if is_always mode
    then decision mode true (text "save-cache=true")
    else if local_runner
    then decision mode true (text "local runner (act): no ref scoping (save-cache=auto)")
    else if event == text "pull_request"
    then decision mode false (text "pull_request event (save-cache=auto)")
    else if is_foreign_ref ref_scope
    then decision mode false (
        text "ref "
        ++ (get_or ref_scope.ref []
            ++ (text " is not the default branch "
                ++ (get_or ref_scope.default_branch [] ++ text " (save-cache=auto)"))))
    else decision mode true (or_text event (text "unknown") ++ text " event (save-cache=auto)")

-- `repository.default_branch` of the payload, when it is a text with something in it.
branch_of_payload : Json → Option Text
branch_of_payload payload =
    elim (prop (prop (some payload) (text "repository")) (text "default_branch")) [
      | some (Json.str (c ∷ s)) ↦ some (c ∷ s)
      | _ ↦ none
    ]

-- A mode that does not parse counts as `auto`.
abbrev mode_or_auto : Result SaveCacheMode → SaveCacheMode
mode_or_auto (ok mode) = mode
mode_or_auto (err e) = auto

-- `read_json` is `JSON.parse(fs.readFileSync(path))`, which may throw.
module _ (read_json : Text → Result Json) where
  unfoldable pub default_branch_from_event : Option Text → Option Text
  unfolding branch_of_payload
  default_branch_from_event none = none
  default_branch_from_event (some []) = none
  default_branch_from_event (some (c ∷ s)) = elim (read_json (c ∷ s)) [
    | ok payload ↦ branch_of_payload payload
    | err e ↦ none
  ]

  unfoldable pub decide_in : Env → SaveCacheMode → SaveCacheMode → SaveDecision
  unfolding default_branch_from_event decide_cache_save
  decide_in env mode remote_mode =
      decide_cache_save mode (env_get env (text "GITHUB_EVENT_NAME")) (is_local_runner env)
        remote_mode
        (record {
          ref = env_get env (text "GITHUB_REF");
          default_branch = default_branch_from_event (env_get env (text "GITHUB_EVENT_PATH"));
        })

  unfoldable pub current_save_decision : Env → Option SaveCacheMode → SaveDecision
  unfolding decision
  current_save_decision env mode_override =
      let mode =
        get_or mode_override
          (mode_or_auto (parse_save_cache_mode (env_get env (text "INPUT_SAVE-CACHE")) auto)) in
      elim (parse_save_cache_mode (env_get env (text "INPUT_SAVE-CACHE-REMOTE")) auto) [
        | err e ↦ decision mode false (text "invalid save-cache-remote")
        | ok remote_mode ↦ decide_in env mode remote_mode
      ]
