-- ===== src/SavePolicy/Gate.antt =====
-- The two save gates of src/lib/save-policy.ts, with the module's set of layers that have already
-- logged a skip, the lines they log, and the uploads that the backend is asked for.
use setup_soldr.Base.{ℕ}
use setup_soldr.Base.{Bool, true, false, none, some}
use setup_soldr.Base.{List, [], ◌∷◌, ◌++◌, if◌then◌else◌}
use setup_soldr.Base.{nat_eq, list_eq, option_eq, includes}
use setup_soldr.Base.{Result, ok}
use setup_soldr.Base.Text.{Text, text}
use setup_soldr.Base.Env.{Env}
use setup_soldr.Base.Json.{Json}
use setup_soldr.SavePolicy.{SaveDecision, auto, current_save_decision}

-- A cache id, or the -1 with which the backend says that nothing was saved.
pub data CacheId : Type 0 where
  not_saved : CacheId
  saved_as : ℕ → CacheId

pub record Upload : Type 0 where
  pub paths : List Text
  pub key : Text

pub record Gate : Type 0 where
  pub logged_skips : List Text
  pub log : List Text
  pub uploads : List Upload

-- `if (!loggedSkips.has(layer)) { loggedSkips.add(layer); log(…); }`
unfoldable pub note_skip : Text → Text → Gate → Gate
note_skip layer reason g = if includes g.logged_skips layer then g else record g {
  logged_skips = layer ∷ g.logged_skips;
  log = g.log ++ ((layer ++ (text ": save skipped: " ++ reason)) ∷ []);
}

-- The tail that `allowCacheSave` and `allowVerdictSave` share.
unfoldable pub allow : SaveDecision → Text → Gate → Bool × Gate
unfolding note_skip
allow d layer g = if d.save then (true, g) else (false, note_skip layer d.reason g)

unfoldable pub upload :
    Bool × Gate → (List Text → Text → Result CacheId) → List Text → Text → Result CacheId × Gate
upload (allowed, g) backend paths key =
    if allowed
    then (
      backend paths key,
      record g { uploads = g.uploads ++ (record { paths = paths; key = key } ∷ []) },
    )
    else (ok not_saved, g)

module _ (read_json : Text → Result Json) (env : Env) where
  unfoldable pub allow_cache_save : Text → Gate → Bool × Gate
  unfolding allow
  allow_cache_save layer g = allow (current_save_decision read_json env none) layer g

  unfoldable pub allow_verdict_save : Gate → Bool × Gate
  unfolding allow
  allow_verdict_save g = allow (current_save_decision read_json env (some auto)) (text "verdict") g

  module _ (backend : List Text → Text → Result CacheId) where
    unfoldable pub gated_save_cache : Text → List Text → Text → Gate → Result CacheId × Gate
    unfolding upload allow_cache_save
    gated_save_cache layer paths key g = upload (allow_cache_save layer g) backend paths key

    unfoldable pub gated_verdict_save : List Text → Text → Gate → Result CacheId × Gate
    unfolding upload allow_verdict_save
    gated_verdict_save paths key g = upload (allow_verdict_save g) backend paths key

-- A run of the post step: the layers ask in turn.
unfoldable pub ask_all : (Text → Gate → Bool × Gate) → List Text → Gate → Gate
ask_all ask [] g = g
ask_all ask (layer ∷ layers) g = ask_all ask layers (ask layer g).1
