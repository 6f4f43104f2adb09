-- ===== src/SavePolicy/Tests.antt =====
-- Decisions and gates of src/lib/save-policy.ts at concrete inputs.
use setup_soldr.Base.{◌≡◌, refl}
use setup_soldr.Base.{◌↔◌, true, false, some}
use setup_soldr.Base.{List, [], ◌∷◌}
use setup_soldr.Base.{nat_eq, list_eq, option_eq}
use setup_soldr.Base.{Result, ok, err}
use setup_soldr.Base.Text.{Text, text}
use setup_soldr.Base.Env.{Env}
use setup_soldr.Base.Json.{Json}
use setup_soldr.SavePolicy.{auto, RefScope, decide_cache_save}
use setup_soldr.SavePolicy.Gate.{CacheId, saved_as, Gate}
use setup_soldr.SavePolicy.Laws.{MayUpload, decide_cache_save_iff, LogsOnce}

abbrev on_main : RefScope
on_main = record { ref = some (text "refs/heads/main"); default_branch = some (text "main") }

abbrev pull_env : Env
pull_env = (text "GITHUB_EVENT_NAME", text "pull_request") ∷ []

abbrev no_json : Text → Result Json
no_json path = err (text "no such file")

abbrev backend : List Text → Text → Result CacheId
backend paths key = ok (saved_as 7)

abbrev start : Gate
start = record { logged_skips = []; log = []; uploads = [] }

decide_cache_save_iff_example :
    ((decide_cache_save auto (some (text "push")) false auto on_main).save ≡ true)
    ↔ MayUpload auto (some (text "push")) false auto on_main
decide_cache_save_iff_example = decide_cache_save_iff auto (some (text "push")) false auto on_main

start-LogsOnce : LogsOnce start
start-LogsOnce = record { distinct = tt; one_line = refl }
