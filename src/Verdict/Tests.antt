-- ===== src/Verdict/Tests.antt =====
-- A lazy setup, a manifest's scope and a plan of the janitor at concrete inputs. Each text that starts
-- an object parses to the same object.
use setup_soldr.Base.{ℕ, ◌≡◌, refl}
use setup_soldr.Base.{true, false, Option, none, some}
use setup_soldr.Base.{List, [], ◌∷◌, ◌++◌}
use setup_soldr.Base.{nat_eq, list_eq, option_eq}
use setup_soldr.Base.{Result, ok}
use setup_soldr.Base.{err}
use setup_soldr.Base.Text.{Text, text}
use setup_soldr.Base.Env.{Env}
use setup_soldr.Base.Json.{Json, Fields}
use setup_soldr.Base.{◌↔◌, inl, Bool}
use setup_soldr.Base.Env.{env_set}
use setup_soldr.Base.Split.{split}
use setup_soldr.Verdict.{VerdictPaths, SoldrRunner, parse_rekey, rows_of, predict, record_path}
use setup_soldr.Verdict.Scope.{manifest_scope, manifest_scope-env_set}
use setup_soldr.Verdict.Preflight.{auto, VerdictPreflight, PreflightOptions, verdict_preflight}
use setup_soldr.SavePolicy.Gate.{Gate, CacheId, saved_as}
use setup_soldr.Verdict.Publish.{PostFiles, step_uploads}
use setup_soldr.Verdict.Post.{verdict_post, Runs, verdict_post_uploads}
use setup_soldr.Verdict.Preflight.Laws.{AllReplay, verdict_preflight_lazy}
use setup_soldr.Verdict.Janitor.{CacheEntry, is_verdict, janitor_plan}
use setup_soldr.Base.{filter}
use setup_soldr.Verdict.Janitor.Tails.{is_of_scope, IsTail}
use setup_soldr.Verdict.Janitor.Bounds.{janitor_plan_lem}

abbrev fields : Fields
fields = Fields.field (text "root") (Json.str (text "r")) (
    Fields.field (text "records") (Json.str (text "d")) (
      Fields.field (text "spool") (Json.str (text "s")) (
        Fields.field (text "seen") (Json.str (text "e"))
          (Fields.field (text "key") (Json.str (text "k1")) Fields.end))))

abbrev parse : Text → Option Json
parse s = some (Json.obj fields)

abbrev join_path : Text → Text → Text
join_path a b = a ++ (text "/" ++ b)

abbrev paths : VerdictPaths
paths = record { root = text "r"; records = text "d"; spool = text "s"; seen = text "e" }

abbrev options : PreflightOptions
options = record {
  mode = auto;
  enabled = true;
  shims_enabled = true;
  workspace = text "w";
  staging = text "seen.jsonl";
}

abbrev soldr : SoldrRunner
soldr args cwd = ok (record { code = 0; stdout = text "{}" })

abbrev hit : List Text → Text → List Text → Result (Option Text)
hit files key restore_keys = ok (some key)

abbrev outcome : VerdictPreflight
outcome = record { lazy = true; paths = some paths; mode = auto }

goes_lazy :
    (verdict_preflight parse join_path (λ s. s) hit true (ok tt) soldr options []).0 ≡ ok outcome
unfolding verdict_preflight predict parse_rekey rows_of split record_path text nat_eq list_eq
goes_lazy = refl

verdict_preflight_lazy_example :
    (options.enabled ≡ true)
    × ((options.mode ≡ auto)
        × ((options.shims_enabled ≡ true)
            × AllReplay parse join_path (λ s. s) hit true (ok tt) soldr options outcome))
verdict_preflight_lazy_example =
    verdict_preflight_lazy parse join_path (λ s. s) hit true (ok tt) soldr options [] outcome
      goes_lazy refl

abbrev env : Env
env = (text "GITHUB_JOB", text "build") ∷ (text "INPUT_TOKEN", text "old") ∷ []

manifest_scope-env_set_example :
    manifest_scope (λ s. s) (env_set env (text "INPUT_TOKEN") (text "new"))
    ≡ manifest_scope (λ s. s) env
unfolding text
manifest_scope-env_set_example =
    manifest_scope-env_set (λ s. s) (text "INPUT_TOKEN") (text "TOKEN") (text "INPUT_")
      (text "TOKEN") [] (text "new") refl (inl refl) refl env

abbrev entry : ℕ → Text → CacheEntry
entry id key = record {
  id = id;
  key = key;
  last_accessed_at = none;
  created_at = some (text "2025");
}

abbrev entries : List CacheEntry
entries =
    entry 1 (text "soldr-verdict-manifest-v1-ab-1-1")
    ∷ entry 2 (text "soldr-verdict-manifest-v1-ab-2-1")
    ∷ entry 3 (text "soldr-verdict-manifest-v1-ab-3-1")
    ∷ entry 4 (text "soldr-verdict-v1-clippy-ab-0")
    ∷ []

janitor_plan_lem_example :
    IsTail
      (λ s. some 7)
      256
      (filter is_verdict entries)
      (filter is_verdict (janitor_plan (λ s. some 7) entries))
    × ((scope : Text)
        → IsTail
            (λ s. some 7)
            2
            (filter (is_of_scope scope) entries)
            (filter (is_of_scope scope) (janitor_plan (λ s. some 7) entries)))
janitor_plan_lem_example = janitor_plan_lem (λ s. some 7) entries (refl, (refl, (refl, (refl, tt))))

abbrev post_files : PostFiles
post_files = record {
  spool = ok (text "soldr-verdict-v1-clippy-ab-0.json" ∷ text "note.txt" ∷ []);
  record_exists = λ path. true;
  seen_size = some 12;
  copied = ok tt;
}

abbrev no_json : Text → Result Json
no_json s = err (text "no event")

abbrev backend : List Text → Text → Result CacheId
backend files key = ok (saved_as 3)

abbrev gate : Gate
gate = record { logged_skips = []; log = []; uploads = [] }

abbrev read_paths : Text → Result VerdictPaths
read_paths s = ok paths

abbrev post : Bool × Gate
post =
    verdict_post join_path (λ s. s) no_json read_paths backend env post_files (text "s")
      (text "auto") (text "{}") gate

abbrev PostRuns : VerdictPaths → Type 0
PostRuns =
    Runs join_path (λ s. s) no_json read_paths backend env post_files (text "s") (text "auto")
      (text "{}")

verdict_post_uploads_example :
    ((post.0 ≡ true) ↔ ((paths : VerdictPaths) × PostRuns paths))
    × (post.0 ≡ false → post.1.uploads ≡ gate.uploads)
    × ((paths : VerdictPaths)
        → PostRuns paths
        → post.1.uploads
          ≡ gate.uploads
            ++ step_uploads join_path (λ s. s) no_json backend env post_files paths (text "s"))
verdict_post_uploads_example =
    verdict_post_uploads join_path (λ s. s) no_json read_paths backend env post_files (text "s")
      (text "auto") (text "{}") gate
