-- ===== src/Verdict.antt =====
-- src/lib/verdict-cache.ts: what a job's manifest predicts, and whether the job is lazy. The parse of
-- JSON, the runs of soldr, the file system and the cache are parameters; a thrown error is an `err`.
pub mod Rows
pub mod Lazy
pub mod Scope
pub mod Preflight
pub mod Post
pub mod Publish
pub mod Janitor
mod Tests
use setup_soldr.Base.{ℕ, ◌+◌, ◌-◌}
use setup_soldr.Base.{Bool, true, false, not, ◌&&◌, ◌||◌, Option, none, some}
use setup_soldr.Base.{List, [], ◌∷◌, ◌++◌, if◌then◌else◌, ltb, ◌==◌}
use setup_soldr.Base.{nat_eq, list_eq, option_eq, includes, length}
use setup_soldr.Base.{filter, all, Result, ok, err}
use setup_soldr.Base.{◌>>=◌, ◌>>◌}
use setup_soldr.Base.Text.{Text, text, trim, starts_with, or_text}
use setup_soldr.Base.Text.{is_empty}
use setup_soldr.Base.Json.{Json, prop}
use setup_soldr.Base.Split.{split, last_part, unique_after}

abbrev pub verdict_prefix : Text
verdict_prefix = text "soldr-verdict-v1-"

abbrev pub manifest_prefix : Text
manifest_prefix = text "soldr-verdict-manifest-v1-"

pub record VerdictPaths : Type 0 where
  pub root : Text
  pub records : Text
  pub spool : Text
  pub seen : Text

-- A property that has to be a string that is not empty.
abbrev pub text_field : Option Json → Text
text_field (some (Json.str s)) = s
text_field _ = []

-- `{ code, stdout }` of a run of soldr.
pub record RunOutput : Type 0 where
  pub code : ℕ
  pub stdout : Text

abbrev pub SoldrRunner : Type 0
SoldrRunner = List Text → Text → Result RunOutput

-- `catch { return null; }`
abbrev pub or_null {ℓ} : {A : Type ℓ} → Result (Option A) → Option A
or_null (ok x) = x
or_null (err e) = none

-- The four paths, unless one is missing.
unfoldable pub paths_of : Json → Option VerdictPaths
unfolding prop text
paths_of parsed =
    let root = text_field (prop (some parsed) (text "root")) in
    let records = text_field (prop (some parsed) (text "records")) in
    let spool = text_field (prop (some parsed) (text "spool")) in
    let seen = text_field (prop (some parsed) (text "seen")) in
    if is_empty root || is_empty records || is_empty spool || is_empty seen
    then none
    else some (record { root = root; records = records; spool = spool; seen = seen })

module _ (parse_json : Text → Option Json) where
  unfoldable pub paths_of_output : RunOutput → Option VerdictPaths
  unfolding paths_of split trim
  paths_of_output out =
      if out.code == 0
      then elim (parse_json (last_part [] (split 10 (trim out.stdout)))) [
        | some parsed ↦ paths_of parsed
        | none ↦ none
      ]
      else none

  unfoldable pub verdict_paths : SoldrRunner → Text → Option VerdictPaths
  unfolding paths_of_output text
  verdict_paths run cwd = or_null (
      run (text "verdict" ∷ text "paths" ∷ text "--json" ∷ []) cwd >>= λ out.
      ok (paths_of_output out))

unfoldable pub manifest_key : Text → Text → Text → Text
unfolding text
manifest_key scope run_id attempt =
    manifest_prefix
    ++ (scope
        ++ (text "-" ++ (or_text run_id (text "0") ++ (text "-" ++ or_text attempt (text "1")))))

pub record Prediction : Type 0 where
  pub keys : List Text
  pub unkeyable : ℕ
  pub ungated : Bool

-- A key that is null, missing or empty is the empty text.
pub record RekeyRow : Type 0 where
  pub key : Text
  pub is_ungated : Bool

-- `Boolean(value)` of a property.
abbrev pub truthy_json : Option Json → Bool
truthy_json none = false
truthy_json (some Json.null) = false
truthy_json (some (Json.bool b)) = b
truthy_json (some (Json.num n)) = not (n == 0)
truthy_json (some (Json.str s)) = not (is_empty s)
truthy_json (some (Json.arr items)) = true
truthy_json (some (Json.obj fields)) = true

abbrev pub row_of : Json → RekeyRow
row_of row = record {
  key = text_field (prop (some row) (text "key"));
  is_ungated = truthy_json (prop (some row) (text "ungated"));
}

-- The counts and keys with one more row.
unfoldable pub add_row : RekeyRow → Prediction → Prediction
add_row row p =
    if row.is_ungated
    then record p { ungated = true }
    else if is_empty row.key
    then record p { unkeyable = p.unkeyable + 1 }
    else record p { keys = p.keys ++ (row.key ∷ []) }

unfoldable pub add_rows : List RekeyRow → Prediction → Prediction
unfolding add_row
add_rows [] p = p
add_rows (row ∷ rows) p = add_rows rows (add_row row p)

abbrev pub no_prediction : Prediction
no_prediction = record { keys = []; unkeyable = 0; ungated = false }

abbrev pub cons_row : Option Json → List RekeyRow → List RekeyRow
cons_row (some row) rows = row_of row ∷ rows
cons_row none rows = rows

module _ (parse_json : Text → Option Json) where
  -- The rows of the lines that start an object and parse.
  unfoldable pub rows_of : List Text → List RekeyRow
  unfolding starts_with trim prop text
  rows_of [] = []
  rows_of (line ∷ lines) =
      let rest = rows_of lines in
      if starts_with (trim line) (text "{") then cons_row (parse_json line) rest else rest

  unfoldable pub parse_rekey : Text → Prediction
  unfolding rows_of add_rows unique_after split
  parse_rekey stdout =
      let p = add_rows (rows_of (split 10 stdout)) no_prediction in
      record p { keys = unique_after [] p.keys }

  unfoldable pub predict : SoldrRunner → Text → Text → Option Prediction
  unfolding parse_rekey text
  predict run manifest_file workspace = or_null (
      run (text "verdict" ∷ text "rekey" ∷ text "--json" ∷ manifest_file ∷ []) workspace >>= λ out.
      ok (if out.code == 0 then some (parse_rekey out.stdout) else none))

-- `path.join(paths.records, ...)` is a parameter. The folder of the records is there.
module _ (path_join : Text → Text → Text)
    (restore_cache : List Text → Text → Result (Option Text)) where
  unfoldable pub record_path : VerdictPaths → Text → Text
  unfolding text
  record_path paths key = path_join paths.records (key ++ text ".json")

  -- The answer for one key is the key itself.
  abbrev pub is_exact : Text → Result (Option Text) → Bool
  is_exact key (ok (some matched)) = matched == key
  is_exact key _ = false

  unfoldable pub restore_verdicts : List Text → VerdictPaths → List Text
  unfolding record_path
  restore_verdicts keys paths =
      filter (λ key. is_exact key (restore_cache (record_path paths key ∷ []) key)) keys

unfoldable pub is_lazy : Option Prediction → List Text → Bool
is_lazy none restored = false
is_lazy (some p) restored =
    not (p.ungated || ltb 0 p.unkeyable || length p.keys == 0)
    && all (λ key. includes restored key) p.keys
