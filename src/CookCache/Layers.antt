-- ===== src/CookCache/Layers.antt =====
-- src/lib/cook-cache.ts: restoring the archives of the two layers, loading them into the target
-- directory, and the choice of the layer that is saved. What the cache client answers for a call,
-- the size of a file (`none` when `stat` throws) and what a run of the soldr binary gives are
-- parameters. A number of a JSON payload is a natural number.
pub mod Laws
use setup_soldr.Base.{ℕ, ◌+◌, ◌-◌}
use setup_soldr.Base.{Bool, true, false, not, ◌&&◌, Option, none, some}
use setup_soldr.Base.{List, [], ◌∷◌, ◌++◌, if◌then◌else◌, ltb, ◌==◌}
use setup_soldr.Base.{nat_eq, list_eq, option_eq}
use setup_soldr.Base.{get_or, Result, ok, err}
use setup_soldr.Base.Text.{Text, text}
use setup_soldr.Base.Text.{is_empty}
use setup_soldr.Base.Json.{Json, prop}

pub record CookLayerRestoreInfo : Type 0 where
  pub hit : Bool
  pub matched_key : Text
  pub archive_path : Text
  pub archive_bytes : ℕ

pub record CookLayeredRestoreResult : Type 0 where
  pub base : CookLayerRestoreInfo
  pub delta : CookLayerRestoreInfo

-- A call of `restoreCache`, and what it left on disk: the answer, and the archive's size.
pub record Lookup : Type 0 where
  pub archive_path : Text
  pub key : Text
  pub restore_keys : List Text

pub record Answer : Type 0 where
  pub matched : Result (Option Text)
  pub size : Option ℕ

pub record CookLayeredRestoreOpts : Type 0 where
  pub base_key : Text
  pub delta_key : Text
  pub delta_restore_keys : Option (List Text)
  pub base_archive_path : Text
  pub delta_archive_path : Text
  pub delta_enabled : Option Bool

abbrev pub layer_miss : Text → CookLayerRestoreInfo
layer_miss path = record { hit = false; matched_key = []; archive_path = path; archive_bytes = 0 }

-- `archiveSize`
abbrev pub archive_size : Option ℕ → ℕ
archive_size none = 0
archive_size (some n) = n

-- The layer that a call gives, from the matched key and the size of the archive.
unfoldable pub info_of : Text → Text → Result (Option Text) → ℕ → CookLayerRestoreInfo
info_of key path (err e) bytes = layer_miss path
info_of key path (ok none) bytes = layer_miss path
info_of key path (ok (some matched)) bytes =
    if is_empty matched then layer_miss path else if bytes == 0 then layer_miss path else record {
      hit = matched == key;
      matched_key = matched;
      archive_path = path;
      archive_bytes = bytes;
    }

unfoldable pub layer_info : Lookup → Answer → CookLayerRestoreInfo
unfolding info_of
layer_info l a = info_of l.key l.archive_path a.matched (archive_size a.size)

-- The lookups stand in the order in which they are started.
module _ (client : Lookup → Answer) where
  unfoldable pub restore_one_layer : Text → Text → List Text → CookLayerRestoreInfo × List Lookup
  unfolding layer_info
  restore_one_layer key path restore_keys =
      let l : Lookup = record { archive_path = path; key = key; restore_keys = restore_keys } in
      (layer_info l (client l), l ∷ [])

  -- The delta layer that goes with a base layer, from the key that the base layer matched.
  abbrev pub over_base : Text → CookLayerRestoreInfo → Text → CookLayerRestoreInfo
  over_base [] delta path = layer_miss path
  over_base (c ∷ s) delta path = delta

  -- The Boolean says that the delta layer is enabled.
  restore_layers : Bool → CookLayeredRestoreOpts → CookLayeredRestoreResult × List Lookup
  unfolding restore_one_layer
  restore_layers false o =
      let (base, asked) = restore_one_layer o.base_key o.base_archive_path [] in
      (record { base = base; delta = layer_miss o.delta_archive_path }, asked)
  restore_layers true o =
      let (base, asked) = restore_one_layer o.base_key o.base_archive_path [] in
      let (delta, more) =
        restore_one_layer o.delta_key o.delta_archive_path (get_or o.delta_restore_keys []) in
      (
        record { base = base; delta = over_base base.matched_key delta o.delta_archive_path },
        asked ++ more,
      )

  unfoldable pub restore_layered_cook_cache_archives :
      CookLayeredRestoreOpts → CookLayeredRestoreResult × List Lookup
  unfolding restore_layers
  restore_layered_cook_cache_archives o = restore_layers (get_or o.delta_enabled true) o

pub record CookLayerLoadReport : Type 0 where
  pub cache_files_restored : Option ℕ
  pub source_files_in_manifest : Option ℕ
  pub mtimes_applied : Option ℕ
  pub mtimes_skipped_missing : Option ℕ
  pub mtimes_skipped_size_mismatch : Option ℕ
  pub mtimes_skipped_modified : Option ℕ

unfoldable pub num_field : Option Json → Text → Option ℕ
unfolding prop
num_field payload name = elim (prop payload name) [ some (Json.num n) ↦ some n | _ ↦ none ]

unfoldable pub load_report : Option Json → CookLayerLoadReport
unfolding num_field text
load_report p = record {
  cache_files_restored = num_field p (text "cache_files_restored");
  source_files_in_manifest = num_field p (text "source_files_in_manifest");
  mtimes_applied = num_field p (text "mtimes_applied");
  mtimes_skipped_missing = num_field p (text "mtimes_skipped_missing");
  mtimes_skipped_size_mismatch = num_field p (text "mtimes_skipped_size_mismatch");
  mtimes_skipped_modified = num_field p (text "mtimes_skipped_modified");
}

pub record SoldrJsonRun : Type 0 where
  pub code : ℕ
  pub payload : Option Json

pub record CookLayeredLoadResult : Type 0 where
  pub base_loaded : Bool
  pub delta_loaded : Bool
  pub base_report : Option CookLayerLoadReport
  pub delta_report : Option CookLayerLoadReport

-- A restored count that is a number above 0.
abbrev pub is_restored : Option ℕ → Bool
is_restored none = false
is_restored (some n) = ltb 0 n

-- The answer of `loadOneLayer`; the Boolean says that soldr exited with 0.
abbrev pub reported : Bool → CookLayerLoadReport → Bool × Option CookLayerLoadReport
reported false report = (false, none)
reported true report = (is_restored report.cache_files_restored, some report)

unfoldable pub loaded_layer : SoldrJsonRun → Bool × Option CookLayerLoadReport
unfolding load_report
loaded_layer r = reported (r.code == 0) (load_report r.payload)

unfoldable pub load_args : Text → Text → Text → Option Text → List Text
unfolding text
load_args archive_path target_dir project_root manifest_out =
    text "load"
    ∷ text "--archive"
    ∷ archive_path
    ∷ text "--cache-dir"
    ∷ target_dir
    ∷ text "--workspace"
    ∷ project_root
    ∷ text "--json"
    ∷ (elim manifest_out [
      | none ↦ []
      | some [] ↦ []
      | some (c ∷ s) ↦ text "--manifest-out" ∷ (c ∷ s) ∷ []
    ])

pub record CookLayeredLoadOpts : Type 0 where
  pub project_root : Text
  pub target_dir : Text
  pub base_archive_path : Text
  pub delta_archive_path : Text
  pub base_manifest_path : Text
  pub restore : CookLayeredRestoreResult

-- The runs of soldr stand in the order in which they are made.
module _ (run : List Text → SoldrJsonRun) (o : CookLayeredLoadOpts) where
  load_delta : Option CookLayerLoadReport → Bool → CookLayeredLoadResult × List (List Text)
  unfolding loaded_layer load_args
  load_delta base_report true = (
    record {
      base_loaded = true;
      delta_loaded = false;
      base_report = base_report;
      delta_report = none;
    },
    [],
  )
  load_delta base_report false =
      let args = load_args o.delta_archive_path o.target_dir o.project_root none in
      let (loaded, report) = loaded_layer (run args) in
      (
        record {
          base_loaded = true;
          delta_loaded = loaded;
          base_report = base_report;
          delta_report = report;
        },
        args ∷ [],
      )

  load_over : Bool × Option CookLayerLoadReport → CookLayeredLoadResult × List (List Text)
  unfolding load_delta
  load_over (false, report) = (
    record { base_loaded = false; delta_loaded = false; base_report = report; delta_report = none },
    [],
  )
  load_over (true, report) = load_delta report (is_empty o.restore.delta.matched_key)

  load_base : Bool → CookLayeredLoadResult × List (List Text)
  unfolding load_over
  load_base true = (
    record { base_loaded = false; delta_loaded = false; base_report = none; delta_report = none },
    [],
  )
  load_base false =
      let args =
        load_args o.base_archive_path o.target_dir o.project_root (some o.base_manifest_path) in
      let (result, more) = load_over (loaded_layer (run args)) in (result, args ∷ more)

  unfoldable pub load_layered_cook_cache : CookLayeredLoadResult × List (List Text)
  unfolding load_base
  load_layered_cook_cache = load_base (is_empty o.restore.base.matched_key)

abbrev pub layered_cook_base_ready : CookLayeredRestoreResult → CookLayeredLoadResult → Bool
layered_cook_base_ready restore loaded = restore.base.hit && loaded.base_loaded

abbrev pub layered_cook_delta_ready : CookLayeredRestoreResult → CookLayeredLoadResult → Bool
layered_cook_delta_ready restore loaded =
    layered_cook_base_ready restore loaded
    && (not (is_empty restore.delta.matched_key) && loaded.delta_loaded)

pub data CookSaveLayer : Type 0 where
  base delta no_layer : CookSaveLayer

abbrev pub select_cook_save_layer : Bool → Bool → Bool → CookSaveLayer
select_cook_save_layer cook_ran base_ready delta_enabled =
    if not cook_ran
    then no_layer
    else if not base_ready
    then base
    else if delta_enabled
    then delta
    else no_layer
