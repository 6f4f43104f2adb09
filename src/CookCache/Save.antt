-- ===== src/CookCache/Save.antt =====
-- src/lib/cook-cache.ts: saving one layer of the cache, through the two-phase save.
-- The file system and the run of soldr are parameters; times are left out. An `err` is a promise
-- that rejects.
pub mod Laws
mod Tests
use setup_soldr.Base.{ℕ, zero, suc, ◌+◌, ◌-◌}
use setup_soldr.Base.{Bool, true, false, not, ◌||◌, Option, none, some}
use setup_soldr.Base.{List, [], ◌∷◌, ◌++◌, ◌==◌}
use setup_soldr.Base.{nat_eq, list_eq, option_eq}
use setup_soldr.Base.{get_or, Result, ok, err, ensure}
use setup_soldr.Base.{◌>>◌}
use setup_soldr.Base.Text.{Text, text}
use setup_soldr.Base.Text.{is_empty}
use setup_soldr.Base.Json.{Json}
use setup_soldr.Base.Decimal.{decimal}
use setup_soldr.TwoPhase.{
  ReservedCacheArchive, TwoPhaseCacheResult, TwoPhaseStatus, World, Call, save_reserved_cache,
  failed, skipped_reservation,
}
use setup_soldr.CookCache.Layers.{SoldrJsonRun, num_field}

pub data CookSaveStatus : Type 0 where
  cook_saved skipped_race skipped_race_precheck skipped_missing_target : CookSaveStatus
  skipped_missing_manifest skipped_empty cook_policy_skip cook_failed : CookSaveStatus

pub record CookSaveResult : Type 0 where
  pub status : CookSaveStatus
  pub cache_id : Option ℕ
  pub archive : Option ReservedCacheArchive
  pub archive_path : Option Text
  pub error : Option Text

pub data CookLayer : Type 0 where
  base delta : CookLayer

abbrev pub layer_text : CookLayer → Text
layer_text base = text "base"
layer_text delta = text "delta"

pub record CookLayeredSaveOpts : Type 0 where
  pub project_root : Text
  pub target_dir : Text
  pub exact_key : Text
  pub archive_path : Text
  pub layer : CookLayer
  pub zstd_level : Text
  pub base_manifest_path : Option Text

abbrev pub skipped : CookSaveStatus → Result CookSaveResult
skipped status =
    ok (record {
      status = status;
      cache_id = none;
      archive = none;
      archive_path = none;
      error = none;
    })

-- The rest of a save, from what the two-phase save gave. Without an archive, `result.archive!` is
-- undefined and its first field throws.
unfoldable pub conclude_as :
    Option Text
    → TwoPhaseStatus
    → TwoPhaseCacheResult
    → Option ReservedCacheArchive
    → Result CookSaveResult
unfolding text
conclude_as path skipped_reservation r archive = ok (record {
  status = skipped_race_precheck;
  cache_id = none;
  archive = none;
  archive_path = path;
  error = none;
})
conclude_as path failed r archive = ok (record {
  status = cook_failed;
  cache_id = none;
  archive = none;
  archive_path = path;
  error = r.error;
})
conclude_as path status r none = err (text "archive is undefined")
conclude_as path status r (some a) = ok (record {
  status = cook_saved;
  cache_id = r.cache_id;
  archive = some a;
  archive_path = path;
  error = none;
})

unfoldable pub conclude_save : Option Text → TwoPhaseCacheResult → Result CookSaveResult
unfolding conclude_as
conclude_save path r = conclude_as path r.status r r.archive

-- `!opts.baseManifestPath || !fs.existsSync(opts.baseManifestPath)` for the delta layer.
abbrev pub lacks_manifest : (Text → Bool) → CookLayer → Option Text → Bool
lacks_manifest exists base path = false
lacks_manifest exists delta none = true
lacks_manifest exists delta (some path) = is_empty path || not (exists path)

abbrev pub refuse : CookLayer → Text → Text → Text → Result ReservedCacheArchive
refuse layer what key path = err (
    text "cook-cache-"
    ++ (layer_text layer
        ++ (text ": refusing to upload archive "
            ++ (what
                ++ (text " for key="
                    ++ (key
                        ++ (text " path="
                            ++ (path
                                ++ text
                                    "; immutable cache entries cannot be repaired in place"))))))))

-- The archive of a run that exited with 0, from the size of the file.
unfoldable pub archive_of :
    CookLayeredSaveOpts → Option Json → Result ℕ → Result ReservedCacheArchive
unfolding num_field text
archive_of o payload (err e) =
    refuse o.layer (text "that does not exist") o.exact_key o.archive_path
archive_of o payload (ok zero) = refuse o.layer (text "with zero bytes") o.exact_key o.archive_path
archive_of o payload (ok (suc n)) = ok (record {
  archive_path = o.archive_path;
  archive_bytes = suc n;
  inflated_bytes = none;
  file_count = num_field payload (text "cache_files");
  source_files = num_field payload (text "source_files");
  deleted_cache_files = num_field payload (text "deleted_cache_files");
  compress_ms = none;
})

unfoldable pub save_args : CookLayeredSaveOpts → List Text
unfolding text
save_args o =
    text "save"
    ∷ text "--cache-dir"
    ∷ o.target_dir
    ∷ text "--workspace"
    ∷ o.project_root
    ∷ text "--out"
    ∷ o.archive_path
    ∷ text "--zstd-level"
    ∷ o.zstd_level
    ∷ text "--json"
    ∷ (elim o.layer [
      | base ↦ []
      | delta ↦ text "--delta-from-manifest" ∷ get_or o.base_manifest_path [] ∷ []
    ])

-- The early returns, on what the policy answers, on the status of the target directory and on whether
-- a manifest is lacking; the last argument is what the two-phase save gives where it is reached.
unfoldable pub after_checks :
    Option Text → Bool → Option CookSaveStatus → Bool → TwoPhaseCacheResult → Result CookSaveResult
unfolding conclude_save
after_checks path false status lacking r = skipped cook_policy_skip
after_checks path true (some status) lacking r = skipped status
after_checks path true none true r = skipped skipped_missing_manifest
after_checks path true none false r = conclude_save path r

-- The status of the target directory, from whether it exists and from its names.
unfoldable pub listing_status : Bool → Result (List Text) → Option CookSaveStatus
listing_status false names = some skipped_missing_target
listing_status true (err e) = some skipped_missing_target
listing_status true (ok []) = some skipped_empty
listing_status true (ok (n ∷ ns)) = none

module _ (exists : Text → Bool) (read_dir : Text → Result (List Text)) where
  -- The tests on the target directory that the save begins with.
  unfoldable pub target_status : Text → Option CookSaveStatus
  unfolding listing_status
  target_status target_dir = listing_status (exists target_dir) (read_dir target_dir)

  module _ (allowed : Bool) (w : World) where
    -- `produce` of the layered save.
    unfoldable pub produce_layer :
        (List Text → SoldrJsonRun)
        → (Text → Result ℕ)
        → CookLayeredSaveOpts
        → Result ReservedCacheArchive
    unfolding archive_of save_args text
    produce_layer run stat o =
        let r = run (save_args o) in
        ensure (r.code == 0)
          (text "soldr save " ++ (layer_text o.layer ++ (text " exited " ++ decimal r.code)))
        >> archive_of o r.payload (stat o.archive_path)

    -- The two-phase save with the given producer.
    abbrev pub save_with : Text → Result ReservedCacheArchive → TwoPhaseCacheResult × List Call
    save_with key produced = save_reserved_cache (record w { produce = produced }) allowed key

    unfoldable pub save_layered_cook_cache :
        (List Text → SoldrJsonRun) → (Text → Result ℕ) → CookLayeredSaveOpts → Result CookSaveResult
    unfolding target_status produce_layer after_checks
    save_layered_cook_cache run stat o =
        after_checks (some o.archive_path) allowed (target_status o.target_dir)
          (lacks_manifest exists o.layer o.base_manifest_path)
          (save_with o.exact_key (produce_layer run stat o)).0
