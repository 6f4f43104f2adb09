-- ===== src/CookCache/Save/Tests.antt =====
-- A delta layer that is saved.
use setup_soldr.Base.{ℕ, ◌≡◌, refl}
use setup_soldr.Base.{Bool, true, none, some}
use setup_soldr.Base.{List, [], ◌∷◌}
use setup_soldr.Base.{nat_eq, list_eq, option_eq}
use setup_soldr.Base.{Result, ok, err}
use setup_soldr.Base.Text.{Text, text}
use setup_soldr.TwoPhase.{World, v1, save_reserved_cache}
use setup_soldr.CookCache.Layers.{SoldrJsonRun}
use setup_soldr.CookCache.Save.{
  CookSaveResult, cook_saved, CookLayeredSaveOpts, delta, save_layered_cook_cache,
}
use setup_soldr.CookCache.Save.Laws.{IsSaved, save_layered_cook_cache-IsSaved}

abbrev world : World
world = record {
  reserve =
      ok (
        some
          (record { service = v1; version = none; cache_id = some 7; signed_upload_url = none }));
  produce = err (text "unset");
  resolved = λ path. ok (path ∷ []);
  temp_directory = ok (text "/tmp/w");
  cache_file_name = text "cache.tzst";
  tar = λ folder paths. ok tt;
  stat = λ path. ok 11;
  save = λ r path. ok tt;
  finalize = err (text "not asked");
  parse_int = λ s. none;
}

abbrev opts : CookLayeredSaveOpts
opts = record {
  project_root = text "/work";
  target_dir = text "/work/target";
  exact_key = text "k";
  archive_path = text "/tmp/a";
  layer = delta;
  zstd_level = text "3";
  base_manifest_path = some (text "/tmp/m");
}

abbrev everywhere : Text → Bool
everywhere path = true

abbrev names : Text → Result (List Text)
names dir = ok (text "debug" ∷ [])

abbrev soldr : List Text → SoldrJsonRun
soldr args = record { code = 0; payload = none }

abbrev size : Text → Result ℕ
size path = ok 10

abbrev delta_result : CookSaveResult
delta_result = record {
  status = cook_saved;
  cache_id = some 7;
  archive = some (record {
    archive_path = text "/tmp/a";
    archive_bytes = 10;
    inflated_bytes = none;
    file_count = none;
    source_files = none;
    deleted_cache_files = none;
    compress_ms = none;
  });
  archive_path = some (text "/tmp/a");
  error = none;
}

saves : save_layered_cook_cache everywhere names true world soldr size opts ≡ ok delta_result
unfolding save_layered_cook_cache save_reserved_cache text nat_eq
saves = refl

save_layered_cook_cache-IsSaved_example : IsSaved everywhere names true soldr size opts delta_result
save_layered_cook_cache-IsSaved_example =
    save_layered_cook_cache-IsSaved everywhere names true world soldr size opts delta_result saves
      refl
