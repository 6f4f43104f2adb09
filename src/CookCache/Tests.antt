-- ===== src/CookCache/Tests.antt =====
-- Keys, gates and layers of src/lib/cook-cache.ts at concrete inputs.
use setup_soldr.Base.{Bool, true, none, some}
use setup_soldr.Base.{List, [], ◌∷◌}
use setup_soldr.Base.{nat_eq, list_eq, option_eq}
use setup_soldr.Base.{ok}
use setup_soldr.Base.Text.{Text, text}
use setup_soldr.Base.Json.{Json, Fields}
use setup_soldr.CookCache.{CookCacheKeyParts}
use setup_soldr.CookCache.Layers.{
  Lookup, Answer, CookLayeredRestoreOpts, restore_layered_cook_cache_archives, SoldrJsonRun,
  CookLayeredLoadOpts,
}
use setup_soldr.CookCache.Layers.Laws.{IsRestore, restore_layered_cook_cache_archives-IsRestore}

abbrev linux : CookCacheKeyParts
linux = record {
  runner_os = text "Linux";
  runner_arch = text "X64";
  libc = text "gnu";
  rustc_release = text "1.90.0";
  flags_hash = text "12345678";
  lock_hash = text "abcd";
  soldr_version = text "0.7.40";
  key_suffix = some (text "my run");
}

abbrev build_flags : List Text
build_flags = text "--release" ∷ text "-v" ∷ text "--color" ∷ text "always" ∷ []

abbrev everywhere : Text → Bool
everywhere path = true

-- A client that knows the base key only.
abbrev client : Lookup → Answer
client l = record { matched = ok (some (text "base")); size = some 10 }

abbrev both_layers : CookLayeredRestoreOpts
both_layers = record {
  base_key = text "base";
  delta_key = text "delta";
  delta_restore_keys = none;
  base_archive_path = text "/tmp/base";
  delta_archive_path = text "/tmp/delta";
  delta_enabled = none;
}

restore_layered_cook_cache_archives-IsRestore_example :
    IsRestore client both_layers
      (restore_layered_cook_cache_archives client both_layers).0
      (restore_layered_cook_cache_archives client both_layers).1
restore_layered_cook_cache_archives-IsRestore_example =
    restore_layered_cook_cache_archives-IsRestore client both_layers

abbrev soldr : List Text → SoldrJsonRun
soldr args = record {
  code = 0;
  payload = some (Json.obj (Fields.field (text "cache_files_restored") (Json.num 3) Fields.end));
}

abbrev load_opts : CookLayeredLoadOpts
load_opts = record {
  project_root = text "/work";
  target_dir = text "/work/target";
  base_archive_path = text "/tmp/base";
  delta_archive_path = text "/tmp/delta";
  base_manifest_path = text "/tmp/manifest";
  restore = (restore_layered_cook_cache_archives client both_layers).0;
}
