-- ===== src/TwoPhase/Tests.antt =====
-- A save whose upload is refused, and one that goes well, of src/lib/two-phase-actions-cache.ts.
use setup_soldr.Base.{◌≢◌}
use setup_soldr.Base.{refl}
use setup_soldr.Base.{inl, inr, true, none, some}
use setup_soldr.Base.{[], ◌∷◌}
use setup_soldr.Base.{nat_eq, list_eq, option_eq}
use setup_soldr.Base.{ok, err}
use setup_soldr.Base.Text.{text}
use setup_soldr.Base.{In}
use setup_soldr.TwoPhase.{
  ReservedCacheArchive, Reservation, World, produce_archive, remove_directory, save_reserved_cache,
  v1,
}
use setup_soldr.TwoPhase.Laws.{save_reserved_cache-remove_directory}

abbrev archive : ReservedCacheArchive
archive = record {
  archive_path = text "/tmp/a";
  archive_bytes = 10;
  inflated_bytes = none;
  file_count = none;
  source_files = none;
  deleted_cache_files = none;
  compress_ms = none;
}

abbrev reservation : Reservation
reservation = record { service = v1; version = none; cache_id = some 7; signed_upload_url = none }

-- The upload is refused.
abbrev world : World
world = record {
  reserve = ok (some reservation);
  produce = ok archive;
  resolved = λ path. ok (path ∷ []);
  temp_directory = ok (text "/tmp/w");
  cache_file_name = text "cache.tzst";
  tar = λ folder paths. ok tt;
  stat = λ path. ok 11;
  save = λ r path. err (text "refused");
  finalize = err (text "not asked");
  parse_int = λ s. none;
}

produces : In produce_archive (save_reserved_cache world true (text "k")).1
unfolding save_reserved_cache
produces = inr (inl refl)

folder_named : text "/tmp/w" ≢ []
unfolding text
folder_named = λ e. cc

save_reserved_cache-remove_directory_example :
    In (remove_directory (text "/tmp/w")) (save_reserved_cache world true (text "k")).1
save_reserved_cache-remove_directory_example =
    save_reserved_cache-remove_directory world true (text "k") archive (text "/tmp/w")
      (text "/tmp/a") [] refl folder_named refl refl produces
