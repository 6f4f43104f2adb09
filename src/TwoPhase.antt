-- ===== src/TwoPhase.antt =====
-- src/lib/two-phase-actions-cache.ts: reserve a key, produce the archive, upload it. The cache
-- client, tar and the file system are parameters; the calls made to them are recorded in order.
pub mod Laws
pub mod Produced
mod Tests
use setup_soldr.Base.{ℕ, ◌+◌, ◌/◌}
use setup_soldr.Base.{Bool, true, false, not, Option, none, some}
use setup_soldr.Base.{List, [], ◌∷◌, ◌++◌, if◌then◌else◌}
use setup_soldr.Base.{nat_eq, list_eq, option_eq}
use setup_soldr.Base.{Result, ok, err}
use setup_soldr.Base.Text.{Text, text, or_text}

pub record ReservedCacheArchive : Type 0 where
  pub archive_path : Text
  pub archive_bytes : ℕ
  pub inflated_bytes : Option ℕ
  pub file_count : Option ℕ
  pub source_files : Option ℕ
  pub deleted_cache_files : Option ℕ
  pub compress_ms : Option ℕ

pub record ActionsCacheArchive : Type 0 where
  pub archive_path : Text
  pub archive_bytes : ℕ
  pub cleanup_dir : Option Text

pub data Service : Type 0 where
  v1 v2 : Service

pub record Reservation : Type 0 where
  pub service : Service
  pub version : Option Text
  pub cache_id : Option ℕ
  pub signed_upload_url : Option Text

pub data TwoPhaseStatus : Type 0 where
  saved skipped_reservation policy_skip failed : TwoPhaseStatus

pub record TwoPhaseCacheResult : Type 0 where
  pub status : TwoPhaseStatus
  pub cache_id : Option ℕ
  pub archive : Option ReservedCacheArchive
  pub error : Option Text

-- What is asked of the world.
pub data Call : Type 0 where
  reserve_key : Text → Call
  produce_archive : Call
  resolve_paths : Text → Call
  create_temp_directory : Call
  create_tar : Text → Call
  stat_archive : Text → Call
  upload_archive : Text → Call
  finalize_upload : Text → Call
  remove_file : Text → Call
  remove_directory : Text → Call

pub record Finalized : Type 0 where
  pub is_ok : Bool
  pub message : Text
  pub entry_id : Text

-- The answers of the world. `parse_int` is `Number.parseInt(s, 10)`, `none` for NaN.
pub record World : Type 0 where
  pub reserve : Result (Option Reservation)
  pub produce : Result ReservedCacheArchive
  pub resolved : Text → Result (List Text)
  pub temp_directory : Result Text
  pub cache_file_name : Text
  pub tar : Text → List Text → Result (Unit {0})
  pub stat : Text → Result ℕ
  pub save : Reservation → Text → Result (Unit {0})
  pub finalize : Result Finalized
  pub parse_int : Text → Option ℕ

-- `path.join(folder, name)` of a folder and a plain file name.
abbrev pub join_path : Text → Text → Text
join_path folder name = folder ++ (text "/" ++ name)

module _ (w : World) where
  -- The `try` of `prepareActionsCacheArchive`, from the answer of `stat` and from that of `tar`.
  stat_packed : Text → Result ℕ → Result ActionsCacheArchive × List Call
  stat_packed folder (err e) =
      let target = join_path folder w.cache_file_name in
      (err e, stat_archive target ∷ remove_directory folder ∷ [])
  stat_packed folder (ok bytes) =
      let target = join_path folder w.cache_file_name in
      (
        ok (record { archive_path = target; archive_bytes = bytes; cleanup_dir = some folder }),
        stat_archive target ∷ [],
      )

  tar_packed : Text → Result (Unit {0}) → Result ActionsCacheArchive × List Call
  unfolding stat_packed
  tar_packed folder (err e) = (err e, create_tar folder ∷ remove_directory folder ∷ [])
  tar_packed folder (ok _) =
      let (r, calls) = stat_packed folder (w.stat (join_path folder w.cache_file_name)) in
      (r, create_tar folder ∷ calls)

  pack_archive : Text → List Text → Result ActionsCacheArchive × List Call
  unfolding tar_packed
  pack_archive folder paths = tar_packed folder (w.tar folder paths)

  pack_in : Result Text → List Text → Result ActionsCacheArchive × List Call
  unfolding pack_archive
  pack_in (err e) paths = (err e, create_temp_directory ∷ [])
  pack_in (ok folder) paths =
      let (r, calls) = pack_archive folder paths in (r, create_temp_directory ∷ calls)

  prepare_resolved :
      ReservedCacheArchive → Result (List Text) → Result ActionsCacheArchive × List Call
  unfolding pack_in
  prepare_resolved archive (err e) = (err e, [])
  prepare_resolved archive (ok []) =
      (err (text "produced archive does not exist: " ++ archive.archive_path), [])
  prepare_resolved archive (ok (p ∷ ps)) = pack_in w.temp_directory (p ∷ ps)

  unfoldable pub prepare_actions_cache_archive :
      ReservedCacheArchive → Result ActionsCacheArchive × List Call
  unfolding prepare_resolved
  prepare_actions_cache_archive archive =
      let (r, calls) = prepare_resolved archive (w.resolved archive.archive_path) in
      (r, resolve_paths archive.archive_path ∷ calls)

  finish_v2 : Result Finalized → Result (Option ℕ)
  finish_v2 (err e) = err e
  finish_v2 (ok f) =
      if f.is_ok
      then ok (w.parse_int f.entry_id)
      else err (or_text f.message (text "cache finalization failed"))

  -- The upload for the service that holds the reservation: the id under which it is saved.
  unfoldable pub upload_reserved :
      Text → Reservation → ActionsCacheArchive → Result (Option ℕ) × List Call
  unfolding finish_v2
  upload_reserved key r archive = elim (w.save r archive.archive_path) [
    | err e ↦ (err e, upload_archive archive.archive_path ∷ [])
    | ok _ ↦ elim r.service [
      | v1 ↦ (ok r.cache_id, upload_archive archive.archive_path ∷ [])
      | v2 ↦ (finish_v2 w.finalize, upload_archive archive.archive_path ∷ finalize_upload key ∷ [])
    ]
  ]

  abbrev pub uploaded : ReservedCacheArchive → Result (Option ℕ) → TwoPhaseCacheResult
  uploaded archive (ok id) = record {
    status = saved;
    cache_id = id;
    archive = some archive;
    error = none;
  }
  uploaded archive (err e) = record {
    status = failed;
    cache_id = none;
    archive = some archive;
    error = some e;
  }

  -- The `finally`, when nothing but the produced archive is left, and with the wrapper's folder.
  abbrev pub clean : ReservedCacheArchive → Option Text → List Call
  clean archive none = remove_file archive.archive_path ∷ []
  clean archive (some []) = remove_file archive.archive_path ∷ []
  clean archive (some (c ∷ s)) = remove_file archive.archive_path ∷ remove_directory (c ∷ s) ∷ []

  upload_prepared :
      Text
      → Reservation
      → ReservedCacheArchive
      → Result ActionsCacheArchive × List Call
      → TwoPhaseCacheResult × List Call
  unfolding upload_reserved
  upload_prepared key r archive (err e, calls) =
      (uploaded archive (err e), calls ++ clean archive none)
  upload_prepared key r archive (ok wrapped, calls) =
      let (sent, more) = upload_reserved key r wrapped in
      (uploaded archive sent, calls ++ (more ++ clean archive wrapped.cleanup_dir))

  save_produced : Text → Reservation → Result ReservedCacheArchive → TwoPhaseCacheResult × List Call
  unfolding upload_prepared prepare_actions_cache_archive
  save_produced key r (err e) =
      (record { status = failed; cache_id = none; archive = none; error = some e }, [])
  save_produced key r (ok archive) =
      upload_prepared key r archive (prepare_actions_cache_archive archive)

  abbrev plain : TwoPhaseStatus → TwoPhaseCacheResult
  plain status = record { status = status; cache_id = none; archive = none; error = none }

  save_under : Text → Result (Option Reservation) → TwoPhaseCacheResult × List Call
  unfolding save_produced
  save_under key (err e) = (plain skipped_reservation, [])
  save_under key (ok none) = (plain skipped_reservation, [])
  save_under key (ok (some r)) =
      let (result, calls) = save_produced key r w.produce in (result, produce_archive ∷ calls)

  -- `allowed` is what `allowCacheSave` answers for the layer.
  unfoldable pub save_reserved_cache : Bool → Text → TwoPhaseCacheResult × List Call
  unfolding save_under
  save_reserved_cache false key = (plain policy_skip, [])
  save_reserved_cache true key =
      let (result, calls) = save_under key w.reserve in (result, reserve_key key ∷ calls)

abbrev pub is_reservation_conflict : TwoPhaseCacheResult → Bool
is_reservation_conflict r = elim r.status [ skipped_reservation ↦ true | _ ↦ false ]
