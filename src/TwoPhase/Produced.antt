-- ===== src/TwoPhase/Produced.antt =====
-- The archive that a two-phase save reports.
use setup_soldr.Base.{ℕ, ◌≡◌, refl, sym, ◌∙◌}
use setup_soldr.Base.{Bool, true, false, Option, none, some}
use setup_soldr.Base.{List}
use setup_soldr.Base.{nat_eq, list_eq, option_eq}
use setup_soldr.Base.{Result, ok, err}
use setup_soldr.Base.Text.{Text}
use setup_soldr.TwoPhase.{
  ReservedCacheArchive, ActionsCacheArchive, Reservation, World, Call, save_reserved_cache,
  prepare_actions_cache_archive, save_under, save_produced, upload_prepared, uploaded,
}

-- The archive of a result is the one that was produced.
module _ (w : World) where
  uploaded-archive :
      (a : ReservedCacheArchive) (o : Result (Option ℕ)) → (uploaded w a o).archive ≡ some a
  uploaded-archive a (ok id) = refl
  uploaded-archive a (err e) = refl

  upload_prepared-archive :
      (key : Text) (r : Reservation) (a : ReservedCacheArchive)
      (p : Result ActionsCacheArchive × List Call)
      → (upload_prepared w key r a p).0.archive ≡ some a
  unfolding upload_prepared
  upload_prepared-archive key r a (err e, calls) = refl
  upload_prepared-archive key r a (ok b, calls) = uploaded-archive a _

  save_produced-archive :
      (key : Text) (r : Reservation) (o : Result ReservedCacheArchive) (a : ReservedCacheArchive)
      → (save_produced w key r o).0.archive ≡ some a
      → o ≡ ok a
  unfolding save_produced
  save_produced-archive key r (err e) a h = cc
  save_produced-archive key r (ok b) a h =
      let e : (upload_prepared w key r b (prepare_actions_cache_archive w b)).0.archive ≡ some b =
        upload_prepared-archive key r b _ in
      cc (sym e ∙ h)

  save_under-archive :
      (key : Text) (o : Result (Option Reservation)) (a : ReservedCacheArchive)
      → (save_under w key o).0.archive ≡ some a
      → w.produce ≡ ok a
  unfolding save_under
  save_under-archive key (err e) a h = cc
  save_under-archive key (ok none) a h = cc
  save_under-archive key (ok (some r)) a h = save_produced-archive key r w.produce a h

  pub save_reserved_cache-archive :
      (allowed : Bool) (key : Text) (a : ReservedCacheArchive)
      → (save_reserved_cache w allowed key).0.archive ≡ some a
      → w.produce ≡ ok a
  unfolding save_reserved_cache
  save_reserved_cache-archive false key a h = cc
  save_reserved_cache-archive true key a h = save_under-archive key w.reserve a h
