-- ===== src/CookCache/Save/Laws.antt =====
-- What a layer that was saved has behind it.
use setup_soldr.Base.{ℕ, zero, suc, ◌<◌, ◌≡◌, refl}
use setup_soldr.Base.{◌≢◌, Bool, true, false, Option, none, some}
use setup_soldr.Base.{List, [], ◌∷◌, arith, ◌==◌}
use setup_soldr.Base.{nat_eq, list_eq, option_eq}
use setup_soldr.Base.{Result, ok, err, ensure}
use setup_soldr.Base.{◌>>◌}
use setup_soldr.Base.Text.{Text}
use setup_soldr.Base.Json.{Json}
use setup_soldr.TwoPhase.{
  ReservedCacheArchive, TwoPhaseCacheResult, TwoPhaseStatus, saved, failed, skipped_reservation,
  policy_skip, World,
}
use setup_soldr.TwoPhase.Produced.{save_reserved_cache-archive}
use setup_soldr.CookCache.Layers.{SoldrJsonRun}
use setup_soldr.CookCache.Save.{
  CookSaveStatus, CookSaveResult, cook_saved, CookLayeredSaveOpts, conclude_as, conclude_save,
  lacks_manifest, archive_of, save_args, listing_status, target_status, produce_layer, after_checks,
  save_layered_cook_cache,
}

conclude_as-archive :
    (path : Option Text) (s : TwoPhaseStatus) (r : TwoPhaseCacheResult)
    (o : Option ReservedCacheArchive) (c : CookSaveResult)
    → conclude_as path s r o ≡ ok c
    → c.status ≡ cook_saved
    → (a : ReservedCacheArchive) × ((o ≡ some a) × (c.archive ≡ some a))
unfolding conclude_as
conclude_as-archive path skipped_reservation r o c h k = cc
conclude_as-archive path failed r o c h k = cc
conclude_as-archive path saved r none c h k = cc
conclude_as-archive path policy_skip r none c h k = cc
conclude_as-archive path saved r (some a) c h k = (a, (refl, cc))
conclude_as-archive path policy_skip r (some a) c h k = (a, (refl, cc))

archive_of-usable :
    (o : CookLayeredSaveOpts) (p : Option Json) (n : Result ℕ) (a : ReservedCacheArchive)
    → archive_of o p n ≡ ok a
    → (n ≡ ok a.archive_bytes) × (0 < a.archive_bytes)
unfolding archive_of
archive_of-usable o p (err e) a h = cc
archive_of-usable o p (ok zero) a h = cc
archive_of-usable o p (ok (suc n)) a h = let e : suc n ≡ a.archive_bytes = cc in (cc, omega arith)

ensure-next :
    (b : Bool) (m : Text) {A : Type 0} (next : Result A) (a : A)
    → (ensure b m >> next) ≡ ok a
    → (b ≡ true) × (next ≡ ok a)
ensure-next true m next a h = (refl, h)
ensure-next false m next a h = cc

-- What stands behind a layer that was saved.
pub record IsSaved (exists : Text → Bool) (read_dir : Text → Result (List Text)) (allowed : Bool)
    (run : List Text → SoldrJsonRun) (stat : Text → Result ℕ) (o : CookLayeredSaveOpts)
    (c : CookSaveResult) : Type 0 where
  pub permitted : allowed ≡ true
  pub target_ok : target_status exists read_dir o.target_dir ≡ none
  pub manifest_ok : lacks_manifest exists o.layer o.base_manifest_path ≡ false
  pub exited : ((run (save_args o)).code == 0) ≡ true
  pub archive : ReservedCacheArchive
  pub named : c.archive ≡ some archive
  pub measured : stat o.archive_path ≡ ok archive.archive_bytes
  pub not_empty : 0 < archive.archive_bytes

after_checks-saved :
    (path : Option Text) (allowed : Bool) (status : Option CookSaveStatus) (lacking : Bool)
    (r : TwoPhaseCacheResult) (c : CookSaveResult)
    → status ≢ some cook_saved
    → after_checks path allowed status lacking r ≡ ok c
    → c.status ≡ cook_saved
    → ((allowed ≡ true) × ((status ≡ none) × (lacking ≡ false)))
      × ((a : ReservedCacheArchive) × ((r.archive ≡ some a) × (c.archive ≡ some a)))
unfolding after_checks conclude_save
after_checks-saved path false status lacking r c n h k = cc
after_checks-saved path true (some status) lacking r c n h k = absurd (n (cc))
after_checks-saved path true none true r c n h k = cc
after_checks-saved path true none false r c n h k =
    ((refl, (refl, refl)), conclude_as-archive path r.status r r.archive c h k)

listing_status-skips :
    (b : Bool) (names : Result (List Text)) → listing_status b names ≢ some cook_saved
unfolding listing_status
listing_status-skips false names = λ h. cc
listing_status-skips true (err e) = λ h. cc
listing_status-skips true (ok []) = λ h. cc
listing_status-skips true (ok (n ∷ ns)) = λ h. cc

target_status-skips :
    (exists : Text → Bool) (read_dir : Text → Result (List Text)) (dir : Text)
    → target_status exists read_dir dir ≢ some cook_saved
unfolding target_status
target_status-skips exists read_dir dir = listing_status-skips (exists dir) (read_dir dir)

module _ (exists : Text → Bool) (read_dir : Text → Result (List Text)) (allowed : Bool) (w : World)
    (run : List Text → SoldrJsonRun) (stat : Text → Result ℕ) where
  -- A layer is reported as saved only if the policy allows it, the target directory holds something,
  -- a delta has the base's manifest, soldr exited with 0, and the archive that it wrote has a size
  -- above 0, which is the one reported.
  pub save_layered_cook_cache-IsSaved :
      (o : CookLayeredSaveOpts) (c : CookSaveResult)
      → save_layered_cook_cache exists read_dir allowed w run stat o ≡ ok c
      → c.status ≡ cook_saved
      → IsSaved exists read_dir allowed run stat o c
  unfolding save_layered_cook_cache produce_layer
  save_layered_cook_cache-IsSaved o c h k =
      let (checks, more) =
        after_checks-saved _ allowed _ _ _ c (target_status-skips exists read_dir o.target_dir) h
          k in
      let (a, (here, named)) = more in
      let produced = save_reserved_cache-archive _ allowed o.exact_key a here in
      let (exited, wrote) = ensure-next _ _ _ a produced in
      let (measured, big) = archive_of-usable o _ _ a wrote in
      record {
        permitted = checks.0;
        target_ok = checks.1.0;
        manifest_ok = checks.1.1;
        exited = exited;
        archive = a;
        named = named;
        measured = measured;
        not_empty = big;
      }
