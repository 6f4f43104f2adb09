-- ===== src/TwoPhase/Laws.antt =====
-- What a two-phase save did to the world, and when it counts as saved.
use setup_soldr.Base.{◌≢◌}
use setup_soldr.Base.{ℕ, ◌≡◌, refl, sym}
use mathlib.Core.Path.{subst}
use setup_soldr.Base.{◌⊎◌, inl, inr, Bool, true, false, Option, none, some}
use setup_soldr.Base.{List, [], ◌∷◌, ◌++◌}
use setup_soldr.Base.{nat_eq, list_eq, option_eq}
use setup_soldr.Base.{Result, ok, err}
use setup_soldr.Base.Text.{Text}
use setup_soldr.Base.{In}
use setup_soldr.TwoPhase.{
  ReservedCacheArchive, ActionsCacheArchive, Reservation, World, Call, produce_archive, remove_file,
  remove_directory, prepare_actions_cache_archive, prepare_resolved, pack_in, pack_archive,
  tar_packed, stat_packed, upload_reserved, upload_prepared, save_produced, save_under, clean,
  save_reserved_cache,
}

module _ {A : Type 0} where
  In-append_right : (x : A) (xs ys : List A) → In x ys → In x (xs ++ ys)
  In-append_right x [] ys i = i
  In-append_right x (y ∷ xs) ys i = inr (In-append_right x xs ys i)

  In-append_left : (x : A) (xs ys : List A) → In x xs → In x (xs ++ ys)
  In-append_left x [] ys i = absurd i
  In-append_left x (y ∷ xs) ys (inl e) = inl e
  In-append_left x (y ∷ xs) ys (inr i) = inr (In-append_left x xs ys i)

module _ (w : World) where
  produce_under :
      (key : Text) (o : Result (Option Reservation))
      → In produce_archive (save_under w key o).1
      → (r : Reservation) × (o ≡ ok (some r))
  unfolding save_under
  produce_under key (err e) i = absurd i
  produce_under key (ok none) i = absurd i
  produce_under key (ok (some r)) i = (r, refl)

  -- The archive is produced only if the save is allowed and the service reserved the key.
  pub save_reserved_cache_produce :
      (allowed : Bool) (key : Text)
      → In produce_archive (save_reserved_cache w allowed key).1
      → (allowed ≡ true) × ((r : Reservation) × (w.reserve ≡ ok (some r)))
  unfolding save_reserved_cache
  save_reserved_cache_produce false key i = absurd i
  save_reserved_cache_produce true key (inl e) = cc
  save_reserved_cache_produce true key (inr i) = (refl, produce_under key w.reserve i)

  clean-remove_file :
      (archive : ReservedCacheArchive) (folder : Option Text)
      → In (remove_file archive.archive_path) (clean w archive folder)
  clean-remove_file archive none = inl refl
  clean-remove_file archive (some []) = inl refl
  clean-remove_file archive (some (c ∷ s)) = inl refl

  upload_prepared-remove_file :
      (key : Text) (r : Reservation) (archive : ReservedCacheArchive)
      (p : Result ActionsCacheArchive × List Call)
      → In (remove_file archive.archive_path) (upload_prepared w key r archive p).1
  unfolding upload_prepared
  upload_prepared-remove_file key r archive (err e, calls) = In-append_right _ calls _ (inl refl)
  upload_prepared-remove_file key r archive (ok a, calls) =
      In-append_right _ calls _ (
        In-append_right _ (upload_reserved w key r a).1 _ (clean-remove_file archive a.cleanup_dir))

  clean-remove_directory :
      (archive : ReservedCacheArchive) (folder : Text)
      → folder ≢ []
      → In (remove_directory folder) (clean w archive (some folder))
  clean-remove_directory archive [] h = absurd (h refl)
  clean-remove_directory archive (c ∷ s) h = inr (inl refl)

  -- The wrapper's folder goes to the caller, or is removed.
  CleansUp : Text → Result ActionsCacheArchive × List Call → Type 0
  CleansUp folder p =
      ((a : ActionsCacheArchive) × ((p.0 ≡ ok a) × (a.cleanup_dir ≡ some folder)))
      ⊎ In (remove_directory folder) p.1

  stat_packed-CleansUp : (folder : Text) (s : Result ℕ) → CleansUp folder (stat_packed w folder s)
  unfolding stat_packed CleansUp
  stat_packed-CleansUp folder (err e) = inr (inr (inl refl))
  stat_packed-CleansUp folder (ok n) = inl (_, (refl, refl))

  CleansUp-∷ :
      (folder : Text) (c : Call) (p : Result ActionsCacheArchive × List Call)
      → CleansUp folder p
      → CleansUp folder (p.0, c ∷ p.1)
  unfolding CleansUp
  CleansUp-∷ folder c p (inl h) = inl h
  CleansUp-∷ folder c p (inr i) = inr (inr i)

  tar_packed-CleansUp :
      (folder : Text) (t : Result (Unit {0})) → CleansUp folder (tar_packed w folder t)
  unfolding tar_packed CleansUp
  tar_packed-CleansUp folder (err e) = inr (inr (inl refl))
  tar_packed-CleansUp folder (ok u) = CleansUp-∷ folder _ _ (stat_packed-CleansUp folder _)

  pack_in-CleansUp :
      (folder : Text) (paths : List Text) → CleansUp folder (pack_in w (ok folder) paths)
  unfolding pack_in pack_archive
  pack_in-CleansUp folder paths = CleansUp-∷ folder _ _ (tar_packed-CleansUp folder _)

  prepare-CleansUp :
      (archive : ReservedCacheArchive) (folder path : Text) (paths : List Text)
      → w.temp_directory ≡ ok folder
      → w.resolved archive.archive_path ≡ ok (path ∷ paths)
      → CleansUp folder (prepare_actions_cache_archive w archive)
  unfolding prepare_actions_cache_archive prepare_resolved CleansUp
  prepare-CleansUp archive folder path paths h k =
      CleansUp-∷ folder _ _ (rw k (rw h (pack_in-CleansUp folder (path ∷ paths))))

  upload_prepared-remove_directory :
      (key : Text) (r : Reservation) (archive : ReservedCacheArchive) (folder : Text)
      (p : Result ActionsCacheArchive × List Call)
      → folder ≢ []
      → CleansUp folder p
      → In (remove_directory folder) (upload_prepared w key r archive p).1
  unfolding upload_prepared CleansUp
  upload_prepared-remove_directory key r archive folder (err e, calls) n (inl (a, (h, k))) = cc
  upload_prepared-remove_directory key r archive folder (err e, calls) n (inr i) =
      In-append_left _ calls _ i
  upload_prepared-remove_directory key r archive folder (ok b, calls) n (inr i) =
      In-append_left _ calls _ i
  upload_prepared-remove_directory key r archive folder (ok b, calls) n (inl (a, (h, k))) =
      In-append_right _ calls _ (
        In-append_right _ (upload_reserved w key r b).1 _ (
          let e : b.cleanup_dir ≡ some folder = cc in
          rw e (clean-remove_directory archive folder n)))

  -- What every save of a produced archive calls, a save that produced it calls.
  save_under-In :
      (c : Call) (key : Text) (o : Result (Option Reservation)) (archive : ReservedCacheArchive)
      → w.produce ≡ ok archive
      → ((r : Reservation) → In c (save_produced w key r (ok archive)).1)
      → In produce_archive (save_under w key o).1
      → In c (save_under w key o).1
  unfolding save_under
  save_under-In c key (err e) archive h k i = absurd i
  save_under-In c key (ok none) archive h k i = absurd i
  save_under-In c key (ok (some r)) archive h k i =
      inr (subst (λ z. In c (save_produced w key r z).1) (sym h) (k r))

  save_reserved_cache-In :
      (c : Call) (allowed : Bool) (key : Text) (archive : ReservedCacheArchive)
      → w.produce ≡ ok archive
      → ((r : Reservation) → In c (save_produced w key r (ok archive)).1)
      → In produce_archive (save_reserved_cache w allowed key).1
      → In c (save_reserved_cache w allowed key).1
  unfolding save_reserved_cache
  save_reserved_cache-In c false key archive h k i = absurd i
  save_reserved_cache-In c true key archive h k (inl e) = cc
  save_reserved_cache-In c true key archive h k (inr i) =
      inr (save_under-In c key w.reserve archive h k i)

  -- A save that produced an archive removes the archive's file, whether or not the archive could be
  -- wrapped, uploaded and finalized.
  pub save_reserved_cache-remove_file :
      (allowed : Bool) (key : Text) (archive : ReservedCacheArchive)
      → w.produce ≡ ok archive
      → In produce_archive (save_reserved_cache w allowed key).1
      → In (remove_file archive.archive_path) (save_reserved_cache w allowed key).1
  unfolding save_produced
  save_reserved_cache-remove_file allowed key archive h i =
      save_reserved_cache-In (remove_file archive.archive_path) allowed key archive h
        (λ r. upload_prepared-remove_file key r archive _) i

  -- A save whose archive's path resolves to a file removes the wrapper's temporary folder, of any
  -- name that is not empty, whether or not tar, the upload and the finalization succeed.
  pub save_reserved_cache-remove_directory :
      (allowed : Bool) (key : Text) (archive : ReservedCacheArchive) (folder path : Text)
      (paths : List Text)
      → w.produce ≡ ok archive
      → folder ≢ []
      → w.temp_directory ≡ ok folder
      → w.resolved archive.archive_path ≡ ok (path ∷ paths)
      → In produce_archive (save_reserved_cache w allowed key).1
      → In (remove_directory folder) (save_reserved_cache w allowed key).1
  unfolding save_produced
  save_reserved_cache-remove_directory allowed key archive folder path paths h n t k i =
      save_reserved_cache-In (remove_directory folder) allowed key archive h
        (λ r.
          upload_prepared-remove_directory key r archive folder _ n
            (prepare-CleansUp archive folder path paths t k))
        i

  -- Each step on the way to a save succeeded.
  pub record Succeeded (key : Text) : Type 0 where
    pub reservation : Reservation
    pub archive : ReservedCacheArchive
    pub wrapped : ActionsCacheArchive
    pub id : Option ℕ
    pub reserved : w.reserve ≡ ok (some reservation)
    pub produced : w.produce ≡ ok archive
    pub prepared : (prepare_actions_cache_archive w archive).0 ≡ ok wrapped
    pub sent : (upload_reserved w key reservation wrapped).0 ≡ ok id
