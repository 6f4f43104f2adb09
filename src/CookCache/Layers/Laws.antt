-- ===== src/CookCache/Layers/Laws.antt =====
-- What is restored and loaded of the two layers, and what a delta layer needs.
use setup_soldr.Base.{ℕ, zero, suc, ◌<◌, ◌≡◌, refl, sym, ap}
use setup_soldr.Base.{◌≢◌, ◌↔◌, inl, inr, Bool, true, false, Option, none, some}
use setup_soldr.Base.{List, [], ◌∷◌, arith, ◌==◌, ==_iff}
use setup_soldr.Base.{nat_eq, list_eq, option_eq, length}
use setup_soldr.Base.{get_or, Result, ok, err}
use setup_soldr.Base.Text.{Text}
use setup_soldr.Base.{In}
use mathlib.Core.Path.{subst}
use setup_soldr.CookCache.Layers.{
  CookLayerRestoreInfo, CookLayeredRestoreResult, Lookup, Answer, CookLayeredRestoreOpts,
  layer_miss, archive_size, info_of, layer_info, restore_one_layer, restore_layers, over_base,
  restore_layered_cook_cache_archives, CookLayerLoadReport, SoldrJsonRun, CookLayeredLoadResult,
  CookLayeredLoadOpts,
}

-- What the result of one layer says: a hit has the key and a payload, a miss has neither.
pub record IsLayer (key path : Text) (i : CookLayerRestoreInfo) : Type 0 where
  pub hit_iff : (i.hit ≡ true) ↔ ((i.matched_key ≡ key) × (i.matched_key ≢ []))
  pub empty_iff : (i.archive_bytes ≡ 0) ↔ (i.matched_key ≡ [])
  pub path_eq : i.archive_path ≡ path

layer_miss-IsLayer : (key path : Text) → IsLayer key path (layer_miss path)
layer_miss-IsLayer key path = record {
  hit_iff = (λ h. cc, λ h. absurd (h.1 refl));
  empty_iff = (λ h. refl, λ h. refl);
  path_eq = refl;
}

info_of-IsLayer :
    (key path : Text) (m : Result (Option Text)) (bytes : ℕ)
    → IsLayer key path (info_of key path m bytes)
unfolding info_of
info_of-IsLayer key path (err e) bytes = layer_miss-IsLayer key path
info_of-IsLayer key path (ok none) bytes = layer_miss-IsLayer key path
info_of-IsLayer key path (ok (some [])) bytes = layer_miss-IsLayer key path
info_of-IsLayer key path (ok (some (c ∷ m))) bytes = record {
  hit_iff = (λ h. ground (arith, ==_iff (c ∷ m) key), λ h. ground (arith, ==_iff (c ∷ m) key));
  empty_iff = (λ h. ground arith, λ h. ground arith);
  path_eq = ground arith;
}

-- What the result of one layer has of the client's answer: a key is reported, with the bytes, exactly
-- if the client matched it and left an archive of that size.
pub record IsAnswered (a : Answer) (i : CookLayerRestoreInfo) : Type 0 where
  pub matched_iff :
      (key : Text) (bytes : ℕ)
      → key ≢ []
      → 0 < bytes
      → ((i.matched_key ≡ key) × (i.archive_bytes ≡ bytes))
        ↔ ((a.matched ≡ ok (some key)) × (a.size ≡ some bytes))

layer_miss-IsAnswered :
    (path : Text) (a : Answer)
    → ((key : Text) (bytes : ℕ)
        → key ≢ []
        → 0 < bytes
        → a.matched ≡ ok (some key)
        → a.size ≡ some bytes
        → ⊥)
    → IsAnswered a (layer_miss path)
layer_miss-IsAnswered path a never = record {
  matched_iff = λ key bytes filled large.
      (λ (k, n). absurd (filled (sym k)), λ (m, n). absurd (never key bytes filled large m n));
}

info_of_empty :
    (key path : Text) (c : ℕ) (s : Text) → info_of key path (ok (some (c ∷ s))) 0 ≡ layer_miss path
unfolding info_of
info_of_empty key path c s = ground arith

info_of_full :
    (key path : Text) (c : ℕ) (s : Text) (n : ℕ)
    → info_of key path (ok (some (c ∷ s))) (suc n) ≡ record {
      hit = (c ∷ s) == key;
      matched_key = c ∷ s;
      archive_path = path;
      archive_bytes = suc n;
    }
unfolding info_of
info_of_full key path c s n = ground arith

layer_info-IsAnswered : (l : Lookup) (a : Answer) → IsAnswered a (layer_info l a)
unfolding layer_info info_of
layer_info-IsAnswered l a = go a.matched a.size
  where
    go :
        (m : Result (Option Text)) (n : Option ℕ)
        → IsAnswered
            (record { matched = m; size = n })
            (info_of l.key l.archive_path m (archive_size n))
    go (err e) n = layer_miss-IsAnswered _ _ (λ key bytes filled large h k. cc)
    go (ok none) n = layer_miss-IsAnswered _ _ (λ key bytes filled large h k. cc)
    go (ok (some [])) n =
        layer_miss-IsAnswered _ _ (λ key bytes filled large h k. filled (let e = h in cc))
    go (ok (some (c ∷ s))) none =
        subst (IsAnswered _) (sym (info_of_empty l.key l.archive_path c s))
          (layer_miss-IsAnswered _ _ (λ key bytes filled large h k. cc))
    go (ok (some (c ∷ s))) (some zero) =
        subst (IsAnswered _) (sym (info_of_empty l.key l.archive_path c s)) (
          layer_miss-IsAnswered _ _
            (λ key bytes filled large h k. omega (arith, large, let e : 0 ≡ bytes = cc in e)))
    go (ok (some (c ∷ s))) (some (suc n)) =
        subst (IsAnswered _) (sym (info_of_full l.key l.archive_path c s n)) (record {
          matched_iff = λ key bytes filled large. (
            λ (k, b). (ap (λ t. ok (some t)) k, ap some b),
            λ (k, b). ((let e : (c ∷ s) ≡ key = cc in e), (let e : suc n ≡ bytes = cc in e)),
          );
        })

abbrev delta_lookup : CookLayeredRestoreOpts → Lookup
delta_lookup o = record {
  archive_path = o.delta_archive_path;
  key = o.delta_key;
  restore_keys = get_or o.delta_restore_keys [];
}

abbrev base_lookup : CookLayeredRestoreOpts → Lookup
base_lookup o = record { archive_path = o.base_archive_path; key = o.base_key; restore_keys = [] }

-- What the restore of the two layers says.
pub record IsRestore (client : Lookup → Answer) (o : CookLayeredRestoreOpts)
    (r : CookLayeredRestoreResult) (asked : List Lookup) : Type 0 where
  pub base_layer : IsLayer o.base_key o.base_archive_path r.base
  pub delta_layer : IsLayer o.delta_key o.delta_archive_path r.delta
  pub base_answered : IsAnswered (client (base_lookup o)) r.base
  pub delta_answered :
      r.base.matched_key ≢ []
      → o.delta_enabled ≢ some false
      → IsAnswered (client (delta_lookup o)) r.delta × In (delta_lookup o) asked
  pub needs_base : r.base.matched_key ≡ [] → r.delta ≡ layer_miss o.delta_archive_path
  pub needs_enabled :
      o.delta_enabled ≡ some false
      → (r.delta ≡ layer_miss o.delta_archive_path) × (length asked ≡ 1)
  pub base_asked : In (base_lookup o) asked

module _ (client : Lookup → Answer) where
  over_base-IsLayer :
      (o : CookLayeredRestoreOpts) (m : Text) (delta : CookLayerRestoreInfo)
      → IsLayer o.delta_key o.delta_archive_path delta
      → IsLayer o.delta_key o.delta_archive_path (over_base client m delta o.delta_archive_path)
  over_base-IsLayer o [] delta h = layer_miss-IsLayer _ _
  over_base-IsLayer o (c ∷ m) delta h = h

  over_base-IsAnswered :
      {a : Answer} (path m : Text) (delta : CookLayerRestoreInfo)
      → m ≢ []
      → IsAnswered a delta
      → IsAnswered a (over_base client m delta path)
  over_base-IsAnswered path [] delta h k = absurd (h refl)
  over_base-IsAnswered path (c ∷ m) delta h k = k

  enabled_off : (o : Option Bool) → get_or o true ≡ false → o ≡ some false
  enabled_off none h = cc
  enabled_off (some b) h = ap some h

  over_base_miss :
      (path m : Text) (delta : CookLayerRestoreInfo)
      → m ≡ []
      → over_base client m delta path ≡ layer_miss path
  over_base_miss path [] delta h = refl
  over_base_miss path (c ∷ m) delta h = cc

  restore_layers-IsRestore :
      (o : CookLayeredRestoreOpts) (b : Bool)
      → (o.delta_enabled ≡ some false → b ≡ false)
      → (b ≡ false → o.delta_enabled ≡ some false)
      → let (result, asked) = restore_layers client b o in IsRestore client o result asked
  unfolding restore_layers restore_one_layer layer_info
  restore_layers-IsRestore o false k off = record {
    base_layer = info_of-IsLayer _ _ _ _;
    delta_layer = layer_miss-IsLayer _ _;
    base_answered = layer_info-IsAnswered (base_lookup o) (client (base_lookup o));
    delta_answered = λ m e. absurd (e (off refl));
    needs_base = λ h. refl;
    needs_enabled = λ h. (refl, refl);
    base_asked = inl refl;
  }
  restore_layers-IsRestore o true k off = record {
    base_layer = info_of-IsLayer _ _ _ _;
    delta_layer = over_base-IsLayer o _ _ (info_of-IsLayer _ _ _ _);
    base_answered = layer_info-IsAnswered (base_lookup o) (client (base_lookup o));
    delta_answered = λ m e. (
      over_base-IsAnswered _ _ _ m
          (layer_info-IsAnswered (delta_lookup o) (client (delta_lookup o))),
      inr (inl refl),
    );
    needs_base = λ h. over_base_miss _ _ _ h;
    needs_enabled = λ h. absurd (let e : true ≡ false = k h in cc);
    base_asked = inl refl;
  }

  -- The restore of the two layers reports each as the client answers: the base layer has a key and a
  -- size exactly if the lookup of the base matched that key and left an archive of that size, above 0;
  -- so has the delta layer of its own lookup, if a base matched and the delta is not disabled, and
  -- otherwise it is a miss. A hit is a match of the exact key. The base is looked up under its exact
  -- key alone, in every case, and a disabled delta is not looked up.
  pub restore_layered_cook_cache_archives-IsRestore :
      (o : CookLayeredRestoreOpts)
      → let (result, asked) = restore_layered_cook_cache_archives client o in
        IsRestore client o result asked
  unfolding restore_layered_cook_cache_archives
  restore_layered_cook_cache_archives-IsRestore o =
      restore_layers-IsRestore o (get_or o.delta_enabled true) (λ h. ap (λ z. get_or z true) h)
        (enabled_off o.delta_enabled)

-- The report of a layer that was loaded: it says how many files came back, more than none.
pub IsReport : Option CookLayerLoadReport → Type 0
IsReport none = ⊥
IsReport (some r) = (n : ℕ) × ((r.cache_files_restored ≡ some n) × (0 < n))

module _ (run : List Text → SoldrJsonRun) (o : CookLayeredLoadOpts) where
  -- What the load says of the layers, with the runs of soldr it made.
  pub record IsLoad (result : CookLayeredLoadResult) (runs : List (List Text)) : Type 0 where
    pub base :
        result.base_loaded ≡ true → (o.restore.base.matched_key ≢ []) × IsReport result.base_report
    pub delta :
        result.delta_loaded ≡ true
        → (result.base_loaded ≡ true)
          × ((o.restore.delta.matched_key ≢ [])
              × (IsReport result.delta_report × (length runs ≡ 2)))
    pub nothing : o.restore.base.matched_key ≡ [] → runs ≡ []
