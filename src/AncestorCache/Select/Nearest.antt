-- ===== src/AncestorCache/Select/Nearest.antt =====
-- What `selectAncestorCache` guarantees of the entry that it selects.
use setup_soldr.Base.{ℕ, zero, suc, ◌≤◌, ◌<◌, ◌≡◌, refl, ap}
use setup_soldr.Base.{inl, inr, true, false, Option, none, some}
use setup_soldr.Base.{List, [], ◌∷◌, arith}
use setup_soldr.Base.{nat_eq, list_eq, option_eq, Bool-cases, take}
use setup_soldr.Base.{All, Result, ok, err}
use setup_soldr.Base.{>>=-eq-ok}
use setup_soldr.Base.Text.{Text}
use Prim.Native.Nat.{Ordering}
use setup_soldr.Base.{In, All-In}
use setup_soldr.Base.{All-take, All-In_self}
use setup_soldr.Base.Sort.{Ordered-take, sort, is_gt, Ordered, In-sort, All-sort, sort-Ordered}
use mathlib.Core.Path.{subst}
use setup_soldr.Base.{sym}
use native.Mathlib.Nat.{le_trans}
use setup_soldr.AncestorCache.Select.{
  AncestorSelection, select_from, select_ancestor_cache, conclude,
}
use setup_soldr.Base.{ltb, length, >>=-eq-ok}
use setup_soldr.AncestorCache.{AncestorKey}
use setup_soldr.Base.{>>=-eq-ok, Bool-cases, Result, err, inl, inr, refl, none}
use setup_soldr.AncestorCache.Select.{
  AncestorCacheEntry, AncestorBackend, Ranked, candidate_key, nearer, first_clean,
}
use setup_soldr.AncestorCache.Select.Ranking.{
  IsRanked, ranks, rank_entries_sound, rank_entries_complete,
}
use setup_soldr.AncestorCache.Select.{select_listed}
use setup_soldr.Base.{ap, ◌∙◌}

module _ {A : Type 0} where
  module _ (m : A → ℕ) where
    -- What is strictly smaller than something taken is taken too.
    In-take :
        (n : ℕ) (xs : List A) (q r : A)
        → Ordered (λ a b. m a ≤ m b) xs
        → In q xs
        → In r (take n xs)
        → m q < m r
        → In q (take n xs)
    In-take zero xs q r h i j lt = absurd j
    In-take (suc n) [] q r h i j lt = absurd i
    In-take (suc n) (x ∷ xs) q r (p, h) (inl e) j lt = inl e
    In-take (suc n) (x ∷ xs) q r (p, h) (inr i) (inl e) lt =
        let below : m x ≤ m q = All-In (λ y. m x ≤ m y) q xs p i in
        let same : m r ≡ m x = ap m e in absurd (omega arith)
    In-take (suc n) (x ∷ xs) q r (p, h) (inr i) (inr j) lt = inr (In-take n xs q r h i j lt)

lt_weaken : {a b : ℕ} → a < b → a ≤ b
lt_weaken h = omega arith

module _ (locale_compare : Text → Text → Ordering) (identity : Text) (refs : List Text)
    (backend : AncestorBackend) where
  nearer_gt :
      (a b : Ranked)
      → is_gt (nearer locale_compare identity refs backend a b) ≡ true
      → b.distance ≤ a.distance
  unfolding nearer
  nearer_gt a b h = ground arith

  nearer_le :
      (a b : Ranked)
      → is_gt (nearer locale_compare identity refs backend a b) ≡ false
      → a.distance ≤ b.distance
  unfolding nearer
  nearer_le a b h = ground arith

  first_clean_nearest :
      (cs : List Ranked) (q r : Ranked)
      → Ordered (λ a b. a.distance ≤ b.distance) cs
      → first_clean locale_compare identity refs backend cs ≡ ok (some r)
      → In q cs
      → q.distance < r.distance
      → backend.clean_save q.entry q.key ≡ ok false
  unfolding first_clean
  first_clean_nearest [] q r o h i lt = absurd i
  first_clean_nearest (c ∷ cs) q r (p, o) h (inl e) lt = ground arith
  first_clean_nearest (c ∷ cs) q r (p, o) h (inr i) lt =
      ground (arith, first_clean_nearest cs q r o, All-In (λ y. c.distance ≤ y.distance) q cs p i)

  first_clean_sound :
      (cs : List Ranked) (r : Ranked)
      → first_clean locale_compare identity refs backend cs ≡ ok (some r)
      → In r cs × (backend.clean_save r.entry r.key ≡ ok true)
  unfolding first_clean
  first_clean_sound [] r h = cc
  first_clean_sound (c ∷ cs) r h = ground (arith, first_clean_sound cs r)

  -- What holds of a selected entry.
  pub record IsNearestClean (entries : List AncestorCacheEntry) (entry : AncestorCacheEntry)
      (distance : ℕ) : Type 0 where
    pub key : AncestorKey
    pub fits : candidate_key identity refs entry ≡ some key
    pub measured : backend.distance key.sha ≡ ok (some distance)
    pub within_bound : distance ≤ 200
    pub listed : In entry entries
    pub clean : backend.clean_save entry key ≡ ok true
    pub nearest :
        (other : AncestorCacheEntry) (other_key : AncestorKey) (d : ℕ)
        → In other entries
        → candidate_key identity refs other ≡ some other_key
        → backend.distance other_key.sha ≡ ok (some d)
        → d < distance
        → backend.clean_save other other_key ≡ ok false

  selected_from :
      (entries : List AncestorCacheEntry) (rs : List Ranked) (r : Ranked)
      → ranks locale_compare identity refs backend entries 0 ≡ ok rs
      → first_clean locale_compare identity refs backend
          (take 20 (sort (nearer locale_compare identity refs backend) rs))
        ≡ ok (some r)
      → IsNearestClean entries r.entry r.distance
  selected_from entries rs r e h =
      let cmp = nearer locale_compare identity refs backend in
      let sorted = sort cmp rs in
      let in_order : Ordered (λ a b. a.distance ≤ b.distance) sorted =
        sort-Ordered cmp (λ a b. a.distance ≤ b.distance) (λ x y z h k. le_trans h k) nearer_gt
          nearer_le rs in
      let ranked : All (λ c. IsRanked locale_compare identity refs backend c × In c.entry entries)
          rs =
        rank_entries_sound locale_compare identity refs backend (λ x. In x entries) entries 0 rs
          (All-In_self entries) e in
      let (taken, clean) = first_clean_sound (take 20 sorted) r h in
      let (mine, listed) =
        All-In (λ c. IsRanked locale_compare identity refs backend c × In c.entry entries) r
          (take 20 sorted)
          (All-take (λ c. IsRanked locale_compare identity refs backend c × In c.entry entries) 20
            sorted
            (All-sort cmp
              (λ c. IsRanked locale_compare identity refs backend c × In c.entry entries) rs
              ranked))
          taken in
      record {
        key = r.key;
        fits = mine.fits;
        measured = mine.measured;
        within_bound = mine.near;
        listed = listed;
        clean = clean;
        nearest = λ other other_key d i fits measured lt.
            let q : Ranked = record { entry = other; key = other_key; distance = d } in
            let here : In q rs =
              rank_entries_complete locale_compare identity refs backend entries 0 rs q e
                (record {
                  fits = fits;
                  measured = measured;
                  near = le_trans (lt_weaken lt) mine.near;
                })
                i in
            first_clean_nearest (take 20 sorted) q r
              (Ordered-take (λ a b. a.distance ≤ b.distance) 20 sorted in_order) h
              (In-take (λ c. c.distance) 20 sorted q r in_order (In-sort cmp q rs here) taken lt)
              lt;
      }

  conclusion : Result (Option Ranked) → ℕ → AncestorSelection
  conclusion = conclude locale_compare identity refs backend

  conclude_sound :
      (r : Result (Option Ranked)) (n : ℕ) (entry : AncestorCacheEntry)
      → (conclusion r n).entry ≡ some entry
      → (c : Ranked) × (r ≡ ok (some c))
        × (c.entry ≡ entry)
        × ((conclusion r n).distance ≡ some c.distance)
  unfolding conclusion conclude
  conclude_sound (ok (some c)) n entry h = (c, refl, cc, refl)
  conclude_sound (ok none) n entry h = cc
  conclude_sound (err e) n entry h = cc

  -- The conclusion of `select_from` is reached from a ranked candidate.
  select_from_sound :
      (entries : List AncestorCacheEntry) (entry : AncestorCacheEntry)
      → (select_from locale_compare identity refs backend entries).entry ≡ some entry
      → (d : ℕ) × ((select_from locale_compare identity refs backend entries).distance ≡ some d)
        × IsNearestClean entries entry d
  unfolding select_from ranks conclusion
  select_from_sound entries entry found =
      let (c, chosen, same, far) = conclude_sound _ _ entry found in
      let (rs, ranked, first) =
        >>=-eq-ok (ranks locale_compare identity refs backend entries 0) _ chosen in
      (c.distance, far, rw (← same) (selected_from entries rs c ranked first))

  select_ancestor_cache-select_from :
      (entries : List AncestorCacheEntry)
      → backend.list ≡ ok entries
      → ltb 600 (length entries) ≡ false
      → select_ancestor_cache locale_compare identity refs backend
        ≡ select_from locale_compare identity refs backend entries
  unfolding select_ancestor_cache
  select_ancestor_cache-select_from entries listed fits =
      ap (select_listed locale_compare identity refs backend) listed ∙ rw fits

  -- An entry that is selected is one that the backend listed; its key parses to a key that fits
  -- the identity, its ref is visible and names the key's pull request; its distance is known, at
  -- most 200 and the one returned; its save was proved clean; and no listed entry that fits and
  -- lies nearer has a clean save.
  pub select_ancestor_cache_sound :
      (entries : List AncestorCacheEntry) (entry : AncestorCacheEntry)
      → backend.list ≡ ok entries
      → (select_ancestor_cache locale_compare identity refs backend).entry ≡ some entry
      → (d : ℕ) × ((select_ancestor_cache locale_compare identity refs backend).distance ≡ some d)
        × IsNearestClean entries entry d
  unfolding select_ancestor_cache
  select_ancestor_cache_sound entries entry listed found =
      elim (Bool-cases (ltb 600 (length entries))) [
        | inl over ↦ absurd (ground (arith, listed, over, found))
        | inr fits ↦
            subst
              (λ s.
                (s.entry ≡ some entry)
                → (d : ℕ) × (s.distance ≡ some d) × IsNearestClean entries entry d)
              (sym (select_ancestor_cache-select_from entries listed fits))
              (select_from_sound entries entry) found
      ]
