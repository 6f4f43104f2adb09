-- ===== src/Eviction/Laws.antt =====
-- What an eviction pass picks, and what is left when its deletes went well.
use setup_soldr.Base.{ℕ, ◌+◌, ◌-◌, ◌*◌, ◌≤◌, ◌<◌, ◌≡◌, refl, sym, ◌∙◌, ap}
use setup_soldr.Base.{◌⊎◌, inl, inr, true, false, Option, some}
use setup_soldr.Base.{List, [], ◌∷◌, ◌++◌, arith, leb}
use setup_soldr.Base.{nat_eq, list_eq, option_eq, Bool-cases, Option-cases}
use setup_soldr.Base.{filter, all, All, Result, ok, err}
use setup_soldr.Base.Text.{Text}
use setup_soldr.Base.{In, All-filter, All-filter_of_All, All-In_self, All-zip, All-map_of}
use native.Mathlib.Nat.{le_trans}
use mathlib.Core.Path.{subst}
use mathlib.Core.Option.{or_else}
use setup_soldr.Base.Sort.{is_gt, Ordered, All-sort, sort-Ordered}
use setup_soldr.Eviction.{
  CacheEvictionPolicy, CacheEvictionThresholds, CacheEntry, half_gb, half_hour_ms,
  age_floor_for_overshoot, is_foundation, is_evictable, delete_order, evictable, pick, delete_these,
  plan_used, plan_with, plan_eviction, thresholds_for_policy,
}
use setup_soldr.Eviction.Pool.Laws.{total_size}

module _ (epoch_ms : Text → Option ℕ) (now : ℕ) where
  -- An entry that a pass may delete: it has a key with no foundation prefix, and, where its date is
  -- valid, it is at least as old as the age floor.
  pub record MayDelete (floor_ms : ℕ) (c : CacheEntry) : Type 0 where
    pub key : Text
    pub has_key : c.key ≡ some key
    pub no_foundation : is_foundation key ≡ false
    pub old : (created : ℕ) → epoch_ms c.created_at ≡ some created → created + floor_ms ≤ now

  is_evictable-MayDelete :
      (floor_ms : ℕ) (c : CacheEntry)
      → is_evictable epoch_ms now floor_ms c ≡ true
      → MayDelete floor_ms c
  unfolding is_evictable
  is_evictable-MayDelete floor_ms c h = elim (Option-cases c.key) [
    | inl e ↦ absurd (cc (rw e at h))
    | inr (key, e) ↦ record {
      key = key;
      has_key = e;
      no_foundation = ground arith;
      old = λ created dated. ground arith;
    }
  ]

  delete_order_gt :
      (a b : CacheEntry)
      → is_gt (delete_order epoch_ms now a b) ≡ true
      → a.size_in_bytes ≤ b.size_in_bytes
  unfolding delete_order
  delete_order_gt a b h = ground arith

  delete_order_le :
      (a b : CacheEntry)
      → is_gt (delete_order epoch_ms now a b) ≡ false
      → b.size_in_bytes ≤ a.size_in_bytes
  unfolding delete_order
  delete_order_le a b h = ground arith

abbrev pub NotSmaller : CacheEntry → CacheEntry → Type 0
NotSmaller a b = b.size_in_bytes ≤ a.size_in_bytes

module _ (target : ℕ) where
  pick-All :
      (P : CacheEntry → Type 0) (usage : ℕ) (cs : List CacheEntry)
      → All P cs
      → All P (pick target usage cs)
  unfolding pick
  pick-All P usage [] h = tt
  pick-All P usage (c ∷ cs) (p, h) = ground (arith, pick-All P (usage - c.size_in_bytes) cs h)

  pick-Ordered :
      (usage : ℕ) (cs : List CacheEntry)
      → Ordered NotSmaller cs
      → Ordered NotSmaller (pick target usage cs)
  unfolding pick
  pick-Ordered usage [] h = tt
  pick-Ordered usage (c ∷ cs) (p, h) = ground (
    arith,
    pick-Ordered (usage - c.size_in_bytes) cs h,
    pick-All (NotSmaller c) (usage - c.size_in_bytes) cs p,
  )

  -- The loop ends below the target, or all that may be deleted is picked.
  pick_enough :
      (usage : ℕ) (cs : List CacheEntry)
      → (usage ≤ target + total_size (pick target usage cs)) ⊎ (pick target usage cs ≡ cs)
  unfolding pick total_size
  pick_enough usage [] = inr refl
  pick_enough usage (c ∷ cs) = ground (arith, pick_enough (usage - c.size_in_bytes) cs)

  -- Nothing is picked once the target is met.
  pick_needed :
      (usage : ℕ) (cs before : List CacheEntry) (c : CacheEntry) (after : List CacheEntry)
      → pick target usage cs ≡ before ++ (c ∷ after)
      → target + total_size before < usage
  unfolding pick total_size
  pick_needed usage [] [] c after h = absurd (cc)
  pick_needed usage [] (b ∷ before) c after h = absurd (cc)
  pick_needed usage (x ∷ cs) [] c after h = ground arith
  pick_needed usage (x ∷ cs) (b ∷ before) c after h =
      ground (arith, pick_needed (usage - x.size_in_bytes) cs before c after)

module _ (epoch_ms : Text → Option ℕ) (now : ℕ) where
  -- What a pass over `caches` may ask the API to delete at a usage above the trigger.
  pub record IsPlan (t : CacheEvictionThresholds) (usage : ℕ) (caches picked : List CacheEntry)
      : Type 0 where
    pub over : t.trigger_half_gb * half_gb < usage
    pub allowed :
        All
          (λ c.
            MayDelete epoch_ms now (age_floor_for_overshoot usage t * half_hour_ms) c × In c caches)
          picked
    pub largest_first : Ordered NotSmaller picked
    pub enough :
        (usage ≤ t.target_half_gb * half_gb + total_size picked)
        ⊎ (picked ≡ evictable epoch_ms now t usage caches)
    pub needed :
        (before : List CacheEntry) (c : CacheEntry) (after : List CacheEntry)
        → picked ≡ before ++ (c ∷ after)
        → t.target_half_gb * half_gb + total_size before < usage

  evictable_allowed :
      (t : CacheEvictionThresholds) (usage : ℕ) (caches : List CacheEntry)
      → All
          (λ c.
            MayDelete epoch_ms now (age_floor_for_overshoot usage t * half_hour_ms) c × In c caches)
          (evictable epoch_ms now t usage caches)
  unfolding evictable
  evictable_allowed t usage caches =
      let floor_ms = age_floor_for_overshoot usage t * half_hour_ms in
      let test = is_evictable epoch_ms now floor_ms in
      All-sort (delete_order epoch_ms now) (λ c. MayDelete epoch_ms now floor_ms c × In c caches)
        (filter test caches)
        (All-zip (MayDelete epoch_ms now floor_ms) (λ c. In c caches) (filter test caches)
          (All-map_of (λ c. test c ≡ true) (MayDelete epoch_ms now floor_ms)
            (is_evictable-MayDelete epoch_ms now floor_ms) (filter test caches)
            (All-filter test caches))
          (All-filter_of_All (λ c. In c caches) test caches (All-In_self caches)))

  evictable-Ordered :
      (t : CacheEvictionThresholds) (usage : ℕ) (caches : List CacheEntry)
      → Ordered NotSmaller (evictable epoch_ms now t usage caches)
  unfolding evictable
  evictable-Ordered t usage caches =
      sort-Ordered (delete_order epoch_ms now) NotSmaller (λ x y z h k. le_trans k h)
        (delete_order_gt epoch_ms now) (delete_order_le epoch_ms now)
        (filter (is_evictable epoch_ms now (age_floor_for_overshoot usage t * half_hour_ms)) caches)

  pick-IsPlan :
      (t : CacheEvictionThresholds) (usage : ℕ) (caches : List CacheEntry)
      → t.trigger_half_gb * half_gb < usage
      → IsPlan t usage caches
          (pick (t.target_half_gb * half_gb) usage (evictable epoch_ms now t usage caches))
  pick-IsPlan t usage caches over =
      let target = t.target_half_gb * half_gb in
      let cs = evictable epoch_ms now t usage caches in
      record {
        over = over;
        allowed =
            pick-All target
              (λ c.
                MayDelete epoch_ms now (age_floor_for_overshoot usage t * half_hour_ms) c
                × In c caches)
              usage cs (evictable_allowed t usage caches);
        largest_first = pick-Ordered target usage cs (evictable-Ordered t usage caches);
        enough = pick_enough target usage cs;
        needed = pick_needed target usage cs;
      }

  abbrev PlannedBy :
      CacheEvictionThresholds → Result ℕ → Result (List CacheEntry) → ℕ → List CacheEntry → Type 0
  PlannedBy t used listed usage picked =
      (caches : List CacheEntry) × (used ≡ ok usage)
      × (listed ≡ ok caches)
      × IsPlan t usage caches picked

  plan_used_sound :
      (t : CacheEvictionThresholds) (used : Result ℕ) (listed : Result (List CacheEntry))
      (usage : ℕ) (picked : List CacheEntry)
      → plan_used epoch_ms now t used listed ≡ delete_these usage picked
      → PlannedBy t used listed usage picked
  unfolding plan_used
  plan_used_sound t (err e) listed usage picked h = absurd (cc)
  plan_used_sound t (ok n) (err e) usage picked h = absurd (ground arith)
  plan_used_sound t (ok n) (ok caches) usage picked h =
      elim (Bool-cases (leb n (t.trigger_half_gb * half_gb))) [
        | inl below ↦ absurd (ground (arith, below))
        | inr over ↦
            let plan : delete_these n
                  (pick (t.target_half_gb * half_gb) n (evictable epoch_ms now t n caches))
                ≡ delete_these usage picked =
              ground (arith, over, h) in
            let same : n ≡ usage = cc plan in
            let all : pick (t.target_half_gb * half_gb) n (evictable epoch_ms now t n caches)
                ≡ picked =
              cc plan in
            (
              caches,
              ap ok same,
              refl,
              subst (λ u. IsPlan t u caches picked) same
                  (subst (IsPlan t n caches) all (pick-IsPlan t n caches (ground (arith, over)))),
            )
      ]

  -- A pass that deletes anything runs over the trigger of its thresholds, and what it picks comes
  -- from the list: with a key, no foundation prefix and, where the date is valid, an age not below
  -- the floor; the largest first; enough to reach the target, or all that may be deleted; and no
  -- entry once those before it reach the target.
  pub plan_eviction_sound :
      (policy : CacheEvictionPolicy) (override : Option CacheEvictionThresholds) (used : Result ℕ)
      (listed : Result (List CacheEntry)) (usage : ℕ) (picked : List CacheEntry)
      → plan_eviction epoch_ms now policy override used listed ≡ delete_these usage picked
      → (t : CacheEvictionThresholds) × (caches : List CacheEntry) × (or_else override
            (thresholds_for_policy policy)
          ≡ some t)
        × (used ≡ ok usage)
        × (listed ≡ ok caches)
        × IsPlan t usage caches picked
  unfolding plan_eviction
  plan_eviction_sound policy override used listed usage picked h =
      elim (Option-cases (or_else override (thresholds_for_policy policy))) [
        | inl off ↦ absurd (cc (sym (ap (λ o. plan_with epoch_ms now o used listed) off) ∙ h))
        | inr (t, on) ↦
            let (caches, found, all, plan) =
              plan_used_sound t used listed usage picked
                (sym (ap (λ o. plan_with epoch_ms now o used listed) on) ∙ h) in
            (t, caches, on, found, all, plan)
      ]
