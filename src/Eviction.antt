-- ===== src/Eviction.antt =====
-- src/lib/cache-eviction.ts: which cache entries a pass deletes. Sizes are bytes, thresholds halves
-- of a gigabyte and halves of an hour, times milliseconds. The API's answers are arguments.
pub mod Pool
pub mod Repair
pub mod Laws
mod Tests
use setup_soldr.Base.{ℕ, ◌+◌, ◌-◌, ◌*◌}
use setup_soldr.Base.{Bool, false, not, ◌&&◌, Option, none, some}
use setup_soldr.Base.{List, [], ◌∷◌, ◌++◌, if◌then◌else◌, ltb, leb}
use setup_soldr.Base.{nat_eq, list_eq, option_eq}
use setup_soldr.Base.{filter, any, Result, ok, err}
use setup_soldr.Base.Text.{Text, text, starts_with}
use setup_soldr.Base.Text.{is_empty}
use Prim.Native.Nat.{compare, Ordering, min}
use mathlib.Core.Option.{or_else}
use setup_soldr.Base.Sort.{sort}
use setup_soldr.Base.Int.{ℤ}

unfoldable pub foundation_prefixes : List Text
unfolding text
foundation_prefixes =
    text "solo-toolchain-v"
    ∷ text "soldr-mini-"
    ∷ text "setup-soldr-v"
    ∷ text "setup-soldr-cargoregistry-v"
    ∷ text "cook-base-v2-"
    ∷ text "setup-soldr-prepare-v1-"
    ∷ text "setup-soldr-prepare-v2-"
    ∷ text "setup-soldr-prepare-v3-"
    ∷ []

pub data CacheEvictionPolicy : Type 0 where
  disabled protect_foundations aggressive : CacheEvictionPolicy

pub record CacheEvictionThresholds : Type 0 where
  pub trigger_half_gb : ℕ
  pub target_half_gb : ℕ
  pub min_age_half_hours : ℕ

abbrev pub half_gb : ℕ
half_gb = 536870912

abbrev pub gb : ℕ
gb = 1073741824

abbrev pub half_hour_ms : ℕ
half_hour_ms = 1800000

-- `overshoot <= n` is `usage <= trigger + n`.
unfoldable pub age_floor_for_overshoot : ℕ → CacheEvictionThresholds → ℕ
age_floor_for_overshoot usage t =
    if leb usage (t.trigger_half_gb * half_gb + gb)
    then t.min_age_half_hours
    else if leb usage (t.trigger_half_gb * half_gb + 3 * gb)
    then min 4 t.min_age_half_hours
    else 1

unfoldable pub thresholds_for_policy : CacheEvictionPolicy → Option CacheEvictionThresholds
thresholds_for_policy disabled = none
thresholds_for_policy protect_foundations =
    some (record { trigger_half_gb = 19; target_half_gb = 18; min_age_half_hours = 12 })
thresholds_for_policy aggressive =
    some (record { trigger_half_gb = 14; target_half_gb = 12; min_age_half_hours = 4 })

pub record CacheEntry : Type 0 where
  pub id : ℕ
  pub key : Option Text
  pub size_in_bytes : ℕ
  pub created_at : Text

pub record EvictResult : Type 0 where
  pub fired : Bool
  pub reason : Option Text
  pub usage_before : Option ℕ
  pub usage_after : Option ℤ
  pub deleted_count : Option ℕ
  pub deleted_bytes : Option ℕ

unfoldable pub is_foundation : Text → Bool
unfolding foundation_prefixes
is_foundation key = any (λ p. starts_with key p) foundation_prefixes

-- `createdMs > Date.now() - floorMs`; an invalid date compares as false.
abbrev pub is_fresh : Option ℕ → ℕ → ℕ → Bool
is_fresh none now floor_ms = false
is_fresh (some created) now floor_ms = ltb now (created + floor_ms)

abbrev by_age : Option ℕ → Option ℕ → Ordering
by_age (some a) (some b) = compare a b
by_age _ _ = Ordering.eq

abbrev then_by : Ordering → Ordering → Ordering
then_by Ordering.eq later = later
then_by first later = first

-- `epoch_ms` is `new Date(s).getTime()`, `none` for NaN.
module _ (epoch_ms : Text → Option ℕ) (now : ℕ) where
  unfoldable pub is_evictable : ℕ → CacheEntry → Bool
  unfolding is_foundation
  is_evictable floor_ms c = elim c.key [
    | none ↦ false
    | some key ↦
        not (is_empty key)
        && (not (is_foundation key) && not (is_fresh (epoch_ms c.created_at) now floor_ms))
  ]

  -- Larger first, then older first.
  unfoldable pub delete_order : CacheEntry → CacheEntry → Ordering
  delete_order a b =
      then_by (compare b.size_in_bytes a.size_in_bytes)
        (by_age (epoch_ms a.created_at) (epoch_ms b.created_at))

  unfoldable pub evictable : CacheEvictionThresholds → ℕ → List CacheEntry → List CacheEntry
  unfolding is_evictable delete_order age_floor_for_overshoot sort
  evictable t usage caches =
      sort delete_order
        (filter (is_evictable (age_floor_for_overshoot usage t * half_hour_ms)) caches)

-- The loop that fills `toDelete`.
unfoldable pub pick : ℕ → ℕ → List CacheEntry → List CacheEntry
pick target predicted [] = []
pick target predicted (c ∷ cs) =
    let rest = pick target (predicted - c.size_in_bytes) cs in
    if leb predicted target then [] else c ∷ rest

pub data Plan : Type 0 where
  stop : EvictResult → Plan
  delete_these : ℕ → List CacheEntry → Plan

abbrev not_fired : Text → Option ℕ → EvictResult
not_fired reason usage = record {
  fired = false;
  reason = some reason;
  usage_before = usage;
  usage_after = none;
  deleted_count = none;
  deleted_bytes = none;
}

module _ (epoch_ms : Text → Option ℕ) (now : ℕ) where
  plan_listed : CacheEvictionThresholds → ℕ → Result (List CacheEntry) → Plan
  unfolding evictable pick
  plan_listed t usage (err e) = stop (not_fired (text "list-api-failed: " ++ e) (some usage))
  plan_listed t usage (ok caches) =
      delete_these usage
        (pick (t.target_half_gb * half_gb) usage (evictable epoch_ms now t usage caches))

  plan_used : CacheEvictionThresholds → Result ℕ → Result (List CacheEntry) → Plan
  unfolding plan_listed
  plan_used t (err e) caches = stop (not_fired (text "usage-api-failed: " ++ e) none)
  plan_used t (ok usage) caches =
      if leb usage (t.trigger_half_gb * half_gb)
      then stop (record {
        fired = false;
        reason = some (text "under-trigger");
        usage_before = some usage;
        usage_after = some (ℤ.pos usage);
        deleted_count = some 0;
        deleted_bytes = some 0;
      })
      else plan_listed t usage caches

  plan_with : Option CacheEvictionThresholds → Result ℕ → Result (List CacheEntry) → Plan
  unfolding plan_used
  plan_with none usage caches = stop (not_fired (text "policy=disabled") none)
  plan_with (some t) usage caches = plan_used t usage caches

  -- `evictIfOverBudget` up to the deletes; `Pool` has these and what is returned after them.
  unfoldable pub plan_eviction :
      CacheEvictionPolicy
      → Option CacheEvictionThresholds
      → Result ℕ
      → Result (List CacheEntry)
      → Plan
  unfolding plan_with thresholds_for_policy or_else
  plan_eviction policy override usage caches =
      plan_with (or_else override (thresholds_for_policy policy)) usage caches
