-- ===== src/Eviction/Tests.antt =====
-- A pass of src/lib/cache-eviction.ts over three entries, and a repair.
use setup_soldr.Base.Text.{starts_with}
use setup_soldr.Base.{sym, ◌∙◌}
use setup_soldr.Base.{ℕ, ◌≡◌, refl}
use setup_soldr.Base.{◌≢◌, true, Option, none, some}
use setup_soldr.Base.{List, [], ◌∷◌, arith}
use setup_soldr.Base.{nat_eq, list_eq, option_eq}
use setup_soldr.Base.{Result, ok}
use setup_soldr.Base.Text.{Text, text, trim}
use mathlib.Core.Option.{or_else}
use setup_soldr.Eviction.{
  aggressive, CacheEvictionThresholds, CacheEntry, thresholds_for_policy, plan_eviction,
  delete_these,
}
use setup_soldr.Eviction.Laws.{IsPlan, plan_eviction_sound}
use setup_soldr.Eviction.Pool.{
  Pool, start_pool, take_entry, settle_entry, removed, failed, take_next, settle, Reach, here, next,
  DeleteOutcome,
}
use setup_soldr.Eviction.Pool.Laws.{IsValid, Reach-IsValid}
use setup_soldr.Eviction.Repair.{repair_keys, delete_cache_entries_by_keys}
use setup_soldr.Eviction.Repair.Laws.{IsRepair, delete_cache_entries_by_keys_sound}

abbrev epoch : Text → Option ℕ
epoch s = some 0

abbrev now : ℕ
now = 1000000000000

abbrev big : CacheEntry
big = record {
  id = 1;
  key = some (text "build-a");
  size_in_bytes = 3221225472;
  created_at = text "a";
}

abbrev small : CacheEntry
small = record { id = 2; key = some (text "build-b"); size_in_bytes = 1000; created_at = text "b" }

abbrev base_layer : CacheEntry
base_layer = record {
  id = 3;
  key = some (text "cook-base-v2-x");
  size_in_bytes = 5368709120;
  created_at = text "c";
}

abbrev listed : List CacheEntry
listed = small ∷ base_layer ∷ big ∷ []

picks :
    plan_eviction epoch now aggressive none (ok 8589934592) (ok listed)
    ≡ delete_these 8589934592 (big ∷ [])
unfolding plan_eviction starts_with nat_eq
picks = refl

plan_eviction_sound_example :
    (t : CacheEvictionThresholds) × (caches : List CacheEntry) × (or_else none
        (thresholds_for_policy aggressive)
      ≡ some t)
    × (◌≡◌ {A = Result ℕ} (ok 8589934592) (ok 8589934592))
    × (◌≡◌ {A = Result (List CacheEntry)} (ok listed) (ok caches))
    × IsPlan epoch now t 8589934592 caches (big ∷ [])
plan_eviction_sound_example =
    plan_eviction_sound epoch now aggressive none (ok 8589934592) (ok listed) 8589934592 (big ∷ [])
      picks

abbrev queue : List CacheEntry
queue = big ∷ small ∷ []

abbrev first : Pool
first = take_entry big (small ∷ []) (start_pool queue)

abbrev second : Pool
second = take_entry small [] first

abbrev denied : Pool
denied = settle_entry (failed (some 403)) big (small ∷ []) second

abbrev last : Pool
last = settle_entry removed small [] denied

reaches : Reach (start_pool queue) denied
unfolding start_pool take_entry
reaches =
    next
      (next (next here (take_next (start_pool queue) big (small ∷ []) refl refl (omega arith)))
        (take_next first small [] refl refl (omega arith)))
      (settle second (failed (some 403)) big (small ∷ []) [] refl)

Reach-IsValid_example : IsValid queue denied
Reach-IsValid_example = Reach-IsValid queue reaches

stopped : denied.aborted ≡ true
unfolding settle_entry take_entry start_pool nat_eq
stopped = refl

goes_on : Reach denied last
unfolding settle_entry take_entry start_pool
goes_on = next here (settle denied removed small [] [] refl)

abbrev list_for : Text → Result (List CacheEntry)
list_for key = ok listed

abbrev delete : ℕ → DeleteOutcome
delete id = removed

poisoned_keys : repair_keys (text " build-a " ∷ []) ≢ []
unfolding repair_keys trim text list_eq nat_eq
poisoned_keys =
    λ e. let f : repair_keys (text " build-a " ∷ []) ≡ text "build-a" ∷ [] = refl in cc (sym e ∙ f)

delete_cache_entries_by_keys_sound_example :
    IsRepair delete list_for (repair_keys (text " build-a " ∷ [])) (
      delete_cache_entries_by_keys list_for delete
        (text "o")
        (text "r")
        (text "t")
        (text " build-a " ∷ []))
unfolding text
delete_cache_entries_by_keys_sound_example =
    delete_cache_entries_by_keys_sound delete list_for (text "o") (text "r") (text "t")
      (text " build-a " ∷ []) refl refl refl poisoned_keys
