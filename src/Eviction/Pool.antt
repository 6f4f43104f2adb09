-- ===== src/Eviction/Pool.antt =====
-- The worker pool of `evictIfOverBudget` (src/lib/cache-eviction.ts): at most ten workers take
-- entries from one queue and wait for their deletes, which settle in any order. Between two waits a
-- worker runs undisturbed, so a run is a sequence of the steps below.
pub mod Laws
use setup_soldr.Base.{ℕ, ◌+◌, ◌<◌, ◌≡◌}
use setup_soldr.Base.{Bool, true, false, ◌||◌, Option, none, some}
use setup_soldr.Base.{List, [], ◌∷◌, ◌++◌, ◌==◌}
use setup_soldr.Base.{nat_eq, list_eq, option_eq, length}
use setup_soldr.Base.Int.{sub_ℕ}
use setup_soldr.Eviction.{CacheEntry, EvictResult}

-- How a delete settles: it succeeds, or it throws an error with a status, if that has one.
pub data DeleteOutcome : Type 0 where
  removed : DeleteOutcome
  failed : Option ℕ → DeleteOutcome

pub record Pool : Type 0 where
  -- `toDelete` from `queueIndex` on.
  pub waiting : List CacheEntry
  -- The deletes that a worker waits for.
  pub in_flight : List CacheEntry
  pub deleted : ℕ
  pub deleted_bytes : ℕ
  pub aborted : Bool
  -- What the API was asked: all calls in order, those that succeeded and those that failed.
  pub asked : List CacheEntry
  pub gone : List CacheEntry
  pub kept : List CacheEntry

unfoldable pub start_pool : List CacheEntry → Pool
start_pool to_delete = record {
  waiting = to_delete;
  in_flight = [];
  deleted = 0;
  deleted_bytes = 0;
  aborted = false;
  asked = [];
  gone = [];
  kept = [];
}

-- `const c = toDelete[queueIndex++]; await deleteCacheById(c.id)`, up to the wait.
unfoldable pub take_entry : CacheEntry → List CacheEntry → Pool → Pool
take_entry c rest s = record s {
  waiting = rest;
  in_flight = c ∷ s.in_flight;
  asked = s.asked ++ (c ∷ []);
}

-- The `catch`: 404 counts as already deleted, 401 and 403 stop every worker.
abbrev is_denied : Option ℕ → Bool
is_denied none = false
is_denied (some n) = n == 403 || n == 401

-- The wait is over.
unfoldable pub settle_entry : DeleteOutcome → CacheEntry → List CacheEntry → Pool → Pool
settle_entry removed c flying s = record s {
  in_flight = flying;
  deleted = s.deleted + 1;
  deleted_bytes = s.deleted_bytes + c.size_in_bytes;
  gone = c ∷ s.gone;
}
settle_entry (failed status) c flying s = record s {
  in_flight = flying;
  aborted = s.aborted || is_denied status;
  kept = c ∷ s.kept;
}

abbrev pub concurrency : ℕ
concurrency = 10

pub data Step : Pool → Pool → Type 0 where
  take_next :
      (s : Pool) (c : CacheEntry) (rest : List CacheEntry)
      → s.aborted ≡ false
      → s.waiting ≡ c ∷ rest
      → length s.in_flight < concurrency
      → Step s (take_entry c rest s)
  settle :
      (s : Pool) (o : DeleteOutcome) (c : CacheEntry) (before after : List CacheEntry)
      → s.in_flight ≡ before ++ (c ∷ after)
      → Step s (settle_entry o c (before ++ after) s)

pub data Reach (s : Pool) : Pool → Type 0 where
  here : Reach s s
  next : {t u : Pool} → Reach s t → Step t u → Reach s u

-- What `evictIfOverBudget` returns when the workers are done.
unfoldable pub evict_result : ℕ → Pool → EvictResult
evict_result usage s = record {
  fired = true;
  reason = none;
  usage_before = some usage;
  usage_after = some (sub_ℕ usage s.deleted_bytes);
  deleted_count = some s.deleted;
  deleted_bytes = some s.deleted_bytes;
}
