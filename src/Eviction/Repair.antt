-- ===== src/Eviction/Repair.antt =====
-- `deleteCacheEntriesByKeys` of src/lib/cache-eviction.ts: the entries of poisoned keys are deleted.
-- Listing and deleting are parameters; the ids that the API is asked to delete are recorded.
pub mod Laws
use setup_soldr.Base.{ℕ, zero, suc, ◌+◌}
use setup_soldr.Base.{true, false, not, ◌||◌, some}
use setup_soldr.Base.{List, [], ◌∷◌, ◌++◌, map, if◌then◌else◌, ◌==◌}
use setup_soldr.Base.{nat_eq, list_eq, option_eq, includes, length}
use setup_soldr.Base.{filter, Result, ok, err}
use setup_soldr.Base.Text.{Text, trim}
use setup_soldr.Base.Text.{is_empty}
use setup_soldr.Eviction.{CacheEntry}
use setup_soldr.Eviction.Pool.{DeleteOutcome, removed, failed}

pub record DeleteCacheKeysResult : Type 0 where
  pub found : ℕ
  pub deleted : ℕ
  pub failed : ℕ
  -- The ids for which a delete was asked, in order.
  pub asked : List ℕ

-- `[...new Set(keys)]`
unfoldable pub distinct : List Text → List Text → List Text
distinct seen [] = []
distinct seen (k ∷ ks) = elim (includes seen k) [
  | true ↦ distinct seen ks
  | false ↦ k ∷ distinct (k ∷ seen) ks
]

unfoldable pub repair_keys : List Text → List Text
unfolding distinct trim
repair_keys keys = distinct [] (filter (λ k. not (is_empty k)) (map trim keys))

-- `entriesById.set(entry.id, entry)`
unfoldable pub set_entry : List CacheEntry → CacheEntry → List CacheEntry
set_entry [] e = e ∷ []
set_entry (x ∷ xs) e = let rest = set_entry xs e in if x.id == e.id then e ∷ xs else x ∷ rest

-- The inner loop for one key.
unfoldable pub collect_listed : Text → List CacheEntry → List CacheEntry → List CacheEntry
unfolding set_entry
collect_listed key [] found = found
collect_listed key (e ∷ es) found =
    collect_listed key es (if e.key == some key then set_entry found e else found)

module _ (list_for_key : Text → Result (List CacheEntry)) where
  -- The loop over the keys; the number counts the listings that failed.
  unfoldable pub collect : List Text → List CacheEntry → ℕ → List CacheEntry × ℕ
  unfolding collect_listed
  collect [] found bad = (found, bad)
  collect (key ∷ keys) found bad = elim (list_for_key key) [
    | ok es ↦ collect keys (collect_listed key es found) bad
    | err e ↦ collect keys found (bad + 1)
  ]

-- One round of the loop of deletes. A delete that fails with 404 counts as done.
settle_delete : DeleteOutcome → DeleteCacheKeysResult → DeleteCacheKeysResult
settle_delete removed r = record r { deleted = r.deleted + 1 }
settle_delete (failed status) r =
    if status == some 404
    then record r { deleted = r.deleted + 1 }
    else record r { failed = r.failed + 1 }

module _ (delete : ℕ → DeleteOutcome) where
  unfoldable pub delete_each : List CacheEntry → DeleteCacheKeysResult → DeleteCacheKeysResult
  unfolding settle_delete
  delete_each [] r = r
  delete_each (e ∷ es) r =
      delete_each es (settle_delete (delete e.id) (record r { asked = r.asked ++ (e.id ∷ []) }))

-- `keys.length || 1`
abbrev or_one : ℕ → ℕ
or_one zero = 1
or_one (suc n) = suc n

module _ (list_for_key : Text → Result (List CacheEntry)) (delete : ℕ → DeleteOutcome) where
  unfoldable pub repair_with : List Text → DeleteCacheKeysResult
  unfolding collect delete_each
  repair_with keys =
      let (found, bad) = collect list_for_key keys [] 0 in
      delete_each delete found
        (record { found = length found; deleted = 0; failed = bad; asked = [] })

  unfoldable pub delete_cache_entries_by_keys :
      Text → Text → Text → List Text → DeleteCacheKeysResult
  unfolding repair_with
  delete_cache_entries_by_keys owner repo token keys =
      let ks = repair_keys keys in
      if is_empty owner || (is_empty repo || (is_empty token || length ks == 0))
      then record { found = 0; deleted = 0; failed = or_one (length ks); asked = [] }
      else repair_with ks
