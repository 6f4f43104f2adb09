-- ===== src/Eviction/Repair/Laws.antt =====
-- What the targeted repair asks the API to delete, and what its counts say.
use setup_soldr.Base.{ℕ, ◌+◌, ◌≡◌, refl, ◌∙◌}
use setup_soldr.Base.{◌≢◌, inl, inr, false, ◌||◌, some}
use setup_soldr.Base.{List, [], ◌∷◌, ◌++◌, map, arith, ◌==◌, ==_iff}
use setup_soldr.Base.{nat_eq, list_eq, option_eq, includes, Bool-cases, length}
use setup_soldr.Base.{All, Result, ok, err}
use setup_soldr.Base.Text.{Text}
use setup_soldr.Base.Text.{is_empty}
use setup_soldr.Base.{In, All-In_self}
use setup_soldr.Eviction.{CacheEntry}
use setup_soldr.Eviction.Pool.{DeleteOutcome, removed, failed}
use setup_soldr.Eviction.Repair.{
  DeleteCacheKeysResult, repair_keys, set_entry, collect_listed, collect, settle_delete,
  delete_each, repair_with, delete_cache_entries_by_keys,
}
use mathlib.Core.List.{append_assoc, append-nil}

abbrev pub ids : List CacheEntry → List ℕ
ids es = map (λ e. e.id) es

-- No id is listed twice.
abbrev pub NodupIds : List ℕ → Type 0
NodupIds [] = Unit
NodupIds (n ∷ ns) = (includes ns n ≡ false) × NodupIds ns

includes-set_entry :
    (es : List CacheEntry) (e : CacheEntry) (n : ℕ)
    → includes (ids (set_entry es e)) n ≡ (n == e.id || includes (ids es) n)
unfolding set_entry
includes-set_entry [] e n = refl
includes-set_entry (x ∷ xs) e n = ground (arith, includes-set_entry xs e n)

set_entry-NodupIds :
    (es : List CacheEntry) (e : CacheEntry) → NodupIds (ids es) → NodupIds (ids (set_entry es e))
unfolding set_entry
set_entry-NodupIds [] e h = (refl, tt)
set_entry-NodupIds (x ∷ xs) e (fresh, h) =
    ground (arith, set_entry-NodupIds xs e h, includes-set_entry xs e x.id)

set_entry-All :
    (P : CacheEntry → Type 0) (es : List CacheEntry) (e : CacheEntry)
    → P e
    → All P es
    → All P (set_entry es e)
unfolding set_entry
set_entry-All P [] e p h = (p, tt)
set_entry-All P (x ∷ xs) e p (q, h) = ground (arith, set_entry-All P xs e p h)

-- What holds of the map of entries by id.
record IsCollected (wanted : List Text) (found : List CacheEntry) : Type 0 where
  distinct_ids : NodupIds (ids found)
  poisoned : All (λ e. (k : Text) × (e.key ≡ some k) × In k wanted) found

collect_listed-IsCollected :
    (wanted : List Text) (key : Text) (es found : List CacheEntry)
    → In key wanted
    → IsCollected wanted found
    → IsCollected wanted (collect_listed key es found)
unfolding collect_listed
collect_listed-IsCollected wanted key [] found i v = v
collect_listed-IsCollected wanted key (e ∷ es) found i v = elim (Bool-cases (e.key == some key)) [
  | inl same ↦ rw same (
      collect_listed-IsCollected wanted key es (set_entry found e) i (record {
        distinct_ids = set_entry-NodupIds found e v.distinct_ids;
        poisoned =
            set_entry-All (λ x. (k : Text) × (x.key ≡ some k) × In k wanted) found e
              (key, (==_iff e.key (some key)).0 same, i) v.poisoned;
      }))
  | inr other ↦ rw other (collect_listed-IsCollected wanted key es found i v)
]

module _ (list_for_key : Text → Result (List CacheEntry)) where
  collect-IsCollected :
      (wanted keys : List Text) (found : List CacheEntry) (bad : ℕ)
      → All (λ k. In k wanted) keys
      → IsCollected wanted found
      → IsCollected wanted (collect list_for_key keys found bad).0
  unfolding collect
  collect-IsCollected wanted [] found bad h v = v
  collect-IsCollected wanted (key ∷ keys) found bad (i, h) v =
      go (list_for_key key) (λ f b w. collect-IsCollected wanted keys f b h w)
    where
      go :
          (r : Result (List CacheEntry))
          → ((f : List CacheEntry) (b : ℕ)
              → IsCollected wanted f
              → IsCollected wanted (collect list_for_key keys f b).0)
          → IsCollected wanted
              (elim r as (λ _. List CacheEntry × ℕ) [
                | ok es ↦ collect list_for_key keys (collect_listed key es found) bad
                | err e ↦ collect list_for_key keys found (bad + 1)
              ]).0
      go (ok es) rest =
          rest (collect_listed key es found) bad
            (collect_listed-IsCollected wanted key es found i v)
      go (err e) rest = rest found (bad + 1) v

  -- Listings that fail.
  pub failures : List Text → ℕ
  failures [] = 0
  failures (key ∷ keys) =
      let rest = failures keys in elim (list_for_key key) [ ok es ↦ rest | err e ↦ rest + 1 ]

  collect-failures :
      (keys : List Text) (found : List CacheEntry) (bad : ℕ)
      → (collect list_for_key keys found bad).1 ≡ bad + failures keys
  unfolding collect failures
  collect-failures [] found bad = omega arith
  collect-failures (key ∷ keys) found bad = grind (arith, collect-failures keys)

settle_delete_counts :
    (o : DeleteOutcome) (r : DeleteCacheKeysResult)
    → ((settle_delete o r).deleted + (settle_delete o r).failed ≡ r.deleted + r.failed + 1)
      × ((settle_delete o r).asked ≡ r.asked)
      × ((settle_delete o r).found ≡ r.found)
unfolding settle_delete
settle_delete_counts removed r = (omega arith, refl, refl)
settle_delete_counts (failed status) r = ground arith

module _ (delete : ℕ → DeleteOutcome) where
  delete_each_counts :
      (es : List CacheEntry) (r : DeleteCacheKeysResult)
      → let s = delete_each delete es r in
        (s.deleted + s.failed ≡ r.deleted + r.failed + length es)
        × (s.asked ≡ r.asked ++ ids es)
        × (s.found ≡ r.found)
  unfolding delete_each
  delete_each_counts [] r = (omega arith, rw append-nil, refl)
  delete_each_counts (e ∷ es) r =
      let r' = record r { asked = r.asked ++ (e.id ∷ []) } in
      let (total, asked, found) = settle_delete_counts (delete e.id) r' in
      let (total', asked', found') = delete_each_counts es (settle_delete (delete e.id) r') in
      (omega arith, asked' ∙ (rw asked (append_assoc r.asked (e.id ∷ []) (ids es))), found' ∙ found)

  module _ (list_for_key : Text → Result (List CacheEntry)) where
    -- The entries that the listings of the wanted keys give, by id.
    abbrev pub poisoned_entries : List Text → List CacheEntry
    poisoned_entries ks = (collect list_for_key ks [] 0).0

    abbrev pub IsRepair : List Text → DeleteCacheKeysResult → Type 0
    IsRepair ks r =
        (r.asked ≡ ids (poisoned_entries ks))
        × NodupIds (ids (poisoned_entries ks))
        × All (λ e. (k : Text) × (e.key ≡ some k) × In k ks) (poisoned_entries ks)
        × (r.found ≡ length (poisoned_entries ks))
        × (r.deleted + r.failed ≡ r.found + failures list_for_key ks)

    repair_with-IsRepair : (ks : List Text) → IsRepair ks (repair_with list_for_key delete ks)
    unfolding repair_with
    repair_with-IsRepair ks =
        let found = poisoned_entries ks in
        let (total, asked, same) = delete_each_counts found (record {
          found = length found;
          deleted = 0;
          failed = (collect list_for_key ks [] 0).1;
          asked = [];
        }) in
        let collected =
          collect-IsCollected list_for_key ks ks [] 0 (All-In_self ks)
            (record { distinct_ids = tt; poisoned = tt }) in
        (
          asked,
          collected.distinct_ids,
          collected.poisoned,
          same,
          omega (arith, collect-failures list_for_key ks [] 0),
        )

    repairs :
        (owner repo token : Text) (keys : List Text)
        → is_empty owner ≡ false
        → is_empty repo ≡ false
        → is_empty token ≡ false
        → repair_keys keys ≢ []
        → delete_cache_entries_by_keys list_for_key delete owner repo token keys
          ≡ repair_with list_for_key delete (repair_keys keys)
    unfolding delete_cache_entries_by_keys
    repairs owner repo token keys a b c d = ground arith

    -- With owner, repository, token and a key that is not blank, the repair asks to delete each
    -- entry that it found once, an entry only if its key is exactly one of the trimmed keys, and
    -- accounts for all of them: deletes done and failed make up the entries found and the listings
    -- that failed.
    pub delete_cache_entries_by_keys_sound :
        (owner repo token : Text) (keys : List Text)
        → is_empty owner ≡ false
        → is_empty repo ≡ false
        → is_empty token ≡ false
        → repair_keys keys ≢ []
        → IsRepair
            (repair_keys keys)
            (delete_cache_entries_by_keys list_for_key delete owner repo token keys)
    delete_cache_entries_by_keys_sound owner repo token keys a b c d =
        rw (repairs owner repo token keys a b c d) (repair_with-IsRepair (repair_keys keys))
