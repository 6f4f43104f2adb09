-- ===== src/AncestorCache/Select.antt =====
-- `selectAncestorCache` of src/lib/ancestor-cache.ts. The backend's calls and `localeCompare` are
-- parameters; an `await` that rejects is an `err`.
use setup_soldr.Base.{ℕ, ◌+◌}
use setup_soldr.Base.{Bool, true, false, ◌&&◌, Option, none, some}
use setup_soldr.Base.{List, [], ◌∷◌, ◌++◌, if◌then◌else◌, ltb, leb, ◌==◌}
use setup_soldr.Base.{nat_eq, list_eq, option_eq, includes, length, take}
use setup_soldr.Base.{Result, ok, err}
use setup_soldr.Base.{◌>>=◌}
use setup_soldr.Base.Text.{Text, text, strip_prefix}
mod Ranking
pub mod Nearest
use Prim.Native.Nat.{compare, Ordering}
use setup_soldr.Base.Decimal.{number}
use setup_soldr.Base.Sort.{sort}
use setup_soldr.AncestorCache.{AncestorKey, parse_ancestor_key, accept, ◌>>?◌}

pub record AncestorCacheEntry : Type 0 where
  pub id : ℕ
  pub key : Text
  pub ref : Text
  pub created_at : Text

pub record AncestorSelection : Type 0 where
  pub entry : Option AncestorCacheEntry
  pub distance : Option ℕ
  pub reason : Text
  pub inspected : ℕ

pub record AncestorBackend : Type 0 where
  pub list : Result (List AncestorCacheEntry)
  pub distance : Text → Result (Option ℕ)
  pub clean_save : AncestorCacheEntry → AncestorKey → Result Bool

pub record Ranked : Type 0 where
  pub entry : AncestorCacheEntry
  pub key : AncestorKey
  pub distance : ℕ

-- `/^refs\/pull\/([1-9][0-9]*)\/merge$/.exec(ref)`
unfoldable pub pr_of_ref : Text → Option ℕ
pr_of_ref ref = strip_prefix (text "refs/pull/") ref >>? λ s.
    number s >>? λ (n, rest). accept (rest == text "/merge") >>? λ _. some n

-- The three `continue`s of the loop: the key of an entry that is inspected.
unfoldable pub candidate_key : Text → List Text → AncestorCacheEntry → Option AncestorKey
candidate_key identity refs entry = parse_ancestor_key entry.key >>? λ key.
    accept (
      key.identity == identity
      && (includes refs entry.ref && (ltb 0 entry.id && key.pr == pr_of_ref entry.ref)))
    >>? λ _. some key

-- `if (distance !== null && … && distance >= 0 && distance <= 200) ranked.push(…)`
abbrev push_ranked : AncestorCacheEntry → AncestorKey → Option ℕ → List Ranked → List Ranked
push_ranked entry key none ranked = ranked
push_ranked entry key (some d) ranked =
    if leb d 200 then record { entry = entry; key = key; distance = d } ∷ ranked else ranked

module _ (locale_compare : Text → Text → Ordering) (identity : Text) (refs : List Text)
    (backend : AncestorBackend) where
  -- The loop over the entries: what it ranked, or the error that ended it, and how many entries
  -- were inspected by then.
  unfoldable pub rank_entries : List AncestorCacheEntry → ℕ → Result (List Ranked) × ℕ
  rank_entries [] inspected = (ok [], inspected)
  rank_entries (entry ∷ entries) inspected = elim (candidate_key identity refs entry) [
    | none ↦ rank_entries entries inspected
    | some key ↦ elim (ltb 200 (inspected + 1)) [
      | true ↦ (err (text "ancestry candidate bound exceeded"), inspected + 1)
      | false ↦ elim (backend.distance key.sha) [
        | err e ↦ (err e, inspected + 1)
        | ok d ↦
            let (ranked, n) = rank_entries entries (inspected + 1) in
            (ranked >>= (λ rs. ok (push_ranked entry key d rs)), n)
      ]
    ]
  ]

  abbrev then_compare : Ordering → Ordering → Ordering
  then_compare Ordering.eq later = later
  then_compare first later = first

  -- `a.distance - b.distance || b.createdAt.localeCompare(a.createdAt) || b.id - a.id`
  unfoldable pub nearer : Ranked → Ranked → Ordering
  nearer a b = then_compare (compare a.distance b.distance) (
      then_compare (locale_compare b.entry.created_at a.entry.created_at)
        (compare b.entry.id a.entry.id))

  -- The loop over the twenty nearest candidates.
  unfoldable pub first_clean : List Ranked → Result (Option Ranked)
  first_clean [] = ok none
  first_clean (c ∷ cs) = elim (backend.clean_save c.entry c.key) [
    | err e ↦ err e
    | ok true ↦ ok (some c)
    | ok false ↦ first_clean cs
  ]

  abbrev nothing : Text → ℕ → AncestorSelection
  nothing reason inspected = record {
    entry = none;
    distance = none;
    reason = reason;
    inspected = inspected;
  }

  -- The `return`s and the `catch`.
  conclude : Result (Option Ranked) → ℕ → AncestorSelection
  conclude (ok (some c)) inspected = record {
    entry = some c.entry;
    distance = some c.distance;
    reason = text "nearest-clean-ancestor";
    inspected = inspected;
  }
  conclude (ok none) inspected = nothing (text "no-proven-clean-ancestor") inspected
  conclude (err e) inspected = nothing (text "legacy-fallback: " ++ e) inspected

  select_from : List AncestorCacheEntry → AncestorSelection
  unfolding rank_entries nearer first_clean conclude
  select_from entries =
      let (ranked, inspected) = rank_entries entries 0 in
      conclude (ranked >>= λ rs. first_clean (take 20 (sort nearer rs))) inspected

  select_listed : Result (List AncestorCacheEntry) → AncestorSelection
  unfolding select_from conclude
  select_listed (err e) = conclude (err e) 0
  select_listed (ok entries) =
      if ltb 600 (length entries)
      then conclude (err (text "candidate scan exceeded bound")) 0
      else select_from entries

  unfoldable pub select_ancestor_cache : AncestorSelection
  unfolding select_listed
  select_ancestor_cache = select_listed backend.list
