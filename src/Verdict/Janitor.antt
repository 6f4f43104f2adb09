-- ===== src/Verdict/Janitor.antt =====
-- `janitorPlan` of src/lib/verdict-cache.ts. The milliseconds of a date are a parameter, none for a
-- date that is not valid.
pub mod Tails
pub mod Groups
pub mod Bounds
use setup_soldr.Base.{ℕ, ◌+◌, ◌-◌}
use setup_soldr.Base.{Bool, Option, some}
use setup_soldr.Base.{List, [], ◌∷◌, ◌++◌, if◌then◌else◌, ◌==◌}
use setup_soldr.Base.{nat_eq, list_eq, option_eq, length, drop}
use setup_soldr.Base.{filter, get_or}
use setup_soldr.Base.Text.{Text, text, starts_with}
use Prim.Native.Nat.{Ordering, compare}
use setup_soldr.Base.Sort.{sort}
use setup_soldr.Base.Split.{split}
use setup_soldr.Verdict.{verdict_prefix, manifest_prefix}

abbrev pub max_verdict_entries : ℕ
max_verdict_entries = 256

abbrev pub max_manifests_per_scope : ℕ
max_manifests_per_scope = 2

pub record CacheEntry : Type 0 where
  pub id : ℕ
  pub key : Text
  pub last_accessed_at : Option Text
  pub created_at : Option Text

abbrev pub is_verdict : CacheEntry → Bool
is_verdict e = starts_with e.key verdict_prefix

abbrev pub is_manifest : CacheEntry → Bool
is_manifest e = starts_with e.key manifest_prefix

-- `a ?? b ?? ""`
unfoldable pub date_of : CacheEntry → Text
date_of e = get_or e.last_accessed_at (get_or e.created_at [])

-- `split("-")[0]` of the key behind its prefix.
abbrev pub first_part : List Text → Text
first_part [] = []
first_part (p ∷ ps) = p

unfoldable pub scope_of : CacheEntry → Text
unfolding split text
scope_of e = first_part (split b'-' (drop (length manifest_prefix) e.key))

-- A Map of the groups, in the order of insertion.
abbrev pub Groups : Type 0
Groups = List (Text × List CacheEntry)

-- `byScope.set(scope, [...(byScope.get(scope) ?? []), entry])`
unfoldable pub put_entry : Text → CacheEntry → Groups → Groups
put_entry scope e [] = (scope, e ∷ []) ∷ []
put_entry scope e ((s, es) ∷ gs) =
    let rest = put_entry scope e gs in
    if s == scope then (s, es ++ (e ∷ [])) ∷ gs else (s, es) ∷ rest

unfoldable pub group_all : List CacheEntry → Groups → Groups
unfolding put_entry scope_of
group_all [] gs = gs
group_all (e ∷ es) gs = group_all es (put_entry (scope_of e) e gs)

module _ (epoch_ms : Text → Option ℕ) where
  -- A comparator that answers NaN counts as one that answers 0.
  abbrev pub compare_dates : Option ℕ → Option ℕ → Ordering
  compare_dates (some a) (some b) = compare b a
  compare_dates _ _ = Ordering.eq

  unfoldable pub newest : CacheEntry → CacheEntry → Ordering
  unfolding date_of
  newest a b = compare_dates (epoch_ms (date_of a)) (epoch_ms (date_of b))

  unfoldable pub superseded : Groups → List CacheEntry
  unfolding newest sort
  superseded [] = []
  superseded ((s, es) ∷ gs) = drop max_manifests_per_scope (sort newest es) ++ superseded gs

  unfoldable pub janitor_plan : List CacheEntry → List CacheEntry
  unfolding superseded group_all
  janitor_plan entries =
      drop max_verdict_entries (sort newest (filter is_verdict entries))
      ++ superseded (group_all (filter is_manifest entries) [])
