-- ===== src/Verdict/Janitor/Tails.antt =====
-- What a sorted list loses behind its first elements, and the entries of it that pass a test.
use setup_soldr.Base.{ℕ, zero, suc, ◌-◌, ◌≤◌, ◌≡◌, refl, sym, ◌∙◌, ap}
use setup_soldr.Base.{Bool, true, false, ◌&&◌, Option, none, some}
use setup_soldr.Base.{List, [], ◌∷◌, ◌++◌, arith, ◌==◌}
use setup_soldr.Base.{nat_eq, list_eq, option_eq, length, take, drop}
use setup_soldr.Base.{filter, get_or, is_some, All}
use setup_soldr.Base.Text.{Text}
use mathlib.Core.List.{Perm}
use mathlib.Core.Path.{subst}
use Prim.Native.Nat.{Ordering, compare}
use native.Mathlib.Omega.{compare-lt, compare-eq, compare-gt}
use setup_soldr.Base.Sort.{
  is_gt, insert, sort, length-sort, All-sort, sort-perm, Ordered, sort-Ordered,
}
use setup_soldr.Verdict.Janitor.{CacheEntry, is_manifest, scope_of, newest, date_of, compare_dates}

-- The manifests of one scope.
abbrev pub is_of_scope : Text → CacheEntry → Bool
is_of_scope scope e = is_manifest e && scope_of e == scope

length-drop : (n : ℕ) (xs : List CacheEntry) → length (drop n xs) ≡ length xs - n
length-drop zero xs = omega arith
length-drop (suc n) [] = omega arith
length-drop (suc n) (x ∷ xs) = omega (arith, length-drop n xs)

take-drop : (n : ℕ) (xs : List CacheEntry) → take n xs ++ drop n xs ≡ xs
take-drop zero xs = refl
take-drop (suc n) [] = refl
take-drop (suc n) (x ∷ xs) = ap (λ ys. x ∷ ys) (take-drop n xs)

pub All-drop :
    (P : CacheEntry → Type 0) (n : ℕ) (xs : List CacheEntry) → All P xs → All P (drop n xs)
All-drop P zero xs h = h
All-drop P (suc n) [] h = tt
All-drop P (suc n) (x ∷ xs) (p, h) = All-drop P n xs h

pub filter-append :
    (p : CacheEntry → Bool) (xs ys : List CacheEntry)
    → filter p (xs ++ ys) ≡ filter p xs ++ filter p ys
filter-append p [] ys = refl
filter-append p (x ∷ xs) ys = ground (arith, filter-append p xs ys)

pub filter_all :
    (p : CacheEntry → Bool) (xs : List CacheEntry) → All (λ x. p x ≡ true) xs → filter p xs ≡ xs
filter_all p [] h = refl
filter_all p (x ∷ xs) (e, h) = rw e (ap (λ ys. x ∷ ys) (filter_all p xs h))

pub filter_none :
    (p : CacheEntry → Bool) (xs : List CacheEntry) → All (λ x. p x ≡ false) xs → filter p xs ≡ []
filter_none p [] h = refl
filter_none p (x ∷ xs) (e, h) = rw e (filter_none p xs h)

module _ (epoch_ms : Text → Option ℕ) where
  -- The date of an entry is valid.
  abbrev pub IsDated : CacheEntry → Type 0
  IsDated e = is_some (epoch_ms (date_of e)) ≡ true

  -- The first entry is not older than the second.
  abbrev pub NotOlder : CacheEntry → CacheEntry → Type 0
  NotOlder x y = (a b : ℕ) → epoch_ms (date_of x) ≡ some a → epoch_ms (date_of y) ≡ some b → b ≤ a

  -- All entries but the newest, of which so many stay.
  pub record IsTail (n : ℕ) (xs deleted : List CacheEntry) : Type 0 where
    pub kept : List CacheEntry
    pub nothing_lost : Perm (kept ++ deleted) xs
    pub deleted_length : length deleted ≡ length xs - n
    pub kept_newer : All (λ k. All (NotOlder k) deleted) kept

  abbrev ms : CacheEntry → ℕ
  ms e = get_or (epoch_ms (date_of e)) 0

  abbrev by_ms : CacheEntry → CacheEntry → Ordering
  by_ms a b = compare (ms b) (ms a)

  newest_dated : (a b : CacheEntry) → IsDated a → IsDated b → newest epoch_ms a b ≡ by_ms a b
  unfolding newest
  newest_dated a b = go (epoch_ms (date_of a)) (epoch_ms (date_of b))
    where
      go :
          (o p : Option ℕ)
          → is_some o ≡ true
          → is_some p ≡ true
          → compare_dates epoch_ms o p ≡ compare (get_or p 0) (get_or o 0)
      go none p h k = cc
      go (some m) none h k = cc
      go (some m) (some n) h k = refl

  insert_dated :
      (x : CacheEntry) (ys : List CacheEntry)
      → IsDated x
      → All IsDated ys
      → insert (newest epoch_ms) x ys ≡ insert by_ms x ys
  unfolding insert
  insert_dated x [] h k = refl
  insert_dated x (y ∷ ys) h (d, k) =
      ap (λ o. elim (is_gt o) [ true ↦ y ∷ insert (newest epoch_ms) x ys | false ↦ x ∷ y ∷ ys ])
        (newest_dated x y h d)
      ∙ ap (λ zs. elim (is_gt (by_ms x y)) [ true ↦ y ∷ zs | false ↦ x ∷ y ∷ ys ])
          (insert_dated x ys h k)

  sort_dated : (xs : List CacheEntry) → All IsDated xs → sort (newest epoch_ms) xs ≡ sort by_ms xs
  unfolding sort
  sort_dated [] h = refl
  sort_dated (x ∷ xs) (d, h) =
      ap (insert (newest epoch_ms) x) (sort_dated xs h)
      ∙ insert_dated x (sort by_ms xs) d (All-sort by_ms IsDated xs h)

  abbrev Later : CacheEntry → CacheEntry → Type 0
  Later x y = ms y ≤ ms x

  sort-Later : (xs : List CacheEntry) → Ordered Later (sort by_ms xs)
  sort-Later xs =
      sort-Ordered by_ms Later (λ x y z h k. omega (arith, h, k))
        (λ x y h. (by_answer (ms y) (ms x) _ refl).0 h)
        (λ x y h. (by_answer (ms y) (ms x) _ refl).1 h) xs
    where
      by_answer :
          (m n : ℕ) (o : Ordering)
          → compare m n ≡ o
          → (is_gt o ≡ true → n ≤ m) × (is_gt o ≡ false → m ≤ n)
      by_answer m n Ordering.lt e = (λ h. cc, λ h. omega (arith, compare-lt m n e))
      by_answer m n Ordering.eq e = (λ h. cc, λ h. omega (arith, compare-eq m n e))
      by_answer m n Ordering.gt e = (λ h. omega (arith, compare-gt m n e), λ h. cc)

  Later-NotOlder : (x y : CacheEntry) → Later x y → NotOlder x y
  Later-NotOlder x y h a b e f = omega (arith, h, ap (λ o. get_or o 0) e, ap (λ o. get_or o 0) f)

  split_Ordered :
      (n : ℕ) (xs : List CacheEntry)
      → Ordered Later xs
      → All (λ k. All (NotOlder k) (drop n xs)) (take n xs)
  split_Ordered zero xs h = tt
  split_Ordered (suc n) [] h = tt
  split_Ordered (suc n) (x ∷ xs) (below, h) =
      (All-drop (NotOlder x) n xs (All_later x xs below), split_Ordered n xs h)
    where
      All_later : (x : CacheEntry) (ys : List CacheEntry) → All (Later x) ys → All (NotOlder x) ys
      All_later x [] h = tt
      All_later x (y ∷ ys) (l, h) = (Later-NotOlder x y l, All_later x ys h)

  pub drop-IsTail :
      (n : ℕ) (xs : List CacheEntry)
      → All IsDated xs
      → IsTail n xs (drop n (sort (newest epoch_ms) xs))
  drop-IsTail n xs h = record {
    kept = take n (sort (newest epoch_ms) xs);
    nothing_lost =
        subst (λ ys. Perm ys xs) (sym (take-drop n (sort (newest epoch_ms) xs)))
          (sort-perm (newest epoch_ms) xs);
    deleted_length =
        length-drop n (sort (newest epoch_ms) xs)
        ∙ ap (λ k. k - n) (length-sort (newest epoch_ms) xs);
    kept_newer =
        split_Ordered n (sort (newest epoch_ms) xs)
          (subst (Ordered Later) (sym (sort_dated xs h)) (sort-Later xs));
  }

  -- The entries of the tail that pass a test which all pass, or which none passes.
  pub tail_all :
      (p : CacheEntry → Bool) (n : ℕ) (xs : List CacheEntry)
      → All (λ x. p x ≡ true) xs
      → filter p (drop n (sort (newest epoch_ms) xs)) ≡ drop n (sort (newest epoch_ms) xs)
  tail_all p n xs h = filter_all p (drop n (sort (newest epoch_ms) xs)) (
      All-drop (λ x. p x ≡ true) n (sort (newest epoch_ms) xs)
        (All-sort (newest epoch_ms) (λ x. p x ≡ true) xs h))

  pub tail_none :
      (p : CacheEntry → Bool) (n : ℕ) (xs : List CacheEntry)
      → All (λ x. p x ≡ false) xs
      → filter p (drop n (sort (newest epoch_ms) xs)) ≡ []
  tail_none p n xs h = filter_none p (drop n (sort (newest epoch_ms) xs)) (
      All-drop (λ x. p x ≡ false) n (sort (newest epoch_ms) xs)
        (All-sort (newest epoch_ms) (λ x. p x ≡ false) xs h))
