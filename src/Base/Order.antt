-- ===== src/Base/Order.antt =====
-- The order of texts by code units, and a sort that depends on the members of a list only.
use mathlib.Core.Path.{◌≡◌, refl, sym, ◌∙◌, ap}
use mathlib.Core.Logic.{inl, inr}
use mathlib.Core.Bool.{Bool, true, false}
use mathlib.Core.List.{List, [], ◌∷◌, Perm, foldr}
use mathlib.Core.List.Perm
use native.Mathlib.Omega.{arith}
use Prim.Native.Nat.{ℕ, Ordering}
use setup_soldr.Base.Equality.{Bool-cases, if◌then◌else◌}
use setup_soldr.Base.Lists.{filter}
use setup_soldr.Base.Sort.{compare_text, is_gt, insert, sort}

pub compare_text_eq : (s t : List ℕ) → compare_text s t ≡ Ordering.eq → s ≡ t
unfolding compare_text
compare_text_eq [] [] h = refl
compare_text_eq [] (d ∷ t) h = cc
compare_text_eq (c ∷ s) [] h = cc
compare_text_eq (c ∷ s) (d ∷ t) h = ground (arith, compare_text_eq s t)

pub compare_text_refl : (s : List ℕ) → compare_text s s ≡ Ordering.eq
unfolding compare_text
compare_text_refl [] = refl
compare_text_refl (c ∷ s) = ground (arith, compare_text_refl s)

pub compare_text_gt :
    (s t : List ℕ) → compare_text s t ≡ Ordering.gt → compare_text t s ≡ Ordering.lt
unfolding compare_text
compare_text_gt [] [] h = cc
compare_text_gt [] (d ∷ t) h = cc
compare_text_gt (c ∷ s) [] h = refl
compare_text_gt (c ∷ s) (d ∷ t) h = ground (arith, compare_text_gt s t)

pub compare_text_lt :
    (s t : List ℕ) → compare_text s t ≡ Ordering.lt → compare_text t s ≡ Ordering.gt
unfolding compare_text
compare_text_lt [] [] h = cc
compare_text_lt [] (d ∷ t) h = refl
compare_text_lt (c ∷ s) [] h = cc
compare_text_lt (c ∷ s) (d ∷ t) h = ground (arith, compare_text_lt s t)

pub compare_text_trans :
    (s t u : List ℕ)
    → compare_text s t ≡ Ordering.lt
    → compare_text t u ≡ Ordering.lt
    → compare_text s u ≡ Ordering.lt
unfolding compare_text
compare_text_trans [] [] [] h k = h
compare_text_trans [] (d ∷ t) [] h k = cc
compare_text_trans [] t (e ∷ u) h k = refl
compare_text_trans (c ∷ s) [] u h k = cc
compare_text_trans (c ∷ s) (d ∷ t) [] h k = cc
compare_text_trans (c ∷ s) (d ∷ t) (e ∷ u) h k = ground (arith, compare_text_trans s t u)

-- A comparator of a total order on the whole element.
pub record IsTotal {A : Type 0} (cmp : A → A → Ordering) : Type 0 where
  pub flips : (x y : A) → is_gt (cmp x y) ≡ true → is_gt (cmp y x) ≡ false
  pub joins : (x y : A) → is_gt (cmp x y) ≡ false → is_gt (cmp y x) ≡ false → x ≡ y
  pub chains :
      (x y z : A) → is_gt (cmp x y) ≡ true → is_gt (cmp y z) ≡ true → is_gt (cmp x z) ≡ true

module _ {A : Type 0} (cmp : A → A → Ordering) (total : IsTotal cmp) where
  between : (x y z : A) → is_gt (cmp x z) ≡ true → is_gt (cmp y z) ≡ false → is_gt (cmp x y) ≡ true
  between x y z h k = elim (Bool-cases (is_gt (cmp x y))) [
    | inl e ↦ e
    | inr e ↦ elim (Bool-cases (is_gt (cmp y x))) [
      | inl f ↦ cc (total.chains y x z f h)
      | inr f ↦ cc (total.joins x y e f)
    ]
  ]

  pub total_trans :
      (x y z : A) → is_gt (cmp x y) ≡ false → is_gt (cmp y z) ≡ false → is_gt (cmp x z) ≡ false
  total_trans x y z h k = elim (Bool-cases (is_gt (cmp x z))) [
    | inl e ↦ cc (between x y z e k)
    | inr e ↦ e
  ]

  insert_comm :
      (x y : A) (l : List A) → insert cmp x (insert cmp y l) ≡ insert cmp y (insert cmp x l)
  unfolding insert
  insert_comm x y [] = ground (arith, total.flips x y, total.joins x y)
  insert_comm x y (z ∷ l) =
      ground
        (arith, insert_comm x y l, total.flips x y, total.joins x y, between x y z, between y x z)

  module _ (keep : A → Bool) where
    insert_kept : A → List A → List A
    insert_kept x xs = let longer = insert cmp x xs in elim (keep x) [ true ↦ longer | false ↦ xs ]

    insert_kept_comm :
        (x y : A) (l : List A) → insert_kept x (insert_kept y l) ≡ insert_kept y (insert_kept x l)
    unfolding insert_kept
    insert_kept_comm x y l = go (keep x) (keep y)
      where
        go :
            (b c : Bool)
            → elim b [
              | true ↦ insert cmp x (elim c [ true ↦ insert cmp y l | false ↦ l ])
              | false ↦ elim c [ true ↦ insert cmp y l | false ↦ l ]
            ]
              ≡ elim c [
                | true ↦ insert cmp y (elim b [ true ↦ insert cmp x l | false ↦ l ])
                | false ↦ elim b [ true ↦ insert cmp x l | false ↦ l ]
              ]
        go true true = insert_comm x y l
        go true false = refl
        go false true = refl
        go false false = refl

    foldr-kept : (xs : List A) → foldr insert_kept [] xs ≡ sort cmp (filter keep xs)
    unfolding insert_kept sort
    foldr-kept [] = refl
    foldr-kept (x ∷ xs) = go (keep x) (foldr-kept xs)
      where
        go :
            (b : Bool)
            → foldr insert_kept [] xs ≡ sort cmp (filter keep xs)
            → elim b [
              | true ↦ insert cmp x (foldr insert_kept [] xs)
              | false ↦ foldr insert_kept [] xs
            ]
              ≡ sort cmp (if b then x ∷ filter keep xs else filter keep xs)
        go true h = ap (insert cmp x) h
        go false h = h

    pub sort-filter :
        IsSet (List A)
        → (xs ys : List A) → Perm xs ys
        → sort cmp (filter keep xs) ≡ sort cmp (filter keep ys)
    sort-filter list_set xs ys p =
        sym (foldr-kept xs)
        ∙ Perm.foldr-eq list_set insert_kept insert_kept_comm p []
        ∙ foldr-kept ys

pub compare_text-IsTotal : IsTotal compare_text
compare_text-IsTotal = record {
  flips = λ s t h. cc (compare_text_gt s t (is_gt_gt (compare_text s t) h));
  joins = λ s t h k. joined s t (compare_text s t) refl h k;
  chains = λ s t u h k. ap is_gt (
      compare_text_lt u s (
        compare_text_trans u t s (compare_text_gt t u (is_gt_gt _ k))
          (compare_text_gt s t (is_gt_gt _ h))));
}
  where
    is_gt_gt : (o : Ordering) → is_gt o ≡ true → o ≡ Ordering.gt
    is_gt_gt Ordering.gt h = refl
    is_gt_gt Ordering.eq h = cc
    is_gt_gt Ordering.lt h = cc

    joined :
        (s t : List ℕ) (o : Ordering)
        → compare_text s t ≡ o
        → is_gt o ≡ false
        → is_gt (compare_text t s) ≡ false
        → s ≡ t
    joined s t Ordering.gt e h k = cc
    joined s t Ordering.eq e h k = compare_text_eq s t e
    joined s t Ordering.lt e h k = cc (compare_text_lt s t e)
