-- ===== src/Base/Sort.antt =====
-- `Array.prototype.sort` with a comparator: a stable sort.
use Prim.Native.Nat.{ℕ, zero, suc, Ordering, compare}
use mathlib.Core.Path.{◌≡◌, refl}
use mathlib.Core.Logic.{inl, inr}
use mathlib.Core.Bool.{Bool, true, false}
use mathlib.Core.List.{List, [], ◌∷◌, Perm}
use mathlib.Core.List.Perm
use native.Mathlib.Omega.{arith}
use setup_soldr.Base.Lists.{All, In, length, take, All-take}

abbrev pub is_gt : Ordering → Bool
is_gt Ordering.gt = true
is_gt _ = false

-- The order of `sort` without a comparator: by code units.
unfoldable pub compare_text : List ℕ → List ℕ → Ordering
compare_text [] [] = Ordering.eq
compare_text [] (d ∷ t) = Ordering.lt
compare_text (c ∷ s) [] = Ordering.gt
compare_text (c ∷ s) (d ∷ t) =
    let rest = compare_text s t in
    elim (compare c d) [
      | Ordering.lt ↦ Ordering.lt
      | Ordering.eq ↦ rest
      | Ordering.gt ↦ Ordering.gt
    ]

module _ {A : Type 0} (R : A → A → Type 0) where
  -- Each element stands in the relation to all behind it.
  abbrev pub Ordered : List A → Type 0
  Ordered [] = Unit
  Ordered (x ∷ xs) = All (R x) xs × Ordered xs

  pub Ordered-take : (n : ℕ) (xs : List A) → Ordered xs → Ordered (take n xs)
  Ordered-take zero xs h = tt
  Ordered-take (suc n) [] h = tt
  Ordered-take (suc n) (x ∷ xs) (p, h) = (All-take (R x) n xs p, Ordered-take n xs h)

module _ {A : Type 0} (cmp : A → A → Ordering) where
  -- Behind all that comes strictly before it.
  unfoldable pub insert : A → List A → List A
  insert x [] = x ∷ []
  insert x (y ∷ ys) =
      let later = insert x ys in elim (is_gt (cmp x y)) [ true ↦ y ∷ later | false ↦ x ∷ y ∷ ys ]

  unfoldable pub sort : List A → List A
  unfolding insert
  sort [] = []
  sort (x ∷ xs) = insert x (sort xs)

  insert-perm : (x : A) (xs : List A) → Perm (insert x xs) (x ∷ xs)
  unfolding insert
  insert-perm x [] = Perm.refl _
  insert-perm x (y ∷ ys) = go (is_gt (cmp x y)) (insert-perm x ys)
    where
      go :
          (b : Bool)
          → Perm (insert x ys) (x ∷ ys)
          → Perm (elim b [ true ↦ y ∷ insert x ys | false ↦ x ∷ y ∷ ys ]) (x ∷ y ∷ ys)
      go true h = Perm.trans (Perm.cons y h) (Perm.swap x y ys)
      go false h = Perm.refl _

  -- Sorting loses nothing and adds nothing.
  pub sort-perm : (xs : List A) → Perm (sort xs) xs
  unfolding sort
  sort-perm [] = Perm.refl _
  sort-perm (x ∷ xs) = Perm.trans (insert-perm x (sort xs)) (Perm.cons x (sort-perm xs))

  length-insert : (x : A) (xs : List A) → length (insert x xs) ≡ suc (length xs)
  unfolding insert
  length-insert x [] = refl
  length-insert x (y ∷ ys) = ground (arith, length-insert x ys)

  pub length-sort : (xs : List A) → length (sort xs) ≡ length xs
  unfolding sort
  length-sort [] = refl
  length-sort (x ∷ xs) = omega (arith, length-insert x (sort xs), length-sort xs)

  In-insert : (z x : A) (xs : List A) → In z (x ∷ xs) → In z (insert x xs)
  unfolding insert
  In-insert z x [] h = h
  In-insert z x (y ∷ ys) h = ground (arith, In-insert z x ys)

  pub In-sort : (z : A) (xs : List A) → In z xs → In z (sort xs)
  unfolding sort
  In-sort z [] h = h
  In-sort z (x ∷ xs) (inl e) = In-insert z x (sort xs) (inl e)
  In-sort z (x ∷ xs) (inr h) = In-insert z x (sort xs) (inr (In-sort z xs h))

  module _ (P : A → Type 0) where
    All-insert : (x : A) (xs : List A) → P x → All P xs → All P (insert x xs)
    unfolding insert
    All-insert x [] p h = (p, tt)
    All-insert x (y ∷ ys) p (q, h) = ground (arith, All-insert x ys p h)

    pub All-sort : (xs : List A) → All P xs → All P (sort xs)
    unfolding sort
    All-sort [] h = tt
    All-sort (x ∷ xs) (p, h) = All-insert x (sort xs) p (All-sort xs h)

  -- A transitive relation that the comparator respects holds along the sorted list.
  module _ (R : A → A → Type 0) (trans : (x y z : A) → R x y → R y z → R x z)
      (gt : (x y : A) → is_gt (cmp x y) ≡ true → R y x)
      (le : (x y : A) → is_gt (cmp x y) ≡ false → R x y) where
    All-trans : (x y : A) (zs : List A) → R x y → All (R y) zs → All (R x) zs
    All-trans x y [] h k = tt
    All-trans x y (z ∷ zs) h (p, k) = (trans x y z h p, All-trans x y zs h k)

    insert-Ordered : (x : A) (xs : List A) → Ordered R xs → Ordered R (insert x xs)
    unfolding insert
    insert-Ordered x [] h = (tt, tt)
    insert-Ordered x (y ∷ ys) (below, h) = go (is_gt (cmp x y)) refl (insert-Ordered x ys h)
      where
        go :
            (b : Bool)
            → is_gt (cmp x y) ≡ b
            → Ordered R (insert x ys)
            → Ordered R (elim b [ true ↦ y ∷ insert x ys | false ↦ x ∷ y ∷ ys ])
        go true e later = (All-insert (R y) x ys (gt x y e) below, later)
        go false e later = ((le x y e, All-trans x y ys (le x y e) below), (below, h))

    pub sort-Ordered : (xs : List A) → Ordered R (sort xs)
    unfolding sort
    sort-Ordered [] = tt
    sort-Ordered (x ∷ xs) = insert-Ordered x (sort xs) (sort-Ordered xs)
