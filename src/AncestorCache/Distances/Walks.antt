-- ===== src/AncestorCache/Distances/Walks.antt =====
-- Ways through the known commits, and what holds of the distances on the way.
use setup_soldr.Base.{ℕ, suc, ◌≤◌, ◌≡◌, refl}
use setup_soldr.Base.{◌⊎◌, inl, inr, true, none, some}
use setup_soldr.Base.{List, [], ◌∷◌, ◌++◌}
use setup_soldr.Base.{nat_eq, list_eq, option_eq}
use setup_soldr.Base.{is_some, All, All-append}
use setup_soldr.Base.Text.{Text}
use setup_soldr.Base.{In}
use setup_soldr.AncestorCache.Distances.{GitParentNode, parents_of, distance_of, Search}
use setup_soldr.AncestorCache.Distances.Queue.{distance_of-append, distance_of-added}

module _ (head : Text) (nodes : List GitParentNode) where
  -- A way of this length from the head, from commit to parent, where each parent is a known commit.
  pub data Walk : Text → ℕ → Type 0 where
    at_head : Walk head 0
    to_parent :
        (sha : Text) (n : ℕ) (parents : List Text) (parent : Text)
        → Walk sha n
        → parents_of nodes sha ≡ some parents
        → In parent parents
        → is_some (parents_of nodes parent) ≡ true
        → Walk parent (suc n)

  -- The front of the queue lies at the level, the rest there or, behind, one further.
  unfoldable pub Band : List (Text × ℕ) → ℕ → List Text → Type 0
  Band ds d [] = Unit
  Band ds d (x ∷ q) =
      ((distance_of ds x ≡ some d) × Band ds d q)
      ⊎ ((distance_of ds x ≡ some (suc d)) × All (λ y. distance_of ds y ≡ some (suc d)) q)

  -- Every known parent of the commit has a distance, at most one more.
  unfoldable pub Relaxed : List (Text × ℕ) → Text → ℕ → Type 0
  Relaxed ds x d =
      (parents : List Text) (p : Text)
      → parents_of nodes x ≡ some parents
      → In p parents
      → is_some (parents_of nodes p) ≡ true
      → (e : ℕ) × ((distance_of ds p ≡ some e) × (e ≤ suc d))

  -- `open_ones` are commits whose parents are still to be seen.
  pub record IsLevel (d : ℕ) (open_ones : List Text) (s : Search) : Type 0 where
    pub sound : (x : Text) (e : ℕ) → distance_of s.distances x ≡ some e → Walk x e
    pub from_head : distance_of s.distances head ≡ some 0
    pub band : Band s.distances d s.queue
    pub cap : (x : Text) (e : ℕ) → distance_of s.distances x ≡ some e → e ≤ suc d
    pub seen :
        (x : Text) (e : ℕ)
        → distance_of s.distances x ≡ some e
        → In x open_ones ⊎ (In x s.queue ⊎ Relaxed s.distances x e)

  All-later :
      (ds es : List (Text × ℕ)) (d : ℕ) (q : List Text)
      → All (λ y. distance_of ds y ≡ some d) q
      → All (λ y. distance_of (ds ++ es) y ≡ some d) q
  All-later ds es d [] h = tt
  All-later ds es d (y ∷ q) (h, k) = (distance_of-append ds es y d h, All-later ds es d q k)

  pub Band-push :
      (ds : List (Text × ℕ)) (d : ℕ) (q : List Text) (p : Text)
      → distance_of ds p ≡ none
      → Band ds d q
      → Band (ds ++ ((p, suc d) ∷ [])) d (q ++ (p ∷ []))
  unfolding Band
  Band-push ds d [] p new b = inr (distance_of-added ds p (suc d) new, tt)
  Band-push ds d (x ∷ q) p new (inl (h, b)) =
      inl (distance_of-append ds ((p, suc d) ∷ []) x d h, Band-push ds d q p new b)
  Band-push ds d (x ∷ q) p new (inr (h, b)) = inr (
    distance_of-append ds ((p, suc d) ∷ []) x (suc d) h,
    All-append (λ y. distance_of (ds ++ ((p, suc d) ∷ [])) y ≡ some (suc d)) q (p ∷ [])
        (All-later ds ((p, suc d) ∷ []) (suc d) q b) (distance_of-added ds p (suc d) new, tt),
  )

  Relaxed-later :
      (ds es : List (Text × ℕ)) (x : Text) (d : ℕ) → Relaxed ds x d → Relaxed (ds ++ es) x d
  unfolding Relaxed
  Relaxed-later ds es x d r parents p h i k =
      let (e, (here, le)) = r parents p h i k in (e, (distance_of-append ds es p e here, le))

  In-concat : (x p : Text) (q : List Text) → In x q → In x (q ++ (p ∷ []))
  In-concat x p [] i = absurd i
  In-concat x p (y ∷ q) (inl e) = inl e
  In-concat x p (y ∷ q) (inr i) = inr (In-concat x p q i)

  pub In-last : (p : Text) (q : List Text) → In p (q ++ (p ∷ []))
  In-last p [] = inl refl
  In-last p (y ∷ q) = inr (In-last p q)

  pub still_seen :
      (ds : List (Text × ℕ)) (q : List Text) (p y : Text) (e : ℕ) (x : Text) (d : ℕ)
      → In y (x ∷ []) ⊎ (In y q ⊎ Relaxed ds y e)
      → In y (x ∷ []) ⊎ (In y (q ++ (p ∷ [])) ⊎ Relaxed (ds ++ ((p, suc d) ∷ [])) y e)
  still_seen ds q p y e x d (inl i) = inl i
  still_seen ds q p y e x d (inr (inl i)) = inr (inl (In-concat y p q i))
  still_seen ds q p y e x d (inr (inr r)) = inr (inr (Relaxed-later ds _ y e r))
