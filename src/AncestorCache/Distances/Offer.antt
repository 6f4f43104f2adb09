-- ===== src/AncestorCache/Distances/Offer.antt =====
-- The inner loop: the parents of a commit are offered.
use setup_soldr.Base.{ℕ, suc, ◌+◌, ◌≡◌, refl, sym}
use setup_soldr.Base.{inl, inr, Bool, true, false, none, some}
use setup_soldr.Base.{List, [], ◌∷◌, ◌++◌, arith}
use setup_soldr.Base.{nat_eq, list_eq, option_eq, Option-cases}
use setup_soldr.Base.{get_or, is_some}
use setup_soldr.Base.Text.{Text}
use setup_soldr.Base.{In}
use mathlib.Core.Path.{subst}
use setup_soldr.AncestorCache.Distances.{
  GitParentNode, parents_of, distance_of, Search, push_parent, offer_if, skips, offer_all,
}
use setup_soldr.AncestorCache.Distances.Queue.{
  distance_of-append, distance_of-added, distance_of-cases, skips-false,
}
use setup_soldr.AncestorCache.Distances.Walks.{
  to_parent, Walk, IsLevel, Band-push, In-last, still_seen,
}

module _ (head : Text) (nodes : List GitParentNode) where
  module _ (d : ℕ) (x : Text) (parents : List Text) (has : parents_of nodes x ≡ some parents) where
    -- The inner loop for a commit at the level `d`.
    unfoldable pub InLoop : Search → Type 0
    InLoop s = IsLevel head nodes d (x ∷ []) s × (distance_of s.distances x ≡ some d)

    push_parent-InLoop :
        (p : Text) (s : Search)
        → In p parents
        → is_some (parents_of nodes p) ≡ true
        → distance_of s.distances p ≡ none
        → InLoop s
        → InLoop
            (record { distances = s.distances ++ ((p, suc d) ∷ []); queue = s.queue ++ (p ∷ []) })
    unfolding InLoop
    push_parent-InLoop p s i known new (v, here) =
        let ds = s.distances in
        let step : Walk head nodes p (suc d) =
          to_parent x d parents p (v.sound x d here) has i known in
        (
          record {
            sound = λ y e h. elim (distance_of-cases ds p (suc d) y e h) [
              | inl old ↦ v.sound y e old
              | inr (same, far) ↦
                  subst (λ z. Walk head nodes z e) (sym same)
                    (subst (Walk head nodes p) (sym far) step)
            ];
            from_head = distance_of-append ds ((p, suc d) ∷ []) head 0 v.from_head;
            band = Band-push head nodes ds d s.queue p new v.band;
            cap = λ y e h. elim (distance_of-cases ds p (suc d) y e h) [
              | inl old ↦ v.cap y e old
              | inr (same, far) ↦ omega arith
            ];
            seen = λ y e h. elim (distance_of-cases ds p (suc d) y e h) [
              | inl old ↦ still_seen head nodes ds s.queue p y e x d (v.seen y e old)
              | inr (same, far) ↦ inr (
                  inl (
                    subst (λ z. In z (s.queue ++ (p ∷ []))) (sym same)
                      (In-last head nodes p s.queue)))
            ];
          },
          distance_of-append ds ((p, suc d) ∷ []) x d here,
        )

    abbrev Grows : Search → Search → Type 0
    Grows s t =
        (y : Text) (e : ℕ) → distance_of s.distances y ≡ some e → distance_of t.distances y ≡ some e

    unfoldable pub Recorded : Text → Search → Type 0
    Recorded p s =
        is_some (parents_of nodes p) ≡ true → (e : ℕ) × (distance_of s.distances p ≡ some e)

    skips-true : (p : Text) (s : Search) → skips nodes p s ≡ true → Recorded p s
    unfolding Recorded
    skips-true p s h k = elim (Option-cases (distance_of s.distances p)) [
      | inl e ↦ absurd (ground (arith, h, k, e))
      | inr found ↦ found
    ]

    Recorded-later : (p : Text) (s t : Search) → Grows s t → Recorded p s → Recorded p t
    unfolding Recorded
    Recorded-later p s t g r k = let (e, h) = r k in (e, g p e h)

    offer_if-InLoop :
        (b : Bool) (p : Text) (s : Search)
        → skips nodes p s ≡ b
        → In p parents
        → InLoop s
        → InLoop (offer_if nodes b x p s)
          × (Recorded p (offer_if nodes b x p s) × Grows s (offer_if nodes b x p s))
    unfolding offer_if push_parent Recorded InLoop
    offer_if-InLoop true p s h i v = (v, (skips-true p s h, λ y e k. k))
    offer_if-InLoop false p s h i v =
        let (known, new) = skips-false nodes p s h in
        let far : get_or (distance_of s.distances x) 0 + 1 ≡ suc d = rw v.1 (omega arith) in
        let n = get_or (distance_of s.distances x) 0 + 1 in
        let entry = distance_of-added s.distances p n new in
        (
          subst
              (λ m.
                InLoop (record {
                  distances = s.distances ++ ((p, m) ∷ []);
                  queue = s.queue ++ (p ∷ []);
                }))
              (sym far) (push_parent-InLoop p s i known new v),
          ((λ k. (n, entry)), λ y e k. distance_of-append s.distances ((p, n) ∷ []) y e k),
        )

    pub offer_all-InLoop :
        (ps : List Text) (s : Search)
        → ((p : Text) → In p ps → In p parents)
        → InLoop s
        → InLoop (offer_all nodes x ps s)
          × (((p : Text) → In p ps → Recorded p (offer_all nodes x ps s))
              × Grows s (offer_all nodes x ps s))
    unfolding offer_all
    offer_all-InLoop [] s sub v = (v, ((λ p i. absurd i), λ y e k. k))
    offer_all-InLoop (p ∷ ps) s sub v =
        let (v1, r1) = offer_if-InLoop (skips nodes p s) p s refl (sub p (inl refl)) v in
        let (v2, r2) =
          offer_all-InLoop ps (offer_if nodes (skips nodes p s) x p s) (λ q i. sub q (inr i)) v1 in
        (
          v2,
          (
            (λ q i. elim i [
              | inl same ↦
                  subst
                    (λ z.
                      Recorded z (offer_all nodes x ps (offer_if nodes (skips nodes p s) x p s)))
                    (sym same) (Recorded-later p _ _ r2.1 r1.0)
              | inr later ↦ r2.0 q later
            ]),
            λ y e k. r2.1 y e (r1.1 y e k),
          ),
        )
