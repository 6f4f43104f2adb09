-- ===== src/AncestorCache/Distances/Rounds.antt =====
-- A round of the outer loop keeps what holds of the distances.
use setup_soldr.Base.{ℕ, suc, ◌≤◌, ◌≡◌, refl, sym, ◌∙◌}
use setup_soldr.Base.{◌⊎◌, inl, inr, true, Option, none, some}
use setup_soldr.Base.{List, [], ◌∷◌, arith, ==_refl, ==_iff}
use setup_soldr.Base.{nat_eq, list_eq, option_eq}
use setup_soldr.Base.{get_or, is_some, All}
use setup_soldr.Base.Text.{Text}
use setup_soldr.Base.{In}
use mathlib.Core.Path.{subst}
use setup_soldr.AncestorCache.Distances.{
  GitParentNode, parents_of, distance_of, Search, offer_all, expand, start_search,
}
use setup_soldr.AncestorCache.Distances.Walks.{at_head, Walk, Band, Relaxed, IsLevel}
use setup_soldr.AncestorCache.Distances.Offer.{InLoop, Recorded, offer_all-InLoop}

module _ (head : Text) (nodes : List GitParentNode) where
  -- A round starts at the level of the front, and ends at that level.
  unfoldable pub IsSearch : Search → Type 0
  IsSearch s = (d : ℕ) × IsLevel head nodes d [] s

  Band-of :
      (ds : List (Text × ℕ)) (d : ℕ) (q : List Text)
      → All (λ y. distance_of ds y ≡ some d) q
      → Band head nodes ds d q
  unfolding Band
  Band-of ds d [] h = tt
  Band-of ds d (y ∷ q) (h, k) = inl (h, Band-of ds d q k)

  split-Band :
      (ds : List (Text × ℕ)) (d : ℕ) (x : Text) (rest : List Text)
      → Band head nodes ds d (x ∷ rest)
      → (k : ℕ) × ((distance_of ds x ≡ some k) × (Band head nodes ds k rest × (d ≤ k)))
  unfolding Band
  split-Band ds d x rest (inl (h, b)) = (d, (h, (b, omega arith)))
  split-Band ds d x rest (inr (h, b)) = (suc d, (h, (Band-of ds (suc d) rest b, omega arith)))

  front_seen :
      (ds : List (Text × ℕ)) (q rest : List Text) (x y : Text) (e : ℕ)
      → q ≡ x ∷ rest
      → In y [] ⊎ (In y q ⊎ Relaxed head nodes ds y e)
      → In y (x ∷ []) ⊎ (In y rest ⊎ Relaxed head nodes ds y e)
  front_seen ds [] rest x y e h i = cc
  front_seen ds (z ∷ q) rest x y e h (inl i) = absurd i
  front_seen ds (z ∷ q) rest x y e h (inr (inr r)) = inr (inr r)
  front_seen ds (z ∷ q) rest x y e h (inr (inl (inl i))) = inl (inl (cc))
  front_seen ds (z ∷ q) rest x y e h (inr (inl (inr i))) =
      let same : q ≡ rest = cc in inr (inl (subst (In y) same i))

  front-IsLevel :
      (d : ℕ) (s : Search) (x : Text) (rest : List Text)
      → s.queue ≡ x ∷ rest
      → IsLevel head nodes d [] s
      → (k : ℕ) × ((distance_of s.distances x ≡ some k)
          × IsLevel head nodes k (x ∷ []) (record s { queue = rest }))
  front-IsLevel d s x rest h v =
      let (k, (here, (band, le))) =
        split-Band s.distances d x rest (subst (Band head nodes s.distances d) h v.band) in
      (
        k,
        (
          here,
          record {
            sound = v.sound;
            from_head = v.from_head;
            band = band;
            cap = λ y e m. let c = v.cap y e m in omega arith;
            seen = λ y e m. front_seen s.distances s.queue rest x y e h (v.seen y e m);
          },
        ),
      )

  finish_seen :
      (t : Search) (x y : Text) (k e : ℕ)
      → distance_of t.distances x ≡ some k
      → distance_of t.distances y ≡ some e
      → Relaxed head nodes t.distances x k
      → In y (x ∷ []) ⊎ (In y t.queue ⊎ Relaxed head nodes t.distances y e)
      → In y [] ⊎ (In y t.queue ⊎ Relaxed head nodes t.distances y e)
  finish_seen t x y k e h m r (inr i) = inr i
  finish_seen t x y k e h m r (inl (inr i)) = absurd i
  finish_seen t x y k e h m r (inl (inl same)) =
      let far : k ≡ e = cc in
      inr (
        inr (
          subst (λ z. Relaxed head nodes t.distances z e) (sym same)
            (subst (Relaxed head nodes t.distances x) far r)))

  finish-IsLevel :
      (t : Search) (x : Text) (k : ℕ)
      → distance_of t.distances x ≡ some k
      → IsLevel head nodes k (x ∷ []) t
      → Relaxed head nodes t.distances x k
      → IsLevel head nodes k [] t
  finish-IsLevel t x k h v r = record {
    sound = v.sound;
    from_head = v.from_head;
    band = v.band;
    cap = v.cap;
    seen = λ y e m. finish_seen t x y k e h m r (v.seen y e m);
  }

  module _ (d : ℕ) (x : Text) (parents : List Text) (has : parents_of nodes x ≡ some parents) where
    InLoop-of :
        (s : Search)
        → IsLevel head nodes d (x ∷ []) s
        → distance_of s.distances x ≡ some d
        → InLoop head nodes d x parents has s
    unfolding InLoop
    InLoop-of s v h = (v, h)

    InLoop-fields :
        (s : Search)
        → InLoop head nodes d x parents has s
        → IsLevel head nodes d (x ∷ []) s × (distance_of s.distances x ≡ some d)
    unfolding InLoop
    InLoop-fields s h = h

    Recorded-known :
        (p : Text) (s : Search)
        → Recorded head nodes d x parents has p s
        → is_some (parents_of nodes p) ≡ true
        → (e : ℕ) × (distance_of s.distances p ≡ some e)
    unfolding Recorded
    Recorded-known p s r k = r k

  some_injective : (a b : List Text) → some a ≡ some b → a ≡ b
  some_injective a b h = cc

  expand_from :
      (k : ℕ) (x : Text) (t : Search) (o : Option (List Text))
      → parents_of nodes x ≡ o
      → distance_of t.distances x ≡ some k
      → IsLevel head nodes k (x ∷ []) t
      → IsLevel head nodes k [] (offer_all nodes x (get_or o []) t)
  unfolding offer_all Relaxed
  expand_from k x t none h here v =
      finish-IsLevel t x k here v (λ ps p has i known. absurd (let e = sym h ∙ has in cc))
  expand_from k x t (some parents) h here v =
      let (w, (recorded, grows)) =
        (offer_all-InLoop head nodes) k x parents h parents t (λ p i. i)
          (InLoop-of k x parents h t v here) in
      let u = offer_all nodes x parents t in
      let (level, at_k) = InLoop-fields k x parents h u w in
      finish-IsLevel u x k at_k level (λ ps p has i known.
        let same : ps ≡ parents = some_injective ps parents (sym has ∙ h) in
        let (e, m) = Recorded-known k x parents h p u (recorded p (subst (In p) same i)) known in
        (e, (m, level.cap p e m)))

  pub expand-IsSearch :
      (s : Search) (x : Text) (rest : List Text)
      → s.queue ≡ x ∷ rest
      → IsSearch s
      → IsSearch (expand nodes x rest s)
  unfolding expand IsSearch
  expand-IsSearch s x rest h (d, v) =
      let (k, (here, w)) = front-IsLevel d s x rest h v in
      (k, expand_from k x (record s { queue = rest }) (parents_of nodes x) refl here w)

  start_seen : (x : Text) (e : ℕ) → distance_of ((head, 0) ∷ []) x ≡ some e → (head ≡ x) × (e ≡ 0)
  unfolding distance_of
  start_seen x e h = ground (arith, ==_iff head x)

  start_head : distance_of ((head, 0) ∷ []) head ≡ some 0
  unfolding distance_of
  start_head = rw ==_refl refl

  pub start-IsSearch : IsSearch (start_search head)
  unfolding IsSearch Band
  start-IsSearch = (
    0,
    record {
      sound = λ x e h.
          let (same, zero_far) = start_seen x e h in
          subst (λ z. Walk head nodes z e) same
            (subst (Walk head nodes head) (sym zero_far) at_head);
      from_head = start_head;
      band = inl (start_head, tt);
      cap = λ x e h. let (same, zero_far) = start_seen x e h in omega arith;
      seen = λ x e h. inr (inl (inl (sym (start_seen x e h).0)));
    },
  )
