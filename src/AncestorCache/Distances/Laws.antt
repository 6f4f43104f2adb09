-- ===== src/AncestorCache/Distances/Laws.antt =====
-- The distances are the lengths of shortest ways from the head through the commits that are known.
use setup_soldr.Base.{ℕ, suc, ◌≤◌, ◌≡◌, refl}
use setup_soldr.Base.{◌↔◌, ◌⊎◌, inl, inr, some}
use setup_soldr.Base.{List, [], arith}
use setup_soldr.Base.{nat_eq, list_eq, option_eq, length}
use setup_soldr.Base.{ok}
use setup_soldr.Base.{le→leb}
use setup_soldr.Base.Text.{Text}
use setup_soldr.Base.{In}
use mathlib.Core.Path.{subst}
use setup_soldr.AncestorCache.Distances.{
  GitParentNode, distance_of, Search, search, start_search, dag_distances,
}
use setup_soldr.AncestorCache.Distances.Queue.{search_rule}
use setup_soldr.AncestorCache.Distances.Walks.{at_head, to_parent, Walk, Relaxed, IsLevel}
use setup_soldr.AncestorCache.Distances.Rounds.{IsSearch, expand-IsSearch, start-IsSearch}

module _ (head : Text) (nodes : List GitParentNode) where
  -- With nothing left in the queue, all is relaxed.
  abbrev settled : Search
  settled = search nodes (suc (length nodes)) (start_search head)

  Relaxed-at :
      (ds : List (Text × ℕ)) (q : List Text) (x : Text) (e : ℕ)
      → q ≡ []
      → In x [] ⊎ (In x q ⊎ Relaxed head nodes ds x e)
      → Relaxed head nodes ds x e
  Relaxed-at ds q x e h (inl i) = absurd i
  Relaxed-at ds q x e h (inr (inl i)) = absurd (subst (In x) h i)
  Relaxed-at ds q x e h (inr (inr r)) = r

  Walk-bound :
      (s : Search) (d : ℕ) (x : Text) (n : ℕ)
      → IsLevel head nodes d [] s
      → s.queue ≡ []
      → Walk head nodes x n
      → (e : ℕ) × ((distance_of s.distances x ≡ some e) × (e ≤ n))
  unfolding Relaxed
  Walk-bound s d x n v done at_head = (0, (v.from_head, omega arith))
  Walk-bound s d x n v done (to_parent u m parents x' w has i known) =
      let (e, (h, le)) = Walk-bound s d u m v done w in
      let (f, (there, far)) =
        Relaxed-at s.distances s.queue u e done (v.seen u e h) parents x has i known in
      (f, (there, omega arith))

  shortest :
      (x : Text) (d : ℕ)
      → IsSearch head nodes settled
      → settled.queue ≡ []
      → (distance_of settled.distances x ≡ some d)
        ↔ (Walk head nodes x d × ((n : ℕ) → Walk head nodes x n → d ≤ n))
  unfolding IsSearch
  shortest x d (k, v) done = (
    λ h. (
      v.sound x d h,
      λ n w.
          let (e, (m, le)) = Walk-bound settled k x n v done w in
          let same : d ≡ e = cc in omega arith,
    ),
    λ h.
        let (w, least) = h in
        let (e, (m, le)) = Walk-bound settled k x d v done w in
        let bound = least e (v.sound x e m) in
        let same : e ≡ d = omega arith in
        subst (λ z. distance_of settled.distances x ≡ some z) same m,
  )

  -- `dagDistances` gives a commit a distance exactly if a way leads to it from the head through
  -- known commits, and the distance is the length of a shortest one. Its loop ends with the queue
  -- empty after at most one round more than there are nodes.
  pub dag_distances_shortest :
      length nodes ≤ 200
      → (ds : List (Text × ℕ)) × ((dag_distances head nodes ≡ ok ds)
          × ((settled.queue ≡ [])
              × ((x : Text) (d : ℕ)
                  → (distance_of ds x ≡ some d)
                    ↔ (Walk head nodes x d × ((n : ℕ) → Walk head nodes x n → d ≤ n)))))
  unfolding dag_distances
  dag_distances_shortest bound =
      let (searched, done) =
        search_rule nodes (IsSearch head nodes) (expand-IsSearch head nodes) head
          (start-IsSearch head nodes) in
      (
        settled.distances,
        (rw (le→leb (length nodes) 200 bound) refl, (done, λ x d. shortest x d searched done)),
      )
