-- ===== src/AncestorCache/Distances/Queue.antt =====
-- The loop ends with an empty queue: every commit enters it once.
use setup_soldr.Base.{ℕ, zero, suc, ◌+◌, ◌≤◌, ◌<◌, ◌≡◌, refl, ◌∙◌, ap}
use setup_soldr.Base.{◌≢◌, ◌⊎◌, inl, inr, Bool, true, false, Option, none, some}
use setup_soldr.Base.{List, [], ◌∷◌, ◌++◌, arith, ==_refl, ==_iff}
use setup_soldr.Base.{nat_eq, list_eq, option_eq, Option-cases, length}
use setup_soldr.Base.{get_or, is_some}
use setup_soldr.Base.{length-append}
use setup_soldr.Base.Text.{Text}
use setup_soldr.AncestorCache.Distances.{
  GitParentNode, parents_of, distance_of, Search, offer_if, skips, offer_all, expand, next_round,
  search, start_search,
}

pub distance_of-append :
    (ds es : List (Text × ℕ)) (x : Text) (d : ℕ)
    → distance_of ds x ≡ some d
    → distance_of (ds ++ es) x ≡ some d
unfolding distance_of
distance_of-append [] es x d h = cc
distance_of-append ((k, e) ∷ ds) es x d h = ground (arith, distance_of-append ds es x d)

pub distance_of-append_none :
    (ds es : List (Text × ℕ)) (x : Text)
    → distance_of ds x ≡ none
    → distance_of (ds ++ es) x ≡ distance_of es x
unfolding distance_of
distance_of-append_none [] es x h = refl
distance_of-append_none ((k, e) ∷ ds) es x h = ground (arith, distance_of-append_none ds es x)

distance_of-one : (p : Text) (d : ℕ) → distance_of ((p, d) ∷ []) p ≡ some d
unfolding distance_of
distance_of-one p d = rw ==_refl refl

pub distance_of-added :
    (ds : List (Text × ℕ)) (p : Text) (d : ℕ)
    → distance_of ds p ≡ none
    → distance_of (ds ++ ((p, d) ∷ [])) p ≡ some d
distance_of-added ds p d h = distance_of-append_none ds ((p, d) ∷ []) p h ∙ distance_of-one p d

pub distance_of-cases :
    (ds : List (Text × ℕ)) (p : Text) (d : ℕ) (x : Text) (e : ℕ)
    → distance_of (ds ++ ((p, d) ∷ [])) x ≡ some e
    → (distance_of ds x ≡ some e) ⊎ ((x ≡ p) × (e ≡ d))
unfolding distance_of
distance_of-cases [] p d x e h = ground (arith, ==_iff p x)
distance_of-cases ((k, f) ∷ ds) p d x e h = ground (arith, distance_of-cases ds p d x e)

-- How many nodes have no distance yet.
abbrev pub missing : Option ℕ → ℕ
missing none = 1
missing (some d) = 0

unfoldable pub unseen : List GitParentNode → List (Text × ℕ) → ℕ
unseen [] ds = 0
unseen (n ∷ ns) ds = missing (distance_of ds n.sha) + unseen ns ds

unseen-le : (ns : List GitParentNode) (ds : List (Text × ℕ)) → unseen ns ds ≤ length ns
unfolding unseen
unseen-le [] ds = omega arith
unseen-le (n ∷ ns) ds = ground (arith, unseen-le ns ds)

missing-append :
    (ds es : List (Text × ℕ)) (k : Text)
    → missing (distance_of (ds ++ es) k) ≤ missing (distance_of ds k)
missing-append ds es k = elim (Option-cases (distance_of ds k)) [
  | inl e ↦ ground (arith, e)
  | inr (d, e) ↦ rw (distance_of-append ds es k d e) (omega arith)
]

unseen-append :
    (ns : List GitParentNode) (ds es : List (Text × ℕ)) → unseen ns (ds ++ es) ≤ unseen ns ds
unfolding unseen
unseen-append [] ds es = omega arith
unseen-append (n ∷ ns) ds es = omega (arith, unseen-append ns ds es, missing-append ds es n.sha)

parents_of-cases :
    (n : GitParentNode) (ns : List GitParentNode) (p : Text)
    → is_some (parents_of (n ∷ ns) p) ≡ true
    → (is_some (parents_of ns p) ≡ true) ⊎ (n.sha ≡ p)
unfolding parents_of
parents_of-cases n ns p h = ground (arith, ==_iff n.sha p)

no_nodes : (p : Text) → is_some (parents_of [] p) ≢ true
unfolding parents_of
no_nodes p h = cc

unseen-added :
    (ns : List GitParentNode) (ds : List (Text × ℕ)) (p : Text) (d : ℕ)
    → is_some (parents_of ns p) ≡ true
    → distance_of ds p ≡ none
    → unseen ns (ds ++ ((p, d) ∷ [])) < unseen ns ds
unfolding unseen
unseen-added [] ds p d known new = absurd (no_nodes p known)
unseen-added (n ∷ ns) ds p d known new = elim (parents_of-cases n ns p known) [
  | inl later ↦
      omega (arith, unseen-added ns ds p d later new, missing-append ds ((p, d) ∷ []) n.sha)
  | inr here ↦
      let added : distance_of (ds ++ ((p, d) ∷ [])) n.sha ≡ some d =
        rw here (distance_of-added ds p d new) in
      let fresh : distance_of ds n.sha ≡ none = rw here new in
      rw added (rw fresh (omega (arith, unseen-append ns ds ((p, d) ∷ []))))
]

no_length : (xs : List Text) → length xs ≤ 0 → xs ≡ []
no_length [] h = refl
no_length (x ∷ xs) h = absurd (omega arith)

module _ (nodes : List GitParentNode) where
  abbrev pub work : Search → ℕ
  work s = unseen nodes s.distances + length s.queue

  pub skips-false :
      (p : Text) (s : Search)
      → skips nodes p s ≡ false
      → (is_some (parents_of nodes p) ≡ true) × (distance_of s.distances p ≡ none)
  skips-false p s h = ground arith

  offer_if-work :
      (b : Bool) (sha p : Text) (s : Search)
      → skips nodes p s ≡ b
      → work (offer_if nodes b sha p s) ≤ work s
  unfolding offer_if
  offer_if-work true sha p s h = omega arith
  offer_if-work false sha p s h =
      let (known, new) = skips-false p s h in
      omega (arith, unseen-added nodes s.distances p _ known new, length-append s.queue (p ∷ []))

  offer_all-work :
      (sha : Text) (ps : List Text) (s : Search) → work (offer_all nodes sha ps s) ≤ work s
  unfolding offer_all
  offer_all-work sha [] s = omega arith
  offer_all-work sha (p ∷ ps) s = omega (
    arith,
    offer_all-work sha ps (offer_if nodes (skips nodes p s) sha p s),
    offer_if-work (skips nodes p s) sha p s refl,
  )

  expand-work :
      (sha : Text) (rest : List Text) (s : Search)
      → s.queue ≡ sha ∷ rest
      → suc (work (expand nodes sha rest s)) ≤ work s
  unfolding expand
  expand-work sha rest s h = omega (
    arith,
    offer_all-work sha (get_or (parents_of nodes sha) []) (record s { queue = rest }),
    ap length h,
  )

  -- What each round keeps holds when the queue is empty, and with enough fuel it gets empty.
  module _ (P : Search → Type 0)
      (keep : (s : Search) (sha : Text) (rest : List Text)
        → s.queue ≡ sha ∷ rest
        → P s
        → P (expand nodes sha rest s)) where
    Ends : Search → Type 0
    Ends s = P s × (s.queue ≡ [])

    next_round-Ends :
        (go_on : Search → Search) (fuel : ℕ) (s : Search) (q : List Text)
        → s.queue ≡ q
        → work s ≤ suc fuel
        → P s
        → ((t : Search) → work t ≤ fuel → P t → Ends (go_on t))
        → Ends (next_round nodes go_on s q)
    unfolding next_round Ends
    next_round-Ends go_on fuel s [] e h p later = (p, e)
    next_round-Ends go_on fuel s (sha ∷ rest) e h p later =
        later (expand nodes sha rest s) (omega (arith, expand-work sha rest s e))
          (keep s sha rest e p)

    search-Ends : (fuel : ℕ) (s : Search) → work s ≤ fuel → P s → Ends (search nodes fuel s)
    unfolding search Ends
    search-Ends zero s h p = (p, no_length s.queue (omega (arith, h)))
    search-Ends (suc fuel) s h p =
        next_round-Ends (search nodes fuel) fuel s s.queue refl h p (search-Ends fuel)

  pub search_rule :
      (P : Search → Type 0)
      → ((s : Search) (sha : Text) (rest : List Text)
          → s.queue ≡ sha ∷ rest
          → P s
          → P (expand nodes sha rest s))
      → (head : Text) → P (start_search head)
      → P (search nodes (suc (length nodes)) (start_search head))
        × ((search nodes (suc (length nodes)) (start_search head)).queue ≡ [])
  unfolding Ends
  search_rule P keep head p =
      search-Ends P keep (suc (length nodes)) (start_search head)
        (omega (arith, unseen-le nodes ((head, 0) ∷ []))) p
