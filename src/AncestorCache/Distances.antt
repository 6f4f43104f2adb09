-- ===== src/AncestorCache/Distances.antt =====
-- `dagDistances` of src/lib/ancestor-cache.ts: how far each commit lies from the head. A Map is the
-- list of its entries in the order of insertion.
pub mod Queue
pub mod Walks
pub mod Offer
pub mod Rounds
pub mod Laws
mod Tests
use setup_soldr.Base.{ℕ, zero, suc, ◌+◌}
use setup_soldr.Base.{Bool, true, false, not, ◌||◌, Option, none, some}
use setup_soldr.Base.{List, [], ◌∷◌, ◌++◌, if◌then◌else◌, leb, ◌==◌}
use setup_soldr.Base.{nat_eq, list_eq, option_eq, length}
use setup_soldr.Base.{get_or, is_some, Result, ok, ensure}
use setup_soldr.Base.{◌>>◌}
use setup_soldr.Base.Text.{Text, text}

pub record GitParentNode : Type 0 where
  pub sha : Text
  pub parents : List Text

-- `parents.get(sha)` of `new Map(nodes.map(...))`: the last node with the key counts.
unfoldable pub parents_of : List GitParentNode → Text → Option (List Text)
parents_of [] sha = none
parents_of (n ∷ ns) sha = elim (parents_of ns sha) [
  | some ps ↦ some ps
  | none ↦ if n.sha == sha then some n.parents else none
]

-- `distances.get(sha)`
unfoldable pub distance_of : List (Text × ℕ) → Text → Option ℕ
distance_of [] sha = none
distance_of ((k, d) ∷ ds) sha = let rest = distance_of ds sha in if k == sha then some d else rest

-- `queue` from `position` on.
pub record Search : Type 0 where
  pub distances : List (Text × ℕ)
  pub queue : List Text

module _ (nodes : List GitParentNode) where
  -- `distances.set(parent, distances.get(sha)! + 1); queue.push(parent)`. A commit in the queue has
  -- a distance, so the 0 is never read.
  unfoldable pub push_parent : Text → Text → Search → Search
  push_parent sha parent s = record {
    distances = s.distances ++ ((parent, get_or (distance_of s.distances sha) 0 + 1) ∷ []);
    queue = s.queue ++ (parent ∷ []);
  }

  -- The body of the inner loop; the Boolean is the test of its `continue`.
  unfoldable pub offer_if : Bool → Text → Text → Search → Search
  unfolding push_parent
  offer_if true sha parent s = s
  offer_if false sha parent s = push_parent sha parent s

  abbrev pub skips : Text → Search → Bool
  skips parent s =
      not (is_some (parents_of nodes parent)) || is_some (distance_of s.distances parent)

  unfoldable pub offer_all : Text → List Text → Search → Search
  unfolding offer_if
  offer_all sha [] s = s
  offer_all sha (p ∷ ps) s = offer_all sha ps (offer_if (skips p s) sha p s)

  -- The round for the front of the queue.
  unfoldable pub expand : Text → List Text → Search → Search
  unfolding offer_all
  expand sha rest s = offer_all sha (get_or (parents_of nodes sha) []) (record s { queue = rest })

  -- One test of the outer loop on its queue; `rest_of_search` is the search after a round.
  unfoldable pub next_round : (Search → Search) → Search → List Text → Search
  unfolding expand
  next_round rest_of_search s [] = s
  next_round rest_of_search s (sha ∷ rest) = rest_of_search (expand sha rest s)

  -- The outer loop, for at most `fuel` commits.
  unfoldable pub search : ℕ → Search → Search
  unfolding next_round
  search zero s = s
  search (suc fuel) s = next_round (search fuel) s s.queue

abbrev pub start_search : Text → Search
start_search head = record { distances = (head, 0) ∷ []; queue = head ∷ [] }

unfoldable pub dag_distances : Text → List GitParentNode → Result (List (Text × ℕ))
unfolding search text
dag_distances head nodes =
    ensure (leb (length nodes) 200) (text "Git DAG exceeds 200 commits")
    >> ok (search nodes (suc (length nodes)) (start_search head)).distances
