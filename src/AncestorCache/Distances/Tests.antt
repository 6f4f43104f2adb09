-- ===== src/AncestorCache/Distances/Tests.antt =====
-- Distances in a small graph of commits.
use setup_soldr.Base.{ℕ, ◌≤◌, ◌≡◌, refl}
use setup_soldr.Base.{◌↔◌, some}
use setup_soldr.Base.{List, [], ◌∷◌, arith}
use setup_soldr.Base.{nat_eq, list_eq, option_eq}
use setup_soldr.Base.{ok}
use setup_soldr.Base.Text.{Text, text}
use setup_soldr.AncestorCache.Distances.{
  GitParentNode, parents_of, distance_of, search, start_search, dag_distances,
}
use setup_soldr.AncestorCache.Distances.Laws.{dag_distances_shortest}
use setup_soldr.AncestorCache.Distances.Walks.{Walk}

-- The head is a merge of `b` and of `a`, the parent of `b`; `z` is not known.
abbrev graph : List GitParentNode
graph =
    record { sha = text "head"; parents = text "b" ∷ text "a" ∷ [] }
    ∷ record { sha = text "b"; parents = text "a" ∷ text "z" ∷ [] }
    ∷ record { sha = text "a"; parents = [] }
    ∷ []

finds :
    dag_distances (text "head") graph ≡ ok ((text "head", 0) ∷ (text "b", 1) ∷ (text "a", 1) ∷ [])
unfolding dag_distances parents_of distance_of text nat_eq list_eq
finds = refl

dag_distances_shortest_example :
    (ds : List (Text × ℕ)) × ((dag_distances (text "head") graph ≡ ok ds)
      × (((search graph 4 (start_search (text "head"))).queue ≡ [])
          × ((x : Text) (d : ℕ)
              → (distance_of ds x ≡ some d) ↔ (
                  Walk (text "head") graph x d
                  × ((n : ℕ) → Walk (text "head") graph x n → d ≤ n)))))
dag_distances_shortest_example = dag_distances_shortest (text "head") graph (omega arith)
