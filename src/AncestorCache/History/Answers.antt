-- ===== src/AncestorCache/History/Answers.antt =====
-- src/lib/ancestor-cache-git.ts: what an answer for a candidate is, from what git has said.
use setup_soldr.Base.{ℕ, ◌≤◌, ◌≡◌, refl, sym, ◌∙◌, ap}
use setup_soldr.Base.{Bool, true, false, Option, some}
use setup_soldr.Base.{List, [], ◌∷◌, leb, ◌==◌}
use setup_soldr.Base.{nat_eq, list_eq, option_eq, length}
use setup_soldr.Base.{filter, Result, ok, ensure}
use setup_soldr.Base.{◌>>◌, leb→le}
use setup_soldr.Base.{ok_injective}
use setup_soldr.Base.Text.{Text, text}
use setup_soldr.AncestorCache.Distances.{GitParentNode, distance_of, dag_distances}
use setup_soldr.AncestorCache.Distances.Laws.{dag_distances_shortest}
use setup_soldr.AncestorCache.Distances.Walks.{Walk}
use setup_soldr.AncestorCache.History.{parse_parents, list_args}

-- How many of the runs of git are fetches.
abbrev pub is_fetch : List Text → Bool
is_fetch [] = false
is_fetch (command ∷ args) = command == text "fetch"

abbrev pub fetches : List (List Text) → ℕ
fetches calls = length (filter is_fetch calls)

abbrev pub flag : Bool → ℕ
flag true = 1
flag false = 0

-- The number is the length of a shortest way from the head to the commit in the graph.
abbrev pub IsShortest : Text → List GitParentNode → Text → ℕ → Type 0
IsShortest sha nodes candidate d =
    (length nodes ≤ 200)
    × (Walk sha nodes candidate d × ((n : ℕ) → Walk sha nodes candidate n → d ≤ n))

module _ (World : Type 0) (run : World → List Text → Result Text × World) (sha : Text)
    (start : World) where
  -- The world that runs of git lead to, the last one first.
  unfoldable pub world_after : List (List Text) → World
  world_after [] = start
  world_after (args ∷ calls) = (run (world_after calls) args).1

  -- What git lists after some runs of it reads as this graph.
  abbrev pub Lists : List GitParentNode → Type 0
  Lists nodes =
      (calls : List (List Text)) × (output : Text) × ((run (world_after calls)
          (list_args World run sha)).0
        ≡ ok output)
      × (parse_parents output ≡ ok nodes)

  -- Git confirms, after some runs of it, that the commit is an ancestor of the head.
  abbrev pub Confirms : Text → Type 0
  Confirms candidate =
      (calls : List (List Text)) × (output : Text) × ((run (world_after calls)
          (text "merge-base" ∷ text "--is-ancestor" ∷ candidate ∷ sha ∷ [])).0
        ≡ ok output)

  abbrev pub IsDistance : Text → ℕ → Type 0
  IsDistance candidate d =
      (nodes : List GitParentNode) × Lists nodes × IsShortest sha nodes candidate d

  abbrev pub IsAnswer : Text × Result (Option ℕ) → Type 0
  IsAnswer (candidate, ok (some d)) = IsDistance candidate d × Confirms candidate
  IsAnswer (candidate, r) = Unit

within :
    (sha : Text) (nodes : List GitParentNode) (ds : List (Text × ℕ))
    → dag_distances sha nodes ≡ ok ds
    → length nodes ≤ 200
unfolding dag_distances
within sha nodes ds h = fits (leb (length nodes) 200) _ _ refl h
  where
    fits :
        (b : Bool) (m : Text) (rest : Result (List (Text × ℕ)))
        → leb (length nodes) 200 ≡ b
        → (ensure b m >> rest) ≡ ok ds
        → length nodes ≤ 200
    fits true m rest e h = leb→le (length nodes) 200 e
    fits false m rest e h = absurd cc

pub IsShortest-of :
    (sha : Text) (nodes : List GitParentNode) (ds : List (Text × ℕ)) (candidate : Text) (d : ℕ)
    → dag_distances sha nodes ≡ ok ds
    → distance_of ds candidate ≡ some d
    → IsShortest sha nodes candidate d
IsShortest-of sha nodes ds candidate d h found =
    let bound = within sha nodes ds h in
    let (es, (computed, (drained, shortest))) = dag_distances_shortest sha nodes bound in
    let same : es ≡ ds = ok_injective es ds (sym computed ∙ h) in
    let here : distance_of es candidate ≡ some d = ap (λ z. distance_of z candidate) same ∙ found in
    (bound, (shortest candidate d).0 here)
