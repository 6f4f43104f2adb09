-- ===== src/AncestorCache/History/Laws.antt =====
-- What is kept between the questions of a job, and how often the history is fetched.
use setup_soldr.Base.{ℕ, suc, ◌≤◌, ◌≡◌, refl, sym, ◌∙◌, ap}
use setup_soldr.Base.{Bool, true, false, Option, none, some}
use setup_soldr.Base.{List, [], ◌∷◌, arith, ◌==◌}
use setup_soldr.Base.{nat_eq, list_eq, option_eq}
use setup_soldr.Base.{All, Result, ok, err}
use setup_soldr.Base.{◌>>=◌}
use setup_soldr.Base.Text.{Text, text}
use setup_soldr.AncestorCache.Distances.{GitParentNode, dag_distances}
use setup_soldr.AncestorCache.History.{
  parse_parents, BoundedGitHistory, new_history, run_git, keep_distances, read_list, list_args,
  read_shallow, load, load_if_new, known, fetch_args, load_fetched, deepen, confirmed, answer,
  wants_fetch, with_loaded, distance, ask_all,
}
use setup_soldr.AncestorCache.History.Answers.{
  is_fetch, fetches, flag, world_after, Lists, IsDistance, IsAnswer, IsShortest-of,
}

module _ (World : Type 0) (run : World → List Text → Result Text × World) (sha : Text)
    (start : World) where
  -- What is kept is the distances of a graph that git listed.
  abbrev FromGraph : Option (List (Text × ℕ)) → Type 0
  FromGraph none = Unit
  FromGraph (some ds) =
      (nodes : List GitParentNode) × Lists World run sha start nodes
      × (dag_distances sha nodes ≡ ok ds)

  abbrev IsHistory : BoundedGitHistory World → Type 0
  IsHistory h =
      (fetches h.calls ≡ flag h.fetched)
      × FromGraph h.distances
      × (h.world ≡ world_after World run sha start h.calls)

  run_git-IsHistory :
      (args : List Text) (h : BoundedGitHistory World)
      → is_fetch args ≡ false
      → IsHistory h
      → IsHistory (run_git World run sha args h).1
  unfolding run_git world_after
  run_git-IsHistory args h plain (n, g, e) =
      (ground (arith, plain, n), g, ap (λ w. (run w args).1) e)

  -- The answer of git is that of the world that its runs have led to.
  answer_of :
      (args : List Text) (h : BoundedGitHistory World)
      → IsHistory h
      → (run (world_after World run sha start h.calls) args).0 ≡ (run_git World run sha args h).0
  unfolding run_git
  answer_of args h (n, g, e) = ap (λ w. (run w args).0) (sym e)

  keep_distances-IsHistory :
      (b : Bool) (nodes : Result (List GitParentNode)) (h : BoundedGitHistory World)
      → ((ns : List GitParentNode) → nodes ≡ ok ns → Lists World run sha start ns)
      → IsHistory h
      → IsHistory (keep_distances World run sha b (nodes >>= λ ns. dag_distances sha ns) h).1
  unfolding keep_distances
  keep_distances-IsHistory b (err e) h l v = v
  keep_distances-IsHistory b (ok nodes) h l v = kept (dag_distances sha nodes) refl
    where
      kept :
          (r : Result (List (Text × ℕ)))
          → dag_distances sha nodes ≡ r
          → IsHistory (keep_distances World run sha b r h).1
      kept (err e) same = v
      kept (ok ds) same = (v.0, (nodes, l nodes refl, same), v.2)

  read_list-IsHistory :
      (b : Bool) (r : Result Text) (h : BoundedGitHistory World)
      → (calls : List (List Text)) × ((run
            (world_after World run sha start calls)
            (list_args World run sha)).0
          ≡ r)
      → IsHistory h
      → IsHistory (read_list World run sha b (r, h)).1
  read_list-IsHistory b (err e) h (calls, l) v = v
  read_list-IsHistory b (ok output) h (calls, l) v =
      keep_distances-IsHistory b (parse_parents output) h (λ ns parsed. (calls, output, l, parsed))
        v

  read_shallow-IsHistory :
      (r : Result Text) (h : BoundedGitHistory World)
      → IsHistory h
      → IsHistory (read_shallow World run sha (r, h)).1
  unfolding text nat_eq list_eq
  read_shallow-IsHistory (err e) h v = v
  read_shallow-IsHistory (ok output) h v =
      let asked = run_git World run sha (list_args World run sha) h in
      read_list-IsHistory (output == text "true") asked.0 asked.1
        (h.calls, answer_of (list_args World run sha) h v)
        (run_git-IsHistory (list_args World run sha) h refl v)

  load-IsHistory : (h : BoundedGitHistory World) → IsHistory h → IsHistory (load World run sha h).1
  unfolding load text nat_eq list_eq
  load-IsHistory h v =
      let args = text "rev-parse" ∷ text "--is-shallow-repository" ∷ [] in
      let asked = run_git World run sha args h in
      read_shallow-IsHistory asked.0 asked.1 (run_git-IsHistory args h refl v)

  load_fetched-IsHistory :
      (r : Result Text) (h : BoundedGitHistory World)
      → IsHistory h
      → IsHistory (load_fetched World run sha (r, h))
  load_fetched-IsHistory (err e) h v = v
  load_fetched-IsHistory (ok output) h v = load-IsHistory h v

  deepen-IsHistory :
      (b : Bool) (h : BoundedGitHistory World)
      → (b ≡ true → h.fetched ≡ false)
      → IsHistory h
      → IsHistory (deepen World run sha b h)
  unfolding run_git world_after text nat_eq list_eq
  deepen-IsHistory false h new v = v
  deepen-IsHistory true h new (n, g, e) =
      let asked = run_git World run sha (fetch_args World run sha) (record h { fetched = true }) in
      load_fetched-IsHistory asked.0 asked.1
        (ap suc (n ∙ ap flag (new refl)), g, ap (λ w. (run w (fetch_args World run sha)).1) e)

  wants_fetch-new :
      (candidate : Text) (h : BoundedGitHistory World)
      → wants_fetch World run sha candidate h ≡ true
      → h.fetched ≡ false
  wants_fetch-new candidate h w = ground arith

  confirmed_lem :
      (candidate : Text) (d : ℕ) (r : Result Text) (h : BoundedGitHistory World)
      → (calls : List (List Text)) × ((run
            (world_after World run sha start calls)
            (text "merge-base" ∷ text "--is-ancestor" ∷ candidate ∷ sha ∷ [])).0
          ≡ r)
      → IsHistory h
      → IsDistance World run sha start candidate d
      → IsHistory (confirmed World run sha d (r, h)).1
        × IsAnswer World run sha start (candidate, (confirmed World run sha d (r, h)).0)
  confirmed_lem candidate d (err e) h asked v i = (v, tt)
  confirmed_lem candidate d (ok output) h (calls, c) v i = (v, (i, (calls, output, c)))

  answer_lem :
      (candidate : Text) (h : BoundedGitHistory World) (o : Option ℕ)
      → IsHistory h
      → known World run sha h.distances candidate ≡ o
      → IsHistory (answer World run sha candidate o h).1
        × IsAnswer World run sha start (candidate, (answer World run sha candidate o h).0)
  unfolding text nat_eq list_eq
  answer_lem candidate h none v e = (v, tt)
  answer_lem candidate h (some d) v e =
      let args = text "merge-base" ∷ text "--is-ancestor" ∷ candidate ∷ sha ∷ [] in
      let asked = run_git World run sha args h in
      confirmed_lem candidate d asked.0 asked.1 (h.calls, answer_of args h v)
        (run_git-IsHistory args h refl v) (graph_distance h.distances v.1 e)
    where
      graph_distance :
          (o : Option (List (Text × ℕ)))
          → FromGraph o
          → known World run sha o candidate ≡ some d
          → IsDistance World run sha start candidate d
      graph_distance none g found = absurd cc
      graph_distance (some ds) (nodes, l, g) found =
          (nodes, l, IsShortest-of sha nodes ds candidate d g found)

  with_loaded_lem :
      (candidate : Text) (r : Result (Unit {0})) (h : BoundedGitHistory World)
      → IsHistory h
      → IsHistory (with_loaded World run sha candidate (r, h)).1
        × IsAnswer World run sha start (candidate, (with_loaded World run sha candidate (r, h)).0)
  with_loaded_lem candidate (err e) h v = (v, tt)
  with_loaded_lem candidate (ok loaded) h v =
      let wanted = wants_fetch World run sha candidate h in
      answer_lem candidate (deepen World run sha wanted h) _
        (deepen-IsHistory wanted h (wants_fetch-new candidate h) v) refl

  load_if_new-IsHistory :
      (o : Option (List (Text × ℕ))) (h : BoundedGitHistory World)
      → IsHistory h
      → IsHistory (load_if_new World run sha o h).1
  load_if_new-IsHistory none h v = load-IsHistory h v
  load_if_new-IsHistory (some ds) h v = v

  distance_lem :
      (candidate : Text) (h : BoundedGitHistory World)
      → IsHistory h
      → IsHistory (distance World run sha candidate h).1
        × IsAnswer World run sha start (candidate, (distance World run sha candidate h).0)
  unfolding distance
  distance_lem candidate h v =
      let loaded = load_if_new World run sha h.distances h in
      with_loaded_lem candidate loaded.0 loaded.1 (load_if_new-IsHistory h.distances h v)

  ask_all_lem :
      (candidates : List Text) (h : BoundedGitHistory World)
      → IsHistory h
      → IsHistory (ask_all World run sha candidates h).1
        × All (IsAnswer World run sha start) (ask_all World run sha candidates h).0
  unfolding ask_all
  ask_all_lem [] h v = (v, tt)
  ask_all_lem (candidate ∷ candidates) h v =
      let (later, this) = distance_lem candidate h v in
      let (end, rest) = ask_all_lem candidates (distance World run sha candidate h).1 later in
      (end, (this, rest))

-- Whatever candidates a job asks for, in any order, and whatever git answers: the repository is
-- fetched at most once, and for each distance that is given, git has listed, from the head, a graph of
-- at most 200 commits in which the distance is the length of a shortest way from the head to the
-- candidate, and git has confirmed that the candidate is an ancestor of the head.
pub ask_all_bounded :
    (World : Type 0) (run : World → List Text → Result Text × World) (sha : Text) (w : World)
    (candidates : List Text)
    → (fetches (ask_all World run sha candidates (new_history World w)).1.calls ≤ 1)
      × All (IsAnswer World run sha w) (ask_all World run sha candidates (new_history World w)).0
unfolding world_after
ask_all_bounded World run sha w candidates =
    let ((n, g, e), answers) =
      ask_all_lem World run sha w candidates (new_history World w) (refl, tt, refl) in
    (at_most_one _ _ n, answers)
  where
    at_most_one : (n : ℕ) (b : Bool) → n ≡ flag b → n ≤ 1
    at_most_one n true h = omega (arith, h)
    at_most_one n false h = omega (arith, h)
