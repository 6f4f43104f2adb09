-- ===== src/AncestorCache/History.antt =====
-- src/lib/ancestor-cache-git.ts: distances from the local history of a repository, which is fetched at
-- most once if it is shallow. The runs of git act on a world, which is a parameter with their answers.
pub mod Answers
pub mod Laws
mod Tests
use setup_soldr.Base.{ℕ, ◌-◌}
use setup_soldr.Base.{Bool, true, false, not, ◌&&◌, Option, none, some}
use setup_soldr.Base.{List, [], ◌∷◌, if◌then◌else◌, ◌==◌}
use setup_soldr.Base.{nat_eq, list_eq, option_eq}
use setup_soldr.Base.{all, is_some, Result, ok, err, ensure}
use setup_soldr.Base.{◌>>=◌, ◌>>◌}
use setup_soldr.Base.Text.{Text, text}
use setup_soldr.Base.Text.{is_empty}
use setup_soldr.Base.Split.{split}
use setup_soldr.AncestorCache.{is_sha}
use setup_soldr.AncestorCache.Distances.{GitParentNode, distance_of, dag_distances}

-- `const [sha, ...parents] = line.split(" ")`, with all of them full SHAs.
unfoldable pub parse_parts : List Text → Result GitParentNode
unfolding is_sha text
parse_parts [] = err (text "invalid Git DAG output")
parse_parts (sha ∷ parents) =
    ensure (all is_sha (sha ∷ parents)) (text "invalid Git DAG output")
    >> ok (record { sha = sha; parents = parents })

unfoldable pub parse_lines : List Text → Result (List GitParentNode)
unfolding parse_parts split
parse_lines [] = ok []
parse_lines (line ∷ lines) =
    let rest = parse_lines lines in
    if is_empty line
    then rest
    else (parse_parts (split b' ' line) >>= λ node. rest >>= λ nodes. ok (node ∷ nodes))

unfoldable pub parse_parents : Text → Result (List GitParentNode)
unfolding parse_lines split
parse_parents output = parse_lines (split 10 output)

module _ (World : Type 0) where
  -- The object's fields, the world that git acts on, and the runs of git so far, the last one first.
  pub record BoundedGitHistory : Type 0 where
    pub distances : Option (List (Text × ℕ))
    pub shallow : Bool
    pub fetched : Bool
    pub world : World
    pub calls : List (List Text)

  abbrev pub new_history : World → BoundedGitHistory
  new_history w = record {
    distances = none;
    shallow = false;
    fetched = false;
    world = w;
    calls = [];
  }

  module _ (run : World → List Text → Result Text × World) (sha : Text) where
    abbrev pub Act : Type 0 → Type 0
    Act A = Result A × BoundedGitHistory

    unfoldable pub run_git : List Text → BoundedGitHistory → Act Text
    run_git args h =
        let (answer, w) = run h.world args in
        (answer, record h { world = w; calls = args ∷ h.calls })

    -- `this.distances = dagDistances(...); this.shallow = shallow`
    unfoldable pub keep_distances :
        Bool → Result (List (Text × ℕ)) → BoundedGitHistory → Act (Unit {0})
    keep_distances shallow (err e) h = (err e, h)
    keep_distances shallow (ok ds) h = (ok tt, record h { distances = some ds; shallow = shallow })

    abbrev pub read_list : Bool → Act Text → Act (Unit {0})
    read_list shallow (err e, h) = (err e, h)
    read_list shallow (ok output, h) =
        keep_distances shallow (parse_parents output >>= λ nodes. dag_distances sha nodes) h

    abbrev pub list_args : List Text
    list_args = text "rev-list" ∷ text "--max-count=200" ∷ text "--parents" ∷ sha ∷ []

    abbrev pub read_shallow : Act Text → Act (Unit {0})
    read_shallow (err e, h) = (err e, h)
    read_shallow (ok output, h) = read_list (output == text "true") (run_git list_args h)

    unfoldable pub load : BoundedGitHistory → Act (Unit {0})
    unfolding run_git keep_distances parse_parents dag_distances text
    load h = read_shallow (run_git (text "rev-parse" ∷ text "--is-shallow-repository" ∷ []) h)

    abbrev pub load_if_new : Option (List (Text × ℕ)) → BoundedGitHistory → Act (Unit {0})
    load_if_new none h = load h
    load_if_new (some ds) h = (ok tt, h)

    abbrev pub known : Option (List (Text × ℕ)) → Text → Option ℕ
    known none candidate = none
    known (some ds) candidate = distance_of ds candidate

    abbrev pub fetch_args : List Text
    fetch_args = text "fetch" ∷ text "--no-tags" ∷ text "--depth=200" ∷ text "origin" ∷ sha ∷ []

    -- What fails within the `try` is forgotten, with its effects kept.
    abbrev pub load_fetched : Act Text → BoundedGitHistory
    load_fetched (err e, h) = h
    load_fetched (ok output, h) = (load h).1

    abbrev pub deepen : Bool → BoundedGitHistory → BoundedGitHistory
    deepen false h = h
    deepen true h = load_fetched (run_git fetch_args (record h { fetched = true }))

    abbrev pub confirmed : ℕ → Act Text → Act (Option ℕ)
    confirmed d (err e, h) = (err e, h)
    confirmed d (ok output, h) = (ok (some d), h)

    abbrev pub answer : Text → Option ℕ → BoundedGitHistory → Act (Option ℕ)
    answer candidate none h = (ok none, h)
    answer candidate (some d) h =
        confirmed d (run_git (text "merge-base" ∷ text "--is-ancestor" ∷ candidate ∷ sha ∷ []) h)

    abbrev pub wants_fetch : Text → BoundedGitHistory → Bool
    wants_fetch candidate h =
        not (is_some (known h.distances candidate)) && h.shallow && not h.fetched

    abbrev pub look_up : Text → BoundedGitHistory → Act (Option ℕ)
    look_up candidate h = answer candidate (known h.distances candidate) h

    abbrev pub with_loaded : Text → Act (Unit {0}) → Act (Option ℕ)
    with_loaded candidate (err e, h) = (err e, h)
    with_loaded candidate (ok loaded, h) = look_up candidate (deepen (wants_fetch candidate h) h)

    unfoldable pub distance : Text → BoundedGitHistory → Act (Option ℕ)
    unfolding load distance_of
    distance candidate h = with_loaded candidate (load_if_new h.distances h)

    -- A job asks for one candidate after another.
    unfoldable pub ask_all :
        List Text → BoundedGitHistory → List (Text × Result (Option ℕ)) × BoundedGitHistory
    unfolding distance
    ask_all [] h = ([], h)
    ask_all (candidate ∷ candidates) h =
        let (r, later) = distance candidate h in
        let (rs, end) = ask_all candidates later in ((candidate, r) ∷ rs, end)
