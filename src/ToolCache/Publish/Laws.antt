-- ===== src/ToolCache/Publish/Laws.antt =====
-- Publishers that race: the first one wins.
use setup_soldr.Base.{ℕ, zero, suc, ◌+◌, ◌≡◌, refl, ◌∙◌, ap}
use setup_soldr.Base.{true, Option, none, some}
use setup_soldr.Base.{List, [], ◌∷◌, ◌++◌, arith}
use setup_soldr.Base.{nat_eq, list_eq, option_eq}
use setup_soldr.Base.{is_some, All, ok, err}
use setup_soldr.Base.Text.{Text}
use setup_soldr.ToolCache.Publish.{
  published, Phase, renaming, finished, Publisher, leave, check, populate, settle_rename, Move,
  checks, populates, renames, finds_entry, fails, Store, Step, step_of, Run, done, more, start,
}

-- Whether the publisher has answered that it published.
abbrev pub won_phase : Phase → ℕ
won_phase (finished (ok published)) = 1
won_phase _ = 0

abbrev pub winners : List Publisher → ℕ
winners [] = 0
winners (p ∷ ps) = won_phase p.phase + winners ps

abbrev pub occupancy : Option Text → ℕ
occupancy none = 0
occupancy (some entry) = 1

-- A finished publisher has no staging folder, and one about to rename has one.
abbrev pub StagingFits : Phase → Option Text → Type 0
StagingFits (finished r) staging = staging ≡ none
StagingFits renaming staging = is_some staging ≡ true
StagingFits _ staging = staging ≡ none

winners-append : (ps qs : List Publisher) → winners (ps ++ qs) ≡ winners ps + winners qs
winners-append [] qs = omega arith
winners-append (p ∷ ps) qs = omega (arith, winners-append ps qs)

-- A move publishes exactly if it fills the place.
Move-winner :
    (d e : Option Text) (p q : Publisher)
    → Move d p e q
    → won_phase q.phase + occupancy d ≡ won_phase p.phase + occupancy e
unfolding check populate settle_rename leave
Move-winner d e p q (checks none s (ok m)) = refl
Move-winner d e p q (checks none s (err m)) = refl
Move-winner d e p q (checks (some x) s m) = refl
Move-winner d e p q (populates x s (ok c)) = refl
Move-winner d e p q (populates x s (err m)) = refl
Move-winner d e p q (renames c) = refl
Move-winner d e p q (finds_entry c s) = refl
Move-winner d e p q (fails x s m) = refl

Move-staging : (d e : Option Text) (p q : Publisher) → Move d p e q → StagingFits q.phase q.staging
unfolding check populate settle_rename leave
Move-staging d e p q (checks none s (ok m)) = refl
Move-staging d e p q (checks none s (err m)) = refl
Move-staging d e p q (checks (some x) s m) = refl
Move-staging d e p q (populates x s (ok c)) = refl
Move-staging d e p q (populates x s (err m)) = refl
Move-staging d e p q (renames c) = refl
Move-staging d e p q (finds_entry c s) = refl
Move-staging d e p q (fails x s m) = refl

-- An entry that is there stays as it is.
Move-keeps :
    (d e : Option Text) (p q : Publisher) (c : Text) → Move d p e q → d ≡ some c → e ≡ some c
Move-keeps d e p q c (checks x s m) h = h
Move-keeps d e p q c (populates x s r) h = h
Move-keeps d e p q c (renames x) h = absurd cc
Move-keeps d e p q c (finds_entry x s) h = h
Move-keeps d e p q c (fails x s m) h = h

All-replace :
    (P : Publisher → Type 0) (before later : List Publisher) (p q : Publisher)
    → All P (before ++ (p ∷ later))
    → P q
    → All P (before ++ (q ∷ later))
All-replace P [] later p q (h, rest) k = (k, rest)
All-replace P (b ∷ before) later p q (h, rest) k = (h, All-replace P before later p q rest k)

abbrev IsRace : Store → Type 0
IsRace s =
    (winners s.publishers ≡ occupancy s.dest)
    × All (λ p. StagingFits p.phase p.staging) s.publishers

Step-IsRace : (s t : Store) → Step s t → IsRace s → IsRace t
Step-IsRace s t (step_of before later d e p q move) (once, fits) = (
  omega (
    arith,
    winners-append before (p ∷ later),
    winners-append before (q ∷ later),
    Move-winner d e p q move,
    once,
  ),
  All-replace (λ p. StagingFits p.phase p.staging) before later p q fits
      (Move-staging d e p q move),
)

fresh-IsRace : (k : ℕ) → IsRace (start k)
fresh-IsRace zero = (refl, tt)
fresh-IsRace (suc k) = let (once, fits) = fresh-IsRace k in (omega (arith, once), (refl, fits))

Run-IsRace : (n : ℕ) (s t : Store) → Run n s t → IsRace s → IsRace t
Run-IsRace n s t (done u) v = v
Run-IsRace n s t (more m a b c run step) v = Step-IsRace b c step (Run-IsRace m a b run v)

Step-keeps : (s t : Store) (c : Text) → Step s t → s.dest ≡ some c → t.dest ≡ some c
Step-keeps s t c (step_of before later d e p q move) h = Move-keeps d e p q c move h

Run-keeps : (n : ℕ) (s t : Store) (c : Text) → Run n s t → s.dest ≡ some c → t.dest ≡ some c
Run-keeps n s t c (done u) h = h
Run-keeps n s t c (more m x y z run step) h = Step-keeps y z c step (Run-keeps m x y c run h)

-- When publishers of an entry race, in any order of their steps, then from the moment that the entry
-- is there it never changes, exactly one publisher answers that it published, and no publisher that
-- has finished leaves a staging folder.
pub publish_race :
    (k n m : ℕ) (s t : Store) (content : Text)
    → Run n (start k) s
    → s.dest ≡ some content
    → Run m s t
    → (t.dest ≡ some content)
      × ((winners t.publishers ≡ 1) × All (λ p. StagingFits p.phase p.staging) t.publishers)
publish_race k n m s t content first there second =
    let v = Run-IsRace m s t second (Run-IsRace n (start k) s first (fresh-IsRace k)) in
    let kept = Run-keeps m s t content second there in (kept, (v.0 ∙ ap occupancy kept, v.1))
