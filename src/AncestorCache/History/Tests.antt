-- ===== src/AncestorCache/History/Tests.antt =====
-- A shallow repository of two commits, which is asked for one of them and for a commit it lacks.
use setup_soldr.Base.{ℕ, suc, ◌≤◌, ◌≡◌, refl}
use setup_soldr.Base.{none, some}
use setup_soldr.Base.{List, [], ◌∷◌, ◌++◌, if◌then◌else◌, ◌==◌}
use setup_soldr.Base.{nat_eq, list_eq, option_eq}
use setup_soldr.Base.{All, Result, ok, err}
use setup_soldr.Base.Text.{Text, text}
use setup_soldr.AncestorCache.History.{new_history, ask_all}
use setup_soldr.AncestorCache.History.Answers.{fetches, IsAnswer}
use setup_soldr.AncestorCache.History.Laws.{ask_all_bounded}

abbrev head : Text
head = text "0123456789abcdef0123456789abcdef01234567"

abbrev parent : Text
parent = text "89abcdef0123456789abcdef0123456789abcdef"

abbrev command_answer : List Text → Result Text
command_answer [] = err []
command_answer (command ∷ args) =
    if command == text "rev-parse"
    then ok (text "true")
    else if command == text "rev-list"
    then ok (head ++ (text " " ++ (parent ++ (text "\n" ++ parent))))
    else ok []

-- The world counts the runs.
abbrev git : ℕ → List Text → Result Text × ℕ
git runs args = (command_answer args, suc runs)

answers :
    (ask_all ℕ git head (parent ∷ text "lacking" ∷ []) (new_history ℕ 0)).0
    ≡ (parent, ok (some 1)) ∷ (text "lacking", ok none) ∷ []
unfolding ask_all text nat_eq list_eq setup_soldr.AncestorCache.Distances.parents_of
answers = refl

ask_all_bounded_example :
    (fetches (ask_all ℕ git head (parent ∷ text "lacking" ∷ []) (new_history ℕ 0)).1.calls ≤ 1)
    × All
        (IsAnswer ℕ git head 0)
        (ask_all ℕ git head (parent ∷ text "lacking" ∷ []) (new_history ℕ 0)).0
ask_all_bounded_example = ask_all_bounded ℕ git head 0 (parent ∷ text "lacking" ∷ [])
