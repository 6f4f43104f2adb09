-- ===== src/ToolCache/Tests.antt =====
-- A decision, a link and a race of two publishers.
use setup_soldr.Base.{◌≡◌, refl}
use setup_soldr.Base.{true, none, some}
use setup_soldr.Base.{[], ◌∷◌}
use setup_soldr.Base.{nat_eq, list_eq, option_eq}
use setup_soldr.Base.{All, ok}
use setup_soldr.Base.Text.{text}
use setup_soldr.Base.Env.{Env}
use setup_soldr.ToolCache.Publish.{
  leave, check, populate, settle_rename, renamed, waiting, checking, populating, renaming, checks,
  populates, renames, Store, Step, step_of, Run, done, more, fresh, start,
}
use setup_soldr.ToolCache.Publish.Laws.{winners, StagingFits, publish_race}

abbrev env : Env
env = (text "RUNNER_TOOL_CACHE", text "/opt/tools") ∷ (text "ACT", text "true") ∷ []

-- The first of two publishers runs to its end.
abbrev after_check : Store
after_check = record {
  dest = none;
  publishers = waiting populating none ∷ waiting checking none ∷ [];
}

abbrev after_populate : Store
after_populate = record {
  dest = none;
  publishers = waiting renaming (some (text "x")) ∷ waiting checking none ∷ [];
}

abbrev after_rename : Store
after_rename = record {
  dest = some (text "x");
  publishers = leave (settle_rename renamed true) ∷ waiting checking none ∷ [];
}

first_check : Step (start 2) after_check
unfolding check
first_check =
    step_of [] (fresh 1) none none (waiting checking none) (waiting populating none)
      (checks none none (ok tt))

first_populate : Step after_check after_populate
unfolding populate
first_populate =
    step_of [] (fresh 1) none none (waiting populating none) (waiting renaming (some (text "x")))
      (populates none none (ok (text "x")))

first_rename : Step after_populate after_rename
first_rename =
    step_of [] (fresh 1) none (some (text "x")) (waiting renaming (some (text "x")))
      (leave (settle_rename renamed true)) (renames (text "x"))

race : Run 3 (start 2) after_rename
race =
    more 2 (start 2) after_populate after_rename
      (more 1 (start 2) after_check after_populate
        (more 0 (start 2) (start 2) after_check (done (start 2)) first_check) first_populate)
      first_rename

publish_race_example :
    (after_rename.dest ≡ some (text "x"))
    × ((winners after_rename.publishers ≡ 1)
        × All (λ p. StagingFits p.phase p.staging) after_rename.publishers)
publish_race_example =
    publish_race 2 3 0 after_rename after_rename (text "x") race refl (done after_rename)
