-- ===== src/FailedJobSave/Laws.antt =====
-- When the outputs of a build are saved.
use setup_soldr.Base.{◌≡◌}
use setup_soldr.Base.{◌↔◌, ◌⊎◌, Bool, true, false}
use setup_soldr.Base.{List}
use setup_soldr.Base.{nat_eq, list_eq, option_eq, includes}
use setup_soldr.Base.{Result, ok, err}
use setup_soldr.Base.Text.{Text, trim, to_lower}
use setup_soldr.FailedJobSave.{BuildOutputSaveDecision}

-- The words, with space around them and in any case.
pub Says : List Text → Text → Type 0
Says words t = includes words (to_lower (trim t)) ≡ true

-- What the decision says, from whether the input says yes, from whether it says no, and from
-- whether the job did not succeed.
pub record IsDecision (yes_word no_word failed : Bool) (d : Result BuildOutputSaveDecision)
    : Type 0 where
  pub valid_iff :
      ((r : BuildOutputSaveDecision) × (d ≡ ok r)) ↔ ((yes_word ≡ true) ⊎ (no_word ≡ true))
  pub save_iff :
      (r : BuildOutputSaveDecision)
      → d ≡ ok r
      → (r.save ≡ true) ↔ ((failed ≡ false) ⊎ (yes_word ≡ true))

saves : Result BuildOutputSaveDecision → Bool
saves (ok r) = r.save
saves (err e) = false
