-- ===== src/FailedJobSave.antt =====
-- src/lib/failed-job-save.ts: a job that failed or was cancelled does not save its build outputs.
pub mod Laws
mod Tests
use setup_soldr.Base.{Bool, true, false}
use setup_soldr.Base.{List, [], ◌∷◌, ◌++◌}
use setup_soldr.Base.{nat_eq, list_eq, option_eq, includes}
use setup_soldr.Base.{Result, ok, err}
use setup_soldr.Base.Env.{Env}
use setup_soldr.RawInputs.{read_raw_inputs}
use setup_soldr.Base.Text.{Text, text, trim, to_lower, or_text}

pub record BuildOutputSaveDecision : Type 0 where
  pub save : Bool
  pub reason : Text

abbrev pub truthy : List Text
truthy = text "1" ∷ text "true" ∷ text "yes" ∷ text "on" ∷ []

abbrev pub falsy : List Text
falsy = text "" ∷ text "0" ∷ text "false" ∷ text "no" ∷ text "off" ∷ []

abbrev pub not_succeeded : List Text
not_succeeded = text "failure" ∷ text "cancelled" ∷ []

-- The branches, on whether the input says yes, on whether it says no, and on whether the job did
-- not succeed.
decide_words : Bool → Bool → Bool → Text → Text → Result BuildOutputSaveDecision
unfolding text
decide_words false false failed status save_on_failure =
    err (text "save-on-failure must be true or false (got '" ++ (save_on_failure ++ text "')"))
decide_words yes_word no_word false status save_on_failure =
    ok (record { save = true; reason = text "job status " ++ or_text status (text "unknown") })
decide_words true no_word true status save_on_failure = ok (record {
  save = true;
  reason = text "job status " ++ (status ++ text ", save-on-failure=true");
})
decide_words false true true status save_on_failure = ok (record {
  save = false;
  reason = text "job status " ++ (status ++ text " (set save-on-failure: true to save anyway)");
})

unfoldable pub decide_build_output_save : Text → Text → Result BuildOutputSaveDecision
unfolding decide_words
decide_build_output_save job_status save_on_failure =
    let status = to_lower (trim job_status) in
    let raw = to_lower (trim save_on_failure) in
    decide_words (includes truthy raw) (includes falsy raw) (includes not_succeeded status) status
      save_on_failure

unfoldable pub read_build_output_save_gate : Env → Result BuildOutputSaveDecision
unfolding read_raw_inputs decide_build_output_save
read_build_output_save_gate env =
    decide_build_output_save (read_raw_inputs env).job_status (read_raw_inputs env).save_on_failure
