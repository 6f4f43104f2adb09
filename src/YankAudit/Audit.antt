-- ===== src/YankAudit/Audit.antt =====
-- src/lib/yank-audit.ts: the audit, with the check of a crate as a parameter.
use setup_soldr.Base.{ℕ, zero, suc, ◌+◌}
use setup_soldr.Base.{true, false}
use setup_soldr.Base.{List, [], ◌∷◌, ◌++◌, if◌then◌else◌, ltb, ◌==◌}
use setup_soldr.Base.{nat_eq, list_eq, option_eq, includes, length}
use setup_soldr.Base.{Result, ok, err}
use setup_soldr.Base.Text.{Text, text}
use setup_soldr.Base.Decimal.{decimal}
use setup_soldr.YankAudit.{
  YankAuditDependency, YankedDependency, YankAuditStatus, YankAuditResult, is_crates_io_source,
}
use setup_soldr.YankAudit.Index.{Checked}

-- The crates in the order of their first dependency, each with its distinct versions.
abbrev pub Work : Type 0
Work = List (Text × List Text)

unfoldable pub add_version : Text → Text → Work → Work
add_version name version [] = (name, version ∷ []) ∷ []
add_version name version ((n, versions) ∷ work) =
    let rest = add_version name version work in
    if n == name
    then (n, if includes versions version then versions else versions ++ version ∷ []) ∷ work
    else (n, versions) ∷ rest

unfoldable pub by_crate : Work → List YankAuditDependency → Work
unfolding add_version is_crates_io_source
by_crate work [] = work
by_crate work (d ∷ ds) =
    let skipped = by_crate work ds in
    let taken = by_crate (add_version d.name d.version work) ds in
    if is_crates_io_source d.source then taken else skipped

-- The errors for registries that the audit does not know.
unfoldable pub unsupported : List YankAuditDependency → List Text
unfolding is_crates_io_source text
unsupported [] = []
unsupported (d ∷ ds) =
    let rest = unsupported ds in
    if is_crates_io_source d.source
    then rest
    else (d.name
        ++ (text " "
            ++ (d.version ++ (text ": registry " ++ (d.source ++ text " is not supported")))))
      ∷ rest

-- What the workers share: the errors, how many were left out, the yanked and the number of checks.
pub record Progress : Type 0 where
  pub errors : List Text
  pub omitted : ℕ
  pub yanked : List YankedDependency
  pub checked_count : ℕ

abbrev pub record_error : Progress → Text → Progress
record_error p message =
    if ltb (length p.errors) 20
    then record {
      errors = p.errors ++ message ∷ [];
      omitted = p.omitted;
      yanked = p.yanked;
      checked_count = p.checked_count;
    }
    else record {
      errors = p.errors;
      omitted = suc p.omitted;
      yanked = p.yanked;
      checked_count = p.checked_count;
    }

-- A worker has done with a crate.
abbrev pub settle : Progress → Text → Result Checked → Progress
settle p name (err message) = record_error p (name ++ (text ": " ++ message))
settle p name (ok (checked, found)) = record {
  errors = p.errors;
  omitted = p.omitted;
  yanked = p.yanked ++ found;
  checked_count = p.checked_count + length checked;
}

unfoldable pub run_workers : (Text → List Text → Result Checked) → Progress → Work → Progress
unfolding text
run_workers check p [] = p
run_workers check p ((name, versions) ∷ work) =
    run_workers check (settle p name (check name versions)) work

abbrev pub omitted_error : ℕ → List Text
omitted_error zero = []
omitted_error (suc n) = (decimal (suc n) ++ text " additional registry errors omitted") ∷ []

abbrev pub result_with :
    YankAuditStatus → ℕ → ℕ → List YankedDependency → List Text → YankAuditResult
result_with status dependencies checked bad errors = record {
  status = status;
  dependency_count = dependencies;
  checked_count = checked;
  yanked = bad;
  errors = errors;
  join_timed_out = false;
  audit_timed_out = false;
}

abbrev pub verdict : ℕ → ℕ → List YankedDependency → List Text → YankAuditResult
verdict dependencies checked (y ∷ ys) errors =
    result_with YankAuditStatus.yanked dependencies checked (y ∷ ys) errors
verdict dependencies checked [] (e ∷ es) =
    result_with YankAuditStatus.not_checked dependencies checked [] (e ∷ es)
verdict dependencies checked [] [] = result_with YankAuditStatus.clean dependencies checked [] []

abbrev pub start : List YankAuditDependency → Progress
start dependencies = record {
  errors = unsupported dependencies;
  omitted = 0;
  yanked = [];
  checked_count = 0;
}

abbrev pub finish : ℕ → Progress → YankAuditResult
finish dependencies p =
    verdict dependencies p.checked_count p.yanked (p.errors ++ omitted_error p.omitted)

-- An audit whose workers were done before the deadline. `order` is the crates in the order in which the
-- workers were done with them.
unfoldable pub audit_dependency_yanks :
    (Text → List Text → Result Checked) → (Work → Work) → List YankAuditDependency → YankAuditResult
unfolding run_workers by_crate unsupported decimal text
audit_dependency_yanks check order dependencies =
    finish (length dependencies)
      (run_workers check (start dependencies) (order (by_crate [] dependencies)))

-- An audit that the deadline ended, with what the workers had found.
unfoldable pub audit_deadline : List YankAuditDependency → Progress → Text → YankAuditResult
unfolding text
audit_deadline dependencies p overall_timeout_ms = record {
  status = YankAuditStatus.not_checked;
  dependency_count = length dependencies;
  checked_count = p.checked_count;
  yanked = p.yanked;
  errors = (text "audit deadline exceeded after " ++ (overall_timeout_ms ++ text "ms")) ∷ [];
  join_timed_out = false;
  audit_timed_out = true;
}
