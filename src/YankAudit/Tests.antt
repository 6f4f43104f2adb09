-- ===== src/YankAudit/Tests.antt =====
-- A lockfile with one dependency, an index that has it, and a report in the background.
use setup_soldr.Base.{◌≡◌, refl}
use setup_soldr.Base.{inr, false, none, some}
use setup_soldr.Base.{[], ◌∷◌, if◌then◌else◌, ◌==◌}
use setup_soldr.Base.{nat_eq, list_eq, option_eq}
use setup_soldr.Base.{All, Result, ok, err}
use setup_soldr.Base.Text.{Text, text, trim}
use setup_soldr.Base.Json.{Json, Fields, prop}
use setup_soldr.Base.Split.{split}
use setup_soldr.YankAudit.{
  YankAuditDependency, YankAuditStatus, YankAuditResult, is_crates_io_source,
}
use setup_soldr.YankAudit.Audit.{Work, audit_dependency_yanks, by_crate}
use setup_soldr.YankAudit.Index.{
  fetch_crate_yanks, crates_io_sparse_path, read_lines, check_versions,
}
use setup_soldr.YankAudit.Laws.{NotYanked, audit_dependency_yanks-clean}
use setup_soldr.YankAudit.Resolve.{
  Recheck, Consistent, resolve_yank_audit_result, recheck_result, empty_result, as_yanked,
  resolve_yank_audit_result-Consistent,
}

abbrev serde : YankAuditDependency
serde = record {
  name = text "serde";
  version = text "1.0.1";
  source = text "sparse+https://index.crates.io/";
}

abbrev index : Text → Result Text
index url =
    if url == text "https://index.crates.io/se/rd/serde"
    then ok (text "{}")
    else err (text "HTTP 404")

abbrev parse : Text → Result Json
parse line = ok (
    Json.obj (
      Fields.field (text "vers") (Json.str (text "1.0.1"))
        (Fields.field (text "yanked") (Json.bool false) Fields.end)))

abbrev in_order : Work → Work
in_order work = work

audited :
    (audit_dependency_yanks (fetch_crate_yanks index parse) in_order (serde ∷ [])).status
    ≡ YankAuditStatus.clean
unfolding audit_dependency_yanks fetch_crate_yanks crates_io_sparse_path read_lines check_versions
    by_crate is_crates_io_source split prop trim text nat_eq list_eq
audited = refl

audit_dependency_yanks-clean_example : All (NotYanked index parse) (serde ∷ [])
audit_dependency_yanks-clean_example =
    audit_dependency_yanks-clean index parse in_order (serde ∷ []) (λ work item i. i) audited

abbrev late_report : YankAuditResult
late_report = empty_result (text "offline") false

resolve_yank_audit_result-Consistent_example :
    Consistent (
      resolve_yank_audit_result
        (some (as_yanked late_report))
        5
        (text "5")
        (none ∷ [])
        Recheck.late)
unfolding recheck_result
resolve_yank_audit_result-Consistent_example =
    resolve_yank_audit_result-Consistent (some (as_yanked late_report)) 5 (text "5") (none ∷ [])
      Recheck.late (inr refl)
