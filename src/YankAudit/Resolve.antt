-- ===== src/YankAudit/Resolve.antt =====
-- src/lib/yank-audit.ts: the join of an audit in the background, and the check in its place. What is read
-- from the file of the result is a parameter, one reading for each poll before the deadline.
use setup_soldr.Base.{ℕ, ◌≡◌, refl, sym, ◌∙◌, ap}
use setup_soldr.Base.{◌≢◌, ◌⊎◌, inl, inr, Bool, true, false, ◌&&◌, Option, none, some}
use setup_soldr.Base.{List, [], ◌∷◌, ◌++◌, if◌then◌else◌, ltb}
use setup_soldr.Base.{nat_eq, list_eq, option_eq}
use setup_soldr.Base.{get_or}
use setup_soldr.Base.Text.{Text, text}
use setup_soldr.YankAudit.{YankedDependency, YankAuditStatus, YankAuditResult}

-- A reading: none if the file cannot be read, is no JSON or has another status.
abbrev pub Reading : Type 0
Reading = Option YankAuditResult

abbrev pub empty_result : Text → Bool → YankAuditResult
empty_result message joined = record {
  status = YankAuditStatus.not_checked;
  dependency_count = 0;
  checked_count = 0;
  yanked = [];
  errors = message ∷ [];
  join_timed_out = joined;
  audit_timed_out = false;
}

abbrev pub is_pending : YankAuditStatus → Bool
is_pending YankAuditStatus.pending = true
is_pending _ = false

abbrev pub settled_reading : Reading → Option YankAuditResult
settled_reading none = none
settled_reading (some result) = if is_pending result.status then none else some result

-- The readings before the deadline, in order.
unfoldable pub wait_for_yank_audit_result : Text → List Reading → YankAuditResult
unfolding text
wait_for_yank_audit_result timeout_ms [] =
    empty_result (text "audit did not finish within " ++ (timeout_ms ++ text "ms")) true
wait_for_yank_audit_result timeout_ms (reading ∷ readings) =
    let later = wait_for_yank_audit_result timeout_ms readings in
    get_or (settled_reading reading) later

-- The recheck answers, throws, or is not done before its deadline.
pub data Recheck : Type 0 where
  answered : YankAuditResult → Recheck
  threw : Text → Recheck
  late : Recheck

unfoldable pub recheck_result : Recheck → YankAuditResult
unfolding text
recheck_result (Recheck.answered result) = result
recheck_result (Recheck.threw message) = empty_result message false
recheck_result Recheck.late = empty_result (text "foreground recheck deadline exceeded") false

abbrev pub as_yanked : YankAuditResult → YankAuditResult
as_yanked result = record {
  status = YankAuditStatus.yanked;
  dependency_count = result.dependency_count;
  checked_count = result.checked_count;
  yanked = result.yanked;
  errors = result.errors;
  join_timed_out = result.join_timed_out;
  audit_timed_out = result.audit_timed_out;
}

-- A report that settles the matter: one that names a yanked version, or is clean or yanked.
abbrev pub by_status : YankAuditStatus → YankAuditResult → Option YankAuditResult
by_status YankAuditStatus.clean result = some result
by_status YankAuditStatus.yanked result = some result
by_status _ result = none

abbrev pub by_yanked : List YankedDependency → YankAuditResult → Option YankAuditResult
by_yanked [] result = by_status result.status result
by_yanked (y ∷ ys) result = some (as_yanked result)

abbrev pub final : YankAuditResult → Option YankAuditResult
final result = by_yanked result.yanked result

abbrev pub final_reading : Reading → Option YankAuditResult
final_reading none = none
final_reading (some result) = final result

abbrev pub may_join : Reading → ℕ → Bool
may_join none remaining = ltb 0 remaining
may_join (some result) remaining = is_pending result.status && ltb 0 remaining

-- The first report, the milliseconds that the background has left, the readings in that time, and
-- the recheck.
unfoldable pub resolve_yank_audit_result :
    Reading → ℕ → Text → List Reading → Recheck → YankAuditResult
unfolding wait_for_yank_audit_result recheck_result
resolve_yank_audit_result existing remaining timeout_ms readings recheck =
    let joined =
      if may_join existing remaining
      then final (wait_for_yank_audit_result timeout_ms readings)
      else none in
    get_or (final_reading existing) (get_or joined (recheck_result recheck))

-- A report that names a yanked version is not called clean.
abbrev pub Consistent : YankAuditResult → Type 0
Consistent result = (result.status ≢ YankAuditStatus.clean) ⊎ (result.yanked ≡ [])

final-Consistent :
    (result : YankAuditResult) (r : YankAuditResult) → final result ≡ some r → Consistent r
final-Consistent result r h = go result.yanked refl h
  where
    same : (a : YankAuditResult) → some a ≡ some r → a ≡ r
    same a e = cc

    by : (s : YankAuditStatus) → by_status s result ≡ some r → result ≡ r
    by YankAuditStatus.clean e = same result e
    by YankAuditStatus.yanked e = same result e
    by YankAuditStatus.pending e = absurd (cc)
    by YankAuditStatus.not_checked e = absurd (cc)

    go :
        (l : List YankedDependency) → result.yanked ≡ l → by_yanked l result ≡ some r → Consistent r
    go [] e k = inr (sym (ap (λ x. x.yanked) (by result.status k)) ∙ e)
    go (y ∷ ys) e k = inl (λ c. differ (ap (λ x. x.status) (same (as_yanked result) k) ∙ c))
      where
        differ : YankAuditStatus.yanked ≡ YankAuditStatus.clean → ⊥
        differ d = cc

final_reading-Consistent :
    (reading : Reading) (r : YankAuditResult) → final_reading reading ≡ some r → Consistent r
final_reading-Consistent none r h = absurd (cc)
final_reading-Consistent (some result) r h = final-Consistent result r h

joined-Consistent :
    (b : Bool) (result r : YankAuditResult)
    → (if b then final result else none) ≡ some r
    → Consistent r
joined-Consistent true result r h = final-Consistent result r h
joined-Consistent false result r h = absurd (cc)

get_or-Consistent :
    (o : Option YankAuditResult) (d : YankAuditResult)
    → ((r : YankAuditResult) → o ≡ some r → Consistent r)
    → Consistent d
    → Consistent (get_or o d)
get_or-Consistent none d h k = k
get_or-Consistent (some r) d h k = h r refl

-- Whatever the background has written, and whenever: if the recheck does not call a report clean that names a
-- yanked version, neither does the resolved report.
pub resolve_yank_audit_result-Consistent :
    (existing : Reading) (remaining : ℕ) (timeout_ms : Text) (readings : List Reading)
    (recheck : Recheck)
    → Consistent (recheck_result recheck)
    → Consistent (resolve_yank_audit_result existing remaining timeout_ms readings recheck)
unfolding resolve_yank_audit_result
resolve_yank_audit_result-Consistent existing remaining timeout_ms readings recheck h =
    get_or-Consistent (final_reading existing) _ (final_reading-Consistent existing) (
      get_or-Consistent _ (recheck_result recheck)
        (joined-Consistent (may_join existing remaining)
          (wait_for_yank_audit_result timeout_ms readings))
        h)
