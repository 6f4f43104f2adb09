-- ===== src/AncestorCache/CleanSave.antt =====
-- The proof of a clean save: hasCleanSaveProof and the `cleanSave` of planAncestorRestore in
-- src/lib/ancestor-cache-github.ts, and the budget of its requests in
-- src/lib/ancestor-cache-telemetry.ts. The answers of the API are parameters, and so are the parse of
-- JSON and of dates and the clock.
pub mod Budget
pub mod Laws
mod Tests
use setup_soldr.Base.{ℕ, ◌+◌, ◌-◌, ◌*◌, ◌/◌}
use setup_soldr.Base.{Bool, true, false, not, ◌&&◌, ◌||◌, Option, none, some}
use setup_soldr.Base.{List, [], ◌∷◌, if◌then◌else◌, ltb, leb, ◌==◌}
use setup_soldr.Base.{nat_eq, list_eq, option_eq}
use setup_soldr.Base.{any, get_or, Result, ok, err, ensure}
use setup_soldr.Base.{◌>>◌}
use setup_soldr.Base.Text.{Text, text, strip_prefix}
use setup_soldr.Base.Json.{Json, prop}
use setup_soldr.Base.Split.{split}
use setup_soldr.AncestorCache.{AncestorKey}
use setup_soldr.AncestorCache.Select.{AncestorCacheEntry}
use setup_soldr.AncestorCache.Trust.{
  TrustedWriter, WriterRunMetadata, trusted_writer_for_run, normalize_workflow_path, is_text,
}

abbrev pub clean_save_marker : Text
clean_save_marker = text "setup-soldr-ancestor-clean-save-v1 "

-- What stands behind the first marker of a line.
unfoldable pub behind_marker : Text → Option Text
unfolding strip_prefix text
behind_marker [] = none
behind_marker (c ∷ s) =
    let later = behind_marker s in
    elim (strip_prefix clean_save_marker (c ∷ s)) [ some rest ↦ some rest | none ↦ later ]

abbrev pub is_num : Option Json → ℕ → Bool
is_num (some (Json.num m)) n = m == n
is_num _ n = false

abbrev pub is_str : Option Json → Text → Bool
is_str (some (Json.str s)) t = s == t
is_str _ t = false

abbrev pub is_true : Option Json → Bool
is_true (some (Json.bool b)) = b
is_true _ = false

unfoldable pub proves : AncestorCacheEntry → AncestorKey → Json → Bool
unfolding prop text
proves entry key proof =
    is_true (prop (some proof) (text "clean"))
    && is_num (prop (some proof) (text "cacheId")) entry.id
    && is_str (prop (some proof) (text "key")) entry.key
    && is_str (prop (some proof) (text "ref")) entry.ref
    && is_str (prop (some proof) (text "sha")) key.sha
    && is_num (prop (some proof) (text "runId")) key.run_id
    && is_num (prop (some proof) (text "attempt")) key.attempt

-- A line without a marker, or whose rest does not parse, is passed over.
abbrev pub proves_parsed : AncestorCacheEntry → AncestorKey → Option Json → Bool
proves_parsed entry key none = false
proves_parsed entry key (some proof) = proves entry key proof

abbrev pub proof_in : (Text → Option Json) → Option Text → Option Json
proof_in parse_json none = none
proof_in parse_json (some rest) = parse_json rest

abbrev pub authorizes : Option TrustedWriter → AncestorKey → ℕ → Bool
authorizes none key job_id = false
authorizes (some w) key job_id =
    w.run_id == key.run_id && w.attempt == key.attempt && w.sha == key.sha && w.job_id == job_id

unfoldable pub has_clean_save_proof :
    (Text → Option Json) → Text → AncestorCacheEntry → AncestorKey → Option TrustedWriter → ℕ → Bool
unfolding proves behind_marker split
has_clean_save_proof parse_json log entry key writer job_id =
    authorizes writer key job_id
    && any (λ line. proves_parsed entry key (proof_in parse_json (behind_marker line)))
        (split 10 log)

unfoldable pub admit_ancestor_request : ℕ → ℕ → Result ℕ
unfolding text
admit_ancestor_request count elapsed_ms =
    ensure (not (ltb 45000 elapsed_ms || leb 24 count))
      (text "ancestor lookup exceeded time/request budget")
    >> ok (count + 1)

-- The answers of the API, where they are read.
pub record RunData : Type 0 where
  pub full_name : Text
  pub head_full_name : Text
  pub path : Text
  pub head_sha : Text
  pub id : ℕ
  pub run_attempt : Option ℕ
  pub status : Option Text
  pub conclusion : Option Text

pub record JobData : Type 0 where
  pub id : ℕ
  pub conclusion : Option Text
  pub started_at : Option Text
  pub completed_at : Option Text

-- `run_of` and `jobs_of` take a run and an attempt; a log that is not a text is none.
pub record Api : Type 0 where
  pub run_of : ℕ → ℕ → Result RunData
  pub jobs_of : ℕ → ℕ → Result (ℕ × List JobData)
  pub log_of : ℕ → Result (Option Text)

unfoldable pub run_metadata : Text → RunData → WriterRunMetadata
unfolding normalize_workflow_path
run_metadata repository run = record {
  repository = run.full_name;
  head_repository = run.head_full_name;
  workflow = normalize_workflow_path run.path repository;
  sha = run.head_sha;
  run_id = run.id;
  attempt = get_or run.run_attempt 0;
  status = run.status;
  conclusion = run.conclusion;
}

-- All three dates are valid, and the entry was created while the job ran.
abbrev pub is_within : Option ℕ → Option ℕ → Option ℕ → Bool
is_within (some created) (some started) (some completed) =
    not (ltb created started || ltb completed created)
is_within _ _ _ = false

-- The number of requests so far goes along with the answer.
abbrev pub Act : Type 0
Act = Result Bool × ℕ

abbrev pub admitted : Result ℕ → ℕ → (ℕ → Act) → Act
admitted (err e) count go = (err e, count)
admitted (ok later) count go = go later

abbrev pub answered {ℓ} : {B : Type ℓ} → Result B → (B → ℕ → Act) → ℕ → Act
answered (err e) go count = (err e, count)
answered (ok answer) go count = go answer count

module _ (parse_json : Text → Option Json) (epoch_ms : Text → Option ℕ) (byte_length : Text → ℕ)
    (elapsed_ms : ℕ → ℕ) (api : Api) (repository : Text) (writers : List TrustedWriter)
    (entry : AncestorCacheEntry) (key : AncestorKey) where
  -- `requestBudget()`, a request, and what follows.
  abbrev pub request {ℓ} : {B : Type ℓ} → Result B → (B → ℕ → Act) → ℕ → Act
  request answer go count =
      admitted (admit_ancestor_request count (elapsed_ms count)) count
        (λ later. answered answer go later)

  abbrev pub read_log : TrustedWriter → JobData → (ℕ → Act) → Option Text → ℕ → Act
  read_log w job others none count = (err (text "donor log unavailable or oversized"), count)
  read_log w job others (some log) count =
      if ltb (32 * 1024 * 1024) (byte_length log)
      then (err (text "donor log unavailable or oversized"), count)
      else if has_clean_save_proof parse_json log entry key (some w) job.id
      then (ok true, count)
      else others count

  abbrev pub is_candidate : JobData → Bool
  is_candidate job =
      is_text job.conclusion (text "success")
      && is_within (epoch_ms entry.created_at) (epoch_ms (get_or job.started_at []))
          (epoch_ms (get_or job.completed_at []))

  abbrev pub consider_if : Bool → TrustedWriter → JobData → (ℕ → Act) → ℕ → Act
  consider_if false w job others count = others count
  consider_if true w job others count = request (api.log_of job.id) (read_log w job others) count

  abbrev pub consider : Option TrustedWriter → JobData → (ℕ → Act) → ℕ → Act
  consider none job others count = others count
  consider (some w) job others count = consider_if (is_candidate job) w job others count

  unfoldable pub check_jobs : WriterRunMetadata → List JobData → ℕ → Act
  unfolding trusted_writer_for_run has_clean_save_proof admit_ancestor_request text
  check_jobs m [] count = (ok false, count)
  check_jobs m (job ∷ jobs) count =
      consider (trusted_writer_for_run writers m (some job.id)) job (check_jobs m jobs) count

  abbrev pub scan_jobs : WriterRunMetadata → ℕ × List JobData → ℕ → Act
  scan_jobs m (total, jobs) count =
      if ltb 100 total
      then (err (text "donor job scan exceeds bound"), count)
      else check_jobs m jobs count

  abbrev pub is_eligible : Option TrustedWriter → Bool
  is_eligible none = false
  is_eligible (some w) = w.sha == key.sha && w.repository == repository

  abbrev pub ask_jobs : Bool → WriterRunMetadata → ℕ → Act
  ask_jobs false m count = (ok false, count)
  ask_jobs true m count = request (api.jobs_of key.run_id key.attempt) (scan_jobs m) count

  abbrev pub judge_run : RunData → ℕ → Act
  judge_run run count =
      let m = run_metadata repository run in
      ask_jobs (is_eligible (trusted_writer_for_run writers m none)) m count

  unfoldable pub clean_save : ℕ → Act
  unfolding check_jobs trusted_writer_for_run run_metadata admit_ancestor_request text
  clean_save count = request (api.run_of key.run_id key.attempt) judge_run count
