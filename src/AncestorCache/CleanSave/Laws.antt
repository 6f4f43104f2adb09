-- ===== src/AncestorCache/CleanSave/Laws.antt =====
-- What a clean save is proved by, and how many requests it takes.
use setup_soldr.Base.{ℕ, ◌*◌, ◌≡◌, refl, ◌∙◌, ap}
use setup_soldr.Base.{◌⊎◌, inl, inr, Bool, true, false, Option, none, some}
use setup_soldr.Base.{List, [], ◌∷◌, if◌then◌else◌, ltb}
use setup_soldr.Base.{nat_eq, list_eq, option_eq}
use setup_soldr.Base.{any, get_or, ok}
use setup_soldr.Base.Text.{Text, text}
use setup_soldr.Base.Json.{Json}
use setup_soldr.Base.{In}
use setup_soldr.Base.Split.{split}
use setup_soldr.AncestorCache.{AncestorKey}
use setup_soldr.AncestorCache.Select.{AncestorCacheEntry}
use setup_soldr.AncestorCache.Trust.{
  TrustedWriter, WriterRunMetadata, trusted_writer_for_run, is_text, IsWriterOf,
  trusted_writer_for_run_sound, is_text_iff,
}
use setup_soldr.AncestorCache.CleanSave.{
  behind_marker, proves_parsed, proof_in, authorizes, has_clean_save_proof, admit_ancestor_request,
  RunData, JobData, Api, run_metadata, is_within, Act, read_log, is_candidate, consider_if,
  consider, check_jobs, scan_jobs, ask_jobs, judge_run, clean_save,
}
use setup_soldr.AncestorCache.CleanSave.Budget.{admitted-true, if_true, and_parts, authorized}

module _ (parse_json : Text → Option Json) (epoch_ms : Text → Option ℕ) (byte_length : Text → ℕ)
    (elapsed_ms : ℕ → ℕ) (api : Api) (repository : Text) (writers : List TrustedWriter)
    (entry : AncestorCacheEntry) (key : AncestorKey) where
  abbrev jobs_from : WriterRunMetadata → List JobData → ℕ → Act
  jobs_from m jobs =
      check_jobs parse_json epoch_ms byte_length elapsed_ms api repository writers entry key m jobs

  -- A job of a reviewed writer that ended well while the entry was made, and whose log has the proof.
  abbrev pub IsProof : WriterRunMetadata → JobData → Type 0
  IsProof m job =
      (w : TrustedWriter) × (In w writers
        × (IsWriterOf m w
            × ((w.job_id ≡ job.id)
                × ((w.sha ≡ key.sha)
                    × ((job.conclusion ≡ some (text "success"))
                        × ((is_within (epoch_ms entry.created_at)
                                (epoch_ms (get_or job.started_at []))
                                (epoch_ms (get_or job.completed_at []))
                              ≡ true)
                            × ((log : Text) × ((api.log_of job.id ≡ ok (some log))
                                  × (any
                                        (λ line.
                                          proves_parsed entry key
                                            (proof_in parse_json (behind_marker line)))
                                        (split 10 log)
                                      ≡ true)))))))))

  abbrev SomeProof : WriterRunMetadata → List JobData → Type 0
  SomeProof m jobs = (job : JobData) × (In job jobs × IsProof m job)

  has_proof :
      (log : Text) (w : TrustedWriter) (id : ℕ)
      → has_clean_save_proof parse_json log entry key (some w) id ≡ true
      → ((w.sha ≡ key.sha) × (w.job_id ≡ id))
        × (any
              (λ line. proves_parsed entry key (proof_in parse_json (behind_marker line)))
              (split 10 log)
            ≡ true)
  unfolding has_clean_save_proof
  has_proof log w id h =
      let (a, p) = and_parts (authorizes (some w) key id) _ h in (authorized w key id a, p)

  -- The log is read: either it proves the save, or another job does.
  log_true :
      (w : TrustedWriter) (job : JobData) (others : ℕ → Act) (answer : Option Text) (count : ℕ)
      → (read_log parse_json epoch_ms byte_length elapsed_ms api repository writers entry key w job
          others answer count).0
        ≡ ok true
      → ((log : Text) × ((answer ≡ some log)
            × (has_clean_save_proof parse_json log entry key (some w) job.id ≡ true)))
        ⊎ ((later : ℕ) × ((others later).0 ≡ ok true))
  log_true w job others none count h = absurd cc
  log_true w job others (some log) count h =
      proved _ refl (if_true (ltb (32 * 1024 * 1024) (byte_length log)) _ count _ h)
    where
      proved :
          (b : Bool)
          → has_clean_save_proof parse_json log entry key (some w) job.id ≡ b
          → (if b then (ok true, count) else others count).0 ≡ ok true
          → ((l : Text) × ((some log ≡ some l)
                × (has_clean_save_proof parse_json l entry key (some w) job.id ≡ true)))
            ⊎ ((later : ℕ) × ((others later).0 ≡ ok true))
      proved true e h = inl (log, (refl, e))
      proved false e h = inr (count, h)

  -- A candidate whose log proves the save.
  log-IsProof :
      (m : WriterRunMetadata) (job : JobData) (w : TrustedWriter) (log : Text)
      → trusted_writer_for_run writers m (some job.id) ≡ some w
      → is_candidate parse_json epoch_ms byte_length elapsed_ms api repository writers entry key job
        ≡ true
      → api.log_of job.id ≡ ok (some log)
      → has_clean_save_proof parse_json log entry key (some w) job.id ≡ true
      → IsProof m job
  log-IsProof m job w log found fits read proof =
      let (i, (writer, right_job)) = trusted_writer_for_run_sound writers m (some job.id) w found in
      let ((sha, id), line) = has_proof log w job.id proof in
      let (ended, within) = and_parts (is_text job.conclusion (text "success")) _ fits in
      (
        w,
        (
          i,
          (
            writer,
            (
              id,
              (
                sha,
                (is_text_iff job.conclusion (text "success") ended, (within, (log, (read, line)))),
              ),
            ),
          ),
        ),
      )

  consider-true :
      (m : WriterRunMetadata) (job : JobData) (others : ℕ → Act) (o : Option TrustedWriter)
      (count : ℕ)
      → trusted_writer_for_run writers m (some job.id) ≡ o
      → (consider parse_json epoch_ms byte_length elapsed_ms api repository writers entry key o job
          others count).0
        ≡ ok true
      → IsProof m job ⊎ ((later : ℕ) × ((others later).0 ≡ ok true))
  consider-true m job others none count found h = inr (count, h)
  consider-true m job others (some w) count found h = candidate _ refl h
    where
      candidate :
          (b : Bool)
          → is_candidate parse_json epoch_ms byte_length elapsed_ms api repository writers entry key
              job
            ≡ b
          → (consider_if parse_json epoch_ms byte_length elapsed_ms api repository writers entry key
              b w job others count).0
            ≡ ok true
          → IsProof m job ⊎ ((later : ℕ) × ((others later).0 ≡ ok true))
      candidate false e h = inr (count, h)
      candidate true e h =
          let (answer, (read, (later, rest))) =
            admitted-true (admit_ancestor_request count (elapsed_ms count)) (api.log_of job.id)
              (read_log parse_json epoch_ms byte_length elapsed_ms api repository writers entry key
                w job others)
              count h in
          elim (log_true w job others answer later rest) [
            | inl (log, (same, proof)) ↦
                inl (log-IsProof m job w log found e (read ∙ ap ok same) proof)
            | inr more ↦ inr more
          ]

  check_jobs-true :
      (m : WriterRunMetadata) (jobs : List JobData) (count : ℕ)
      → (jobs_from m jobs count).0 ≡ ok true
      → SomeProof m jobs
  unfolding check_jobs
  check_jobs-true m [] count h = absurd cc
  check_jobs-true m (job ∷ jobs) count h =
      first (consider-true m job (jobs_from m jobs) _ count refl h) (check_jobs-true m jobs)
    where
      first :
          IsProof m job ⊎ ((later : ℕ) × ((jobs_from m jobs later).0 ≡ ok true))
          → ((later : ℕ) → (jobs_from m jobs later).0 ≡ ok true → SomeProof m jobs)
          → SomeProof m (job ∷ jobs)
      first (inl proof) rest = (job, (inl refl, proof))
      first (inr (later, t)) rest = let (other, (i, p)) = rest later t in (other, (inr i, p))

  -- The proof that a save was clean, by a run that the API gave.
  abbrev pub IsCleanSave : Type 0
  IsCleanSave =
      (run : RunData) × ((api.run_of key.run_id key.attempt ≡ ok run)
        × ((page : ℕ × List JobData) × ((api.jobs_of key.run_id key.attempt ≡ ok page)
              × SomeProof (run_metadata repository run) page.1)))

  ask_jobs-true :
      (run : RunData) (b : Bool) (count : ℕ)
      → api.run_of key.run_id key.attempt ≡ ok run
      → (ask_jobs parse_json epoch_ms byte_length elapsed_ms api repository writers entry key b
          (run_metadata repository run)
          count).0
        ≡ ok true
      → IsCleanSave
  ask_jobs-true run false count got h = absurd cc
  ask_jobs-true run true count got h =
      let m = run_metadata repository run in
      let (page, (listed, (later, rest))) =
        admitted-true (admit_ancestor_request count (elapsed_ms count))
          (api.jobs_of key.run_id key.attempt)
          (scan_jobs parse_json epoch_ms byte_length elapsed_ms api repository writers entry key m)
          count h in
      (
        run,
        (
          got,
          (
            page,
            (
              listed,
              check_jobs-true m page.1 later
                  (if_true (ltb 100 page.0) _ later (jobs_from m page.1 later) rest),
            ),
          ),
        ),
      )

  -- A save counts as clean only if the run of its key, as the API gives it, has a job whose writer the
  -- caller has reviewed: the writer pins the repository, workflow, source, run, attempt and job, the
  -- run was completed with success in its own repository, the job succeeded and was running when the
  -- entry was created, and a line of the job's log proves the save of this entry under this key.
  pub clean_save_sound :
      (count : ℕ)
      → (clean_save parse_json epoch_ms byte_length elapsed_ms api repository writers entry key
          count).0
        ≡ ok true
      → IsCleanSave
  unfolding clean_save
  clean_save_sound count h =
      let (run, (got, (later, rest))) =
        admitted-true (admit_ancestor_request count (elapsed_ms count))
          (api.run_of key.run_id key.attempt)
          (judge_run parse_json epoch_ms byte_length elapsed_ms api repository writers entry key)
          count h in
      ask_jobs-true run _ later got rest
