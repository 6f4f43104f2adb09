-- ===== src/YankAudit/Laws.antt =====
-- src/lib/yank-audit.ts: what it means that an audit is clean.
use setup_soldr.Base.{◌≡◌}
use setup_soldr.Base.{true, false, some}
use setup_soldr.Base.{List, [], ◌++◌, map}
use setup_soldr.Base.{nat_eq, list_eq, option_eq, includes, length}
use setup_soldr.Base.{All, Result, ok}
use setup_soldr.Base.{◌>>=◌, >>=-eq-ok}
use setup_soldr.Base.Text.{Text, text}
use setup_soldr.Base.Json.{Json}
use setup_soldr.Base.{In, All-In, All-map_of, All-zip}
use setup_soldr.YankAudit.{
  YankAuditDependency, YankedDependency, YankAuditStatus, is_crates_io_source,
}
use setup_soldr.YankAudit.Audit.{Work, by_crate, start, audit_dependency_yanks}
use setup_soldr.YankAudit.Index.{
  Records, find_record, check_versions, fetch_crate_yanks, read_lines, crates_io_sparse_path,
  strip_cr,
}
use setup_soldr.Base.Split.{split}
use setup_soldr.YankAudit.Workers.{
  Spotless, Passes, run_workers-Spotless, finish-Spotless, all_supported,
}
use setup_soldr.YankAudit.Coverage.{Covers, by_crate-Covers, check_versions_sound}

module _ (fetch : Text → Result Text) (parse_json : Text → Result Json) where
  -- The index has an entry of the crate, and these are its records.
  abbrev pub IndexRecords : Text → Records → Type 0
  IndexRecords name records =
      (body : Text) × (fetch (text "https://index.crates.io/" ++ crates_io_sparse_path name)
        ≡ ok body)
      × (read_lines parse_json [] (map strip_cr (split 10 body)) ≡ ok records)

  -- The dependency comes from crates.io, whose index has its version, and as one that is not yanked.
  abbrev pub NotYanked : YankAuditDependency → Type 0
  NotYanked d =
      (is_crates_io_source d.source ≡ true)
      × ((records : Records) × IndexRecords d.name records
          × (find_record records d.version ≡ some false))

  fetch_crate_yanks_sound :
      (name : Text) (versions : List Text) (checked : List YankedDependency) (version : Text)
      → fetch_crate_yanks fetch parse_json name versions ≡ ok (checked, [])
      → includes versions version ≡ true
      → (records : Records) × IndexRecords name records × (find_record records version ≡ some false)
  unfolding fetch_crate_yanks
  fetch_crate_yanks_sound name versions checked version h i =
      let (body, fetched, rest) =
        >>=-eq-ok (fetch (text "https://index.crates.io/" ++ crates_io_sparse_path name))
          (λ b. read_lines parse_json [] (map strip_cr (split 10 b)) >>= λ r.
            check_versions name r versions)
          h in
      let (records, read, found) =
        >>=-eq-ok (read_lines parse_json [] (map strip_cr (split 10 body)))
          (λ r. check_versions name r versions) rest in
      (
        records,
        (body, fetched, read),
        check_versions_sound name records versions checked version found i,
      )

  -- An audit that ends before the deadline is called clean only if every dependency comes from crates.io and the index
  -- of crates.io has its version as one that is not yanked; whatever the order is in which the workers
  -- are done with the crates, if they leave none out.
  pub audit_dependency_yanks-clean :
      (order : Work → Work) (dependencies : List YankAuditDependency)
      → ((work : Work) (item : Text × List Text) → In item work → In item (order work))
      → (audit_dependency_yanks (fetch_crate_yanks fetch parse_json) order dependencies).status
        ≡ YankAuditStatus.clean
      → All NotYanked dependencies
  unfolding audit_dependency_yanks
  audit_dependency_yanks-clean order dependencies keeps h =
      let done : Spotless (start dependencies)
          × All (Passes (fetch_crate_yanks fetch parse_json)) (order (by_crate [] dependencies)) =
        run_workers-Spotless (fetch_crate_yanks fetch parse_json) (start dependencies)
          (order (by_crate [] dependencies)) (finish-Spotless (length dependencies) _ h) in
      let known : All (λ d. is_crates_io_source d.source ≡ true) dependencies =
        all_supported dependencies done.0.0 in
      let covered : All (λ d. Covers (by_crate [] dependencies) d.name d.version) dependencies =
        by_crate-Covers [] dependencies known in
      All-map_of
        (λ d.
          (is_crates_io_source d.source ≡ true)
          × Covers (by_crate [] dependencies) d.name d.version)
        NotYanked (λ d p. (p.0, judged d p.1 done.1)) dependencies
        (All-zip _ _ dependencies known covered)
    where
      judged :
          (d : YankAuditDependency)
          → Covers (by_crate [] dependencies) d.name d.version
          → All (Passes (fetch_crate_yanks fetch parse_json)) (order (by_crate [] dependencies))
          → (records : Records) × IndexRecords d.name records
            × (find_record records d.version ≡ some false)
      judged d (versions, i, has) passed =
          let passes : Passes (fetch_crate_yanks fetch parse_json) (d.name, versions) =
            All-In (Passes (fetch_crate_yanks fetch parse_json)) (d.name, versions)
              (order (by_crate [] dependencies)) passed
              (keeps (by_crate [] dependencies) (d.name, versions) i) in
          fetch_crate_yanks_sound d.name versions passes.0 d.version passes.1 has
