-- ===== src/YankAudit/Workers.antt =====
-- src/lib/yank-audit.ts: what the workers of a clean audit have found.
use setup_soldr.Base.{ℕ, zero, suc, ◌≡◌, refl, ap}
use setup_soldr.Base.{Bool, true, false}
use setup_soldr.Base.{List, [], ◌∷◌, ◌++◌, arith, if◌then◌else◌, ltb}
use setup_soldr.Base.{nat_eq, list_eq, option_eq, length}
use setup_soldr.Base.{All, Result, ok, err}
use setup_soldr.Base.Text.{Text, text}
use setup_soldr.YankAudit.{
  YankAuditDependency, YankedDependency, YankAuditStatus, is_crates_io_source,
}
use setup_soldr.YankAudit.Audit.{
  Work, Progress, unsupported, settle, record_error, run_workers, verdict, finish, omitted_error,
}
use setup_soldr.YankAudit.Index.{Checked}

abbrev pub Item : Type 0
Item = Text × List Text

-- Nothing was found so far.
abbrev pub Spotless : Progress → Type 0
Spotless p = (p.errors ≡ []) × (p.omitted ≡ 0) × (p.yanked ≡ [])

-- The check of a crate found none of its versions yanked.
abbrev pub Passes : (Text → List Text → Result Checked) → Item → Type 0
Passes check item = (checked : List YankedDependency) × (check item.0 item.1 ≡ ok (checked, []))

no_last : {A : Type 0} (xs : List A) (x : A) → xs ++ x ∷ [] ≡ [] → ⊥
no_last [] x h = cc
no_last (y ∷ xs) x h = cc

both_empty : {A : Type 0} (xs ys : List A) → xs ++ ys ≡ [] → (xs ≡ []) × (ys ≡ [])
both_empty [] ys h = (refl, h)
both_empty (x ∷ xs) ys h = absurd (cc)

record_error_stains : (p : Progress) (message : Text) → Spotless (record_error p message) → ⊥
record_error_stains p message s = go (ltb (length p.errors) 20) s
  where
    left : Progress
    left = record {
      errors = p.errors ++ message ∷ [];
      omitted = p.omitted;
      yanked = p.yanked;
      checked_count = p.checked_count;
    }

    right : Progress
    right = record {
      errors = p.errors;
      omitted = suc p.omitted;
      yanked = p.yanked;
      checked_count = p.checked_count;
    }

    go : (b : Bool) → Spotless (if b then left else right) → ⊥
    go true s = no_last p.errors message s.0
    go false s = absurd (omega (arith, s.1))

settle-Spotless :
    (p : Progress) (name : Text) (result : Result Checked)
    → Spotless (settle p name result)
    → Spotless p × ((checked : List YankedDependency) × (result ≡ ok (checked, [])))
settle-Spotless p name (err message) s = absurd (record_error_stains p _ s)
settle-Spotless p name (ok (checked, found)) s =
    let empty : (p.yanked ≡ []) × (found ≡ []) = both_empty p.yanked found s.2 in
    ((s.0, s.1, empty.0), (checked, ap (λ f. ok (checked, f)) empty.1))

pub run_workers-Spotless :
    (check : Text → List Text → Result Checked) (p : Progress) (work : Work)
    → Spotless (run_workers check p work)
    → Spotless p × All (Passes check) work
unfolding run_workers
run_workers-Spotless check p [] s = (s, tt)
run_workers-Spotless check p ((name, versions) ∷ work) s =
    let later : Spotless (settle p name (check name versions)) × All (Passes check) work =
      run_workers-Spotless check (settle p name (check name versions)) work s in
    let now : Spotless p
        × ((checked : List YankedDependency) × (check name versions ≡ ok (checked, []))) =
      settle-Spotless p name (check name versions) later.0 in
    (now.0, (now.1, later.1))

verdict-clean :
    (d c : ℕ) (bad : List YankedDependency) (errors : List Text)
    → (verdict d c bad errors).status ≡ YankAuditStatus.clean
    → (bad ≡ []) × (errors ≡ [])
verdict-clean d c [] [] h = (refl, refl)
verdict-clean d c [] (e ∷ es) h = absurd (cc)
verdict-clean d c (y ∷ ys) errors h = absurd (cc)

no_omission : (n : ℕ) → omitted_error n ≡ [] → n ≡ 0
no_omission zero h = refl
no_omission (suc n) h = absurd (cc)

pub finish-Spotless :
    (n : ℕ) (p : Progress) → (finish n p).status ≡ YankAuditStatus.clean → Spotless p
finish-Spotless n p h =
    let none_found : (p.yanked ≡ []) × (p.errors ++ omitted_error p.omitted ≡ []) =
      verdict-clean n p.checked_count p.yanked (p.errors ++ omitted_error p.omitted) h in
    let no_errors : (p.errors ≡ []) × (omitted_error p.omitted ≡ []) =
      both_empty p.errors (omitted_error p.omitted) none_found.1 in
    (no_errors.0, no_omission p.omitted no_errors.1, none_found.0)

pub all_supported :
    (ds : List YankAuditDependency)
    → unsupported ds ≡ []
    → All (λ d. is_crates_io_source d.source ≡ true) ds
unfolding unsupported
all_supported [] h = tt
all_supported (d ∷ ds) h = go (is_crates_io_source d.source) refl (all_supported ds) h
  where
    go :
        (b : Bool)
        → is_crates_io_source d.source ≡ b
        → (unsupported ds ≡ [] → All (λ e. is_crates_io_source e.source ≡ true) ds)
        → (if b
            then unsupported ds
            else (d.name
                ++ (text " "
                    ++ (d.version
                        ++ (text ": registry " ++ (d.source ++ text " is not supported")))))
              ∷ unsupported ds)
          ≡ []
        → (is_crates_io_source d.source ≡ true) × All (λ e. is_crates_io_source e.source ≡ true) ds
    go true e later k = (e, later k)
    go false e later k = absurd (cc)
