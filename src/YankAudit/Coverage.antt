-- ===== src/YankAudit/Coverage.antt =====
-- src/lib/yank-audit.ts: every dependency is part of the work, and what a check of its crate says.
use setup_soldr.Base.{◌≡◌, refl, sym, ◌∙◌, ap}
use setup_soldr.Base.{◌⊎◌, inl, inr, Bool, true, false, ◌||◌, Option, none, some}
use setup_soldr.Base.{List, [], ◌∷◌, ◌++◌, arith, if◌then◌else◌, ◌==◌, ==_iff}
use setup_soldr.Base.{nat_eq, list_eq, option_eq, includes, Bool-cases}
use setup_soldr.Base.{All, ok, err}
use setup_soldr.Base.{◌>>=◌, >>=-eq-ok}
use setup_soldr.Base.Text.{Text, text}
use mathlib.Core.Path.{subst}
use setup_soldr.Base.{In, ok_injective}
use setup_soldr.YankAudit.{YankAuditDependency, YankedDependency, is_crates_io_source}
use setup_soldr.YankAudit.Audit.{Work, add_version, by_crate}
use setup_soldr.YankAudit.Index.{Records, Checked, find_record, check_versions, add_checked}
use setup_soldr.YankAudit.Workers.{Item}

-- The work names the version of the crate.
abbrev pub Covers : Work → Text → Text → Type 0
Covers work name version =
    (versions : List Text) × In (name, versions) work × (includes versions version ≡ true)

Covers-later :
    (item : Item) (work : Work) (name version : Text)
    → Covers work name version
    → Covers (item ∷ work) name version
Covers-later item work name version (versions, i, h) = (versions, inr i, h)

includes_last :
    (xs : List Text) (x y : Text)
    → ((includes xs y ≡ true) ⊎ (x ≡ y))
    → includes (xs ++ x ∷ []) y ≡ true
includes_last [] x y (inl h) = absurd (cc)
includes_last [] x y (inr e) = rw e (ground arith)
includes_last (z ∷ xs) x y h = elim (Bool-cases (y == z)) [
  | inl same ↦ rw same refl
  | inr apart ↦ rw apart (
      includes_last xs x y
        (elim h [ inl k ↦ inl (sym (ap (λ b. b || includes xs y) apart) ∙ k) | inr e ↦ inr e ]))
]

with_version : List Text → Text → List Text
with_version versions version =
    if includes versions version then versions else versions ++ version ∷ []

with_version_has :
    (versions : List Text) (version : Text)
    → includes (with_version versions version) version ≡ true
unfolding with_version
with_version_has versions version = elim (Bool-cases (includes versions version)) [
  | inl h ↦ rw h h
  | inr h ↦ rw h (includes_last versions version version (inr refl))
]

with_version_keeps :
    (versions : List Text) (version other : Text)
    → includes versions other ≡ true
    → includes (with_version versions version) other ≡ true
unfolding with_version
with_version_keeps versions version other k = elim (Bool-cases (includes versions version)) [
  | inl h ↦ rw h k
  | inr h ↦ rw h (includes_last versions version other (inl k))
]

add_version_self :
    (name version : Text) (work : Work) → Covers (add_version name version work) name version
unfolding add_version with_version
add_version_self name version [] = (version ∷ [], inl refl, ground arith)
add_version_self name version ((n, versions) ∷ work) =
    go (n == name) (λ e. (==_iff n name).0 e) (add_version_self name version work)
  where
    go :
        (b : Bool)
        → (b ≡ true → n ≡ name)
        → Covers (add_version name version work) name version
        → Covers
            (if b
              then (n, with_version versions version) ∷ work
              else (n, versions) ∷ add_version name version work)
            name
            version
    go true same later = (
      with_version versions version,
      inl (ap (λ m. (m, with_version versions version)) (sym (same refl))),
      with_version_has versions version,
    )
    go false same later =
        Covers-later (n, versions) (add_version name version work) name version later

add_version-keeps :
    (name version : Text) (work : Work) (m v : Text)
    → Covers work m v
    → Covers (add_version name version work) m v
unfolding add_version with_version
add_version-keeps name version [] m v (versions, i, h) = absurd i
add_version-keeps name version ((n, versions) ∷ work) m v (vs, i, h) =
    go (n == name) i (λ j. add_version-keeps name version work m v (vs, j, h))
  where
    go :
        (b : Bool)
        → In (m, vs) ((n, versions) ∷ work)
        → (In (m, vs) work → Covers (add_version name version work) m v)
        → Covers
            (if b
              then (n, with_version versions version) ∷ work
              else (n, versions) ∷ add_version name version work)
            m
            v
    go true (inl e) later = (
      with_version versions version,
      inl (ap (λ p. (p.0, with_version versions version)) e),
      with_version_keeps versions version v (sym (ap (λ p. includes p.1 v) e) ∙ h),
    )
    go true (inr j) later = (vs, inr j, h)
    go false (inl e) later = (vs, inl e, h)
    go false (inr j) later =
        Covers-later (n, versions) (add_version name version work) m v (later j)

pub by_crate-keeps :
    (work : Work) (ds : List YankAuditDependency) (m v : Text)
    → Covers work m v
    → Covers (by_crate work ds) m v
unfolding by_crate
by_crate-keeps work [] m v c = c
by_crate-keeps work (d ∷ ds) m v c =
    go (is_crates_io_source d.source) (by_crate-keeps work ds m v c) (
      by_crate-keeps (add_version d.name d.version work) ds m v
        (add_version-keeps d.name d.version work m v c))
  where
    go :
        (b : Bool)
        → Covers (by_crate work ds) m v
        → Covers (by_crate (add_version d.name d.version work) ds) m v
        → Covers
            (if b then by_crate (add_version d.name d.version work) ds else by_crate work ds)
            m
            v
    go true a b = b
    go false a b = a

-- Every dependency of crates.io is part of the work.
pub by_crate-Covers :
    (work : Work) (ds : List YankAuditDependency)
    → All (λ d. is_crates_io_source d.source ≡ true) ds
    → All (λ d. Covers (by_crate work ds) d.name d.version) ds
unfolding by_crate
by_crate-Covers work [] h = tt
by_crate-Covers work (d ∷ ds) (p, h) =
    subst (λ w. Covers w d.name d.version × All (λ e. Covers w e.name e.version) ds)
      (sym (
        ap (λ b. if b then by_crate (add_version d.name d.version work) ds else by_crate work ds)
          p))
      (
        by_crate-keeps (add_version d.name d.version work) ds d.name d.version
            (add_version_self d.name d.version work),
        by_crate-Covers (add_version d.name d.version work) ds h,
      )

-- A check that passes has found every version in the records, and none of them yanked.
pub check_versions_sound :
    (name : Text) (records : Records) (versions : List Text) (checked : List YankedDependency)
    (version : Text)
    → check_versions name records versions ≡ ok (checked, [])
    → includes versions version ≡ true
    → find_record records version ≡ some false
unfolding check_versions
check_versions_sound name records [] checked version h i = absurd (cc)
check_versions_sound name records (v ∷ vs) checked version h i =
    go (find_record records v) refl h (λ c k j. check_versions_sound name records vs c version k j)
  where
    after_first :
        (gone : Bool) (rest : Checked)
        → find_record records v ≡ some gone
        → add_checked name v gone rest ≡ (checked, [])
        → check_versions name records vs ≡ ok rest
        → ((c : List YankedDependency)
            → check_versions name records vs ≡ ok (c, [])
            → includes vs version ≡ true
            → find_record records version ≡ some false)
        → find_record records version ≡ some false
    after_first true (c, bad) e k call later = absurd (cc)
    after_first false (c, bad) e k call later = elim (Bool-cases (version == v)) [
      | inl same ↦ ap (find_record records) ((==_iff version v).0 same) ∙ e
      | inr apart ↦
          later c (call ∙ ap (λ x. ok (c, x.1)) k)
            (sym (ap (λ b. b || includes vs version) apart) ∙ i)
    ]

    go :
        (o : Option Bool)
        → find_record records v ≡ o
        → elim o [
          | none ↦
              err
                (text "version " ++ (name ++ (text " " ++ (v ++ text " absent from sparse index"))))
          | some gone ↦ check_versions name records vs >>= λ rest. ok (add_checked name v gone rest)
        ]
          ≡ ok (checked, [])
        → ((c : List YankedDependency)
            → check_versions name records vs ≡ ok (c, [])
            → includes vs version ≡ true
            → find_record records version ≡ some false)
        → find_record records version ≡ some false
    go none e k later = absurd (cc)
    go (some gone) e k later =
        let (rest, call, made) =
          >>=-eq-ok (check_versions name records vs) (λ r. ok (add_checked name v gone r)) k in
        after_first gone rest e (ok_injective _ _ made) call later
