-- ===== src/TargetLifecycle/UniversalLaws.antt =====
-- src/lib/target-lifecycle.ts: what the contract of two Apple targets supports.
use setup_soldr.Base.{◌≡◌, refl, sym, ◌∙◌, ap}
use setup_soldr.Base.{inl, inr, Bool, true, false, ◌&&◌, ◌||◌}
use setup_soldr.Base.{List, [], ◌∷◌, arith, if◌then◌else◌, ◌==◌, ==_iff}
use setup_soldr.Base.{nat_eq, list_eq, option_eq, includes, Bool-cases}
use setup_soldr.Base.{filter, All, ok, err}
use setup_soldr.Base.Text.{Text, text}
use Prim.Native.Nat.{Ordering}
use mathlib.Core.Path.{subst}
use setup_soldr.Base.{In, All-map_of, All-In_self, ok_injective}
use setup_soldr.Base.Sort.{In-sort}
use setup_soldr.TargetLifecycle.Universal.{
  Contract, supported_by_all, is_packaging, universal_of, aggregate, wants_both,
  build_universal2_target_contract,
}

includes-filter :
    (p : Text → Bool) (xs : List Text) (a : Text) → includes (filter p xs) a ≡ true → p a ≡ true
includes-filter p [] a h = cc
includes-filter p (x ∷ xs) a h = go (p x) refl (includes-filter p xs a) h
  where
    go :
        (b : Bool)
        → p x ≡ b
        → (includes (filter p xs) a ≡ true → p a ≡ true)
        → includes (if b then x ∷ filter p xs else filter p xs) a ≡ true
        → p a ≡ true
    go true e later k = elim (Bool-cases (a == x)) [
      | inl same ↦ ap p ((==_iff a x).0 same) ∙ e
      | inr apart ↦ later (sym (ap (λ b. b || includes (filter p xs) a) apart) ∙ k)
    ]
    go false e later k = later k

includes-filter_of :
    (p : Text → Bool) (xs : List Text) (a : Text)
    → includes (filter p xs) a ≡ true
    → includes xs a ≡ true
includes-filter_of p [] a h = cc
includes-filter_of p (x ∷ xs) a h = go (p x) (includes-filter_of p xs a) h
  where
    or_right : (b : Bool) {c : Bool} → c ≡ true → (b || c) ≡ true
    or_right true h = refl
    or_right false h = h

    go :
        (b : Bool)
        → (includes (filter p xs) a ≡ true → includes xs a ≡ true)
        → includes (if b then x ∷ filter p xs else filter p xs) a ≡ true
        → (a == x || includes xs a) ≡ true
    go true later k = elim (Bool-cases (a == x)) [
      | inl same ↦ rw same refl
      | inr apart ↦
          or_right (a == x) (later (sym (ap (λ b. b || includes (filter p xs) a) apart) ∙ k))
    ]
    go false later k = or_right (a == x) (later k)

-- The contract supports the operation.
abbrev pub Supports : Text → Contract → Type 0
Supports operation contract = includes contract.supported_operations operation ≡ true

both_support :
    (first second : Contract) (operation : Text)
    → Supports operation (universal_of first second)
    → (is_packaging operation ≡ true) × Supports operation first × Supports operation second
both_support first second operation h =
    let kept : includes (filter (supported_by_all (first ∷ second ∷ [])) first.supported_operations)
          operation
        ≡ true =
      includes-filter_of is_packaging _ operation h in
    (
      includes-filter is_packaging _ operation h,
      includes-filter_of (supported_by_all (first ∷ second ∷ [])) first.supported_operations
          operation kept,
      second_of (includes first.supported_operations operation)
          (includes second.supported_operations operation)
          (includes-filter (supported_by_all (first ∷ second ∷ [])) first.supported_operations
            operation kept),
    )
  where
    second_of : (a b : Bool) → (a && (b && true)) ≡ true → b ≡ true
    second_of a b h = ground arith

aggregate-Supports :
    (contracts : List Contract) (contract : Contract) (operation : Text)
    → aggregate contracts ≡ ok contract
    → Supports operation contract
    → (is_packaging operation ≡ true) × ((d : Contract) → In d contracts → Supports operation d)
unfolding aggregate
aggregate-Supports [] contract operation h s = absurd (cc)
aggregate-Supports (a ∷ []) contract operation h s = absurd (cc)
aggregate-Supports (a ∷ b ∷ c ∷ cs) contract operation h s = absurd (cc)
aggregate-Supports (first ∷ second ∷ []) contract operation h s =
    go
      (first.canonical_target == text "aarch64-apple-darwin"
        && second.canonical_target == text "x86_64-apple-darwin")
      wants_both h
  where
    go :
        (b : Bool)
        → (m : Text) → (if b then ok (universal_of first second) else err m) ≡ ok contract
        → (is_packaging operation ≡ true)
          × ((d : Contract) → In d (first ∷ second ∷ []) → Supports operation d)
    go true m e =
        let both : (is_packaging operation ≡ true)
            × Supports operation first
            × Supports operation second =
          both_support first second operation
            (subst (Supports operation) (sym (ok_injective _ _ e)) s) in
        (
          both.0,
          λ d i. elim i [
            | inl e ↦ subst (Supports operation) (sym e) both.1
            | inr j ↦ elim j [
              | inl e ↦ subst (Supports operation) (sym e) both.2
              | inr k ↦ absurd k
            ]
          ],
        )
    go false m e = absurd (cc)

-- Whatever the order of `localeCompare`: an operation that the contract of both Apple targets
-- supports is one of packaging, and every one of the given contracts supports it.
pub build_universal2_target_contract-Supports :
    (locale_compare : Text → Text → Ordering) (contracts : List Contract) (contract : Contract)
    (operation : Text)
    → build_universal2_target_contract locale_compare contracts ≡ ok contract
    → Supports operation contract
    → (is_packaging operation ≡ true) × All (Supports operation) contracts
unfolding build_universal2_target_contract
build_universal2_target_contract-Supports locale_compare contracts contract operation h s =
    let (packaging, every) = aggregate-Supports _ contract operation h s in
    (
      packaging,
      All-map_of (λ d. In d contracts) (Supports operation)
          (λ d i. every d (In-sort _ d contracts i)) contracts (All-In_self contracts),
    )
