-- ===== src/ReleaseReadiness/Laws.antt =====
-- What a retry does, and what a release that passes has.
use setup_soldr.Base.{ℕ, zero, suc, ◌+◌, ◌≤◌, ◌<◌, ◌≡◌, refl, sym}
use setup_soldr.Base.{◌⊎◌, inl, inr, Bool, true, false, not, ◌||◌, Option, none, some}
use setup_soldr.Base.{List, [], ◌∷◌, arith, ◌==◌}
use setup_soldr.Base.{nat_eq, list_eq, option_eq}
use setup_soldr.Base.{All, Result, ok, err, ensure}
use setup_soldr.Base.{◌>>◌}
use setup_soldr.Base.Text.{Text, text, trim}
use setup_soldr.Base.Text.{is_empty}
use setup_soldr.Base.Json.{Json, Items, prop}
use mathlib.Core.Path.{subst}
use setup_soldr.ReleaseReadiness.{
  settle_error, is_retryable_release_error, settle_attempt, attempt_from, conclude_retry,
  retry_release_request, missing_targets, asset_has_target, pypi_wheel_has_target, any_item, any_in,
  refuse_missing, check_assets, assert_release_ready, is_true, text_prop,
}

module _ {A : Type 0} (request : ℕ → Result A) (attempts : ℕ) where
  -- The attempts of a run, one after the other: a run ends with the value of an attempt, or with an
  -- error that is the last attempt's or not worth another; it goes on after an error that is.
  pub data IsRun : ℕ → A ⊎ Text → List ℕ → Type 0 where
    answered : (n : ℕ) (a : A) → n ≤ attempts → request n ≡ ok a → IsRun n (inl a) (n ∷ [])
    gave_up :
        (n : ℕ) (e : Text)
        → n ≤ attempts
        → request n ≡ err e
        → (n ≡ attempts) ⊎ (is_retryable_release_error e ≡ false)
        → IsRun n (inr e) (n ∷ [])
    again :
        (n : ℕ) (e : Text) (result : A ⊎ Text) (made : List ℕ)
        → n < attempts
        → request n ≡ err e
        → is_retryable_release_error e ≡ true
        → IsRun (suc n) result made
        → IsRun n result (n ∷ made)

  breaks_because :
      (n left : ℕ) (e : Text)
      → n + left ≡ attempts
      → (left == 0 || not (is_retryable_release_error e)) ≡ true
      → (n ≡ attempts) ⊎ (is_retryable_release_error e ≡ false)
  breaks_because n left e h k = ground arith

  goes_on_because :
      (left : ℕ) (e : Text)
      → (left == 0 || not (is_retryable_release_error e)) ≡ false
      → (0 < left) × (is_retryable_release_error e ≡ true)
  goes_on_because left e k = ground arith

  settle_error-IsRun :
      (b : Bool) (n left : ℕ) (e : Text) (later : (A ⊎ Text) × List ℕ)
      → (left == 0 || not (is_retryable_release_error e)) ≡ b
      → n + left ≡ attempts
      → request n ≡ err e
      → (0 < left → IsRun (suc n) later.0 later.1)
      → let (result, made) = settle_error request b n e later in IsRun n result made
  settle_error-IsRun true n left e later k h r next =
      gave_up n e (omega arith) r (breaks_because n left e h k)
  settle_error-IsRun false n left e later k h r next =
      let (more, worth) = goes_on_because left e k in
      again n e later.0 later.1 (omega arith) r worth (next more)

  settle_attempt-IsRun :
      (n left : ℕ) (r : Result A) (later : (A ⊎ Text) × List ℕ)
      → n + left ≡ attempts
      → request n ≡ r
      → (0 < left → IsRun (suc n) later.0 later.1)
      → let (result, made) = settle_attempt request n left r later in IsRun n result made
  settle_attempt-IsRun n left (ok a) later h r next = answered n a (omega arith) r
  settle_attempt-IsRun n left (err e) later h r next =
      settle_error-IsRun (left == 0 || not (is_retryable_release_error e)) n left e later refl h r
        next

  attempt_from-IsRun :
      (n left : ℕ)
      → n + left ≡ attempts
      → let (result, made) = attempt_from request n (suc left) in IsRun n result made
  unfolding attempt_from
  attempt_from-IsRun n zero h =
      settle_attempt-IsRun n zero (request n) _ h refl (λ k. absurd (omega arith))
  attempt_from-IsRun n (suc left) h =
      settle_attempt-IsRun n (suc left) (request n) _ h refl
        (λ k. attempt_from-IsRun (suc n) left (omega arith))

  -- With at least one attempt allowed, a retried request makes its attempts from the first on, never
  -- more than are allowed. Every one but the last failed with a retryable error; the last gave the
  -- value, or failed with the error that is reported, as the last that is allowed or with an error
  -- that is not retryable.
  pub retry_release_request-IsRun :
      (left : ℕ)
      → attempts ≡ suc left
      → (result : A ⊎ Text) × (((retry_release_request request (some attempts)).0
            ≡ conclude_retry request attempts result)
          × IsRun 1 result (retry_release_request request (some attempts)).1)
  unfolding retry_release_request
  retry_release_request-IsRun left h =
      subst
        (λ z.
          (result : A ⊎ Text) × ((conclude_retry request attempts (attempt_from request 1 z).0
              ≡ conclude_retry request attempts result)
            × IsRun 1 result (attempt_from request 1 z).1))
        (sym h) (_, (refl, attempt_from-IsRun 1 left (omega arith)))

refuse_missing-ok : (tag : Text) (ts : List Text) → refuse_missing tag ts ≡ ok tt → ts ≡ []
refuse_missing-ok tag [] h = refl
refuse_missing-ok tag (t ∷ ts) h = cc

ensure-ok :
    (b : Bool) (m : Text) (next : Result (Unit {0}))
    → (ensure (not b) m >> next) ≡ ok tt
    → (b ≡ false) × (next ≡ ok tt)
ensure-ok false m next h = (refl, h)
ensure-ok true m next h = cc

check_assets-ok :
    (tag : Text) (required : List Text) (o files : Option Json)
    → check_assets tag required o files ≡ ok tt
    → (assets : Items) × ((o ≡ some (Json.arr assets))
        × (missing_targets required assets files ≡ []))
check_assets-ok tag required (some (Json.arr assets)) files h =
    (assets, (refl, refuse_missing-ok tag _ h))
check_assets-ok tag required none files h = cc
check_assets-ok tag required (some Json.null) files h = cc
check_assets-ok tag required (some (Json.bool b)) files h = cc
check_assets-ok tag required (some (Json.num n)) files h = cc
check_assets-ok tag required (some (Json.str t)) files h = cc
check_assets-ok tag required (some (Json.obj fs)) files h = cc

-- An asset or a wheel of the release serves the target.
pub Served : Items → Option Json → Text → Type 0
Served assets files t =
    (any_item (λ a. asset_has_target a t) assets ≡ true)
    ⊎ (any_in (λ f. pypi_wheel_has_target f t) files ≡ true)

missing_targets-Served :
    (required : List Text) (assets : Items) (files : Option Json)
    → missing_targets required assets files ≡ []
    → All (Served assets files) required
unfolding missing_targets Served
missing_targets-Served [] assets files h = tt
missing_targets-Served (t ∷ ts) assets files h =
    ground (arith, missing_targets-Served ts assets files)

-- A release that passes has a tag and a list of assets, is no draft, and has an archive or a wheel
-- for each of the required targets.
pub assert_release_ready_sound :
    (release : Json) (required : List Text) (pypi : Option Json)
    → assert_release_ready release required pypi ≡ ok tt
    → (is_empty (trim (text_prop (some release) (text "tag_name"))) ≡ false)
      × ((is_true (prop (some release) (text "draft")) ≡ false)
          × ((assets : Items) × ((prop (some release) (text "assets") ≡ some (Json.arr assets))
                × All (Served assets (prop pypi (text "urls"))) required)))
unfolding assert_release_ready
assert_release_ready_sound release required pypi h =
    let (tagged, h1) =
      ensure-ok (is_empty (trim (text_prop (some release) (text "tag_name")))) _ _ h in
    let (published, h2) = ensure-ok (is_true (prop (some release) (text "draft"))) _ _ h1 in
    let (assets, (listed, none_missing)) = check_assets-ok _ required _ _ h2 in
    (tagged, (published, (assets, (listed, missing_targets-Served required assets _ none_missing))))
