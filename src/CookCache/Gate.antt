-- ===== src/CookCache/Gate.antt =====
-- When dependencies are compiled ahead, and from which soldr version on they have two layers.
use setup_soldr.Base.Span.{is_digit}
use setup_soldr.Base.{◌≤◌, ◌<◌, ◌≡◌, refl}
use setup_soldr.Base.{◌≢◌, ◌↔◌, ◌⊎◌, inl, inr, Bool, true, false, Option, none, some}
use setup_soldr.Base.{List, [], ◌∷◌, arith, ==_iff}
use setup_soldr.Base.{nat_eq, list_eq, option_eq, includes, Bool-cases}
use setup_soldr.Base.{All}
use setup_soldr.Base.Text.{Text, trim, to_lower}
use mathlib.Core.Path.{subst}
use setup_soldr.Base.{
  All, All-In, In, includes, list_eq, nat_eq, ◌⊎◌, inl, inr, Bool-cases, ==_iff, refl, ◌≡◌, List,
  [], ◌∷◌, arith, Option, none, some, ◌<◌, ◌≤◌,
}
use setup_soldr.CookCache.{
  supports_over, decide_cook_gate, gate_of, off_words, is_cook_mode, Version, parse_version,
  is_at_least, supports_layered_cook_cache, layered_cook_min_soldr_version,
}

gate_of_iff :
    (off known umbrella : Bool) (path : Text) (found : Bool) (deps : Text)
    → ((gate_of off known umbrella path found deps).enabled ≡ true)
      ↔ ((off ≡ false) × ((known ≡ true) × ((umbrella ≡ true) × ((path ≢ []) × (found ≡ true)))))
unfolding gate_of
gate_of_iff true k u p f d = (λ h. cc, λ h. cc)
gate_of_iff false false u p f d = (λ h. cc, λ h. cc)
gate_of_iff false true false p f d = (λ h. cc, λ h. cc)
gate_of_iff false true true [] f d = (λ h. cc, λ h. absurd (h.1.1.1.0 refl))
gate_of_iff false true true (c ∷ p) false d = (λ h. cc, λ h. cc)
gate_of_iff false true true (c ∷ p) true d =
    (λ h. (refl, (refl, (refl, ((λ e. cc), refl)))), λ h. refl)

includes-In : (xs : List Text) (a : Text) → includes xs a ≡ true → In a xs
includes-In [] a h = cc
includes-In (x ∷ xs) a h = ground (arith, includes-In xs a, ==_iff a x)

off_not_mode : All (λ w. is_cook_mode w ≡ false) off_words
unfolding is_cook_mode off_words list_eq nat_eq
off_not_mode = (refl, (refl, (refl, (refl, tt))))

off_of_mode : (m : Text) → is_cook_mode m ≡ true → includes off_words m ≡ false
off_of_mode m h = elim (Bool-cases (includes off_words m)) [
  | inr k ↦ k
  | inl k ↦
      let e =
        All-In (λ w. is_cook_mode w ≡ false) m off_words off_not_mode (includes-In off_words m k) in
      cc
]

-- The gate is open exactly if the strategy is one of the two names, caching is on, and the lockfile
-- has a path that exists.
pub decide_cook_gate_iff :
    (exists : Text → Bool) (prebuild_deps : Text) (cache_umbrella : Bool) (lockfile_path : Text)
    → ((decide_cook_gate exists prebuild_deps cache_umbrella lockfile_path).enabled ≡ true) ↔ (
        (is_cook_mode (to_lower (trim prebuild_deps)) ≡ true)
        × ((cache_umbrella ≡ true) × ((lockfile_path ≢ []) × (exists lockfile_path ≡ true))))
unfolding decide_cook_gate
decide_cook_gate_iff exists prebuild_deps cache_umbrella lockfile_path =
    let (to, from) =
      gate_of_iff (includes off_words (to_lower (trim prebuild_deps)))
        (is_cook_mode (to_lower (trim prebuild_deps))) cache_umbrella lockfile_path
        (exists lockfile_path) prebuild_deps in
    (λ h. (to h).1, λ h. from (off_of_mode _ h.0, h))

-- 0.7.38 or later.
pub IsRecent : Version → Type 0
IsRecent v = (0 < v.major) ⊎ ((v.major ≡ 0) × ((7 < v.minor) ⊎ ((v.minor ≡ 7) × (38 ≤ v.patch))))

is_at_least_iff :
    (v : Version)
    → (is_at_least v (record { major = 0; minor = 7; patch = 38 }) ≡ true) ↔ IsRecent v
unfolding is_at_least IsRecent
is_at_least_iff v = (λ h. ground arith, λ h. ground arith)

min_version : Option Version
min_version = some (record { major = 0; minor = 7; patch = 38 })

min-min_version : parse_version layered_cook_min_soldr_version ≡ min_version
unfolding min_version parse_version layered_cook_min_soldr_version nat_eq is_digit
min-min_version = refl

supports_over_iff :
    (p : Option Version)
    → (supports_over p min_version ≡ true) ↔ ((v : Version) × ((p ≡ some v) × IsRecent v))
unfolding supports_over min_version
supports_over_iff none = (λ h. cc, λ h. cc)
supports_over_iff (some v) = (
  λ h. (v, (refl, (is_at_least_iff v).0 h)),
  λ h. (is_at_least_iff v).1 (let (w, (e, r)) = h in subst IsRecent (let e' : w ≡ v = cc in e') r),
)

-- The layers are used exactly for a version that can be read and is 0.7.38 or later.
pub supports_layered_cook_cache_iff :
    (soldr_version : Text)
    → (supports_layered_cook_cache soldr_version ≡ true)
      ↔ ((v : Version) × ((parse_version soldr_version ≡ some v) × IsRecent v))
unfolding supports_layered_cook_cache
supports_layered_cook_cache_iff soldr_version =
    rw min-min_version (supports_over_iff (parse_version soldr_version))
