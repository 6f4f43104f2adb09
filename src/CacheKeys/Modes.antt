-- ===== src/CacheKeys/Modes.antt =====
-- src/lib/cache-keys.ts: what the parsers of the inputs of the target cache give their callers.
use setup_soldr.Base.{ℕ, ◌*◌, ◌≤◌, ◌≡◌, refl, sym, ◌∙◌}
use setup_soldr.Base.{inl, inr, Bool, true, false, ◌&&◌, ◌||◌, some}
use setup_soldr.Base.{List, [], arith, if◌then◌else◌, ◌==◌}
use setup_soldr.Base.{nat_eq, list_eq, option_eq, includes, Bool-cases}
use setup_soldr.Base.{Result, ok, err, ensure}
use setup_soldr.Base.{◌>>=◌, ◌>>◌, >>=-eq-ok}
use setup_soldr.Base.Text.{Text, text, trim, or_text}
use setup_soldr.Base.Text.{is_empty}
use mathlib.Core.Path.{subst}
use setup_soldr.Base.{ok_injective}
use setup_soldr.Base.Decimal.{decimal, value, value-decimal}
use setup_soldr.Base.{ap, ==_iff}
use setup_soldr.CacheKeys.Normalize.{
  inherited_names, normalized, build_cache_modes, translated, Logged, normalize_build_cache_mode,
}
use setup_soldr.CacheKeys.Normalize.{
  normalize_legacy_target_cache_mode, target_cache_soft_budgets, target_cache_soft_budget,
}
use setup_soldr.CacheKeys.Normalize.{
  normalize_target_cache_compress_level, level_in_range, signed, gib,
}

>>-ok :
    {U : Type 0} (b : Bool) (message : Text) (follow : Result U) (u : U)
    → (ensure b message >> follow) ≡ ok u
    → (b ≡ true) × (follow ≡ ok u)
>>-ok true message follow u h = (refl, h)
>>-ok false message follow u h = cc

any_of_three : (o t f : Bool) → (t || f) ≡ true → (o || (t || (f || false))) ≡ true
any_of_three o t f h = ground arith

chosen_mode :
    (b : Bool) (word mode : Text) (lines lines' : List Text)
    → (b ≡ true → includes build_cache_modes word ≡ true)
    → includes build_cache_modes mode ≡ true
    → includes build_cache_modes (if◌then◌else◌ {A = Logged} b (word, lines) (mode, lines')).0
      ≡ true
chosen_mode true word mode lines lines' h k = h refl
chosen_mode false word mode lines lines' h k = k

and_last : (a b c : Bool) → (a && b && c) ≡ true → c ≡ true
and_last a b c h = ground arith

translated-mode :
    (allowed : Bool) (explicit mode : Text) (legacy : Logged)
    → includes build_cache_modes mode ≡ true
    → includes build_cache_modes (translated allowed explicit mode legacy).0 ≡ true
translated-mode allowed explicit mode (word, lines) h =
    chosen_mode (allowed && is_empty explicit && (word == text "thin" || word == text "full")) word
      mode _ lines
      (λ e.
        any_of_three (word == text "once") (word == text "thin") (word == text "full")
          (and_last allowed (is_empty explicit) (word == text "thin" || word == text "full") e))
      h

-- A mode that is returned is one of the three.
normalize_build_cache_mode-mode :
    (value legacy : Text) (allowed : Bool) (mode : Text) (lines : List Text)
    → normalize_build_cache_mode value legacy allowed ≡ ok (mode, lines)
    → includes build_cache_modes mode ≡ true
unfolding normalize_build_cache_mode
normalize_build_cache_mode-mode value legacy allowed mode lines h =
    let word : Text = or_text (normalized value) (if allowed then text "thin" else text "once") in
    let checked : (includes build_cache_modes word ≡ true)
        × ((normalize_legacy_target_cache_mode legacy >>= λ l.
              ok (translated allowed (normalized value) word l))
            ≡ ok (mode, lines)) =
      >>-ok (includes build_cache_modes word) _ _ _ h in
    let (parsed, call, result) =
      >>=-eq-ok (normalize_legacy_target_cache_mode legacy)
        (λ l. ok (translated allowed (normalized value) word l)) checked.1 in
    subst (λ r. includes build_cache_modes r.0 ≡ true) (ok_injective _ _ result)
      (translated-mode allowed (normalized value) word parsed checked.0)

unknown_mode :
    (mode : Text)
    → includes build_cache_modes mode ≡ true
    → (mode == text "once") ≡ false
    → (mode == text "thin") ≡ false
    → (mode == text "full") ≡ false
    → ⊥
unknown_mode mode h o t f = ground (arith, h, o, t, f)

known_budget :
    (mode : Text)
    → includes build_cache_modes mode ≡ true
    → (budget : ℕ × ℕ) × (target_cache_soft_budgets mode ≡ some budget)
unfolding target_cache_soft_budgets
known_budget mode h = elim (Bool-cases (mode == text "once")) [
  | inl o ↦ ((1024 * 1024 * 1024, 8000), rw o refl)
  | inr o ↦ elim (Bool-cases (mode == text "thin")) [
    | inl t ↦ ((512 * 1024 * 1024, 4000), rw (o, t) refl)
    | inr t ↦ elim (Bool-cases (mode == text "full")) [
      | inl f ↦ ((2 * gib, 12000), rw (o, t, f) refl)
      | inr f ↦ absurd (unknown_mode mode h o t f)
    ]
  ]
]

-- No mode has a name that every object inherits.
mode-inherited :
    (mode : Text) → includes build_cache_modes mode ≡ true → includes inherited_names mode ≡ false
unfolding text nat_eq list_eq
mode-inherited mode h = elim (Bool-cases (mode == text "once")) [
  | inl o ↦ ap (includes inherited_names) ((==_iff mode (text "once")).0 o)
  | inr o ↦ elim (Bool-cases (mode == text "thin")) [
    | inl t ↦ ap (includes inherited_names) ((==_iff mode (text "thin")).0 t)
    | inr t ↦ elim (Bool-cases (mode == text "full")) [
      | inl f ↦ ap (includes inherited_names) ((==_iff mode (text "full")).0 f)
      | inr f ↦ absurd (unknown_mode mode h o t f)
    ]
  ]
]

-- The lookup of the soft budget never throws for a mode that the parser of `build-cache-mode` returns,
-- whatever the inputs are: the internal error of `targetCacheSoftBudget` is out of reach.
pub target_cache_soft_budget-normalize_build_cache_mode :
    (enabled allowed : Bool) (value legacy mode : Text) (lines : List Text)
    → normalize_build_cache_mode value legacy allowed ≡ ok (mode, lines)
    → (budget : Text × Text) × (target_cache_soft_budget enabled mode ≡ ok budget)
unfolding target_cache_soft_budget
target_cache_soft_budget-normalize_build_cache_mode false allowed value legacy mode lines h =
    (([], []), refl)
target_cache_soft_budget-normalize_build_cache_mode true allowed value legacy mode lines h =
    let listed : includes build_cache_modes mode ≡ true =
      normalize_build_cache_mode-mode value legacy allowed mode lines h in
    let known : (budget : ℕ × ℕ) × (target_cache_soft_budgets mode ≡ some budget) =
      known_budget mode listed in
    ((decimal known.0.0, decimal known.0.1), rw (mode-inherited mode listed, known.1) refl)

abbrev BoundedLevel : Text → Type 0
BoundedLevel s = (level : ℕ) × (1 ≤ level) × (level ≤ 22) × (s ≡ decimal level) × (value s ≡ level)

level_of : (n : ℕ) → 1 ≤ n → n ≤ 22 → BoundedLevel (decimal n)
level_of n h k = (n, h, k, refl, value-decimal n)

default_level : text "3" ≡ decimal 3
unfolding text decimal
default_level = refl

in_range : (p : Bool × Text) → level_in_range p ≡ true → (1 ≤ value p.1) × (value p.1 ≤ 22)
in_range (negative, digits) h = ground arith

-- A compression level that the parser returns is the decimal text of a number from 1 to 22, and
-- reading the text gives that number back, whatever signs, leading zeros and spaces the input has.
pub normalize_target_cache_compress_level_bounds :
    (input level : Text)
    → normalize_target_cache_compress_level input ≡ ok level
    → BoundedLevel level
unfolding normalize_target_cache_compress_level
normalize_target_cache_compress_level_bounds input level h =
    go (is_empty (trim input)) (level_in_range (signed (trim input))) refl _ h
  where
    go :
        (empty : Bool) (fits : Bool)
        → level_in_range (signed (trim input)) ≡ fits
        → (message : Text)
        → (if empty
            then ok (text "3")
            else if fits
            then ok (decimal (value (signed (trim input)).1))
            else err message)
          ≡ ok level
        → BoundedLevel level
    go true fits e message h =
        subst BoundedLevel (sym default_level ∙ ok_injective _ _ h)
          (level_of 3 (omega arith) (omega arith))
    go false true e message h =
        let bounds : (1 ≤ value (signed (trim input)).1) × (value (signed (trim input)).1 ≤ 22) =
          in_range (signed (trim input)) e in
        subst BoundedLevel (ok_injective _ _ h)
          (level_of (value (signed (trim input)).1) bounds.0 bounds.1)
    go false false e message h = absurd (cc)
