-- ===== src/CacheKeys/TargetEnv.antt =====
-- `targetEnvHash` of src/lib/cache-keys.ts: the variables that its hash depends on.
use setup_soldr.Base.{◌≡◌, refl, sym, ◌∙◌, ap}
use setup_soldr.Base.{◌↔◌, ◌⊎◌, inl, inr, Bool, true, false, ◌&&◌, ◌||◌, Option, none}
use setup_soldr.Base.{List, [], ◌∷◌, ◌++◌, arith, if◌then◌else◌, ==_iff}
use setup_soldr.Base.{nat_eq, list_eq, option_eq, take}
use setup_soldr.Base.Text.{Text, text}
use setup_soldr.Base.Env.{Env, env_get}
use setup_soldr.Base.Affix.{starts_with_iff, ends_with_iff}
use setup_soldr.CacheKeys.Canonical.{
  canonical_json_stringify, record_value, is_target_variable, relevant, short_json_hash,
  target_env_hash, Chunk,
}
use setup_soldr.CacheKeys.Records.{IsRecord, Agree, env_get-filter, IsRecord-filter}
use setup_soldr.CacheKeys.Hashes.{NoCollision, canonical_json_stringify_iff_Agree}

-- The variables that bear on the target: four by name, and those of the flags of one target.
abbrev pub IsTargetVariable : Text → Type 0
IsTargetVariable name =
    ((((name ≡ text "CARGO_BUILD_TARGET") ⊎ (name ≡ text "CARGO_ENCODED_RUSTFLAGS"))
        ⊎ (name ≡ text "CARGO_TARGET_DIR"))
      ⊎ (name ≡ text "RUSTFLAGS"))
    ⊎ (((rest : Text) × (name ≡ text "CARGO_TARGET_" ++ rest))
        × ((front : Text) × (name ≡ front ++ text "_RUSTFLAGS")))

either_iff :
    (a b : Bool) {A B : Type 0} → (a ≡ true) ↔ A → (b ≡ true) ↔ B → ((a || b) ≡ true) ↔ (A ⊎ B)
either_iff true b f g = (λ h. inl (f.0 refl), λ h. refl)
either_iff false b f g =
    (λ h. inr (g.0 h), λ h. elim h [ inl x ↦ absurd (let t = f.1 x in cc) | inr y ↦ g.1 y ])

both_iff :
    (a b : Bool) {A B : Type 0} → (a ≡ true) ↔ A → (b ≡ true) ↔ B → ((a && b) ≡ true) ↔ (A × B)
both_iff true b f g = (λ h. (f.0 refl, g.0 h), λ h. g.1 h.1)
both_iff false b f g = (λ h. cc, λ h. f.1 h.0)

is_target_variable_iff : (name : Text) → (is_target_variable name ≡ true) ↔ IsTargetVariable name
unfolding is_target_variable
is_target_variable_iff name =
    either_iff _ _
      (either_iff _ _
        (either_iff _ _
          (either_iff _ _ (==_iff name (text "CARGO_BUILD_TARGET"))
            (==_iff name (text "CARGO_ENCODED_RUSTFLAGS")))
          (==_iff name (text "CARGO_TARGET_DIR")))
        (==_iff name (text "RUSTFLAGS")))
      (both_iff _ _ (starts_with_iff name (text "CARGO_TARGET_"))
        (ends_with_iff name (text "_RUSTFLAGS")))

-- Two environments give the variables that bear on the target the same values.
abbrev pub AgreeOnTarget : Env → Env → Type 0
AgreeOnTarget a b = (name : Text) → IsTargetVariable name → env_get a name ≡ env_get b name

relevant_iff : (a b : Env) → Agree (relevant a) (relevant b) ↔ AgreeOnTarget a b
unfolding relevant
relevant_iff a b = (
  λ e name v.
      let t : is_target_variable name ≡ true = (is_target_variable_iff name).1 v in
      let found : (if is_target_variable name then env_get a name else none)
          ≡ (if is_target_variable name then env_get b name else none) =
        sym (env_get-filter is_target_variable a name)
        ∙ (e name ∙ env_get-filter is_target_variable b name) in
      ground (arith, found, t),
  λ e name.
      env_get-filter is_target_variable a name
      ∙ (chosen (is_target_variable name) (λ t. e name ((is_target_variable_iff name).0 t))
          ∙ sym (env_get-filter is_target_variable b name)),
)
  where
    chosen :
        (t : Bool) {o p : Option Text}
        → (t ≡ true → o ≡ p)
        → (if t then o else none) ≡ (if t then p else none)
    chosen true h = h refl
    chosen false h = refl

abbrev pub target_text : Env → Text
target_text env = canonical_json_stringify (record_value (relevant env))

-- For two environments with distinct names, and a digest that does not confuse the two texts it is
-- given: the hashes of the target environments are equal if and only if each of `CARGO_BUILD_TARGET`,
-- `CARGO_ENCODED_RUSTFLAGS`, `CARGO_TARGET_DIR`, `RUSTFLAGS` and the names that start with
-- `CARGO_TARGET_` and end with `_RUSTFLAGS` has the same value in both, or is absent in both. So the
-- order of the variables and all other variables never change the hash, and each of these does.
pub target_env_hash_iff_AgreeOnTarget :
    (sha256 : List Chunk → Text) (a b : Env)
    → IsRecord a
    → IsRecord b
    → NoCollision sha256 (target_text a) (target_text b)
    → (target_env_hash sha256 a ≡ target_env_hash sha256 b) ↔ AgreeOnTarget a b
unfolding target_env_hash short_json_hash
target_env_hash_iff_AgreeOnTarget sha256 a b r s distinct =
    let same : (target_text a ≡ target_text b) ↔ Agree (relevant a) (relevant b) =
      canonical_json_stringify_iff_Agree (relevant a) (relevant b)
        (unfold relevant in IsRecord-filter is_target_variable a r)
        (unfold relevant in IsRecord-filter is_target_variable b s) in
    let agree : Agree (relevant a) (relevant b) ↔ AgreeOnTarget a b = relevant_iff a b in
    (
      λ e. agree.0 (same.0 (distinct e)),
      λ e. ap (λ t. take 16 (sha256 (Chunk.utf8 t ∷ []))) (same.1 (agree.1 e)),
    )
