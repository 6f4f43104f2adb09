-- ===== src/Verdict/Scope.antt =====
-- `manifestScope` of src/lib/verdict-cache.ts: one job's identity across runs. SHA-256, in hex, is a
-- parameter.
use setup_soldr.Base.{◌≡◌, refl, sym, ◌∙◌, ap}
use setup_soldr.Base.{◌⊎◌, inl, inr, arith}
use setup_soldr.Base.{Bool, true, false, not, ◌&&◌, ◌||◌, Option}
use setup_soldr.Base.{List, [], ◌∷◌, ◌++◌, map, if◌then◌else◌, ◌==◌, ==_iff}
use setup_soldr.Base.{nat_eq, list_eq, option_eq, take}
use setup_soldr.Base.{filter, get_or, All}
use setup_soldr.Base.Text.{Text, text, starts_with, join}
use setup_soldr.Base.Text.{contains_text}
use setup_soldr.Base.Env.{Env, env_get}
use setup_soldr.Base.{All-filter}
use setup_soldr.Base.Env.{env_set, env_get-set_other}
use setup_soldr.Base.Sort.{compare_text, sort, All-sort}
use setup_soldr.Base.Span.{span}
use setup_soldr.Base.Affix.{starts_with_iff, contains_text-middle}

-- `replace(/@.*$/, "")` of a text of one line.
unfoldable pub without_ref : Text → Text
unfolding span
without_ref s = (span (λ c. not (c == b'@')) s).0

-- The inputs that go into the scope.
unfoldable pub is_scope_input : Text → Bool
unfolding starts_with contains_text text
is_scope_input name =
    starts_with name (text "INPUT_")
    && not (
        contains_text name (text "TOKEN")
        || contains_text name (text "SECRET")
        || contains_text name (text "PASSWORD"))

-- `Object.keys(env).filter(...).sort()`
unfoldable pub scope_names : Env → List Text
unfolding is_scope_input sort compare_text
scope_names env = sort compare_text (filter is_scope_input (map (λ e. e.0) env))

abbrev pub env_or_empty : Env → Text → Text
env_or_empty env name = get_or (env_get env name) []

-- The text that is hashed, of the variables and the rows of the inputs.
unfoldable pub material_from :
    Option Text → Option Text → Option Text → Option Text → Option Text → List Text → Text
unfolding join without_ref text
material_from workflow_ref workflow job os arch inputs = join (text "\n") (
    without_ref (get_or workflow_ref (get_or workflow []))
    ∷ get_or job []
    ∷ get_or os []
    ∷ get_or arch []
    ∷ inputs)

unfoldable pub scope_material : Env → Text
unfolding material_from scope_names text
scope_material env =
    material_from (env_get env (text "GITHUB_WORKFLOW_REF")) (env_get env (text "GITHUB_WORKFLOW"))
      (env_get env (text "GITHUB_JOB")) (env_get env (text "RUNNER_OS"))
      (env_get env (text "RUNNER_ARCH"))
      (map (λ name. name ++ (text "=" ++ env_or_empty env name)) (scope_names env))

module _ (sha256_hex : Text → Text) where
  unfoldable pub manifest_scope : Env → Text
  unfolding scope_material
  manifest_scope env = take 16 (sha256_hex (scope_material env))

-- A name that is not the secret input.
other_name :
    (name other : Text) (p : Text → Bool)
    → p name ≡ true
    → p other ≡ false
    → (name == other) ≡ false
other_name name other p h k = differ (name == other) refl
  where
    differ : (b : Bool) → (name == other) ≡ b → b ≡ false
    differ true e =
        let same : name ≡ other = (==_iff name other).0 e in
        absurd (let t : true ≡ false = sym h ∙ (ap p same ∙ k) in cc)
    differ false e = refl

material_same :
    {a b c d e a' b' c' d' e' : Option Text} {xs ys : List Text}
    → a ≡ a'
    → b ≡ b'
    → c ≡ c'
    → d ≡ d'
    → e ≡ e'
    → xs ≡ ys
    → material_from a b c d e xs ≡ material_from a' b' c' d' e' ys
material_same p q r s t u = cc

module _ (name value : Text) (input : starts_with name (text "INPUT_") ≡ true)
    (secret : is_scope_input name ≡ false) where
  filter_here :
      (b : Bool) (k v : Text) (env : Env)
      → (k == name) ≡ b
      → filter is_scope_input (map (λ e. e.0) (env_set env name value))
        ≡ filter is_scope_input (map (λ e. e.0) env)
      → filter is_scope_input
          (map (λ e. e.0) (if b then (name, value) ∷ env else (k, v) ∷ env_set env name value))
        ≡ filter is_scope_input (map (λ e. e.0) ((k, v) ∷ env))
  filter_here true k v env e h =
      ap (λ x. filter is_scope_input (x ∷ map (λ e. e.0) env)) (sym ((==_iff k name).0 e))
  filter_here false k v env e h = ap (λ rest. if is_scope_input k then k ∷ rest else rest) h

  filter_names :
      (env : Env)
      → filter is_scope_input (map (λ e. e.0) (env_set env name value))
        ≡ filter is_scope_input (map (λ e. e.0) env)
  unfolding env_set
  filter_names [] = rw secret refl
  filter_names ((k, v) ∷ env) = filter_here (k == name) k v env refl (filter_names env)

  abbrev later : Env → Env
  later env = env_set env name value

  same_value :
      (env : Env) (other : Text)
      → starts_with other (text "INPUT_") ≡ false
      → env_get (later env) other ≡ env_get env other
  same_value env other h =
      env_get-set_other env name other value
        (other_name name other (λ n. starts_with n (text "INPUT_")) input h)

  same_input :
      (env : Env) (other : Text)
      → is_scope_input other ≡ true
      → env_or_empty (later env) other ≡ env_or_empty env other
  same_input env other h =
      ap (λ o. get_or o [])
        (env_get-set_other env name other value
          (other_name name other (λ n. not (is_scope_input n)) (rw secret refl) (rw h refl)))

  same_rows :
      (env : Env) (names : List Text)
      → All (λ n. is_scope_input n ≡ true) names
      → map (λ n. n ++ (text "=" ++ env_or_empty (later env) n)) names
        ≡ map (λ n. n ++ (text "=" ++ env_or_empty env n)) names
  same_rows env [] h = refl
  same_rows env (n ∷ names) (p, h) = rw (same_input env n p, same_rows env names h) refl

  names-IsInput : (env : Env) → All (λ n. is_scope_input n ≡ true) (scope_names env)
  unfolding scope_names
  names-IsInput env =
      All-sort compare_text (λ n. is_scope_input n ≡ true)
        (filter is_scope_input (map (λ e. e.0) env))
        (All-filter is_scope_input (map (λ e. e.0) env))

  same_names : (env : Env) → scope_names (later env) ≡ scope_names env
  unfolding scope_names
  same_names env = ap (sort compare_text) (filter_names env)

  same_material : (env : Env) → scope_material (later env) ≡ scope_material env
  unfolding scope_material text starts_with nat_eq
  same_material env =
      material_same (same_value env (text "GITHUB_WORKFLOW_REF") refl)
        (same_value env (text "GITHUB_WORKFLOW") refl) (same_value env (text "GITHUB_JOB") refl)
        (same_value env (text "RUNNER_OS") refl) (same_value env (text "RUNNER_ARCH") refl)
        (ap (map (λ n. n ++ (text "=" ++ env_or_empty (later env) n))) (same_names env)
          ∙ same_rows env (scope_names env) (names-IsInput env))

-- The words that make a name one of a secret.
abbrev pub IsSecretWord : Text → Type 0
IsSecretWord word = (word ≡ text "TOKEN") ⊎ ((word ≡ text "SECRET") ⊎ (word ≡ text "PASSWORD"))

secret_name :
    (name before word after : Text)
    → IsSecretWord word
    → name ≡ before ++ (word ++ after)
    → is_scope_input name ≡ false
unfolding is_scope_input
secret_name name before word after w e =
    let found : contains_text name word ≡ true =
      ap (λ n. contains_text n word) e ∙ contains_text-middle before word after in
    elim w [
      | inl t ↦
          (let here : contains_text name (text "TOKEN") ≡ true =
              ap (contains_text name) (sym t) ∙ found in
            ground arith)
      | inr (inl t) ↦
          (let here : contains_text name (text "SECRET") ≡ true =
              ap (contains_text name) (sym t) ∙ found in
            ground arith)
      | inr (inr t) ↦
          (let here : contains_text name (text "PASSWORD") ≡ true =
              ap (contains_text name) (sym t) ∙ found in
            ground arith)
    ]

-- A new value of an input, of a name that starts with `INPUT_` and has `TOKEN`, `SECRET` or `PASSWORD`
-- anywhere in it, leaves the scope of the job as it is, also where the input had no value.
pub manifest_scope-env_set :
    (sha256_hex : Text → Text) (name rest before word after value : Text)
    → name ≡ text "INPUT_" ++ rest
    → IsSecretWord word
    → name ≡ before ++ (word ++ after)
    → (env : Env)
    → manifest_scope sha256_hex (env_set env name value) ≡ manifest_scope sha256_hex env
unfolding manifest_scope
manifest_scope-env_set sha256_hex name rest before word after value input w e env =
    ap (λ m. take 16 (sha256_hex m))
      (same_material name value ((starts_with_iff name (text "INPUT_")).1 (rest, input))
        (secret_name name before word after w e) env)
