-- ===== src/TargetLifecycle/Laws.antt =====
-- What each variable is after the merge.
use setup_soldr.Base.{◌≡◌, refl, ◌∙◌, ap}
use setup_soldr.Base.{Bool, true, false, Option, none, some}
use setup_soldr.Base.{[], ◌∷◌, if◌then◌else◌, ◌==◌, ==_iff}
use setup_soldr.Base.{nat_eq, list_eq, option_eq}
use setup_soldr.Base.Text.{Text}
use setup_soldr.Base.Env.{Env, env_get}
use setup_soldr.Base.Env.{env_set, env_get-set_self, env_get-set_other}
use mathlib.Core.Path.{subst}
use setup_soldr.TargetLifecycle.{merged_value, merge_each, merge_target_environment}

-- No name stands twice.
abbrev pub Distinct : Env → Type 0
Distinct [] = Unit
Distinct ((key, value) ∷ env) = (env_get env key ≡ none) × Distinct env

-- The value of a variable that is planned, and of one that is not.
abbrev pub value_after : Env → Text → Option Text → Option Text
value_after existing key (some value) = some (merged_value key (env_get existing key) value)
value_after existing key none = env_get existing key

get_after : (existing : Env) (key : Text) (o : Option Text) (old : Option Text) → Option Text
get_after existing key none old = old
get_after existing key (some value) old = some (merged_value key (env_get existing key) value)

module _ (existing : Env) (name value : Text) (planned merged : Env)
    (fresh : env_get planned name ≡ none) where
  abbrev later : Env
  later = env_set merged name (merged_value name (env_get existing name) value)

  -- The variable that is merged first keeps its value, and the others are as they were.
  merge_self :
      env_get (merge_each existing planned later) name
        ≡ get_after existing name (env_get planned name) (env_get later name)
      → env_get (merge_each existing planned later) name
        ≡ some (merged_value name (env_get existing name) value)
  unfolding get_after
  merge_self rest =
      rest
      ∙ (ap (λ o. get_after existing name o (env_get later name)) fresh
          ∙ env_get-set_self merged name (merged_value name (env_get existing name) value))

  merge_here :
      (b : Bool) (key : Text)
      → (name == key) ≡ b
      → env_get (merge_each existing planned later) key
        ≡ get_after existing key (env_get planned key) (env_get later key)
      → env_get (merge_each existing planned later) key
        ≡ get_after existing key
            (if b then some value else env_get planned key)
            (env_get merged key)
  unfolding get_after
  merge_here true key e rest =
      subst
        (λ k.
          env_get (merge_each existing planned later) k
            ≡ get_after existing k (env_get planned k) (env_get later k)
          → env_get (merge_each existing planned later) k
            ≡ some (merged_value k (env_get existing k) value))
        ((==_iff name key).0 e) merge_self rest
  merge_here false key e rest =
      rest
      ∙ ap (get_after existing key (env_get planned key))
          (env_get-set_other merged name key (merged_value name (env_get existing name) value) e)

merge_each_lem :
    (existing planned merged : Env) (key : Text)
    → Distinct planned
    → env_get (merge_each existing planned merged) key
      ≡ get_after existing key (env_get planned key) (env_get merged key)
unfolding merge_each get_after env_get
merge_each_lem existing [] merged key d = refl
merge_each_lem existing ((name, value) ∷ planned) merged key (fresh, d) =
    merge_here existing name value planned merged fresh (name == key) key refl
      (merge_each_lem existing planned (later existing name value planned merged fresh) key d)

after_cases :
    (existing : Env) (key : Text) (o : Option Text)
    → get_after existing key o (env_get existing key) ≡ value_after existing key o
unfolding get_after
after_cases existing key none = refl
after_cases existing key (some value) = refl

-- Where no variable is planned twice, the merged environment has for a planned variable the merge of
-- its value with the one that the project gave (both, for flags), and every other variable as the
-- project gave it.
pub merge_target_environment_lem :
    (existing planned : Env) (key : Text)
    → Distinct planned
    → env_get (merge_target_environment existing planned) key
      ≡ value_after existing key (env_get planned key)
unfolding merge_target_environment
merge_target_environment_lem existing planned key d =
    merge_each_lem existing planned existing key d ∙ after_cases existing key (env_get planned key)
