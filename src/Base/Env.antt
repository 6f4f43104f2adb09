-- ===== src/Base/Env.antt =====
-- `process.env`: the variables that are set, in the order of `Object.entries`.
use mathlib.Core.Option.{Option, none, some}
use mathlib.Core.List.{List, [], ◌∷◌}
use mathlib.Core.Path.{◌≡◌}
use mathlib.Core.Bool.{false}
use native.Mathlib.Omega.{arith}
use setup_soldr.Base.Equality.{◌==◌, nat_eq, list_eq, if◌then◌else◌}
use setup_soldr.Base.Text.{Text}

abbrev pub Env : Type 0
Env = List (Text × Text)

-- `env[name]`
unfoldable pub env_get : Env → Text → Option Text
env_get [] name = none
env_get ((k, v) ∷ env) name = let rest = env_get env name in if k == name then some v else rest

-- `env[name] = value`
unfoldable pub env_set : Env → Text → Text → Env
env_set [] name value = (name, value) ∷ []
env_set ((k, v) ∷ env) name value =
    let rest = env_set env name value in if k == name then (name, value) ∷ env else (k, v) ∷ rest

pub env_get-set_other :
    (env : Env) (name other value : Text)
    → (name == other) ≡ false
    → env_get (env_set env name value) other ≡ env_get env other
unfolding env_get env_set
env_get-set_other [] name other value h = ground arith
env_get-set_other ((k, v) ∷ env) name other value h =
    ground (arith, env_get-set_other env name other value h)

pub env_get-set_self :
    (env : Env) (name value : Text) → env_get (env_set env name value) name ≡ some value
unfolding env_get env_set
env_get-set_self [] name value = ground arith
env_get-set_self ((k, v) ∷ env) name value = ground (arith, env_get-set_self env name value)
