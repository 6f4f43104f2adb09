-- ===== src/TargetLifecycle/Universal.antt =====
-- src/lib/target-lifecycle.ts: two plans of Apple targets as one for packaging. The order of
-- `localeCompare` is a parameter.
use setup_soldr.Base.{ℕ}
use setup_soldr.Base.{Bool, ◌&&◌, ◌||◌}
use setup_soldr.Base.{List, [], ◌∷◌, ◌++◌, if◌then◌else◌, ltb, ◌==◌}
use setup_soldr.Base.{nat_eq, list_eq, option_eq, includes}
use setup_soldr.Base.{filter, all, Result, ok, err}
use setup_soldr.Base.Text.{Text, text}
use setup_soldr.Base.Env.{Env}
use setup_soldr.Base.Json.{Json, Items, Fields}
use Prim.Native.Nat.{Ordering}
use setup_soldr.Base.Env.{env_set}
use setup_soldr.Base.Sort.{sort}
use setup_soldr.TargetLifecycle.{TargetLifecycleContract}

abbrev pub Contract : Type 0
Contract = TargetLifecycleContract

-- `filter` of the operations of the first that every contract supports.
abbrev pub supported_by_all : List Contract → Text → Bool
supported_by_all contracts operation =
    all (λ c. includes c.supported_operations operation) contracts

unfoldable pub is_packaging : Text → Bool
unfolding text
is_packaging operation =
    operation == text "prepare"
    || operation == text "pep517-wheel"
    || operation == text "pep517-sdist"

-- `Object.assign({}, ...environments)`
unfoldable pub assign : Env → Env → Env
unfolding env_set
assign target [] = target
assign target ((k, v) ∷ source) = assign (env_set target k v) source

abbrev pub items_of : List Text → Items
items_of [] = Items.nil
items_of (s ∷ ss) = Items.cons (Json.str s) (items_of ss)

abbrev pub real_toolchain : Contract → Json
real_toolchain c = Json.obj (
    Fields.field (text "canonicalTarget") (Json.str c.canonical_target) (
      Fields.field (text "cacheIdentity") (Json.str c.cache_identity) (
        Fields.field (text "supportedOperations") (Json.arr (items_of c.supported_operations))
          (Fields.field (text "toolchain") (Json.obj c.toolchain) Fields.end))))

abbrev pub real_platform : Contract → Json
real_platform c = Json.obj (
    Fields.field (text "canonicalTarget") (Json.str c.canonical_target)
      (Fields.field (text "platform") (Json.obj c.platform) Fields.end))

abbrev pub max : ℕ → ℕ → ℕ
max a b = if ltb a b then b else a

abbrev pub universal_of : Contract → Contract → Contract
universal_of first second = record {
  schema_version = max first.schema_version second.schema_version;
  canonical_target = text "universal2-apple-darwin";
  cache_identity =
      text "universal2/" ++ (first.cache_identity ++ (text "+" ++ second.cache_identity));
  supported_operations =
      filter is_packaging
        (filter (supported_by_all (first ∷ second ∷ [])) first.supported_operations);
  environment = assign (assign [] first.environment) second.environment;
  toolchain = Fields.field (text "family") (Json.str (text "apple-universal2-packaging")) (
      Fields.field (text "realTargets")
        (Json.arr
          (Items.cons (real_toolchain first) (Items.cons (real_toolchain second) Items.nil)))
        Fields.end);
  platform = Fields.field (text "kind") (Json.str (text "apple-universal2-packaging")) (
      Fields.field (text "realTargets")
        (Json.arr (Items.cons (real_platform first) (Items.cons (real_platform second) Items.nil)))
        Fields.end);
}

unfoldable pub wants_both : Text
unfolding text
wants_both =
    text
      "universal2-apple-darwin requires target plans for aarch64-apple-darwin and x86_64-apple-darwin"

-- The sorted contracts: exactly two, of the two targets in their order.
unfoldable pub aggregate : List Contract → Result Contract
unfolding wants_both is_packaging assign text
aggregate (first ∷ second ∷ []) =
    if first.canonical_target == text "aarch64-apple-darwin"
      && second.canonical_target == text "x86_64-apple-darwin"
    then ok (universal_of first second)
    else err wants_both
aggregate contracts = err wants_both

unfoldable pub build_universal2_target_contract :
    (Text → Text → Ordering) → List Contract → Result Contract
unfolding aggregate sort
build_universal2_target_contract locale_compare contracts =
    aggregate (sort (λ a b. locale_compare a.canonical_target b.canonical_target) contracts)
