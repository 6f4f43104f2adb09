-- ===== src/TargetLifecycle.antt =====
-- src/lib/target-lifecycle.ts: the operations that a target supports, and the merge of its
-- environment. An object with strings is the list of its entries; path.join is a parameter.
pub mod Laws
pub mod Plan
pub mod Universal
pub mod UniversalLaws
mod Tests
use setup_soldr.Base.{ℕ, ◌+◌, ◌-◌}
use setup_soldr.Base.{Bool, not, ◌&&◌, ◌||◌, Option, none}
use setup_soldr.Base.{List, [], ◌∷◌, ◌++◌, if◌then◌else◌, ltb, ◌==◌}
use setup_soldr.Base.{nat_eq, list_eq, option_eq, includes, length}
use setup_soldr.Base.{get_or, Result, ensure}
use setup_soldr.Base.Json.{Fields}
use setup_soldr.Base.Text.{Text, text, trim, starts_with, ends_with, join, or_text}
use setup_soldr.Base.Text.{is_empty}
use setup_soldr.Base.Env.{Env, env_get}
use setup_soldr.Base.Env.{env_set}

pub record TargetLifecycleContract : Type 0 where
  pub schema_version : ℕ
  pub canonical_target : Text
  pub cache_identity : Text
  pub supported_operations : List Text
  pub environment : Env
  pub toolchain : Fields
  pub platform : Fields

unfoldable pub assert_target_operation_supported :
    TargetLifecycleContract → Text → Result (Unit {0})
unfolding trim join text
assert_target_operation_supported contract operation =
    let requested = trim operation in
    let supported = contract.supported_operations in
    let reported = if ltb 0 (length supported) then join (text ", ") supported else text "none" in
    ensure (is_empty requested || includes supported requested) (
      text "Soldr target plan for "
      ++ (contract.canonical_target
          ++ (text " does not support requested operation '"
              ++ (requested ++ (text "'; reported: " ++ reported)))))

unfoldable pub is_mergeable_flag : Text → Bool
unfolding starts_with ends_with text
is_mergeable_flag key =
    key == text "RUSTFLAGS"
    || ends_with key (text "_RUSTFLAGS")
    || starts_with key (text "CFLAGS_")
    || starts_with key (text "CXXFLAGS_")
    || starts_with key (text "LDFLAGS_")
    || ends_with key (text "_CFLAGS")
    || ends_with key (text "_CXXFLAGS")
    || ends_with key (text "_LDFLAGS")

-- What a planned variable becomes.
unfoldable pub merged_value : Text → Option Text → Text → Text
unfolding is_mergeable_flag trim text
merged_value key existing planned =
    let prior = trim (get_or existing []) in
    let next = trim planned in
    if is_mergeable_flag key && not (is_empty prior) && not (is_empty next)
    then prior ++ (text " " ++ next)
    else or_text next prior

unfoldable pub merge_each : Env → Env → Env → Env
unfolding merged_value env_set env_get
merge_each existing [] merged = merged
merge_each existing ((key, value) ∷ planned) merged =
    merge_each existing planned (env_set merged key (merged_value key (env_get existing key) value))

unfoldable pub merge_target_environment : Env → Env → Env
unfolding merge_each
merge_target_environment existing planned = merge_each existing planned existing

pub record TargetHooks : Type 0 where
  pub build : Text
  pub clippy : Text
  pub test_no_run : Text
  pub pep517_wheel : Text
  pub pep517_sdist : Text

unfoldable pub build_target_hooks : Text → TargetHooks
unfolding trim text
build_target_hooks target =
    let canonical = trim target in
    record {
      build = text "soldr build --target " ++ canonical;
      clippy = text "soldr cargo clippy --target " ++ canonical;
      test_no_run = text "soldr cargo test --no-run --target " ++ canonical;
      pep517_wheel = text "python -m build --wheel";
      pep517_sdist = text "python -m build --sdist";
    }

pub record TargetOperationOutputs : Type 0 where
  pub hooks : TargetHooks
  pub artifact_directory : Text

unfoldable pub target_artifact_directory : (List Text → Text) → Text → Text → Text
unfolding text
target_artifact_directory path_join workspace target =
    path_join (workspace ∷ text "target" ∷ target ∷ [])

unfoldable pub build_target_operation_outputs :
    (List Text → Text) → Text → TargetLifecycleContract → TargetOperationOutputs
unfolding build_target_hooks target_artifact_directory text
build_target_operation_outputs path_join workspace contract =
    let hooks = build_target_hooks contract.canonical_target in
    let when : Text → Text → Text =
      λ operation hook. if includes contract.supported_operations operation then hook else [] in
    record {
      hooks = record {
        build = when (text "build") hooks.build;
        clippy = when (text "clippy") hooks.clippy;
        test_no_run = when (text "test-no-run") hooks.test_no_run;
        pep517_wheel = when (text "pep517-wheel") hooks.pep517_wheel;
        pep517_sdist = when (text "pep517-sdist") hooks.pep517_sdist;
      };
      artifact_directory =
          when (text "build")
            (target_artifact_directory path_join workspace contract.canonical_target);
    }
