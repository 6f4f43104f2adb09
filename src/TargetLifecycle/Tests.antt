-- ===== src/TargetLifecycle/Tests.antt =====
-- A merge of flags.
use setup_soldr.Base.{◌≡◌, refl}
use setup_soldr.Base.{List, [], ◌∷◌, true, All, ok}
use setup_soldr.Base.Json.{Fields}
use setup_soldr.Base.Sort.{compare_text}
use setup_soldr.TargetLifecycle.Universal.{
  Contract, is_packaging, universal_of, build_universal2_target_contract,
}
use setup_soldr.TargetLifecycle.UniversalLaws.{Supports, build_universal2_target_contract-Supports}
use setup_soldr.Base.{nat_eq, list_eq, option_eq}
use setup_soldr.Base.Text.{Text, text}
use setup_soldr.Base.Env.{Env, env_get}
use setup_soldr.TargetLifecycle.{merge_target_environment}
use setup_soldr.TargetLifecycle.Laws.{Distinct}

abbrev project : Env
project = (text "RUSTFLAGS", text "-g") ∷ (text "CC", text "clang") ∷ []

abbrev plan : Env
plan = (text "RUSTFLAGS", text " -O") ∷ []

distinct : Distinct plan
unfolding env_get
distinct = (refl, tt)

merges :
    merge_target_environment project plan
    ≡ (text "RUSTFLAGS", text "-g -O") ∷ (text "CC", text "clang") ∷ []
unfolding merge_target_environment text nat_eq list_eq
merges = refl

abbrev apple : Text → List Text → Contract
apple target operations = record {
  schema_version = 1;
  canonical_target = target;
  cache_identity = target;
  supported_operations = operations;
  environment = [];
  toolchain = Fields.end;
  platform = Fields.end;
}

abbrev intel : Contract
intel = apple (text "x86_64-apple-darwin") (text "prepare" ∷ text "build" ∷ [])

abbrev arm : Contract
arm = apple (text "aarch64-apple-darwin") (text "build" ∷ text "prepare" ∷ [])

aggregates :
    build_universal2_target_contract compare_text (intel ∷ arm ∷ []) ≡ ok (universal_of arm intel)
unfolding build_universal2_target_contract compare_text text nat_eq list_eq
aggregates = refl

prepares : Supports (text "prepare") (universal_of arm intel)
unfolding is_packaging text nat_eq list_eq
prepares = refl

build_universal2_target_contract-Supports_example :
    (is_packaging (text "prepare") ≡ true) × All (Supports (text "prepare")) (intel ∷ arm ∷ [])
build_universal2_target_contract-Supports_example =
    build_universal2_target_contract-Supports compare_text (intel ∷ arm ∷ [])
      (universal_of arm intel) (text "prepare") aggregates prepares
