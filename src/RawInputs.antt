-- ===== src/RawInputs.antt =====
-- src/lib/raw-inputs.ts: the inputs of the action, read from the environment.
mod Tests
use setup_soldr.Base.{◌-◌}
use setup_soldr.Base.{◌&&◌, Option, none, some}
use setup_soldr.Base.{List, [], ◌++◌, map, if◌then◌else◌, leb, Eq, ◌==◌}
use setup_soldr.Base.{nat_eq, list_eq, option_eq}
use setup_soldr.Base.{get_or}
use setup_soldr.Base.Text.{Text, text}
use setup_soldr.Base.Env.{Env, env_get}

-- `toUpperCase` of a name in ASCII.
unfoldable pub to_upper : Text → Text
to_upper s = map (λ c. if leb b'a' c && leb c b'z' then c - 32 else c) s

-- `replace(/-/g, "_")`
unfoldable pub underscored : Text → Text
underscored s = map (λ c. if c == b'-' then b'_' else c) s

abbrev pub or_else : Option Text → Option Text → Option Text
or_else none b = b
or_else (some a) b = some a

-- `get(kebab)`, for a name without spaces: a variable that is set to nothing counts as set.
unfoldable pub get_input : Env → Text → Text
unfolding to_upper underscored env_get text
get_input env kebab =
    get_or
      (or_else (env_get env (text "INPUT_" ++ to_upper kebab))
        (env_get env (text "INPUT_" ++ underscored (to_upper kebab))))
      []

pub record RawInputs : Type 0 where
  pub enable : Text
  pub version : Text
  pub repo : Text
  pub ref : Text
  pub source_path : Text
  pub cache : Text
  pub cache_dir : Text
  pub cache_key_suffix : Text
  pub key : Text
  pub auto_key : Text
  pub auto_key_trusted_writers : Text
  pub cache_preset : Text
  pub toolchain : Text
  pub toolchain_file : Text
  pub trust_mode : Text
  pub linker : Text
  pub compile_priority : Text
  pub timestamps : Text
  pub timestamp_format : Text
  pub lockfile : Text
  pub build_cache : Text
  pub build_cache_mode : Text
  pub zccache_seed_strict : Text
  pub target_cache : Text
  pub target_cache_mode : Text
  pub target_dir : Text
  pub target_cache_profile : Text
  pub target_cache_strip_debuginfo : Text
  pub target_cache_include_incremental : Text
  pub target_cache_include_build_script_binaries : Text
  pub target_cache_compress : Text
  pub target_cache_compress_level : Text
  pub cache_payload_warn_bytes : Text
  pub cache_payload_max_bytes : Text
  pub cache_payload_oversize_action : Text
  pub cache_payload_top_n : Text
  pub cache_encrypt_key : Text
  pub cache_encrypt_on_failure : Text
  pub source_mtime_normalize : Text
  pub cargo_registry_cache : Text
  pub compile_cache_stats : Text
  pub shims : Text
  pub stats : Text
  pub debug_mode : Text
  pub cache_shutdown_on_idle : Text
  pub rust_backtrace : Text
  pub logging : Text
  pub preserve_source_mtimes : Text
  pub solo_toolchain_cache : Text
  pub solo_toolchain_cache_level : Text
  pub cache_eviction_policy : Text
  pub prebuild_deps : Text
  pub prebuild_deps_flags : Text
  pub prebuild_deps_delta_cache : Text
  pub cook_delta : Text
  pub soldr_mini_cache : Text
  pub verdicts : Text
  pub ci_tests : Text
  pub dylint : Text
  pub dylint_foundation_cache : Text
  pub dylint_output_cache : Text
  pub dylint_cache : Text
  pub dylint_toolchain : Text
  pub dylint_driver_rev : Text
  pub cargo_dylint_version : Text
  pub dylint_link_version : Text
  pub dylint_cache_paths : Text
  pub dylint_targets : Text
  pub journal_print_raw : Text
  pub cross_targets : Text
  pub verify_compile_cache : Text
  pub seed_isolated_build_cache : Text
  pub build_cache_save_min_compiles : Text
  pub target_cache_save_min_compiles : Text
  pub job_status : Text
  pub save_on_failure : Text

unfoldable pub read_raw_inputs : Env → RawInputs
unfolding get_input text
read_raw_inputs env = record {
  enable = get_input env (text "enable");
  version = get_input env (text "version");
  repo = get_input env (text "repo");
  ref = get_input env (text "ref");
  source_path = get_input env (text "source-path");
  cache = get_input env (text "cache");
  cache_dir = get_input env (text "cache-dir");
  cache_key_suffix = get_input env (text "cache-key-suffix");
  key = get_input env (text "key");
  auto_key = get_input env (text "auto-key");
  auto_key_trusted_writers = get_input env (text "auto-key-trusted-writers");
  cache_preset = get_input env (text "cache-preset");
  toolchain = get_input env (text "toolchain");
  toolchain_file = get_input env (text "toolchain-file");
  trust_mode = get_input env (text "trust-mode");
  linker = get_input env (text "linker");
  compile_priority = get_input env (text "compile-priority");
  timestamps = get_input env (text "timestamps");
  timestamp_format = get_input env (text "timestamp-format");
  lockfile = get_input env (text "lockfile");
  build_cache = get_input env (text "build-cache");
  build_cache_mode = get_input env (text "build-cache-mode");
  zccache_seed_strict = get_input env (text "zccache-seed-strict");
  target_cache = get_input env (text "target-cache");
  target_cache_mode = get_input env (text "target-cache-mode");
  target_dir = get_input env (text "target-dir");
  target_cache_profile = get_input env (text "target-cache-profile");
  target_cache_strip_debuginfo = get_input env (text "target-cache-strip-debuginfo");
  target_cache_include_incremental = get_input env (text "target-cache-include-incremental");
  target_cache_include_build_script_binaries =
      get_input env (text "target-cache-include-build-script-binaries");
  target_cache_compress = get_input env (text "target-cache-compress");
  target_cache_compress_level = get_input env (text "target-cache-compress-level");
  cache_payload_warn_bytes = get_input env (text "cache-payload-warn-bytes");
  cache_payload_max_bytes = get_input env (text "cache-payload-max-bytes");
  cache_payload_oversize_action = get_input env (text "cache-payload-oversize-action");
  cache_payload_top_n = get_input env (text "cache-payload-top-n");
  cache_encrypt_key = get_input env (text "cache-encrypt-key");
  cache_encrypt_on_failure = get_input env (text "cache-encrypt-on-failure");
  source_mtime_normalize = get_input env (text "source-mtime-normalize");
  cargo_registry_cache = get_input env (text "cargo-registry-cache");
  compile_cache_stats = get_input env (text "compile-cache-stats");
  shims = get_input env (text "shims");
  stats = get_input env (text "stats");
  debug_mode = get_input env (text "debug");
  cache_shutdown_on_idle = get_input env (text "cache-shutdown-on-idle");
  rust_backtrace = get_input env (text "rust-backtrace");
  logging = get_input env (text "logging");
  preserve_source_mtimes = get_input env (text "preserve-source-mtimes");
  solo_toolchain_cache = get_input env (text "solo-toolchain-cache");
  solo_toolchain_cache_level = get_input env (text "solo-toolchain-cache-level");
  cache_eviction_policy = get_input env (text "cache-eviction-policy");
  prebuild_deps = get_input env (text "prebuild-deps");
  prebuild_deps_flags = get_input env (text "prebuild-deps-flags");
  prebuild_deps_delta_cache = get_input env (text "prebuild-deps-delta-cache");
  cook_delta = get_input env (text "cook-delta");
  soldr_mini_cache = get_input env (text "soldr-mini-cache");
  verdicts = get_input env (text "verdicts");
  ci_tests = get_input env (text "ci-tests");
  dylint = get_input env (text "dylint");
  dylint_foundation_cache = get_input env (text "dylint-foundation-cache");
  dylint_output_cache = get_input env (text "dylint-output-cache");
  dylint_cache = get_input env (text "dylint-cache");
  dylint_toolchain = get_input env (text "dylint-toolchain");
  dylint_driver_rev = get_input env (text "dylint-driver-rev");
  cargo_dylint_version = get_input env (text "cargo-dylint-version");
  dylint_link_version = get_input env (text "dylint-link-version");
  dylint_cache_paths = get_input env (text "dylint-cache-paths");
  dylint_targets = get_input env (text "dylint-targets");
  journal_print_raw = get_input env (text "journal-print-raw");
  cross_targets = get_input env (text "cross-targets");
  verify_compile_cache = get_input env (text "verify-compile-cache");
  seed_isolated_build_cache = get_input env (text "seed-isolated-build-cache");
  build_cache_save_min_compiles = get_input env (text "build-cache-save-min-compiles");
  target_cache_save_min_compiles = get_input env (text "target-cache-save-min-compiles");
  job_status = get_input env (text "job-status");
  save_on_failure = get_input env (text "save-on-failure");
}
