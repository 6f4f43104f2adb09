-- ===== src/DeferredCook/Plan.antt =====
-- src/lib/deferred-cook.ts: the gate of a deferred cook, the shape of its build, and the plan for a commit.
use setup_soldr.Base.{Bool, not, ◌&&◌, Option, none, some}
use setup_soldr.Base.{List, [], ◌∷◌, ◌++◌, map, if◌then◌else◌, ◌==◌}
use setup_soldr.Base.{nat_eq, list_eq, option_eq}
use setup_soldr.Base.{Result, ok, err}
use setup_soldr.Base.{◌>>=◌}
use setup_soldr.Base.Text.{Text, text, trim, to_lower, join, or_text}
use setup_soldr.Base.Text.{is_empty}
use setup_soldr.Base.Env.{Env}
use setup_soldr.CookCache.{
  CookCacheKeyParts, CookGate, build_cook_cache_key, build_cook_base_cache_key,
  build_cook_delta_cache_key,
}
use setup_soldr.CookCache.{
  build_cook_delta_cache_restore_prefix, supports_layered_cook_cache, decide_cook_gate,
  hash_cook_build_shape,
}
use setup_soldr.CookCache.Flags.{hash_cook_flags, canonicalize_cook_flags}
use setup_soldr.CacheKeys.Canonical.{target_env_hash}
use setup_soldr.CacheKeys.Manifests.{workspace_manifest_hash, cargo_config_hash}
use setup_soldr.CacheKeys.Paths.{short_file_hash, resolve_lockfile_path}
use setup_soldr.CacheKeys.Quote.{quote}
use setup_soldr.LocalProfile.{
  CacheProfileFixedKnob, CacheProfileKnob, cache_profile_default, is_local_runner,
}
use setup_soldr.DeferredCook.{
  DeferredCookInputs, CookHost, DeferredCookEnabledPlan, DeferredCookPlan, resolve_workspace_path,
  target_dir_fallback, parse_cook_flags,
}

-- The hash of the manifests. The walk always ends.
abbrev pub ended : Option (Result Text) → Result Text
ended none = err []
ended (some result) = result

abbrev pub shape_text : Text → Text → Text → Text → List Text → Text
shape_text manifest config target_env target_dir flags =
    text "{\"manifest\":"
    ++ (quote manifest
        ++ (text ",\"cargo_config\":"
            ++ (quote config
                ++ (text ",\"target_env\":"
                    ++ (quote target_env
                        ++ (text ",\"target_dir\":"
                            ++ (quote target_dir
                                ++ (text ",\"flags\":["
                                    ++ (join (text ",") (map quote flags) ++ text "]}")))))))))

unfoldable pub default_build_shape : CookHost → Text → Text → List Text → Env → Result Text
unfolding quote join text workspace_manifest_hash cargo_config_hash target_env_hash
default_build_shape host workspace target_dir flags env =
    ended (
      workspace_manifest_hash host.sha256 (host.read_below workspace) host.locale_compare
        (host.tree workspace))
    >>= λ manifest.
        cargo_config_hash host.sha256 (host.read_below workspace) (host.exists_below workspace)
        >>= λ config. ok (
            shape_text manifest config (target_env_hash host.sha256 env)
              (or_text (host.posix_relative workspace target_dir) (text ".")) flags)

-- What the plan knows before it looks at a commit.
pub record Shared : Type 0 where
  pub layered : Bool
  pub workspace : Text
  pub target_dir : Text
  pub lockfile_path : Text
  pub flags : List Text
  pub parts : CookCacheKeyParts
  pub build_shape_hash : Text
  pub local_runner : Bool

pub data Gated : Type 0 where
  closed : (reason : Text) → Gated
  opened : Shared → Gated

abbrev pub shape_or_default : Text → Result Text → Result Text
shape_or_default [] shape = shape
shape_or_default (c ∷ s) shape = ok (c ∷ s)

module _ (host : CookHost) (inputs : DeferredCookInputs) where
  abbrev pub workspace_of : Text
  workspace_of = host.paths.resolve (or_text inputs.workspace host.cwd)

  abbrev pub target_dir_of : Text
  target_dir_of =
      resolve_workspace_path host workspace_of inputs.target_dir (target_dir_fallback inputs.env)

  abbrev pub lockfile_of : Text
  lockfile_of = resolve_lockfile_path host.paths workspace_of target_dir_of inputs.lockfile

  abbrev pub flags_of : List Text
  flags_of = canonicalize_cook_flags (parse_cook_flags inputs.flags)

  abbrev pub key_parts : Text → CookCacheKeyParts
  key_parts lock_hash = record {
    runner_os = or_text (to_lower (trim inputs.runner_os)) host.platform;
    runner_arch = or_text (to_lower (trim inputs.runner_arch)) host.arch;
    libc = host.libc;
    rustc_release = or_text (trim inputs.rustc_release) (text "unresolved");
    flags_hash = hash_cook_flags host.sha256_text flags_of;
    lock_hash = lock_hash;
    soldr_version = or_text (trim inputs.soldr_version) (text "unresolved");
    key_suffix = none;
  }

  abbrev pub shared_of : Text → Text → Shared
  shared_of lock_hash build_shape = record {
    layered =
        inputs.delta_cache
        && supports_layered_cook_cache (or_text (trim inputs.soldr_version) (text "unresolved"));
    workspace = workspace_of;
    target_dir = target_dir_of;
    lockfile_path = lockfile_of;
    flags = flags_of;
    parts = key_parts lock_hash;
    build_shape_hash = hash_cook_build_shape host.sha256_text build_shape;
    local_runner = is_local_runner inputs.env;
  }

  unfoldable pub opened_plan : Result Gated
  unfolding short_file_hash default_build_shape trim to_lower text
  opened_plan =
      short_file_hash host.sha256 (host.read_file lockfile_of) (text "no-lock") >>= λ lock_hash.
      shape_or_default (trim inputs.build_shape)
        (default_build_shape host workspace_of target_dir_of flags_of inputs.env)
      >>= λ build_shape. ok (Gated.opened (shared_of lock_hash build_shape))

  abbrev pub gate_plan : CookGate → Result Gated
  gate_plan gate = if gate.enabled then opened_plan else ok (Gated.closed gate.reason)

  unfoldable pub gated_plan : Result Gated
  unfolding opened_plan decide_cook_gate text
  gated_plan =
      gate_plan (decide_cook_gate host.paths.exists (text "soldr-cook") inputs.cache lockfile_of)

-- The delta of the parent commit, if it is known and not the commit itself.
abbrev pub parent_keys : Shared → Text → Text → List Text
parent_keys shared github_sha parent_sha =
    if not (is_empty parent_sha) && not (parent_sha == github_sha)
    then build_cook_delta_cache_key shared.parts shared.build_shape_hash parent_sha ∷ []
    else []

abbrev pub restore_prefix : Shared → Text
restore_prefix shared = build_cook_delta_cache_restore_prefix shared.parts shared.build_shape_hash

abbrev pub level : CacheProfileFixedKnob → Shared → Text
level knob shared = cache_profile_default (CacheProfileKnob.fixed knob) shared.local_runner

unfoldable pub plan_of : Shared → Text → Text → DeferredCookEnabledPlan
unfolding build_cook_cache_key build_cook_base_cache_key trim text
plan_of shared github_sha parent_sha = record {
  layered = shared.layered;
  project_root = shared.workspace;
  target_dir = shared.target_dir;
  lockfile_path = shared.lockfile_path;
  flags = shared.flags;
  legacy_key = build_cook_cache_key shared.parts;
  legacy_archive_path = shared.target_dir ++ text ".tar.zst";
  base_key = build_cook_base_cache_key shared.parts;
  delta_key =
      build_cook_delta_cache_key shared.parts shared.build_shape_hash
        (or_text github_sha (text "nosha"));
  delta_restore_keys =
      parent_keys shared github_sha (trim parent_sha) ++ restore_prefix shared ∷ [];
  base_archive_path = shared.target_dir ++ text ".soldr-base.tar.zst";
  delta_archive_path = shared.target_dir ++ text ".soldr-delta.tar.zst";
  base_manifest_path = shared.target_dir ++ text ".soldr-base-manifest.pb";
  base_zstd_level = level CacheProfileFixedKnob.cook_base_zstd_level shared;
  delta_zstd_level = level CacheProfileFixedKnob.cook_delta_zstd_level shared;
}

abbrev pub plan_for_commit : Text → Text → Gated → DeferredCookPlan
plan_for_commit github_sha parent_sha (Gated.closed reason) = DeferredCookPlan.disabled reason
plan_for_commit github_sha parent_sha (Gated.opened shared) =
    DeferredCookPlan.enabled (plan_of shared github_sha parent_sha)

unfoldable pub build_deferred_cook_plan : CookHost → DeferredCookInputs → Result DeferredCookPlan
unfolding gated_plan plan_of
build_deferred_cook_plan host inputs = gated_plan host inputs >>= λ gated.
    ok (plan_for_commit inputs.github_sha inputs.parent_sha gated)
