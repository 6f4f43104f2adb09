-- ===== src/DeferredCook.antt =====
-- src/lib/deferred-cook.ts: a cook that runs in a later step: its inputs, the host and the parsers. The
-- host's paths, files and digests are parameters.
pub mod Laws
pub mod Plan
mod Tests
use setup_soldr.Base.{ℕ}
use setup_soldr.Base.{Bool, true, false}
use setup_soldr.Base.{List, [], ◌∷◌, ◌++◌, if◌then◌else◌}
use setup_soldr.Base.{nat_eq, list_eq, option_eq, includes}
use setup_soldr.Base.{get_or, Result, ok, err}
use setup_soldr.Base.Text.{Text, text, trim, to_lower, or_text, is_empty, is_space}
use setup_soldr.Base.Env.{Env, env_get}
use Prim.Native.Nat.{Ordering}
use setup_soldr.CookCache.Layers.{CookSaveLayer, select_cook_save_layer}
use setup_soldr.CacheKeys.Canonical.{Chunk}
use setup_soldr.CacheKeys.Manifests.{Node}
use setup_soldr.CacheKeys.Paths.{PathHost, FileRead}
use setup_soldr.CacheKeys.Quote.{quote}

pub record DeferredCookInputs : Type 0 where
  pub workspace : Text
  pub runner_os : Text
  pub runner_arch : Text
  pub github_sha : Text
  pub parent_sha : Text
  pub target_dir : Text
  pub lockfile : Text
  pub flags : Text
  pub cache : Bool
  pub delta_cache : Bool
  pub rustc_release : Text
  pub soldr_version : Text
  pub build_shape : Text
  pub env : Env

-- The process and the disk: the paths, the tree and the files of the workspace, the digests, and what
-- node says of its platform. `sha256_text` is the digest of a text.
pub record CookHost : Type 0 where
  pub paths : PathHost
  pub cwd : Text
  pub platform : Text
  pub arch : Text
  pub libc : Text
  pub resolve_in : Text → Text → Text
  pub posix_relative : Text → Text → Text
  pub tree : Text → Node
  pub read_below : Text → Text → Result (List ℕ)
  pub exists_below : Text → Text → Bool
  pub read_file : Text → FileRead
  pub locale_compare : Text → Text → Ordering
  pub sha256 : List Chunk → Text
  pub sha256_text : Text → Text

pub record DeferredCookEnabledPlan : Type 0 where
  pub layered : Bool
  pub project_root : Text
  pub target_dir : Text
  pub lockfile_path : Text
  pub flags : List Text
  pub legacy_key : Text
  pub legacy_archive_path : Text
  pub base_key : Text
  pub delta_key : Text
  pub delta_restore_keys : List Text
  pub base_archive_path : Text
  pub delta_archive_path : Text
  pub base_manifest_path : Text
  pub base_zstd_level : Text
  pub delta_zstd_level : Text

pub data DeferredCookPlan : Type 0 where
  disabled : (reason : Text) → DeferredCookPlan
  enabled : DeferredCookEnabledPlan → DeferredCookPlan

abbrev pub select_deferred_cook_save_layer : Bool → Bool → Bool → Bool → CookSaveLayer
select_deferred_cook_save_layer cook_ran base_ready save_cache delta_enabled =
    if save_cache
    then select_cook_save_layer cook_ran base_ready delta_enabled
    else CookSaveLayer.no_layer

unfoldable pub parse_boolean_input : Text → Text → Bool → Result Bool
unfolding trim to_lower quote text
parse_boolean_input name raw default_value =
    let value = to_lower (trim raw) in
    if is_empty value
    then ok default_value
    else if includes (text "1" ∷ text "true" ∷ text "yes" ∷ text "on" ∷ []) value
    then ok true
    else if includes (text "0" ∷ text "false" ∷ text "no" ∷ text "off" ∷ []) value
    then ok false
    else err (text "invalid '" ++ (name ++ (text "' input: " ++ quote raw)))

unfoldable pub resolve_workspace_path : CookHost → Text → Text → Text → Text
unfolding trim
resolve_workspace_path host workspace value fallback =
    let selected = or_text (trim value) fallback in
    if host.paths.is_absolute selected
    then host.paths.resolve selected
    else host.resolve_in workspace selected

unfoldable pub target_dir_fallback : Env → Text
unfolding env_get trim text
target_dir_fallback env =
    or_text (trim (get_or (env_get env (text "CARGO_TARGET_DIR")) [])) (text "target")

-- The words between white space, by the word that is being read.
abbrev pub end_word : Text → List Text → List Text
end_word [] words = words
end_word (c ∷ s) words = (c ∷ s) ∷ words

unfoldable pub words_after : Text → Text → List Text
unfolding is_space
words_after word [] = end_word word []
words_after word (c ∷ s) =
    let ended = words_after [] s in
    let longer = words_after (word ++ (c ∷ [])) s in
    if is_space c then end_word word ended else longer

unfoldable pub parse_cook_flags : Text → List Text
unfolding words_after
parse_cook_flags raw = words_after [] raw
