-- ===== src/LocalProfile.antt =====
-- src/lib/local-profile.ts: which runner this is, and the defaults that follow from it.
pub mod Laws
mod Tests
use setup_soldr.Base.{Bool, true, Option}
use setup_soldr.Base.{List, [], ◌∷◌, if◌then◌else◌}
use setup_soldr.Base.{nat_eq, list_eq, option_eq, includes}
use setup_soldr.Base.{get_or}
use setup_soldr.Base.Text.{Text, text, trim, to_lower, or_text}
use setup_soldr.Base.Env.{Env, env_get}

abbrev truthy : List Text
truthy = text "1" ∷ text "true" ∷ text "yes" ∷ text "on" ∷ []

unfoldable pub is_local_runner : Env → Bool
unfolding text
is_local_runner env = includes truthy (to_lower (trim (get_or (env_get env (text "ACT")) [])))

pub data CacheProfileInputKnob : Type 0 where
  cache_payload_max_bytes cache_payload_warn_bytes : CacheProfileInputKnob
  target_cache_compress_level solo_toolchain_cache_level : CacheProfileInputKnob

pub data CacheProfileFixedKnob : Type 0 where
  cook_base_zstd_level cook_delta_zstd_level : CacheProfileFixedKnob
  soldr_mini_zstd_level cargo_registry_extras_zstd_level : CacheProfileFixedKnob

pub data CacheProfileKnob : Type 0 where
  input : CacheProfileInputKnob → CacheProfileKnob
  fixed : CacheProfileFixedKnob → CacheProfileKnob

unfoldable pub github_defaults : CacheProfileKnob → Text
unfolding text
github_defaults (input cache_payload_max_bytes) = text "6GiB"
github_defaults (input cache_payload_warn_bytes) = text "512MiB"
github_defaults (input target_cache_compress_level) = text "3"
github_defaults (input solo_toolchain_cache_level) = text "9"
github_defaults (fixed cook_base_zstd_level) = text "9"
github_defaults (fixed cook_delta_zstd_level) = text "3"
github_defaults (fixed soldr_mini_zstd_level) = text "19"
github_defaults (fixed cargo_registry_extras_zstd_level) = text "3"

unfoldable pub local_defaults : CacheProfileKnob → Text
unfolding text
local_defaults (input cache_payload_max_bytes) = text "0"
local_defaults (input cache_payload_warn_bytes) = text "4GiB"
local_defaults (input target_cache_compress_level) = text "1"
local_defaults (input solo_toolchain_cache_level) = text "1"
local_defaults (fixed cook_base_zstd_level) = text "1"
local_defaults (fixed cook_delta_zstd_level) = text "1"
local_defaults (fixed soldr_mini_zstd_level) = text "1"
local_defaults (fixed cargo_registry_extras_zstd_level) = text "1"

unfoldable pub cache_profile_default : CacheProfileKnob → Bool → Text
unfolding github_defaults local_defaults
cache_profile_default knob local = if local then local_defaults knob else github_defaults knob

unfoldable pub resolve_cache_profile_input : CacheProfileInputKnob → Option Text → Bool → Text
unfolding cache_profile_default
resolve_cache_profile_input knob raw local =
    or_text (trim (get_or raw [])) (cache_profile_default (input knob) local)
