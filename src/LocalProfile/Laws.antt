-- ===== src/LocalProfile/Laws.antt =====
-- What an input of the cache profile resolves to.
use setup_soldr.Base.{◌≡◌, refl}
use setup_soldr.Base.{◌≢◌, Bool, true, false, Option}
use setup_soldr.Base.{[], ◌∷◌, if◌then◌else◌}
use setup_soldr.Base.{nat_eq, list_eq, option_eq}
use setup_soldr.Base.{get_or}
use setup_soldr.Base.Text.{Text, text, trim, or_text}
use setup_soldr.LocalProfile.{
  CacheProfileInputKnob, cache_payload_max_bytes, cache_payload_warn_bytes,
  target_cache_compress_level, solo_toolchain_cache_level, input, local_defaults, github_defaults,
  cache_profile_default, resolve_cache_profile_input,
}

or_text_self : (s d : Text) → s ≢ [] → or_text s d ≡ s
or_text_self [] d h = absurd (h refl)
or_text_self (c ∷ s) d h = refl

or_text_nonempty : (s d : Text) → d ≢ [] → or_text s d ≢ []
or_text_nonempty [] d h = h
or_text_nonempty (c ∷ s) d h = λ e. cc

default_nonempty :
    (knob : CacheProfileInputKnob) (is_local : Bool)
    → cache_profile_default (input knob) is_local ≢ []
unfolding cache_profile_default text
default_nonempty cache_payload_max_bytes true = λ e. cc
default_nonempty cache_payload_warn_bytes true = λ e. cc
default_nonempty target_cache_compress_level true = λ e. cc
default_nonempty solo_toolchain_cache_level true = λ e. cc
default_nonempty cache_payload_max_bytes false = λ e. cc
default_nonempty cache_payload_warn_bytes false = λ e. cc
default_nonempty target_cache_compress_level false = λ e. cc
default_nonempty solo_toolchain_cache_level false = λ e. cc

-- An input that is more than space is taken as it is, without the space around it. Any other input
-- gives the default of the runner, so that no knob resolves to the empty text.
pub resolve_cache_profile_input_cases :
    (knob : CacheProfileInputKnob) (raw : Option Text) (is_local : Bool)
    → (trim (get_or raw []) ≢ []
        → resolve_cache_profile_input knob raw is_local ≡ trim (get_or raw []))
      × ((trim (get_or raw []) ≡ []
            → resolve_cache_profile_input knob raw is_local
              ≡ (if is_local then local_defaults (input knob) else github_defaults (input knob)))
          × (resolve_cache_profile_input knob raw is_local ≢ []))
unfolding resolve_cache_profile_input cache_profile_default
resolve_cache_profile_input_cases knob raw is_local = (
  or_text_self (trim (get_or raw [])) _,
  (λ h. rw h refl, or_text_nonempty (trim (get_or raw [])) _ (default_nonempty knob is_local)),
)
