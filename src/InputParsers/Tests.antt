-- ===== src/InputParsers/Tests.antt =====
-- Inputs of the action at concrete values.
use setup_soldr.Base.{◌≡◌, refl}
use setup_soldr.Base.{some}
use setup_soldr.Base.{[], ◌∷◌}
use setup_soldr.Base.{nat_eq, list_eq, option_eq}
use setup_soldr.Base.{ok}
use setup_soldr.Base.Text.{text}
use setup_soldr.Base.Decimal.{value}
use setup_soldr.InputParsers.{
  parse_cache_shutdown_on_idle_seconds, detect_user_linker_env, parse_rust_backtrace,
}

half_an_hour : parse_cache_shutdown_on_idle_seconds (text " 30 M") ≡ ok (some 1800)
unfolding parse_cache_shutdown_on_idle_seconds value text nat_eq list_eq
half_an_hour = refl

linkers :
    detect_user_linker_env
      ((text "PATH", text "/bin") ∷ (text "CARGO_TARGET_X_LINKER", text "mold") ∷ [])
    ≡ text "CARGO_TARGET_X_LINKER=mold" ∷ []
unfolding detect_user_linker_env text nat_eq list_eq
linkers = refl

full_backtrace : parse_rust_backtrace (text "Full ") ≡ ok (some (text "full"))
unfolding parse_rust_backtrace text nat_eq list_eq
full_backtrace = refl
