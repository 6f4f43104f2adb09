-- ===== src/RawInputs/Tests.antt =====
-- The two names of an input.
use setup_soldr.Base.{◌≡◌, refl, [], ◌∷◌, nat_eq, list_eq}
use setup_soldr.Base.Text.{text}
use setup_soldr.Base.Env.{env_get}
use setup_soldr.RawInputs.{read_raw_inputs, get_input, to_upper, underscored}

reads_dashes :
    (read_raw_inputs
      ((text "INPUT_CACHE_DIR", text "old") ∷ (text "INPUT_CACHE-DIR", text "new") ∷ [])).cache_dir
    ≡ text "new"
unfolding read_raw_inputs get_input to_upper underscored env_get text nat_eq list_eq
reads_dashes = refl
