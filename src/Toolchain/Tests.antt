-- ===== src/Toolchain/Tests.antt =====
-- Channels that roll and that do not, and a runner that has the toolchain.
use setup_soldr.Base.{◌≡◌, refl}
use setup_soldr.Base.{◌↔◌, true, false, none, some}
use setup_soldr.Base.{List, [], ◌∷◌, ◌++◌, if◌then◌else◌, ◌==◌}
use setup_soldr.Base.{nat_eq, list_eq, option_eq}
use setup_soldr.Base.{ok, err}
use setup_soldr.Base.Text.{Text, text, trim}
use setup_soldr.Base.Split.{split}
use setup_soldr.Base.Span.{span}
use setup_soldr.Toolchain.{
  RollingAlias, rolling_toolchain_alias, Host, Options, load_toolchain_spec, ToolchainSpec,
  draft_of_file, resolve_toolchain_cache_channel,
}
use setup_soldr.Toolchain.Probe.{
  Probe, system_rustup_satisfies_request, make_probe_env, fs_installed_toolchains, channel_of,
}
use setup_soldr.Toolchain.Probe.{
  rustup_installed_names, installed_toolchain_release, match_rustc, release_check, component_check,
  target_check, names,
}
use setup_soldr.Toolchain.Laws.{IsOverride, load_toolchain_spec-IsOverride}
use setup_soldr.Base.{◌≢◌}
use setup_soldr.Toolchain.ProbeLaws.{Satisfied, system_rustup_satisfies_request_iff}

rolls : rolling_toolchain_alias (text " Nightly-x86_64 ") ≡ some RollingAlias.nightly
unfolding rolling_toolchain_alias text nat_eq list_eq
rolls = refl

abbrev host : Host
host = record {
  join_path = λ a b. a ++ (text "/" ++ b);
  posix_relative = λ a b. b;
  exists = λ path. false;
  read_file = λ path. [];
  short_hash = λ bytes. bytes;
  parse_toml = λ body. err [];
  to_text = λ value. [];
  fetch = λ url. err (text "offline");
}

abbrev dated : Options
dated = record {
  workspace = text "w";
  toolchain_file = [];
  toolchain_override = text "nightly-2024-04-01 ";
}

abbrev spec : ToolchainSpec
spec = record {
  channel = text "nightly-2024-04-01";
  cache_channel = text "nightly-2024-04-01";
  profile = text "minimal";
  components = [];
  targets = [];
  source = text "input";
  file_hash = text "none";
}

not_rolling : rolling_toolchain_alias (trim (text "nightly-2024-04-01 ")) ≡ none
unfolding rolling_toolchain_alias trim text nat_eq list_eq
not_rolling = refl

loads : load_toolchain_spec host dated ≡ ok spec
unfolding load_toolchain_spec draft_of_file resolve_toolchain_cache_channel rolling_toolchain_alias
    trim text nat_eq list_eq
loads = refl

filled : text "nightly-2024-04-01 " ≢ []
unfolding text
filled = λ e. cc

load_toolchain_spec-IsOverride_example : IsOverride host (text "nightly-2024-04-01 ") spec
load_toolchain_spec-IsOverride_example = load_toolchain_spec-IsOverride host dated spec filled loads

abbrev answer : List Text → Text
answer (a ∷ args) =
    if a == text "component"
    then text "clippy-x86_64-unknown-linux-gnu\n"
    else text "rustc 1.80.0 (abc)\n"
answer [] = []

abbrev runner : Probe
runner = record {
  which_rustup = some (text "rustup");
  list_toolchains = ok ((text "stable-x86_64-unknown-linux-gnu", true) ∷ []);
  run = λ rustup args env. ok (0, answer args);
}

abbrev wanted : ToolchainSpec
wanted = record {
  channel = text "stable";
  cache_channel = text "1.80.0";
  profile = text "minimal";
  components = text "clippy" ∷ [];
  targets = [];
  source = text "default";
  file_hash = text "none";
}

satisfies : system_rustup_satisfies_request runner (text "c") (text "r") wanted [] ≡ ok true
unfolding system_rustup_satisfies_request release_check component_check target_check
    installed_toolchain_release rustup_installed_names match_rustc rolling_toolchain_alias names
    make_probe_env trim split span text nat_eq list_eq option_eq
satisfies = refl

system_rustup_satisfies_request_iff_example :
    (system_rustup_satisfies_request runner (text "c") (text "r") wanted [] ≡ ok true)
    ↔ Satisfied runner
        (channel_of wanted)
        (make_probe_env [] (text "c") (text "r"))
        (fs_installed_toolchains runner.list_toolchains)
        wanted
system_rustup_satisfies_request_iff_example =
    system_rustup_satisfies_request_iff runner (text "c") (text "r") wanted []
