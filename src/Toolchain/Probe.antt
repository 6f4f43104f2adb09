-- ===== src/Toolchain/Probe.antt =====
-- src/lib/toolchain.ts: whether the rustup of the runner has the toolchain already. The runs of
-- rustup, the lookup on PATH and the listing of a directory are parameters, and each run may throw.
use setup_soldr.Base.{ℕ}
use setup_soldr.Base.{Bool, true, false, not, ◌&&◌, ◌||◌, Option, none, some}
use setup_soldr.Base.{List, [], ◌∷◌, ◌++◌, map, if◌then◌else◌, ◌==◌}
use setup_soldr.Base.{nat_eq, list_eq, option_eq, includes}
use setup_soldr.Base.{filter, any, all, is_some, Result, ok, err}
use setup_soldr.Base.{◌>>=◌}
use setup_soldr.Base.Text.{Text, text, trim, strip_prefix, starts_with, or_text}
use setup_soldr.Base.Text.{is_empty}
use setup_soldr.Base.Env.{Env}
use setup_soldr.Base.Env.{env_set}
use setup_soldr.Base.Split.{split}
use setup_soldr.Base.Span.{span}
use setup_soldr.Base.Text.{is_space}
use setup_soldr.Toolchain.{ToolchainSpec, rolling_toolchain_alias}

-- A run of rustup: its exit code and what it printed.
abbrev pub Run : Type 0
Run = Text → List Text → Env → Result (ℕ × Text)

abbrev pub not_space : ℕ → Bool
not_space c = not (is_space c)

-- The first words of the lines that are not blank. `\r` is a space.
abbrev pub line_names : List Text → List Text
line_names [] = []
line_names (line ∷ lines) =
    let rest = line_names lines in
    if is_empty (trim line) then rest else (span not_space (trim line)).0 ∷ rest

abbrev pub names_of : ℕ × Text → List Text
names_of (code, stdout) = if code == 0 then line_names (split 10 stdout) else []

unfoldable pub rustup_installed_names : Run → Text → List Text → Env → Result (List Text)
unfolding split span is_space trim
rustup_installed_names run rustup args env = run rustup args env >>= λ done. ok (names_of done)

-- An entry of `toolchains/`: its name, and whether it is a directory or a symbolic link.
abbrev pub dir_names : List (Text × Bool) → List Text
dir_names entries = map (λ e. e.0) (filter (λ e. e.1) entries)

abbrev pub fs_installed_toolchains : Result (List (Text × Bool)) → List Text
fs_installed_toolchains (err message) = []
fs_installed_toolchains (ok entries) = dir_names entries

-- The names of toolchains and components carry a host behind a dash.
unfoldable pub names : Text → Text → Bool
unfolding starts_with text
names wanted name = name == wanted || starts_with name (wanted ++ text "-")

abbrev pub toolchain_list_contains : List Text → Text → Bool
toolchain_list_contains installed channel = any (names channel) installed

abbrev pub component_installed : List Text → Text → Bool
component_installed installed component = any (names component) installed

-- `/^rustc\s+(\S+)/`
unfoldable pub match_rustc : Text → Option Text
unfolding text strip_prefix span is_space
match_rustc stdout = version (strip_prefix (text "rustc") stdout)
  where
    word : Text × Text → Text → Option Text
    word ([], rest) release = none
    word (c ∷ spaces, rest) [] = none
    word (c ∷ spaces, rest) (d ∷ release) = some (d ∷ release)

    version : Option Text → Option Text
    version none = none
    version (some rest) = word (span is_space rest) (span not_space (span is_space rest).1).0

abbrev pub release_of : ℕ × Text → Option Text
release_of (code, stdout) = if code == 0 then match_rustc (trim stdout) else none

unfoldable pub installed_toolchain_release : Run → Text → Text → Env → Result (Option Text)
unfolding match_rustc trim text
installed_toolchain_release run rustup channel env =
    run rustup (text "run" ∷ channel ∷ text "rustc" ∷ text "--version" ∷ []) env >>= λ done.
    ok (release_of done)

unfoldable pub make_probe_env : Env → Text → Text → Env
unfolding env_set text
make_probe_env env cargo_home rustup_home =
    env_set (env_set env (text "CARGO_HOME") cargo_home) (text "RUSTUP_HOME") rustup_home

-- The probe's calls: `which rustup`, the listing of `toolchains/` below the rustup home, and rustup.
pub record Probe : Type 0 where
  pub which_rustup : Option Text
  pub list_toolchains : Result (List (Text × Bool))
  pub run : Run

-- `and_then a b`: an early `return false`, or what follows.
abbrev pub and_then : Result Bool → Result Bool → Result Bool
and_then (err message) follow = err message
and_then (ok false) follow = ok false
and_then (ok true) follow = follow

module _ (probe : Probe) (channel : Text) (env : Env) where
  abbrev pub listed_names : Text → List Text → Result (List Text)
  listed_names rustup args = rustup_installed_names probe.run rustup args env

  unfoldable pub channel_listed : Text → Result Bool
  unfolding rustup_installed_names names text
  channel_listed rustup = listed_names rustup (text "toolchain" ∷ text "list" ∷ []) >>= λ installed.
      ok (toolchain_list_contains installed channel)

  -- Asked only if the directory told nothing.
  abbrev pub channel_check : List Text → Text → Result Bool
  channel_check [] rustup = channel_listed rustup
  channel_check (t ∷ ts) rustup = ok true

  unfoldable pub release_check : Text → Text → Result Bool
  unfolding rolling_toolchain_alias installed_toolchain_release
  release_check rustup expected =
      if is_some (rolling_toolchain_alias channel) && not (is_empty expected)
      then (installed_toolchain_release probe.run rustup channel env >>= λ release.
          ok (release == some expected))
      else ok true

  unfoldable pub component_check : Text → List Text → Result Bool
  unfolding rustup_installed_names names text
  component_check rustup [] = ok true
  component_check rustup (c ∷ components) =
      listed_names rustup
        (text "component" ∷ text "list" ∷ text "--toolchain" ∷ channel ∷ text "--installed" ∷ [])
      >>= λ installed. ok (all (component_installed installed) (c ∷ components))

  unfoldable pub target_check : Text → List Text → Result Bool
  unfolding rustup_installed_names text
  target_check rustup [] = ok true
  target_check rustup (t ∷ targets) =
      listed_names rustup
        (text "target" ∷ text "list" ∷ text "--toolchain" ∷ channel ∷ text "--installed" ∷ [])
      >>= λ installed. ok (all (includes installed) (t ∷ targets))

  abbrev pub with_rustup : List Text → ToolchainSpec → Option Text → Result Bool
  with_rustup on_disk toolchain none = ok false
  with_rustup on_disk toolchain (some rustup) = and_then (channel_check on_disk rustup) (
      and_then (release_check rustup (trim toolchain.cache_channel)) (
        and_then (component_check rustup toolchain.components)
          (target_check rustup toolchain.targets)))

  -- The directory rules the runner out.
  abbrev pub ruled_out : List Text → Bool
  ruled_out [] = false
  ruled_out (t ∷ ts) = not (toolchain_list_contains (t ∷ ts) channel)

abbrev pub channel_of : ToolchainSpec → Text
channel_of toolchain = or_text (trim toolchain.channel) (text "stable")

unfoldable pub system_rustup_satisfies_request :
    Probe → Text → Text → ToolchainSpec → Env → Result Bool
unfolding channel_listed release_check component_check target_check make_probe_env names trim text
system_rustup_satisfies_request probe cargo_home rustup_home toolchain env =
    let on_disk = fs_installed_toolchains probe.list_toolchains in
    let channel = channel_of toolchain in
    if ruled_out probe channel (make_probe_env env cargo_home rustup_home) on_disk
    then ok false
    else with_rustup probe channel (make_probe_env env cargo_home rustup_home) on_disk toolchain
        probe.which_rustup
