-- ===== src/Toolchain/ProbeLaws.antt =====
-- src/lib/toolchain.ts: when the runner's own rustup is used.
use setup_soldr.Base.{◌≡◌, refl, ◌∙◌, ap}
use setup_soldr.Base.{◌↔◌, ◌⊎◌, inl, inr, Bool, true, false, not, ◌&&◌, Option, none, some}
use setup_soldr.Base.{List, [], ◌∷◌, if◌then◌else◌, ◌==◌, ==_iff}
use setup_soldr.Base.{nat_eq, list_eq, option_eq, includes}
use setup_soldr.Base.{all, is_some, Result, ok, err}
use setup_soldr.Base.{◌>>=◌}
use setup_soldr.Base.Text.{Text, text, trim}
use setup_soldr.Base.Text.{is_empty}
use setup_soldr.Base.Env.{Env}
use mathlib.Core.Path.{subst}
use setup_soldr.Base.{ok_injective}
use setup_soldr.Toolchain.{ToolchainSpec, rolling_toolchain_alias}
use setup_soldr.Toolchain.Probe.{
  Probe, and_then, system_rustup_satisfies_request, make_probe_env, fs_installed_toolchains,
  channel_of,
}
use setup_soldr.Toolchain.Probe.{
  toolchain_list_contains, component_installed, rustup_installed_names, installed_toolchain_release,
}
use setup_soldr.Toolchain.Probe.{
  channel_check, release_check, component_check, target_check, with_rustup, ruled_out,
  channel_listed,
}

-- A listing of rustup ends and gives names that pass the test.
abbrev pub Lists : Probe → Text → List Text → Env → (List Text → Bool) → Type 0
Lists probe rustup args env passes =
    (installed : List Text) × (rustup_installed_names probe.run rustup args env ≡ ok installed)
    × (passes installed ≡ true)

module _ (probe : Probe) (channel : Text) (env : Env) where
  -- The channel stands in the directory, or where that told nothing, in the list of rustup.
  abbrev pub HasChannel : List Text → Text → Type 0
  HasChannel [] rustup =
      Lists probe rustup (text "toolchain" ∷ text "list" ∷ []) env
        (λ l. toolchain_list_contains l channel)
  HasChannel (t ∷ ts) rustup = toolchain_list_contains (t ∷ ts) channel ≡ true

  abbrev pub asks_release : Text → Bool
  asks_release expected = is_some (rolling_toolchain_alias channel) && not (is_empty expected)

  -- A rolling channel that is pinned to a release is installed with just that release.
  abbrev pub HasRelease : Text → Text → Type 0
  HasRelease rustup expected =
      (asks_release expected ≡ false)
      ⊎ (installed_toolchain_release probe.run rustup channel env ≡ ok (some expected))

  abbrev pub HasComponents : Text → List Text → Type 0
  HasComponents rustup [] = Unit
  HasComponents rustup (c ∷ cs) =
      Lists probe rustup
        (text "component" ∷ text "list" ∷ text "--toolchain" ∷ channel ∷ text "--installed" ∷ [])
        env (λ l. all (component_installed l) (c ∷ cs))

  abbrev pub HasTargets : Text → List Text → Type 0
  HasTargets rustup [] = Unit
  HasTargets rustup (t ∷ ts) =
      Lists probe rustup
        (text "target" ∷ text "list" ∷ text "--toolchain" ∷ channel ∷ text "--installed" ∷ []) env
        (λ l. all (includes l) (t ∷ ts))

  abbrev pub Met : List Text → ToolchainSpec → Text → Type 0
  Met on_disk toolchain rustup =
      HasChannel on_disk rustup
      × HasRelease rustup (trim toolchain.cache_channel)
      × HasComponents rustup toolchain.components
      × HasTargets rustup toolchain.targets

  abbrev pub Satisfied : List Text → ToolchainSpec → Type 0
  Satisfied on_disk toolchain =
      (rustup : Text) × (probe.which_rustup ≡ some rustup) × Met on_disk toolchain rustup

refused : ok false ≡ ok true → ⊥
refused e = cc

and_then_iff : (a b : Result Bool) → (and_then a b ≡ ok true) ↔ ((a ≡ ok true) × (b ≡ ok true))
and_then_iff (err m) b = (λ h. (h, cc), λ h. h.0)
and_then_iff (ok false) b = (λ h. (h, cc), λ h. h.0)
and_then_iff (ok true) b = (λ h. (refl, h), λ h. h.1)

lists_iff :
    (call : Result (List Text)) (passes : List Text → Bool)
    → ((call >>= λ l. ok (passes l)) ≡ ok true)
      ↔ ((l : List Text) × (call ≡ ok l) × (passes l ≡ true))
lists_iff (err m) passes = (λ h. ([], cc, cc), λ h. cc (h.1))
lists_iff (ok l) passes =
    (λ h. (l, refl, ok_injective _ _ h), λ h. ap ok (ap passes (ok_injective _ _ h.1) ∙ h.2))

release_iff :
    (call : Result (Option Text)) (asks : Bool) (expected : Text)
    → ((if asks then (call >>= λ r. ok (r == some expected)) else ok true) ≡ ok true)
      ↔ ((asks ≡ false) ⊎ (call ≡ ok (some expected)))
release_iff call false expected = (λ h. inl refl, λ h. refl)
release_iff (err m) true expected = (λ h. cc, λ h. elim h [ inl e ↦ cc | inr e ↦ cc ])
release_iff (ok r) true expected = (
  λ h. inr (ap ok ((==_iff r (some expected)).0 (ok_injective _ _ h))),
  λ h. elim h [ inl e ↦ cc | inr e ↦ ap ok ((==_iff r (some expected)).1 (ok_injective _ _ e)) ],
)

module _ (probe : Probe) (channel : Text) (env : Env) where
  channel_check_iff :
      (on_disk : List Text) (rustup : Text)
      → ruled_out probe channel env on_disk ≡ false
      → (channel_check probe channel env on_disk rustup ≡ ok true)
        ↔ HasChannel probe channel env on_disk rustup
  unfolding channel_listed
  channel_check_iff [] rustup h = lists_iff _ (λ l. toolchain_list_contains l channel)
  channel_check_iff (t ∷ ts) rustup h =
      (λ e. not_false (toolchain_list_contains (t ∷ ts) channel) h, λ e. refl)
    where
      not_false : (b : Bool) → not b ≡ false → b ≡ true
      not_false true h = refl
      not_false false h = cc

  component_check_iff :
      (rustup : Text) (cs : List Text)
      → (component_check probe channel env rustup cs ≡ ok true)
        ↔ HasComponents probe channel env rustup cs
  unfolding component_check
  component_check_iff rustup [] = (λ e. tt, λ e. refl)
  component_check_iff rustup (c ∷ cs) = lists_iff _ (λ l. all (component_installed l) (c ∷ cs))

  target_check_iff :
      (rustup : Text) (ts : List Text)
      → (target_check probe channel env rustup ts ≡ ok true)
        ↔ HasTargets probe channel env rustup ts
  unfolding target_check
  target_check_iff rustup [] = (λ e. tt, λ e. refl)
  target_check_iff rustup (t ∷ ts) = lists_iff _ (λ l. all (includes l) (t ∷ ts))

  release_check_iff :
      (rustup expected : Text)
      → (release_check probe channel env rustup expected ≡ ok true)
        ↔ HasRelease probe channel env rustup expected
  unfolding release_check
  release_check_iff rustup expected =
      release_iff _ (asks_release probe channel env expected) expected

  Met-iff :
      (on_disk : List Text) (toolchain : ToolchainSpec) (rustup : Text)
      → ruled_out probe channel env on_disk ≡ false
      → (with_rustup probe channel env on_disk toolchain (some rustup) ≡ ok true)
        ↔ Met probe channel env on_disk toolchain rustup
  Met-iff on_disk toolchain rustup h = (
    λ e.
        let first : (channel_check probe channel env on_disk rustup ≡ ok true) × (rest ≡ ok true) =
          (and_then_iff _ _).0 e in
        let second : (release ≡ ok true) × (last ≡ ok true) = (and_then_iff _ _).0 first.1 in
        let third : (component_check probe channel env rustup toolchain.components ≡ ok true)
            × (target_check probe channel env rustup toolchain.targets ≡ ok true) =
          (and_then_iff _ _).0 second.1 in
        (
          (channel_check_iff on_disk rustup h).0 first.0,
          (release_check_iff rustup (trim toolchain.cache_channel)).0 second.0,
          (component_check_iff rustup toolchain.components).0 third.0,
          (target_check_iff rustup toolchain.targets).0 third.1,
        ),
    λ m. (and_then_iff (channel_check probe channel env on_disk rustup) rest).1 (
      (channel_check_iff on_disk rustup h).1 m.0,
      (and_then_iff release last).1 (
        (release_check_iff rustup (trim toolchain.cache_channel)).1 m.1,
        (and_then_iff _ _).1 (
          (component_check_iff rustup toolchain.components).1 m.2,
          (target_check_iff rustup toolchain.targets).1 m.3,
        ),
      ),
    ),
  )
    where
      release : Result Bool
      release = release_check probe channel env rustup (trim toolchain.cache_channel)

      last : Result Bool
      last =
          and_then (component_check probe channel env rustup toolchain.components)
            (target_check probe channel env rustup toolchain.targets)

      rest : Result Bool
      rest = and_then release last

  with_rustup_iff :
      (on_disk : List Text) (toolchain : ToolchainSpec) (which : Option Text)
      → ruled_out probe channel env on_disk ≡ false
      → (with_rustup probe channel env on_disk toolchain which ≡ ok true)
        ↔ ((rustup : Text) × (which ≡ some rustup) × Met probe channel env on_disk toolchain rustup)
  with_rustup_iff on_disk toolchain none h = (λ e. absurd (refused e), λ e. absurd (missing e.1))
    where
      missing : {r : Text} → none ≡ some r → ⊥
      missing e = cc
  with_rustup_iff on_disk toolchain (some rustup) h = (
    λ e. (rustup, refl, (Met-iff on_disk toolchain rustup h).0 e),
    λ (r, e, m).
        (Met-iff on_disk toolchain rustup h).1
          (subst (Met probe channel env on_disk toolchain) (same e) m),
  )
    where
      same : {r : Text} → some rustup ≡ some r → r ≡ rustup
      same e = cc

  not_met :
      (on_disk : List Text) (rustup : Text)
      → ruled_out probe channel env on_disk ≡ true
      → HasChannel probe channel env on_disk rustup
      → ⊥
  not_met [] rustup h c = cc
  not_met (t ∷ ts) rustup h c = clash (toolchain_list_contains (t ∷ ts) channel) h c
    where
      clash : (b : Bool) → not b ≡ true → b ≡ true → ⊥
      clash true h k = cc
      clash false h k = cc

-- The probe says yes, without a throw, if and only if rustup is on PATH and: the channel, which is
-- `stable` if none is named, stands in the directory of toolchains, or in rustup's own list where the directory
-- told nothing; a rolling channel that has a release to match is installed with just that release;
-- and rustup lists every component and every target that is asked for.
pub system_rustup_satisfies_request_iff :
    (probe : Probe) (cargo_home rustup_home : Text) (toolchain : ToolchainSpec) (env : Env)
    → (system_rustup_satisfies_request probe cargo_home rustup_home toolchain env ≡ ok true)
      ↔ Satisfied probe
          (channel_of toolchain)
          (make_probe_env env cargo_home rustup_home)
          (fs_installed_toolchains probe.list_toolchains)
          toolchain
unfolding system_rustup_satisfies_request
system_rustup_satisfies_request_iff probe cargo_home rustup_home toolchain env =
    go (ruled_out probe channel probe_env on_disk) refl
  where
    channel : Text
    channel = channel_of toolchain

    probe_env : Env
    probe_env = make_probe_env env cargo_home rustup_home

    on_disk : List Text
    on_disk = fs_installed_toolchains probe.list_toolchains

    go :
        (b : Bool)
        → ruled_out probe channel probe_env on_disk ≡ b
        → ((if b
              then ok false
              else with_rustup probe channel probe_env on_disk toolchain probe.which_rustup)
            ≡ ok true)
          ↔ Satisfied probe channel probe_env on_disk toolchain
    go true h =
        (λ e. absurd (refused e), λ s. absurd (not_met probe channel probe_env on_disk s.0 h s.2.0))
    go false h = with_rustup_iff probe channel probe_env on_disk toolchain probe.which_rustup h
