-- ===== src/Toolchain/Laws.antt =====
-- src/lib/toolchain.ts: which channels roll, and what the cache key is made of for an override.
use setup_soldr.Base.{ℕ, ◌≡◌, refl, sym, ◌∙◌, ap}
use setup_soldr.Base.{◌↔◌, ◌⊎◌, inl, inr, Bool, true, false, not, ◌||◌, Option, none, some}
use setup_soldr.Base.{List, [], ◌∷◌, ◌++◌, arith, ==_iff}
use setup_soldr.Base.{nat_eq, list_eq, option_eq, Bool-cases}
use setup_soldr.Base.{find, get_or, ok}
use setup_soldr.Base.{◌≢◌}
use setup_soldr.Base.{>>=-eq-ok}
use setup_soldr.Base.Text.{Text, text, trim, to_lower, strip_prefix}
use setup_soldr.Base.Text.{strip_prefix-append, strip_prefix_sound}
use mathlib.Core.Path.{subst}
use setup_soldr.Base.{ok_injective}
use setup_soldr.Base.Span.{is_digit}
use setup_soldr.Toolchain.{
  RollingAlias, alias_text, rolling_toolchain_aliases, goes_on, matches_alias,
  rolling_toolchain_alias,
}
use setup_soldr.Toolchain.{
  resolve_toolchain_cache_channel, rust_channel_manifest_release, or_channel, Host, Options,
  load_toolchain_spec, ToolchainSpec, Draft, draft_of_file, spec_of, overridden,
}

-- The alias itself, or the alias and a dash before a character that is no digit.
abbrev pub IsRolling : Text → RollingAlias → Type 0
IsRolling channel alias =
    (channel ≡ alias_text alias)
    ⊎ ((c : ℕ) × (rest : Text) × (channel ≡ (alias_text alias ++ text "-") ++ (c ∷ rest))
        × (is_digit c ≡ false))

goes_on_iff :
    (p s : Text)
    → (goes_on (strip_prefix p s) ≡ true)
      ↔ ((c : ℕ) × (rest : Text) × (s ≡ p ++ (c ∷ rest)) × (is_digit c ≡ false))
goes_on_iff p s = (
  λ h. behind (strip_prefix p s) refl h,
  λ (c, rest, e, d).
      ap (λ t. goes_on (strip_prefix p t)) e
      ∙ (ap goes_on (strip_prefix-append p (c ∷ rest)) ∙ ap not d),
)
  where
    not_true : (b : Bool) → not b ≡ true → b ≡ false
    not_true true h = cc
    not_true false h = refl

    behind :
        (o : Option Text)
        → strip_prefix p s ≡ o
        → goes_on o ≡ true
        → (c : ℕ) × (rest : Text) × (s ≡ p ++ (c ∷ rest)) × (is_digit c ≡ false)
    behind none e h = cc
    behind (some []) e h = cc
    behind (some (c ∷ rest)) e h =
        (c, rest, strip_prefix_sound p s (c ∷ rest) e, not_true (is_digit c) h)

either_iff : (a b : Bool) → ((a || b) ≡ true) ↔ ((a ≡ true) ⊎ (b ≡ true))
either_iff true b = (λ h. inl refl, λ h. refl)
either_iff false b = (λ h. inr h, λ h. elim h [ inl e ↦ cc | inr e ↦ e ])

matches_alias_iff :
    (channel : Text) (alias : RollingAlias)
    → (matches_alias channel alias ≡ true) ↔ IsRolling channel alias
unfolding matches_alias
matches_alias_iff channel alias = (
  λ h. elim ((either_iff _ _).0 h) [
    | inl e ↦ inl ((==_iff channel (alias_text alias)).0 e)
    | inr e ↦ inr ((goes_on_iff (alias_text alias ++ text "-") channel).0 e)
  ],
  λ h. (either_iff _ _).1 (elim h [
    | inl e ↦ inl ((==_iff channel (alias_text alias)).1 e)
    | inr e ↦ inr ((goes_on_iff (alias_text alias ++ text "-") channel).1 e)
  ]),
)

-- The first letters tell the aliases apart.
abbrev initial : Text → ℕ
initial [] = 0
initial (c ∷ s) = c

IsRolling-initial :
    (channel : Text) (alias : RollingAlias)
    → IsRolling channel alias
    → initial channel ≡ initial (alias_text alias)
unfolding text
IsRolling-initial channel RollingAlias.stable (inl e) = ap initial e
IsRolling-initial channel RollingAlias.beta (inl e) = ap initial e
IsRolling-initial channel RollingAlias.nightly (inl e) = ap initial e
IsRolling-initial channel RollingAlias.stable (inr (c, rest, e, d)) = ap initial e
IsRolling-initial channel RollingAlias.beta (inr (c, rest, e, d)) = ap initial e
IsRolling-initial channel RollingAlias.nightly (inr (c, rest, e, d)) = ap initial e

first_initial :
    (alias : RollingAlias) (channel : Text)
    → IsRolling channel alias
    → (other : RollingAlias) → matches_alias channel other ≡ true
    → initial (alias_text other) ≡ initial (alias_text alias)
first_initial alias channel h other m =
    sym (IsRolling-initial channel other ((matches_alias_iff channel other).0 m))
    ∙ IsRolling-initial channel alias h

initials_apart : (a b : RollingAlias) → initial (alias_text a) ≡ initial (alias_text b) → a ≡ b
unfolding text
initials_apart RollingAlias.stable RollingAlias.stable e = refl
initials_apart RollingAlias.stable RollingAlias.beta e = absurd (omega (arith, e))
initials_apart RollingAlias.stable RollingAlias.nightly e = absurd (omega (arith, e))
initials_apart RollingAlias.beta RollingAlias.stable e = absurd (omega (arith, e))
initials_apart RollingAlias.beta RollingAlias.beta e = refl
initials_apart RollingAlias.beta RollingAlias.nightly e = absurd (omega (arith, e))
initials_apart RollingAlias.nightly RollingAlias.stable e = absurd (omega (arith, e))
initials_apart RollingAlias.nightly RollingAlias.beta e = absurd (omega (arith, e))
initials_apart RollingAlias.nightly RollingAlias.nightly e = refl

find_sound :
    (p : RollingAlias → Bool) (l : List RollingAlias) (a : RollingAlias)
    → find p l ≡ some a
    → p a ≡ true
find_sound p [] a h = cc
find_sound p (x ∷ l) a h = ground (arith, find_sound p l a)

find_listed :
    (p : RollingAlias → Bool) (a : RollingAlias)
    → p a ≡ true
    → ((b : RollingAlias) → p b ≡ true → b ≡ a)
    → find p rolling_toolchain_aliases ≡ some a
find_listed p a h unique = elim (Bool-cases (p RollingAlias.stable)) [
  | inl e ↦ rw e (ap some (unique RollingAlias.stable e))
  | inr e ↦ elim (Bool-cases (p RollingAlias.beta)) [
    | inl f ↦ rw (e, f) (ap some (unique RollingAlias.beta f))
    | inr f ↦ elim (Bool-cases (p RollingAlias.nightly)) [
      | inl g ↦ rw (e, f, g) (ap some (unique RollingAlias.nightly g))
      | inr g ↦ absurd (none_left a h e f g)
    ]
  ]
]
  where
    none_left :
        (b : RollingAlias)
        → p b ≡ true
        → p RollingAlias.stable ≡ false
        → p RollingAlias.beta ≡ false
        → p RollingAlias.nightly ≡ false
        → ⊥
    none_left RollingAlias.stable k e f g = cc
    none_left RollingAlias.beta k e f g = cc
    none_left RollingAlias.nightly k e f g = cc

-- A channel rolls under an alias if and only if, trimmed and in lower case, it is the alias, or the alias
-- with a dash and more behind it that does not start with a digit; so a dated channel such as
-- `nightly-2024-04-01` never does, and no channel rolls under two.
pub rolling_toolchain_alias_iff :
    (channel : Text) (alias : RollingAlias)
    → (rolling_toolchain_alias channel ≡ some alias) ↔ IsRolling (to_lower (trim channel)) alias
unfolding rolling_toolchain_alias
rolling_toolchain_alias_iff channel alias = (
  λ h.
      (matches_alias_iff (to_lower (trim channel)) alias).0
        (find_sound (matches_alias (to_lower (trim channel))) rolling_toolchain_aliases alias h),
  λ h.
      find_listed (matches_alias (to_lower (trim channel))) alias
        ((matches_alias_iff (to_lower (trim channel)) alias).1 h)
        (λ other m.
          initials_apart other alias (first_initial alias (to_lower (trim channel)) h other m)),
)

-- The channel of the cache, from the channel that is asked for: the release that the network gives for
-- a rolling channel, and the channel itself for one that does not roll.
pub record IsCacheChannel (host : Host) (channel cache_channel : Text) : Type 0 where
  pub rolling :
      (alias : RollingAlias)
      → IsRolling (to_lower (trim channel)) alias
      → cache_channel
        ≡ get_or (rust_channel_manifest_release host.fetch host.parse_toml alias) channel
  pub pinned :
      ((alias : RollingAlias) → ¬ IsRolling (to_lower (trim channel)) alias)
      → cache_channel ≡ channel

or_channel-IsCacheChannel :
    (host : Host) (channel : Text)
    → IsCacheChannel host channel
        (resolve_toolchain_cache_channel host.fetch host.parse_toml channel)
unfolding resolve_toolchain_cache_channel
or_channel-IsCacheChannel host channel = record {
  rolling = λ alias r.
      ap (λ o. or_channel host.fetch host.parse_toml o channel)
        ((rolling_toolchain_alias_iff channel alias).1 r);
  pinned = λ never. unrolled (rolling_toolchain_alias channel) refl never;
}
  where
    unrolled :
        (o : Option RollingAlias)
        → rolling_toolchain_alias channel ≡ o
        → ((alias : RollingAlias) → ¬ IsRolling (to_lower (trim channel)) alias)
        → or_channel host.fetch host.parse_toml o channel ≡ channel
    unrolled none e never = refl
    unrolled (some alias) e never =
        absurd (never alias ((rolling_toolchain_alias_iff channel alias).0 e))

-- The specification has the override, trimmed, and its channel of the cache.
abbrev pub IsOverride : Host → Text → ToolchainSpec → Type 0
IsOverride host raw spec =
    (spec.channel ≡ trim raw) × IsCacheChannel host spec.channel spec.cache_channel

spec_of-IsOverride :
    (host : Host) (raw : Text) (draft : Draft)
    → raw ≢ []
    → IsOverride host raw (spec_of host (overridden raw draft))
spec_of-IsOverride host [] draft h = absurd (h refl)
spec_of-IsOverride host (c ∷ s) draft h = (refl, or_channel-IsCacheChannel host (trim (c ∷ s)))

-- An override of the input that is not empty is the channel, trimmed, whatever the toolchain file says.
-- If the channel rolls, that is, in lower case, it is `stable`, `beta` or `nightly`, or one of them with a
-- dash and more behind it that does not start with a digit, then the channel of the cache is the
-- release that the network gives for the alias, or the channel if it gives none; and otherwise, as for a
-- dated nightly, it is the channel as it stands, whatever the network answers.
pub load_toolchain_spec-IsOverride :
    (host : Host) (opts : Options) (spec : ToolchainSpec)
    → opts.toolchain_override ≢ []
    → load_toolchain_spec host opts ≡ ok spec
    → IsOverride host opts.toolchain_override spec
unfolding load_toolchain_spec
load_toolchain_spec-IsOverride host opts spec filled h =
    let (draft, read, made) =
      >>=-eq-ok (draft_of_file host opts)
        (λ d. ok (spec_of host (overridden opts.toolchain_override d))) h in
    subst (IsOverride host opts.toolchain_override) (ok_injective _ _ made)
      (spec_of-IsOverride host opts.toolchain_override draft filled)
