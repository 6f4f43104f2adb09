-- ===== src/DeferredCook/Laws.antt =====
-- src/lib/deferred-cook.ts: how the plans of two commits that follow each other fit together.
use setup_soldr.Base.{◌≡◌, refl, ap}
use setup_soldr.Base.{true, false}
use setup_soldr.Base.{[], ◌∷◌, ◌==◌}
use setup_soldr.Base.{nat_eq, list_eq, option_eq}
use setup_soldr.Base.{Result, ok, err}
use setup_soldr.Base.{◌>>=◌}
use setup_soldr.Base.Text.{Text, text, trim, starts_with, or_text}
use setup_soldr.Base.Text.{is_empty}
use mathlib.Core.Path.{subst}
use setup_soldr.CookCache.Keys.{delta_prefix_lem}
use setup_soldr.DeferredCook.{
  DeferredCookInputs, CookHost, DeferredCookPlan, DeferredCookEnabledPlan,
}
use setup_soldr.DeferredCook.Plan.{
  Gated, Shared, gated_plan, plan_of, plan_for_commit, build_deferred_cook_plan, restore_prefix,
}

-- The inputs of the next commit on the same runner with the same workspace.
abbrev pub next_commit : DeferredCookInputs → Text → DeferredCookInputs
next_commit inputs sha = record {
  workspace = inputs.workspace;
  runner_os = inputs.runner_os;
  runner_arch = inputs.runner_arch;
  github_sha = sha;
  parent_sha = inputs.github_sha;
  target_dir = inputs.target_dir;
  lockfile = inputs.lockfile;
  flags = inputs.flags;
  cache = inputs.cache;
  delta_cache = inputs.delta_cache;
  rustc_release = inputs.rustc_release;
  soldr_version = inputs.soldr_version;
  build_shape = inputs.build_shape;
  env = inputs.env;
}

-- The plan of the next commit looks for the delta of this one first, then by a prefix that both deltas
-- have; it has the same base, and saves to the files that this one saves to.
abbrev pub Follows : DeferredCookEnabledPlan → DeferredCookEnabledPlan → Type 0
Follows next plan =
    (prefix : Text) × (next.delta_restore_keys ≡ plan.delta_key ∷ prefix ∷ [])
    × (starts_with plan.delta_key prefix ≡ true)
    × (starts_with next.delta_key prefix ≡ true)
    × (next.base_key ≡ plan.base_key)
    × (next.delta_archive_path ≡ plan.delta_archive_path)

plan_of-Follows :
    (shared : Shared) (sha parent older : Text)
    → trim parent ≡ parent
    → is_empty parent ≡ false
    → (parent == sha) ≡ false
    → Follows (plan_of shared sha parent) (plan_of shared parent older)
unfolding plan_of
plan_of-Follows shared sha [] older t e n = absurd (cc)
plan_of-Follows shared sha (c ∷ parent) older t e n = (
  restore_prefix shared,
  rw (t, n) refl,
  delta_prefix_lem shared.parts shared.build_shape_hash (c ∷ parent),
  delta_prefix_lem shared.parts shared.build_shape_hash (or_text sha (text "nosha")),
  refl,
  refl,
)

enabled_injective :
    (a b : DeferredCookEnabledPlan)
    → ok (DeferredCookPlan.enabled a) ≡ ok (DeferredCookPlan.enabled b)
    → a ≡ b
enabled_injective a b h = cc

-- If the plan of a commit is enabled, then on the same host the plan of a commit that follows it, with
-- the same inputs otherwise, is enabled too: its first restore key is the very key that the plan of the
-- parent saves its delta under, its second is a prefix of both delta keys, and both plans share the base.
-- The name of the commit is not empty, has no space around it and differs from its successor's.
pub build_deferred_cook_plan-Follows :
    (host : CookHost) (inputs : DeferredCookInputs) (sha : Text) (plan : DeferredCookEnabledPlan)
    → trim inputs.github_sha ≡ inputs.github_sha
    → is_empty inputs.github_sha ≡ false
    → (inputs.github_sha == sha) ≡ false
    → build_deferred_cook_plan host inputs ≡ ok (DeferredCookPlan.enabled plan)
    → (next : DeferredCookEnabledPlan) × (build_deferred_cook_plan host (next_commit inputs sha)
        ≡ ok (DeferredCookPlan.enabled next))
      × Follows next plan
unfolding build_deferred_cook_plan gated_plan
build_deferred_cook_plan-Follows host inputs sha plan t e n h = go (gated_plan host inputs) refl h
  where
    go :
        (r : Result Gated)
        → gated_plan host (next_commit inputs sha) ≡ r
        → (r >>= λ g. ok (plan_for_commit inputs.github_sha inputs.parent_sha g))
          ≡ ok (DeferredCookPlan.enabled plan)
        → (next : DeferredCookEnabledPlan) × (build_deferred_cook_plan host (next_commit inputs sha)
            ≡ ok (DeferredCookPlan.enabled next))
          × Follows next plan
    go (err m) g h = absurd (cc)
    go (ok (Gated.closed reason)) g h = absurd (cc)
    go (ok (Gated.opened shared)) g h =
        let next : DeferredCookEnabledPlan = plan_of shared sha inputs.github_sha in
        (
          next,
          ap (λ r. r >>= λ x. ok (plan_for_commit sha inputs.github_sha x)) g,
          subst (Follows next) (enabled_injective _ _ h)
              (plan_of-Follows shared sha inputs.github_sha inputs.parent_sha t e n),
        )
