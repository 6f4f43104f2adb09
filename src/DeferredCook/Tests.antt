-- ===== src/DeferredCook/Tests.antt =====
-- A workspace with a lockfile, and the plans of two commits.
use setup_soldr.Base.{◌≡◌, refl}
use setup_soldr.Base.{true, false}
use setup_soldr.Base.{[], ◌∷◌, ◌++◌, ◌==◌}
use setup_soldr.Base.{nat_eq, list_eq, option_eq}
use setup_soldr.Base.{ok}
use setup_soldr.Base.Text.{text, trim, to_lower, starts_with}
use setup_soldr.Base.Text.{is_empty}
use setup_soldr.Base.Sort.{compare_text}
use setup_soldr.CacheKeys.Manifests.{Node, Entries}
use setup_soldr.CacheKeys.Paths.{PathHost, FileRead}
use setup_soldr.CacheKeys.Paths
use setup_soldr.CookCache.{decide_cook_gate}
use setup_soldr.DeferredCook.{
  DeferredCookInputs, CookHost, DeferredCookPlan, DeferredCookEnabledPlan, parse_cook_flags,
}
use setup_soldr.DeferredCook.Plan.{
  build_deferred_cook_plan, shared_of, plan_of, gated_plan, opened_plan,
}
use setup_soldr.DeferredCook.Laws.{Follows, next_commit, build_deferred_cook_plan-Follows}

abbrev paths : PathHost
paths = record {
  join_path = λ a b. a ++ (text "/" ++ b);
  resolve = λ p. p;
  dirname = λ p. text "/w";
  relative = λ a b. b;
  is_absolute = λ p. starts_with p (text "/");
  exists = λ p. true;
  home = text "/home";
}

abbrev host : CookHost
host = record {
  paths = paths;
  cwd = text "/w";
  platform = text "linux";
  arch = text "x64";
  libc = text "glibc";
  resolve_in = λ a b. a ++ (text "/" ++ b);
  posix_relative = λ a b. text "target";
  tree = λ p. Node.directory Entries.finish;
  read_below = λ p rel. ok [];
  exists_below = λ p rel. false;
  read_file = λ p. FileRead.contents (1 ∷ []);
  locale_compare = compare_text;
  sha256 = λ chunks. text "0123456789abcdef";
  sha256_text = λ t. text "0123456789abcdef";
}

abbrev inputs : DeferredCookInputs
inputs = record {
  workspace = text "/w";
  runner_os = text "Linux";
  runner_arch = text "X64";
  github_sha = text "aaaa";
  parent_sha = [];
  target_dir = [];
  lockfile = text "/w/Cargo.lock";
  flags = text " --release  -v ";
  cache = true;
  delta_cache = true;
  rustc_release = text "1.80.0";
  soldr_version = text "0.9.0";
  build_shape = text "shape";
  env = [];
}

splits : parse_cook_flags (text " --release  -v ") ≡ text "--release" ∷ text "-v" ∷ []
unfolding parse_cook_flags text nat_eq
splits = refl

abbrev plan : DeferredCookEnabledPlan
plan = plan_of (shared_of host inputs (text "0123456789abcdef") (text "shape")) (text "aaaa") []

planned : build_deferred_cook_plan host inputs ≡ ok (DeferredCookPlan.enabled plan)
unfolding build_deferred_cook_plan gated_plan opened_plan decide_cook_gate Paths.short_file_hash
    Paths.resolve_lockfile_path Paths.resolve_workspace_path Paths.expanduser trim to_lower
    starts_with text nat_eq list_eq
planned = refl

trimmed : trim (text "aaaa") ≡ text "aaaa"
unfolding trim text nat_eq
trimmed = refl

filled : is_empty (text "aaaa") ≡ false
unfolding text
filled = refl

apart : (text "aaaa" == text "bbbb") ≡ false
unfolding text nat_eq list_eq
apart = refl

build_deferred_cook_plan-Follows_example :
    (next : DeferredCookEnabledPlan) × (build_deferred_cook_plan host
        (next_commit inputs (text "bbbb"))
      ≡ ok (DeferredCookPlan.enabled next))
    × Follows next plan
build_deferred_cook_plan-Follows_example =
    build_deferred_cook_plan-Follows host inputs (text "bbbb") plan trimmed filled apart planned
