-- ===== src/ToolCache.antt =====
-- src/lib/tool-cache-store.ts: when a layer keeps its store in the tool cache, and the link to it.
pub mod Laws
pub mod Publish
mod Tests
use setup_soldr.Base.{◌+◌, ◌-◌}
use setup_soldr.Base.{Bool, true, false, not, Option}
use setup_soldr.Base.{List, [], ◌∷◌, ◌++◌, if◌then◌else◌, ◌==◌}
use setup_soldr.Base.{nat_eq, list_eq, option_eq, includes}
use setup_soldr.Base.{get_or}
use setup_soldr.Base.Text.{Text, text, trim, to_lower}
use setup_soldr.Base.Text.{is_empty}
use setup_soldr.Base.Env.{Env, env_get}

abbrev pub truthy : List Text
truthy = text "1" ∷ text "true" ∷ text "yes" ∷ text "on" ∷ []

abbrev pub falsy : List Text
falsy = text "0" ∷ text "false" ∷ text "no" ∷ text "off" ∷ []

abbrev pub tool_cache_env : Text
tool_cache_env = text "SETUP_SOLDR_TOOL_CACHE"

pub record ToolCacheDecision : Type 0 where
  pub enabled : Bool
  pub tool_cache : Text
  pub reason : Text

-- `(env[name] ?? "").trim()`
abbrev pub trimmed : Env → Text → Text
trimmed env name = trim (get_or (env_get env name) [])

unfoldable pub decide_tool_cache_store : Env → Text → Option Text → ToolCacheDecision
unfolding trim to_lower env_get text
decide_tool_cache_store env platform layer_off =
    let tool_cache = trimmed env (text "RUNNER_TOOL_CACHE") in
    let override = to_lower (trimmed env tool_cache_env) in
    let layer = trim (get_or layer_off []) in
    let off : Text → ToolCacheDecision =
      λ reason. record { enabled = false; tool_cache = tool_cache; reason = reason } in
    let on : Text → ToolCacheDecision =
      λ reason. record { enabled = true; tool_cache = tool_cache; reason = reason } in
    if includes falsy override
    then off (tool_cache_env ++ (text "=" ++ override))
    else if is_empty tool_cache
    then off (text "RUNNER_TOOL_CACHE is unset")
    else if platform == text "win32"
    then off (text "not enabled on Windows")
    else if not (is_empty layer)
    then off layer
    else if includes truthy override
    then on (tool_cache_env ++ (text "=" ++ override))
    else if includes truthy (to_lower (trimmed env (text "ACT")))
    then on (text "act runner (tool cache persists across runs)")
    else if trimmed env (text "RUNNER_ENVIRONMENT") == text "self-hosted"
    then on (text "self-hosted runner (tool cache persists across runs)")
    else off (text "GitHub-hosted tool cache is per-VM; setup-cache carries this layer")

-- `path.join` is a parameter.
unfoldable pub tool_cache_store_path : (List Text → Text) → Text → Text → Text → Text → Text
unfolding text
tool_cache_store_path path_join tool_cache layer platform arch =
    path_join (tool_cache ∷ (text "soldr-" ++ layer) ∷ (platform ++ (text "-" ++ arch)) ∷ [])

pub data LinkStatus : Type 0 where
  linked already_linked kept_existing_dir : LinkStatus

-- What lies at a path: nothing, a link, a folder with its names, or a file.
pub data Node : Type 0 where
  missing : Node
  link : (target : Text) → Node
  folder : (names : List Text) → Node
  file : Node

abbrev pub relink : Text → Bool → LinkStatus × Node
relink target true = (already_linked, link target)
relink target false = (linked, link target)

-- The answer and what then lies at `linkPath`; both folders around it are there.
unfoldable pub link_dir : Text → Node → LinkStatus × Node
link_dir target (link t) = relink target (t == target)
link_dir target (folder []) = (linked, link target)
link_dir target (folder (n ∷ ns)) = (kept_existing_dir, folder (n ∷ ns))
link_dir target file = (linked, link target)
link_dir target missing = (linked, link target)

-- A real folder with a stamp.
unfoldable pub is_stamped_real_dir : Node → Bool
unfolding text
is_stamped_real_dir (folder names) = includes names (text ".complete")
is_stamped_real_dir _ = false
