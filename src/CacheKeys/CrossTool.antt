-- ===== src/CacheKeys/CrossTool.antt =====
-- src/lib/cache-keys.ts: the key of the tools of one lane, a host and a target.
use setup_soldr.Base.{◌||◌}
use setup_soldr.Base.{List, [], ◌∷◌, ◌++◌, if◌then◌else◌, ◌==◌}
use setup_soldr.Base.{nat_eq, list_eq, option_eq}
use setup_soldr.Base.Text.{Text, text, trim, or_text}
use setup_soldr.Base.Text.{is_empty}
use setup_soldr.Base.Env.{Env}
use setup_soldr.Base.Env.{env_set}
use setup_soldr.CacheKeys.Canonical.{Chunk, short_json_hash, record_value}
use setup_soldr.CacheKeys.Fragment.{sanitize_fragment}

pub record CrossToolCacheKeyInput : Type 0 where
  pub host : Text
  pub target : Text
  pub tool_versions : Env
  pub soldr_ver : Text

-- `.replace(/^v/, "")`
abbrev pub strip_v : Text → Text
strip_v [] = []
strip_v (c ∷ s) = if c == b'v' then s else c ∷ s

-- The tools set so far, and those of further entries: names and versions are trimmed, an entry
-- with an empty one is left out. A tool called `__proto__` is not one.
unfoldable pub kept_tools : Env → Env → Env
unfolding env_set trim
kept_tools tools [] = tools
kept_tools tools ((k, v) ∷ entries) =
    let with_entry = kept_tools (env_set tools (trim k) (trim v)) entries in
    let without = kept_tools tools entries in
    if is_empty k || is_empty v then without else with_entry

abbrev pub tools_of : CrossToolCacheKeyInput → Env
tools_of input = kept_tools [] input.tool_versions

unfoldable pub soldr_fragment : Text → Text
unfolding sanitize_fragment trim text
soldr_fragment soldr_ver =
    sanitize_fragment (or_text (strip_v (trim soldr_ver)) (text "unresolved"))

-- `tool-${host}-${target}-${toolsHash}-soldr${soldrVer}`
abbrev pub key_of : Text → Text → Text → Text → Text
key_of host target tools_hash soldr_ver =
    text "tool-"
    ++ (host
        ++ (text "-" ++ (target ++ (text "-" ++ (tools_hash ++ (text "-soldr" ++ soldr_ver))))))

unfoldable pub cross_tool_cache_key_for : (List Chunk → Text) → CrossToolCacheKeyInput → Text
unfolding sanitize_fragment trim text soldr_fragment kept_tools short_json_hash
cross_tool_cache_key_for sha256 input =
    key_of (sanitize_fragment (trim input.host)) (sanitize_fragment (trim input.target))
      (short_json_hash sha256 (record_value (tools_of input))) (soldr_fragment input.soldr_ver)
