-- ===== src/CacheKeys/Tests.antt =====
-- The hashes of small records, a workspace of two crates, and the parsers on inputs.
use setup_soldr.Base.{ℕ, ◌≡◌, refl}
use setup_soldr.Base.{◌↔◌, true, not, some}
use setup_soldr.Base.{List, [], ◌∷◌, ◌++◌}
use setup_soldr.Base.{nat_eq, list_eq, option_eq}
use setup_soldr.Base.{filter, All, Result, ok}
use setup_soldr.Base.Text.{Text, text, trim, to_lower, starts_with, ends_with, join}
use setup_soldr.Base.Env.{Env, env_get}
use setup_soldr.Base.Decimal.{decimal}
use setup_soldr.Base.Sort.{compare_text, sort}
use setup_soldr.CacheKeys.Canonical.{
  Chunk, canonical_json_stringify, stringify, record_value, record_fields, is_target_variable,
}
use setup_soldr.CacheKeys.Canonical.{relevant, short_json_hash, target_env_hash}
use setup_soldr.CacheKeys.Quote.{quote}
use setup_soldr.CacheKeys.Records.{Agree}
use setup_soldr.CacheKeys.Hashes.{canonical_json_stringify_iff_Agree}
use setup_soldr.CacheKeys.TargetEnv.{target_env_hash_iff_AgreeOnTarget, AgreeOnTarget}
use setup_soldr.CacheKeys.Fragment.{
  sanitize_fragment, IsFragment, sanitize_fragment_lem, is_fragment_char,
}
use setup_soldr.CacheKeys.CrossTool.{CrossToolCacheKeyInput, cross_tool_cache_key_for}
use setup_soldr.CacheKeys.Manifests.{
  Node, Entries, manifests_hash, workspace_manifest_hash, has_ignored_part, walk_cargo_manifests,
}
use setup_soldr.CacheKeys.Walk.{manifests_at}
use setup_soldr.CacheKeys.Workspace.{workspace_manifest_hash_lem}
use setup_soldr.CacheKeys.Normalize.{
  normalize_build_cache_mode, target_cache_soft_budget, normalize_target_cache_compress_level,
  normalize_legacy_target_cache_mode,
}
use setup_soldr.CacheKeys.Modes.{target_cache_soft_budget-normalize_build_cache_mode}

abbrev two : Env
two = (text "b", text "1") ∷ (text "a", text "2\"") ∷ []

abbrev swapped : Env
swapped = (text "a", text "2\"") ∷ (text "b", text "1") ∷ []

prints : canonical_json_stringify (record_value two) ≡ text "{\"a\":\"2\\\"\",\"b\":\"1\"}"
unfolding stringify record_fields quote sort compare_text join text nat_eq list_eq
prints = refl

escapes :
    quote (10 ∷ 1 ∷ 0xd83d ∷ 0xde00 ∷ 0xde00 ∷ [])
    ≡ text "\"\\n\\u0001" ++ (0xd83d ∷ 0xde00 ∷ text "\\ude00\"")
unfolding quote text nat_eq
escapes = refl

canonical_json_stringify_iff_Agree_example :
    (canonical_json_stringify (record_value two) ≡ canonical_json_stringify (record_value swapped))
    ↔ Agree two swapped
unfolding env_get text nat_eq list_eq
canonical_json_stringify_iff_Agree_example =
    canonical_json_stringify_iff_Agree two swapped (refl, (refl, tt)) (refl, (refl, tt))

abbrev toy_digest : List Chunk → Text
toy_digest (Chunk.utf8 t ∷ chunks) = t
toy_digest chunks = []

abbrev env : Env
env = (text "PATH", text "/bin") ∷ (text "RUSTFLAGS", text "-g") ∷ []

abbrev bare : Env
bare = (text "RUSTFLAGS", text "-g") ∷ []

target_env_hash_iff_AgreeOnTarget_example :
    (target_env_hash toy_digest env ≡ target_env_hash toy_digest bare) ↔ AgreeOnTarget env bare
unfolding relevant is_target_variable env_get text starts_with ends_with nat_eq list_eq
target_env_hash_iff_AgreeOnTarget_example =
    target_env_hash_iff_AgreeOnTarget toy_digest env bare (refl, (refl, tt)) (refl, tt) (λ e. refl)

sanitize_fragment_lem_example :
    IsFragment (sanitize_fragment (text "--a b/c"))
    × ((sanitize_fragment (text "--a b/c") ≡ text "--a b/c") ↔ IsFragment (text "--a b/c"))
    × (sanitize_fragment (sanitize_fragment (text "--a b/c")) ≡ sanitize_fragment (text "--a b/c"))
sanitize_fragment_lem_example = sanitize_fragment_lem (text "--a b/c")

sanitizes : sanitize_fragment (text "--a b/c!") ≡ text "a-b-c"
unfolding sanitize_fragment text nat_eq
sanitizes = refl

abbrev lane : Env → CrossToolCacheKeyInput
lane tools = record {
  host = text "linux-x64";
  target = text "x86_64-pc-windows-gnu";
  tool_versions = tools;
  soldr_ver = text "v0.7";
}

abbrev zig : Env
zig = (text "zig", text "0.13") ∷ (text "xwin", []) ∷ []

abbrev spaced : Env
spaced = (text " zig ", text "0.13 ") ∷ []

abbrev hex_digest : List Chunk → Text
hex_digest chunks = text "00ff"

hex_safe : All (λ c. is_fragment_char c ≡ true) (text "00ff")
unfolding is_fragment_char text nat_eq
hex_safe = (refl, (refl, (refl, (refl, tt))))

makes_key :
    cross_tool_cache_key_for hex_digest (lane zig)
    ≡ text "tool-linux-x64-x86_64-pc-windows-gnu-00ff-soldr0.7"
unfolding cross_tool_cache_key_for short_json_hash trim text nat_eq
makes_key = refl

abbrev crate : Entries
crate = Entries.entry (text "Cargo.toml") Node.file Entries.finish

abbrev workspace : Node
workspace = Node.directory (
    Entries.entry (text "target") (Node.directory crate) (
      Entries.entry (text "b") (Node.directory crate) (
        Entries.entry (text "a") (Node.directory crate)
          (Entries.entry (text "x") Node.unreadable crate))))

abbrev contents : Text → Result (List ℕ)
contents path = ok path

walks :
    walk_cargo_manifests compare_text workspace
    ≡ some (text "Cargo.toml" ∷ text "b/Cargo.toml" ∷ text "a/Cargo.toml" ∷ [])
unfolding walk_cargo_manifests compare_text text nat_eq list_eq
walks = refl

workspace_manifest_hash_lem_example :
    workspace_manifest_hash toy_digest contents compare_text workspace
    ≡ some (
        manifests_hash toy_digest contents (
          sort compare_text
            (filter (λ rel. not (has_ignored_part rel)) (manifests_at [] workspace))))
workspace_manifest_hash_lem_example =
    workspace_manifest_hash_lem toy_digest contents compare_text workspace

abbrev thin : Text
thin = text "thin"

mode_read :
    normalize_build_cache_mode [] (text "hot") true
    ≡ ok (
      thin,
      text "target-cache-mode 'hot' is deprecated; using build-cache-mode 'thin'."
          ∷ text "target-cache-mode 'thin' is deprecated; translating to build-cache-mode 'thin'."
          ∷ [],
    )
unfolding normalize_build_cache_mode normalize_legacy_target_cache_mode trim to_lower text nat_eq
    list_eq
mode_read = refl

target_cache_soft_budget-normalize_build_cache_mode_example :
    (budget : Text × Text) × (target_cache_soft_budget true thin ≡ ok budget)
target_cache_soft_budget-normalize_build_cache_mode_example =
    target_cache_soft_budget-normalize_build_cache_mode true true [] (text "hot") thin _ mode_read

level_read : normalize_target_cache_compress_level (text " +007 ") ≡ ok (decimal 7)
unfolding normalize_target_cache_compress_level trim text nat_eq
level_read = refl
