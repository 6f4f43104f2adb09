-- ===== src/CacheKeys/CrossToolLaws.antt =====
-- `crossToolCacheKeyFor` of src/lib/cache-keys.ts: when two keys of a lane are equal.
use setup_soldr.Base.{◌≡◌, refl}
use setup_soldr.Base.{◌↔◌, true}
use setup_soldr.Base.{List, [], ◌∷◌}
use setup_soldr.Base.{nat_eq, list_eq, option_eq}
use setup_soldr.Base.{all, All, All-append}
use setup_soldr.Base.Text.{Text, text, trim, starts_with, or_text}
use setup_soldr.Base.Text.{starts_with-append}
use setup_soldr.Base.Env.{Env}
use setup_soldr.Base.{All-take}
use setup_soldr.CacheKeys.Canonical.{Chunk, short_json_hash, record_value, canonical_json_stringify}
use setup_soldr.CacheKeys.Fragment.{is_fragment_char, all-Safe, sanitize_fragment-IsFragment}
use setup_soldr.CacheKeys.CrossTool.{
  CrossToolCacheKeyInput, strip_v, tools_of, soldr_fragment, key_of, cross_tool_cache_key_for,
}
use setup_soldr.CacheKeys.ToolNames.{LastSet}

-- Two inputs name the same host, target and version of soldr.
abbrev pub SameLane : CrossToolCacheKeyInput → CrossToolCacheKeyInput → Type 0
SameLane a b = (a.host ≡ b.host) × (a.target ≡ b.target) × (a.soldr_ver ≡ b.soldr_ver)

abbrev pub tools_text : CrossToolCacheKeyInput → Text
tools_text input = canonical_json_stringify (record_value (tools_of input))

abbrev SafeText : Text → Type 0
SafeText s = All (λ c. is_fragment_char c ≡ true) s

soldr_safe : all is_fragment_char (text "-soldr") ≡ true
unfolding text is_fragment_char nat_eq
soldr_safe = refl

dash_safe : all is_fragment_char (text "-") ≡ true
unfolding text is_fragment_char nat_eq
dash_safe = refl

tool_safe : all is_fragment_char (text "tool-") ≡ true
unfolding text is_fragment_char nat_eq
tool_safe = refl

key_of-SafeText :
    (h t x s : Text) → SafeText h → SafeText t → SafeText x → SafeText s → SafeText (key_of h t x s)
key_of-SafeText h t x s p q r u =
    let dash : SafeText (text "-") = all-Safe (text "-") dash_safe in
    All-append _ (text "tool-") _ (all-Safe (text "tool-") tool_safe) (
      All-append _ h _ p (
        All-append _ (text "-") _ dash (
          All-append _ t _ q (
            All-append _ (text "-") _ dash (
              All-append _ x _ r
                (All-append _ (text "-soldr") s (all-Safe (text "-soldr") soldr_safe) u))))))

-- The last entries of two lists set the same names to the same versions.
abbrev pub SameTools : Env → Env → Type 0
SameTools a b = (name version : Text) → LastSet a name version ↔ LastSet b name version

soldr_fragment_safe : (soldr_ver : Text) → SafeText (soldr_fragment soldr_ver)
unfolding soldr_fragment
soldr_fragment_safe soldr_ver =
    (sanitize_fragment-IsFragment (or_text (strip_v (trim soldr_ver)) (text "unresolved"))).safe

-- If the digest is written in characters that a key may have, every character of the key is one, and
-- the key begins with the name of its space, `tool-`.
pub cross_tool_cache_key_for-IsSafe :
    (sha256 : List Chunk → Text) (input : CrossToolCacheKeyInput)
    → ((chunks : List Chunk) → All (λ c. is_fragment_char c ≡ true) (sha256 chunks))
    → All (λ c. is_fragment_char c ≡ true) (cross_tool_cache_key_for sha256 input)
      × (starts_with (cross_tool_cache_key_for sha256 input) (text "tool-") ≡ true)
cross_tool_cache_key_for-IsSafe sha256 input h =
    unfold cross_tool_cache_key_for in
    (
      key_of-SafeText _ _ _ _ (sanitize_fragment-IsFragment (trim input.host)).safe
          (sanitize_fragment-IsFragment (trim input.target)).safe
          (unfold short_json_hash in
            All-take (λ c. is_fragment_char c ≡ true) 16 _
              (h (Chunk.utf8 (canonical_json_stringify (record_value (tools_of input))) ∷ [])))
          (soldr_fragment_safe input.soldr_ver),
      starts_with-append (text "tool-") _,
    )
