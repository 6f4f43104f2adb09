-- ===== src/CookCache/Keys.antt =====
-- What the keys of the layers promise to a restore by prefix and to the eviction of entries.
use setup_soldr.Base.{◌≡◌, refl, ◌∙◌, ap}
use setup_soldr.Base.{true, false}
use setup_soldr.Base.{List, [], ◌∷◌, ◌++◌}
use setup_soldr.Base.{nat_eq, list_eq, option_eq}
use setup_soldr.Base.Text.{Text, text, strip_prefix, starts_with, join}
use setup_soldr.Base.Text.{strip_prefix, starts_with-append}
use mathlib.Core.List.{append_assoc}
use setup_soldr.Eviction.{is_foundation}
use setup_soldr.CookCache.{
  CookCacheKeyParts, build_cook_base_cache_key, build_cook_delta_cache_key,
  build_cook_delta_cache_restore_prefix, cook_key_parts,
}

join-last :
    (sep t u v : Text) (ts : List Text)
    → join sep (t ∷ (ts ++ (u ∷ v ∷ []))) ≡ (join sep (t ∷ (ts ++ (u ∷ []))) ++ sep) ++ v
unfolding join
join-last sep t u v [] = simp append_assoc
join-last sep t u v (x ∷ ts) =
    ap (λ z. t ++ (sep ++ z)) (join-last sep x u v ts) ∙ simp append_assoc

delta-append :
    (parts : CookCacheKeyParts) (shape sha : Text)
    → (rest : Text) × (build_cook_delta_cache_key parts shape sha
        ≡ build_cook_delta_cache_restore_prefix parts shape ++ rest)
unfolding build_cook_delta_cache_key build_cook_delta_cache_restore_prefix
delta-append parts shape sha =
    (_, join-last (text "-") (text "cook-delta-v2") _ _ (cook_key_parts parts))

-- A restore by the prefix of a build shape finds the delta of each commit with the same parts.
pub delta_prefix_lem :
    (parts : CookCacheKeyParts) (build_shape_hash github_sha : Text)
    → starts_with
        (build_cook_delta_cache_key parts build_shape_hash github_sha)
        (build_cook_delta_cache_restore_prefix parts build_shape_hash)
      ≡ true
delta_prefix_lem parts build_shape_hash github_sha =
    let (rest, e) = delta-append parts build_shape_hash github_sha in
    rw e (starts_with-append (build_cook_delta_cache_restore_prefix parts build_shape_hash) rest)

-- The base layer's key is one of a foundation, the delta layer's is not.
pub cook_keys_is_foundation :
    (parts : CookCacheKeyParts) (build_shape_hash github_sha : Text)
    → (is_foundation (build_cook_base_cache_key parts) ≡ true)
      × (is_foundation (build_cook_delta_cache_key parts build_shape_hash github_sha) ≡ false)
unfolding is_foundation text build_cook_base_cache_key build_cook_delta_cache_key starts_with
    strip_prefix join list_eq nat_eq
cook_keys_is_foundation parts shape sha = (refl, refl)
