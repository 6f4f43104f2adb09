-- ===== src/ToolCache/Laws.antt =====
-- The decision in one condition, and what a link replaces.
use setup_soldr.Base.{◌≡◌, refl, sym, ◌∙◌, ap}
use setup_soldr.Base.{◌↔◌, ◌⊎◌, inl, inr, Bool, true, false, ◌||◌, Option}
use setup_soldr.Base.{[], ◌∷◌, arith, ◌==◌, ==_refl}
use setup_soldr.Base.{nat_eq, list_eq, option_eq, includes}
use setup_soldr.Base.{get_or}
use setup_soldr.Base.Text.{Text, text, trim, to_lower}
use setup_soldr.Base.Text.{is_empty}
use setup_soldr.Base.Env.{Env}
use setup_soldr.ToolCache.{
  truthy, falsy, tool_cache_env, trimmed, decide_tool_cache_store, already_linked, Node, link,
  folder, file, missing, relink, link_dir,
}

module _ (env : Env) (platform : Text) (layer_off : Option Text) where
  abbrev pub override : Text
  override = to_lower (trimmed env tool_cache_env)

  -- A layer keeps its store in the tool cache exactly if nothing turns it off (a false override, no
  -- tool cache, Windows, a reason of the layer) and something turns it on: a true override, act, or a
  -- self-hosted runner.
  pub decide_tool_cache_store_iff :
      ((decide_tool_cache_store env platform layer_off).enabled ≡ true) ↔ (
        (includes falsy override ≡ false)
        × ((is_empty (trimmed env (text "RUNNER_TOOL_CACHE")) ≡ false)
            × (((platform == text "win32") ≡ false)
                × ((is_empty (trim (get_or layer_off [])) ≡ true)
                    × ((includes truthy override
                          || includes truthy (to_lower (trimmed env (text "ACT")))
                          || trimmed env (text "RUNNER_ENVIRONMENT") == text "self-hosted")
                        ≡ true)))))
  unfolding decide_tool_cache_store
  decide_tool_cache_store_iff = (λ h. ground arith, λ h. ground arith)

-- A folder with something in it is left as it is.
abbrev pub HasContent : Node → Type 0
HasContent (folder (n ∷ ns)) = Unit
HasContent _ = ⊥

relink_target : (target : Text) (b : Bool) → (relink target b).1 ≡ link target
relink_target target true = refl
relink_target target false = refl

relink_self : (target : Text) → relink target (target == target) ≡ (already_linked, link target)
relink_self target = ap (relink target) (==_refl target)

-- Linking keeps a folder that has content and makes anything else a link to the target; linking again
-- then changes nothing.
pub link_dir_lem :
    (target : Text) (node : Node)
    → (((link_dir target node).1 ≡ link target)
        ⊎ (HasContent node × ((link_dir target node).1 ≡ node)))
      × ((link_dir target (link_dir target node).1).1 ≡ (link_dir target node).1)
unfolding link_dir
link_dir_lem target missing = (inl refl, ap (λ r. r.1) (relink_self target))
link_dir_lem target file = (inl refl, ap (λ r. r.1) (relink_self target))
link_dir_lem target (folder []) = (inl refl, ap (λ r. r.1) (relink_self target))
link_dir_lem target (folder (n ∷ ns)) = (inr (tt, refl), refl)
link_dir_lem target (link t) = (
  inl (relink_target target (t == target)),
  ap (λ node. (link_dir target node).1) (relink_target target (t == target))
      ∙ (relink_target target (target == target) ∙ sym (relink_target target (t == target))),
)
