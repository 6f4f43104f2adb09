-- ===== src/CacheKeys/ToolNames.antt =====
-- `crossToolCacheKeyFor` of src/lib/cache-keys.ts: the tools that its map has in the end.
use setup_soldr.Base.{◌≡◌, refl, sym, ◌∙◌, ap}
use setup_soldr.Base.{◌↔◌, ◌⊎◌, inl, inr, Bool, true, false, ◌||◌}
use setup_soldr.Base.{[], ◌∷◌, arith, if◌then◌else◌, ◌==◌, ==_iff}
use setup_soldr.Base.{nat_eq, list_eq, option_eq, Bool-cases}
use setup_soldr.Base.{all, All}
use setup_soldr.Base.Text.{Text, trim}
use setup_soldr.Base.Text.{is_empty}
use setup_soldr.Base.Env.{Env, env_get}
use setup_soldr.Base.Env.{env_set, env_get-set_other}
use setup_soldr.CacheKeys.Records.{IsRecord}
use setup_soldr.CacheKeys.CrossTool.{kept_tools}
use setup_soldr.Base.Env.{env_get-set_self}
use mathlib.Core.Path.{subst}
use setup_soldr.Base.{◌≢◌, some, none}

IsRecord-env_set : (env : Env) (k v : Text) → IsRecord env → IsRecord (env_set env k v)
unfolding env_set env_get
IsRecord-env_set [] k v h = (refl, tt)
IsRecord-env_set ((j, w) ∷ env) k v (h, r) = go (Bool-cases (j == k)) (IsRecord-env_set env k v r)
  where
    go :
        (j == k ≡ true) ⊎ (j == k ≡ false)
        → IsRecord (env_set env k v)
        → IsRecord (if j == k then (k, v) ∷ env else (j, w) ∷ env_set env k v)
    go (inl same) later = rw same (ap (env_get env) (sym ((==_iff j k).0 same)) ∙ h, r)
    go (inr apart) later =
        rw apart
          (env_get-set_other env k j v (ground (arith, apart, ==_iff j k, ==_iff k j)) ∙ h, later)

pub kept_tools-IsRecord :
    (tools entries : Env) → IsRecord tools → IsRecord (kept_tools tools entries)
unfolding kept_tools
kept_tools-IsRecord tools [] h = h
kept_tools-IsRecord tools ((k, v) ∷ entries) h =
    go (is_empty k || is_empty v)
      (kept_tools-IsRecord (env_set tools (trim k) (trim v)) entries
        (IsRecord-env_set tools (trim k) (trim v) h))
      (kept_tools-IsRecord tools entries h)
  where
    go :
        (b : Bool)
        → IsRecord (kept_tools (env_set tools (trim k) (trim v)) entries)
        → IsRecord (kept_tools tools entries)
        → IsRecord (
            if b
            then kept_tools tools entries
            else kept_tools (env_set tools (trim k) (trim v)) entries)
    go true h k = k
    go false h k = h

-- An entry that sets a tool to a version, and one that leaves the tool as it is. A name and a version
-- are trimmed, and an entry with an empty one sets nothing.
abbrev pub Sets : Text × Text → Text → Text → Type 0
Sets (k, v) name version = (k ≢ []) × (v ≢ []) × (trim k ≡ name) × (trim v ≡ version)

abbrev pub Leaves : Text → Text × Text → Type 0
Leaves name e = (version : Text) → ¬ Sets e name version

-- The version that the last entry of a name gives it.
unfoldable pub LastSet : Env → Text → Text → Type 0
LastSet [] name version = ⊥
LastSet (e ∷ entries) name version =
    LastSet entries name version ⊎ (Sets e name version × All (Leaves name) entries)

set_cases :
    (tools : Env) (k v name version : Text)
    → env_get (env_set tools k v) name ≡ some version
    → ((k ≡ name) × (v ≡ version)) ⊎ ((k ≢ name) × (env_get tools name ≡ some version))
set_cases tools k v name version h = elim (Bool-cases (k == name)) [
  | inl e ↦
      let same : k ≡ name = (==_iff k name).0 e in
      inl (
        same,
        some_injective _ _
            (sym (env_get-set_self tools k v) ∙ (ap (env_get (env_set tools k v)) same ∙ h)),
      )
  | inr e ↦ inr (
    (λ same. absurd (let t : true ≡ false = sym ((==_iff k name).1 same) ∙ e in cc)),
    sym (env_get-set_other tools k name v e) ∙ h,
  )
]
  where
    some_injective : (x y : Text) → some x ≡ some y → x ≡ y
    some_injective x y e = cc

-- Whether an entry is taken.
taken_cases :
    (k v : Text)
    → ((is_empty k || is_empty v ≡ true) × ((name : Text) → Leaves name (k, v)))
      ⊎ ((is_empty k || is_empty v ≡ false) × (k ≢ []) × (v ≢ []))
taken_cases [] v = inl (refl, λ name version (x, y, z, w). x refl)
taken_cases (c ∷ k) [] = inl (refl, λ name version (x, y, z, w). y refl)
taken_cases (c ∷ k) (d ∷ v) = inr (refl, (λ e. cc), (λ e. cc))

kept_tools_sound :
    (tools entries : Env) (name version : Text)
    → env_get (kept_tools tools entries) name ≡ some version
    → LastSet entries name version
      ⊎ ((env_get tools name ≡ some version) × All (Leaves name) entries)
unfolding kept_tools LastSet
kept_tools_sound tools [] name version h = inr (h, tt)
kept_tools_sound tools ((k, v) ∷ entries) name version h = elim (taken_cases k v) [
  | inl (e, leaves) ↦
      elim (kept_tools_sound tools entries name version (
        subst
          (λ b.
            env_get
              (if b
                then kept_tools tools entries
                else kept_tools (env_set tools (trim k) (trim v)) entries)
              name
            ≡ some version)
          e h)) [
            | inl last ↦ inl (inl last)
            | inr (before, rest) ↦ inr (before, (leaves name, rest))
          ]
  | inr (e, x, y) ↦
      elim (kept_tools_sound (env_set tools (trim k) (trim v)) entries name version (
        subst
          (λ b.
            env_get
              (if b
                then kept_tools tools entries
                else kept_tools (env_set tools (trim k) (trim v)) entries)
              name
            ≡ some version)
          e h)) [
            | inl last ↦ inl (inl last)
            | inr (before, rest) ↦ elim (set_cases tools (trim k) (trim v) name version before) [
              | inl (p, q) ↦ inl (inr ((x, y, p, q), rest))
              | inr (apart, there) ↦ inr (there, ((λ w (x', y', p, q). apart p), rest))
            ]
          ]
]

kept_tools-Leaves :
    (tools entries : Env) (name : Text)
    → All (Leaves name) entries
    → env_get (kept_tools tools entries) name ≡ env_get tools name
unfolding kept_tools
kept_tools-Leaves tools [] name h = refl
kept_tools-Leaves tools ((k, v) ∷ entries) name (leaves, rest) = elim (taken_cases k v) [
  | inl (e, all) ↦ rw e (kept_tools-Leaves tools entries name rest)
  | inr (e, x, y) ↦ rw e (
      kept_tools-Leaves (env_set tools (trim k) (trim v)) entries name rest
      ∙ env_get-set_other tools (trim k) name (trim v) (apart x y (Bool-cases (trim k == name))))
]
  where
    apart :
        k ≢ []
        → v ≢ []
        → ((trim k == name) ≡ true) ⊎ ((trim k == name) ≡ false)
        → (trim k == name) ≡ false
    apart x y (inl e) = absurd (leaves (trim v) (x, y, (==_iff (trim k) name).0 e, refl))
    apart x y (inr e) = e

kept_tools-LastSet :
    (tools entries : Env) (name version : Text)
    → LastSet entries name version
    → env_get (kept_tools tools entries) name ≡ some version
unfolding kept_tools LastSet
kept_tools-LastSet tools [] name version h = absurd h
kept_tools-LastSet tools ((k, v) ∷ entries) name version (inl last) =
    either (is_empty k || is_empty v) _ _ (kept_tools-LastSet tools entries name version last)
      (kept_tools-LastSet (env_set tools (trim k) (trim v)) entries name version last)
  where
    either :
        (b : Bool) (s t : Env)
        → env_get s name ≡ some version
        → env_get t name ≡ some version
        → env_get (if b then s else t) name ≡ some version
    either true s t h l = h
    either false s t h l = l
kept_tools-LastSet tools ((k, v) ∷ entries) name version (inr ((x, y, p, q), rest)) =
    elim (taken_cases k v) [
      | inl (e, leaves) ↦ absurd (leaves name version (x, y, p, q))
      | inr (e, x', y') ↦ rw e (
          kept_tools-Leaves (env_set tools (trim k) (trim v)) entries name rest
          ∙ (ap (env_get (env_set tools (trim k) (trim v))) (sym p)
              ∙ (env_get-set_self tools (trim k) (trim v) ∙ ap some q)))
    ]

-- The map gives a name the version of the last entry that sets it.
pub kept_tools_iff :
    (entries : Env) (name version : Text)
    → (env_get (kept_tools [] entries) name ≡ some version) ↔ LastSet entries name version
unfolding env_get
kept_tools_iff entries name version = (
  λ h. elim (kept_tools_sound [] entries name version h) [
    | inl last ↦ last
    | inr (before, rest) ↦ absurd (let e : none ≡ some version = before in cc)
  ],
  kept_tools-LastSet [] entries name version,
)
