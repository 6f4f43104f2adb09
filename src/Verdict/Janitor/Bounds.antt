-- ===== src/Verdict/Janitor/Bounds.antt =====
-- Which entries the plan of the janitor leaves and which it deletes.
use setup_soldr.Base.{ℕ, ◌≡◌, refl, sym, ◌∙◌, ap}
use setup_soldr.Base.{inl, inr, Bool, true, false, Option, none, some}
use setup_soldr.Base.{List, [], ◌∷◌, ◌++◌, arith, if◌then◌else◌, ◌==◌, ==_iff}
use setup_soldr.Base.{nat_eq, list_eq, option_eq, Bool-cases, drop}
use setup_soldr.Base.{filter, is_some, All, All-append}
use setup_soldr.Base.Text.{Text, text, strip_prefix, starts_with}
use setup_soldr.Base.Text.{strip_prefix_sound}
use mathlib.Core.Path.{subst}
use setup_soldr.Base.{All-filter, All-map_of}
use setup_soldr.Base.Sort.{sort, All-sort}
use setup_soldr.Verdict.{verdict_prefix, manifest_prefix}
use setup_soldr.Verdict.Janitor.{
  CacheEntry, is_verdict, is_manifest, scope_of, Groups, group_all, newest, superseded,
  janitor_plan, max_verdict_entries, max_manifests_per_scope,
}
use mathlib.Core.List.{append-nil}
use setup_soldr.Verdict.Janitor.Tails.{
  is_of_scope, All-drop, filter-append, filter_none, IsDated, IsTail, drop-IsTail, tail_all,
  tail_none,
}
use setup_soldr.Verdict.Janitor.Groups.{
  of_group, IsGroup, Fresh, Unique, members, IsGroups, group_all-IsGroups, members-group_all,
}

-- No key has both prefixes.
prefixes_differ : (rest : Text) → starts_with (verdict_prefix ++ rest) manifest_prefix ≡ false
unfolding starts_with text nat_eq
prefixes_differ rest = refl

stripped :
    (key : Text) (o : Option Text)
    → strip_prefix verdict_prefix key ≡ o
    → is_some o ≡ true
    → starts_with key manifest_prefix ≡ false
stripped key none h k = absurd cc
stripped key (some rest) h k =
    ap (λ s. starts_with s manifest_prefix) (strip_prefix_sound verdict_prefix key rest h)
    ∙ prefixes_differ rest

verdict_no_manifest : (e : CacheEntry) → is_verdict e ≡ true → is_manifest e ≡ false
unfolding starts_with
verdict_no_manifest e h = stripped e.key (strip_prefix verdict_prefix e.key) refl h

manifest_no_verdict : (e : CacheEntry) → is_manifest e ≡ true → is_verdict e ≡ false
manifest_no_verdict e h = elim (Bool-cases (is_verdict e)) [
  | inl v ↦ absurd (let t : true ≡ false = sym h ∙ verdict_no_manifest e v in cc)
  | inr n ↦ n
]

filter-manifests :
    (t : Text) (es : List CacheEntry)
    → filter (λ e. scope_of e == t) (filter is_manifest es) ≡ filter (is_of_scope t) es
filter-manifests t [] = refl
filter-manifests t (e ∷ es) = ground (arith, filter-manifests t es)

module _ (epoch_ms : Text → Option ℕ) where
  -- The groups of other scopes lose no manifest of this one.
  superseded-Fresh :
      (t : Text) (gs : Groups)
      → All IsGroup gs
      → Fresh t gs
      → filter (is_of_scope t) (superseded epoch_ms gs) ≡ []
  unfolding superseded
  superseded-Fresh t [] a f = refl
  superseded-Fresh t ((s, es) ∷ gs) (g, a) (x, f) =
      let others =
        tail_none epoch_ms (is_of_scope t) 2 es
          (All-map_of _ _ (λ e m. of_group t s e m ∙ x) es g) in
      filter-append (is_of_scope t) (drop max_manifests_per_scope (sort (newest epoch_ms) es)) _
      ∙ (ap (λ xs. xs ++ filter (is_of_scope t) (superseded epoch_ms gs)) others
          ∙ superseded-Fresh t gs a f)

  group_tail :
      (t s : Text) (es : List CacheEntry) (gs : Groups) (b : Bool)
      → (s == t) ≡ b
      → IsGroup (s, es)
      → All IsGroup gs
      → Fresh s gs
      → filter (is_of_scope t) (superseded epoch_ms gs)
        ≡ drop 2 (sort (newest epoch_ms) (members t gs))
      → filter (is_of_scope t) (drop 2 (sort (newest epoch_ms) es))
          ++ filter (is_of_scope t) (superseded epoch_ms gs)
        ≡ drop 2 (sort (newest epoch_ms) (if b then es else members t gs))
  group_tail t s es gs true h g a f later =
      let same : s ≡ t = (==_iff s t).0 h in
      let mine =
        tail_all epoch_ms (is_of_scope t) 2 es
          (All-map_of _ _ (λ e m. of_group t s e m ∙ h) es g) in
      let others = superseded-Fresh t gs a (subst (λ k. Fresh k gs) same f) in
      ap (λ xs. xs ++ filter (is_of_scope t) (superseded epoch_ms gs)) mine
      ∙ (ap (λ xs. drop 2 (sort (newest epoch_ms) es) ++ xs) others
          ∙ append-nil (drop 2 (sort (newest epoch_ms) es)))
  group_tail t s es gs false h g a f later =
      ap (λ xs. xs ++ filter (is_of_scope t) (superseded epoch_ms gs))
        (tail_none epoch_ms (is_of_scope t) 2 es
          (All-map_of _ _ (λ e m. of_group t s e m ∙ h) es g))
      ∙ later

  superseded-members :
      (t : Text) (gs : Groups)
      → IsGroups gs
      → filter (is_of_scope t) (superseded epoch_ms gs)
        ≡ drop 2 (sort (newest epoch_ms) (members t gs))
  unfolding superseded members IsGroups Unique sort
  superseded-members t [] v = refl
  superseded-members t ((s, es) ∷ gs) ((g, a), (f, u)) =
      filter-append (is_of_scope t) (drop max_manifests_per_scope (sort (newest epoch_ms) es)) _
      ∙ group_tail t s es gs (s == t) refl g a f (superseded-members t gs (a, u))

  superseded-IsManifest :
      (gs : Groups) → All IsGroup gs → All (λ e. is_manifest e ≡ true) (superseded epoch_ms gs)
  unfolding superseded
  superseded-IsManifest [] a = tt
  superseded-IsManifest ((s, es) ∷ gs) (g, a) =
      All-append (λ e. is_manifest e ≡ true) (drop 2 (sort (newest epoch_ms) es))
        (superseded epoch_ms gs)
        (All-drop (λ e. is_manifest e ≡ true) 2 (sort (newest epoch_ms) es)
          (All-sort (newest epoch_ms) (λ e. is_manifest e ≡ true) es
            (All-map_of _ _ (λ e m. m.0) es g)))
        (superseded-IsManifest gs a)

  no-IsGroups : IsGroups []
  unfolding IsGroups Unique
  no-IsGroups = (tt, tt)

  no_members : (t : Text) → members t [] ≡ []
  unfolding members
  no_members t = refl

  no_scope : (t : Text) (e : CacheEntry) → is_verdict e ≡ true → is_of_scope t e ≡ false
  no_scope t e v = rw (verdict_no_manifest e v) refl

  parts : (g : Groups) → IsGroups g → All IsGroup g × Unique g
  unfolding IsGroups
  parts g v = v

  plan_verdicts :
      (entries : List CacheEntry)
      → filter is_verdict (janitor_plan epoch_ms entries)
        ≡ drop 256 (sort (newest epoch_ms) (filter is_verdict entries))
  unfolding janitor_plan
  plan_verdicts entries =
      let verdicts = filter is_verdict entries in
      let old = drop max_verdict_entries (sort (newest epoch_ms) verdicts) in
      let groups = group_all (filter is_manifest entries) [] in
      let v =
        group_all-IsGroups (filter is_manifest entries) [] (All-filter is_manifest entries)
          no-IsGroups in
      filter-append is_verdict old (superseded epoch_ms groups)
      ∙ (ap (λ xs. filter is_verdict old ++ xs)
            (filter_none is_verdict (superseded epoch_ms groups) (
              All-map_of _ _ manifest_no_verdict _
                (superseded-IsManifest groups (parts groups v).0)))
          ∙ (append-nil (filter is_verdict old)
              ∙ tail_all epoch_ms is_verdict 256 verdicts (All-filter is_verdict entries)))

  plan_scope :
      (entries : List CacheEntry) (scope : Text)
      → filter (is_of_scope scope) (janitor_plan epoch_ms entries)
        ≡ drop 2 (sort (newest epoch_ms) (filter (is_of_scope scope) entries))
  unfolding janitor_plan
  plan_scope entries scope =
      let verdicts = filter is_verdict entries in
      let old = drop max_verdict_entries (sort (newest epoch_ms) verdicts) in
      let groups = group_all (filter is_manifest entries) [] in
      let v =
        group_all-IsGroups (filter is_manifest entries) [] (All-filter is_manifest entries)
          no-IsGroups in
      filter-append (is_of_scope scope) old (superseded epoch_ms groups)
      ∙ (ap (λ xs. xs ++ filter (is_of_scope scope) (superseded epoch_ms groups))
            (tail_none epoch_ms (is_of_scope scope) 256 verdicts
              (All-map_of _ _ (λ e v. no_scope scope e v) verdicts (All-filter is_verdict entries)))
          ∙ (superseded-members scope groups v
              ∙ ap (λ xs. drop 2 (sort (newest epoch_ms) xs))
                  (members-group_all scope (filter is_manifest entries) []
                    ∙ (ap
                          (λ xs.
                            xs ++ filter (λ e. scope_of e == scope) (filter is_manifest entries))
                          (no_members scope)
                        ∙ filter-manifests scope entries))))

  -- If the dates of all entries are valid: of the entries that are verdicts, the plan deletes all but
  -- 256, or none, and of the manifests of a scope all but 2, or none. Each time those that stay are no
  -- older than those that go, and the two make up the entries, none of them twice and none lost.
  pub janitor_plan_lem :
      (entries : List CacheEntry)
      → All (IsDated epoch_ms) entries
      → IsTail epoch_ms 256
          (filter is_verdict entries)
          (filter is_verdict (janitor_plan epoch_ms entries))
        × ((scope : Text)
            → IsTail epoch_ms 2
                (filter (is_of_scope scope) entries)
                (filter (is_of_scope scope) (janitor_plan epoch_ms entries)))
  janitor_plan_lem entries dated = (
    subst (IsTail epoch_ms 256 (filter is_verdict entries)) (sym (plan_verdicts entries))
        (drop-IsTail epoch_ms 256 _ (All-filtered is_verdict entries dated)),
    λ scope.
        subst (IsTail epoch_ms 2 (filter (is_of_scope scope) entries))
          (sym (plan_scope entries scope))
          (drop-IsTail epoch_ms 2 _ (All-filtered (is_of_scope scope) entries dated)),
  )
    where
      All-filtered :
          (p : CacheEntry → Bool) (xs : List CacheEntry)
          → All (IsDated epoch_ms) xs
          → All (IsDated epoch_ms) (filter p xs)
      All-filtered p [] h = tt
      All-filtered p (x ∷ xs) (d, h) = chosen (p x) (All-filtered p xs h)
        where
          chosen :
              (b : Bool)
              → All (IsDated epoch_ms) (filter p xs)
              → All (IsDated epoch_ms) (if b then x ∷ filter p xs else filter p xs)
          chosen true k = (d, k)
          chosen false k = k
