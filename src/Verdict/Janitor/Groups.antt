-- ===== src/Verdict/Janitor/Groups.antt =====
-- The groups of the janitor hold the manifests of their scopes.
use setup_soldr.Base.{◌≡◌, refl, sym, ◌∙◌, ap}
use setup_soldr.Base.{Bool, true, false}
use setup_soldr.Base.{List, [], ◌∷◌, ◌++◌, arith, if◌then◌else◌, ◌==◌, ==_iff}
use setup_soldr.Base.{nat_eq, list_eq, option_eq}
use setup_soldr.Base.{filter, All, All-append}
use setup_soldr.Base.Text.{Text}
use setup_soldr.Verdict.Janitor.{CacheEntry, is_manifest, scope_of, Groups, put_entry, group_all}
use mathlib.Core.List.{append_assoc, append-nil}
use setup_soldr.Verdict.Janitor.Tails.{is_of_scope}

-- A member of a group is of its scope, and of no other.
pub of_group :
    (t s : Text) (e : CacheEntry)
    → (is_manifest e ≡ true) × (scope_of e ≡ s)
    → is_of_scope t e ≡ (s == t)
of_group t s e (m, c) = rw (m, c) refl

-- A group holds manifests of its scope.
abbrev pub IsGroup : Text × List CacheEntry → Type 0
IsGroup (s, es) = All (λ e. (is_manifest e ≡ true) × (scope_of e ≡ s)) es

abbrev pub Fresh : Text → Groups → Type 0
Fresh scope gs = All (λ g. (g.0 == scope) ≡ false) gs

unfoldable pub Unique : Groups → Type 0
Unique [] = Unit
Unique (g ∷ gs) = Fresh g.0 gs × Unique gs

-- The entries under a key of the Map.
unfoldable pub members : Text → Groups → List CacheEntry
members scope [] = []
members scope ((s, es) ∷ gs) = let rest = members scope gs in if s == scope then es else rest

unfoldable pub IsGroups : Groups → Type 0
IsGroups gs = All IsGroup gs × Unique gs

put_entry-Fresh :
    (t scope : Text) (e : CacheEntry) (gs : Groups)
    → (scope == t) ≡ false
    → Fresh t gs
    → Fresh t (put_entry scope e gs)
unfolding put_entry
put_entry-Fresh t scope e [] h f = (h, tt)
put_entry-Fresh t scope e ((s, es) ∷ gs) h (x, f) = ground (arith, put_entry-Fresh t scope e gs h f)

module _ (scope : Text) (e : CacheEntry) (s : Text) (es : List CacheEntry) (gs : Groups) where
  put_here-Unique :
      (b : Bool)
      → (s == scope) ≡ b
      → Fresh s gs
      → Unique gs
      → Unique (put_entry scope e gs)
      → Unique (if b then (s, es ++ (e ∷ [])) ∷ gs else (s, es) ∷ put_entry scope e gs)
  unfolding Unique
  put_here-Unique true h f u later = (f, u)
  put_here-Unique false h f u later = (put_entry-Fresh s scope e gs (ground (arith, h)) f, later)

  put_here-IsGroup :
      (b : Bool)
      → (s == scope) ≡ b
      → (is_manifest e ≡ true) × (scope_of e ≡ scope)
      → IsGroup (s, es)
      → All IsGroup gs
      → All IsGroup (put_entry scope e gs)
      → All IsGroup (if b then (s, es ++ (e ∷ [])) ∷ gs else (s, es) ∷ put_entry scope e gs)
  put_here-IsGroup true h (m, c) g a later = (
    All-append (λ x. (is_manifest x ≡ true) × (scope_of x ≡ s)) es (e ∷ []) g
        ((m, c ∙ sym ((==_iff s scope).0 h)), tt),
    a,
  )
  put_here-IsGroup false h m g a later = (g, later)

  module _ (t : Text) where
    -- With the key of the group, and with another.
    members_here :
        (b : Bool)
        → (s == scope) ≡ b
        → members t (put_entry scope e gs) ≡ members t gs ++ (if scope == t then e ∷ [] else [])
        → members t (if b then (s, es ++ (e ∷ [])) ∷ gs else (s, es) ∷ put_entry scope e gs)
          ≡ members t ((s, es) ∷ gs) ++ (if scope == t then e ∷ [] else [])
    unfolding members
    members_here true h later =
        let same : s ≡ scope = (==_iff s scope).0 h in rw same (chosen (scope == t))
      where
        chosen :
            (c : Bool)
            → (if c then es ++ (e ∷ []) else members t gs)
              ≡ (if c then es else members t gs) ++ (if c then e ∷ [] else [])
        chosen true = refl
        chosen false = sym (append-nil (members t gs))
    members_here false h later = apart (s == t) (scope == t) refl refl
      where
        apart :
            (b c : Bool)
            → (s == t) ≡ b
            → (scope == t) ≡ c
            → (if b then es else members t (put_entry scope e gs))
              ≡ (if b then es else members t gs) ++ (if c then e ∷ [] else [])
        apart true true p q = absurd (
            let same : s ≡ scope = (==_iff s t).0 p ∙ sym ((==_iff scope t).0 q) in
            let t' : true ≡ false = sym ((==_iff s scope).1 same) ∙ h in cc)
        apart true false p q = sym (append-nil es)
        apart false c p q = later ∙ ap (λ b. members t gs ++ (if b then e ∷ [] else [])) q

put_entry-Unique :
    (scope : Text) (e : CacheEntry) (gs : Groups) → Unique gs → Unique (put_entry scope e gs)
unfolding put_entry Unique
put_entry-Unique scope e [] u = (tt, tt)
put_entry-Unique scope e ((s, es) ∷ gs) (f, u) =
    put_here-Unique scope e s es gs (s == scope) refl f u (put_entry-Unique scope e gs u)

put_entry-IsGroup :
    (e : CacheEntry) (gs : Groups)
    → is_manifest e ≡ true
    → All IsGroup gs
    → All IsGroup (put_entry (scope_of e) e gs)
unfolding put_entry
put_entry-IsGroup e [] h a = (((h, refl), tt), tt)
put_entry-IsGroup e ((s, es) ∷ gs) h (g, a) =
    put_here-IsGroup (scope_of e) e s es gs (s == scope_of e) refl (h, refl) g a
      (put_entry-IsGroup e gs h a)

members-put_entry :
    (t scope : Text) (e : CacheEntry) (gs : Groups)
    → members t (put_entry scope e gs) ≡ members t gs ++ (if scope == t then e ∷ [] else [])
unfolding put_entry members
members-put_entry t scope e [] = refl
members-put_entry t scope e ((s, es) ∷ gs) =
    members_here scope e s es gs t (s == scope) refl (members-put_entry t scope e gs)

-- All manifests land in the group of their scope.
pub group_all-IsGroups :
    (es : List CacheEntry) (gs : Groups)
    → All (λ e. is_manifest e ≡ true) es
    → IsGroups gs
    → IsGroups (group_all es gs)
unfolding group_all IsGroups
group_all-IsGroups [] gs m v = v
group_all-IsGroups (e ∷ es) gs (h, m) (a, u) =
    group_all-IsGroups es (put_entry (scope_of e) e gs) m
      (put_entry-IsGroup e gs h a, put_entry-Unique (scope_of e) e gs u)

pub members-group_all :
    (t : Text) (es : List CacheEntry) (gs : Groups)
    → members t (group_all es gs) ≡ members t gs ++ filter (λ e. scope_of e == t) es
unfolding group_all
members-group_all t [] gs = sym (append-nil (members t gs))
members-group_all t (e ∷ es) gs =
    members-group_all t es (put_entry (scope_of e) e gs)
    ∙ (ap (λ xs. xs ++ filter (λ e. scope_of e == t) es) (members-put_entry t (scope_of e) e gs)
        ∙ joined (scope_of e == t))
  where
    joined :
        (b : Bool)
        → (members t gs ++ (if b then e ∷ [] else [])) ++ filter (λ e. scope_of e == t) es
          ≡ members t gs
            ++ (if b
                then e ∷ filter (λ e. scope_of e == t) es
                else filter (λ e. scope_of e == t) es)
    joined true = append_assoc (members t gs) (e ∷ []) _
    joined false = ap (λ xs. xs ++ filter (λ e. scope_of e == t) es) (append-nil (members t gs))
