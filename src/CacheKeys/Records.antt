-- ===== src/CacheKeys/Records.antt =====
-- src/lib/cache-keys.ts: records of texts as maps, and what their sorted members say of them.
use setup_soldr.Base.{◌≡◌, refl, sym, ◌∙◌, ap}
use setup_soldr.Base.{◌↔◌, ◌⊎◌, inl, inr, Bool, true, false, Option, none}
use setup_soldr.Base.{[], ◌∷◌, arith, if◌then◌else◌, ◌==◌, ==_refl, ==_iff}
use setup_soldr.Base.{nat_eq, list_eq, option_eq, Bool-cases}
use setup_soldr.Base.{filter, All}
use setup_soldr.Base.Text.{Text}
use setup_soldr.Base.Env.{Env, env_get}
use setup_soldr.Base.Sort.{compare_text, is_gt, insert, sort, Ordered, sort-Ordered}
use setup_soldr.Base.Order.{compare_text-IsTotal, total_trans}
use setup_soldr.CacheKeys.Canonical.{by_key}

-- Every key stands once.
abbrev pub IsRecord : Env → Type 0
IsRecord [] = Unit
IsRecord ((k, v) ∷ env) = (env_get env k ≡ none) × IsRecord env

-- Two records hold the same values under the same keys.
abbrev pub Agree : Env → Env → Type 0
Agree a b = (key : Text) → env_get a key ≡ env_get b key

unset_behind :
    (j w : Text) (env : Env) (k : Text)
    → env_get ((j, w) ∷ env) k ≡ none
    → ((j == k) ≡ false) × (env_get env k ≡ none)
unfolding env_get
unset_behind j w env k h = ground arith

env_get-insert :
    (k v : Text) (env : Env) (key : Text)
    → env_get env k ≡ none
    → env_get (insert by_key (k, v) env) key ≡ env_get ((k, v) ∷ env) key
unfolding env_get insert
env_get-insert k v [] key h = refl
env_get-insert k v ((j, w) ∷ env) key h =
    let free : ((j == k) ≡ false) × (env_get env k ≡ none) = unset_behind j w env k h in
    go (is_gt (compare_text k j)) free.0 (env_get-insert k v env key free.1)
  where
    go :
        (b : Bool)
        → (j == k) ≡ false
        → env_get (insert by_key (k, v) env) key ≡ env_get ((k, v) ∷ env) key
        → env_get
            (elim b [ true ↦ (j, w) ∷ insert by_key (k, v) env | false ↦ (k, v) ∷ (j, w) ∷ env ])
            key
          ≡ env_get ((k, v) ∷ (j, w) ∷ env) key
    go true apart e = rw e (ground arith)
    go false apart e = refl

IsRecord-insert :
    (k v : Text) (env : Env)
    → env_get env k ≡ none
    → IsRecord env
    → IsRecord (insert by_key (k, v) env)
unfolding env_get insert
IsRecord-insert k v [] h r = (refl, tt)
IsRecord-insert k v ((j, w) ∷ env) h r =
    let free : ((j == k) ≡ false) × (env_get env k ≡ none) = unset_behind j w env k h in
    go (is_gt (compare_text k j)) free.0 (env_get-insert k v env j free.1)
      (IsRecord-insert k v env free.1 r.1)
  where
    go :
        (b : Bool)
        → (j == k) ≡ false
        → env_get (insert by_key (k, v) env) j ≡ env_get ((k, v) ∷ env) j
        → IsRecord (insert by_key (k, v) env)
        → IsRecord
            (elim b [ true ↦ (j, w) ∷ insert by_key (k, v) env | false ↦ (k, v) ∷ (j, w) ∷ env ])
    go true apart e later = (e ∙ ground (arith, r.0), later)
    go false apart e later = (h, r)

env_get-sort :
    (env : Env) (key : Text) → IsRecord env → env_get (sort by_key env) key ≡ env_get env key
unfolding env_get sort
env_get-sort [] key h = refl
env_get-sort ((k, v) ∷ env) key (h, r) =
    env_get-insert k v (sort by_key env) key (env_get-sort env k r ∙ h)
    ∙ ground (arith, env_get-sort env key r)

IsRecord-sort : (env : Env) → IsRecord env → IsRecord (sort by_key env)
unfolding sort
IsRecord-sort [] h = tt
IsRecord-sort ((k, v) ∷ env) (h, r) =
    IsRecord-insert k v (sort by_key env) (env_get-sort env k r ∙ h) (IsRecord-sort env r)

-- No key of the one comes before a key of the other.
abbrev NotAbove : Text × Text → Text × Text → Type 0
NotAbove a b = is_gt (compare_text a.0 b.0) ≡ false

text_joins :
    (s t : Text)
    → is_gt (compare_text s t) ≡ false
    → is_gt (compare_text t s) ≡ false
    → (s == t) ≡ true
text_joins s t h k = rw (compare_text-IsTotal.joins s t h k) (==_refl t)

env_get-below :
    (k : Text) (env : Env) (j v : Text)
    → is_gt (compare_text k j) ≡ false
    → (j == k) ≡ false
    → All (NotAbove (j, v)) env
    → env_get env k ≡ none
unfolding env_get
env_get-below k [] j v h n a = refl
env_get-below k ((i, w) ∷ env) j v h n (p, a) = elim (Bool-cases (i == k)) [
  | inl e ↦ ground (arith, text_joins j k, ==_iff i k)
  | inr e ↦ rw e (env_get-below k env j v h n a)
]

Agree-tails :
    (k v j w : Text) (a b : Env)
    → k ≡ j
    → env_get a k ≡ none
    → env_get b j ≡ none
    → Agree ((k, v) ∷ a) ((j, w) ∷ b)
    → Agree a b
unfolding env_get
Agree-tails k v j w a b same h g e key = elim (Bool-cases (k == key)) [
  | inl found ↦ cc (h, g, same, (==_iff k key).0 found)
  | inr apart ↦ ground (arith, e key, same)
]

heads-Agree :
    (k v j w : Text) (a b : Env)
    → Ordered NotAbove ((k, v) ∷ a)
    → Ordered NotAbove ((j, w) ∷ b)
    → Agree ((k, v) ∷ a) ((j, w) ∷ b)
    → (k ≡ j) × (v ≡ w)
unfolding env_get
heads-Agree k v j w a b o q e = elim (Bool-cases (j == k)) [
  | inl same ↦ ground (arith, e k, ==_iff j k)
  | inr apart ↦ elim (Bool-cases (is_gt (compare_text k j))) [
    | inl above ↦ ground (
      arith,
      e j,
      ==_iff j k,
      env_get-below j a k v (compare_text-IsTotal.flips k j above)
          (ground (arith, ==_iff j k, ==_iff k j)) o.0,
    )
    | inr below ↦ ground (arith, e k, env_get-below k b j w below apart q.0)
  ]
]

sorted_unique :
    (a b : Env)
    → Ordered NotAbove a
    → Ordered NotAbove b
    → IsRecord a
    → IsRecord b
    → Agree a b
    → a ≡ b
unfolding env_get
sorted_unique [] [] o q r s e = refl
sorted_unique [] ((k, v) ∷ b) o q r s e = ground (arith, e k)
sorted_unique ((k, v) ∷ a) [] o q r s e = ground (arith, e k)
sorted_unique ((k, v) ∷ a) ((j, w) ∷ b) o q r s e =
    let same : (k ≡ j) × (v ≡ w) = heads-Agree k v j w a b o q e in
    let rest : a ≡ b =
      sorted_unique a b o.1 q.1 r.1 s.1 (Agree-tails k v j w a b same.0 r.0 s.0 e) in
    cc (same.0, same.1, rest)

-- Records that agree have the same sorted members, and only those.
pub sort_iff_Agree :
    (a b : Env) → IsRecord a → IsRecord b → (sort by_key a ≡ sort by_key b) ↔ Agree a b
sort_iff_Agree a b r s = (
  λ e key. sym (env_get-sort a key r) ∙ (ap (λ z. env_get z key) e ∙ env_get-sort b key s),
  λ e.
      sorted_unique (sort by_key a) (sort by_key b) (sorted a) (sorted b) (IsRecord-sort a r)
        (IsRecord-sort b s) (λ key. env_get-sort a key r ∙ (e key ∙ sym (env_get-sort b key s))),
)
  where
    sorted : (x : Env) → Ordered NotAbove (sort by_key x)
    sorted =
        sort-Ordered by_key NotAbove
          (λ x y z. total_trans compare_text compare_text-IsTotal x.0 y.0 z.0)
          (λ x y. compare_text-IsTotal.flips x.0 y.0) (λ x y h. h)

module _ (keep : Text → Bool) where
  pub env_get-filter :
      (env : Env) (name : Text)
      → env_get (filter (λ v. keep v.0) env) name ≡ (if keep name then env_get env name else none)
  unfolding env_get
  env_get-filter [] name = ground arith
  env_get-filter ((k, v) ∷ env) name =
      go (keep k) refl (Bool-cases (k == name)) (env_get-filter env name)
    where
      go :
          (b : Bool)
          → keep k ≡ b
          → (k == name ≡ true) ⊎ (k == name ≡ false)
          → env_get (filter (λ v. keep v.0) env) name
            ≡ (if keep name then env_get env name else none)
          → env_get
              (if b then (k, v) ∷ filter (λ v. keep v.0) env else filter (λ v. keep v.0) env)
              name
            ≡ (if keep name then env_get ((k, v) ∷ env) name else none)
      go true e (inl same) h = rw (same, sym (ap keep ((==_iff k name).0 same)) ∙ e) refl
      go false e (inl same) h = h ∙ rw (sym (ap keep ((==_iff k name).0 same)) ∙ e) refl
      go true e (inr apart) h = rw (apart, h) refl
      go false e (inr apart) h = rw (apart, h) refl

  none_either : (b : Bool) {o : Option Text} → o ≡ none → (if b then o else none) ≡ none
  none_either true h = h
  none_either false h = refl

  pub IsRecord-filter : (env : Env) → IsRecord env → IsRecord (filter (λ v. keep v.0) env)
  unfolding env_get
  IsRecord-filter [] h = tt
  IsRecord-filter ((k, v) ∷ env) (h, r) =
      go (keep k) (env_get-filter env k ∙ none_either (keep k) h) (IsRecord-filter env r)
    where
      go :
          (b : Bool)
          → env_get (filter (λ v. keep v.0) env) k ≡ none
          → IsRecord (filter (λ v. keep v.0) env)
          → IsRecord (if b then (k, v) ∷ filter (λ v. keep v.0) env else filter (λ v. keep v.0) env)
      go true e later = (e, later)
      go false e later = later
