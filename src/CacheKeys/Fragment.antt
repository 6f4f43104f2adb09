-- ===== src/CacheKeys/Fragment.antt =====
-- src/lib/cache-keys.ts: `sanitizeFragment`, and what a fragment of a key looks like.
use setup_soldr.Base.{ℕ, ◌≡◌, refl, sym, ◌∙◌, ap}
use setup_soldr.Base.{◌≢◌, ◌↔◌, inl, inr, Bool, true, false, ◌&&◌, ◌||◌, Option, none, some}
use setup_soldr.Base.{[], ◌∷◌, arith, if◌then◌else◌, leb, ◌==◌, ==_iff}
use setup_soldr.Base.{nat_eq, list_eq, option_eq, Bool-cases}
use setup_soldr.Base.{all, All}
use setup_soldr.Base.Text.{Text, text, or_text}
use setup_soldr.Base.Text.{is_empty}
use mathlib.Core.Path.{subst}

-- `[A-Za-z0-9._-]`
unfoldable pub is_fragment_char : ℕ → Bool
is_fragment_char c =
    leb b'A' c && leb c b'Z'
    || leb b'a' c && leb c b'z'
    || leb b'0' c && leb c b'9'
    || c == b'.'
    || c == b'_'
    || c == b'-'

-- `value.replace(/[^A-Za-z0-9._-]+/g, "-")`, behind a character that was replaced or not.
unfoldable pub replace_runs : Bool → Text → Text
unfolding is_fragment_char
replace_runs replaced [] = []
replace_runs replaced (c ∷ s) =
    let kept = replace_runs false s in
    let rest = replace_runs true s in
    if is_fragment_char c then c ∷ kept else if replaced then rest else b'-' ∷ rest

-- `.replace(/^-+/, "")`
unfoldable pub strip_front : Text → Text
strip_front [] = []
strip_front (c ∷ s) = let rest = strip_front s in if c == b'-' then rest else c ∷ s

-- Drops the dashes behind the last other character: the dash is kept if anything is left behind it.
abbrev pub end_at : ℕ → Text → Text
end_at c [] = if c == b'-' then [] else c ∷ []
end_at c (d ∷ r) = c ∷ d ∷ r

-- `.replace(/-+$/, "")`
unfoldable pub strip_back : Text → Text
strip_back [] = []
strip_back (c ∷ s) = end_at c (strip_back s)

unfoldable pub sanitize_fragment : Text → Text
unfolding replace_runs strip_front strip_back text
sanitize_fragment value =
    or_text (strip_back (strip_front (replace_runs false value))) (text "default")

abbrev pub front_of : Text → Option ℕ
front_of [] = none
front_of (c ∷ s) = some c

abbrev pub back_of : Text → Option ℕ
back_of [] = none
back_of (c ∷ []) = some c
back_of (c ∷ d ∷ s) = back_of (d ∷ s)

-- What a fragment of a key is: characters that a key may have, at least one, and no dash at its ends.
pub record IsFragment (s : Text) : Type 0 where
  pub safe : All (λ c. is_fragment_char c ≡ true) s
  pub filled : is_empty s ≡ false
  pub front : front_of s ≢ some b'-'
  pub back : back_of s ≢ some b'-'

replace_runs-safe : (b : Bool) (s : Text) → All (λ c. is_fragment_char c ≡ true) (replace_runs b s)
unfolding replace_runs nat_eq
replace_runs-safe b [] = tt
replace_runs-safe b (c ∷ s) =
    go (is_fragment_char c) refl b (replace_runs-safe false s) (replace_runs-safe true s)
  where
    go :
        (keep : Bool)
        → is_fragment_char c ≡ keep
        → (replaced : Bool) → All (λ c. is_fragment_char c ≡ true) (replace_runs false s)
        → All (λ c. is_fragment_char c ≡ true) (replace_runs true s)
        → All
            (λ c. is_fragment_char c ≡ true)
            (if keep
              then c ∷ replace_runs false s
              else if replaced
              then replace_runs true s
              else b'-' ∷ replace_runs true s)
    go true e replaced h k = (e, h)
    go false e true h k = k
    go false e false h k = (refl, k)

replace_runs-same :
    (b : Bool) (s : Text) → All (λ c. is_fragment_char c ≡ true) s → replace_runs b s ≡ s
unfolding replace_runs
replace_runs-same b [] h = refl
replace_runs-same b (c ∷ s) (p, h) = rw (p, replace_runs-same false s h) refl

module _ (P : ℕ → Type 0) where
  strip_front-All : (s : Text) → All P s → All P (strip_front s)
  unfolding strip_front
  strip_front-All [] h = tt
  strip_front-All (c ∷ s) (p, h) = ground (arith, strip_front-All s h)

  end_at-All : (c : ℕ) (r : Text) → P c → All P r → All P (end_at c r)
  end_at-All c [] p h = ground arith
  end_at-All c (d ∷ r) p h = (p, h)

  strip_back-All : (s : Text) → All P s → All P (strip_back s)
  unfolding strip_back
  strip_back-All [] h = tt
  strip_back-All (c ∷ s) (p, h) = end_at-All c (strip_back s) p (strip_back-All s h)

strip_front-front : (s : Text) → front_of (strip_front s) ≢ some b'-'
unfolding strip_front
strip_front-front [] e = cc
strip_front-front (c ∷ s) e = elim (Bool-cases (c == b'-')) [
  | inl dash ↦
      strip_front-front s (sym (ap (λ b. front_of (if b then strip_front s else c ∷ s)) dash) ∙ e)
  | inr other ↦ ground (arith, other, e, ==_iff c b'-')
]

end_at-back : (c : ℕ) (r : Text) → back_of r ≢ some b'-' → back_of (end_at c r) ≢ some b'-'
end_at-back c [] h e = elim (Bool-cases (c == b'-')) [
  | inl dash ↦ ground (arith, dash, e)
  | inr other ↦ ground (arith, other, e, ==_iff c b'-')
]
end_at-back c (d ∷ r) h e = h e

strip_back-back : (s : Text) → back_of (strip_back s) ≢ some b'-'
unfolding strip_back
strip_back-back [] e = cc
strip_back-back (c ∷ s) e = end_at-back c (strip_back s) (strip_back-back s) e

end_at-front : (c : ℕ) (r : Text) → some c ≢ some b'-' → front_of (end_at c r) ≢ some b'-'
end_at-front c [] h e = ground (arith, h, e)
end_at-front c (d ∷ r) h e = h e

strip_back-front : (s : Text) → front_of s ≢ some b'-' → front_of (strip_back s) ≢ some b'-'
unfolding strip_back
strip_back-front [] h e = cc
strip_back-front (c ∷ s) h e = end_at-front c (strip_back s) h e

strip_front-same : (s : Text) → front_of s ≢ some b'-' → strip_front s ≡ s
unfolding strip_front
strip_front-same [] h = refl
strip_front-same (c ∷ s) h = ground (arith, h, ==_iff c b'-')

strip_back-same : (s : Text) → back_of s ≢ some b'-' → strip_back s ≡ s
unfolding strip_back
strip_back-same [] h = refl
strip_back-same (c ∷ []) h = ground (arith, h, ==_iff c b'-')
strip_back-same (c ∷ d ∷ s) h = ap (end_at c) (strip_back-same (d ∷ s) h)

pub all-Safe : (s : Text) → all is_fragment_char s ≡ true → All (λ c. is_fragment_char c ≡ true) s
all-Safe [] h = tt
all-Safe (c ∷ s) h = elim (Bool-cases (is_fragment_char c)) [
  | inl e ↦ (e, all-Safe s (sym (ap (λ b. b && all is_fragment_char s) e) ∙ h))
  | inr e ↦ cc
]

default_safe : all is_fragment_char (text "default") ≡ true
unfolding text is_fragment_char nat_eq
default_safe = refl

default-IsFragment : IsFragment (text "default")
default-IsFragment = record {
  safe = all-Safe (text "default") default_safe;
  filled = unfold text in refl;
  front = λ e. unfold text in cc;
  back = λ e. unfold text in cc;
}

or_default-IsFragment :
    (t : Text)
    → All (λ c. is_fragment_char c ≡ true) t
    → front_of t ≢ some b'-'
    → back_of t ≢ some b'-'
    → IsFragment (or_text t (text "default"))
or_default-IsFragment [] a h k = default-IsFragment
or_default-IsFragment (c ∷ t) a h k = record { safe = a; filled = refl; front = h; back = k }

pub sanitize_fragment_same : (s : Text) → IsFragment s → sanitize_fragment s ≡ s
unfolding sanitize_fragment
sanitize_fragment_same s p =
    rw (replace_runs-same false s p.safe, strip_front-same s p.front, strip_back-same s p.back)
      (kept s p.filled)
  where
    kept : (t : Text) → is_empty t ≡ false → or_text t (text "default") ≡ t
    kept [] h = cc
    kept (c ∷ t) h = refl

pub sanitize_fragment-IsFragment : (value : Text) → IsFragment (sanitize_fragment value)
unfolding sanitize_fragment
sanitize_fragment-IsFragment value =
    let replaced : Text = replace_runs false value in
    let front : Text = strip_front replaced in
    or_default-IsFragment (strip_back front)
      (strip_back-All _ front (strip_front-All _ replaced (replace_runs-safe false value)))
      (strip_back-front front (strip_front-front replaced)) (strip_back-back front)

-- The sanitized fragment has only the characters that a key may have, at least one, and no dash at
-- its ends, whatever the value is; and a value is left as it is if and only if it is such a
-- fragment already, so sanitizing twice is sanitizing once.
pub sanitize_fragment_lem :
    (value : Text)
    → IsFragment (sanitize_fragment value)
      × ((sanitize_fragment value ≡ value) ↔ IsFragment value)
      × (sanitize_fragment (sanitize_fragment value) ≡ sanitize_fragment value)
sanitize_fragment_lem value =
    let safe : IsFragment (sanitize_fragment value) = sanitize_fragment-IsFragment value in
    (
      safe,
      (λ e. subst IsFragment e safe, sanitize_fragment_same value),
      sanitize_fragment_same (sanitize_fragment value) safe,
    )
