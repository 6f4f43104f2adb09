-- ===== src/CacheKeys/Quote.antt =====
-- src/lib/cache-keys.ts: `JSON.stringify` of a string, as the canonical text uses it.
use mathlib.Core.List.{append_assoc}
use setup_soldr.Base.{ℕ, ◌+◌, ◌-◌, ◌*◌, ◌/◌, ◌%◌, ◌<◌, ◌≡◌, refl, sym, ap}
use setup_soldr.Base.{Bool, true, false, not, ◌&&◌, ◌||◌, Option, none, some}
use setup_soldr.Base.{[], ◌∷◌, ◌++◌, arith, if◌then◌else◌, ltb, leb, ◌==◌}
use setup_soldr.Base.{nat_eq, list_eq, option_eq}
use setup_soldr.Base.Text.{Text}

-- One of the escapes of one letter, or none.
unfoldable pub short_escape : ℕ → Option ℕ
short_escape c =
    if c == b'"'
    then some b'"'
    else if c == 92
    then some 92
    else if c == 8
    then some b'b'
    else if c == 12
    then some b'f'
    else if c == 10
    then some b'n'
    else if c == 13
    then some b'r'
    else if c == 9
    then some b't'
    else none

abbrev pub hex_digit : ℕ → ℕ
hex_digit d = if ltb d 10 then b'0' + d else 87 + d

-- `\u` and the four digits of a code unit.
abbrev pub unicode_escape : ℕ → Text
unicode_escape c =
    92
    ∷ b'u'
    ∷ hex_digit (c / 4096)
    ∷ hex_digit (c / 256 % 16)
    ∷ hex_digit (c / 16 % 16)
    ∷ hex_digit (c % 16)
    ∷ []

abbrev pub is_high : ℕ → Bool
is_high c = leb 0xd800 c && leb c 0xdbff

abbrev pub is_low : ℕ → Bool
is_low c = leb 0xdc00 c && leb c 0xdfff

abbrev pub next_is_low : Text → Bool
next_is_low [] = false
next_is_low (c ∷ s) = is_low c

-- A control character, or one half of a surrogate pair without the other half.
abbrev pub needs_unicode : ℕ → ℕ → Text → Bool
needs_unicode before c s =
    ltb c 32 || is_high c && not (next_is_low s) || is_low c && not (is_high before)

abbrev pub escape_as : ℕ → Bool → Option ℕ → Text
escape_as c unicode (some letter) = 92 ∷ letter ∷ []
escape_as c true none = unicode_escape c
escape_as c false none = c ∷ []

-- The units of a text behind the unit `before`, and the closing quotation mark.
unfoldable pub quote_after : ℕ → Text → Text
unfolding short_escape
quote_after before [] = b'"' ∷ []
quote_after before (c ∷ s) =
    escape_as c (needs_unicode before c s) (short_escape c) ++ quote_after c s

-- `JSON.stringify(s)` of a string
unfoldable pub quote : Text → Text
unfolding quote_after
quote s = b'"' ∷ quote_after 0 s

abbrev hex_value : ℕ → ℕ
hex_value d = if ltb d 97 then d - b'0' else d - 87

abbrev long_letter : ℕ → ℕ
long_letter x =
    if x == b'b'
    then 8
    else if x == b'f'
    then 12
    else if x == b'n'
    then 10
    else if x == b'r'
    then 13
    else if x == b't'
    then 9
    else x

-- Reads one unit of a quoted text back: none where the text ends.
abbrev read_hex : Text → Option (ℕ × Text)
read_hex (a ∷ b ∷ c ∷ d ∷ s) =
    some (hex_value a * 4096 + hex_value b * 256 + hex_value c * 16 + hex_value d, s)
read_hex _ = none

abbrev read_escape : Text → Option (ℕ × Text)
read_escape [] = none
read_escape (x ∷ s) = if x == b'u' then read_hex s else some (long_letter x, s)

read_unit : Text → Option (ℕ × Text)
read_unit [] = none
read_unit (c ∷ s) = if c == b'"' then none else if c == 92 then read_escape s else some (c, s)

hex_value-hex_digit : (d : ℕ) → d < 16 → hex_value (hex_digit d) ≡ d
hex_value-hex_digit d h = ground arith

short_escape-cases :
    (c x : ℕ) → short_escape c ≡ some x → (long_letter x ≡ c) × ((x == b'u') ≡ false)
unfolding short_escape
short_escape-cases c x h = ground arith

short_escape-none : (c : ℕ) → short_escape c ≡ none → ((c == b'"') ≡ false) × ((c == 92) ≡ false)
unfolding short_escape
short_escape-none c h = ground arith

read_unit-plain : (c : ℕ) (r : Text) → short_escape c ≡ none → read_unit (c ∷ r) ≡ some (c, r)
unfolding read_unit
read_unit-plain c r h =
    let p : ((c == b'"') ≡ false) × ((c == 92) ≡ false) = short_escape-none c h in
    rw (p.0, p.1) refl

read_unit-short :
    (c x : ℕ) (r : Text) → short_escape c ≡ some x → read_unit (92 ∷ x ∷ r) ≡ some (c, r)
unfolding read_unit nat_eq
read_unit-short c x r h =
    let p : (long_letter x ≡ c) × ((x == b'u') ≡ false) = short_escape-cases c x h in
    rw (p.1, p.0) refl

read_unit-unicode :
    (c : ℕ) (r : Text) → c < 0x10000 → read_unit (unicode_escape c ++ r) ≡ some (c, r)
unfolding read_unit nat_eq
read_unit-unicode c r h =
    rw
      (
        hex_value-hex_digit (c / 4096) (omega arith),
        hex_value-hex_digit (c / 256 % 16) (omega arith),
        hex_value-hex_digit (c / 16 % 16) (omega arith),
        hex_value-hex_digit (c % 16) (omega arith),
      )
      (ap (λ n. some (n, r)) (omega arith))

unicode_bound : (before c : ℕ) (s : Text) → needs_unicode before c s ≡ true → c < 0x10000
unicode_bound before c s h = ground arith

read_unit-escape_as :
    (c : ℕ) (unicode : Bool) (o : Option ℕ) (r : Text)
    → (unicode ≡ true → c < 0x10000)
    → short_escape c ≡ o
    → read_unit (escape_as c unicode o ++ r) ≡ some (c, r)
read_unit-escape_as c unicode (some x) r h e = read_unit-short c x r e
read_unit-escape_as c true none r h e = read_unit-unicode c r (h refl)
read_unit-escape_as c false none r h e = read_unit-plain c r e

read_unit-quote_after :
    (before c : ℕ) (s r : Text)
    → read_unit (quote_after before (c ∷ s) ++ r) ≡ some (c, quote_after c s ++ r)
unfolding quote_after
read_unit-quote_after before c s r =
    rw (append_assoc (escape_as c (needs_unicode before c s) (short_escape c))) (
      read_unit-escape_as c (needs_unicode before c s) (short_escape c) (quote_after c s ++ r)
        (unicode_bound before c s) refl)

read_unit-end : (before : ℕ) (r : Text) → read_unit (quote_after before [] ++ r) ≡ none
unfolding read_unit quote_after nat_eq
read_unit-end before r = refl

ends_apart : (u v : Text) (p : ℕ × Text) → u ≡ v → read_unit u ≡ none → read_unit v ≡ some p → ⊥
ends_apart u v p h e f = cc

units_alike :
    (u v : Text) {c d : ℕ} {r q : Text}
    → u ≡ v
    → read_unit u ≡ some (c, r)
    → read_unit v ≡ some (d, q)
    → (c ≡ d) × (r ≡ q)
units_alike u v h e f = (cc, cc)

quote_after-injective :
    (before before' : ℕ) (s t r q : Text)
    → quote_after before s ++ r ≡ quote_after before' t ++ q
    → (s ≡ t) × (r ≡ q)
quote_after-injective before before' [] [] r q h = unfold quote_after in (refl, cc)
quote_after-injective before before' [] (d ∷ t) r q h =
    absurd (ends_apart _ _ _ h (read_unit-end before r) (read_unit-quote_after before' d t q))
quote_after-injective before before' (c ∷ s) [] r q h =
    absurd (ends_apart _ _ _ (sym h) (read_unit-end before' q) (read_unit-quote_after before c s r))
quote_after-injective before before' (c ∷ s) (d ∷ t) r q h =
    let e : (c ≡ d) × (quote_after c s ++ r ≡ quote_after d t ++ q) =
      units_alike _ _ h (read_unit-quote_after before c s r)
        (read_unit-quote_after before' d t q) in
    let k : (s ≡ t) × (r ≡ q) = quote_after-injective c d s t r q e.1 in (cc (e.0, k.0), k.1)

-- A quoted text shows where it ends, so what stands behind it does not blur it.
pub quote-injective : (s t r q : Text) → quote s ++ r ≡ quote t ++ q → (s ≡ t) × (r ≡ q)
unfolding quote
quote-injective s t r q h = quote_after-injective 0 0 s t r q (cc)
