-- ===== src/Base/Decimal.antt =====
-- `String(n)` and `Number(digits)` for natural numbers, and the pattern `[1-9][0-9]*`.
use Prim.Native.Nat.{ℕ, zero, suc, ◌+◌, ◌-◌, ◌*◌, ◌/◌, ◌%◌, ◌<◌}
use mathlib.Core.Path.{◌≡◌, refl}
use mathlib.Core.Bool.{Bool, true, false}
use mathlib.Core.Option.{Option, none, some}
use mathlib.Core.List.{[], ◌∷◌, ◌++◌, foldl, foldl-append}
use native.Mathlib.Omega.{arith}
use setup_soldr.Base.Equality.{ltb, if◌then◌else◌, Bool-cases, ltb→lt}
use setup_soldr.Base.Lists.{all}
use mathlib.Core.Logic.{inl, inr}
use setup_soldr.Base.Span.{span, is_digit, StopsAt, span-append}
use setup_soldr.Base.Text.{Text}

-- Fuel above the number is enough, since every round divides by ten.
unfoldable pub decimal_fuel : ℕ → ℕ → Text
decimal_fuel zero n = []
decimal_fuel (suc f) n =
    let upper = decimal_fuel f (n / 10) in
    if ltb n 10 then (b'0' + n) ∷ [] else upper ++ ((b'0' + n % 10) ∷ [])

unfoldable pub decimal : ℕ → Text
unfolding decimal_fuel
decimal n = decimal_fuel (suc n) n

abbrev digit_step : ℕ → ℕ → ℕ
digit_step acc c = acc * 10 + (c - b'0')

unfoldable pub value : Text → ℕ
value digits = foldl digit_step 0 digits

abbrev leads_nonzero : Text → Bool
leads_nonzero [] = false
leads_nonzero (c ∷ s) = ltb b'0' c

abbrev positive : Text × Text → Option (ℕ × Text)
positive (digits, rest) = if leads_nonzero digits then some (value digits, rest) else none

-- `([1-9][0-9]*)` at the front of a text, with its value and what follows.
unfoldable pub number : Text → Option (ℕ × Text)
unfolding span is_digit value
number s = positive (span is_digit s)

value-decimal_fuel : (f n : ℕ) → n < f → value (decimal_fuel f n) ≡ n
unfolding value decimal_fuel
value-decimal_fuel zero n h = elim h [ ]
value-decimal_fuel (suc f) n h = elim (Bool-cases (ltb n 10)) [
  | inl e ↦ rw e (omega (arith, ltb→lt n 10 e))
  | inr e ↦ rw (e, foldl-append) (ground (arith, value-decimal_fuel f (n / 10) (ground arith)))
]

all-append_digit :
    (s : Text) (c : ℕ)
    → all is_digit s ≡ true
    → is_digit c ≡ true
    → all is_digit (s ++ c ∷ []) ≡ true
all-append_digit [] c h k = rw k
all-append_digit (d ∷ s) c h k = ground (arith, all-append_digit s c (ground arith) k)

decimal_fuel_digits : (f n : ℕ) → all is_digit (decimal_fuel f n) ≡ true
unfolding decimal_fuel is_digit
decimal_fuel_digits zero n = refl
decimal_fuel_digits (suc f) n = elim (Bool-cases (ltb n 10)) [
  | inl e ↦ rw e (ground arith)
  | inr e ↦ rw e (
      all-append_digit (decimal_fuel f (n / 10)) (b'0' + n % 10) (decimal_fuel_digits f (n / 10))
        (ground arith))
]

leads_nonzero-append : (s t : Text) → leads_nonzero s ≡ true → leads_nonzero (s ++ t) ≡ true
leads_nonzero-append [] t h = cc
leads_nonzero-append (c ∷ s) t h = h

decimal_fuel_leads : (f n : ℕ) → n < f → 0 < n → leads_nonzero (decimal_fuel f n) ≡ true
unfolding decimal_fuel
decimal_fuel_leads zero n h p = elim h [ ]
decimal_fuel_leads (suc f) n h p = elim (Bool-cases (ltb n 10)) [
  | inl e ↦ rw e (ground arith)
  | inr e ↦ rw e (
      leads_nonzero-append (decimal_fuel f (n / 10)) ((b'0' + n % 10) ∷ [])
        (decimal_fuel_leads f (n / 10) (ground arith) (ground arith)))
]

pub value-decimal : (n : ℕ) → value (decimal n) ≡ n
unfolding decimal
value-decimal n = value-decimal_fuel (suc n) n (omega arith)

pub number-decimal :
    (n : ℕ) (rest : Text)
    → 0 < n
    → StopsAt is_digit rest
    → number (decimal n ++ rest) ≡ some (n, rest)
unfolding number
number-decimal n rest p h =
    let digits : all is_digit (decimal n) ≡ true =
      unfold decimal in decimal_fuel_digits (suc n) n in
    let leads : leads_nonzero (decimal n) ≡ true =
      unfold decimal in decimal_fuel_leads (suc n) n (omega arith) p in
    rw (span-append is_digit (decimal n) rest digits h, leads, value-decimal n)
