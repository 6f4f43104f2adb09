-- ===== src/InputParsers/Laws.antt =====
-- Which values of the idle time are accepted, and as what.
use setup_soldr.Base.{ℕ, ◌*◌, ◌≡◌, refl, sym, ◌∙◌, ap}
use setup_soldr.Base.{◌↔◌, ◌⊎◌, inl, inr, Bool, true, false, Option, none, some}
use setup_soldr.Base.{[], ◌∷◌, ◌++◌, arith, if◌then◌else◌}
use setup_soldr.Base.{nat_eq, list_eq, option_eq, includes}
use setup_soldr.Base.{all, ok}
use setup_soldr.Base.Text.{Text, text}
use setup_soldr.Base.Text.{is_empty}
use setup_soldr.Base.Span.{span, is_digit, StopsAt, span-append, all-span}
use setup_soldr.Base.Decimal.{value}
use setup_soldr.Base.Text.{is_space}
use mathlib.Core.Path.{subst}
use setup_soldr.InputParsers.{
  disabled_words, unit_seconds, times, match_seconds, seconds_or_error, normalized,
  parse_cache_shutdown_on_idle_seconds,
}

-- The value is digits, white space and a unit or none, and no word that disables.
abbrev pub IsSeconds : Text → ℕ → Type 0
IsSeconds v n =
    (includes disabled_words v ≡ false)
    × ((digits : Text) × ((spaces : Text) × ((unit : Text) × ((k : ℕ) × ((v
                  ≡ digits ++ (spaces ++ unit))
                × (((all is_digit digits ≡ true) × (is_empty digits ≡ false))
                    × ((all is_space spaces ≡ true)
                        × ((unit_seconds unit ≡ some k) × (n ≡ value digits * k)))))))))

rejoin : (p : ℕ → Bool) (s : Text) → s ≡ (span p s).0 ++ (span p s).1
unfolding span
rejoin p [] = refl
rejoin p (c ∷ s) = ground (arith, rejoin p s)

some-times : (m n : ℕ) (o : Option ℕ) → times m o ≡ some n → (k : ℕ) × ((o ≡ some k) × (n ≡ m * k))
some-times m n none h = absurd cc
some-times m n (some k) h = (k, (refl, cc))

past :
    (b : Bool) (o : Option ℕ) (n : ℕ)
    → (if b then none else o) ≡ some n
    → (b ≡ false) × (o ≡ some n)
past true o n h = absurd cc
past false o n h = (refl, h)

match_seconds_sound :
    (v : Text) (n : ℕ)
    → includes disabled_words v ≡ false
    → match_seconds v ≡ some n
    → IsSeconds v n
unfolding match_seconds
match_seconds_sound v n free h =
    let (digits, behind) = span is_digit v in
    let (spaces, unit) = span is_space behind in
    let (some_digit, matched) = past _ _ n h in
    let (k, (scale, result)) = some-times _ n _ matched in
    (
      free,
      (
        digits,
        (
          spaces,
          (
            unit,
            (
              k,
              (
                rejoin is_digit v ∙ ap (λ s. digits ++ s) (rejoin is_space behind),
                ((all-span is_digit v, some_digit), (all-span is_space behind, (scale, result))),
              ),
            ),
          ),
        ),
      ),
    )

space_no_digit : (c : ℕ) → is_space c ≡ true → is_digit c ≡ false
unfolding is_space is_digit
space_no_digit c h = ground arith

unit_cases :
    (unit : Text) (k : ℕ)
    → unit_seconds unit ≡ some k
    → (is_empty unit ≡ true) ⊎ ((unit ≡ text "s") ⊎ ((unit ≡ text "m") ⊎ (unit ≡ text "h")))
unfolding unit_seconds
unit_cases unit k h = ground arith

unit_stops :
    (unit : Text) (k : ℕ)
    → unit_seconds unit ≡ some k
    → StopsAt is_digit unit × StopsAt is_space unit
unfolding is_space is_digit text nat_eq
unit_stops unit k h = stops (unit_cases unit k h)
  where
    blank : (s : Text) → is_empty s ≡ true → StopsAt is_digit s × StopsAt is_space s
    blank [] e = (tt, tt)
    blank (c ∷ s) e = absurd cc

    at :
        (u : Text)
        → unit ≡ u
        → StopsAt is_digit u × StopsAt is_space u
        → StopsAt is_digit unit × StopsAt is_space unit
    at u e h = subst (λ s. StopsAt is_digit s × StopsAt is_space s) (sym e) h

    stops :
        (is_empty unit ≡ true) ⊎ ((unit ≡ text "s") ⊎ ((unit ≡ text "m") ⊎ (unit ≡ text "h")))
        → StopsAt is_digit unit × StopsAt is_space unit
    stops (inl e) = blank unit e
    stops (inr (inl e)) = at (text "s") e (refl, refl)
    stops (inr (inr (inl e))) = at (text "m") e (refl, refl)
    stops (inr (inr (inr e))) = at (text "h") e (refl, refl)

digits_stop :
    (spaces unit : Text)
    → all is_space spaces ≡ true
    → StopsAt is_digit unit
    → StopsAt is_digit (spaces ++ unit)
digits_stop [] unit h k = k
digits_stop (c ∷ spaces) unit h k = space_no_digit c (ground arith)

match_spans :
    (digits spaces unit : Text) (k : ℕ)
    → all is_digit digits ≡ true
    → is_empty digits ≡ false
    → all is_space spaces ≡ true
    → unit_seconds unit ≡ some k
    → match_seconds (digits ++ (spaces ++ unit)) ≡ some (value digits * k)
unfolding match_seconds
match_spans digits spaces unit k ds some_digit ss scale =
    let (no_digit, no_space) = unit_stops unit k scale in
    rw
      (
        span-append is_digit digits (spaces ++ unit) ds (digits_stop spaces unit ss no_digit),
        span-append is_space spaces unit ss no_space,
        some_digit,
        scale,
      )
      refl

match_seconds_complete : (v : Text) (n : ℕ) → IsSeconds v n → match_seconds v ≡ some n
match_seconds_complete v n h =
    let (digits, (spaces, (unit, (k, (whole, ((ds, some_digit), (ss, (scale, result)))))))) = h.1 in
    ap match_seconds whole
    ∙ (match_spans digits spaces unit k ds some_digit ss scale ∙ ap some (sym result))

-- The idle time is a number of seconds exactly if the input, without the space around it and in lower
-- case, is no word that disables, and consists of digits, white space and one of the units s, m and h
-- or none; the number is then the digits times 1, 60 or 3600, and times 1 without a unit.
pub parse_cache_shutdown_on_idle_seconds_iff :
    (raw : Text) (n : ℕ)
    → (parse_cache_shutdown_on_idle_seconds raw ≡ ok (some n)) ↔ IsSeconds (normalized raw) n
unfolding parse_cache_shutdown_on_idle_seconds
parse_cache_shutdown_on_idle_seconds_iff raw n =
    (λ h. accepted _ _ refl refl h, λ h. rw (h.0, match_seconds_complete (normalized raw) n h) refl)
  where
    accepted :
        (b : Bool) (o : Option ℕ)
        → includes disabled_words (normalized raw) ≡ b
        → match_seconds (normalized raw) ≡ o
        → (if b then ok none else seconds_or_error raw o) ≡ ok (some n)
        → IsSeconds (normalized raw) n
    accepted true o e f h = absurd cc
    accepted false none e f h = absurd cc
    accepted false (some m) e f h =
        let same : m ≡ n = cc in match_seconds_sound (normalized raw) n e (f ∙ ap some same)
