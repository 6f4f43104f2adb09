-- ===== src/Base/Affix.antt =====
-- What it is to start with, end with and contain a text.

use mathlib.Core.Path.{◌≡◌, refl, sym, ◌∙◌, ap}
use mathlib.Core.Logic.{◌↔◌}
use mathlib.Core.Bool.{true}
use mathlib.Core.Option.{Option, none, some}
use mathlib.Core.List.{[], ◌∷◌, ◌++◌, reverse}
use mathlib.Core.List
use native.Mathlib.Omega.{arith}
use setup_soldr.Base.Lists.{is_some}
use setup_soldr.Base.Text.{
  Text, strip_prefix, starts_with, ends_with, contains_text, strip_prefix_sound, starts_with-append,
}

pub starts_with_iff : (s p : Text) → (starts_with s p ≡ true) ↔ ((rest : Text) × (s ≡ p ++ rest))
unfolding starts_with
starts_with_iff s p = (
  λ h. behind (strip_prefix p s) refl h,
  λ (rest, e). ap (λ t. is_some (strip_prefix p t)) e ∙ starts_with-append p rest,
)
  where
    behind :
        (o : Option Text)
        → strip_prefix p s ≡ o
        → is_some o ≡ true
        → (rest : Text) × (s ≡ p ++ rest)
    behind none e h = cc
    behind (some rest) e h = (rest, strip_prefix_sound p s rest e)

pub ends_with_iff : (s p : Text) → (ends_with s p ≡ true) ↔ ((front : Text) × (s ≡ front ++ p))
unfolding ends_with
ends_with_iff s p = (
  λ h.
      let (rest, e) = (starts_with_iff (reverse s) (reverse p)).0 h in
      (
        reverse rest,
        sym (List.reverse-reverse s)
            ∙ (ap reverse e
                ∙ (List.reverse-append (reverse p) rest
                    ∙ ap (λ t. reverse rest ++ t) (List.reverse-reverse p))),
      ),
  λ (front, e).
      (starts_with_iff (reverse s) (reverse p)).1
        (reverse front, ap reverse e ∙ List.reverse-append front p),
)

pub contains_text-middle :
    (before word after : Text) → contains_text (before ++ (word ++ after)) word ≡ true
unfolding contains_text
contains_text-middle [] [] [] = starts_with-append [] []
contains_text-middle [] [] (c ∷ after) = ground (arith, starts_with-append [] (c ∷ after))
contains_text-middle [] (c ∷ word) after = ground (arith, starts_with-append (c ∷ word) after)
contains_text-middle (c ∷ before) word after =
    ground (arith, contains_text-middle before word after)
