-- ===== src/Base/Span.antt =====
-- The longest run of characters of a class, which is what a regular expression takes where the
-- character behind the run is not of the class.
use Prim.Native.Nat.{ℕ}
use mathlib.Core.Path.{◌≡◌, refl}
use mathlib.Core.Bool.{Bool, true, false, ◌&&◌, ◌||◌}
use mathlib.Core.List.{[], ◌∷◌, ◌++◌}
use native.Mathlib.Omega.{arith}
use setup_soldr.Base.Equality.{leb}
use setup_soldr.Base.Lists.{all}
use setup_soldr.Base.Text.{Text}

unfoldable pub span : (ℕ → Bool) → Text → Text × Text
span p [] = ([], [])
span p (c ∷ s) =
    let (run, rest) = span p s in elim (p c) [ true ↦ (c ∷ run, rest) | false ↦ ([], c ∷ s) ]

-- `[0-9a-f]`
unfoldable pub is_hex : ℕ → Bool
is_hex c = leb b'0' c && leb c b'9' || leb b'a' c && leb c b'f'

-- `[0-9]`
unfoldable pub is_digit : ℕ → Bool
is_digit c = leb b'0' c && leb c b'9'

-- The text does not go on with a character of the class.
abbrev pub StopsAt : (ℕ → Bool) → Text → Type 0
StopsAt p [] = Unit
StopsAt p (c ∷ s) = p c ≡ false

pub span-append :
    (p : ℕ → Bool) (run rest : Text)
    → all p run ≡ true
    → StopsAt p rest
    → span p (run ++ rest) ≡ (run, rest)
unfolding span
span-append p [] [] h k = refl
span-append p [] (c ∷ rest) h k = rw k
span-append p (c ∷ run) rest h k = ground (arith, span-append p run rest (ground arith) k)

pub all-span : (p : ℕ → Bool) (s : Text) → all p (span p s).0 ≡ true
unfolding span
all-span p [] = refl
all-span p (c ∷ s) = ground (arith, all-span p s)
