-- ===== src/Base/Split.antt =====
-- `String.prototype.split` with one character, and the elements of a Set in the order of insertion.
use Prim.Native.Nat.{ℕ}
use mathlib.Core.Bool.{true, false}
use mathlib.Core.List.{List, [], ◌∷◌}
use setup_soldr.Base.Equality.{◌==◌, nat_eq, list_eq, if◌then◌else◌, includes}
use setup_soldr.Base.Text.{Text}

-- One more character in front of the first part.
abbrev pub extend : ℕ → List Text → List Text
extend c [] = (c ∷ []) ∷ []
extend c (part ∷ parts) = (c ∷ part) ∷ parts

-- `s.split(c)`
unfoldable pub split : ℕ → Text → List Text
split c [] = [] ∷ []
split c (d ∷ s) = let parts = split c s in if d == c then [] ∷ parts else extend d parts

-- The last part: `s.split(c).pop()`.
abbrev pub last_part : Text → List Text → Text
last_part t [] = t
last_part t (u ∷ parts) = last_part u parts

-- `[...new Set([...seen, ...keys])]` less `seen`.
unfoldable pub unique_after : List Text → List Text → List Text
unique_after seen [] = []
unique_after seen (k ∷ keys) =
    let rest = unique_after (k ∷ seen) keys in
    elim (includes seen k) [ true ↦ rest | false ↦ k ∷ rest ]
