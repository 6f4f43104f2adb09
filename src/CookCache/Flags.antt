-- ===== src/CookCache/Flags.antt =====
-- src/lib/cook-cache.ts: the flags of the build that its dependencies depend on.
use setup_soldr.Base.{◌≡◌, refl}
use setup_soldr.Base.{Bool, true, false, not, ◌||◌}
use setup_soldr.Base.{List, [], ◌∷◌, ◌++◌, map, arith, ◌==◌}
use setup_soldr.Base.{nat_eq, list_eq, option_eq, includes, take}
use setup_soldr.Base.{filter, All}
use setup_soldr.Base.Text.{Text, text, trim}
use setup_soldr.Base.Text.{is_empty}
use setup_soldr.Base.Sort.{compare_text, sort}

-- Each text with a zero behind it.
unfoldable pub framed : List Text → Text
framed [] = []
framed (t ∷ ts) = t ++ (0 ∷ framed ts)

unfoldable pub flag_list : List Text → List Text
unfolding trim sort compare_text
flag_list flags = sort compare_text (filter (λ s. not (is_empty s)) (map trim flags))

unfoldable pub hash_cook_flags : (Text → Text) → List Text → Text
unfolding flag_list framed text
hash_cook_flags sha256 flags =
    let sorted = flag_list flags in
    elim sorted [ [] ↦ text "none" | t ∷ ts ↦ take 8 (sha256 (framed (t ∷ ts))) ]

unfoldable pub cosmetic : List Text
unfolding text
cosmetic =
    text "--verbose"
    ∷ text "-v"
    ∷ text "-vv"
    ∷ text "--quiet"
    ∷ text "-q"
    ∷ text "--color=auto"
    ∷ text "--color=always"
    ∷ text "--color=never"
    ∷ []

-- The flags that come with a value behind them.
unfoldable pub takes_value : Text → Bool
unfolding text
takes_value f = f == text "--color" || f == text "--message-format"

-- The Boolean is true if the last flag has its value here.
unfoldable pub canonicalize_from : Bool → List Text → List Text
canonicalize_from b [] = []
canonicalize_from true (f ∷ fs) = canonicalize_from false fs
canonicalize_from false (f ∷ fs) = elim (includes cosmetic f) [
  | true ↦ canonicalize_from false fs
  | false ↦ elim (takes_value f) [
    | true ↦ canonicalize_from true fs
    | false ↦ f ∷ canonicalize_from false fs
  ]
]

unfoldable pub canonicalize_cook_flags : List Text → List Text
unfolding canonicalize_from
canonicalize_cook_flags flags = canonicalize_from false flags

-- The flags that neither are cosmetic nor take a value.
pub Kept : Text → Type 0
Kept f = (includes cosmetic f ≡ false) × (takes_value f ≡ false)

canonicalize_from-Kept : (b : Bool) (fs : List Text) → All Kept (canonicalize_from b fs)
unfolding canonicalize_from Kept
canonicalize_from-Kept b [] = tt
canonicalize_from-Kept true (f ∷ fs) = canonicalize_from-Kept false fs
canonicalize_from-Kept false (f ∷ fs) =
    ground (arith, canonicalize_from-Kept false fs, canonicalize_from-Kept true fs)

canonicalize_from_of_Kept : (fs : List Text) → All Kept fs → canonicalize_from false fs ≡ fs
unfolding canonicalize_from Kept
canonicalize_from_of_Kept [] h = refl
canonicalize_from_of_Kept (f ∷ fs) ((h, k), hs) = ground (arith, canonicalize_from_of_Kept fs hs)

-- The canonical flags name no cosmetic flag and no flag that takes a value, and making them
-- canonical again changes nothing.
pub canonicalize_cook_flags_idempotent :
    (flags : List Text)
    → All Kept (canonicalize_cook_flags flags)
      × (canonicalize_cook_flags (canonicalize_cook_flags flags) ≡ canonicalize_cook_flags flags)
unfolding canonicalize_cook_flags
canonicalize_cook_flags_idempotent flags =
    let kept = canonicalize_from-Kept false flags in
    (kept, canonicalize_from_of_Kept (canonicalize_from false flags) kept)
