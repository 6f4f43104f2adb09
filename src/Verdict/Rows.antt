-- ===== src/Verdict/Rows.antt =====
-- The rows of a rekey and the keys that they give.
use setup_soldr.Base.{◌<◌, ◌≡◌, refl, sym, ◌∙◌, ap}
use setup_soldr.Base.{◌↔◌, Bool, true, false}
use setup_soldr.Base.{List, [], ◌∷◌, ◌++◌, map, arith}
use setup_soldr.Base.{nat_eq, list_eq, option_eq, includes, length}
use setup_soldr.Base.{filter, all, All}
use setup_soldr.Base.Text.{Text}
use setup_soldr.Base.Text.{is_empty}
use setup_soldr.Base.{In, All-In, All-filter, All-In_self, All-map_of, All-zip}
use mathlib.Core.List.{append_assoc, append-nil}
use setup_soldr.Base.Split.{unique_after}
use setup_soldr.Verdict.{Prediction, RekeyRow, add_row, add_rows}

all_of : (p : Text → Bool) (keys : List Text) → All (λ k. p k ≡ true) keys → all p keys ≡ true
all_of p [] h = refl
all_of p (k ∷ keys) (e, h) = ground (arith, all_of p keys h)

of_all : (p : Text → Bool) (keys : List Text) → all p keys ≡ true → All (λ k. p k ≡ true) keys
of_all p [] h = tt
of_all p (k ∷ keys) h = ground (arith, of_all p keys)

-- The row is a check that soldr gates and could key here.
abbrev pub IsKeyed : RekeyRow → Type 0
IsKeyed row = (row.is_ungated ≡ false) × (is_empty row.key ≡ false)

abbrev pub IsClean : Prediction → Type 0
IsClean p = (p.ungated ≡ false) × (p.unkeyable ≡ 0)

add_row-IsClean :
    (row : RekeyRow) (p : Prediction) → IsClean (add_row row p) → IsClean p × IsKeyed row
unfolding add_row
add_row-IsClean row p h = ground arith

pub add_rows-IsClean :
    (rows : List RekeyRow) (p : Prediction)
    → IsClean (add_rows rows p)
    → IsClean p × All IsKeyed rows
unfolding add_rows
add_rows-IsClean [] p h = (h, tt)
add_rows-IsClean (row ∷ rows) p h =
    let (later, keyed) = add_rows-IsClean rows (add_row row p) h in
    let (clean, this) = add_row-IsClean row p later in (clean, (this, keyed))

add_row-keyed :
    (row : RekeyRow) (p : Prediction)
    → IsKeyed row
    → add_row row p ≡ record p { keys = p.keys ++ (row.key ∷ []) }
unfolding add_row
add_row-keyed row p h = ground arith

pub add_rows-keyed :
    (rows : List RekeyRow) (p : Prediction)
    → All IsKeyed rows
    → add_rows rows p ≡ record p { keys = p.keys ++ map (λ row. row.key) rows }
unfolding add_rows
add_rows-keyed [] p h = ap (λ keys. record p { keys = keys }) (sym (append-nil p.keys))
add_rows-keyed (row ∷ rows) p (k, h) =
    ap (add_rows rows) (add_row-keyed row p k)
    ∙ (add_rows-keyed rows (record p { keys = p.keys ++ (row.key ∷ []) }) h
        ∙ ap (λ keys. record p { keys = keys })
            (append_assoc p.keys (row.key ∷ []) (map (λ r. r.key) rows)))

In_of-includes : (keys : List Text) (k : Text) → includes keys k ≡ true → In k keys
In_of-includes [] k h = absurd cc
In_of-includes (x ∷ keys) k h = ground (arith, In_of-includes keys k)

includes-In : (keys : List Text) (k : Text) → In k keys → includes keys k ≡ true
includes-In [] k i = absurd i
includes-In (x ∷ keys) k i = ground (arith, includes-In keys k)

module _ (P : Text → Type 0) where
  pub All-unique_after : (seen keys : List Text) → All P keys → All P (unique_after seen keys)
  unfolding unique_after
  All-unique_after seen [] h = tt
  All-unique_after seen (k ∷ keys) (p, h) = ground (arith, All-unique_after (k ∷ seen) keys h)

  pub All_of-unique_after :
      (seen keys : List Text) → All P seen → All P (unique_after seen keys) → All P keys
  unfolding unique_after
  All_of-unique_after seen [] g h = tt
  All_of-unique_after seen (k ∷ keys) g h =
      known (includes seen k) refl h (λ p later. All_of-unique_after (k ∷ seen) keys (p, g) later)
    where
      known :
          (b : Bool)
          → includes seen k ≡ b
          → All P (elim b [
            | true ↦ unique_after (k ∷ seen) keys
            | false ↦ k ∷ unique_after (k ∷ seen) keys
          ])
          → (P k → All P (unique_after (k ∷ seen) keys) → All P keys)
          → All P (k ∷ keys)
      known true e h go = let p : P k = All-In P k seen g (In_of-includes seen k e) in (p, go p h)
      known false e (p, h) go = (p, go p h)

pub unique_after-some : (keys : List Text) → (0 < length (unique_after [] keys)) ↔ (0 < length keys)
unfolding unique_after
unique_after-some [] = (λ h. h, λ h. h)
unique_after-some (k ∷ keys) = (λ h. omega arith, λ h. omega arith)

module _ (q : Text → Bool) where
  In-filter : (k : Text) (keys : List Text) → q k ≡ true → In k keys → In k (filter q keys)
  In-filter k [] h i = absurd i
  In-filter k (x ∷ keys) h i = ground (arith, In-filter k keys h)

  -- All keys are among those that passed exactly if all pass.
  pub all-found :
      (keys : List Text) → All (λ k. q k ≡ true) keys → all (includes (filter q keys)) keys ≡ true
  all-found keys h = all_of (includes (filter q keys)) keys (
      All-map_of (λ k. (q k ≡ true) × In k keys) (λ k. includes (filter q keys) k ≡ true)
        (λ k (p, i). includes-In (filter q keys) k (In-filter k keys p i)) keys
        (All-zip (λ k. q k ≡ true) (λ k. In k keys) keys h (All-In_self keys)))

  pub found-all :
      (keys : List Text) → all (includes (filter q keys)) keys ≡ true → All (λ k. q k ≡ true) keys
  found-all keys h =
      All-map_of (λ k. includes (filter q keys) k ≡ true) (λ k. q k ≡ true)
        (λ k e.
          All-In (λ x. q x ≡ true) k (filter q keys) (All-filter q keys)
            (In_of-includes (filter q keys) k e))
        keys (of_all (includes (filter q keys)) keys h)

pub length-map : (rows : List RekeyRow) → length (map (λ row. row.key) rows) ≡ length rows
length-map [] = refl
length-map (row ∷ rows) = omega (arith, length-map rows)

pub All-keys :
    (P : Text → Type 0) (rows : List RekeyRow)
    → All (λ row. P row.key) rows ↔ All P (map (λ row. row.key) rows)
All-keys P [] = (λ h. h, λ h. h)
All-keys P (row ∷ rows) =
    (λ (p, h). (p, (All-keys P rows).0 h), λ (p, h). (p, (All-keys P rows).1 h))
