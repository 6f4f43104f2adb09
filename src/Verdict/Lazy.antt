-- ===== src/Verdict/Lazy.antt =====
-- A job is lazy exactly if each row of the manifest has its verdict.
use setup_soldr.Base.{ℕ, ◌<◌, ◌≡◌, refl, sym, ap}
use setup_soldr.Base.{◌↔◌, Bool, true, false, not, ◌&&◌, ◌||◌, Option, some}
use setup_soldr.Base.{List, [], ◌∷◌, map, arith, ltb, ◌==◌}
use setup_soldr.Base.{nat_eq, list_eq, option_eq, includes, length}
use setup_soldr.Base.{all, All, Result}
use setup_soldr.Base.Text.{Text}
use setup_soldr.Base.Json.{Json}
use mathlib.Core.Path.{subst}
use setup_soldr.Base.Split.{split, unique_after}
use setup_soldr.Verdict.{
  VerdictPaths, Prediction, RekeyRow, add_rows, no_prediction, rows_of, parse_rekey, record_path,
  is_exact, restore_verdicts, is_lazy,
}
use setup_soldr.Verdict.Rows.{
  IsKeyed, IsClean, add_rows-IsClean, add_rows-keyed, All-unique_after, All_of-unique_after,
  unique_after-some, all-found, found-all, length-map, All-keys,
}

module _ (parse_json : Text → Option Json) (path_join : Text → Text → Text)
    (restore_cache : List Text → Text → Result (Option Text)) (paths : VerdictPaths) where
  -- The row is a gated check with a key, and the cache restored the record of exactly this key.
  abbrev pub Replays : RekeyRow → Type 0
  Replays row =
      IsKeyed row
      × (is_exact path_join restore_cache row.key
            (restore_cache (record_path path_join restore_cache paths row.key ∷ []) row.key)
          ≡ true)

  exact : Text → Bool
  exact key =
      is_exact path_join restore_cache key
        (restore_cache (record_path path_join restore_cache paths key ∷ []) key)

  abbrev found : List Text → List Text
  found keys = restore_verdicts path_join restore_cache keys paths

  lazy_gate :
      (u : Bool) (n m : ℕ) (b : Bool)
      → ((not (u || ltb 0 n || m == 0) && b) ≡ true)
        ↔ (((u ≡ false) × (n ≡ 0)) × ((0 < m) × (b ≡ true)))
  lazy_gate u n m b = (λ h. ground arith, λ h. ground arith)

  lazy_parts :
      (p : Prediction)
      → (is_lazy (some p) (found p.keys) ≡ true)
        ↔ (IsClean p × ((0 < length p.keys) × (all (includes (found p.keys)) p.keys ≡ true)))
  unfolding is_lazy
  lazy_parts p =
      lazy_gate p.ungated p.unkeyable (length p.keys) (all (includes (found p.keys)) p.keys)

  module _ (rows : List RekeyRow) where
    abbrev counted : Prediction
    counted = add_rows rows no_prediction

    abbrev predicted : Prediction
    predicted = record counted { keys = unique_after [] counted.keys }

    predicted-keyed :
        All IsKeyed rows
        → predicted ≡ record no_prediction { keys = unique_after [] (map (λ row. row.key) rows) }
    predicted-keyed h =
        ap {A = Prediction} {B = Prediction} (λ p. record p { keys = unique_after [] p.keys })
          (add_rows-keyed rows no_prediction h)

    exact_rows :
        All IsKeyed rows
        → all (includes (found predicted.keys)) predicted.keys ≡ true
        → All (λ row. exact row.key ≡ true) rows
    unfolding restore_verdicts exact
    exact_rows keyed h =
        let same : predicted.keys ≡ unique_after [] (map (λ row. row.key) rows) =
          ap (λ p. p.keys) (predicted-keyed keyed) in
        (All-keys (λ key. exact key ≡ true) rows).1 (
          All_of-unique_after (λ key. exact key ≡ true) [] (map (λ row. row.key) rows) tt
            (subst (λ ks. All (λ key. exact key ≡ true) ks) same
              (found-all exact predicted.keys h)))

    rows_exact :
        All IsKeyed rows
        → All (λ row. exact row.key ≡ true) rows
        → all (includes (found predicted.keys)) predicted.keys ≡ true
    unfolding restore_verdicts exact
    rows_exact keyed h =
        let same : predicted.keys ≡ unique_after [] (map (λ row. row.key) rows) =
          ap (λ p. p.keys) (predicted-keyed keyed) in
        all-found exact predicted.keys (
          subst (λ ks. All (λ key. exact key ≡ true) ks) (sym same)
            (All-unique_after (λ key. exact key ≡ true) [] (map (λ row. row.key) rows)
              ((All-keys (λ key. exact key ≡ true) rows).0 h)))

    predicted-length : All IsKeyed rows → (0 < length predicted.keys) ↔ (0 < length rows)
    predicted-length keyed =
        let n : length predicted.keys ≡ length (unique_after [] (map (λ row. row.key) rows)) =
          ap (λ p. length p.keys) (predicted-keyed keyed) in
        let (f, g) = unique_after-some (map (λ row. row.key) rows) in
        (
          λ h. subst (λ k. 0 < k) (length-map rows) (f (subst (λ k. 0 < k) n h)),
          λ h. subst (λ k. 0 < k) (sym n) (g (subst (λ k. 0 < k) (sym (length-map rows)) h)),
        )

  split_rows :
      (rows : List RekeyRow)
      → All Replays rows
      → All IsKeyed rows × All (λ row. exact row.key ≡ true) rows
  unfolding exact
  split_rows [] h = (tt, tt)
  split_rows (row ∷ rows) ((k, e), h) = let (ks, es) = split_rows rows h in ((k, ks), (e, es))

  zip_rows :
      (rows : List RekeyRow)
      → All IsKeyed rows
      → All (λ row. exact row.key ≡ true) rows
      → All Replays rows
  unfolding exact
  zip_rows [] h e = tt
  zip_rows (row ∷ rows) (k, ks) (e, es) = ((k, e), zip_rows rows ks es)

  -- A job is lazy exactly if soldr gave at least one row for its manifest, and each row that it gave
  -- is a gated check that has a key here whose record the cache restored under exactly that key.
  pub is_lazy_iff :
      (stdout : Text)
      → (is_lazy
            (some (parse_rekey parse_json stdout))
            (restore_verdicts path_join restore_cache (parse_rekey parse_json stdout).keys paths)
          ≡ true)
        ↔ ((0 < length (rows_of parse_json (split 10 stdout)))
            × All Replays (rows_of parse_json (split 10 stdout)))
  unfolding parse_rekey
  is_lazy_iff stdout =
      let rows = rows_of parse_json (split 10 stdout) in
      let (parts, whole) = lazy_parts (predicted rows) in
      (
        λ h.
            let (clean, (some_key, exact_keys)) = parts h in
            let keyed = (add_rows-IsClean rows no_prediction clean).1 in
            (
              (predicted-length rows keyed).0 some_key,
              zip_rows rows keyed (exact_rows rows keyed exact_keys),
            ),
        λ (some_row, h).
            let (keyed, exact_keys) = split_rows rows h in
            whole (
              subst IsClean (sym (predicted-keyed rows keyed)) (refl, refl),
              ((predicted-length rows keyed).1 some_row, rows_exact rows keyed exact_keys),
            ),
      )
