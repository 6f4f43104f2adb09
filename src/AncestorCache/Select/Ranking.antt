-- ===== src/AncestorCache/Select/Ranking.antt =====
-- What the loop of `selectAncestorCache` over the entries ranks.
use setup_soldr.Base.{ℕ, ◌+◌, ◌≤◌, ◌≡◌, refl}
use setup_soldr.Base.{◌⊎◌, inl, inr, Option, none, some}
use setup_soldr.Base.{List, [], ◌∷◌, arith, leb}
use setup_soldr.Base.{nat_eq, list_eq, option_eq, Bool-cases, Option-cases}
use setup_soldr.Base.{All, Result, ok, err}
use setup_soldr.Base.{◌>>=◌, >>=-eq-ok, leb→le, le→leb, le→leb}
use setup_soldr.Base.Text.{Text}
use Prim.Native.Nat.{Ordering}
use setup_soldr.Base.{In}
use setup_soldr.Base.{>>=-eq-ok}
use setup_soldr.AncestorCache.{AncestorKey}
use setup_soldr.Base.{
  >>=-eq-ok, Option-cases, Bool-cases, Result, err, leb, leb→le, le→leb, ◌>>=◌, inl, inr, refl, ◌+◌,
  ◌⊎◌, none,
}
use setup_soldr.AncestorCache.Select.{
  AncestorCacheEntry, AncestorBackend, Ranked, candidate_key, push_ranked, rank_entries,
}

module _ (locale_compare : Text → Text → Ordering) (identity : Text) (refs : List Text)
    (backend : AncestorBackend) where
  -- An entry that the loop ranks: its key parses and fits, and the backend knows its distance.
  pub record IsRanked (r : Ranked) : Type 0 where
    pub fits : candidate_key identity refs r.entry ≡ some r.key
    pub measured : backend.distance r.key.sha ≡ ok (some r.distance)
    pub near : r.distance ≤ 200

  unfoldable pub ranks : List AncestorCacheEntry → ℕ → Result (List Ranked)
  unfolding rank_entries
  ranks es n = (rank_entries locale_compare identity refs backend es n).0

  -- A round that ended well: the entry was passed over, or it was measured and perhaps ranked.
  record Measured (x : AncestorCacheEntry) (es : List AncestorCacheEntry) (n : ℕ) (rs : List Ranked)
      : Type 0 where
    key : AncestorKey
    fits : candidate_key identity refs x ≡ some key
    far : Option ℕ
    measured : backend.distance key.sha ≡ ok far
    later : List Ranked
    rest : ranks es (n + 1) ≡ ok later
    pushed : push_ranked x key far later ≡ rs

  abbrev Round : AncestorCacheEntry → List AncestorCacheEntry → ℕ → List Ranked → Type 0
  Round x es n rs =
      ((candidate_key identity refs x ≡ none) × (ranks es n ≡ ok rs)) ⊎ Measured x es n rs

  rank_entries-Round :
      (x : AncestorCacheEntry) (es : List AncestorCacheEntry) (n : ℕ) (rs : List Ranked)
      → ranks (x ∷ es) n ≡ ok rs
      → Round x es n rs
  unfolding ranks
  rank_entries-Round x es n rs e = elim (Option-cases (candidate_key identity refs x)) [
    | inl skipped ↦ inl (skipped, ground arith)
    | inr (key, fits) ↦ inr (go key fits (backend.distance key.sha) refl)
  ]
    where
      go :
          (key : AncestorKey)
          → candidate_key identity refs x ≡ some key
          → (far : Result (Option ℕ)) → backend.distance key.sha ≡ far
          → Measured x es n rs
      go key fits (err m) measured = absurd (ground (arith, fits, measured, e))
      go key fits (ok far) measured =
          let bound : (ranks es (n + 1) >>= λ later. ok (push_ranked x key far later)) ≡ ok rs =
            ground (arith, fits, measured, e) in
          let (later, rest, pushed) = >>=-eq-ok _ _ bound in
          record {
            key = key;
            fits = fits;
            far = far;
            measured = measured;
            later = later;
            rest = rest;
            pushed = cc;
          }

  push_ranked_sound :
      (P : AncestorCacheEntry → Type 0) (x : AncestorCacheEntry) (key : AncestorKey)
      (far : Option ℕ) (later : List Ranked)
      → candidate_key identity refs x ≡ some key
      → backend.distance key.sha ≡ ok far
      → P x
      → All (λ r. IsRanked r × P r.entry) later
      → All (λ r. IsRanked r × P r.entry) (push_ranked x key far later)
  push_ranked_sound P x key none later fits measured p h = h
  push_ranked_sound P x key (some d) later fits measured p h = elim (Bool-cases (leb d 200)) [
    | inl e ↦ rw e ((record { fits = fits; measured = measured; near = leb→le d 200 e }, p), h)
    | inr e ↦ rw e h
  ]

  pub rank_entries_sound :
      (P : AncestorCacheEntry → Type 0) (es : List AncestorCacheEntry) (n : ℕ) (rs : List Ranked)
      → All P es
      → ranks es n ≡ ok rs
      → All (λ r. IsRanked r × P r.entry) rs
  unfolding ranks
  rank_entries_sound P [] n rs h e = let none_ranked : [] ≡ rs = cc in rw (← none_ranked) tt
  rank_entries_sound P (x ∷ es) n rs (p, h) e = elim (rank_entries-Round x es n rs e) [
    | inl (skipped, rest) ↦ rank_entries_sound P es n rs h rest
    | inr m ↦ rw (← m.pushed) (
        push_ranked_sound P x m.key m.far m.later m.fits m.measured p
          (rank_entries_sound P es (n + 1) m.later h m.rest))
  ]

  In-push_ranked :
      (x : AncestorCacheEntry) (key : AncestorKey) (far : Option ℕ) (later : List Ranked)
      (q : Ranked)
      → In q later
      → In q (push_ranked x key far later)
  In-push_ranked x key none later q i = i
  In-push_ranked x key (some d) later q i = ground arith

  In-push_ranked_self :
      (q : Ranked) (later : List Ranked)
      → q.distance ≤ 200
      → In q (push_ranked q.entry q.key (some q.distance) later)
  In-push_ranked_self q later h = rw (le→leb q.distance 200 h) (inl refl)

  -- No entry that fits and is within reach is passed over.
  pub rank_entries_complete :
      (es : List AncestorCacheEntry) (n : ℕ) (rs : List Ranked) (q : Ranked)
      → ranks es n ≡ ok rs
      → IsRanked q
      → In q.entry es
      → In q rs
  rank_entries_complete [] n rs q e r i = absurd i
  rank_entries_complete (x ∷ es) n rs q e r i = elim (rank_entries-Round x es n rs e) [
    | inl (skipped, rest) ↦ elim i [
      | inl same ↦ absurd (cc (skipped, r.fits, same))
      | inr j ↦ rank_entries_complete es n rs q rest r j
    ]
    | inr m ↦ elim i [
      | inl same ↦
          let pushed : push_ranked q.entry q.key (some q.distance) m.later ≡ rs =
            cc (m.pushed, same, m.fits, r.fits, m.measured, r.measured) in
          rw (← pushed) (In-push_ranked_self q m.later r.near)
      | inr j ↦ rw (← m.pushed) (
          In-push_ranked x m.key m.far m.later q
            (rank_entries_complete es (n + 1) m.later q m.rest r j))
    ]
  ]
