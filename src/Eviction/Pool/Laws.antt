-- ===== src/Eviction/Pool/Laws.antt =====
-- What every run of the pool keeps, whatever the order in which the deletes settle.
use setup_soldr.Base.{ℕ, suc, ◌+◌, ◌≤◌, ◌≡◌, refl, ◌∙◌}
use setup_soldr.Base.{true}
use setup_soldr.Base.{List, [], ◌∷◌, ◌++◌, arith}
use setup_soldr.Base.{nat_eq, list_eq, option_eq, length}
use setup_soldr.Base.{length-append}
use setup_soldr.Eviction.{CacheEntry}
use setup_soldr.Eviction.Pool.{
  Pool, start_pool, take_entry, settle_entry, removed, failed, Step, take_next, settle, Reach, here,
  next, concurrency,
}
use mathlib.Core.List.{append_assoc}

unfoldable pub total_size : List CacheEntry → ℕ
total_size [] = 0
total_size (c ∷ cs) = c.size_in_bytes + total_size cs

total_size-append :
    (xs ys : List CacheEntry) → total_size (xs ++ ys) ≡ total_size xs + total_size ys
unfolding total_size
total_size-append [] ys = omega arith
total_size-append (x ∷ xs) ys = omega (arith, total_size-append xs ys)

module _ (to_delete : List CacheEntry) where
  pub record IsValid (s : Pool) : Type 0 where
    -- Every entry is asked for at most once, and in the order of the queue.
    pub in_order : s.asked ++ s.waiting ≡ to_delete
    pub bounded : length s.in_flight ≤ concurrency
    pub counted : s.deleted ≡ length s.gone
    pub weighed : s.deleted_bytes ≡ total_size s.gone
    -- Each call is still out, succeeded or failed.
    pub settled : length s.asked ≡ length s.gone + length s.kept + length s.in_flight
    pub settled_bytes :
        total_size s.asked ≡ total_size s.gone + total_size s.kept + total_size s.in_flight

  start_pool-IsValid : IsValid (start_pool to_delete)
  unfolding start_pool total_size
  start_pool-IsValid = record {
    in_order = refl;
    bounded = omega arith;
    counted = refl;
    weighed = refl;
    settled = refl;
    settled_bytes = refl;
  }

  Step-IsValid : {s t : Pool} → Step s t → IsValid s → IsValid t
  unfolding take_entry settle_entry total_size
  Step-IsValid (take_next s c rest go e room) v = record {
    in_order = append_assoc s.asked (c ∷ []) rest ∙ rw (← e) v.in_order;
    bounded = omega arith;
    counted = v.counted;
    weighed = v.weighed;
    settled = omega (arith, length-append s.asked (c ∷ []));
    settled_bytes = omega (arith, total_size-append s.asked (c ∷ []));
  }
  Step-IsValid (settle s removed c before after e) v =
      let flying : length s.in_flight ≡ length before + suc (length after) =
        rw e (length-append before (c ∷ after)) in
      let weight : total_size s.in_flight
          ≡ total_size before + (c.size_in_bytes + total_size after) =
        rw e (total_size-append before (c ∷ after)) in
      record {
        in_order = v.in_order;
        bounded = omega (arith, length-append before after);
        counted = omega arith;
        weighed = omega arith;
        settled = omega (arith, length-append before after);
        settled_bytes = omega (arith, total_size-append before after);
      }
  Step-IsValid (settle s (failed o) c before after e) v =
      let flying : length s.in_flight ≡ length before + suc (length after) =
        rw e (length-append before (c ∷ after)) in
      let weight : total_size s.in_flight
          ≡ total_size before + (c.size_in_bytes + total_size after) =
        rw e (total_size-append before (c ∷ after)) in
      record {
        in_order = v.in_order;
        bounded = omega (arith, length-append before after);
        counted = v.counted;
        weighed = v.weighed;
        settled = omega (arith, length-append before after);
        settled_bytes = omega (arith, total_size-append before after);
      }

  -- However the deletes of a pass interleave, the API is asked for the picked entries in the order
  -- of the queue and for none twice, at most ten deletes are out at a time, the counters are those
  -- of the entries that are gone, and every call is out, succeeded or failed.
  pub Reach-IsValid : {s : Pool} → Reach (start_pool to_delete) s → IsValid s
  Reach-IsValid here = start_pool-IsValid
  Reach-IsValid (next r st) = Step-IsValid st (Reach-IsValid r)

Step-aborted :
    {t u : Pool}
    → Step t u
    → t.aborted ≡ true
    → (u.aborted ≡ true) × (u.asked ≡ t.asked) × (u.waiting ≡ t.waiting)
unfolding take_entry settle_entry
Step-aborted (take_next s c rest running e room) h = absurd (cc (running, h))
Step-aborted (settle s removed c before after e) h = (h, refl, refl)
Step-aborted (settle s (failed o) c before after e) h = (ground arith, refl, refl)

-- Once a delete was denied (401 or 403), no further delete is asked for, whatever still settles.
pub Reach-aborted :
    {s t : Pool}
    → s.aborted ≡ true
    → Reach s t
    → (t.aborted ≡ true) × (t.asked ≡ s.asked) × (t.waiting ≡ s.waiting)
Reach-aborted stopped here = (stopped, refl, refl)
Reach-aborted stopped (next r st) =
    let (h, i, j) = Reach-aborted stopped r in
    let (h', i', j') = Step-aborted st h in (h', i' ∙ i, j' ∙ j)
