-- ===== src/AncestorCache/CleanSave/Budget.antt =====
-- Requests within the budget, and what follows an answer.
use setup_soldr.Base.{ℕ, ◌≡◌, refl}
use setup_soldr.Base.{Bool, true, false, ◌&&◌, some}
use setup_soldr.Base.{arith, if◌then◌else◌}
use setup_soldr.Base.{nat_eq, list_eq, option_eq}
use setup_soldr.Base.{Result, ok, err}
use setup_soldr.Base.Text.{Text}
use setup_soldr.AncestorCache.{AncestorKey}
use setup_soldr.AncestorCache.Trust.{TrustedWriter}
use setup_soldr.AncestorCache.CleanSave.{authorizes, Act, admitted, answered}

-- What follows an answer that was admitted.
answered-true {ℓ} :
    {B : Type ℓ} (answer : Result B) (go : B → ℕ → Act) (count : ℕ)
    → (answered answer go count).0 ≡ ok true
    → (b : B) × ((answer ≡ ok b) × ((go b count).0 ≡ ok true))
answered-true (err e) go count h = absurd cc
answered-true (ok b) go count h = (b, (refl, h))

pub admitted-true {ℓ} :
    {B : Type ℓ} (room : Result ℕ) (answer : Result B) (go : B → ℕ → Act) (count : ℕ)
    → (admitted room count (λ later. answered answer go later)).0 ≡ ok true
    → (b : B) × ((answer ≡ ok b) × ((later : ℕ) × ((go b later).0 ≡ ok true)))
admitted-true (err e) answer go count h = absurd cc
admitted-true (ok later) answer go count h =
    let (b, (asked, rest)) = answered-true answer go later h in (b, (asked, (later, rest)))

pub if_true :
    (b : Bool) (m : Text) (count : ℕ) (go : Act)
    → (if b then (err m, count) else go).0 ≡ ok true
    → go.0 ≡ ok true
if_true true m count go h = absurd cc
if_true false m count go h = h

pub and_parts : (a b : Bool) → (a && b) ≡ true → (a ≡ true) × (b ≡ true)
and_parts true b h = (refl, h)
and_parts false b h = absurd cc

pub authorized :
    (w : TrustedWriter) (key : AncestorKey) (id : ℕ)
    → authorizes (some w) key id ≡ true
    → (w.sha ≡ key.sha) × (w.job_id ≡ id)
authorized w key id h = ground arith
