-- ===== src/Base/Results.antt =====
-- A call that returns or throws. The thrown value is its message.
use Prim.Native.Nat.{ℕ}
use mathlib.Core.Path.{◌≡◌, refl}
use mathlib.Core.Bool.{Bool, true, false}
use mathlib.Core.List.{List}

-- `err` holds the message of the error, as code units.
pub data Result {κ} (T : Type κ) : Type κ where
  err : (message : List ℕ) → Result T
  ok : (value : T) → Result T

-- `if (!holds) throw new Error(message)`
abbrev pub ensure : Bool → List ℕ → Result (Unit {0})
ensure false message = err message
ensure true message = ok tt

-- What follows is run only if nothing was thrown.
infixl 5 ◌>>=◌
abbrev pub ◌>>=◌ {κ μ} : {T : Type κ} {U : Type μ} → Result T → (T → Result U) → Result U
err message >>= follow = err message
ok value >>= follow = follow value

infixl 5 ◌>>◌
abbrev pub ◌>>◌ {μ} : {U : Type μ} → Result (Unit {0}) → Result U → Result U
err message >> follow = err message
ok value >> follow = follow

pub >>=-eq-ok {κ μ} :
    {T : Type κ} {U : Type μ} (call : Result T) (follow : T → Result U) {u : U}
    → (call >>= follow) ≡ ok u
    → (value : T) × (call ≡ ok value) × (follow value ≡ ok u)
>>=-eq-ok (err message) follow h = cc
>>=-eq-ok (ok value) follow h = (value, refl, h)

pub ok_injective {κ} : {T : Type κ} (a b : T) → ok a ≡ ok b → a ≡ b
ok_injective a b h = cc
