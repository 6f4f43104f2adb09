-- ===== src/Base/Json.antt =====
-- Values of `JSON.parse`, and property access on them.
use Prim.Native.Nat.{ℕ}
use mathlib.Core.Bool.{Bool}
use mathlib.Core.Option.{Option, none, some}
use setup_soldr.Base.Equality.{◌==◌, nat_eq, list_eq, if◌then◌else◌}
use setup_soldr.Base.Text.{Text}

mutual
  pub data Json : Type 0 where
    null : Json
    bool : Bool → Json
    num : ℕ → Json
    str : Text → Json
    arr : Items → Json
    obj : Fields → Json

  pub data Items : Type 0 where
    nil : Items
    cons : Json → Items → Items

  pub data Fields : Type 0 where
    end : Fields
    field : Text → Json → Fields → Fields

unfoldable pub field_get : Fields → Text → Option Json
field_get end name = none
field_get (field k v fs) name = let rest = field_get fs name in if k == name then some v else rest

-- `value?.[name]` for a name that no string, number or array has.
unfoldable pub prop : Option Json → Text → Option Json
unfolding field_get
prop (some (Json.obj fs)) name = field_get fs name
prop _ name = none
