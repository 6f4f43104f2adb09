-- ===== src/TargetLifecycle/Plan.antt =====
-- src/lib/target-lifecycle.ts: soldr's plan of a target as a contract. `String` and `Number` of what is
-- no string and no number are parameters; an object is the list of its members.
use setup_soldr.Base.{ℕ}
use setup_soldr.Base.{Option, none, some}
use setup_soldr.Base.{List, [], ◌∷◌}
use setup_soldr.Base.{nat_eq, list_eq, option_eq}
use setup_soldr.Base.Text.{Text, text, trim}
use setup_soldr.Base.Env.{Env}
use setup_soldr.Base.Json.{Json, Items, Fields, prop}
use setup_soldr.TargetLifecycle.{TargetLifecycleContract}

-- `a ?? b`: null counts as absent.
abbrev pub nullish : Option Json → Option Json → Option Json
nullish none b = b
nullish (some Json.null) b = b
nullish (some a) b = some a

unfoldable pub object_record : Option Json → Fields
object_record (some (Json.obj fields)) = fields
object_record value = Fields.end

unfoldable pub string_members : Fields → Env
string_members Fields.end = []
string_members (Fields.field k (Json.str v) fs) = (k, v) ∷ string_members fs
string_members (Fields.field k v fs) = string_members fs

unfoldable pub string_record : Option Json → Env
unfolding object_record string_members
string_record value = string_members (object_record value)

unfoldable pub string_items : Items → List Text
string_items Items.nil = []
string_items (Items.cons (Json.str s) items) = s ∷ string_items items
string_items (Items.cons item items) = string_items items

abbrev pub supported_of : Option Json → List Text
supported_of (some (Json.arr items)) = string_items items
supported_of value = []

module _ (to_text : Json → Text) (to_number : Json → ℕ) where
  abbrev pub string_or : Option Json → Text → Text
  string_or none d = d
  string_or (some (Json.str s)) d = s
  string_or (some v) d = to_text v

  abbrev pub number_or : Option Json → ℕ → ℕ
  number_or none d = d
  number_or (some (Json.num n)) d = n
  number_or (some v) d = to_number v

  abbrev pub in_object : Fields → Text → Option Json
  in_object fields name = prop (some (Json.obj fields)) name

  abbrev pub target_of : Fields → Fields → Text → Text
  target_of root plan fallback = trim (
      string_or
        (nullish
          (nullish (in_object plan (text "canonical_target")) (in_object root (text "rust_triple")))
          none)
        fallback)

  unfoldable pub normalize_target_plan : Text → Option Json → TargetLifecycleContract
  unfolding object_record string_record prop trim text string_items
  normalize_target_plan fallback_target raw =
      let root = object_record raw in
      let plan = object_record (in_object root (text "target_plan")) in
      let target = target_of root plan fallback_target in
      record {
        schema_version =
            number_or
              (nullish
                (nullish (in_object plan (text "schema_version"))
                  (in_object root (text "schema_version")))
                none)
              1;
        canonical_target = target;
        cache_identity = string_or (nullish (in_object plan (text "cache_identity")) none) target;
        supported_operations = supported_of (in_object plan (text "supported_operations"));
        environment = string_record (in_object root (text "env"));
        toolchain = object_record (in_object plan (text "toolchain"));
        platform = object_record (in_object plan (text "platform"));
      }
