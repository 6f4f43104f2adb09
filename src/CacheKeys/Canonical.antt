-- ===== src/CacheKeys/Canonical.antt =====
-- src/lib/cache-keys.ts: the canonical text of a value, and the hashes made of it. The digest is a
-- parameter: SHA-256 of the bytes that a hasher is given one after the other, in hexadecimal.
use setup_soldr.Base.{ℕ}
use setup_soldr.Base.{Bool, true, false, ◌&&◌, ◌||◌}
use setup_soldr.Base.{List, [], ◌∷◌, ◌++◌, map, ◌==◌}
use setup_soldr.Base.{nat_eq, list_eq, option_eq, take}
use setup_soldr.Base.{filter}
use setup_soldr.Base.Text.{Text, text, starts_with, ends_with, join}
use setup_soldr.Base.Env.{Env}
use setup_soldr.Base.Json.{Json, Items, Fields}
use setup_soldr.Base.Decimal.{decimal}
use setup_soldr.Base.Sort.{compare_text, sort}
use Prim.Native.Nat.{Ordering}
use setup_soldr.CacheKeys.Quote.{quote}

-- What a hasher is given: a text, by its UTF-8 bytes, or bytes.
pub data Chunk : Type 0 where
  utf8 : Text → Chunk
  bytes : List ℕ → Chunk

-- `key:value` of an object.
abbrev pub member : Text × Text → Text
member (key, printed) = quote key ++ (b':' ∷ printed)

abbrev pub by_key : Text × Text → Text × Text → Ordering
by_key a b = compare_text a.0 b.0

abbrev pub print_members : List (Text × Text) → Text
print_members members = text "{" ++ (join (text ",") (map member members) ++ text "}")

-- `stringify(value)`. An absent value counts as null; the numbers are natural ones. The values of
-- an object are printed before its keys are sorted, which no printed value depends on.
unfoldable mutual
  unfolding quote decimal sort compare_text join text

  pub stringify : Json → Text
  stringify Json.null = text "null"
  stringify (Json.bool true) = text "true"
  stringify (Json.bool false) = text "false"
  stringify (Json.num n) = decimal n
  stringify (Json.str s) = quote s
  stringify (Json.arr items) = text "[" ++ (join (text ",") (stringify_items items) ++ text "]")
  stringify (Json.obj fields) = print_members (sort by_key (stringify_fields fields))

  pub stringify_items : Items → List Text
  stringify_items Items.nil = []
  stringify_items (Items.cons v vs) = stringify v ∷ stringify_items vs

  pub stringify_fields : Fields → List (Text × Text)
  stringify_fields Fields.end = []
  stringify_fields (Fields.field k v fs) = (k, stringify v) ∷ stringify_fields fs

abbrev pub canonical_json_stringify : Json → Text
canonical_json_stringify value = stringify value

-- A `Record<string, string>` as a value.
unfoldable pub record_fields : Env → Fields
record_fields [] = Fields.end
record_fields ((k, v) ∷ env) = Fields.field k (Json.str v) (record_fields env)

abbrev pub record_value : Env → Json
record_value env = Json.obj (record_fields env)

-- The variables of `targetEnvHash`.
unfoldable pub is_target_variable : Text → Bool
unfolding text starts_with ends_with
is_target_variable name =
    name == text "CARGO_BUILD_TARGET"
    || name == text "CARGO_ENCODED_RUSTFLAGS"
    || name == text "CARGO_TARGET_DIR"
    || name == text "RUSTFLAGS"
    || starts_with name (text "CARGO_TARGET_") && ends_with name (text "_RUSTFLAGS")

unfoldable pub relevant : Env → Env
unfolding is_target_variable
relevant env = filter (λ v. is_target_variable v.0) env

module _ (sha256 : List Chunk → Text) where
  unfoldable pub short_json_hash : Json → Text
  unfolding stringify
  short_json_hash value = take 16 (sha256 (utf8 (canonical_json_stringify value) ∷ []))

  unfoldable pub target_env_hash : Env → Text
  unfolding relevant short_json_hash record_fields
  target_env_hash env = short_json_hash (record_value (relevant env))
