-- ===== src/CacheKeys/Hashes.antt =====
-- src/lib/cache-keys.ts: what the canonical text and the hashes of records depend on.
use setup_soldr.Base.{◌≡◌, refl, sym, ◌∙◌, ap}
use setup_soldr.Base.{◌↔◌, Bool, true, false}
use setup_soldr.Base.{List, [], ◌∷◌, ◌++◌, map}
use setup_soldr.Base.{nat_eq, list_eq, option_eq, take}
use setup_soldr.Base.Text.{Text, text, join}
use setup_soldr.Base.Env.{Env}
use mathlib.Core.List.{append_assoc}
use setup_soldr.Base.Sort.{compare_text, insert, sort, is_gt}
use setup_soldr.CacheKeys.Quote.{quote, quote-injective}
use setup_soldr.CacheKeys.Records.{IsRecord, Agree, sort_iff_Agree}
use setup_soldr.CacheKeys.Canonical.{
  by_key, member, print_members, stringify, stringify_fields, canonical_json_stringify,
}
use setup_soldr.CacheKeys.Canonical.{record_fields, record_value, Chunk}

abbrev quoted : Text × Text → Text × Text
quoted (k, v) = (k, quote v)

stringify_fields-record_fields : (env : Env) → stringify_fields (record_fields env) ≡ map quoted env
unfolding stringify stringify_fields record_fields
stringify_fields-record_fields [] = refl
stringify_fields-record_fields ((k, v) ∷ env) = rw (stringify_fields-record_fields env) refl

insert-quoted :
    (p : Text × Text) (env : Env)
    → insert by_key (quoted p) (map quoted env) ≡ map quoted (insert by_key p env)
unfolding insert
insert-quoted p [] = refl
insert-quoted p (q ∷ env) = go (is_gt (compare_text p.0 q.0)) (insert-quoted p env)
  where
    go :
        (b : Bool)
        → insert by_key (quoted p) (map quoted env) ≡ map quoted (insert by_key p env)
        → elim b [
          | true ↦ quoted q ∷ insert by_key (quoted p) (map quoted env)
          | false ↦ quoted p ∷ quoted q ∷ map quoted env
        ]
          ≡ map quoted (elim b [ true ↦ q ∷ insert by_key p env | false ↦ p ∷ q ∷ env ])
    go true h = rw h refl
    go false h = refl

sort-quoted : (env : Env) → sort by_key (map quoted env) ≡ map quoted (sort by_key env)
unfolding sort
sort-quoted [] = refl
sort-quoted (p ∷ env) = rw (sort-quoted env) (insert-quoted p (sort by_key env))

stringify-record :
    (env : Env)
    → canonical_json_stringify (record_value env) ≡ print_members (map quoted (sort by_key env))
unfolding stringify
stringify-record env = rw (stringify_fields-record_fields env, sort-quoted env) refl

abbrev entry : Text × Text → Text → Text
entry (k, v) rest = quote k ++ (b':' ∷ (quote v ++ rest))

abbrev after : Env → Text
after [] = b'}' ∷ []
after (p ∷ env) = b',' ∷ entry p (after env)

entry-member : (p : Text × Text) (rest : Text) → member (quoted p) ++ rest ≡ entry p rest
entry-member (k, v) rest = append_assoc (quote k) (b':' ∷ quote v) rest

print_after :
    (p : Text × Text) (env : Env)
    → join (text ",") (map member (map quoted (p ∷ env))) ++ text "}" ≡ entry p (after env)
unfolding join text
print_after p [] = entry-member p (b'}' ∷ [])
print_after p (q ∷ env) =
    append_assoc (member (quoted p)) (b',' ∷ join (b',' ∷ []) (map member (map quoted (q ∷ env))))
      (b'}' ∷ [])
    ∙ (ap (λ t. member (quoted p) ++ (b',' ∷ t)) (print_after q env)
        ∙ entry-member p (after (q ∷ env)))

entry-injective : (p q : Text × Text) (r s : Text) → entry p r ≡ entry q s → (p ≡ q) × (r ≡ s)
entry-injective (k, v) (j, w) r s h =
    let keys : (k ≡ j) × (b':' ∷ (quote v ++ r) ≡ b':' ∷ (quote w ++ s)) =
      quote-injective k j (b':' ∷ (quote v ++ r)) (b':' ∷ (quote w ++ s)) h in
    let values : (v ≡ w) × (r ≡ s) = quote-injective v w r s (cc (keys.1)) in
    (cc (keys.0, values.0), values.1)

after-injective : (a b : Env) → after a ≡ after b → a ≡ b
after-injective [] [] h = refl
after-injective [] (q ∷ b) h = cc
after-injective (p ∷ a) [] h = cc
after-injective (p ∷ a) (q ∷ b) h =
    let heads : (p ≡ q) × (after a ≡ after b) = entry-injective p q (after a) (after b) (cc) in
    cc (heads.0, after-injective a b heads.1)

abbrev body : Env → Text
body [] = b'}' ∷ []
body (p ∷ env) = entry p (after env)

body-injective : (a b : Env) → body a ≡ body b → a ≡ b
unfolding quote
body-injective [] [] h = refl
body-injective [] (q ∷ b) h = cc
body-injective (p ∷ a) [] h = cc
body-injective (p ∷ a) (q ∷ b) h =
    let heads : (p ≡ q) × (after a ≡ after b) = entry-injective p q (after a) (after b) h in
    cc (heads.0, after-injective a b heads.1)

print_members-body : (env : Env) → print_members (map quoted env) ≡ b'{' ∷ body env
unfolding join text
print_members-body [] = refl
print_members-body (p ∷ env) = ap (λ t. b'{' ∷ t) (print_after p env)

-- The canonical texts of two records of texts, each with distinct keys, are the same if and only if
-- the records hold the same values under the same keys: the order in which the members were set
-- does not show in the text, and every key and every value does, whatever characters they have.
pub canonical_json_stringify_iff_Agree :
    (a b : Env)
    → IsRecord a
    → IsRecord b
    → (canonical_json_stringify (record_value a) ≡ canonical_json_stringify (record_value b))
      ↔ Agree a b
canonical_json_stringify_iff_Agree a b r s = (
  λ e. (sort_iff_Agree a b r s).0 (body-injective _ _ (cc (printed a, printed b, e))),
  λ e. printed a ∙ (ap (λ m. b'{' ∷ body m) ((sort_iff_Agree a b r s).1 e) ∙ sym (printed b)),
)
  where
    printed :
        (env : Env) → canonical_json_stringify (record_value env) ≡ b'{' ∷ body (sort by_key env)
    printed env = stringify-record env ∙ print_members-body (sort by_key env)

-- The digests of two texts, cut to 16 digits, are equal for equal texts only.
abbrev pub NoCollision : (List Chunk → Text) → Text → Text → Type 0
NoCollision sha256 s t =
    take 16 (sha256 (Chunk.utf8 s ∷ [])) ≡ take 16 (sha256 (Chunk.utf8 t ∷ [])) → s ≡ t
