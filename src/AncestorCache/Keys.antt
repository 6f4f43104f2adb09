-- ===== src/AncestorCache/Keys.antt =====
-- The keys of the ancestor cache print and parse.
use mathlib.Core.List.{append-nil, append_assoc}
use setup_soldr.Base.{ℕ, ◌<◌, ◌≡◌, refl, ap}
use setup_soldr.Base.{◌↔◌, true, Option, none, some}
use setup_soldr.Base.{[], ◌++◌, arith}
use setup_soldr.Base.{nat_eq, list_eq, option_eq}
use setup_soldr.Base.{all, ok}
use setup_soldr.Base.Text.{Text, text, strip_prefix}
use setup_soldr.Base.Text.{is_empty, strip_prefix-append}
use setup_soldr.Base.Span.{is_hex, is_digit, StopsAt, span-append}
use setup_soldr.Base.Decimal.{decimal, number, number-decimal}
use setup_soldr.AncestorCache.{
  AncestorKey, hex_between, is_sha, key_prefix, is_safe_positive, pr_ok, pr_part, make_ancestor_key,
  accept, parse_pr, match_ancestor_key, parse_ancestor_key, confirm, ◌>>?◌,
}

-- What `makeAncestorKey` asks of a key.
pub record IsKey (key : AncestorKey) : Type 0 where
  pub identity_ok : hex_between 16 64 key.identity ≡ true
  pub sha_ok : is_sha key.sha ≡ true
  pub run_ok : is_safe_positive key.run_id ≡ true
  pub attempt_ok : is_safe_positive key.attempt ≡ true
  pub number_ok : pr_ok key.pr ≡ true

make_ancestor_key-IsKey : (key : AncestorKey) (s : Text) → make_ancestor_key key ≡ ok s → IsKey key
unfolding make_ancestor_key
make_ancestor_key-IsKey key s h = ground arith

safe_pos : (n : ℕ) → is_safe_positive n ≡ true → 0 < n
unfolding is_safe_positive
safe_pos n h = ground arith

-- The separators end the runs in front of them.
source_stops : (s : Text) → StopsAt is_hex (text "-source-" ++ s)
unfolding text is_hex
source_stops s = refl

run_stops : (s : Text) → StopsAt is_hex (text "-run-" ++ s)
unfolding text is_hex
run_stops s = refl

attempt_stops : (s : Text) → StopsAt is_digit (text "-attempt-" ++ s)
unfolding text is_digit
attempt_stops s = refl

pr_stops : (pr : Option ℕ) → StopsAt is_digit (pr_part pr)
unfolding text is_digit
pr_stops none = tt
pr_stops (some n) = refl

parse_pr_dash :
    (s : Text)
    → parse_pr (text "-pr-" ++ s)
      ≡ (number s >>? λ (n, rest). accept (is_empty rest) >>? λ _. some (some n))
unfolding parse_pr text strip_prefix nat_eq
parse_pr_dash s = refl

parse_pr-pr_part : (pr : Option ℕ) → pr_ok pr ≡ true → parse_pr (pr_part pr) ≡ some pr
parse_pr-pr_part none h = unfold parse_pr in refl
parse_pr-pr_part (some n) h =
    rw (parse_pr_dash, ← append-nil (decimal n), number-decimal n [] (safe_pos n h) tt)

-- The parts of a printed key, each behind its separator.
abbrev layout : AncestorKey → Text
layout key =
    key_prefix
    ++ (key.identity
        ++ (text "-source-"
            ++ (key.sha
                ++ (text "-run-"
                    ++ (decimal key.run_id
                        ++ (text "-attempt-" ++ (decimal key.attempt ++ pr_part key.pr)))))))

regroup :
    (a b s : Text)
    → (a ++ (b ++ text "-")) ++ (text "source-" ++ s) ≡ a ++ (b ++ (text "-source-" ++ s))
unfolding text
regroup a b s = simp append_assoc

make_ancestor_key_lem : (key : AncestorKey) → IsKey key → make_ancestor_key key ≡ ok (layout key)
unfolding make_ancestor_key
make_ancestor_key_lem key v =
    rw (v.identity_ok, v.sha_ok, v.run_ok, v.attempt_ok, v.number_ok) (ap ok (regroup _ _ _))

hex_all : (lo hi : ℕ) (s : Text) → hex_between lo hi s ≡ true → all is_hex s ≡ true
unfolding hex_between
hex_all lo hi s h = ground arith

sha_all : (s : Text) → is_sha s ≡ true → all is_hex s ≡ true
unfolding is_sha
sha_all s h = ground (arith, hex_all 40 40 s, hex_all 64 64 s)

match_ancestor_key-layout :
    (key : AncestorKey) → IsKey key → match_ancestor_key (layout key) ≡ some key
unfolding match_ancestor_key
match_ancestor_key-layout key v = rw (
  strip_prefix-append key_prefix,
  span-append is_hex key.identity _ (hex_all 16 64 key.identity v.identity_ok) (source_stops _),
  v.identity_ok,
  strip_prefix-append (text "-source-"),
  span-append is_hex key.sha _ (sha_all key.sha v.sha_ok) (run_stops _),
  v.sha_ok,
  strip_prefix-append (text "-run-"),
  number-decimal key.run_id _ (safe_pos key.run_id v.run_ok) (attempt_stops _),
  strip_prefix-append (text "-attempt-"),
  number-decimal key.attempt (pr_part key.pr) (safe_pos key.attempt v.attempt_ok) (pr_stops key.pr),
  parse_pr-pr_part key.pr v.number_ok,
)

confirm_sound :
    (s : Text) (found key : AncestorKey) → confirm s found ≡ some key → make_ancestor_key key ≡ ok s
confirm_sound s found key h = ground arith

parse_ancestor_key_sound :
    (key : AncestorKey) (s : Text) (found : Option AncestorKey)
    → (found >>? λ k. confirm s k) ≡ some key
    → make_ancestor_key key ≡ ok s
parse_ancestor_key_sound key s none h = cc
parse_ancestor_key_sound key s (some found) h = confirm_sound s found key h

make_ancestor_key-layout :
    (key : AncestorKey) (s : Text) → make_ancestor_key key ≡ ok s → s ≡ layout key
make_ancestor_key-layout key s h = cc (make_ancestor_key_lem key (make_ancestor_key-IsKey key s h))

match_ancestor_key-make :
    (key : AncestorKey) (s : Text) → make_ancestor_key key ≡ ok s → match_ancestor_key s ≡ some key
match_ancestor_key-make key s h =
    rw (make_ancestor_key-layout key s h)
      (match_ancestor_key-layout key (make_ancestor_key-IsKey key s h))

confirm-make :
    (key : AncestorKey) (s : Text) → make_ancestor_key key ≡ ok s → confirm s key ≡ some key
confirm-make key s h = ground arith

parse_ancestor_key-make :
    (key : AncestorKey) (s : Text) → make_ancestor_key key ≡ ok s → parse_ancestor_key s ≡ some key
unfolding parse_ancestor_key
parse_ancestor_key-make key s h = rw (match_ancestor_key-make key s h) (confirm-make key s h)

-- A text parses as a key exactly when it is what the key prints as: parsing undoes printing, and
-- accepts nothing else.
pub parse_ancestor_key_iff :
    (key : AncestorKey) (s : Text)
    → (make_ancestor_key key ≡ ok s) ↔ (parse_ancestor_key s ≡ some key)
unfolding parse_ancestor_key
parse_ancestor_key_iff key s =
    (parse_ancestor_key-make key s, parse_ancestor_key_sound key s (match_ancestor_key s))

-- Two keys that print alike are one key.
pub make_ancestor_key_injective :
    (key other : AncestorKey) (s : Text)
    → make_ancestor_key key ≡ ok s
    → make_ancestor_key other ≡ ok s
    → key ≡ other
make_ancestor_key_injective key other s h k =
    cc ((parse_ancestor_key_iff key s).0 h, (parse_ancestor_key_iff other s).0 k)
