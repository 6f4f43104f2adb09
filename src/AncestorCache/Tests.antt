-- ===== src/AncestorCache/Tests.antt =====
-- Keys and a selection of src/lib/ancestor-cache.ts at concrete inputs.
use setup_soldr.Base.{ℕ, ◌≡◌, refl}
use setup_soldr.Base.{◌↔◌, true, none, some}
use setup_soldr.Base.{List, [], ◌∷◌}
use setup_soldr.Base.{nat_eq, list_eq, option_eq}
use setup_soldr.Base.{ok}
use setup_soldr.Base.Text.{Text, text, strip_prefix}
use setup_soldr.Base.Text.{text, strip_prefix}
use setup_soldr.Base.Span.{span, is_hex}
use setup_soldr.Base.Sort.{sort}
use setup_soldr.Base.Decimal.{decimal, number}
use Prim.Native.Nat.{Ordering}
use setup_soldr.AncestorCache.{
  is_sha, is_safe_positive, hex_between, AncestorKey, make_ancestor_key, parse_ancestor_key,
}
use setup_soldr.AncestorCache.Keys.{parse_ancestor_key_iff}
use setup_soldr.AncestorCache.Select.{
  candidate_key, pr_of_ref, AncestorCacheEntry, AncestorBackend, select_ancestor_cache,
}
use setup_soldr.AncestorCache.Select.Nearest.{IsNearestClean, select_ancestor_cache_sound}

abbrev some_key : AncestorKey
some_key = record {
  identity = text "0123456789abcdef";
  sha = text "0123456789abcdef0123456789abcdef01234567";
  run_id = 42;
  attempt = 1;
  pr = none;
}

abbrev printed : Text
printed =
    text
      "setup-soldr-ancestor-build-v1-0123456789abcdef-source-0123456789abcdef0123456789abcdef01234567-run-42-attempt-1"

parse_ancestor_key_iff_example :
    (make_ancestor_key some_key ≡ ok printed) ↔ (parse_ancestor_key printed ≡ some some_key)
parse_ancestor_key_iff_example = parse_ancestor_key_iff some_key printed

prints : make_ancestor_key some_key ≡ ok printed
unfolding make_ancestor_key is_sha is_safe_positive hex_between is_hex nat_eq decimal text
prints = refl

abbrev entry : AncestorCacheEntry
entry = record {
  id = 5;
  key = printed;
  ref = text "refs/heads/main";
  created_at = text "2025-01-01T00:00:00Z";
}

abbrev backend : AncestorBackend
backend = record {
  list = ok (entry ∷ []);
  distance = λ sha. ok (some 3);
  clean_save = λ e k. ok true;
}

abbrev by_nothing : Text → Text → Ordering
by_nothing a b = Ordering.eq

abbrev identity : Text
identity = text "0123456789abcdef"

abbrev refs : List Text
refs = text "refs/heads/main" ∷ []

selects : (select_ancestor_cache by_nothing identity refs backend).entry ≡ some entry
unfolding select_ancestor_cache candidate_key parse_ancestor_key strip_prefix text nat_eq
    hex_between span is_sha number make_ancestor_key is_safe_positive list_eq decimal option_eq
    pr_of_ref sort
selects = refl

select_ancestor_cache_sound_example :
    (d : ℕ) × ((select_ancestor_cache by_nothing identity refs backend).distance ≡ some d)
    × IsNearestClean by_nothing identity refs backend (entry ∷ []) entry d
select_ancestor_cache_sound_example =
    select_ancestor_cache_sound by_nothing identity refs backend (entry ∷ []) entry refl selects
