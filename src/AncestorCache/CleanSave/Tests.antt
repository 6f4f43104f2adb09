-- ===== src/AncestorCache/CleanSave/Tests.antt =====
-- A clean save of a reviewed writer. Every proof in a log parses to the same object.
use setup_soldr.Base.{ℕ, suc, ◌+◌, ◌/◌, ◌≤◌, ◌≡◌, refl, ap}
use setup_soldr.Base.{Bool, true, Option, none, some}
use setup_soldr.Base.{List, [], ◌∷◌, ◌++◌, arith, Eq, ◌==◌, ==_refl, ==_iff}
use setup_soldr.Base.{nat_eq, list_eq, option_eq, Bool-cases, Option-cases, length}
use setup_soldr.Base.{All, All-append, Result, ok}
use setup_soldr.Base.{◌>>=◌, ◌>>◌, >>=-eq-ok, ltb→lt, leb→le, le→leb}
use setup_soldr.Base.Text.{text}
use setup_soldr.Base.Json.{Json, Fields}
use setup_soldr.AncestorCache.{AncestorKey, is_sha}
use setup_soldr.AncestorCache.Select.{AncestorCacheEntry}
use setup_soldr.AncestorCache.Trust.{TrustedWriter, parse_trusted_writers}
use setup_soldr.AncestorCache.CleanSave.{Api, clean_save, clean_save_marker, proves}
use setup_soldr.AncestorCache.CleanSave.Laws.{IsCleanSave, clean_save_sound}

abbrev writer : TrustedWriter
writer = record {
  repository = text "o/r";
  workflow = text ".github/workflows/ci.yml";
  sha = text "0123456789abcdef0123456789abcdef01234567";
  run_id = 42;
  attempt = 1;
  job_id = 7;
}

-- A line of the list, as a caller writes it.
parses :
    parse_trusted_writers (
      some
        (text " o/r/.github/workflows/ci.yml@0123456789abcdef0123456789abcdef01234567:42:1:7\r\n"))
    ≡ ok (writer ∷ [])
unfolding parse_trusted_writers is_sha text nat_eq list_eq setup_soldr.Base.Span.span
    setup_soldr.Base.Decimal.number setup_soldr.AncestorCache.is_safe_positive
parses = refl

abbrev key : AncestorKey
key = record {
  identity = text "0123456789abcdef";
  sha = writer.sha;
  run_id = 42;
  attempt = 1;
  pr = none;
}

abbrev entry : AncestorCacheEntry
entry = record { id = 5; key = text "k"; ref = text "refs/heads/main"; created_at = text "2025" }

abbrev proof : Fields
proof = Fields.field (text "clean") (Json.bool true) (
    Fields.field (text "cacheId") (Json.num 5) (
      Fields.field (text "key") (Json.str (text "k")) (
        Fields.field (text "ref") (Json.str (text "refs/heads/main")) (
          Fields.field (text "sha") (Json.str writer.sha) (
            Fields.field (text "runId") (Json.num 42)
              (Fields.field (text "attempt") (Json.num 1) Fields.end))))))

abbrev api : Api
api = record {
  run_of = λ run attempt. ok (record {
    full_name = text "o/r";
    head_full_name = text "o/r";
    path = text ".github/workflows/ci.yml@refs/heads/main";
    head_sha = writer.sha;
    id = 42;
    run_attempt = some 1;
    status = some (text "completed");
    conclusion = some (text "success");
  });
  jobs_of = λ run attempt. ok (
    1,
    record {
      id = 7;
      conclusion = some (text "success");
      started_at = some (text "2025");
      completed_at = some (text "2025");
    }
        ∷ [],
  );
  log_of = λ id. ok (some (clean_save_marker ++ text "{}"));
}

proved :
    (clean_save
      (λ s. some (Json.obj proof))
      (λ s. some 5)
      length
      (λ n. 0)
      api
      (text "o/r")
      (writer ∷ [])
      entry
      key
      0).0
    ≡ ok true
unfolding clean_save proves text nat_eq list_eq
proved = refl

clean_save_sound_example :
    IsCleanSave
      (λ s. some (Json.obj proof))
      (λ s. some 5)
      length
      (λ n. 0)
      api
      (text "o/r")
      (writer ∷ [])
      entry
      key
clean_save_sound_example =
    clean_save_sound (λ s. some (Json.obj proof)) (λ s. some 5) length (λ n. 0) api (text "o/r")
      (writer ∷ []) entry key 0 proved
