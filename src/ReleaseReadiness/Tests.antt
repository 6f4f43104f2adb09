-- ===== src/ReleaseReadiness/Tests.antt =====
-- A retry that succeeds at its second attempt, and a release with one asset.
use setup_soldr.Base.{ℕ, ◌≡◌, refl}
use setup_soldr.Base.{◌⊎◌, false, none, some}
use setup_soldr.Base.{[], ◌∷◌, if◌then◌else◌, ◌==◌}
use setup_soldr.Base.{nat_eq, list_eq, option_eq}
use setup_soldr.Base.{All, Result, ok, err}
use setup_soldr.Base.Text.{Text, text, trim, ends_with}
use setup_soldr.Base.Text.{is_empty, contains_text}
use setup_soldr.Base.Json.{Json, Items, Fields, prop}
use setup_soldr.ReleaseReadiness.{
  conclude_retry, retry_release_request, assert_release_ready, is_true, text_prop,
}
use setup_soldr.ReleaseReadiness.Laws.{
  IsRun, retry_release_request-IsRun, Served, assert_release_ready_sound,
}

-- The second attempt succeeds.
abbrev request : ℕ → Result ℕ
request n = if n == 1 then err (text "HTTP 503") else ok 7

retry_release_request-IsRun_example :
    (result : ℕ ⊎ Text) × (((retry_release_request request (some 3)).0
        ≡ conclude_retry request 3 result)
      × IsRun request 3 1 result (retry_release_request request (some 3)).1)
retry_release_request-IsRun_example = retry_release_request-IsRun request 3 2 refl

abbrev entry : Text → Json → Fields → Fields
entry k v fs = Fields.field k v fs

abbrev asset : Json
asset = Json.obj (
    entry (text "name") (Json.str (text "soldr-x.zip"))
      (entry (text "browser_download_url") (Json.str (text "u")) Fields.end))

abbrev release : Json
release = Json.obj (
    entry (text "tag_name") (Json.str (text "v1"))
      (entry (text "assets") (Json.arr (Items.cons asset Items.nil)) Fields.end))

is_ready : assert_release_ready release (text "x" ∷ []) none ≡ ok tt
unfolding assert_release_ready trim list_eq nat_eq contains_text ends_with
is_ready = refl

assert_release_ready_sound_example :
    (is_empty (trim (text_prop (some release) (text "tag_name"))) ≡ false)
    × ((is_true (prop (some release) (text "draft")) ≡ false)
        × ((assets : Items) × ((prop (some release) (text "assets") ≡ some (Json.arr assets))
              × All (Served assets (prop none (text "urls"))) (text "x" ∷ []))))
assert_release_ready_sound_example =
    assert_release_ready_sound release (text "x" ∷ []) none is_ready
