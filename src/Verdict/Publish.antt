-- ===== src/Verdict/Publish.antt =====
-- The post step of the ledger: spooledKeys, publishVerdicts and publishManifest of
-- src/lib/verdict-cache.ts, and what verdictPost of src/lib/verdict-setup.ts does behind its guards, on the
-- state of the save gate. The file system is a parameter; the janitor's turn is a flag.
use setup_soldr.Base.{ℕ, ◌+◌, ◌-◌, ◌≡◌, refl, sym, ◌∙◌, ap}
use setup_soldr.Base.{Bool, true, false, ◌&&◌, Option, none, some}
use setup_soldr.Base.{List, [], ◌∷◌, ◌++◌, map, arith, if◌then◌else◌, ◌==◌}
use setup_soldr.Base.{nat_eq, list_eq, option_eq, length, take}
use setup_soldr.Base.{filter, get_or, Result, ok, err}
use setup_soldr.Base.Text.{Text, text, starts_with, ends_with}
use setup_soldr.Base.Env.{Env, env_get}
use setup_soldr.Base.Json.{Json}
use setup_soldr.Base.Decimal.{decimal}
use mathlib.Core.List.{append_assoc, append-nil}
use setup_soldr.SavePolicy.{current_save_decision, auto}
use setup_soldr.SavePolicy.Gate.{
  CacheId, not_saved, saved_as, Upload, Gate, allow, upload, note_skip, allow_verdict_save,
  gated_verdict_save,
}
use setup_soldr.Verdict.{verdict_prefix, VerdictPaths, manifest_key, record_path}
use setup_soldr.Verdict.Scope.{manifest_scope}

-- A folder that cannot be read has no names.
unfoldable pub spooled_keys : Result (List Text) → List Text
unfolding ends_with starts_with text
spooled_keys (err e) = []
spooled_keys (ok names) =
    map (λ name. take (length name - 5) name)
      (filter (λ name. ends_with name (text ".json") && starts_with name verdict_prefix) names)

abbrev pub log_line : Text → Gate → Gate
log_line line g = record g { log = g.log ++ (line ∷ []) }

-- How many were saved, and the gate after.
abbrev pub Published : Type 0
Published = ℕ × Gate

abbrev pub settle : Text → Result CacheId × Gate → ℕ → Published
settle key (ok (saved_as id), g) saved = (saved + 1, g)
settle key (ok not_saved, g) saved = (saved, g)
settle key (err e, g) saved =
    (saved, log_line (text "verdict: " ++ (key ++ (text " not saved: " ++ e))) g)

-- What the post step finds on the runner: the names in the spool, which records there are, how long
-- the log of invocations is (none if it is missing), and whether its copy succeeds.
pub record PostFiles : Type 0 where
  pub spool : Result (List Text)
  pub record_exists : Text → Bool
  pub seen_size : Option ℕ
  pub copied : Result (Unit {0})

module _ (path_join : Text → Text → Text) (sha256_hex : Text → Text)
    (read_json : Text → Result Json) (backend : List Text → Text → Result CacheId) (env : Env)
    (files : PostFiles) (paths : VerdictPaths) (staging : Text) where
  abbrev pub save : List Text → Text → Gate → Result CacheId × Gate
  save = gated_verdict_save read_json env backend

  -- `path.join(paths.records, ...)`
  abbrev pub record_of : Text → Text
  record_of key = record_path path_join (λ fs k. ok none) paths key

  abbrev pub publish_one : Bool → Text → ℕ → Gate → Published
  publish_one false key saved g = (saved, g)
  publish_one true key saved g = settle key (save (record_of key ∷ []) key g) saved

  unfoldable pub publish_each : List Text → ℕ → Gate → Published
  unfolding gated_verdict_save record_path text
  publish_each [] saved g = (saved, g)
  publish_each (key ∷ keys) saved g =
      let next = publish_one (files.record_exists (record_of key)) key saved g in
      publish_each keys next.0 next.1

  unfoldable pub publish_verdicts : Gate → Published
  unfolding publish_each spooled_keys
  publish_verdicts g = publish_each (spooled_keys files.spool) 0 g

  abbrev pub is_saved : CacheId → Bool
  is_saved not_saved = false
  is_saved (saved_as id) = true

  abbrev pub sent : Result CacheId × Gate → Result Bool × Gate
  sent (ok id, g) = (ok (is_saved id), g)
  sent (err e, g) = (err e, g)

  abbrev pub publish_copied : Result (Unit {0}) → Text → Gate → Result Bool × Gate
  publish_copied (err e) key g = (err e, g)
  publish_copied (ok done) key g = sent (save (staging ∷ []) key g)

  abbrev pub publish_sized : Option ℕ → Text → Gate → Result Bool × Gate
  publish_sized none key g = (ok false, g)
  publish_sized (some size) key g =
      if size == 0 then (ok false, g) else publish_copied files.copied key g

  unfoldable pub publish_manifest : Text → Gate → Result Bool × Gate
  unfolding gated_verdict_save
  publish_manifest key g = publish_sized files.seen_size key g

  -- `catch` of the manifest, and the line that ends the step.
  abbrev pub report : ℕ → Text → Result Bool × Gate → Gate
  report saved key (ok true, g) =
      log_line
        (text "verdict: published " ++ (decimal saved ++ (text " verdict(s) and manifest " ++ key)))
        g
  report saved key (ok false, g) =
      log_line (text "verdict: published " ++ (decimal saved ++ text " verdict(s)")) g
  report saved key (err e, g) =
      log_line (text "verdict: published " ++ (decimal saved ++ text " verdict(s)"))
        (log_line (text "verdict: manifest not saved: " ++ e) g)

  abbrev pub key_of_run : Text
  key_of_run =
      manifest_key (manifest_scope sha256_hex env) (get_or (env_get env (text "GITHUB_RUN_ID")) [])
        (get_or (env_get env (text "GITHUB_RUN_ATTEMPT")) [])

  -- The step behind its first gate, with the paths that the setup step saved, and whether the janitor has its turn.
  abbrev pub post_if : Bool × Gate → Bool × Gate
  post_if (false, g) = (false, g)
  post_if (true, g) =
      let (saved, published) = publish_verdicts g in
      (true, report saved key_of_run (publish_manifest key_of_run published))

  -- What the step offers to the backend.
  abbrev pub verdict_uploads : List Text → List Upload
  verdict_uploads [] = []
  verdict_uploads (key ∷ keys) =
      let rest = verdict_uploads keys in
      if files.record_exists (record_of key)
      then record { paths = record_of key ∷ []; key = key } ∷ rest
      else rest

  abbrev pub copied_uploads : Result (Unit {0}) → List Upload
  copied_uploads (err e) = []
  copied_uploads (ok done) = record { paths = staging ∷ []; key = key_of_run } ∷ []

  abbrev pub manifest_uploads : Option ℕ → List Upload
  manifest_uploads none = []
  manifest_uploads (some size) = if size == 0 then [] else copied_uploads files.copied

  abbrev pub IsAllowed : Type 0
  IsAllowed = (current_save_decision read_json env (some auto)).save ≡ true

  save_uploads :
      (ps : List Text) (key : Text) (g : Gate)
      → IsAllowed
      → (save ps key g).1.uploads ≡ g.uploads ++ (record { paths = ps; key = key } ∷ [])
  unfolding gated_verdict_save upload allow_verdict_save allow
  save_uploads ps key g h = rw h refl

  settle_uploads :
      (key : Text) (r : Result CacheId) (g : Gate) (saved : ℕ)
      → (settle key (r, g) saved).1.uploads ≡ g.uploads
  settle_uploads key (ok (saved_as id)) g saved = refl
  settle_uploads key (ok not_saved) g saved = refl
  settle_uploads key (err e) g saved = refl

  publish_one_uploads :
      (b : Bool) (key : Text) (saved : ℕ) (g : Gate)
      → IsAllowed
      → (publish_one b key saved g).1.uploads
        ≡ g.uploads ++ (if b then record { paths = record_of key ∷ []; key = key } ∷ [] else [])
  publish_one_uploads false key saved g h = sym (append-nil g.uploads)
  publish_one_uploads true key saved g h =
      let (r, after) = save (record_of key ∷ []) key g in
      settle_uploads key r after saved ∙ save_uploads (record_of key ∷ []) key g h

  join_uploads :
      (b : Bool) (us vs : List Upload) (u : Upload)
      → (us ++ (if b then u ∷ [] else [])) ++ vs ≡ us ++ (if b then u ∷ vs else vs)
  join_uploads true us vs u = append_assoc us (u ∷ []) vs
  join_uploads false us vs u = ap (λ xs. xs ++ vs) (append-nil us)

  publish_each_uploads :
      (keys : List Text) (saved : ℕ) (g : Gate)
      → IsAllowed
      → (publish_each keys saved g).1.uploads ≡ g.uploads ++ verdict_uploads keys
  unfolding publish_each
  publish_each_uploads [] saved g h = sym (append-nil g.uploads)
  publish_each_uploads (key ∷ keys) saved g h =
      let b = files.record_exists (record_of key) in
      let next = publish_one b key saved g in
      publish_each_uploads keys next.0 next.1 h
      ∙ (ap (λ us. us ++ verdict_uploads keys) (publish_one_uploads b key saved g h)
          ∙ join_uploads b g.uploads (verdict_uploads keys) _)

  sent_uploads : (r : Result CacheId) (g : Gate) → (sent (r, g)).1.uploads ≡ g.uploads
  sent_uploads (ok id) g = refl
  sent_uploads (err e) g = refl

  copied_lem :
      (b : Bool) (copied : Result (Unit {0})) (g : Gate)
      → IsAllowed
      → (if b then (ok false, g) else publish_copied copied key_of_run g).1.uploads
        ≡ g.uploads ++ (if b then [] else copied_uploads copied)
  copied_lem true copied g h = sym (append-nil g.uploads)
  copied_lem false (err e) g h = sym (append-nil g.uploads)
  copied_lem false (ok done) g h =
      let (r, after) = save (staging ∷ []) key_of_run g in
      sent_uploads r after ∙ save_uploads (staging ∷ []) key_of_run g h

  publish_sized_uploads :
      (size : Option ℕ) (g : Gate)
      → IsAllowed
      → (publish_sized size key_of_run g).1.uploads ≡ g.uploads ++ manifest_uploads size
  publish_sized_uploads none g h = sym (append-nil g.uploads)
  publish_sized_uploads (some size) g h = copied_lem (size == 0) files.copied g h

  report_uploads :
      (saved : ℕ) (key : Text) (r : Result Bool) (g : Gate)
      → (report saved key (r, g)).uploads ≡ g.uploads
  report_uploads saved key (ok true) g = refl
  report_uploads saved key (ok false) g = refl
  report_uploads saved key (err e) g = refl

  -- What a whole step offers, and whether the janitor runs.
  abbrev pub step_uploads : List Upload
  step_uploads = verdict_uploads (spooled_keys files.spool) ++ manifest_uploads files.seen_size

  step_uploads_lem :
      (g : Gate) → IsAllowed → (post_if (true, g)).1.uploads ≡ g.uploads ++ step_uploads
  unfolding publish_verdicts publish_manifest
  step_uploads_lem g h =
      let keys = spooled_keys files.spool in
      let (saved, published) = publish_each keys 0 g in
      let (r, after) = publish_sized files.seen_size key_of_run published in
      report_uploads saved key_of_run r after
      ∙ (publish_sized_uploads files.seen_size published h
          ∙ (ap (λ us. us ++ manifest_uploads files.seen_size) (publish_each_uploads keys 0 g h)
              ∙ append_assoc g.uploads (verdict_uploads keys) (manifest_uploads files.seen_size)))

  skipped_uploads :
      (layer reason : Text) (g : Gate) → (note_skip layer reason g).uploads ≡ g.uploads
  unfolding note_skip
  skipped_uploads layer reason g = ground arith

  pub allow_cases :
      (b : Bool) (g : Gate)
      → (current_save_decision read_json env (some auto)).save ≡ b
      → ((post_if (allow_verdict_save read_json env g)).0 ≡ b)
        × ((post_if (allow_verdict_save read_json env g)).1.uploads
            ≡ g.uploads ++ (if b then step_uploads else []))
  unfolding allow_verdict_save allow
  allow_cases true g h =
      let same : allow_verdict_save read_json env g ≡ (true, g) = rw h refl in
      (ap (λ r. (post_if r).0) same, ap (λ r. (post_if r).1.uploads) same ∙ step_uploads_lem g h)
  allow_cases false g h =
      let reason = (current_save_decision read_json env (some auto)).reason in
      let same : allow_verdict_save read_json env g ≡ (false, note_skip (text "verdict") reason g) =
        rw h refl in
      (
        ap (λ r. (post_if r).0) same,
        ap (λ r. (post_if r).1.uploads) same
            ∙ (skipped_uploads (text "verdict") reason g ∙ sym (append-nil g.uploads)),
      )
