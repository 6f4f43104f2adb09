-- ===== src/Verdict/Post.antt =====
-- `verdictPost` of src/lib/verdict-setup.ts: its guards, and what it offers to the backend.
use setup_soldr.Base.{◌≡◌, refl, sym, ◌∙◌, ap}
use setup_soldr.Base.{◌≢◌, ◌↔◌, inl, inr, Bool, true, false, ◌||◌, some}
use setup_soldr.Base.{List, [], ◌∷◌, ◌++◌, if◌then◌else◌, ◌==◌, ==_iff}
use setup_soldr.Base.{nat_eq, list_eq, option_eq}
use setup_soldr.Base.{Result, ok, err}
use setup_soldr.Base.Text.{Text, text}
use setup_soldr.Base.Text.{is_empty}
use setup_soldr.Base.Env.{Env, env_get}
use setup_soldr.Base.Json.{Json}
use setup_soldr.Base.Decimal.{decimal}
use mathlib.Core.List.{append-nil}
use setup_soldr.Base.{ok_injective, Bool-cases}
use setup_soldr.SavePolicy.{current_save_decision, auto}
use setup_soldr.SavePolicy.Gate.{CacheId, Upload, Gate, allow_verdict_save}
use setup_soldr.Verdict.{VerdictPaths, manifest_key}
use setup_soldr.Verdict.Scope.{manifest_scope}
use setup_soldr.Verdict.Publish.{
  post_if, allow_cases, step_uploads, PostFiles, publish_verdicts, publish_manifest,
}

-- The paths are the text that the setup step saved, behind the parse of it. The Boolean says whether
-- the janitor has its turn.
module _ (path_join : Text → Text → Text) (sha256_hex : Text → Text)
    (read_json : Text → Result Json) (read_paths : Text → Result VerdictPaths)
    (backend : List Text → Text → Result CacheId) (env : Env) (files : PostFiles)
    (staging : Text) where
  abbrev pub post_parsed : Result VerdictPaths → Gate → Bool × Gate
  post_parsed (err e) g = (false, g)
  post_parsed (ok paths) g =
      post_if path_join sha256_hex read_json backend env files paths staging
        (allow_verdict_save read_json env g)

  unfoldable pub verdict_post : Text → Text → Gate → Bool × Gate
  unfolding publish_verdicts publish_manifest allow_verdict_save manifest_key manifest_scope decimal
      env_get text
  verdict_post mode raw g =
      if is_empty raw || (mode == text "off" || is_empty mode)
      then (false, g)
      else post_parsed (read_paths raw) g

  -- The step has something to do.
  abbrev pub Runs : Text → Text → VerdictPaths → Type 0
  Runs mode raw paths =
      (raw ≢ [])
      × (mode ≢ text "off")
      × (mode ≢ [])
      × (read_paths raw ≡ ok paths)
      × ((current_save_decision read_json env (some auto)).save ≡ true)

  abbrev Allowed : Type 0
  Allowed = (current_save_decision read_json env (some auto)).save ≡ true

  abbrev offered : VerdictPaths → List Upload
  offered paths = step_uploads path_join sha256_hex read_json backend env files paths staging

  abbrev IsPost : (VerdictPaths → Type 0) → Gate → Bool × Gate → Type 0
  IsPost runs g (b, after) =
      ((b ≡ true) ↔ ((paths : VerdictPaths) × runs paths))
      × (b ≡ false → after.uploads ≡ g.uploads)
      × ((paths : VerdictPaths) → runs paths → after.uploads ≡ g.uploads ++ offered paths)

  post_parsed_lem :
      (r : Result VerdictPaths) (g : Gate)
      → IsPost (λ paths. (r ≡ ok paths) × Allowed) g (post_parsed r g)
  post_parsed_lem (err e) g = ((λ h. cc, λ (paths, (h, a)). cc), λ h. refl, λ paths (h, a). cc)
  post_parsed_lem (ok paths) g =
      elim (Bool-cases (current_save_decision read_json env (some auto)).save) [
        | inl e ↦
            let (ran, sent) =
              allow_cases path_join sha256_hex read_json backend env files paths staging true g e in
            (
              (λ h. (paths, (refl, e)), λ h. ran),
              λ h. absurd (let t : true ≡ false = sym ran ∙ h in cc),
              λ other (h, a). sent ∙ ap (λ p. g.uploads ++ offered p) (ok_injective paths other h),
            )
        | inr e ↦
            let (ran, sent) =
              allow_cases path_join sha256_hex read_json backend env files paths staging false g
                e in
            (
              (
                λ h. absurd (let t : true ≡ false = sym h ∙ ran in cc),
                λ (other, (h, a)). absurd (let t : true ≡ false = sym a ∙ e in cc),
              ),
              λ h. sent ∙ append-nil g.uploads,
              λ other (h, a). absurd (let t : true ≡ false = sym a ∙ e in cc),
            )
      ]

  is_empty_iff : (s : Text) → (is_empty s ≡ true) ↔ (s ≡ [])
  is_empty_iff [] = (λ h. refl, λ h. refl)
  is_empty_iff (c ∷ s) = (λ h. cc, λ h. cc)

  guards :
      (a b c : Bool) (A B C : Type 0)
      → (a ≡ true) ↔ A
      → (b ≡ true) ↔ B
      → (c ≡ true) ↔ C
      → ((a || (b || c)) ≡ true → (¬ A) → (¬ B) → (¬ C) → ⊥)
        × ((a || (b || c)) ≡ false → (¬ A) × (¬ B) × (¬ C))
  guards true b c A B C p q r = (λ h na nb nc. na (p.0 refl), λ h. cc)
  guards false true c A B C p q r = (λ h na nb nc. nb (q.0 refl), λ h. cc)
  guards false false true A B C p q r = (λ h na nb nc. nc (r.0 refl), λ h. cc)
  guards false false false A B C p q r = (
    λ h. cc,
    λ h. (
      λ x. absurd (let t = p.1 x in cc),
      λ x. absurd (let t = q.1 x in cc),
      λ x. absurd (let t = r.1 x in cc),
    ),
  )

  -- The post step gives the janitor its turn only if the setup step saved a text that reads as the
  -- paths, the mode is neither off nor missing, and the save policy allows it for this event and ref;
  -- and then it does. Otherwise it offers nothing. If it runs, it offers to the backend, besides what was
  -- offered before, each spooled verdict whose record is there under its own key, in the order of the
  -- spool, and last the manifest if the log of invocations is not empty and could be copied. Which of
  -- the saves fail makes no difference.
  pub verdict_post_uploads :
      (mode raw : Text) (g : Gate)
      → (((verdict_post mode raw g).0 ≡ true) ↔ ((paths : VerdictPaths) × Runs mode raw paths))
        × ((verdict_post mode raw g).0 ≡ false → (verdict_post mode raw g).1.uploads ≡ g.uploads)
        × ((paths : VerdictPaths)
            → Runs mode raw paths
            → (verdict_post mode raw g).1.uploads
              ≡ g.uploads
                ++ step_uploads path_join sha256_hex read_json backend env files paths staging)
  unfolding verdict_post
  verdict_post_uploads mode raw g =
      let (stops, goes) =
        guards (is_empty raw) (mode == text "off") (is_empty mode) (raw ≡ []) (mode ≡ text "off")
          (mode ≡ []) (is_empty_iff raw) (==_iff mode (text "off")) (is_empty_iff mode) in
      elim (Bool-cases (is_empty raw || (mode == text "off" || is_empty mode))) [
        | inl e ↦ rw e (
          (λ h. cc, λ (paths, (x, y, z, r, a)). absurd (stops e x y z)),
          λ h. refl,
          λ paths (x, y, z, r, a). absurd (stops e x y z),
        )
        | inr e ↦
            let (x, y, z) = goes e in
            let ((to, back), quiet, sent) = post_parsed_lem (read_paths raw) g in
            rw e (
              (
                λ h. (let (paths, (r, a)) = to h in (paths, (x, y, z, r, a))),
                λ (paths, (x, y, z, r, a)). back (paths, (r, a)),
              ),
              quiet,
              λ paths (x, y, z, r, a). sent paths (r, a),
            )
      ]
