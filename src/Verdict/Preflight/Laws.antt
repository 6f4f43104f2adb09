-- ===== src/Verdict/Preflight/Laws.antt =====
-- When a setup goes lazy.
use setup_soldr.Base.{◌<◌, ◌≡◌, refl, sym, ◌∙◌, ap}
use setup_soldr.Base.{Bool, true, false, ◌&&◌, Option, none, some}
use setup_soldr.Base.{List, [], ◌∷◌, arith, if◌then◌else◌, ◌==◌}
use setup_soldr.Base.{nat_eq, list_eq, option_eq, length}
use setup_soldr.Base.{All, Result, ok, err}
use setup_soldr.Base.{◌>>=◌}
use setup_soldr.Base.{ok_injective}
use setup_soldr.Base.Text.{Text, text}
use setup_soldr.Base.Env.{Env}
use setup_soldr.Base.Json.{Json}
use mathlib.Core.Path.{subst}
use setup_soldr.Base.Split.{split}
use setup_soldr.Verdict.{
  VerdictPaths, SoldrRunner, RunOutput, verdict_paths, Prediction, predict, parse_rekey, or_null,
  rows_of, restore_verdicts, is_lazy,
}
use setup_soldr.Verdict.Lazy.{Replays, is_lazy_iff}
use setup_soldr.Verdict.Preflight.{
  VerdictsMode, auto, restore, off, is_auto, VerdictPreflight, PreflightOptions, Outcome, judge,
  ask_soldr, with_soldr, from_manifest, preflight_in, verdict_preflight, restore_exactly,
}

module _ (parse_json : Text → Option Json) where
  -- The output of the run that a prediction comes from.
  predicted_by :
      (r : Result RunOutput) (p : Prediction)
      → or_null (
          r >>= λ out.
          ok (if out.code == 0 then some (parse_rekey parse_json out.stdout) else none))
        ≡ some p
      → (out : RunOutput) × ((r ≡ ok out)
          × ((out.code ≡ 0) × (parse_rekey parse_json out.stdout ≡ p)))
  predicted_by (err e) p h = absurd cc
  predicted_by (ok out) p h = (out, (refl, (ground arith, ground arith)))

all_three : (a b c : Bool) → (a && b && c) ≡ true → (a ≡ true) × ((b ≡ true) × (c ≡ true))
all_three a b c h = ground arith

auto_mode : (m : VerdictsMode) → is_auto m ≡ true → m ≡ auto
auto_mode auto h = refl
auto_mode restore h = absurd cc
auto_mode off h = absurd cc

module _ (parse_json : Text → Option Json) (path_join : Text → Text → Text)
    (sha256_hex : Text → Text) (restore_cache : List Text → Text → List Text → Result (Option Text))
    (staging_exists : Bool) (installed : Result (Unit {0})) (run : SoldrRunner)
    (o : PreflightOptions) where
  abbrev pub rekey : Result RunOutput
  rekey = run (text "verdict" ∷ text "rekey" ∷ text "--json" ∷ o.staging ∷ []) o.workspace

  abbrev restores : List Text → Text → Result (Option Text)
  restores =
      restore_exactly parse_json path_join sha256_hex restore_cache staging_exists installed run o

  -- The last run of the job did only checks, and the cache has the record of each.
  abbrev pub AllReplay : VerdictPreflight → Type 0
  AllReplay v =
      (paths : VerdictPaths) × ((v.paths ≡ some paths)
        × ((out : RunOutput) × ((rekey ≡ ok out)
              × ((out.code ≡ 0)
                  × ((0 < length (rows_of parse_json (split 10 out.stdout)))
                      × All
                          (Replays parse_json path_join (λ files key. restore_cache files key [])
                            paths)
                          (rows_of parse_json (split 10 out.stdout)))))))

  judge_lazy :
      (mode : VerdictsMode) (paths : VerdictPaths) (op : Option Prediction) (v : VerdictPreflight)
      → predict parse_json run o.staging o.workspace ≡ op
      → (judge parse_json path_join sha256_hex restore_cache staging_exists installed run o mode
          paths op).0
        ≡ ok v
      → v.lazy ≡ true
      → (o.mode ≡ auto) × ((o.shims_enabled ≡ true) × AllReplay v)
  unfolding judge predict
  judge_lazy mode paths none v e h lazy =
      let same = ok_injective _ v h in
      absurd (let t : false ≡ true = ap (λ v. v.lazy) same ∙ lazy in cc)
  judge_lazy mode paths (some p) v e h lazy =
      let same = ok_injective _ v h in
      let (out, (ran, (code, predicts))) = predicted_by parse_json rekey p e in
      let (is_auto_mode, (shims, all_there)) =
        all_three (is_auto o.mode) o.shims_enabled _ (ap (λ v. v.lazy) same ∙ lazy) in
      let there =
        subst
          (λ q.
            is_lazy (some q)
              (restore_verdicts path_join (λ files key. restore_cache files key []) q.keys paths)
            ≡ true)
          (sym predicts) all_there in
      (
        auto_mode o.mode is_auto_mode,
        (
          shims,
          (
            paths,
            (
              sym (ap (λ v. v.paths) same),
              (
                out,
                (
                  ran,
                  (
                    code,
                    (is_lazy_iff parse_json path_join (λ files key. restore_cache files key [])
                          paths out.stdout).0
                        there,
                  ),
                ),
              ),
            ),
          ),
        ),
      )

  -- What a lazy outcome of a part shows.
  abbrev Shows : Outcome → Type 0
  Shows outcome =
      (v : VerdictPreflight)
      → outcome.0 ≡ ok v
      → v.lazy ≡ true
      → (o.mode ≡ auto) × ((o.shims_enabled ≡ true) × AllReplay v)

  not_lazy : (v : VerdictPreflight) → v.lazy ≡ false → Shows (ok v, [])
  not_lazy v plain w h lazy =
      absurd
        (let t : false ≡ true = sym plain ∙ (ap (λ v. v.lazy) (ok_injective v w h) ∙ lazy) in cc)

  ask_lazy :
      (mode : VerdictsMode) (op : Option VerdictPaths)
      → Shows (
          ask_soldr parse_json path_join sha256_hex restore_cache staging_exists installed run o
            mode op)
  unfolding ask_soldr
  ask_lazy mode none v h lazy = not_lazy _ refl v h lazy
  ask_lazy mode (some paths) v h lazy = judge_lazy mode paths _ v refl h lazy

  with_lazy :
      (mode : VerdictsMode) (r : Result (Unit {0}))
      → Shows (
          with_soldr parse_json path_join sha256_hex restore_cache staging_exists installed run o
            mode r)
  unfolding with_soldr
  with_lazy mode (err e) v h lazy = absurd cc
  with_lazy mode (ok done) v h lazy =
      ask_lazy mode (verdict_paths parse_json run o.workspace) v h lazy

  from_lazy :
      (mode : VerdictsMode) (b : Bool)
      → Shows (
          from_manifest parse_json path_join sha256_hex restore_cache staging_exists installed run o
            mode b)
  unfolding from_manifest
  from_lazy mode false = not_lazy _ refl
  from_lazy mode true = with_lazy mode installed

  in_lazy :
      (mode : VerdictsMode) (env : Env)
      → Shows (
          preflight_in parse_json path_join sha256_hex restore_cache staging_exists installed run o
            mode env)
  unfolding preflight_in
  in_lazy off env = not_lazy _ refl
  in_lazy auto env = from_lazy auto _
  in_lazy restore env = from_lazy restore _

  enabled_lazy :
      (b : Bool) (env : Env) (v : VerdictPreflight)
      → (preflight_in parse_json path_join sha256_hex restore_cache staging_exists installed run o
          (if b then o.mode else off)
          env).0
        ≡ ok v
      → v.lazy ≡ true
      → b ≡ true
  unfolding preflight_in
  enabled_lazy true env v h lazy = refl
  enabled_lazy false env v h lazy =
      absurd (let t : false ≡ true = ap (λ v. v.lazy) (ok_injective _ v h) ∙ lazy in cc)

  -- A setup that ends lazy ran with verdicts enabled in the mode auto and with shims, soldr's rekey of
  -- the restored manifest ended well with at least one row, and each row is a gated check whose record
  -- the cache restored under exactly the key of the row.
  pub verdict_preflight_lazy :
      (env : Env) (v : VerdictPreflight)
      → (verdict_preflight parse_json path_join sha256_hex restore_cache staging_exists installed
          run o env).0
        ≡ ok v
      → v.lazy ≡ true
      → (o.enabled ≡ true) × ((o.mode ≡ auto) × ((o.shims_enabled ≡ true) × AllReplay v))
  unfolding verdict_preflight
  verdict_preflight_lazy env v h lazy = (
    enabled_lazy o.enabled env v h lazy,
    in_lazy (if o.enabled then o.mode else off) env v h lazy,
  )
