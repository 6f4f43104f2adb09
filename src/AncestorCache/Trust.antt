-- ===== src/AncestorCache/Trust.antt =====
-- src/lib/ancestor-cache-trust.ts: the writers that a caller has reviewed.
use setup_soldr.Base.{ℕ, ◌≡◌, refl, sym, ◌∙◌, ap}
use setup_soldr.Base.{inl, inr, Bool, true, false, not, ◌&&◌, ◌||◌, Option, none, some}
use setup_soldr.Base.{List, [], ◌∷◌, ◌++◌, map, arith, if◌then◌else◌, ltb, leb, ◌==◌, ==_iff}
use setup_soldr.Base.{nat_eq, list_eq, option_eq, length}
use setup_soldr.Base.{filter, find, get_or, Result, ok, err, ensure}
use setup_soldr.Base.{◌>>=◌, ◌>>◌}
use setup_soldr.Base.Text.{Text, text, trim, strip_prefix, ends_with}
use setup_soldr.Base.Text.{is_empty}
use setup_soldr.Base.{In}
use setup_soldr.Base.Span.{span, is_hex}
use setup_soldr.Base.Split.{split}
use setup_soldr.Base.Decimal.{number}
use setup_soldr.AncestorCache.{is_sha, is_safe_positive, accept, ◌>>?◌}

pub record TrustedWriter : Type 0 where
  pub repository : Text
  pub workflow : Text
  pub sha : Text
  pub run_id : ℕ
  pub attempt : ℕ
  pub job_id : ℕ

pub record WriterRunMetadata : Type 0 where
  pub repository : Text
  pub head_repository : Text
  pub workflow : Text
  pub sha : Text
  pub run_id : ℕ
  pub attempt : ℕ
  pub status : Option Text
  pub conclusion : Option Text

-- `[A-Za-z0-9_.-]`
unfoldable pub is_name_char : ℕ → Bool
is_name_char c =
    leb b'0' c && leb c b'9'
    || leb b'a' c && leb c b'z'
    || leb b'A' c && leb c b'Z'
    || c == b'_'
    || c == b'.'
    || c == b'-'

-- `[A-Za-z0-9_.-]+\.ya?ml`, of a run of name characters.
unfoldable pub is_workflow_file : Text → Bool
unfolding ends_with text
is_workflow_file s =
    ends_with s (text ".yml") && ltb 4 (length s) || ends_with s (text ".yaml") && ltb 5 (length s)

-- `:([1-9][0-9]*)`
abbrev colon_number : Text → Option (ℕ × Text)
colon_number s = strip_prefix (text ":") s >>? number

-- The pattern of a line. No group can hold the character behind it, so each is a longest run.
unfoldable pub match_writer : Text → Option TrustedWriter
unfolding is_name_char is_workflow_file is_hex text
match_writer line =
    let (owner, s₁) = span is_name_char line in
    accept (not (is_empty owner)) >>? λ _. strip_prefix (text "/") s₁ >>? λ s₂.
    let (repo, s₃) = span is_name_char s₂ in
    accept (not (is_empty repo)) >>? λ _. strip_prefix (text "/.github/workflows/") s₃ >>? λ s₄.
    let (file, s₅) = span is_name_char s₄ in
    accept (is_workflow_file file) >>? λ _. strip_prefix (text "@") s₅ >>? λ s₆.
    let (sha, s₇) = span is_hex s₆ in
    accept (is_sha sha) >>? λ _. colon_number s₇ >>? λ (run_id, s₈).
    colon_number s₈ >>? λ (attempt, s₉). colon_number s₉ >>? λ (job_id, rest).
    accept (is_empty rest) >>? λ _. some (record {
      repository = owner ++ (text "/" ++ repo);
      workflow = text ".github/workflows/" ++ file;
      sha = sha;
      run_id = run_id;
      attempt = attempt;
      job_id = job_id;
    })

-- The body of the `map`, for the answer of the pattern.
abbrev pub checked_writer : Option TrustedWriter → Result TrustedWriter
checked_writer none =
    err (text "trusted writer must pin repository, workflow, source SHA, run, attempt and job")
checked_writer (some w) =
    ensure (is_safe_positive w.run_id && is_safe_positive w.attempt && is_safe_positive w.job_id)
      (text "invalid trusted writer identifier")
    >> ok w

unfoldable pub parse_writer_lines : List Text → Result (List TrustedWriter)
unfolding match_writer
parse_writer_lines [] = ok []
parse_writer_lines (line ∷ lines) =
    let rest = parse_writer_lines lines in
    checked_writer (match_writer line) >>= λ w. rest >>= λ ws. ok (w ∷ ws)

-- A line's carriage return goes with its white space.
abbrev pub writer_lines : Option Text → List Text
writer_lines input = filter (λ s. not (is_empty s)) (map trim (split 10 (get_or input [])))

unfoldable pub parse_trusted_writers : Option Text → Result (List TrustedWriter)
unfolding parse_writer_lines split trim text
parse_trusted_writers input =
    ensure (leb (length (writer_lines input)) 32) (text "trusted writer list exceeds 32 entries")
    >> parse_writer_lines (writer_lines input)

-- `jobId === undefined || writer.jobId === jobId`
abbrev pub is_job : Option ℕ → ℕ → Bool
is_job none id = true
is_job (some job) id = id == job

unfoldable pub is_writer_of : WriterRunMetadata → Option ℕ → TrustedWriter → Bool
is_writer_of m job w =
    w.repository == m.repository
    && w.workflow == m.workflow
    && w.sha == m.sha
    && w.run_id == m.run_id
    && w.attempt == m.attempt
    && is_job job w.job_id

abbrev pub is_text : Option Text → Text → Bool
is_text none t = false
is_text (some s) t = s == t

unfoldable pub trusted_writer_for_run :
    List TrustedWriter → WriterRunMetadata → Option ℕ → Option TrustedWriter
unfolding is_writer_of text
trusted_writer_for_run writers m job =
    if is_text m.status (text "completed")
      && is_text m.conclusion (text "success")
      && m.repository == m.head_repository
    then find (is_writer_of m job) writers
    else none

-- `relative.split("@")[0]`
unfoldable pub normalize_workflow_path : Text → Text → Text
unfolding span strip_prefix text
normalize_workflow_path path repository =
    (span (λ c. not (c == b'@')) (get_or (strip_prefix (repository ++ text "/") path) path)).0

-- The run was made by the writer, in its own repository, and ended well.
abbrev pub IsWriterOf : WriterRunMetadata → TrustedWriter → Type 0
IsWriterOf m w =
    ((w.repository ≡ m.repository) × ((w.workflow ≡ m.workflow) × (w.sha ≡ m.sha)))
    × (((w.run_id ≡ m.run_id) × (w.attempt ≡ m.attempt))
        × ((m.status ≡ some (text "completed"))
            × ((m.conclusion ≡ some (text "success")) × (m.repository ≡ m.head_repository))))

some_injective : (a b : TrustedWriter) → some a ≡ some b → a ≡ b
some_injective a b h = cc

find_sound :
    (p : TrustedWriter → Bool) (ws : List TrustedWriter) (w : TrustedWriter)
    → find p ws ≡ some w
    → In w ws × (p w ≡ true)
find_sound p [] w h = absurd cc
find_sound p (x ∷ ws) w h = found (p x) refl h (find_sound p ws w)
  where
    found :
        (b : Bool)
        → p x ≡ b
        → (if b then some x else find p ws) ≡ some w
        → (find p ws ≡ some w → In w ws × (p w ≡ true))
        → In w (x ∷ ws) × (p w ≡ true)
    found true e h rest = let same : w ≡ x = some_injective w x (sym h) in (inl same, ap p same ∙ e)
    found false e h rest = let (i, q) = rest h in (inr i, q)

pub is_text_iff : (o : Option Text) (t : Text) → is_text o t ≡ true → o ≡ some t
is_text_iff none t h = absurd cc
is_text_iff (some s) t h = ap some ((==_iff s t).0 h)

past_test :
    (b : Bool) (o : Option TrustedWriter) {w : TrustedWriter}
    → (if b then o else none) ≡ some w
    → (b ≡ true) × (o ≡ some w)
past_test true o h = (refl, h)
past_test false o h = absurd cc

test_parts : (a b c : Bool) → (a && b && c) ≡ true → (a ≡ true) × ((b ≡ true) × (c ≡ true))
test_parts a b c h = ground arith

writer_parts :
    (m : WriterRunMetadata) (job : Option ℕ) (w : TrustedWriter)
    → is_writer_of m job w ≡ true
    → ((w.repository ≡ m.repository) × ((w.workflow ≡ m.workflow) × (w.sha ≡ m.sha)))
      × (((w.run_id ≡ m.run_id) × (w.attempt ≡ m.attempt)) × (is_job job w.job_id ≡ true))
unfolding is_writer_of
writer_parts m job w h = ground arith

-- A writer that is found is one of the list, pins exactly this run, which ended well in its own
-- repository, and is the writer of the job that was asked for.
pub trusted_writer_for_run_sound :
    (ws : List TrustedWriter) (m : WriterRunMetadata) (job : Option ℕ) (w : TrustedWriter)
    → trusted_writer_for_run ws m job ≡ some w
    → In w ws × (IsWriterOf m w × (is_job job w.job_id ≡ true))
unfolding trusted_writer_for_run
trusted_writer_for_run_sound ws m job w h =
    let (ended, found) = past_test _ _ h in
    let (completed, (success, own)) = test_parts _ _ _ ended in
    let (i, same) = find_sound (is_writer_of m job) ws w found in
    let (names, (numbers, right_job)) = writer_parts m job w same in
    (
      i,
      (
        (
          names,
          (
            numbers,
            (
              is_text_iff m.status (text "completed") completed,
              (
                is_text_iff m.conclusion (text "success") success,
                (==_iff m.repository m.head_repository).0 own,
              ),
            ),
          ),
        ),
        right_job,
      ),
    )
