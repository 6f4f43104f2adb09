-- ===== src/YankAudit/Index.antt =====
-- src/lib/yank-audit.ts: the sparse index of crates.io. `fetch` and the parser of JSON are parameters.
use setup_soldr.Base.{Bool, true, false, Option, none, some}
use setup_soldr.Base.{List, [], ◌∷◌, ◌++◌, map, if◌then◌else◌, ◌==◌}
use setup_soldr.Base.{nat_eq, list_eq, option_eq, take, drop}
use setup_soldr.Base.{Result, ok, err}
use setup_soldr.Base.{◌>>=◌}
use setup_soldr.Base.Text.{Text, text, trim, to_lower}
use setup_soldr.Base.Text.{is_empty}
use setup_soldr.Base.Json.{Json, prop}
use setup_soldr.Base.Split.{split}
use setup_soldr.YankAudit.{YankedDependency}

abbrev pub short_path : Text → Text → Text
short_path name (a ∷ []) = text "1/" ++ name
short_path name (a ∷ b ∷ []) = text "2/" ++ name
short_path name (a ∷ b ∷ c ∷ []) = text "3/" ++ (a ∷ text "/" ++ name)
short_path name s = take 2 s ++ (text "/" ++ (take 2 (drop 2 s) ++ (text "/" ++ name)))

unfoldable pub crates_io_sparse_path : Text → Text
unfolding to_lower text
crates_io_sparse_path crate_name = short_path (to_lower crate_name) (to_lower crate_name)

-- The versions of a crate, and whether each was yanked; the last record of a version counts.
abbrev pub Records : Type 0
Records = List (Text × Bool)

unfoldable pub record_of : Option Json → Option Json → Records → Records
record_of (some (Json.str vers)) (some (Json.bool gone)) records = (vers, gone) ∷ records
record_of _ _ records = records

unfoldable pub find_record : Records → Text → Option Bool
find_record [] version = none
find_record ((v, gone) ∷ records) version =
    let rest = find_record records version in if v == version then some gone else rest

-- The records of the lines so far, and those of further lines.
unfoldable pub read_lines : (Text → Result Json) → Records → List Text → Result Records
unfolding record_of prop trim text
read_lines parse_json records [] = ok records
read_lines parse_json records (line ∷ lines) = elim (is_empty (trim line)) [
  | true ↦ read_lines parse_json records lines
  | false ↦ parse_json line >>= λ value.
      read_lines parse_json
        (record_of (prop (some value) (text "vers")) (prop (some value) (text "yanked")) records)
        lines
]

-- The dependencies that were checked, and those of them that were yanked.
abbrev pub Checked : Type 0
Checked = List YankedDependency × List YankedDependency

abbrev pub add_checked : Text → Text → Bool → Checked → Checked
add_checked name version true (checked, bad) = (
  record { name = name; version = version } ∷ checked,
  record { name = name; version = version } ∷ bad,
)
add_checked name version false (checked, bad) =
    (record { name = name; version = version } ∷ checked, bad)

unfoldable pub check_versions : Text → Records → List Text → Result Checked
unfolding find_record text
check_versions name records [] = ok ([], [])
check_versions name records (version ∷ versions) = elim (find_record records version) [
  | none ↦
      err (text "version " ++ (name ++ (text " " ++ (version ++ text " absent from sparse index"))))
  | some gone ↦
      check_versions name records versions >>= λ rest. ok (add_checked name version gone rest)
]

-- `split(/\r?\n/)` leaves no carriage return at the end of a line.
abbrev pub strip_cr : Text → Text
strip_cr [] = []
strip_cr (c ∷ []) = if c == 13 then [] else c ∷ []
strip_cr (c ∷ d ∷ s) = c ∷ strip_cr (d ∷ s)

-- `fetch` of an address: the body, or the message of what went wrong, a status that is not ok included.
unfoldable pub fetch_crate_yanks :
    (Text → Result Text) → (Text → Result Json) → Text → List Text → Result Checked
unfolding crates_io_sparse_path read_lines check_versions split text
fetch_crate_yanks fetch parse_json crate_name versions =
    fetch (text "https://index.crates.io/" ++ crates_io_sparse_path crate_name) >>= λ body.
    read_lines parse_json [] (map strip_cr (split 10 body)) >>= λ records.
    check_versions crate_name records versions
