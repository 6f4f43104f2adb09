-- ===== src/ToolCache/Publish.antt =====
-- `publishEntry` of src/lib/tool-cache-store.ts, run by any number of publishers of one entry at once:
-- each call of the file system is a step. The content of an entry is a text.
pub mod Laws
use setup_soldr.Base.{ℕ, zero, suc, ◌+◌}
use setup_soldr.Base.{Bool, true, false, Option, none, some}
use setup_soldr.Base.{List, [], ◌∷◌, ◌++◌}
use setup_soldr.Base.{nat_eq, list_eq, option_eq}
use setup_soldr.Base.{is_some, Result, ok, err}
use setup_soldr.Base.Text.{Text, text}

pub data PublishStatus : Type 0 where
  published already_present : PublishStatus

-- Where a publisher stands: before `existsSync`, before `populate`, before `renameSync`, or at the end.
pub data Phase : Type 0 where
  checking populating renaming : Phase
  finished : (result : Result PublishStatus) → Phase

pub record Publisher : Type 0 where
  pub phase : Phase
  -- What its staging folder holds, if there is one.
  pub staging : Option Text

-- The answer of `renameSync`: EEXIST or ENOTEMPTY is `occupied`.
pub data RenameAnswer : Type 0 where
  renamed occupied : RenameAnswer
  refused : (message : Text) → RenameAnswer

-- `finally { fs.rmSync(staging, ...) }`
unfoldable pub leave : Result PublishStatus → Publisher
leave result = record { phase = finished result; staging = none }

-- `existsSync`, and the answer of `mkdirSync` for the folder that the entry stands in.
unfoldable pub check : Option Text → Result (Unit {0}) → Publisher
unfolding leave
check (some entry) made = leave (ok already_present)
check none (ok made) = record { phase = populating; staging = none }
check none (err e) = record { phase = finished (err e); staging = none }

unfoldable pub populate : Result Text → Publisher
unfolding leave
populate (ok content) = record { phase = renaming; staging = some content }
populate (err e) = leave (err e)

-- The answer, and whether the entry is there then.
unfoldable pub settle_rename : RenameAnswer → Bool → Result PublishStatus
unfolding text
settle_rename renamed exists = ok published
settle_rename occupied true = ok already_present
settle_rename occupied false = err (text "ENOTEMPTY")
settle_rename (refused message) exists = err message

abbrev pub waiting : Phase → Option Text → Publisher
waiting phase staging = record { phase = phase; staging = staging }

-- One publisher's step, with the entry before it and after it. A rename moves the content of the
-- staging folder to a place that is free, and finds a place that is not free occupied, since no
-- entry is an empty folder.
pub data Move : Option Text → Publisher → Option Text → Publisher → Type 0 where
  checks :
      (dest staging : Option Text) (made : Result (Unit {0}))
      → Move dest (waiting checking staging) dest (check dest made)
  populates :
      (dest staging : Option Text) (r : Result Text)
      → Move dest (waiting populating staging) dest (populate r)
  renames :
      (content : Text)
      → Move none
          (waiting renaming (some content))
          (some content)
          (leave (settle_rename renamed true))
  finds_entry :
      (content : Text) (staging : Option Text)
      → Move
          (some content)
          (waiting renaming staging)
          (some content)
          (leave (settle_rename occupied true))
  fails :
      (dest staging : Option Text) (message : Text)
      → Move dest
          (waiting renaming staging)
          dest
          (leave (settle_rename (refused message) (is_some dest)))

pub record Store : Type 0 where
  pub dest : Option Text
  pub publishers : List Publisher

pub data Step : Store → Store → Type 0 where
  step_of :
      (before later : List Publisher) (d e : Option Text) (p q : Publisher)
      → Move d p e q
      → Step
          (record { dest = d; publishers = before ++ (p ∷ later) })
          (record { dest = e; publishers = before ++ (q ∷ later) })

-- A run of so many steps.
pub data Run : ℕ → Store → Store → Type 0 where
  done : (s : Store) → Run 0 s s
  more : (n : ℕ) (s t u : Store) → Run n s t → Step t u → Run (suc n) s u

-- So many publishers that have not looked yet.
abbrev pub fresh : ℕ → List Publisher
fresh zero = []
fresh (suc n) = waiting checking none ∷ fresh n

abbrev pub start : ℕ → Store
start n = record { dest = none; publishers = fresh n }
