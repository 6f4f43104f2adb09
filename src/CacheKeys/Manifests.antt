-- ===== src/CacheKeys/Manifests.antt =====
-- src/lib/cache-keys.ts: the hashes of the manifests of a workspace and of its Cargo configuration.
-- A path is the part below the workspace. The order of `localeCompare` is a parameter, and so are the
-- digest and the contents of the files.
use setup_soldr.Base.{ℕ, zero, suc, ◌+◌}
use setup_soldr.Base.{Bool, not, Option, none, some}
use setup_soldr.Base.{List, [], ◌∷◌, ◌++◌, if◌then◌else◌, ◌==◌}
use setup_soldr.Base.{nat_eq, list_eq, option_eq, includes, take}
use setup_soldr.Base.{filter, any, Result, ok}
use setup_soldr.Base.{◌>>=◌}
use setup_soldr.Base.Text.{Text, text}
use Prim.Native.Nat.{Ordering}
use setup_soldr.Base.Sort.{compare_text, sort}
use setup_soldr.Base.Split.{split}
use setup_soldr.CacheKeys.Canonical.{Chunk}

-- What stands under a name in a directory. An entry that is no file and no directory, such as a
-- symbolic link, is `other`; a directory that `readdirSync` throws for is `unreadable`.
mutual
  pub data Node : Type 0 where
    file : Node
    other : Node
    unreadable : Node
    directory : Entries → Node

  pub data Entries : Type 0 where
    finish : Entries
    entry : Text → Node → Entries → Entries

abbrev pub Dirent : Type 0
Dirent = Text × Node

unfoldable pub members : Entries → List Dirent
members Entries.finish = []
members (Entries.entry name node entries) = (name, node) ∷ members entries

unfoldable pub ignored_manifest_dirs : List Text
unfolding text
ignored_manifest_dirs =
    text ".git" ∷ text "target" ∷ text ".soldr" ∷ text "node_modules" ∷ text "_vender" ∷ []

-- `path.join(current, name)`, below the workspace.
abbrev pub join_path : Text → Text → Text
join_path [] name = name
join_path (c ∷ s) name = (c ∷ s) ++ (b'/' ∷ name)

-- What one round of the loop yields, from the entries of a directory in their order.
unfoldable pub yielded : Text → List Dirent → List Text
unfolding text
yielded current [] = []
yielded current ((name, Node.file) ∷ rest) =
    let later = yielded current rest in
    if name == text "Cargo.toml" then join_path current name ∷ later else later
yielded current (_ ∷ rest) = yielded current rest

-- The stack behind the round, its top in front. A directory that cannot be read is pushed as well.
unfoldable pub pushed : Text → List Dirent → List Dirent → List Dirent
unfolding ignored_manifest_dirs
pushed current [] stack = stack
pushed current ((name, Node.file) ∷ rest) stack = pushed current rest stack
pushed current ((name, Node.other) ∷ rest) stack = pushed current rest stack
pushed current ((name, Node.unreadable) ∷ rest) stack =
    let skipped = pushed current rest stack in
    let taken = pushed current rest ((join_path current name, Node.unreadable) ∷ stack) in
    if includes ignored_manifest_dirs name then skipped else taken
pushed current ((name, Node.directory entries) ∷ rest) stack =
    let skipped = pushed current rest stack in
    let taken = pushed current rest ((join_path current name, Node.directory entries) ∷ stack) in
    if includes ignored_manifest_dirs name then skipped else taken

abbrev pub yield_all : List Text → Option (List Text) → Option (List Text)
yield_all found none = none
yield_all found (some later) = some (found ++ later)

abbrev pub by_name : (Text → Text → Ordering) → Dirent → Dirent → Ordering
by_name locale_compare a b = locale_compare a.0 b.0

-- `readdirSync`, sorted; none where it throws.
unfoldable pub read_sorted : (Text → Text → Ordering) → Node → Option (List Dirent)
unfolding members sort
read_sorted locale_compare (Node.directory entries) =
    some (sort (by_name locale_compare) (members entries))
read_sorted locale_compare _ = none

-- The loop: none if the fuel does not last.
unfoldable pub walk_loop : (Text → Text → Ordering) → ℕ → List Dirent → Option (List Text)
unfolding read_sorted yielded pushed
walk_loop locale_compare fuel [] = some []
walk_loop locale_compare zero (top ∷ stack) = none
walk_loop locale_compare (suc fuel) ((current, node) ∷ stack) =
    elim (read_sorted locale_compare node) [
      | none ↦ walk_loop locale_compare fuel stack
      | some entries ↦
          yield_all (yielded current entries)
            (walk_loop locale_compare fuel (pushed current entries stack))
    ]

unfoldable pub has_ignored_part : Text → Bool
unfolding ignored_manifest_dirs split
has_ignored_part rel = any (λ part. includes ignored_manifest_dirs part) (split b'/' rel)

-- The number of entries of the tree, which is enough fuel.
unfoldable mutual
  pub size : Node → ℕ
  size Node.file = 1
  size Node.other = 1
  size Node.unreadable = 1
  size (Node.directory entries) = suc (size_in entries)

  pub size_in : Entries → ℕ
  size_in Entries.finish = 0
  size_in (Entries.entry name node entries) = size node + size_in entries

unfoldable pub walk_cargo_manifests : (Text → Text → Ordering) → Node → Option (List Text)
unfolding walk_loop size
walk_cargo_manifests locale_compare workspace =
    walk_loop locale_compare (size workspace) (([], workspace) ∷ [])

module _ (sha256 : List Chunk → Text) (read_file : Text → Result (List ℕ)) where
  -- A name and the contents behind it, each closed by a zero byte.
  unfoldable pub update_all : List Text → Result (List Chunk)
  update_all [] = ok []
  update_all (rel ∷ rels) = read_file rel >>= λ contents. update_all rels >>= λ later.
      ok (
        Chunk.utf8 rel ∷ Chunk.bytes (0 ∷ []) ∷ Chunk.bytes contents ∷ Chunk.bytes (0 ∷ []) ∷ later)

  abbrev pub digest_16 : List Chunk → Text
  digest_16 chunks = take 16 (sha256 chunks)

  -- The hash of the relative paths that the walk has yielded.
  unfoldable pub manifests_hash : List Text → Result Text
  unfolding update_all text
  manifests_hash [] = ok (text "no-manifest")
  manifests_hash (rel ∷ rels) = update_all (rel ∷ rels) >>= λ chunks. ok (digest_16 chunks)

  abbrev pub hash_walk : Option (List Text) → Option (Result Text)
  hash_walk none = none
  hash_walk (some found) =
      some (manifests_hash (sort compare_text (filter (λ rel. not (has_ignored_part rel)) found)))

  unfoldable pub workspace_manifest_hash : (Text → Text → Ordering) → Node → Option (Result Text)
  unfolding manifests_hash has_ignored_part sort compare_text walk_cargo_manifests
  workspace_manifest_hash locale_compare workspace =
      hash_walk (walk_cargo_manifests locale_compare workspace)

  abbrev pub config_paths : List Text
  config_paths = text ".cargo/config.toml" ∷ text ".cargo/config" ∷ []

  abbrev pub or_no_config : List Chunk → Text
  or_no_config [] = text "no-config"
  or_no_config (c ∷ cs) = digest_16 (c ∷ cs)

  unfoldable pub cargo_config_hash : (Text → Bool) → Result Text
  unfolding update_all text
  cargo_config_hash exists =
      update_all (filter exists config_paths) >>= λ chunks. ok (or_no_config chunks)
