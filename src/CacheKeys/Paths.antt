-- ===== src/CacheKeys/Paths.antt =====
-- src/lib/cache-keys.ts: the paths that the caches hold, and the hash of a file. `node:path`, the home
-- directory and the files are parameters.
use setup_soldr.Base.{ℕ}
use setup_soldr.Base.{Bool, true, not, ◌&&◌, ◌||◌, Option, none, some}
use setup_soldr.Base.{List, [], ◌∷◌, if◌then◌else◌, ◌==◌}
use setup_soldr.Base.{nat_eq, list_eq, option_eq, take, drop}
use setup_soldr.Base.{get_or, Result, ok, err}
use setup_soldr.Base.Text.{Text, text, trim, starts_with, join}
use setup_soldr.Base.Text.{is_empty}
use setup_soldr.CacheKeys.Canonical.{Chunk}

-- `node:path` on the platform, whether a file exists, and HOME or USERPROFILE.
pub record PathHost : Type 0 where
  pub join_path : Text → Text → Text
  pub resolve : Text → Text
  pub dirname : Text → Text
  pub relative : Text → Text → Text
  pub is_absolute : Text → Bool
  pub exists : Text → Bool
  pub home : Text

-- What `readFile` gives: the bytes, ENOENT, or another error.
pub data FileRead : Type 0 where
  contents : List ℕ → FileRead
  missing : FileRead
  failed : Text → FileRead

unfoldable pub short_file_hash : (List Chunk → Text) → FileRead → Text → Result Text
short_file_hash sha256 (FileRead.contents bytes) sentinel =
    ok (take 16 (sha256 (Chunk.bytes bytes ∷ [])))
short_file_hash sha256 FileRead.missing sentinel = ok sentinel
short_file_hash sha256 (FileRead.failed message) sentinel = err message

module _ (host : PathHost) where
  unfoldable pub expanduser : Text → Text
  unfolding starts_with text
  expanduser p =
      if p == text "~"
      then host.home
      else if starts_with p (text "~/") || starts_with p (text "~\\")
      then host.join_path host.home (drop 2 p)
      else p

  abbrev pub absolute_in : Text → Text → Text
  absolute_in workspace p = if host.is_absolute p then p else host.join_path workspace p

  unfoldable pub resolve_workspace_path : Text → Text → Option Text
  unfolding expanduser trim
  resolve_workspace_path workspace value =
      if is_empty (trim value)
      then none
      else some (host.resolve (absolute_in workspace (expanduser (trim value))))

  abbrev pub first_existing : Text → Text → Text
  first_existing beside inside =
      if host.exists beside
      then host.resolve beside
      else if host.exists inside
      then host.resolve inside
      else host.resolve beside

  unfoldable pub resolve_lockfile_path : Text → Text → Text → Text
  unfolding resolve_workspace_path text
  resolve_lockfile_path workspace target_cache_path lockfile_input =
      get_or (resolve_workspace_path workspace lockfile_input) (
        first_existing (host.join_path (host.dirname target_cache_path) (text "Cargo.lock"))
          (host.join_path workspace (text "Cargo.lock")))

  unfoldable pub is_path_inside : Text → Text → Bool
  unfolding starts_with text
  is_path_inside parent child =
      let rel = host.relative parent child in
      if is_empty rel then true else not (starts_with rel (text "..")) && not (host.is_absolute rel)

  unfoldable pub setup_cache_path_list : Text → Text → Text → Text → List Text
  unfolding is_path_inside text
  setup_cache_path_list setup_cache_path bin_dir soldr_bin_cache_path rustup_home =
      bin_dir
      ∷ soldr_bin_cache_path
      ∷ host.join_path rustup_home (text "update-hashes")
      ∷ (if is_path_inside setup_cache_path rustup_home
          then host.join_path rustup_home (text "settings.toml")
            ∷ host.join_path rustup_home (text "toolchains")
            ∷ []
          else [])

  unfoldable pub setup_cache_paths : Text → Text → Text → Text → Text
  unfolding setup_cache_path_list join text
  setup_cache_paths setup_cache_path bin_dir soldr_bin_cache_path rustup_home =
      join (text "\n")
        (setup_cache_path_list setup_cache_path bin_dir soldr_bin_cache_path rustup_home)

  unfoldable pub setup_cache_layout : Text → Text → Text
  unfolding is_path_inside text
  setup_cache_layout setup_cache_path rustup_home =
      if is_path_inside setup_cache_path rustup_home
      then text "bin+soldr-bin+rustup"
      else text "bin+soldr-bin"

  unfoldable pub path_for_output : Text → Option Text → Text
  unfolding starts_with text
  path_for_output workspace none = []
  path_for_output workspace (some p) =
      let rel = host.relative workspace p in
      if starts_with rel (text "..") || host.is_absolute rel then p else rel
