-- ===== src/CacheKeys/Workspace.antt =====
-- src/lib/cache-keys.ts: the hash of the manifests of a workspace depends on no order of the walk.
use setup_soldr.Base.{ℕ, zero, suc, ◌≤◌, ◌<◌, ◌≡◌, refl, ap}
use setup_soldr.Base.{not, some}
use setup_soldr.Base.{List, [], ◌∷◌, ◌++◌, arith}
use setup_soldr.Base.{nat_eq, list_eq, option_eq}
use setup_soldr.Base.{filter, Result}
use setup_soldr.Base.Text.{Text}
use mathlib.Core.List.{append-nil, Perm}
use mathlib.Core.List.Perm
use mathlib.Core.Path.{subst}
use Prim.Native.Nat.{Ordering}
use setup_soldr.Base.Sort.{compare_text, sort}
use setup_soldr.Base.Order.{compare_text-IsTotal}
use setup_soldr.CacheKeys.Canonical.{Chunk}
use setup_soldr.CacheKeys.Manifests.{Node, Dirent, members, yielded, pushed}
use setup_soldr.CacheKeys.Manifests.{
  by_name, walk_loop, has_ignored_part, size, read_sorted, yield_all,
}
use setup_soldr.CacheKeys.Manifests.{
  walk_cargo_manifests, manifests_hash, workspace_manifest_hash, hash_walk,
}
use setup_soldr.Base.Order.{sort-filter}
use setup_soldr.CacheKeys.Walk.{
  manifests_at, manifests_below, waiting, count, found_in, count-members, count-sort, count-pushed,
}
use setup_soldr.CacheKeys.Walk.{found_in-sort, found_in-members, round-Perm}

-- With fuel for every entry the loop ends, and what it yields is what the stack stands for.
size_pos : (node : Node) → 0 < size node
unfolding size
size_pos Node.file = omega arith
size_pos Node.other = omega arith
size_pos Node.unreadable = omega arith
size_pos (Node.directory entries) = omega arith

abbrev pub Ends : (Text → Text → Ordering) → ℕ → List Dirent → Type 0
Ends locale_compare fuel stack =
    (found : List Text) × (walk_loop locale_compare fuel stack ≡ some found)
    × Perm found (waiting stack)

pub walk_loop-Perm :
    (locale_compare : Text → Text → Ordering) (fuel : ℕ) (stack : List Dirent)
    → count stack ≤ fuel
    → Ends locale_compare fuel stack
unfolding walk_loop waiting count size manifests_at read_sorted
walk_loop-Perm locale_compare zero [] h = ([], refl, Perm.refl _)
walk_loop-Perm locale_compare (suc fuel) [] h = ([], refl, Perm.refl _)
walk_loop-Perm locale_compare zero ((path, node) ∷ stack) h =
    absurd (omega (arith, h, size_pos node))
walk_loop-Perm locale_compare (suc fuel) ((path, Node.file) ∷ stack) h =
    walk_loop-Perm locale_compare fuel stack (omega (arith, h))
walk_loop-Perm locale_compare (suc fuel) ((path, Node.other) ∷ stack) h =
    walk_loop-Perm locale_compare fuel stack (omega (arith, h))
walk_loop-Perm locale_compare (suc fuel) ((path, Node.unreadable) ∷ stack) h =
    walk_loop-Perm locale_compare fuel stack (omega (arith, h))
walk_loop-Perm locale_compare (suc fuel) ((path, Node.directory entries) ∷ stack) h =
    let es : List Dirent = sort (by_name locale_compare) (members entries) in
    let enough : count (pushed path es stack) ≤ fuel = omega (
      arith,
      h,
      count-pushed path es stack,
      count-sort (by_name locale_compare) (members entries),
      count-members entries,
    ) in
    go es (walk_loop-Perm locale_compare fuel (pushed path es stack) enough) (
      Perm.trans (found_in-sort path (by_name locale_compare) (members entries))
        (same_list (found_in-members path entries)))
  where
    same_list : {a b : List Text} → a ≡ b → Perm a b
    same_list {a} e = subst (Perm a) e (Perm.refl a)

    go :
        (es : List Dirent)
        → Ends locale_compare fuel (pushed path es stack)
        → Perm (found_in path es) (manifests_below path entries)
        → (found : List Text) × (yield_all
              (yielded path es)
              (walk_loop locale_compare fuel (pushed path es stack))
            ≡ some found)
          × Perm found (manifests_below path entries ++ waiting stack)
    go es (later, ends, same) below = (
      yielded path es ++ later,
      rw ends refl,
      Perm.trans (Perm.append_left (yielded path es) same)
          (Perm.trans (round-Perm path es stack) (Perm.append_right (waiting stack) below)),
    )

pub walk_cargo_manifests-Perm :
    (locale_compare : Text → Text → Ordering) (workspace : Node)
    → (found : List Text) × (walk_cargo_manifests locale_compare workspace ≡ some found)
      × Perm found (manifests_at [] workspace)
unfolding walk_cargo_manifests waiting
walk_cargo_manifests-Perm locale_compare workspace =
    let run : Ends locale_compare (size workspace) (([], workspace) ∷ []) =
      walk_loop-Perm locale_compare (size workspace) (([], workspace) ∷ [])
        (unfold count in omega arith) in
    (run.0, run.1, subst (Perm run.0) (append-nil (manifests_at [] workspace)) run.2)

-- Whatever the order is that `localeCompare` sorts a directory by, and whatever the digest and the
-- contents of the files are: the walk over the workspace ends, and the hash of the manifests is that of the
-- recursive list of them, less the ignored ones, in the order of their relative paths.
pub workspace_manifest_hash_lem :
    (sha256 : List Chunk → Text) (read_file : Text → Result (List ℕ))
    (locale_compare : Text → Text → Ordering) (workspace : Node)
    → workspace_manifest_hash sha256 read_file locale_compare workspace
      ≡ some (
          manifests_hash sha256 read_file (
            sort compare_text
              (filter (λ rel. not (has_ignored_part rel)) (manifests_at [] workspace))))
unfolding workspace_manifest_hash
workspace_manifest_hash_lem sha256 read_file locale_compare workspace =
    go (walk_cargo_manifests-Perm locale_compare workspace)
  where
    go :
        (found : List Text) × (walk_cargo_manifests locale_compare workspace ≡ some found)
          × Perm found (manifests_at [] workspace)
        → hash_walk sha256 read_file (walk_cargo_manifests locale_compare workspace)
          ≡ some (
              manifests_hash sha256 read_file (
                sort compare_text
                  (filter (λ rel. not (has_ignored_part rel)) (manifests_at [] workspace))))
    go (found, ends, same) = rw ends (
        ap (λ rels. some (manifests_hash sha256 read_file rels))
          (sort-filter compare_text compare_text-IsTotal (λ rel. not (has_ignored_part rel))
            (λ x y. hlevel) found (manifests_at [] workspace) same))
