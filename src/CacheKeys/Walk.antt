-- ===== src/CacheKeys/Walk.antt =====
-- src/lib/cache-keys.ts: the walk over a workspace ends, and yields what a recursive description of
-- it says, in some order; so the hash of the manifests depends on no order.
use setup_soldr.Base.{ℕ, ◌+◌, ◌≤◌, ◌≡◌, refl, ◌∙◌, ap}
use setup_soldr.Base.{Bool, true, false}
use setup_soldr.Base.{List, [], ◌∷◌, ◌++◌, arith, if◌then◌else◌, ◌==◌}
use setup_soldr.Base.{nat_eq, list_eq, option_eq, includes}
use setup_soldr.Base.Text.{Text, text}
use mathlib.Core.List.{append_assoc, Perm, perm_middle}
use mathlib.Core.List.Perm
use mathlib.Core.Path.{subst}
use Prim.Native.Nat.{Ordering}
use setup_soldr.Base.Sort.{insert, sort, is_gt}
use setup_soldr.CacheKeys.Manifests.{
  Node, Entries, Dirent, members, ignored_manifest_dirs, join_path, yielded, pushed,
}
use setup_soldr.CacheKeys.Manifests.{size, size_in}

-- The manifests at an entry and below it, and those below the entries of a directory.
unfoldable mutual
  unfolding text ignored_manifest_dirs

  pub manifests_at : Text → Node → List Text
  manifests_at path Node.file = []
  manifests_at path Node.other = []
  manifests_at path Node.unreadable = []
  manifests_at path (Node.directory entries) = manifests_below path entries

  pub manifests_below : Text → Entries → List Text
  manifests_below path Entries.finish = []
  manifests_below path (Entries.entry name Node.file entries) =
      (if name == text "Cargo.toml" then join_path path name ∷ [] else [])
      ++ manifests_below path entries
  manifests_below path (Entries.entry name (Node.directory inner) entries) =
      (if includes ignored_manifest_dirs name
        then []
        else manifests_below (join_path path name) inner)
      ++ manifests_below path entries
  manifests_below path (Entries.entry name node entries) = manifests_below path entries

-- The same of the entries of a list, and of what waits on the stack.
unfoldable pub found_at : Text → Dirent → List Text
unfolding manifests_at text ignored_manifest_dirs
found_at path (name, Node.file) = if name == text "Cargo.toml" then join_path path name ∷ [] else []
found_at path (name, Node.other) = []
found_at path (name, Node.unreadable) = []
found_at path (name, Node.directory inner) =
    if includes ignored_manifest_dirs name
    then []
    else manifests_at (join_path path name) (Node.directory inner)

unfoldable pub found_in : Text → List Dirent → List Text
found_in path [] = []
found_in path (e ∷ es) = found_at path e ++ found_in path es

unfoldable pub waiting : List Dirent → List Text
waiting [] = []
waiting (e ∷ es) = manifests_at e.0 e.1 ++ waiting es

unfoldable pub count : List Dirent → ℕ
unfolding size
count [] = 0
count (e ∷ es) = size e.1 + count es

pub found_in-members :
    (path : Text) (entries : Entries)
    → found_in path (members entries) ≡ manifests_below path entries
unfolding found_in found_at members manifests_below
found_in-members path Entries.finish = refl
found_in-members path (Entries.entry name Node.file entries) =
    rw (found_in-members path entries) refl
found_in-members path (Entries.entry name Node.other entries) = found_in-members path entries
found_in-members path (Entries.entry name Node.unreadable entries) = found_in-members path entries
found_in-members path (Entries.entry name (Node.directory inner) entries) =
    rw (found_in-members path entries) refl

pub count-members : (entries : Entries) → count (members entries) ≡ size_in entries
unfolding count members size
count-members Entries.finish = refl
count-members (Entries.entry name node entries) = rw (count-members entries) refl

count-insert :
    (cmp : Dirent → Dirent → Ordering) (e : Dirent) (es : List Dirent)
    → count (insert cmp e es) ≡ count (e ∷ es)
unfolding count insert
count-insert cmp e [] = refl
count-insert cmp e (f ∷ es) = ground (arith, count-insert cmp e es)

pub count-sort :
    (cmp : Dirent → Dirent → Ordering) (es : List Dirent) → count (sort cmp es) ≡ count es
unfolding count sort
count-sort cmp [] = refl
count-sort cmp (e ∷ es) =
    count-insert cmp e (sort cmp es) ∙ ap (λ n. size e.1 + n) (count-sort cmp es)

pub count-pushed :
    (path : Text) (es stack : List Dirent) → count (pushed path es stack) ≤ count es + count stack
unfolding count pushed size
count-pushed path [] stack = omega arith
count-pushed path ((name, Node.file) ∷ es) stack = omega (arith, count-pushed path es stack)
count-pushed path ((name, Node.other) ∷ es) stack = omega (arith, count-pushed path es stack)
count-pushed path ((name, Node.unreadable) ∷ es) stack = ground (
  arith,
  count-pushed path es stack,
  count-pushed path es ((join_path path name, Node.unreadable) ∷ stack),
)
count-pushed path ((name, Node.directory inner) ∷ es) stack = ground (
  arith,
  count-pushed path es stack,
  count-pushed path es ((join_path path name, Node.directory inner) ∷ stack),
)

swap_parts : (a b c : List Text) → Perm (a ++ (b ++ c)) (b ++ (a ++ c))
swap_parts [] b c = Perm.refl _
swap_parts (x ∷ a) b c =
    Perm.trans (Perm.cons x (swap_parts a b c)) (Perm.symm (perm_middle b (a ++ c)))

found_in-insert :
    (path : Text) (cmp : Dirent → Dirent → Ordering) (e : Dirent) (es : List Dirent)
    → Perm (found_in path (insert cmp e es)) (found_in path (e ∷ es))
unfolding found_in insert
found_in-insert path cmp e [] = Perm.refl _
found_in-insert path cmp e (f ∷ es) = go (is_gt (cmp e f)) (found_in-insert path cmp e es)
  where
    go :
        (b : Bool)
        → Perm (found_in path (insert cmp e es)) (found_at path e ++ found_in path es)
        → Perm
            (found_in path (elim b [ true ↦ f ∷ insert cmp e es | false ↦ e ∷ f ∷ es ]))
            (found_at path e ++ (found_at path f ++ found_in path es))
    go true h =
        Perm.trans (Perm.append_left (found_at path f) h)
          (swap_parts (found_at path f) (found_at path e) (found_in path es))
    go false h = Perm.refl _

pub found_in-sort :
    (path : Text) (cmp : Dirent → Dirent → Ordering) (es : List Dirent)
    → Perm (found_in path (sort cmp es)) (found_in path es)
unfolding found_in sort
found_in-sort path cmp [] = Perm.refl _
found_in-sort path cmp (e ∷ es) =
    Perm.trans (found_in-insert path cmp e (sort cmp es))
      (Perm.append_left (found_at path e) (found_in-sort path cmp es))

skip_or_push :
    (ignored : Bool) (e : Dirent) (path : Text) (es stack : List Dirent) (y f : List Text)
    → Perm (y ++ waiting (pushed path es stack)) (f ++ waiting stack)
    → Perm (y ++ waiting (pushed path es (e ∷ stack))) (f ++ waiting (e ∷ stack))
    → Perm
        (y ++ waiting (if ignored then pushed path es stack else pushed path es (e ∷ stack)))
        (((if ignored then [] else manifests_at e.0 e.1) ++ f) ++ waiting stack)
unfolding waiting
skip_or_push true e path es stack y f h k = h
skip_or_push false e path es stack y f h k =
    rw (append_assoc (manifests_at e.0 e.1))
      (Perm.trans k (swap_parts f (manifests_at e.0 e.1) (waiting stack)))

abbrev nothing : List Text
nothing = []

either_nil : (ignored : Bool) → (if ignored then [] else []) ≡ nothing
either_nil true = refl
either_nil false = refl

-- A round neither loses nor repeats a manifest.
pub round-Perm :
    (path : Text) (es stack : List Dirent)
    → Perm (yielded path es ++ waiting (pushed path es stack)) (found_in path es ++ waiting stack)
unfolding found_in found_at yielded pushed waiting manifests_at
round-Perm path [] stack = Perm.refl _
round-Perm path ((name, Node.file) ∷ es) stack =
    go (name == text "Cargo.toml") (round-Perm path es stack)
  where
    go :
        (b : Bool)
        → Perm
            (yielded path es ++ waiting (pushed path es stack))
            (found_in path es ++ waiting stack)
        → Perm
            ((if b then join_path path name ∷ yielded path es else yielded path es)
              ++ waiting (pushed path es stack))
            (((if b then join_path path name ∷ [] else []) ++ found_in path es) ++ waiting stack)
    go true h = Perm.cons _ h
    go false h = h
round-Perm path ((name, Node.other) ∷ es) stack = round-Perm path es stack
round-Perm path ((name, Node.unreadable) ∷ es) stack =
    let e : Dirent = (join_path path name, Node.unreadable) in
    subst
      (λ l.
        Perm (yielded path es ++ waiting (pushed path ((name, Node.unreadable) ∷ es) stack))
          ((l ++ found_in path es) ++ waiting stack))
      (either_nil (includes ignored_manifest_dirs name))
      (skip_or_push (includes ignored_manifest_dirs name) e path es stack (yielded path es)
        (found_in path es) (round-Perm path es stack) (round-Perm path es (e ∷ stack)))
round-Perm path ((name, Node.directory inner) ∷ es) stack =
    let e : Dirent = (join_path path name, Node.directory inner) in
    skip_or_push (includes ignored_manifest_dirs name) e path es stack (yielded path es)
      (found_in path es) (round-Perm path es stack) (round-Perm path es (e ∷ stack))
