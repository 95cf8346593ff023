-- ===== src/Checkout.antt =====
-- crates/mediagit-versioning/src/checkout.rs: `checkout_diff`, which turns the working directory of
-- one commit into that of another, as on Unix.
pub mod Disk
pub mod Cleaning
pub mod Ends
pub mod Steps
pub mod Loops
pub mod Exact
pub mod Memory
pub mod Limits
mod Tests
use mediagit_core.Prelude.{
  ℕ, zero, suc, ◌+◌, Bool, true, false, not, ◌||◌, Option, none, some, List, [], ◌∷◌, map,
  if◌then◌else◌,
}
use mediagit_core.Result.{Result, ok, err, ◌>>=◌, ◌>>◌, ensure}
use mediagit_core.Bytes.{bytes_eq}
use mediagit_core.Object.{Oid}
use mediagit_core.BTreeMap.{BTreeMap, get, insert, insert_all, values, contains_key}
use mediagit_core.BTreeMap.Order.{bytes_ord}
use mediagit_core.Tree.{Name, FileMode, regular, executable, symlink, directory, TreeEntry, Tree}
use mediagit_core.Lca.{Commit}
use Disk.{WorkTree, FilePath}

-- A `HashMap` by lookup.
abbrev pub Files : Type 0
Files = BTreeMap FilePath (Oid × FileMode)

abbrev pub FileListing : Type 0
FileListing = List (FilePath × (Oid × FileMode))

pub data CheckoutError : Type 0 where
  commit_unreadable tree_unreadable blob_unreadable not_utf8 io too_deep : CheckoutError

-- The time that a checkout took is left out.
pub record CheckoutStats : Type 0 where
  pub files_added : ℕ
  pub files_modified : ℕ
  pub files_deleted : ℕ
  pub files_unchanged : ℕ

abbrev pub no_stats : CheckoutStats
no_stats = record { files_added = 0; files_modified = 0; files_deleted = 0; files_unchanged = 0 }

abbrev pub files_changed : CheckoutStats → ℕ
files_changed c = c.files_added + c.files_modified + c.files_deleted

abbrev pub total_files : CheckoutStats → ℕ
total_files c = files_changed c + c.files_unchanged

abbrev pub or_err {ℓ} : {A : Type ℓ} → CheckoutError → Option A → Result CheckoutError A
or_err e none = err e
or_err e (some a) = ok a

-- `join` is `FilePath::join`, `read_tree` is `Tree::read`. The fuel bounds the depth of directories.
module _ (join : FilePath → Name → FilePath) (read_tree : Oid → Option Tree) where
  -- `files_below` reads a subdirectory.
  unfoldable pub collect_entries :
      (Oid → FilePath → Result CheckoutError Files)
      → FilePath
      → List TreeEntry
      → Files
      → Result CheckoutError Files
  collect_entries files_below prefix [] files = ok files
  collect_entries files_below prefix (entry ∷ entries) files =
      let entry_path = join prefix entry.name in
      let step : Result CheckoutError Files = elim entry.mode [
        | directory ↦ do
          subdir_files ← files_below entry.oid entry_path
          ok (insert_all files subdir_files)
        | other ↦ ok (insert entry_path (entry.oid, other) files)
      ] in
      step >>= λ more. collect_entries files_below prefix entries more

  unfoldable pub get_tree_files_with_oid : ℕ → Oid → FilePath → Result CheckoutError Files
  unfolding collect_entries
  get_tree_files_with_oid zero tree_oid prefix = err too_deep
  get_tree_files_with_oid (suc fuel) tree_oid prefix = do
    tree ← or_err tree_unreadable (read_tree tree_oid)
    collect_entries (get_tree_files_with_oid fuel) prefix (values tree) []

module _ {S : Type 0} (disk : WorkTree S) (read_blob : Oid → Option (List ℕ))
    (is_utf8 : List ℕ → Bool) where
  -- A failure to remove is ignored.
  abbrev pub removed_or : Option S → S → S
  removed_or none s = s
  removed_or (some t) s = t

  abbrev pub write_mode : FilePath → List ℕ → FileMode → S → Result CheckoutError S
  write_mode path blob regular s = or_err io (disk.write path blob s)
  write_mode path blob executable s = do
    t ← or_err io (disk.write path blob s)
    or_err io (disk.set_executable path t)
  write_mode path blob symlink s = do
    ensure (is_utf8 blob) not_utf8
    or_err io (disk.symlink blob path (removed_or (disk.remove path s) s))
  write_mode path blob directory s = ok s

  unfoldable pub checkout_single_file : FilePath → Oid → FileMode → S → Result CheckoutError S
  checkout_single_file path oid mode s = do
    blob ← or_err blob_unreadable (read_blob oid)
    t ← or_err io (disk.create_parent path s)
    write_mode path blob mode t

  -- What the source tree has at the path decides what is done.
  abbrev pub place_file :
      Option (Oid × FileMode)
      → FilePath
      → Oid
      → FileMode
      → CheckoutStats × S
      → Result CheckoutError (CheckoutStats × S)
  place_file none path to_oid mode (c, s) = do
    t ← checkout_single_file path to_oid mode s
    ok (record c { files_added = c.files_added + 1 }, t)
  place_file (some (from_oid, from_mode)) path to_oid mode (c, s) =
      if bytes_eq from_oid to_oid
      then ok (record c { files_unchanged = c.files_unchanged + 1 }, s)
      else (do
        t ← checkout_single_file path to_oid mode s
        ok (record c { files_modified = c.files_modified + 1 }, t))

  unfoldable pub place_files :
      Files → FileListing → CheckoutStats × S → Result CheckoutError (CheckoutStats × S)
  place_files from_files [] st = ok st
  place_files from_files ((path, (to_oid, mode)) ∷ rest) st =
      place_file (get path from_files) path to_oid mode st >>= λ st'.
      place_files from_files rest st'

  abbrev pub delete_file :
      Bool → FilePath → CheckoutStats × S → Result CheckoutError (CheckoutStats × S)
  delete_file true path st = ok st
  delete_file false path (c, s) =
      if disk.exists path s
      then (do
        t ← or_err io (disk.remove path s)
        ok (record c { files_deleted = c.files_deleted + 1 }, t))
      else ok (c, s)

  unfoldable pub delete_files :
      Files → FileListing → CheckoutStats × S → Result CheckoutError (CheckoutStats × S)
  delete_files to_files [] st = ok st
  delete_files to_files ((path, entry) ∷ rest) st =
      delete_file (contains_key path to_files) path st >>= λ st'. delete_files to_files rest st'

  -- The attempts that are left to remove a directory; the answer is whether it still stands.
  unfoldable pub try_remove_dir : ℕ → FilePath → Bool × S → Bool × (Bool × S)
  try_remove_dir zero dir st = (true, st)
  try_remove_dir (suc attempts) dir (removed_any, s) =
      let done = disk.remove_dir dir s in
      elim done.0 [
        | true ↦ (false, (true, done.1))
        | false ↦ try_remove_dir attempts dir (removed_any, done.1)
      ]

  abbrev pub is_mediagit_name : Option (List ℕ) → Bool
  is_mediagit_name none = false
  is_mediagit_name (some name) =
      bytes_eq name (b'.' ∷ b'm' ∷ b'e' ∷ b'd' ∷ b'i' ∷ b'a' ∷ b'g' ∷ b'i' ∷ b't' ∷ [])

  abbrev pub is_mediagit : FilePath → Bool
  is_mediagit path = is_mediagit_name (disk.file_name path)

  -- Below a directory, `below` tries to remove one.
  module _ (below : FilePath → Bool × S → Result CheckoutError (Bool × (Bool × S))) where
    abbrev pub clean_at_root : FilePath → Bool × S → Result CheckoutError (Bool × S)
    clean_at_root path (removed_any, s) =
        if is_mediagit path || not (disk.is_dir path s)
        then ok (removed_any, s)
        else (below path (removed_any, s) >>= λ r. ok r.1)

    unfoldable pub clean_root : List (Option FilePath) → Bool × S → Result CheckoutError (Bool × S)
    clean_root [] st = ok st
    clean_root (none ∷ entries) st = err io
    clean_root (some path ∷ entries) st = clean_at_root path st >>= λ st'. clean_root entries st'

    abbrev pub clean_entry : FilePath → Bool → Bool × S → Result CheckoutError (Bool × (Bool × S))
    clean_entry path has_contents (removed_any, s) =
        if is_mediagit path
        then ok (has_contents, (removed_any, s))
        else if disk.is_dir path s
        then (below path (removed_any, s) >>= λ r. ok (has_contents || r.0, r.1))
        else ok (true, (removed_any, s))

    -- An entry that cannot be read is passed over.
    unfoldable pub clean_entries :
        List (Option FilePath) → Bool → Bool × S → Result CheckoutError (Bool × (Bool × S))
    clean_entries [] has_contents st = ok (has_contents, st)
    clean_entries (none ∷ entries) has_contents st = clean_entries entries has_contents st
    clean_entries (some path ∷ entries) has_contents st =
        clean_entry path has_contents st >>= λ r. clean_entries entries r.0 r.1

  abbrev pub emptied : FilePath → Bool × (Bool × S) → Bool × (Bool × S)
  emptied dir (has_contents, st) = if has_contents then (true, st) else try_remove_dir 3 dir st

  -- The root of the repository is the empty path.
  abbrev pub clean_dir :
      (FilePath → Bool × S → Result CheckoutError (Bool × (Bool × S)))
      → FilePath
      → List (Option FilePath)
      → Bool × S
      → Result CheckoutError (Bool × (Bool × S))
  clean_dir below dir entries st =
      if bytes_eq dir []
      then (clean_root below entries st >>= λ st'. ok (true, st'))
      else (clean_entries below entries false st >>= λ r. ok (emptied dir r))

  -- The fuel bounds the depth of directories.
  unfoldable pub try_remove_empty_dirs :
      ℕ → FilePath → Bool × S → Result CheckoutError (Bool × (Bool × S))
  unfolding clean_root clean_entries try_remove_dir
  try_remove_empty_dirs zero dir st = err too_deep
  try_remove_empty_dirs (suc fuel) dir (removed_any, s) =
      let below = try_remove_empty_dirs fuel in
      if not (disk.exists dir s) || not (disk.is_dir dir s)
      then ok (false, (removed_any, s))
      else (or_err io (disk.read_dir dir s) >>= λ entries.
          clean_dir below dir entries (removed_any, s))

  -- The first fuel bounds the passes, the second the depth.
  unfoldable pub remove_empty_directories : ℕ → ℕ → S → Result CheckoutError S
  unfolding try_remove_empty_dirs
  remove_empty_directories zero depth s = err too_deep
  remove_empty_directories (suc passes) depth s = try_remove_empty_dirs depth [] (false, s) >>= λ r.
      elim r.1.0 [ true ↦ remove_empty_directories passes depth r.1.1 | false ↦ ok r.1.1 ]

  module _ (order : Files → FileListing) (passes depth : ℕ) where
    unfoldable pub update_files : Files → Files → S → Result CheckoutError (CheckoutStats × S)
    update_files from_files to_files s = do
      st ← place_files from_files (order to_files) (no_stats, s)
      (c, t) ← delete_files to_files (order from_files) st
      u ← remove_empty_directories passes depth t
      ok (c, u)

    -- `read_commit` is `Commit::read`, and `files_of` the files of a tree.
    module _ (read_commit : Oid → Option Commit) (files_of : Oid → Result CheckoutError Files) where
      unfoldable pub checkout_diff : Oid → Oid → S → Result CheckoutError (CheckoutStats × S)
      checkout_diff from_commit_oid to_commit_oid s =
          if bytes_eq from_commit_oid to_commit_oid then ok (no_stats, s) else (do
            from_commit ← or_err commit_unreadable (read_commit from_commit_oid)
            to_commit ← or_err commit_unreadable (read_commit to_commit_oid)
            if bytes_eq from_commit.tree to_commit.tree then ok (no_stats, s) else (do
              from_files ← files_of from_commit.tree
              to_files ← files_of to_commit.tree
              update_files from_files to_files s))
