-- ===== src/Checkout/Tests.antt =====
-- A checkout in a working directory in memory, and the theorems there.
use mediagit_core.Checkout.Limits.{count, rank, removes, keeps, lists}
use mediagit_core.Checkout.Ends.{remove_empty_directories_ends}
use mediagit_core.Prelude.{
  ◌⊎◌, arith, ℕ, ◌≡◌, refl, inl, inr, Bool-cases, true, false, Option, none, some, List, [], ◌∷◌,
  ◌++◌, if◌then◌else◌,
}
use mediagit_core.Result.{err, Result, ok}
use mediagit_core.Bytes.{bytes_eq, bytes_eq→eq, bytes_eq_ne}
use mediagit_core.Object.{Oid}
use mediagit_core.BTreeMap.{get, insert, insert_all, remove, contains_key}
use mediagit_core.BTreeMap.Order.{bytes_ord}
use mediagit_core.BTreeMap.Sorted.{get_head}
use mediagit_core.BTreeMap.Assoc.{get_cons_other, at_every_path}
use mediagit_core.Tree.{FileMode, regular, executable, directory, TreeEntry, Tree}
use mediagit_core.Lca.{Commit}
use mediagit_core.Checkout.{
  io, Files, FileListing, CheckoutError, collect_entries, get_tree_files_with_oid,
  checkout_single_file, place_files, delete_files, update_files, checkout_diff,
  remove_empty_directories, try_remove_empty_dirs, clean_root, clean_entries, try_remove_dir,
}
use mediagit_core.Checkout.Disk.{FilePath, Node, file, IsLinkFree}
use mediagit_core.Checkout.Exact.{
  IsOrder, RegularAt, AreRegular, Shows, Matches, KeepsMode, shown-IsPlain, checkout_diff_exact,
  checkout_diff_mode,
}
use mediagit_core.Checkout.Memory.{Nodes, Directory, disk}

abbrev entry : ℕ → FileMode → ℕ → TreeEntry
entry name mode content = record { name = name ∷ []; mode = mode; oid = content ∷ [] }

-- The tree 10 has the files 1 and 2 and a directory with the file 4; the tree 20 has 1 with
-- another content and the new executable file 5; in the tree 40 the file 2 is executable.
abbrev read_tree : Oid → Option Tree
read_tree oid =
    if bytes_eq oid (10 ∷ [])
    then some (
        (1 ∷ [], entry 1 regular 101)
        ∷ (2 ∷ [], entry 2 regular 102)
        ∷ (3 ∷ [], entry 3 directory 30)
        ∷ [])
    else if bytes_eq oid (20 ∷ [])
    then some ((1 ∷ [], entry 1 regular 103) ∷ (5 ∷ [], entry 5 executable 102) ∷ [])
    else if bytes_eq oid (40 ∷ [])
    then some ((2 ∷ [], entry 2 executable 102) ∷ [])
    else some ((4 ∷ [], entry 4 regular 104) ∷ [])

abbrev files_of : Oid → Result CheckoutError Files
files_of oid = get_tree_files_with_oid (λ prefix name. prefix ++ name) read_tree 2 oid []

-- A commit is its tree.
abbrev read_commit : Oid → Option Commit
read_commit oid = some (record { tree = oid; parents = [] })

-- The content of a blob is its identifier.
abbrev read_blob : Oid → Option (List ℕ)
read_blob oid = some oid

abbrev order : Files → FileListing
order m = m

abbrev from_files : Files
from_files =
    (1 ∷ [], (101 ∷ [], regular))
    ∷ (2 ∷ [], (102 ∷ [], regular))
    ∷ (3 ∷ 4 ∷ [], (104 ∷ [], regular))
    ∷ []

abbrev to_files : Files
to_files = (1 ∷ [], (103 ∷ [], regular)) ∷ (5 ∷ [], (102 ∷ [], executable)) ∷ []

abbrev nodes_before : Nodes
nodes_before =
    (1 ∷ [], file (101 ∷ []) false)
    ∷ (2 ∷ [], file (102 ∷ []) false)
    ∷ (3 ∷ 4 ∷ [], file (104 ∷ []) false)
    ∷ []

-- Its directory is 3, which is empty after the checkout.
abbrev before : Directory
before = (nodes_before, (3 ∷ []) ∷ [])

read_from_files : files_of (10 ∷ []) ≡ ok from_files
unfolding get_tree_files_with_oid collect_entries insert_all insert
read_from_files = refl

read_to_files : files_of (20 ∷ []) ≡ ok to_files
unfolding get_tree_files_with_oid collect_entries insert_all insert
read_to_files = refl

abbrev after : Directory
after = ((1 ∷ [], file (103 ∷ []) false) ∷ (5 ∷ [], file (102 ∷ []) true) ∷ [], [])

checked_out :
    checkout_diff disk read_blob
      (λ b. true)
      order
      3
      4
      read_commit
      files_of
      (10 ∷ [])
      (20 ∷ [])
      before
    ≡ ok (
      record { files_added = 1; files_modified = 1; files_deleted = 2; files_unchanged = 0 },
      ((1 ∷ [], file (103 ∷ []) false) ∷ (5 ∷ [], file (102 ∷ []) true) ∷ [], []),
    )
unfolding checkout_diff get_tree_files_with_oid collect_entries insert_all insert get remove
    contains_key update_files place_files delete_files checkout_single_file remove_empty_directories
    try_remove_empty_dirs clean_root clean_entries try_remove_dir
checked_out = refl

from_order : IsOrder from_files (order from_files)
unfolding get
from_order = record { same = λ p. refl; distinct = (refl, (refl, (refl, tt))) }

to_order : IsOrder to_files (order to_files)
unfolding get
to_order = record { same = λ p. refl; distinct = (refl, (refl, tt)) }

Shows-cons :
    (k : FilePath) (e : Oid × FileMode) (n : Node) (m : Files) (d : Nodes)
    → Shows disk read_blob (λ b. true) (some e) (some n)
    → ((p : FilePath) → Shows disk read_blob (λ b. true) (get p m) (get p d))
    → (p : FilePath) → Shows disk read_blob (λ b. true) (get p ((k, e) ∷ m)) (get p ((k, n) ∷ d))
Shows-cons k e n m d h hs p = elim (Bool-cases (bytes_eq p k)) [
  | inl y ↦ rw (bytes_eq→eq p k y, get_head k e m, get_head k n d) h
  | inr no' ↦
      let apart = bytes_eq_ne p k no' in
      rw (get_cons_other p k e m apart, get_cons_other p k n d apart) (hs p)
]

Matches-before : Matches disk read_blob (λ b. true) from_files before
Matches-before =
    Shows-cons _ _ _ _ _ (101 ∷ [], refl, refl)
      (Shows-cons _ _ _ _ _ (102 ∷ [], refl, refl)
        (Shows-cons _ _ _ [] [] (104 ∷ [], refl, refl) (λ p. unfold get in refl)))

keeps_nothing : (f : Option (Oid × FileMode)) → KeepsMode disk read_blob (λ b. true) f none
keeps_nothing none = tt
keeps_nothing (some e) = tt

keeps_modes :
    (p : FilePath) → KeepsMode disk read_blob (λ b. true) (get p from_files) (get p to_files)
unfolding get
keeps_modes p =
    at_every_path (λ q. KeepsMode disk read_blob (λ b. true) (get q from_files) (get q to_files))
      to_files p (refl, (tt, tt)) (λ e. rw e (keeps_nothing (get p from_files)))

from_regular : AreRegular from_files
unfolding get
from_regular p =
    at_every_path (λ q. RegularAt (get q from_files)) from_files p (tt, (tt, (tt, tt)))
      (λ e. rw e tt)

to_regular : AreRegular to_files
unfolding get
to_regular p =
    at_every_path (λ q. RegularAt (get q to_files)) to_files p (tt, (tt, tt)) (λ e. rw e tt)

checkout_diff_exact_example : Matches disk read_blob (λ b. true) to_files after
checkout_diff_exact_example =
    checkout_diff_exact disk read_blob (λ b. true) order 3 4 read_commit files_of (10 ∷ [])
      (20 ∷ []) (record { tree = 10 ∷ []; parents = [] }) (record { tree = 20 ∷ []; parents = [] })
      from_files to_files
      (record { files_added = 1; files_modified = 1; files_deleted = 2; files_unchanged = 0 })
      before after refl refl read_from_files read_to_files from_order to_order checked_out
      from_regular to_regular keeps_modes Matches-before

abbrev executable_files : Files
executable_files = (2 ∷ [], (102 ∷ [], executable)) ∷ []

read_executable_files : files_of (40 ∷ []) ≡ ok executable_files
unfolding get_tree_files_with_oid collect_entries insert_all insert
read_executable_files = refl

abbrev after_mode : Directory
after_mode = ((2 ∷ [], file (102 ∷ []) false) ∷ [], [])

executable_order : IsOrder executable_files (order executable_files)
unfolding get
executable_order = record { same = λ p. refl; distinct = (refl, tt) }

checked_out_mode :
    checkout_diff disk read_blob
      (λ b. true)
      order
      3
      4
      read_commit
      files_of
      (10 ∷ [])
      (40 ∷ [])
      before
    ≡ ok (
      record { files_added = 0; files_modified = 0; files_deleted = 2; files_unchanged = 1 },
      ((2 ∷ [], file (102 ∷ []) false) ∷ [], []),
    )
unfolding checkout_diff get_tree_files_with_oid collect_entries insert_all insert get remove
    contains_key update_files place_files delete_files checkout_single_file remove_empty_directories
    try_remove_empty_dirs clean_root clean_entries try_remove_dir
checked_out_mode = refl

from_at : get (2 ∷ []) from_files ≡ some (102 ∷ [], regular)
unfolding get
from_at = refl

to_at : get (2 ∷ []) executable_files ≡ some (102 ∷ [], executable)
unfolding get
to_at = refl

executable_regular : AreRegular executable_files
unfolding get
executable_regular p =
    at_every_path (λ q. RegularAt (get q executable_files)) executable_files p (tt, tt)
      (λ e. rw e tt)

before-IsLinkFree : IsLinkFree disk before
before-IsLinkFree q =
    shown-IsPlain disk read_blob (λ b. true) (get q from_files) (get q nodes_before)
      (from_regular q) (Matches-before q)

checkout_diff_mode_example : disk.node (2 ∷ []) after_mode ≡ disk.node (2 ∷ []) before
checkout_diff_mode_example =
    checkout_diff_mode disk read_blob (λ b. true) order 3 4 read_commit files_of (10 ∷ []) (40 ∷ [])
      (record { tree = 10 ∷ []; parents = [] }) (record { tree = 40 ∷ []; parents = [] }) from_files
      executable_files
      (record { files_added = 0; files_modified = 0; files_deleted = 2; files_unchanged = 1 })
      before after_mode refl refl read_from_files read_executable_files from_order executable_order
      checked_out_mode (2 ∷ []) (102 ∷ []) regular executable from_at to_at executable_regular
      before-IsLinkFree

-- A directory in a directory, and no file.
abbrev only_directories : Directory
only_directories = ([], (3 ∷ []) ∷ (3 ∷ 4 ∷ []) ∷ [])

cleaned_up : remove_empty_directories disk read_blob (λ b. true) 3 11 only_directories ≡ ok ([], [])
unfolding remove_empty_directories try_remove_empty_dirs clean_root clean_entries try_remove_dir
    contains_key get
cleaned_up = refl

remove_empty_directories_ends_example :
    (remove_empty_directories disk read_blob (λ b. true) 3 11 only_directories ≡ err io)
    ⊎ ((s' : Directory) × (remove_empty_directories disk read_blob (λ b. true) 3 11 only_directories
          ≡ ok s'))
remove_empty_directories_ends_example =
    remove_empty_directories_ends disk read_blob (λ b. true) count rank removes keeps lists 3 11
      only_directories (omega arith) (omega arith)
