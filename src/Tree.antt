-- ===== src/Tree.antt =====
-- crates/mediagit-versioning/src/tree.rs: directory snapshots. A name is the bytes of a `String`,
-- which is ordered by them.
mod Laws
mod Tests
use mediagit_core.Prelude.{
  ℕ, ◌+◌, ◌≡◌, Bool, true, false, not, Option, none, some, List, [], ◌∷◌, length, ◌==◌,
  if◌then◌else◌,
}
use mediagit_core.Object.{ObjectType, tree, blob, Oid}
use mediagit_core.BTreeMap
use mediagit_core.BTreeMap.{BTreeMap, values}
use mediagit_core.BTreeMap.Order.{bytes_ord}

abbrev pub Name : Type 0
Name = List ℕ

pub data FileMode : Type 0 where
  regular executable symlink directory : FileMode

unfoldable pub from_u32 : ℕ → Option FileMode
from_u32 mode =
    if mode == 0o100644
    then some regular
    else if mode == 0o100755
    then some executable
    else if mode == 0o120000
    then some symlink
    else if mode == 0o040000
    then some directory
    else none

unfoldable pub as_u32 : FileMode → ℕ
as_u32 regular = 0o100644
as_u32 executable = 0o100755
as_u32 symlink = 0o120000
as_u32 directory = 0o040000

unfoldable pub object_type : FileMode → ObjectType
object_type directory = tree
object_type _ = blob

pub record TreeEntry : Type 0 where
  pub name : Name
  pub mode : FileMode
  pub oid : Oid

abbrev is_directory : FileMode → Bool
is_directory directory = true
is_directory _ = false

abbrev pub is_tree : TreeEntry → Bool
is_tree e = is_directory e.mode

abbrev pub is_blob : TreeEntry → Bool
is_blob e = not (is_directory e.mode)

abbrev pub Tree : Type 0
Tree = BTreeMap Name TreeEntry

abbrev pub new_tree : Tree
new_tree = []

unfoldable pub add_entry : TreeEntry → Tree → Tree
add_entry entry t = BTreeMap.insert entry.name entry t

unfoldable pub remove_entry : Name → Tree → Tree × Option TreeEntry
remove_entry name t = (BTreeMap.remove name t, BTreeMap.get name t)

unfoldable pub get_entry : Name → Tree → Option TreeEntry
get_entry name t = BTreeMap.get name t

unfoldable pub has_entry : Name → Tree → Bool
has_entry name t = BTreeMap.contains_key name t

abbrev count_of : (TreeEntry → Bool) → List TreeEntry → ℕ
count_of p [] = 0
count_of p (e ∷ es) = (if p e then 1 else 0) + count_of p es

unfoldable pub file_count : Tree → ℕ
file_count t = count_of is_blob (values t)

unfoldable pub dir_count : Tree → ℕ
dir_count t = count_of is_tree (values t)
