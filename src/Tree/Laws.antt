-- ===== src/Tree/Laws.antt =====
-- tree.rs: file modes and the counts of files and directories.
use mediagit_core.Prelude.{
  ℕ, ◌+◌, ◌≡◌, ◌↔◌, refl, some, List, [], ◌∷◌, length, length-map, arith, ◌∙◌,
}
use mediagit_core.BTreeMap.{values}
use mediagit_core.Tree.{
  FileMode, regular, executable, symlink, directory, from_u32, as_u32, TreeEntry, Tree, count_of,
  is_blob, is_tree, file_count, dir_count,
}

read_back : (m : FileMode) → from_u32 (as_u32 m) ≡ some m
unfolding from_u32 as_u32
read_back regular = refl
read_back executable = refl
read_back symlink = refl
read_back directory = refl

-- A number is read as a file mode exactly where it is the number of this mode.
pub from_u32_exact : (n : ℕ) (m : FileMode) → (from_u32 n ≡ some m) ↔ (n ≡ as_u32 m)
unfolding from_u32 as_u32
from_u32_exact n m = (forth n m, λ e. rw e (read_back m))
  where
    forth : (n : ℕ) (m : FileMode) → from_u32 n ≡ some m → n ≡ as_u32 m
    forth n regular h = ground arith
    forth n executable h = ground arith
    forth n symlink h = ground arith
    forth n directory h = ground arith

count_of_partition : (es : List TreeEntry) → count_of is_blob es + count_of is_tree es ≡ length es
count_of_partition [] = refl
count_of_partition (e ∷ es) = ground (arith, count_of_partition es)

-- Every entry of a tree is counted once, as a file or as a directory.
pub file_count-add-dir_count : (t : Tree) → file_count t + dir_count t ≡ length t
unfolding file_count dir_count
file_count-add-dir_count t = count_of_partition (values t) ∙ length-map (λ e. e.1) t
