-- ===== src/Index/Snapshot.antt =====
-- crates/mediagit-cli/src/commands/commit.rs: the tree of a new commit, from the tree of its parent
-- and the index. `text` stands for `to_string_lossy` on paths.
pub mod Laws
use mediagit_core.Prelude.{
  ℕ, ◌==◌, ◌%◌, ◌/◌, Bool, true, false, Option, none, some, List, [], ◌∷◌, map, if◌then◌else◌,
}
use mediagit_core.Bytes.{listed}
use mediagit_core.Tree.{Name, Tree, TreeEntry, FileMode, regular, executable, new_tree, add_entry}
use mediagit_core.BTreeMap.{BTreeMap}
use mediagit_core.Index.{IndexEntry, Index, deleted_paths, entries}

-- `mode & 0o111 != 0`, for the three bits of execution.
unfoldable pub is_executable : ℕ → Bool
is_executable mode =
    if mode % 2 == 1 then true else if (mode / 8) % 2 == 1 then true else (mode / 64) % 2 == 1

unfoldable pub file_mode : ℕ → FileMode
unfolding is_executable
file_mode mode = if is_executable mode then executable else regular

-- `replace('\\', "/")`.
unfoldable pub normalize : Name → Name
normalize name = map (λ c. if c == 0x5c then 0x2f else c) name

-- The parent's entries, without those that are marked for deletion.
unfoldable pub carry : List Name → Tree → Tree → Tree
carry deleted [] t = t
carry deleted ((k, entry) ∷ rest) t =
    carry deleted rest (if listed (normalize entry.name) deleted then t else add_entry entry t)

module _ {ℓ} {P : Type ℓ} (text : P → Name) where
  abbrev pub tree_entry : IndexEntry P → TreeEntry
  tree_entry entry = record { name = text entry.path; mode = file_mode entry.mode; oid = entry.oid }

  unfoldable pub add_staged : List (IndexEntry P) → Tree → Tree
  add_staged [] t = t
  add_staged (entry ∷ rest) t = add_staged rest (add_entry (tree_entry entry) t)

  abbrev pub carried : Option Tree → List Name → Tree
  carried none deleted = new_tree
  carried (some parent) deleted = carry deleted parent new_tree

  unfoldable pub snapshot : Option Tree → Index P → Tree
  unfolding add_staged carry entries deleted_paths
  snapshot parent index =
      add_staged (entries index)
        (carried parent (map (λ p. normalize (text p)) (deleted_paths index)))
