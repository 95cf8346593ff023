-- ===== src/Diff.antt =====
-- crates/mediagit-versioning/src/diff.rs: the difference of two trees. A `HashMap` is a map by
-- lookup; `order` lists its entries in the order in which the program happens to go through it.
pub mod Found
pub mod Trees
pub mod Equal
mod Tests
use mediagit_core.Prelude.{
  ℕ, Bool, true, false, not, ◌&&◌, ◌||◌, Option, none, some, List, [], ◌∷◌, map, if◌then◌else◌,
}
use mediagit_core.Result.{Result, ok, err, ◌>>=◌}
use mediagit_core.Bytes.{bytes_eq}
use mediagit_core.Object.{Oid}
use mediagit_core.BTreeMap.{BTreeMap, get, insert_all, values, contains_key}
use mediagit_core.BTreeMap.Order.{bytes_ord}
use mediagit_core.Tree.{Name, FileMode, regular, executable, symlink, directory, TreeEntry, Tree}

pub record ModifiedEntry : Type 0 where
  pub path : Name
  pub source : TreeEntry
  pub target : TreeEntry

pub record TreeDiff : Type 0 where
  pub added : List TreeEntry
  pub deleted : List TreeEntry
  pub modified : List ModifiedEntry

pub data DiffError : Type 0 where
  tree_unreadable : DiffError

abbrev pub Listing : Type 0
Listing = List (Name × TreeEntry)

abbrev pub mode_eq : FileMode → FileMode → Bool
mode_eq regular regular = true
mode_eq executable executable = true
mode_eq symlink symlink = true
mode_eq directory directory = true
mode_eq _ _ = false

abbrev pub changed : TreeEntry → TreeEntry → Bool
changed source target =
    not (bytes_eq source.oid target.oid) || not (mode_eq source.mode target.mode)

-- The map from the names of the entries to the entries.
unfoldable pub by_name : Tree → BTreeMap Name TreeEntry
by_name t = insert_all [] (map (λ e. (e.name, e)) (values t))

unfoldable pub find_added : BTreeMap Name TreeEntry → Listing → List TreeEntry
find_added source_map [] = []
find_added source_map ((name, target_entry) ∷ rest) =
    let more = find_added source_map rest in
    elim (get name source_map) [ none ↦ target_entry ∷ more | some source_entry ↦ more ]

abbrev pub push_modified : Name → TreeEntry → TreeEntry → List ModifiedEntry → List ModifiedEntry
push_modified name source_entry target_entry more =
    if changed source_entry target_entry
    then record { path = name; source = source_entry; target = target_entry } ∷ more
    else more

unfoldable pub find_modified : BTreeMap Name TreeEntry → Listing → List ModifiedEntry
find_modified source_map [] = []
find_modified source_map ((name, target_entry) ∷ rest) =
    let more = find_modified source_map rest in
    elim (get name source_map) [
      | none ↦ more
      | some source_entry ↦ push_modified name source_entry target_entry more
    ]

unfoldable pub find_deleted : BTreeMap Name TreeEntry → Listing → List TreeEntry
find_deleted target_map [] = []
find_deleted target_map ((name, source_entry) ∷ rest) =
    let more = find_deleted target_map rest in
    if contains_key name target_map then more else source_entry ∷ more

abbrev pub is_nil {ℓ} : {A : Type ℓ} → List A → Bool
is_nil [] = true
is_nil (x ∷ xs) = false

-- `Tree::read`.
unfoldable pub load_tree : (Oid → Option Tree) → Oid → Result DiffError Tree
load_tree read_tree oid = elim (read_tree oid) [ none ↦ err tree_unreadable | some t ↦ ok t ]

module _ (order : BTreeMap Name TreeEntry → Listing) where
  unfoldable pub diff_maps : BTreeMap Name TreeEntry → BTreeMap Name TreeEntry → TreeDiff
  unfolding find_added find_modified find_deleted
  diff_maps source_map target_map = record {
    added = find_added source_map (order target_map);
    deleted = find_deleted target_map (order source_map);
    modified = find_modified source_map (order target_map);
  }

  module _ (read_tree : Oid → Option Tree) where
    unfoldable pub diff_trees : Oid → Oid → Result DiffError TreeDiff
    unfolding diff_maps by_name load_tree
    diff_trees source_oid target_oid =
        if bytes_eq source_oid target_oid
        then ok (record { added = []; deleted = []; modified = [] })
        else (do
          source_tree ← load_tree read_tree source_oid
          target_tree ← load_tree read_tree target_oid
          ok (diff_maps (by_name source_tree) (by_name target_tree)))

    unfoldable pub are_trees_equal : Oid → Oid → Result DiffError Bool
    are_trees_equal oid1 oid2 = if bytes_eq oid1 oid2 then ok true else (do
      diff ← diff_trees oid1 oid2
      ok (is_nil diff.added && (is_nil diff.deleted && is_nil diff.modified)))
