-- ===== src/Merge.antt =====
-- crates/mediagit-versioning/src/merge.rs: the merged trees of the three strategies.
pub mod Build
pub mod Recursive
pub mod Strategies
pub mod Engine
mod Tests
use mediagit_core.Prelude.{
  ℕ, Bool, true, false, not, Option, none, some, List, [], ◌∷◌, if◌then◌else◌,
}
use mediagit_core.Result.{Result, ok, err, panic, ◌>>=◌, map_err}
use mediagit_core.Bytes.{bytes_eq}
use mediagit_core.Object.{Oid}
use mediagit_core.BTreeMap.{get}
use mediagit_core.BTreeMap.Order.{bytes_ord}
use mediagit_core.Tree.{Name, TreeEntry, Tree, new_tree, add_entry}
use mediagit_core.Conflict.{Conflict, ConflictError, detect_conflicts}

pub data MergeStrategy : Type 0 where
  recursive take_ours take_theirs : MergeStrategy

pub data MergeError : Type 0 where
  unexpected_conflict unexpected_modify_delete unexpected_delete_modify unexpected_add_add :
      MergeError
  detection_failed : ConflictError → MergeError
  write_failed out_of_fuel commit_unreadable tree_unreadable lca_failed no_merge_base : MergeError

pub record FastForwardInfo : Type 0 where
  pub from : Oid
  pub to : Oid
  pub is_fast_forward : Bool

pub record MergeResult : Type 0 where
  pub tree_oid : Option Oid
  pub conflicts : List Conflict
  pub success : Bool
  pub fast_forward : Option FastForwardInfo
  pub strategy : MergeStrategy

unfoldable pub has_conflicts : MergeResult → Bool
has_conflicts r = elim (r.conflicts) [ [] ↦ false | _ ∷ _ ↦ true ]

unfoldable pub is_fast_forward : MergeResult → Bool
is_fast_forward r = elim (r.fast_forward) [ none ↦ false | some ff ↦ ff.is_fast_forward ]

-- The version of one path in the tree of a merge without conflicts.
unfoldable pub choose :
    Option TreeEntry → Option TreeEntry → Option TreeEntry → Result MergeError (Option TreeEntry)
choose (some b) (some o) (some t) =
    if bytes_eq o.oid t.oid
    then ok (some o)
    else if bytes_eq b.oid o.oid
    then ok (some t)
    else if bytes_eq b.oid t.oid
    then ok (some o)
    else err unexpected_conflict
choose (some b) (some o) none =
    if bytes_eq b.oid o.oid then ok none else err unexpected_modify_delete
choose (some b) none (some t) =
    if bytes_eq b.oid t.oid then ok none else err unexpected_delete_modify
choose (some b) none none = ok none
choose none (some o) (some t) = if bytes_eq o.oid t.oid then ok (some o) else err unexpected_add_add
choose none (some o) none = ok (some o)
choose none none (some t) = ok (some t)
choose none none none = ok none

-- Our version wherever we have one; an addition of theirs is taken, unless the base had the path.
unfoldable pub choose_ours :
    Option TreeEntry → Option TreeEntry → Option TreeEntry → Option TreeEntry
choose_ours b (some o) t = some o
choose_ours (some b) none t = none
choose_ours none none (some t) = some t
choose_ours none none none = none

unfoldable pub choose_theirs :
    Option TreeEntry → Option TreeEntry → Option TreeEntry → Option TreeEntry
choose_theirs b o (some t) = some t
choose_theirs (some b) o none = none
choose_theirs none (some o) none = some o
choose_theirs none none none = none

abbrev pub add_some : Option TreeEntry → Tree → Tree
add_some none merged = merged
add_some (some e) merged = add_entry e merged

module _ (base ours theirs : Tree) where
  unfoldable pub build_loop : List Name → Tree → Result MergeError Tree
  build_loop [] merged = ok merged
  build_loop (path ∷ paths) merged = do
    entry ← choose (get path base) (get path ours) (get path theirs)
    build_loop paths (add_some entry merged)

  unfoldable pub build_merged_tree : List Name → Result MergeError Tree
  unfolding build_loop
  build_merged_tree paths = build_loop paths new_tree

  -- The loop that the two other strategies share, over their choice.
  unfoldable pub pick_loop :
      (Option TreeEntry → Option TreeEntry → Option TreeEntry → Option TreeEntry)
      → List Name
      → Tree
      → Tree
  pick_loop pick [] merged = merged
  pick_loop pick (path ∷ paths) merged =
      pick_loop pick paths
        (add_some (pick (get path base) (get path ours) (get path theirs)) merged)

  unfoldable pub build_merged_tree_ours : List Name → Tree
  unfolding pick_loop
  build_merged_tree_ours paths = pick_loop choose_ours paths new_tree

  unfoldable pub build_merged_tree_theirs : List Name → Tree
  unfolding pick_loop
  build_merged_tree_theirs paths = pick_loop choose_theirs paths new_tree

  -- A merge that ends with a tree of its own, which `write` stores in the object database.
  abbrev stored :
      (Tree → Result MergeError Oid) → MergeStrategy → Tree → Result MergeError MergeResult
  stored write strategy t = do
    oid ← write t
    ok (record {
      tree_oid = some oid;
      conflicts = [];
      success = true;
      fast_forward = none;
      strategy = strategy;
    })

  unfoldable pub by_strategy :
      (Tree → Result MergeError Oid)
      → MergeStrategy
      → List Conflict
      → List Name
      → Result MergeError MergeResult
  by_strategy write recursive [] paths = do t ← build_merged_tree paths; stored write recursive t
  by_strategy write recursive (c ∷ cs) paths = ok (record {
    tree_oid = none;
    conflicts = c ∷ cs;
    success = false;
    fast_forward = none;
    strategy = recursive;
  })
  by_strategy write take_ours cs paths = stored write take_ours (build_merged_tree_ours paths)
  by_strategy write take_theirs cs paths = stored write take_theirs (build_merged_tree_theirs paths)

  -- Each `HashSet` of paths has its own order: the first list is that of the detection, and the
  -- second that of the merge.
  unfoldable pub three_way_merge :
      (Tree → Result MergeError Oid)
      → MergeStrategy
      → List Name
      → List Name
      → Result MergeError MergeResult
  unfolding by_strategy
  three_way_merge write strategy detected merged = do
    conflicts ← map_err detection_failed (detect_conflicts detected base ours theirs)
    by_strategy write strategy conflicts merged
