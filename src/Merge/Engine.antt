-- ===== src/Merge/Engine.antt =====
-- merge.rs: the merge of two commits. The object database is read through `read` and `read_tree`
-- and written through `write`; the two orders are those in which the sets of paths are listed.
pub mod History
mod Tests
use mediagit_core.Prelude.{ℕ, Bool, true, false, Option, none, some, List, [], ◌∷◌, if◌then◌else◌}
use mediagit_core.Result.{Result, ok, err, panic, ◌>>=◌}
use mediagit_core.Bytes.{bytes_eq}
use mediagit_core.Object.{Oid}
use mediagit_core.Tree.{Name, Tree}
use mediagit_core.Lca.{Commit, Bases, found, no_common_ancestor, is_ancestor, find_merge_base}
use mediagit_core.Merge.{
  out_of_fuel, commit_unreadable, tree_unreadable, lca_failed, no_merge_base, MergeError,
  MergeStrategy, MergeResult, FastForwardInfo, three_way_merge,
}

-- A search that ran out of fuel is an error of the model.
abbrev pub fueled {ℓ} : {A : Type ℓ} → Option A → Result MergeError A
fueled none = err out_of_fuel
fueled (some a) = ok a

abbrev pub some_base : Bases → Result MergeError Oid
some_base no_common_ancestor = err lca_failed
some_base (found []) = err no_merge_base
some_base (found (b ∷ bs)) = ok b

-- A result that takes a commit's tree as it is.
abbrev pub with_tree : MergeStrategy → Option FastForwardInfo → Commit → MergeResult
with_tree strategy ff c = record {
  tree_oid = some (c.tree);
  conflicts = [];
  success = true;
  fast_forward = ff;
  strategy = strategy;
}

abbrev pub forwarded : Oid → Oid → Bool → Option FastForwardInfo
forwarded from to b = some (record { from = from; to = to; is_fast_forward = b })

module _ (read : Oid → Option Commit) where
  unfoldable pub read_commit : Oid → Result MergeError Commit
  read_commit oid = elim (read oid) [ none ↦ err commit_unreadable | some c ↦ ok c ]

  unfoldable pub can_fast_forward : ℕ → Oid → Oid → Result MergeError Bool
  can_fast_forward fuel from to =
      if bytes_eq from to then ok true else fueled (is_ancestor read fuel from to)

  -- The result that takes the tree of the commit at its end.
  unfoldable pub moved_to :
      MergeStrategy → Oid → Oid → Bool → Result MergeError (Option MergeResult)
  unfolding read_commit
  moved_to strategy from to b = do
    commit ← read_commit to
    ok (some (with_tree strategy (forwarded from to b) commit))

  unfoldable pub check_fast_forward :
      ℕ → Oid → Oid → MergeStrategy → Result MergeError (Option MergeResult)
  unfolding moved_to
  check_fast_forward fuel ours theirs strategy = do
    up_to_date ← fueled (is_ancestor read fuel theirs ours)
    if up_to_date then moved_to strategy ours ours false else do
      forward ← fueled (is_ancestor read fuel ours theirs)
      if forward then moved_to strategy ours theirs true else ok none

  module _ (read_tree : Oid → Option Tree) (write : Tree → Result MergeError Oid)
      (detect_order build_order : Tree → Tree → Tree → List Name) where
    unfoldable pub load_tree : Oid → Result MergeError Tree
    load_tree oid = elim (read_tree oid) [ none ↦ err tree_unreadable | some t ↦ ok t ]

    -- The merge over a base: the three commits are read, then their trees.
    unfoldable pub merge_over : Oid → Oid → Oid → MergeStrategy → Result MergeError MergeResult
    unfolding read_commit load_tree
    merge_over base_oid ours theirs strategy = do
      base_commit ← read_commit base_oid
      ours_commit ← read_commit ours
      theirs_commit ← read_commit theirs
      base_tree ← load_tree (base_commit.tree)
      ours_tree ← load_tree (ours_commit.tree)
      theirs_tree ← load_tree (theirs_commit.tree)
      three_way_merge base_tree ours_tree theirs_tree write strategy
          (detect_order base_tree ours_tree theirs_tree)
          (build_order base_tree ours_tree theirs_tree)

    -- What follows the check for a fast-forward.
    unfoldable pub merge_diverged : ℕ → Oid → Oid → MergeStrategy → Result MergeError MergeResult
    unfolding merge_over
    merge_diverged fuel ours theirs strategy = do
      bases ← fueled (find_merge_base read fuel ours theirs)
      base_oid ← some_base bases
      merge_over base_oid ours theirs strategy

    unfoldable pub merge : ℕ → Oid → Oid → MergeStrategy → Result MergeError MergeResult
    unfolding check_fast_forward merge_diverged
    merge fuel ours theirs strategy =
        if bytes_eq ours theirs
        then (do commit ← read_commit ours; ok (with_tree strategy none commit))
        else (do
          forward ← check_fast_forward fuel ours theirs strategy
          elim forward [
            | some result ↦ ok result
            | none ↦ merge_diverged fuel ours theirs strategy
          ])
