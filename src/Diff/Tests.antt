-- ===== src/Diff/Tests.antt =====
-- The differences at concrete trees.
use mediagit_core.Prelude.{ℕ, ◌≡◌, ◌↔◌, refl, Bool, true, if◌then◌else◌, Option, some, [], ◌∷◌}
use mediagit_core.Result.{ok}
use mediagit_core.Bytes.{bytes_eq}
use mediagit_core.Object.{Oid}
use mediagit_core.Tree.{Name, TreeEntry, Tree, regular, executable}
use mediagit_core.BTreeMap.{BTreeMap, get}
use mediagit_core.BTreeMap.Order.{bytes_ord}
use mediagit_core.Index.Snapshot.Laws.{IsTree}
use mediagit_core.Diff.{TreeDiff, Listing, diff_trees, are_trees_equal}
use mediagit_core.Diff.Found.{self-IsListing}
use mediagit_core.Diff.Trees.{Explains, diff_trees_exact}
use mediagit_core.Diff.Equal.{are_trees_equal_exact}

abbrev entry : ℕ → ℕ → TreeEntry
entry n content = record { name = n ∷ []; mode = regular; oid = content ∷ [] }

abbrev old_tree : Tree
old_tree = (1 ∷ [], entry 1 7) ∷ (2 ∷ [], entry 2 7) ∷ []

abbrev new_tree : Tree
new_tree = (2 ∷ [], record (entry 2 7) { mode = executable }) ∷ (3 ∷ [], entry 3 8) ∷ []

old_tree-IsTree : IsTree old_tree
old_tree-IsTree = record { sorted = ((refl, tt), (tt, tt)); named = (refl, (refl, tt)) }

new_tree-IsTree : IsTree new_tree
new_tree-IsTree = record { sorted = ((refl, tt), (tt, tt)); named = (refl, (refl, tt)) }

abbrev read_tree : Oid → Option Tree
read_tree oid = some (if bytes_eq oid (1 ∷ []) then old_tree else new_tree)

abbrev order : BTreeMap Name TreeEntry → Listing
order m = m

diff_trees_exact_example :
    (d : TreeDiff) × (diff_trees order read_tree (1 ∷ []) (2 ∷ []) ≡ ok d)
    × ((p : Name) → Explains p d (get p old_tree) (get p new_tree))
diff_trees_exact_example =
    diff_trees_exact order self-IsListing read_tree (1 ∷ []) (2 ∷ []) old_tree new_tree refl refl
      old_tree-IsTree new_tree-IsTree

are_trees_equal_exact_example :
    (b : Bool) × (are_trees_equal order read_tree (1 ∷ []) (2 ∷ []) ≡ ok b)
    × ((b ≡ true) ↔ ((p : Name) → get p old_tree ≡ get p new_tree))
are_trees_equal_exact_example =
    are_trees_equal_exact order self-IsListing read_tree (1 ∷ []) (2 ∷ []) old_tree new_tree refl
      refl old_tree-IsTree new_tree-IsTree
