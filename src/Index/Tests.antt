-- ===== src/Index/Tests.antt =====
-- The theorems on the staging area at concrete calls. A path is a list of numbers, and its text
-- starts the alphabet at 1.
use mediagit_core.Prelude.{ℕ, ◌+◌, ◌≡◌, refl, true, false, none, some, List, [], ◌∷◌, map, arith}
use mediagit_core.BTreeMap.{get}
use mediagit_core.BTreeMap.Order.{bytes_ord}
use mediagit_core.Tree.{Name, Tree, regular}
use mediagit_core.Index.{IndexEntry, Change, new_index, run, stage, unstage, delete}
use mediagit_core.Index.View.{status, run_at, status-run}
use mediagit_core.Index.Snapshot.{normalize, snapshot, tree_entry}
use mediagit_core.Index.Snapshot.Laws.{IsTree, get-snapshot}

abbrev PathOf : Type 0
PathOf = List ℕ

abbrev entry_at : PathOf → ℕ → IndexEntry PathOf
entry_at path content = record {
  path = path;
  oid = content ∷ [];
  mode = 0o100755;
  size = content;
  mtime = none;
}

abbrev changes : List (Change PathOf)
changes =
    stage (entry_at (1 ∷ []) 7)
    ∷ delete (2 ∷ [])
    ∷ stage (entry_at (3 ∷ []) 8)
    ∷ unstage (3 ∷ [])
    ∷ delete (1 ∷ [])
    ∷ stage (entry_at (1 ∷ []) 9)
    ∷ []

status-run_example :
    status (1 ∷ []) (run changes new_index) ≡ run_at (1 ∷ []) changes (status (1 ∷ []) new_index)
status-run_example = status-run changes (1 ∷ []) new_index

-- A path that is staged again keeps its mark.
restaged : run_at (1 ∷ []) changes (none, false) ≡ (some (entry_at (1 ∷ []) 9), true)
restaged = refl

abbrev text : PathOf → Name
text path = map (λ c. c + 0x60) path

apart : (p q : PathOf) → normalize (text p) ≡ normalize (text q) → p ≡ q
unfolding normalize
apart [] [] h = refl
apart [] (y ∷ q) h = cc
apart (x ∷ p) [] h = cc
apart (x ∷ p) (y ∷ q) h = ground (arith, apart p q, h)

abbrev parent_tree : Tree
parent_tree =
    (0x62 ∷ [], record { name = 0x62 ∷ []; mode = regular; oid = 2 ∷ [] })
    ∷ (0x63 ∷ [], record { name = 0x63 ∷ []; mode = regular; oid = 3 ∷ [] })
    ∷ []

parent_tree-IsTree : IsTree parent_tree
parent_tree-IsTree = record { sorted = ((refl, tt), (tt, tt)); named = (refl, (refl, tt)) }

get-snapshot_example :
    get (text (1 ∷ [])) (snapshot text (some parent_tree) (run changes new_index))
    ≡ some (tree_entry text (entry_at (1 ∷ []) 9))
get-snapshot_example =
    get-snapshot text apart (some parent_tree) parent_tree-IsTree changes (1 ∷ [])
