-- ===== src/Tree/Tests.antt =====
-- The theorems on trees at concrete entries.
use mediagit_core.Prelude.{[], ◌∷◌}
use mediagit_core.Tree.{Tree, regular, directory}

abbrev two_entries : Tree
two_entries =
    (1 ∷ [], record { name = 1 ∷ []; mode = directory; oid = 5 ∷ [] })
    ∷ (2 ∷ [], record { name = 2 ∷ []; mode = regular; oid = 6 ∷ [] })
    ∷ []
