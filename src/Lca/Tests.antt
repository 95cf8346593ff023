-- ===== src/Lca/Tests.antt =====
-- The searches on a fork: two commits over a common root.
use mediagit_core.Prelude.{
  ℕ, ◌<◌, ◌≡◌, ◌↔◌, refl, Bool, true, ◌||◌, Option, some, List, [], ◌∷◌, arith, if◌then◌else◌,
}
use mediagit_core.Bytes.{bytes_eq, bytes_eq→eq, listed}
use mediagit_core.Object.{Oid}
use mediagit_core.Lca.{
  find_common_ancestors, Commit, Bases, parents_of, is_ancestor, find_merge_base,
}
use mediagit_core.Lca.Walk.{Closed}
use mediagit_core.Lca.Reach.{Reach, acyclic_of_rank}
use mediagit_core.Lca.Ancestors.{find_common_ancestors_exact, is_ancestor_exact}
use mediagit_core.Lca.Base.{Gives, find_merge_base_exact}

abbrev pub root : Oid
root = 0 ∷ []

abbrev pub left : Oid
left = 1 ∷ []

abbrev pub right : Oid
right = 2 ∷ []

abbrev is_side : Oid → Bool
is_side c = bytes_eq c left || bytes_eq c right

-- Any other name is read as a commit without parents.
abbrev pub fork : Oid → Option Commit
fork c = some (record { tree = c; parents = if is_side c then root ∷ [] else [] })

abbrev pub island : Oid
island = 3 ∷ []

abbrev pub commits : List Oid
commits = root ∷ left ∷ right ∷ island ∷ []

pub commits-Closed : Closed fork commits
commits-Closed c p h k = ground arith

abbrev pub rank : Oid → ℕ
rank c = if is_side c then 1 else 0

pub rank_falls : (c p : Oid) → listed p (parents_of fork c) ≡ true → rank p < rank c
rank_falls c p h = ground (arith, bytes_eq→eq p root, h)

is_ancestor_exact_example :
    (b : Bool) × (is_ancestor fork 20 root left ≡ some b) × ((b ≡ true) ↔ Reach fork left root)
is_ancestor_exact_example =
    is_ancestor_exact fork commits commits-Closed 20 (omega arith) root left refl

find_merge_base_exact_example :
    (r : Bases) × (find_merge_base fork 20 left right ≡ some r) × Gives fork left right r
find_merge_base_exact_example =
    find_merge_base_exact fork commits commits-Closed 20 (omega arith)
      (acyclic_of_rank fork rank rank_falls) left right refl refl

find_common_ancestors_exact_example :
    (common : List Oid) × (find_common_ancestors fork 20 left right ≡ some common)
    × ((p : Oid) → (listed p common ≡ true) ↔ (Reach fork left p × Reach fork right p))
find_common_ancestors_exact_example =
    find_common_ancestors_exact fork commits commits-Closed 20 (omega arith) left right refl refl
