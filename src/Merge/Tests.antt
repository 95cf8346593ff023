-- ===== src/Merge/Tests.antt =====
-- The merge theorems at concrete trees.
use mediagit_core.Prelude.{
  ◌≡◌, refl, true, not, some, none, List, [], ◌∷◌, map, arith, if◌then◌else◌,
}
use mediagit_core.Result.{ok, err}
use mediagit_core.Bytes.{bytes_eq_refl}
use mediagit_core.Object.{Oid}
use mediagit_core.BTreeMap.{get}
use mediagit_core.BTreeMap.Order.{bytes_ord, bytes_cmp_eq}
use mediagit_core.Tree.{Name, Tree, TreeEntry, executable}
use mediagit_core.Conflict.{Conflict, can_auto_merge}
use mediagit_core.Conflict.Paths.{present, listed, Enumerates}
use mediagit_core.Conflict.Laws.{reported}
use mediagit_core.Conflict.Tests.{name_a, name_b, file, base, ours, theirs, both, both_Enumerates}
use mediagit_core.Merge.{recursive, three_way_merge, build_merged_tree, MergeError}
use mediagit_core.Merge.Build.{IsNamed}
use mediagit_core.Merge.Recursive.{
  three_way, is_empty, three_way_merge-recursive, build_merged_tree-conflict,
}

ours-IsNamed : IsNamed ours
unfolding get
ours-IsNamed p e h = ground (arith, bytes_cmp_eq p name_a, bytes_cmp_eq p name_b)

theirs-IsNamed : IsNamed theirs
unfolding get
theirs-IsNamed p e h = ground (arith, bytes_cmp_eq p name_a, bytes_cmp_eq p name_b)

abbrev write : Tree → Oid
write t = map (λ e. 1) t

three_way_merge-recursive_example :
    (t : Tree) × (cs : List Conflict) × (three_way_merge base ours theirs
        (λ x. ok (write x))
        recursive
        both
        both
      ≡ ok (record {
        tree_oid = if is_empty cs then some (write t) else none;
        conflicts = cs;
        success = is_empty cs;
        fast_forward = none;
        strategy = recursive;
      }))
    × ((p : Name) → reported p cs ≡ not (can_auto_merge p base ours theirs))
    × ((p : Name) → get p t ≡ three_way (get p base) (get p ours) (get p theirs))
three_way_merge-recursive_example =
    three_way_merge-recursive base ours theirs ours-IsNamed theirs-IsNamed both both both_Enumerates
      both_Enumerates write

build_merged_tree-conflict_example :
    (e : MergeError) × (build_merged_tree base ours theirs both ≡ err e)
unfolding can_auto_merge get
build_merged_tree-conflict_example =
    build_merged_tree-conflict base ours theirs both name_a both_Enumerates refl

-- A merge without conflicts: they made the file executable, and we changed nothing.
abbrev script : TreeEntry
script = record (file name_a 1) { mode = executable }

abbrev plain : Tree
plain = (name_a, file name_a 1) ∷ []

abbrev runnable : Tree
runnable = (name_a, script) ∷ []

abbrev one : List Name
one = name_a ∷ []

one_covers : (p : Name) → present plain plain runnable p ≡ true → listed p one ≡ true
unfolding get
one_covers p h = ground (arith, bytes_cmp_eq p name_a, h, bytes_eq_refl name_a)

one_Enumerates : Enumerates plain plain runnable one
unfolding get
one_Enumerates = record { sound = (refl, tt); covers = one_covers }

plain-IsNamed : IsNamed plain
unfolding get
plain-IsNamed p e h = ground (arith, bytes_cmp_eq p name_a)

runnable-IsNamed : IsNamed runnable
unfolding get
runnable-IsNamed p e h = ground (arith, bytes_cmp_eq p name_a)

no_conflict : (p : Name) → can_auto_merge p plain plain runnable ≡ true
unfolding can_auto_merge get
no_conflict p = ground arith

twice_covers : (p : Name) → present plain plain runnable p ≡ true → listed p (name_a ∷ one) ≡ true
unfolding get
twice_covers p h = ground (arith, bytes_cmp_eq p name_a, h, bytes_eq_refl name_a)

twice_Enumerates : Enumerates plain plain runnable (name_a ∷ one)
unfolding get
twice_Enumerates = record { sound = (refl, (refl, tt)); covers = twice_covers }
