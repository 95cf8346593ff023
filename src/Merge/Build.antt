-- ===== src/Merge/Build.antt =====
-- merge.rs: the trees that the loops over the paths build.
use mediagit_core.Prelude.{
  ◌≡◌, refl, ◌∙◌, inl, inr, true, false, Option, none, some, List, [], ◌∷◌, arith, Bool-cases,
  if◌then◌else◌,
}
use mediagit_core.Bytes.{bytes_eq, bytes_eq→eq, bytes_eq_refl}
use mediagit_core.BTreeMap.{get}
use mediagit_core.BTreeMap.Order.{bytes_ord, bytes_cmp, bytes_cmp_eq, bytes_cmp_refl}
use mediagit_core.BTreeMap.Lookup.{on_eq, get-insert}
use mediagit_core.BTreeMap.Sorted.{IsSorted, insert-IsSorted}
use mediagit_core.Tree.{Name, TreeEntry, Tree, add_entry}
use mediagit_core.Conflict.Paths.{listed}
use mediagit_core.Merge.{add_some, pick_loop}

-- Every entry that a tree has under a path carries that path as its name.
abbrev pub IsNamed : Tree → Type 0
IsNamed t = (p : Name) (e : TreeEntry) → get p t ≡ some e → e.name ≡ p

abbrev pub override : Option TreeEntry → Option TreeEntry → Option TreeEntry
override none old = old
override (some e) old = some e

bytes_eq-cmp : (p q : Name) → on_eq (bytes_cmp p q) true false ≡ bytes_eq p q
bytes_eq-cmp p q =
    ground (arith, bytes_eq→eq p q, bytes_cmp_eq p q, bytes_eq_refl p, bytes_cmp_refl p)

-- Adding an entry that is named after the path changes the lookup of that path only.
get-add_some :
    (c : Option TreeEntry) (path p : Name) (merged : Tree)
    → ((e : TreeEntry) → c ≡ some e → e.name ≡ path)
    → get p (add_some c merged)
      ≡ (if bytes_eq p path then override c (get p merged) else get p merged)
unfolding add_entry
get-add_some none path p merged named = ground arith
get-add_some (some e) path p merged named =
    get-insert e.name p e merged ∙ ground (arith, named e refl, bytes_eq-cmp p e.name)

add_some-IsSorted :
    (c : Option TreeEntry) (merged : Tree) → IsSorted merged → IsSorted (add_some c merged)
unfolding add_entry
add_some-IsSorted none merged s = s
add_some-IsSorted (some e) merged s = insert-IsSorted e.name e merged s

module _ (base ours theirs : Tree)
    (pick : Option TreeEntry → Option TreeEntry → Option TreeEntry → Option TreeEntry) where
  abbrev pub picked : Name → Option TreeEntry
  picked p = pick (get p base) (get p ours) (get p theirs)

  pub pick_loop-IsSorted :
      (paths : List Name) (merged : Tree)
      → IsSorted merged
      → IsSorted (pick_loop base ours theirs pick paths merged)
  unfolding pick_loop
  pick_loop-IsSorted [] merged s = s
  pick_loop-IsSorted (path ∷ paths) merged s =
      pick_loop-IsSorted paths _ (add_some-IsSorted (picked path) merged s)

  -- The choice of a path, if the loop has met it, lies over what was there before.
  pub get-pick_loop :
      (named : (p : Name) (e : TreeEntry) → picked p ≡ some e → e.name ≡ p) (paths : List Name)
      (merged : Tree) (p : Name)
      → get p (pick_loop base ours theirs pick paths merged)
        ≡ (if listed p paths then override (picked p) (get p merged) else get p merged)
  unfolding pick_loop
  get-pick_loop named [] merged p = refl
  get-pick_loop named (path ∷ paths) merged p =
      get-pick_loop named paths (add_some (picked path) merged) p
      ∙ rw (get-add_some (picked path) path p merged (named path))
          (elim (Bool-cases (bytes_eq p path)) [
            | inl e ↦ rw (e, ← bytes_eq→eq p path e) (ground arith)
            | inr e ↦ rw e
          ])
