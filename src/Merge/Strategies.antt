-- ===== src/Merge/Strategies.antt =====
-- merge.rs: the trees of the strategies that prefer one side, and the mode of a merged entry.
use mediagit_core.Prelude.{
  ◌≡◌, ◌∙◌, inl, inr, false, Option, none, some, List, arith, Bool-cases, if◌then◌else◌,
}
use mediagit_core.BTreeMap.{get}
use mediagit_core.BTreeMap.Order.{bytes_ord}
use mediagit_core.Tree.{Name, TreeEntry, Tree, new_tree}
use mediagit_core.Conflict.Paths.{is_some, present, Enumerates}
use mediagit_core.Merge.{
  choose_ours, choose_theirs, pick_loop, build_merged_tree_ours, build_merged_tree_theirs,
}
use mediagit_core.Merge.Build.{IsNamed, picked, get-pick_loop}

module _ (base ours theirs : Tree) (ours-IsNamed : IsNamed ours) (theirs-IsNamed : IsNamed theirs)
    (paths : List Name) (all : Enumerates base ours theirs paths) where
  -- A choice that is none where no tree has the path is what the loop leaves there.
  get-picked :
      (pick : Option TreeEntry → Option TreeEntry → Option TreeEntry → Option TreeEntry)
      → ((p : Name) (e : TreeEntry) → picked base ours theirs pick p ≡ some e → e.name ≡ p)
      → ((p : Name) → present base ours theirs p ≡ false → picked base ours theirs pick p ≡ none)
      → (p : Name)
      → get p (pick_loop base ours theirs pick paths new_tree) ≡ picked base ours theirs pick p
  get-picked pick named missing p =
      get-pick_loop base ours theirs pick named paths new_tree p
      ∙ elim (Bool-cases (present base ours theirs p)) [
        | inl e ↦ rw (all.covers p e) (unfold get in ground arith)
        | inr e ↦ rw (missing p e) (unfold get in ground arith)
      ]

  -- Under the strategy for our side, every path has our entry; a path that we lack has theirs if
  -- the base lacks it too, and nothing if the base has it.
  pub get-build_merged_tree_ours :
      (p : Name)
      → get p (build_merged_tree_ours base ours theirs paths) ≡ (
          if is_some (get p ours)
          then get p ours
          else if is_some (get p base)
          then none
          else get p theirs)
  unfolding build_merged_tree_ours choose_ours
  get-build_merged_tree_ours p =
      get-picked choose_ours (λ q e h. ground (arith, ours-IsNamed q e, theirs-IsNamed q e))
        (λ q h. ground arith) p
      ∙ ground arith

  -- Under the strategy for their side, every path has their entry; a path that they lack has ours
  -- if the base lacks it too, and nothing if the base has it.
  pub get-build_merged_tree_theirs :
      (p : Name)
      → get p (build_merged_tree_theirs base ours theirs paths) ≡ (
          if is_some (get p theirs)
          then get p theirs
          else if is_some (get p base)
          then none
          else get p ours)
  unfolding build_merged_tree_theirs choose_theirs
  get-build_merged_tree_theirs p =
      get-picked choose_theirs (λ q e h. ground (arith, ours-IsNamed q e, theirs-IsNamed q e))
        (λ q h. ground arith) p
      ∙ ground arith
