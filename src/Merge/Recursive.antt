-- ===== src/Merge/Recursive.antt =====
-- merge.rs: the recursive strategy against a three-way rule by content.
use mediagit_core.Prelude.{
  ◌≡◌, refl, ◌∙◌, inl, inr, Bool, true, false, not, ◌||◌, Option, none, some, List, [], ◌∷◌, arith,
  Bool-cases, if◌then◌else◌,
}
use mediagit_core.Result.{ok, err}
use mediagit_core.Bytes.{bytes_eq, bytes_eq→eq}
use mediagit_core.Object.{Oid}
use mediagit_core.BTreeMap.{get}
use mediagit_core.BTreeMap.Order.{bytes_ord}
use mediagit_core.Tree.{Name, TreeEntry, Tree, new_tree}
use mediagit_core.Conflict.{Conflict, auto_mergeable, can_auto_merge}
use mediagit_core.Conflict.Laws.{reported, detect_conflicts_exact, can_auto_merge_absent}
use mediagit_core.Conflict.Paths.{is_some, present, listed, Enumerates}
use mediagit_core.Merge.{
  choose, add_some, MergeError, recursive, MergeResult, build_loop, build_merged_tree, pick_loop,
  three_way_merge, by_strategy, unexpected_conflict, unexpected_modify_delete,
  unexpected_delete_modify, unexpected_add_add,
}
use mediagit_core.Merge.Build.{IsNamed, get-pick_loop}

-- The same content, or absence, on both sides.
abbrev pub same : Option TreeEntry → Option TreeEntry → Bool
same none none = true
same (some a) (some b) = bytes_eq a.oid b.oid
same _ _ = false

-- The textbook rule: the side that changed wins, and ours where neither or both did.
abbrev pub three_way : Option TreeEntry → Option TreeEntry → Option TreeEntry → Option TreeEntry
three_way b o t = if same o t then o else if same b o then t else o

choose_ok :
    (b o t : Option TreeEntry) → auto_mergeable b o t ≡ true → choose b o t ≡ ok (three_way b o t)
unfolding choose auto_mergeable
choose_ok (some b) (some o) (some t) h = ground arith
choose_ok b o t h = ground arith

choose_err :
    (b o t : Option TreeEntry)
    → auto_mergeable b o t ≡ false
    → (e : MergeError) × (choose b o t ≡ err e)
unfolding choose auto_mergeable
choose_err (some b) (some o) (some t) h = (unexpected_conflict, ground arith)
choose_err (some b) (some o) none h = (unexpected_modify_delete, ground arith)
choose_err (some b) none (some t) h = (unexpected_delete_modify, ground arith)
choose_err none (some o) (some t) h = (unexpected_add_add, ground arith)
choose_err none none none h = cc
choose_err b o t h = cc

three_way_absent :
    (b o t : Option TreeEntry)
    → (is_some b || (is_some o || is_some t)) ≡ false
    → three_way b o t ≡ none
three_way_absent none none none h = refl
three_way_absent b o t h = cc

module _ (base ours theirs : Tree) where
  abbrev pub by_rule : Name → Option TreeEntry
  by_rule p = three_way (get p base) (get p ours) (get p theirs)

  -- The tree that the rule gives, built in the order of `paths`.
  abbrev pub rule_tree : List Name → Tree
  rule_tree paths = pick_loop base ours theirs three_way paths new_tree

  conflict_present :
      (p : Name) → can_auto_merge p base ours theirs ≡ false → present base ours theirs p ≡ true
  conflict_present p refused = elim (Bool-cases (present base ours theirs p)) [
    | inl e ↦ e
    | inr e ↦ cc (can_auto_merge_absent base ours theirs p e, refused)
  ]

  build_loop-ok :
      (paths : List Name) (merged : Tree)
      → ((p : Name) → can_auto_merge p base ours theirs ≡ true)
      → build_loop base ours theirs paths merged
        ≡ ok (pick_loop base ours theirs three_way paths merged)
  unfolding build_loop pick_loop can_auto_merge
  build_loop-ok [] merged free = refl
  build_loop-ok (path ∷ paths) merged free =
      rw (choose_ok (get path base) (get path ours) (get path theirs) (free path))
        (build_loop-ok paths (add_some (by_rule path) merged) free)

  step_ok :
      (path : Name) (paths : List Name) (merged : Tree)
      → can_auto_merge path base ours theirs ≡ true
      → build_loop base ours theirs (path ∷ paths) merged
        ≡ build_loop base ours theirs paths (add_some (by_rule path) merged)
  unfolding build_loop can_auto_merge
  step_ok path paths merged free =
      rw (choose_ok (get path base) (get path ours) (get path theirs) free)

  step_err :
      (path : Name) (paths : List Name) (merged : Tree)
      → can_auto_merge path base ours theirs ≡ false
      → (e : MergeError) × (build_loop base ours theirs (path ∷ paths) merged ≡ err e)
  unfolding build_loop can_auto_merge
  step_err path paths merged refused =
      let (e, failed) = choose_err (get path base) (get path ours) (get path theirs) refused in
      (e, rw failed)

  build_loop-err :
      (paths : List Name) (merged : Tree) (p : Name)
      → listed p paths ≡ true
      → can_auto_merge p base ours theirs ≡ false
      → (e : MergeError) × (build_loop base ours theirs paths merged ≡ err e)
  build_loop-err [] merged p h stuck = cc
  build_loop-err (path ∷ paths) merged p h stuck =
      elim (Bool-cases (can_auto_merge path base ours theirs)) [
        | inl free ↦ rw (step_ok path paths merged free) (
            build_loop-err paths (add_some (by_rule path) merged) p
              (ground (arith, bytes_eq→eq p path, free, stuck, h)) stuck)
        | inr refused ↦ step_err path paths merged refused
      ]

  rule_named :
      IsNamed ours → IsNamed theirs → (p : Name) (e : TreeEntry) → by_rule p ≡ some e → e.name ≡ p
  rule_named ours-IsNamed theirs-IsNamed p e h =
      ground (arith, ours-IsNamed p e, theirs-IsNamed p e)

  pub get-rule_tree :
      IsNamed ours
      → IsNamed theirs
      → (paths : List Name) → Enumerates base ours theirs paths
      → (p : Name) → get p (rule_tree paths) ≡ by_rule p
  get-rule_tree ours-IsNamed theirs-IsNamed paths all p =
      get-pick_loop base ours theirs three_way (rule_named ours-IsNamed theirs-IsNamed) paths
        new_tree p
      ∙ elim (Bool-cases (present base ours theirs p)) [
        | inl e ↦ rw (all.covers p e) (unfold get in ground arith)
        | inr e ↦
            rw (three_way_absent (get p base) (get p ours) (get p theirs) e)
              (unfold get in ground arith)
      ]

  -- A merge without conflicts builds the tree of the rule, and one with a conflict is refused.
  pub build_merged_tree-clean :
      (paths : List Name)
      → ((p : Name) → can_auto_merge p base ours theirs ≡ true)
      → build_merged_tree base ours theirs paths ≡ ok (rule_tree paths)
  unfolding build_merged_tree
  build_merged_tree-clean paths free = build_loop-ok paths new_tree free

  -- `build_merged_tree` returns an error where one of the paths has a conflict, in any order of
  -- the paths.
  pub build_merged_tree-conflict :
      (paths : List Name) (p : Name)
      → Enumerates base ours theirs paths
      → can_auto_merge p base ours theirs ≡ false
      → (e : MergeError) × (build_merged_tree base ours theirs paths ≡ err e)
  unfolding build_merged_tree
  build_merged_tree-conflict paths p all refused =
      build_loop-err paths new_tree p (all.covers p (conflict_present p refused)) refused

abbrev pub is_empty : List Conflict → Bool
is_empty [] = true
is_empty (c ∷ cs) = false

module _ (base ours theirs : Tree) (ours-IsNamed : IsNamed ours) (theirs-IsNamed : IsNamed theirs)
    (detected merged : List Name) (all_detected : Enumerates base ours theirs detected)
    (all_merged : Enumerates base ours theirs merged) where
  module _ (write : Tree → Oid) where
    abbrev stored_result : Tree → List Conflict → MergeResult
    stored_result t cs = record {
      tree_oid = if is_empty cs then some (write t) else none;
      conflicts = cs;
      success = is_empty cs;
      fast_forward = none;
      strategy = recursive;
    }

    finish :
        (cs : List Conflict)
        → ((p : Name) → reported p cs ≡ not (can_auto_merge p base ours theirs))
        → by_strategy base ours theirs (λ t. ok (write t)) recursive cs merged
          ≡ ok (stored_result (rule_tree base ours theirs merged) cs)
    unfolding by_strategy
    finish [] exact =
        rw (build_merged_tree-clean base ours theirs merged (λ p. ground (arith, exact p)))
    finish (c ∷ cs) exact = refl

    -- Over trees whose entries stand under their own names, and any two enumerations of their
    -- paths, `three_way_merge` with the recursive strategy ends without an error where the tree
    -- can be stored. It reports a conflict at exactly the paths that `can_auto_merge` refuses; if
    -- there is none, it stores the tree that has at every path the side that changed, and ours
    -- where neither or both did.
    pub three_way_merge-recursive :
        (t : Tree) × (cs : List Conflict) × (three_way_merge base ours theirs
            (λ x. ok (write x))
            recursive
            detected
            merged
          ≡ ok (record {
            tree_oid = if is_empty cs then some (write t) else none;
            conflicts = cs;
            success = is_empty cs;
            fast_forward = none;
            strategy = recursive;
          }))
        × ((p : Name) → reported p cs ≡ not (can_auto_merge p base ours theirs))
        × ((p : Name) → get p t ≡ three_way (get p base) (get p ours) (get p theirs))
    unfolding three_way_merge
    three_way_merge-recursive =
        let (cs, found, exact) = detect_conflicts_exact base ours theirs detected all_detected in
        (
          rule_tree base ours theirs merged,
          cs,
          rw found (finish cs exact),
          exact,
          get-rule_tree base ours theirs ours-IsNamed theirs-IsNamed merged all_merged,
        )
