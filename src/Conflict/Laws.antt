-- ===== src/Conflict/Laws.antt =====
-- conflict.rs: what `detect_conflicts` reports, against `can_auto_merge`.
use mediagit_core.Prelude.{
  ◌≡◌, refl, ap, ◌∙◌, inl, inr, Bool, true, false, not, ◌&&◌, ◌||◌, Option, none, some, List, [],
  ◌∷◌, All, arith, Bool-cases,
}
use mediagit_core.Result.{Result, ok, err, panic}
use mediagit_core.Bytes.{bytes_eq, bytes_eq→eq, bytes_eq_refl}
use mediagit_core.BTreeMap.{get}
use mediagit_core.BTreeMap.Order.{bytes_ord}
use mediagit_core.Tree.{Name, TreeEntry, Tree}
use mediagit_core.Conflict.{
  Conflict, ConflictError, categorize, auto_mergeable, push_some, detect_conflicts, can_auto_merge,
}
use mediagit_core.Conflict.Paths.{is_some, present, listed, Enumerates}

abbrev pub reported : Name → List Conflict → Bool
reported p [] = false
reported p (c ∷ cs) = bytes_eq p c.path || reported p cs

-- The conflict of one path, if there is one.
abbrev found : Result ConflictError (Option Conflict) → Option Conflict
found (ok c) = c
found (err e) = none
found panic = none

categorize_ok :
    (path : Name) (b o t : Option TreeEntry)
    → (is_some b || (is_some o || is_some t)) ≡ true
    → categorize path b o t ≡ ok (found (categorize path b o t))
unfolding categorize
categorize_ok path (some b) (some o) (some t) h = ground arith
categorize_ok path b o t h = ground arith

-- A conflict is found exactly where the entries cannot be merged, and it names the path.
reported-categorize :
    (path : Name) (b o t : Option TreeEntry) (p : Name) (cs : List Conflict)
    → reported p (push_some (found (categorize path b o t)) cs)
      ≡ ((bytes_eq p path && not (auto_mergeable b o t)) || reported p cs)
unfolding categorize auto_mergeable
reported-categorize path (some b) (some o) (some t) p cs = ground arith
reported-categorize path b o t p cs = ground arith

abbrev conflicts_of : Result ConflictError (List Conflict) → List Conflict
conflicts_of (ok cs) = cs
conflicts_of (err e) = []
conflicts_of panic = []

module _ (base ours theirs : Tree) where
  detect_ok :
      (paths : List Name)
      → All (λ p. present base ours theirs p ≡ true) paths
      → detect_conflicts paths base ours theirs
        ≡ ok (conflicts_of (detect_conflicts paths base ours theirs))
  unfolding detect_conflicts
  detect_ok [] h = refl
  detect_ok (path ∷ paths) h = rw (
    categorize_ok path (get path base) (get path ours) (get path theirs) h.0,
    detect_ok paths h.1,
  )

  -- The equal path has the equal entries.
  same_path :
      (p path : Name) (r : Bool)
      → ((bytes_eq p path && not (can_auto_merge path base ours theirs))
          || (r && not (can_auto_merge p base ours theirs)))
        ≡ ((bytes_eq p path || r) && not (can_auto_merge p base ours theirs))
  same_path p path r = elim (Bool-cases (bytes_eq p path)) [
    | inl e ↦ rw (bytes_eq→eq p path e, bytes_eq_refl path) (ground arith)
    | inr e ↦ rw e
  ]

  conflicts_of-cons :
      (path : Name) (paths : List Name)
      → All (λ p. present base ours theirs p ≡ true) (path ∷ paths)
      → conflicts_of (detect_conflicts (path ∷ paths) base ours theirs)
        ≡ push_some
            (found (categorize path (get path base) (get path ours) (get path theirs)))
            (conflicts_of (detect_conflicts paths base ours theirs))
  unfolding detect_conflicts
  conflicts_of-cons path paths h =
      let one = categorize_ok path (get path base) (get path ours) (get path theirs) h.0 in
      ground (arith, one, detect_ok paths h.1)

  reported-detect :
      (paths : List Name) (p : Name)
      → All (λ q. present base ours theirs q ≡ true) paths
      → reported p (conflicts_of (detect_conflicts paths base ours theirs))
        ≡ (listed p paths && not (can_auto_merge p base ours theirs))
  reported-detect [] p h = unfold detect_conflicts in refl
  reported-detect (path ∷ paths) p h =
      let b = get path base in
      let o = get path ours in
      let t = get path theirs in
      let cs = conflicts_of (detect_conflicts paths base ours theirs) in
      ap (reported p) (conflicts_of-cons path paths h)
      ∙ reported-categorize path b o t p cs
      ∙ ap (λ r. (bytes_eq p path && not (auto_mergeable b o t)) || r) (reported-detect paths p h.1)
      ∙ unfold can_auto_merge in same_path p path (listed p paths)

  absent :
      (b o t : Option TreeEntry)
      → (is_some b || (is_some o || is_some t)) ≡ false
      → auto_mergeable b o t ≡ true
  unfolding auto_mergeable
  absent none none none h = refl
  absent b o t h = cc

  -- A path of no tree is no conflict.
  pub can_auto_merge_absent :
      (p : Name) → present base ours theirs p ≡ false → can_auto_merge p base ours theirs ≡ true
  unfolding can_auto_merge
  can_auto_merge_absent p e = absent (get p base) (get p ours) (get p theirs) e

  -- Over any enumeration of the paths of the three trees, `detect_conflicts` ends without an
  -- error, and reports a conflict at a path exactly where `can_auto_merge` answers no.
  pub detect_conflicts_exact :
      (paths : List Name)
      → Enumerates base ours theirs paths
      → (cs : List Conflict) × (detect_conflicts paths base ours theirs ≡ ok cs)
        × ((p : Name) → reported p cs ≡ not (can_auto_merge p base ours theirs))
  detect_conflicts_exact paths all = (
    conflicts_of (detect_conflicts paths base ours theirs),
    detect_ok paths all.sound,
    λ p. reported-detect paths p all.sound ∙ in_list p,
  )
    where
      in_list :
          (p : Name)
          → (listed p paths && not (can_auto_merge p base ours theirs))
            ≡ not (can_auto_merge p base ours theirs)
      in_list p = elim (Bool-cases (present base ours theirs p)) [
        | inl e ↦ rw (all.covers p e)
        | inr e ↦ rw (can_auto_merge_absent p e) (ground arith)
      ]
