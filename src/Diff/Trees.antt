-- ===== src/Diff/Trees.antt =====
-- diff.rs: the difference of two trees at every path, and as a patch.
use mathlib.Core.Path.{subst, ap₂}
use mediagit_core.Prelude.{
  ◌≡◌, refl, sym, ap, ◌∙◌, inl, inr, true, false, Bool-cases, Option, none, some, [], ◌∷◌, map,
  arith, All,
}
use mediagit_core.Result.{ok}
use mediagit_core.Bytes.{bytes_eq, bytes_eq→eq, bytes_eq_refl}
use mediagit_core.Object.{Oid}
use mediagit_core.Tree.{Name, FileMode, TreeEntry, Tree}
use mediagit_core.BTreeMap.{BTreeMap, get, values}
use mediagit_core.BTreeMap.Order.{bytes_ord, bytes_cmp_eq}
use mediagit_core.BTreeMap.Lookup.{get_cons}
use mediagit_core.BTreeMap.Sorted.{IsSorted, insert_all-sorted}
use mediagit_core.Index.Snapshot.Laws.{IsTree}
use mediagit_core.Diff.{
  TreeDiff, Listing, mode_eq, changed, by_name, diff_maps, diff_trees, load_tree,
}
use mediagit_core.Diff.Found.{
  AreEntries, IsListing, entry_at, modified_at, unless_some, pair_changed, entry_at-find_added,
  entry_at-find_deleted, modified_at-find_modified,
}

-- A tree as the program builds it is the map of its entries by their names.
entries_of-named : (t : Tree) → All (λ e. e.1.name ≡ e.0) t → map (λ e. (e.name, e)) (values t) ≡ t
entries_of-named [] h = refl
entries_of-named ((k, e) ∷ t) (h, hs) =
    ap₂ (λ (n : Name) (r : Listing). (n, e) ∷ r) h (entries_of-named t hs)

by_name_lem : (t : Tree) → IsTree t → by_name t ≡ t
unfolding by_name
by_name_lem t h = rw (entries_of-named t h.named) (insert_all-sorted [] t h.sorted)

-- What a difference leaves at a path that holds `old`.
abbrev pub patched : Name → TreeDiff → Option TreeEntry → Option TreeEntry
patched p d old = elim (entry_at p d.added) [
  | some e ↦ some e
  | none ↦ elim (entry_at p d.deleted) [
    | some e ↦ none
    | none ↦ elim (modified_at p d.modified) [ some (s, t) ↦ some t | none ↦ old ]
  ]
]

get-named :
    (p : Name) (t : Tree) (e : TreeEntry)
    → All (λ x. x.1.name ≡ x.0) t
    → get p t ≡ some e
    → e.name ≡ p
unfolding get
get-named p [] e h g = cc g
get-named p ((k, x) ∷ t) e (h, hs) g =
    ground (arith, get-named p t e hs, get_cons p k x t, bytes_cmp_eq p k, g, h)

mode_eq→eq : (a b : FileMode) → mode_eq a b ≡ true → a ≡ b
mode_eq→eq a b h = ground arith

mode_eq_refl : (a : FileMode) → mode_eq a a ≡ true
mode_eq_refl a = ground arith

pub changed_self : (e : TreeEntry) → changed e e ≡ false
changed_self e = rw (bytes_eq_refl e.oid, mode_eq_refl e.mode)

unchanged→eq : (s t : TreeEntry) → s.name ≡ t.name → changed s t ≡ false → s ≡ t
unchanged→eq s t n h = ground (arith, bytes_eq→eq s.oid t.oid, mode_eq→eq s.mode t.mode, n, h)

-- What the difference says of a path, and that it leads from the one tree to the other.
abbrev pub Explains : Name → TreeDiff → Option TreeEntry → Option TreeEntry → Type 0
Explains p d s t =
    (entry_at p d.added ≡ unless_some s t)
    × (entry_at p d.deleted ≡ unless_some t s)
    × (modified_at p d.modified ≡ pair_changed s t)
    × (patched p d s ≡ t)

patched_lem :
    (p : Name) (d : TreeDiff) (s t : Option TreeEntry)
    → ((a b : TreeEntry) → s ≡ some a → t ≡ some b → a.name ≡ b.name)
    → entry_at p d.added ≡ unless_some s t
    → entry_at p d.deleted ≡ unless_some t s
    → modified_at p d.modified ≡ pair_changed s t
    → patched p d s ≡ t
patched_lem p d none none names a b c = rw (patched, a, b, c)
patched_lem p d none (some y) names a b c = rw (patched, a)
patched_lem p d (some x) none names a b c = rw (patched, a, b)
patched_lem p d (some x) (some y) names a b c = elim (Bool-cases (changed x y)) [
  | inl h ↦ rw (patched, a, b, c, h)
  | inr h ↦ rw (patched, a, b, c, h) (ap some (unchanged→eq x y (names x y refl refl) h))
]

module _ (order : BTreeMap Name TreeEntry → Listing)
    (listing : (m : BTreeMap Name TreeEntry) → IsSorted m → IsListing m (order m))
    (read_tree : Oid → Option Tree) where
  AreEntries-named :
      (t : Tree) (l : Listing) → IsTree t → AreEntries t l → All (λ e. e.1.name ≡ e.0) l
  AreEntries-named t [] h a = tt
  AreEntries-named t ((k, e) ∷ l) h (a, rest) =
      (get-named k t e h.named a, AreEntries-named t l h rest)

  diff_maps-Explains :
      (s t : Tree)
      → IsTree s
      → IsTree t
      → (p : Name) → Explains p (diff_maps order s t) (get p s) (get p t)
  unfolding diff_maps
  diff_maps-Explains s t hs ht p =
      let ls = listing s hs.sorted in
      let lt = listing t ht.sorted in
      let a =
        entry_at-find_added s p (order t) (AreEntries-named t (order t) ht lt.entries)
        ∙ ap (unless_some (get p s)) (lt.same p) in
      let b =
        entry_at-find_deleted t p (order s) (AreEntries-named s (order s) hs ls.entries)
        ∙ ap (unless_some (get p t)) (ls.same p) in
      let c =
        modified_at-find_modified s t p (order t) lt.entries
        ∙ ap (pair_changed (get p s)) (lt.same p) in
      (
        a,
        b,
        c,
        patched_lem p (diff_maps order s t) (get p s) (get p t)
            (λ x y ex ey. get-named p s x hs.named ex ∙ sym (get-named p t y ht.named ey)) a b c,
      )

  empty-Explains :
      (p : Name) (s : Option TreeEntry)
      → Explains p (record { added = []; deleted = []; modified = [] }) s s
  empty-Explains p none = (refl, refl, refl, refl)
  empty-Explains p (some e) = (refl, refl, rw (changed_self e), refl)

  -- Over two trees in order whose entries stand under their own names, `diff_trees` ends without
  -- an error, in whatever order it goes through its maps. At every path it lists an entry as added
  -- exactly where only the target has one, as deleted exactly where only the source has one, and
  -- as modified, with both entries, exactly where both have one and the identifiers or the modes
  -- differ; the source, patched by the difference, has what the target has.
  pub diff_trees_exact :
      (source_oid target_oid : Oid) (s t : Tree)
      → read_tree source_oid ≡ some s
      → read_tree target_oid ≡ some t
      → IsTree s
      → IsTree t
      → (d : TreeDiff) × (diff_trees order read_tree source_oid target_oid ≡ ok d)
        × ((p : Name) → Explains p d (get p s) (get p t))
  unfolding diff_trees
  diff_trees_exact source_oid target_oid s t es et hs ht =
      elim (Bool-cases (bytes_eq source_oid target_oid)) [
        | inl y ↦
            let same : s ≡ t = cc (es, et, bytes_eq→eq source_oid target_oid y) in
            (
              record { added = []; deleted = []; modified = [] },
              rw y,
              λ p.
                  subst
                    (λ x.
                      Explains p (record { added = []; deleted = []; modified = [] }) (get p s)
                        (get p x))
                    same (empty-Explains p (get p s)),
            )
        | inr n ↦ (
          diff_maps order s t,
          rw (n, load_tree, es, et, by_name_lem s hs, by_name_lem t ht),
          diff_maps-Explains s t hs ht,
        )
      ]
