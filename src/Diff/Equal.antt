-- ===== src/Diff/Equal.antt =====
-- diff.rs: `are_trees_equal`.
use mediagit_core.Prelude.{
  ◌≡◌, ◌↔◌, refl, sym, ap, ◌∙◌, inl, inr, Bool, true, ◌&&◌, Bool-cases, Option, none, some, List,
  [], ◌∷◌, arith,
}
use mediagit_core.Result.{ok}
use mediagit_core.Bytes.{bytes_eq, bytes_eq→eq}
use mediagit_core.Object.{Oid}
use mediagit_core.Tree.{Name, TreeEntry, Tree}
use mediagit_core.BTreeMap.{BTreeMap, get}
use mediagit_core.BTreeMap.Order.{bytes_ord, bytes_cmp_refl}
use mediagit_core.BTreeMap.Sorted.{IsSorted}
use mediagit_core.Index.Snapshot.Laws.{IsTree}
use mediagit_core.Diff.{ModifiedEntry, TreeDiff, Listing, is_nil, are_trees_equal}
use mediagit_core.Diff.Found.{IsListing, entry_at, modified_at, unless_some, pair_changed}
use mediagit_core.Diff.Trees.{changed_self, patched, Explains, diff_trees_exact}

is_nil-entries : (l : List TreeEntry) → ((p : Name) → entry_at p l ≡ none) → is_nil l ≡ true
is_nil-entries [] h = refl
is_nil-entries (e ∷ l) h = cc (h e.name, bytes_cmp_refl e.name)

is_nil-modified : (l : List ModifiedEntry) → ((p : Name) → modified_at p l ≡ none) → is_nil l ≡ true
is_nil-modified [] h = refl
is_nil-modified (m ∷ l) h = cc (h m.path, bytes_cmp_refl m.path)

nil_of {ℓ} : {A : Type ℓ} (l : List A) → is_nil l ≡ true → l ≡ []
nil_of [] h = refl
nil_of (x ∷ l) h = cc h

unless_self {ℓ} : {A : Type ℓ} (x : Option A) → unless_some {B = A} x x ≡ none
unless_self none = refl
unless_self (some a) = refl

pair_self : (x : Option TreeEntry) → pair_changed x x ≡ none
pair_self none = refl
pair_self (some e) = rw (changed_self e)

abbrev no_difference : TreeDiff → Bool
no_difference d = is_nil d.added && (is_nil d.deleted && is_nil d.modified)

unpatched :
    (p : Name) (d : TreeDiff) (old : Option TreeEntry)
    → no_difference d ≡ true
    → patched p d old ≡ old
unpatched p d old h =
    let a = nil_of d.added (ground (arith, h)) in
    let b = nil_of d.deleted (ground (arith, h)) in
    let c = nil_of d.modified (ground (arith, h)) in rw (patched, a, b, c)

-- No difference exactly where every lookup agrees.
no_difference_iff :
    (s t : Tree) (d : TreeDiff)
    → ((p : Name) → Explains p d (get p s) (get p t))
    → (no_difference d ≡ true) ↔ ((p : Name) → get p s ≡ get p t)
no_difference_iff s t d explains = (
  λ h p. sym (unpatched p d (get p s) h) ∙ (explains p).3,
  λ same.
      let a = is_nil-entries d.added (λ p. (explains p).0 ∙ rw (same p) (unless_self (get p t))) in
      let b =
        is_nil-entries d.deleted (λ p. (explains p).1 ∙ rw (same p) (unless_self (get p t))) in
      let c =
        is_nil-modified d.modified (λ p. (explains p).2 ∙ rw (same p) (pair_self (get p t))) in
      rw (a, b, c),
)

-- Over two trees in order whose entries stand under their own names, `are_trees_equal` ends
-- without an error, in whatever order it goes through its maps, and answers yes exactly where the
-- two trees have the same entry at every path.
pub are_trees_equal_exact :
    (order : BTreeMap Name TreeEntry → Listing)
    → ((m : BTreeMap Name TreeEntry) → IsSorted m → IsListing m (order m))
    → (read_tree : Oid → Option Tree) (oid1 oid2 : Oid) (s t : Tree) → read_tree oid1 ≡ some s
    → read_tree oid2 ≡ some t
    → IsTree s
    → IsTree t
    → (b : Bool) × (are_trees_equal order read_tree oid1 oid2 ≡ ok b)
      × ((b ≡ true) ↔ ((p : Name) → get p s ≡ get p t))
unfolding are_trees_equal
are_trees_equal_exact order listing read_tree oid1 oid2 s t es et hs ht =
    elim (Bool-cases (bytes_eq oid1 oid2)) [
      | inl y ↦
          let same : s ≡ t = cc (es, et, bytes_eq→eq oid1 oid2 y) in
          (true, rw y, (λ h p. ap (get p) same, λ h. refl))
      | inr n ↦
          let (d, e, explains) =
            diff_trees_exact order listing read_tree oid1 oid2 s t es et hs ht in
          (no_difference d, rw (n, e), no_difference_iff s t d explains)
    ]
