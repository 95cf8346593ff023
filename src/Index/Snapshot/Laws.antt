-- ===== src/Index/Snapshot/Laws.antt =====
-- commit.rs: what the tree of a commit holds under each path.
use mathlib.Core.Path.{subst}
use mediagit_core.Prelude.{
  ◌≡◌, refl, sym, ap, ◌∙◌, inl, inr, Bool, true, false, Bool-cases, Option, none, some, List, [],
  ◌∷◌, map, if◌then◌else◌, arith, All, Ordering,
}
use mediagit_core.Bytes.{bytes_eq, bytes_eq→eq, bytes_eq_refl, listed}
use mediagit_core.Tree.{Name, Tree, TreeEntry, new_tree, add_entry}
use mediagit_core.BTreeMap.{BTreeMap, get, contains_key, values, keys}
use mediagit_core.BTreeMap.Order.{
  Ord, Ordering-cases, bytes_ord, bytes_cmp, bytes_cmp_refl, bytes_cmp_eq,
}
use mediagit_core.BTreeMap.Lookup.{on_eq, on_eq_other, get-insert, get_cons, contains_key_cons}
use mediagit_core.BTreeMap.Sorted.{IsSorted, get-Above}
use mediagit_core.Index.{
  IndexEntry, Change, deleted_paths, entries, is_deleted, get_entry, run, new_index,
}
use mediagit_core.Index.Listing.{run-IsIndex, new_index-IsIndex}
use mediagit_core.Index.View.{run_at, status-run}
use mediagit_core.Index.Snapshot.{normalize, carry, carried, tree_entry, add_staged, snapshot}

-- A tree as the program builds it: in order, with each entry under its name.
pub record IsTree (t : Tree) : Type 0 where
  pub sorted : IsSorted t
  pub named : All (λ e. e.1.name ≡ e.0) t

get-add_entry :
    (n : Name) (e : TreeEntry) (t : Tree)
    → get n (add_entry e t) ≡ on_eq (bytes_cmp n e.name) (some e) (get n t)
unfolding add_entry
get-add_entry n e t = get-insert e.name n e t

abbrev kept : Bool → Option TreeEntry → Option TreeEntry → Option TreeEntry
kept dropped none old = old
kept dropped (some e) old = if dropped then old else some e

get-add_unless :
    (dropped : Bool) (n : Name) (e : TreeEntry) (t : Tree)
    → get n (if dropped then t else add_entry e t)
      ≡ on_eq (bytes_cmp n e.name) (if dropped then get n t else some e) (get n t)
get-add_unless dropped n e t = elim (Ordering-cases (bytes_cmp n e.name)) [
  | inl lt ↦ ground (arith, get-add_entry n e t)
  | inr (inl eq) ↦ ground (arith, get-add_entry n e t)
  | inr (inr gt) ↦ ground (arith, get-add_entry n e t)
]

-- The first entry of the parent, beside those that follow.
kept_cons :
    (deleted : List Name) (n k : Name) (e : TreeEntry) (rest t : Tree)
    → IsTree ((k, e) ∷ rest)
    → kept
        (listed (normalize n) deleted)
        (get n rest)
        (get n (if listed (normalize k) deleted then t else add_entry e t))
      ≡ kept (listed (normalize n) deleted) (get n ((k, e) ∷ rest)) (get n t)
kept_cons deleted n k e rest t is_tree =
    let add = get-add_unless (listed (normalize k) deleted) n e t in
    let cons = get_cons n k e rest in
    let name = is_tree.named.0 in
    elim (Ordering-cases (bytes_cmp n k)) [
      | inl lt ↦ rw (add, cons, name, lt)
      | inr (inl eq) ↦
          let same = bytes_cmp_eq n k eq in
          let last =
            subst (λ x. get x rest ≡ none) (sym same) (get-Above k rest is_tree.sorted.0) in
          rw (add, cons, name, eq, last, same)
      | inr (inr gt) ↦ rw (add, cons, name, gt)
    ]

get-carry :
    (deleted : List Name) (n : Name) (parent t : Tree)
    → IsTree parent
    → get n (carry deleted parent t) ≡ kept (listed (normalize n) deleted) (get n parent) (get n t)
unfolding carry get
get-carry deleted n [] t is_tree = refl
get-carry deleted n ((k, e) ∷ rest) t is_tree =
    let ih =
      get-carry deleted n rest (if listed (normalize e.name) deleted then t else add_entry e t)
        (record { sorted = is_tree.sorted.1; named = is_tree.named.1 }) in
    ih
    ∙ subst
        (λ x.
          kept (listed (normalize n) deleted) (get n rest)
            (get n (if listed (normalize x) deleted then t else add_entry e t))
          ≡ kept (listed (normalize n) deleted) (get n ((k, e) ∷ rest)) (get n t))
        (sym (is_tree.named.0)) (kept_cons deleted n k e rest t is_tree)

-- What a commit holds under a path: what is staged there, or else what the parent has, unless the
-- path is marked for deletion.
abbrev pub committed {ℓ} :
    {P : Type ℓ} → (P → Name) → Option (IndexEntry P) × Bool → Option TreeEntry → Option TreeEntry
committed text (some entry, deleted) old = some (tree_entry text entry)
committed text (none, true) old = none
committed text (none, false) old = old

kept-committed {ℓ} :
    {P : Type ℓ} (text : P → Name) (dropped : Bool) (old : Option TreeEntry)
    → kept dropped old none ≡ committed text (none, dropped) old
kept-committed text true none = refl
kept-committed text false none = refl
kept-committed text true (some e) = refl
kept-committed text false (some e) = refl

committed_twice {ℓ} :
    {P : Type ℓ} (text : P → Name) (s : Option (IndexEntry P)) (d : Bool) (old : Option TreeEntry)
    → committed text (s, false) (committed text (none, d) old) ≡ committed text (s, d) old
committed_twice text none d old = refl
committed_twice text (some e) d old = refl

abbrev pub in_parent : Option Tree → Name → Option TreeEntry
in_parent none name = none
in_parent (some t) name = get name t

abbrev pub AllTrees : Option Tree → Type 0
AllTrees none = Unit
AllTrees (some t) = IsTree t

module _ {ℓ} {P : Type ℓ} ⦃o : Ord P⦄ (text : P → Name)
    (apart : (p q : P) → normalize (text p) ≡ normalize (text q) → p ≡ q) where
  -- A test of the texts is a test of the paths.
  on_eq-text {κ} :
      {A : Type κ} (p q : P) (x y : A)
      → on_eq (bytes_cmp (text p) (text q)) x y ≡ on_eq (o.cmp p q) x y
  on_eq-text p q x y = elim (Ordering-cases (o.cmp p q)) [
    | inl lt ↦ other (λ e. cc (lt, e))
    | inr (inl eq) ↦ let same = o.cmp_eq p q eq in rw (eq, same, bytes_cmp_refl (text q))
    | inr (inr gt) ↦ other (λ e. cc (gt, e))
  ]
    where
      other :
          (o.cmp p q ≡ Ordering.eq → ⊥)
          → on_eq (bytes_cmp (text p) (text q)) x y ≡ on_eq (o.cmp p q) x y
      other differ =
          on_eq_other (bytes_cmp (text p) (text q)) x y (λ same.
            let e = apart p q (ap normalize (bytes_cmp_eq (text p) (text q) same)) in
            differ (subst (λ r. o.cmp p r ≡ Ordering.eq) e (o.cmp_refl p)))
          ∙ sym (on_eq_other (o.cmp p q) x y differ)

  name_test :
      (p q : P) → bytes_eq (normalize (text p)) (normalize (text q)) ≡ on_eq (o.cmp p q) true false
  name_test p q = elim (Ordering-cases (o.cmp p q)) [
    | inl lt ↦ other (λ e. cc (lt, e))
    | inr (inl eq) ↦ let same = o.cmp_eq p q eq in rw (eq, same, bytes_eq_refl (normalize (text q)))
    | inr (inr gt) ↦ other (λ e. cc (gt, e))
  ]
    where
      other :
          (o.cmp p q ≡ Ordering.eq → ⊥)
          → bytes_eq (normalize (text p)) (normalize (text q)) ≡ on_eq (o.cmp p q) true false
      other differ = elim (Bool-cases (bytes_eq (normalize (text p)) (normalize (text q)))) [
        | inl y ↦
            let e = apart p q (bytes_eq→eq (normalize (text p)) (normalize (text q)) y) in
            absurd (differ (subst (λ r. o.cmp p r ≡ Ordering.eq) e (o.cmp_refl p)))
        | inr n ↦ n ∙ sym (on_eq_other (o.cmp p q) true false differ)
      ]

  listed_deleted :
      (p : P) (m : BTreeMap P (Unit {0}))
      → listed (normalize (text p)) (map (λ q. normalize (text q)) (keys m)) ≡ contains_key p m
  unfolding contains_key get
  listed_deleted p [] = refl
  listed_deleted p ((q, u) ∷ m) =
      let ih = listed_deleted p m in
      let cons = contains_key_cons p q u m in
      let test = name_test p q in
      elim (Ordering-cases (o.cmp p q)) [
        | inl lt ↦ rw (cons, test, lt, ih)
        | inr (inl eq) ↦ rw (cons, test, eq)
        | inr (inr gt) ↦ rw (cons, test, gt, ih)
      ]

  get-add_staged :
      (p : P) (m : BTreeMap P (IndexEntry P)) (t : Tree)
      → IsSorted m
      → All (λ e. e.1.path ≡ e.0) m
      → get (text p) (add_staged text (values m) t)
        ≡ committed text (get p m, false) (get (text p) t)
  unfolding add_staged get
  get-add_staged p [] t s n = refl
  get-add_staged p ((q, e) ∷ m) t s n =
      let ih = get-add_staged p m (add_entry (tree_entry text e) t) s.1 n.1 in
      let add = get-add_entry (text p) (tree_entry text e) t in
      let swap = on_eq-text p e.path (some (tree_entry text e)) (get (text p) t) in
      let under = subst (λ x. o.cmp p e.path ≡ o.cmp p x) n.0 refl in
      let cons = get_cons p q e m in
      elim (Ordering-cases (o.cmp p q)) [
        | inl lt ↦ ih ∙ rw (add, swap, under, cons, lt)
        | inr (inl eq) ↦
            let last = subst (λ x. get x m ≡ none) (sym (o.cmp_eq p q eq)) (get-Above q m s.0) in
            ih ∙ rw (add, swap, under, cons, eq, last)
        | inr (inr gt) ↦ ih ∙ rw (add, swap, under, cons, gt)
      ]

  get-carried :
      (p : P) (parent : Option Tree) (m : BTreeMap P (Unit {0}))
      → AllTrees parent
      → get (text p) (carried text parent (map (λ q. normalize (text q)) (keys m)))
        ≡ committed text (none, contains_key p m) (in_parent parent (text p))
  unfolding get
  get-carried p none m trees = kept-committed text (contains_key p m) none
  get-carried p (some t) m trees =
      get-carry (map (λ q. normalize (text q)) (keys m)) (text p) t new_tree trees
      ∙ rw (listed_deleted p m) (kept-committed text (contains_key p m) (get (text p) t))

  -- After any sequence of calls on a new index, the tree of the next commit holds under each path
  -- what these calls, seen from this path alone, have staged there; if they staged nothing, it
  -- holds what the parent's tree has, unless they left the path marked for deletion. The parent's
  -- tree is in order with each entry under its name, and different paths have different normalized
  -- texts.
  pub get-snapshot :
      (parent : Option Tree)
      → AllTrees parent
      → (cs : List (Change P)) (p : P)
      → get (text p) (snapshot text parent (run cs new_index))
        ≡ committed text (run_at p cs (none, false)) (in_parent parent (text p))
  unfolding snapshot entries deleted_paths get_entry is_deleted contains_key get
  get-snapshot parent trees cs p =
      let index = run cs new_index in
      let i = run-IsIndex cs new_index new_index-IsIndex in
      let base =
        carried text parent (map (λ q. normalize (text q)) (keys (index.deleted_entries))) in
      let old = in_parent parent (text p) in
      get-add_staged p (index.staged) base i.sorted i.named
      ∙ ap (committed text (get p (index.staged), false))
          (get-carried p parent (index.deleted_entries) trees)
      ∙ committed_twice text (get p (index.staged)) (contains_key p (index.deleted_entries)) old
      ∙ ap (λ s. committed text s old) (status-run cs p new_index)
