-- ===== src/Diff/Found.antt =====
-- diff.rs: what the loops of `diff_trees` find at a path.
use mediagit_core.Prelude.{
  ◌≡◌, ◌⊎◌, refl, sym, ap, ◌∙◌, inl, inr, Bool-cases, Option, none, some, List, [], ◌∷◌,
  if◌then◌else◌, arith, All,
}
use mediagit_core.Tree.{Name, TreeEntry}
use mediagit_core.BTreeMap.{BTreeMap, get}
use mediagit_core.BTreeMap.Order.{Ordering-cases, bytes_ord, bytes_cmp, bytes_cmp_eq, bytes_cmp_lt}
use mediagit_core.BTreeMap.Lookup.{on_eq, get_cons}
use mediagit_core.BTreeMap.Keys.{contains_key-get}
use mediagit_core.BTreeMap.Sorted.{IsSorted, Above, get_head}
use mediagit_core.Diff.{
  ModifiedEntry, Listing, changed, find_added, find_modified, find_deleted, push_modified,
}

-- The pairs are entries of the map.
abbrev pub AreEntries : BTreeMap Name TreeEntry → Listing → Type 0
AreEntries m l = All (λ e. get e.0 m ≡ some e.1) l

-- An order of a map's entries: nothing else is listed, and every lookup finds what the map has.
pub record IsListing (m : BTreeMap Name TreeEntry) (l : Listing) : Type 0 where
  pub entries : AreEntries m l
  pub same : (p : Name) → get p l ≡ get p m

AreEntries-cons :
    (k : Name) (v : TreeEntry) (m : BTreeMap Name TreeEntry) (l : Listing)
    → Above k l
    → AreEntries m l
    → AreEntries ((k, v) ∷ m) l
AreEntries-cons k v m [] a h = tt
AreEntries-cons k v m ((j, w) ∷ l) (lt, a) (h, hs) =
    (rw (get_cons j k v m, bytes_cmp_lt k j lt) h, AreEntries-cons k v m l a hs)

AreEntries-self : (m : BTreeMap Name TreeEntry) → IsSorted m → AreEntries m m
AreEntries-self [] h = tt
AreEntries-self ((k, v) ∷ m) (a, h) =
    (get_head k v m, AreEntries-cons k v m m a (AreEntries-self m h))

-- The order of the names is one.
pub self-IsListing : (m : BTreeMap Name TreeEntry) → IsSorted m → IsListing m m
self-IsListing m h = record { entries = AreEntries-self m h; same = λ p. refl }

-- The entry with a name in a list of entries.
abbrev pub entry_at : Name → List TreeEntry → Option TreeEntry
entry_at p [] = none
entry_at p (e ∷ es) = on_eq (bytes_cmp p e.name) (some e) (entry_at p es)

abbrev pub modified_at : Name → List ModifiedEntry → Option (TreeEntry × TreeEntry)
modified_at p [] = none
modified_at p (m ∷ ms) = on_eq (bytes_cmp p m.path) (some (m.source, m.target)) (modified_at p ms)

-- `y` unless there is a value.
abbrev pub unless_some {ℓ κ} : {A : Type ℓ} {B : Type κ} → Option A → Option B → Option B
unless_some none y = y
unless_some (some a) y = none

abbrev pub pair_changed : Option TreeEntry → Option TreeEntry → Option (TreeEntry × TreeEntry)
pair_changed (some s) (some t) = if changed s t then some (s, t) else none
pair_changed _ _ = none

unless_none {ℓ κ} : {A : Type ℓ} {B : Type κ} (x : Option A) → none ≡ unless_some {B = B} x none
unless_none none = refl
unless_none (some a) = refl

pub entry_at-find_added :
    (source_map : BTreeMap Name TreeEntry) (p : Name) (l : Listing)
    → All (λ e. e.1.name ≡ e.0) l
    → entry_at p (find_added source_map l) ≡ unless_some (get p source_map) (get p l)
unfolding find_added
entry_at-find_added source_map p [] h = unfold get in unless_none (get p source_map)
entry_at-find_added source_map p ((k, e) ∷ l) (h, hs) =
    ground (arith, entry_at-find_added source_map p l hs, get_cons p k e l, bytes_cmp_eq p k, h)

pub entry_at-find_deleted :
    (target_map : BTreeMap Name TreeEntry) (p : Name) (l : Listing)
    → All (λ e. e.1.name ≡ e.0) l
    → entry_at p (find_deleted target_map l) ≡ unless_some (get p target_map) (get p l)
unfolding find_deleted
entry_at-find_deleted target_map p [] h = unfold get in unless_none (get p target_map)
entry_at-find_deleted target_map p ((k, e) ∷ l) (h, hs) = ground (
  arith,
  entry_at-find_deleted target_map p l hs,
  get_cons p k e l,
  bytes_cmp_eq p k,
  h,
  contains_key-get k target_map,
)

no_pair : (s : Option TreeEntry) → none ≡ pair_changed s none
no_pair none = refl
no_pair (some s) = refl

get-AreEntries :
    (m : BTreeMap Name TreeEntry) (p : Name) (l : Listing)
    → AreEntries m l
    → (get p l ≡ none) ⊎ (get p l ≡ get p m)
get-AreEntries m p [] h = unfold get in inl refl
get-AreEntries m p ((k, e) ∷ l) (h, hs) = elim (Ordering-cases (bytes_cmp p k)) [
  | inl lt ↦ rw (get_cons p k e l, lt) (get-AreEntries m p l hs)
  | inr (inl eq) ↦
      rw (get_cons p k e l, eq)
        (inr (sym h ∙ ap (λ (x : Name). get x m) (sym (bytes_cmp_eq p k eq))))
  | inr (inr gt) ↦ rw (get_cons p k e l, gt) (get-AreEntries m p l hs)
]

modified_at-push_modified :
    (p k : Name) (s t : TreeEntry) (more : List ModifiedEntry)
    → modified_at p (push_modified k s t more)
      ≡ on_eq
          (bytes_cmp p k)
          (if changed s t then some (s, t) else modified_at p more)
          (modified_at p more)
modified_at-push_modified p k s t more = elim (Bool-cases (changed s t)) [
  | inl y ↦ rw y
  | inr n ↦ rw n (ground arith)
]

-- What one entry of a listing adds to what is found behind it.
abbrev pub pick :
    Option TreeEntry → TreeEntry → Option (TreeEntry × TreeEntry) → Option (TreeEntry × TreeEntry)
pick none e old = old
pick (some s) e old = if changed s e then some (s, e) else old

modified_at-step :
    (p k : Name) (s : Option TreeEntry) (e : TreeEntry) (more : List ModifiedEntry)
    → modified_at p
        (elim s [ none ↦ more | some source_entry ↦ push_modified k source_entry e more ])
      ≡ on_eq (bytes_cmp p k) (pick s e (modified_at p more)) (modified_at p more)
modified_at-step p k none e more = ground arith
modified_at-step p k (some s) e more = modified_at-push_modified p k s e more

-- The entry of the rest of a listing, if there is one, is that of the map.
pick_again :
    (s : Option TreeEntry) (e : TreeEntry) (next : Option TreeEntry)
    → (next ≡ none) ⊎ (next ≡ some e)
    → pick s e (pair_changed s next) ≡ pair_changed s (some e)
pick_again none e next h = refl
pick_again (some s) e next (inl h) = rw h
pick_again (some s) e next (inr h) = elim (Bool-cases (changed s e)) [
  | inl y ↦ rw (h, y)
  | inr n ↦ rw (h, n)
]

pub modified_at-find_modified :
    (source_map target_map : BTreeMap Name TreeEntry) (p : Name) (l : Listing)
    → AreEntries target_map l
    → modified_at p (find_modified source_map l) ≡ pair_changed (get p source_map) (get p l)
unfolding find_modified
modified_at-find_modified source_map target_map p [] h = unfold get in no_pair (get p source_map)
modified_at-find_modified source_map target_map p ((k, e) ∷ l) (h, hs) =
    let ih = modified_at-find_modified source_map target_map p l hs in
    let step = modified_at-step p k (get k source_map) e (find_modified source_map l) in
    elim (Ordering-cases (bytes_cmp p k)) [
      | inl lt ↦ step ∙ rw (get_cons p k e l, lt) ih
      | inr (inl eq) ↦
          let same = bytes_cmp_eq p k eq in
          let next : (get p l ≡ none) ⊎ (get p l ≡ some e) =
            elim (get-AreEntries target_map p l hs) [
              | inl n ↦ inl n
              | inr g ↦ inr (g ∙ ap (λ (x : Name). get x target_map) same ∙ h)
            ] in
          step
          ∙ rw (get_cons p k e l, eq, ih, ← same) (pick_again (get p source_map) e (get p l) next)
      | inr (inr gt) ↦ step ∙ rw (get_cons p k e l, gt) ih
    ]
