-- ===== src/Conflict/AllPaths.antt =====
-- The set of paths that conflict.rs and merge.rs collect: the keys of the three trees.
use mediagit_core.Prelude.{
  ◌≡◌, refl, sym, ◌∙◌, true, Option, none, some, List, [], ◌∷◌, ◌++◌, All, arith,
}
use mediagit_core.Bytes.{bytes_eq_refl, listed, listed-append}
use mediagit_core.BTreeMap.{get, keys}
use mediagit_core.BTreeMap.Order.{bytes_ord}
use mediagit_core.BTreeMap.Keys
use mediagit_core.BTreeMap.Keys.{listed-keys, contains_key-get}
use mediagit_core.Tree.{Name, TreeEntry, Tree}
use mediagit_core.Conflict.Paths.{is_some, present, Enumerates}

abbrev pub all_paths : Tree → Tree → Tree → List Name
all_paths base ours theirs = keys base ++ (keys ours ++ keys theirs)

same_test : (e : Option TreeEntry) → Keys.is_some e ≡ is_some e
same_test none = refl
same_test (some e) = refl

has_key : (p : Name) (t : Tree) → listed p (keys t) ≡ is_some (get p t)
has_key p t = listed-keys p t ∙ contains_key-get p t ∙ same_test (get p t)

listed-all_paths :
    (base ours theirs : Tree) (p : Name)
    → listed p (all_paths base ours theirs) ≡ present base ours theirs p
listed-all_paths base ours theirs p = rw (
  listed-append p (keys base) (keys ours ++ keys theirs),
  listed-append p (keys ours) (keys theirs),
  has_key p base,
  has_key p ours,
  has_key p theirs,
)

All-listed :
    (P : Name → Type 0) (paths : List Name)
    → ((p : Name) → listed p paths ≡ true → P p)
    → All P paths
All-listed P [] h = tt
All-listed P (q ∷ paths) h =
    (h q (rw (bytes_eq_refl q) refl), All-listed P paths (λ p k. h p (ground (arith, k))))

-- The keys of the three trees, one tree after the other, enumerate their paths: each path in the
-- list is a key of one of the trees, and each key of a tree is in the list.
pub all_paths-Enumerates :
    (base ours theirs : Tree) → Enumerates base ours theirs (all_paths base ours theirs)
all_paths-Enumerates base ours theirs = record {
  sound =
      All-listed (λ p. present base ours theirs p ≡ true) (all_paths base ours theirs)
        (λ p h. sym (listed-all_paths base ours theirs p) ∙ h);
  covers = λ p h. listed-all_paths base ours theirs p ∙ h;
}
