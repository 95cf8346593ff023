-- ===== src/Conflict/Paths.antt =====
-- The set of paths that a three-way comparison goes over: `all_paths` in conflict.rs and merge.rs.
use mediagit_core.Prelude.{◌≡◌, Bool, true, false, ◌||◌, Option, none, some, List, All}
pub use mediagit_core.Bytes.{listed}
use mediagit_core.BTreeMap.{get}
use mediagit_core.BTreeMap.Order.{bytes_ord}
use mediagit_core.Tree.{Name, TreeEntry, Tree}

abbrev pub is_some : Option TreeEntry → Bool
is_some none = false
is_some (some e) = true

-- Whether the path is a key of one of the trees.
abbrev pub present : Tree → Tree → Tree → Name → Bool
present base ours theirs path =
    is_some (get path base) || (is_some (get path ours) || is_some (get path theirs))

-- An order in which a set of the keys of the three trees may be gone through.
pub record Enumerates (base ours theirs : Tree) (paths : List Name) : Type 0 where
  pub sound : All (λ p. present base ours theirs p ≡ true) paths
  pub covers : (p : Name) → present base ours theirs p ≡ true → listed p paths ≡ true
