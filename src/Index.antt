-- ===== src/Index.antt =====
-- crates/mediagit-versioning/src/index.rs: the staging area, over any type of paths with an order.
-- The `HashSet` of deleted paths is a map to the unit, in one of its orders.
pub mod View
pub mod Listing
pub mod Snapshot
mod Tests
use mediagit_core.Prelude.{
  ℕ, Bool, true, false, not, ◌&&◌, Option, none, some, List, [], ◌∷◌, map, length,
}
use mediagit_core.Object.{Oid}
use mediagit_core.BTreeMap.{BTreeMap, get, insert, remove, contains_key, keys, values}
use mediagit_core.BTreeMap.Order.{Ord}

pub record IndexEntry {ℓ} (P : Type ℓ) : Type ℓ where
  pub path : P
  pub oid : Oid
  pub mode : ℕ
  pub size : ℕ
  pub mtime : Option ℕ

pub record Index {ℓ} (P : Type ℓ) : Type ℓ where
  pub staged : BTreeMap P (IndexEntry P)
  pub deleted_entries : BTreeMap P (Unit {0})
  pub version : ℕ

abbrev pub is_nil {ℓ} : {A : Type ℓ} → List A → Bool
is_nil [] = true
is_nil (x ∷ xs) = false

module _ {ℓ} {P : Type ℓ} where
  abbrev pub new_entry : P → Oid → ℕ → ℕ → Option ℕ → IndexEntry P
  new_entry path oid mode size mtime = record {
    path = path;
    oid = oid;
    mode = mode;
    size = size;
    mtime = mtime;
  }

  abbrev pub new_index : Index P
  new_index = record { staged = []; deleted_entries = []; version = 1 }

  unfoldable pub entries : Index P → List (IndexEntry P)
  entries index = values (index.staged)

  unfoldable pub len : Index P → ℕ
  len index = length (index.staged)

  unfoldable pub is_empty : Index P → Bool
  is_empty index = is_nil (index.staged) && is_nil (index.deleted_entries)

  unfoldable pub clear : Index P → Index P
  clear index = record index { staged = []; deleted_entries = [] }

  unfoldable pub staged_paths : Index P → List P
  staged_paths index = keys (index.staged)

  unfoldable pub staged_files : Index P → List (P × Oid)
  staged_files index = map (λ entry. (entry.path, entry.oid)) (values (index.staged))

  unfoldable pub deleted_paths : Index P → List P
  deleted_paths index = keys (index.deleted_entries)

  unfoldable pub deleted_count : Index P → ℕ
  deleted_count index = length (index.deleted_entries)

  unfoldable pub has_deletions : Index P → Bool
  has_deletions index = not (is_nil (index.deleted_entries))

module _ {ℓ} {P : Type ℓ} ⦃o : Ord P⦄ where
  unfoldable pub add_entry : IndexEntry P → Index P → Index P
  add_entry entry index = record index { staged = insert (entry.path) entry (index.staged) }

  -- With what was removed.
  unfoldable pub remove_entry : P → Index P → Option (IndexEntry P) × Index P
  remove_entry path index =
      (get path (index.staged), record index { staged = remove path (index.staged) })

  unfoldable pub get_entry : P → Index P → Option (IndexEntry P)
  get_entry path index = get path (index.staged)

  unfoldable pub contains : P → Index P → Bool
  contains path index = contains_key path (index.staged)

  unfoldable pub mark_deleted : P → Index P → Index P
  mark_deleted path index = record index {
    staged = remove path (index.staged);
    deleted_entries = insert path tt (index.deleted_entries);
  }

  unfoldable pub is_deleted : P → Index P → Bool
  is_deleted path index = contains_key path (index.deleted_entries)

-- The calls that change an index.
pub data Change {ℓ} (P : Type ℓ) : Type ℓ where
  stage : IndexEntry P → Change P
  unstage delete : P → Change P
  reset : Change P

module _ {ℓ} {P : Type ℓ} ⦃o : Ord P⦄ where
  unfoldable pub change : Change P → Index P → Index P
  unfolding add_entry remove_entry mark_deleted clear
  change (stage entry) index = add_entry entry index
  change (unstage path) index = (remove_entry path index).1
  change (delete path) index = mark_deleted path index
  change reset index = clear index

  unfoldable pub run : List (Change P) → Index P → Index P
  unfolding change
  run [] index = index
  run (c ∷ cs) index = run cs (change c index)
