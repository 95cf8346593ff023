-- ===== src/Index/Listing.antt =====
-- index.rs: the lists of what is staged.
use mediagit_core.Prelude.{◌≡◌, refl, List, [], ◌∷◌, map, All}
use mediagit_core.Object.{Oid}
use mediagit_core.BTreeMap.{BTreeMap, keys, values}
use mediagit_core.BTreeMap.Order.{Ord}
use mediagit_core.BTreeMap.Sorted.{
  IsSorted, insert-IsSorted, remove-IsSorted, All-insert, All-remove,
}
use mediagit_core.Index.{
  IndexEntry, Index, Change, stage, unstage, delete, reset, change, run, add_entry, mark_deleted,
  remove_entry, clear, new_index, staged_paths, staged_files,
}

module _ {ℓ} {P : Type ℓ} ⦃o : Ord P⦄ where
  -- The maps are in order, and each entry stands under its own path.
  pub record IsIndex (index : Index P) : Type ℓ where
    pub sorted : IsSorted (index.staged)
    pub deleted_sorted : IsSorted (index.deleted_entries)
    pub named : All (λ e. e.1.path ≡ e.0) (index.staged)

  change-IsIndex : (c : Change P) (index : Index P) → IsIndex index → IsIndex (change c index)
  unfolding change add_entry mark_deleted remove_entry clear
  change-IsIndex (stage entry) index i = record {
    sorted = insert-IsSorted (entry.path) entry (index.staged) i.sorted;
    deleted_sorted = i.deleted_sorted;
    named = All-insert (λ e. e.1.path ≡ e.0) (entry.path) entry (index.staged) refl i.named;
  }
  change-IsIndex (unstage path) index i = record {
    sorted = remove-IsSorted path (index.staged) i.sorted;
    deleted_sorted = i.deleted_sorted;
    named = All-remove (λ e. e.1.path ≡ e.0) path (index.staged) i.named;
  }
  change-IsIndex (delete path) index i = record {
    sorted = remove-IsSorted path (index.staged) i.sorted;
    deleted_sorted = insert-IsSorted path tt (index.deleted_entries) i.deleted_sorted;
    named = All-remove (λ e. e.1.path ≡ e.0) path (index.staged) i.named;
  }
  change-IsIndex reset index i = record { sorted = tt; deleted_sorted = tt; named = tt }

  pub run-IsIndex :
      (cs : List (Change P)) (index : Index P) → IsIndex index → IsIndex (run cs index)
  unfolding run
  run-IsIndex [] index i = i
  run-IsIndex (c ∷ cs) index i = run-IsIndex cs (change c index) (change-IsIndex c index i)

  pub new_index-IsIndex : IsIndex new_index
  new_index-IsIndex = record { sorted = tt; deleted_sorted = tt; named = tt }

  paths_of_files :
      (m : BTreeMap P (IndexEntry P))
      → All (λ e. e.1.path ≡ e.0) m
      → map
          (λ (f : P × Oid). f.0)
          (map (λ (entry : IndexEntry P). (entry.path, entry.oid)) (values m))
        ≡ keys m
  paths_of_files [] h = refl
  paths_of_files ((p, e) ∷ m) (h, hs) = rw (h, paths_of_files m hs)

  -- After any sequence of calls on a new index, the staged files are listed with the staged paths,
  -- one for each, in the same order.
  pub staged_files-staged_paths :
      (cs : List (Change P))
      → map (λ (f : P × Oid). f.0) (staged_files (run cs new_index))
        ≡ staged_paths (run cs new_index)
  unfolding staged_files staged_paths
  staged_files-staged_paths cs =
      paths_of_files ((run cs new_index).staged) (run-IsIndex cs new_index new_index-IsIndex).named
