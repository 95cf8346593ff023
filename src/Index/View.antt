-- ===== src/Index/View.antt =====
-- index.rs: what each call does to one path, and to no other.
use mediagit_core.Prelude.{
  ◌≡◌, refl, ap, ◌∙◌, inl, inr, Bool, true, false, Option, none, some, List, [], ◌∷◌,
}
use mediagit_core.BTreeMap.{get, contains_key}
use mediagit_core.BTreeMap.Order.{Ord, Ordering-cases}
use mediagit_core.BTreeMap.Lookup.{on_eq, get-insert, get-remove, contains_key-insert}
use mediagit_core.Index.{
  IndexEntry, Index, Change, stage, unstage, delete, reset, change, run, get_entry, is_deleted,
  add_entry, mark_deleted, remove_entry, clear,
}

-- A path's staged entry, and whether the path is marked for deletion.
abbrev pub Status {ℓ} : Type ℓ → Type ℓ
Status P = Option (IndexEntry P) × Bool

module _ {ℓ} {P : Type ℓ} ⦃o : Ord P⦄ where
  abbrev pub status : P → Index P → Status P
  status p index = (get_entry p index, is_deleted p index)

  -- One call as it is seen from one path.
  abbrev pub change_at : P → Change P → Status P → Status P
  change_at p (stage entry) (e, d) = (on_eq (o.cmp p (entry.path)) (some entry) e, d)
  change_at p (unstage path) (e, d) = (on_eq (o.cmp p path) none e, d)
  change_at p (delete path) (e, d) = on_eq (o.cmp p path) (none, true) (e, d)
  change_at p reset s = (none, false)

  abbrev pub run_at : P → List (Change P) → Status P → Status P
  run_at p [] s = s
  run_at p (c ∷ cs) s = run_at p cs (change_at p c s)

  status-change :
      (p : P) (c : Change P) (index : Index P)
      → status p (change c index) ≡ change_at p c (status p index)
  unfolding change get_entry is_deleted add_entry mark_deleted remove_entry clear contains_key get
  status-change p (stage entry) index = rw (get-insert (entry.path) p entry (index.staged))
  status-change p (unstage path) index = rw (get-remove path p (index.staged))
  status-change p (delete path) index =
      let a = get-remove path p (index.staged) in
      let b = contains_key-insert path p tt (index.deleted_entries) in
      elim (Ordering-cases (o.cmp p path)) [
        | inl e ↦ rw (a, is_deleted, b, e)
        | inr (inl e) ↦ rw (a, is_deleted, b, e)
        | inr (inr e) ↦ rw (a, is_deleted, b, e)
      ]
  status-change p reset index = refl

  -- After any sequence of calls on any index, the status of every path, its staged entry and its
  -- mark for deletion, is that of the same calls seen from this path alone.
  pub status-run :
      (cs : List (Change P)) (p : P) (index : Index P)
      → status p (run cs index) ≡ run_at p cs (status p index)
  unfolding run
  status-run [] p index = refl
  status-run (c ∷ cs) p index =
      status-run cs p (change c index) ∙ ap (run_at p cs) (status-change p c index)
