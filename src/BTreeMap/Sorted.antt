-- ===== src/BTreeMap/Sorted.antt =====
-- The representation: the keys stand in strictly ascending order.
use mathlib.Core.Path.{subst}
use mediagit_core.Prelude.{
  ◌≡◌, refl, sym, ap, ◌∙◌, inl, inr, none, some, [], ◌∷◌, ◌++◌, append_assoc, Ordering, append-nil,
  All, length, ◌≤◌, ◌+◌, arith,
}
use mediagit_core.BTreeMap.Order.{Ord, Ordering-cases}
use mediagit_core.BTreeMap.{BTreeMap, get, insert, insert_all, remove}

module _ {ℓ κ} {K : Type ℓ} {V : Type κ} ⦃o : Ord K⦄ where
  -- Every key of the map lies above `k`.
  abbrev pub Above : K → BTreeMap K V → Type 0
  Above k [] = Unit
  Above k ((j, v) ∷ m) = (o.cmp k j ≡ Ordering.lt) × Above k m

  abbrev pub IsSorted : BTreeMap K V → Type 0
  IsSorted [] = Unit
  IsSorted ((k, v) ∷ m) = Above k m × IsSorted m

  pub Above-trans : (k j : K) (m : BTreeMap K V) → o.cmp k j ≡ Ordering.lt → Above j m → Above k m
  Above-trans k j [] h a = tt
  Above-trans k j ((i, v) ∷ m) h a = (o.cmp_trans k j i h a.0, Above-trans k j m h a.1)

  Above-insert :
      (k j : K) (v : V) (m : BTreeMap K V)
      → o.cmp k j ≡ Ordering.lt
      → Above k m
      → Above k (insert j v m)
  unfolding insert
  Above-insert k j v [] h a = (h, tt)
  Above-insert k j v ((i, w) ∷ m) h a = elim (Ordering-cases (o.cmp j i)) [
    | inl e ↦ rw (e, insert) (h, a)
    | inr (inl e) ↦ rw (e, insert) (h, a.1)
    | inr (inr e) ↦ rw (e, insert) (a.0, Above-insert k j v m h a.1)
  ]

  pub insert-IsSorted : (k : K) (v : V) (m : BTreeMap K V) → IsSorted m → IsSorted (insert k v m)
  unfolding insert
  insert-IsSorted k v [] s = (tt, tt)
  insert-IsSorted k v ((j, w) ∷ m) s = elim (Ordering-cases (o.cmp k j)) [
    | inl e ↦ rw (e, insert) ((e, Above-trans k j m e s.0), s)
    | inr (inl e) ↦ rw (e, insert) (subst (λ x. Above x m) (sym (o.cmp_eq k j e)) s.0, s.1)
    | inr (inr e) ↦
        rw (e, insert) (Above-insert j k v m (o.cmp_gt k j e) s.0, insert-IsSorted k v m s.1)
  ]

  Above-remove : (k j : K) (m : BTreeMap K V) → Above k m → Above k (remove j m)
  unfolding remove
  Above-remove k j [] a = tt
  Above-remove k j ((i, w) ∷ m) a = elim (Ordering-cases (o.cmp j i)) [
    | inl e ↦ rw (e, remove) (a.0, Above-remove k j m a.1)
    | inr (inl e) ↦ rw (e, remove) (Above-remove k j m a.1)
    | inr (inr e) ↦ rw (e, remove) (a.0, Above-remove k j m a.1)
  ]

  pub remove-IsSorted : (k : K) (m : BTreeMap K V) → IsSorted m → IsSorted (remove k m)
  unfolding remove
  remove-IsSorted k [] s = tt
  remove-IsSorted k ((j, w) ∷ m) s = elim (Ordering-cases (o.cmp k j)) [
    | inl e ↦ rw (e, remove) (Above-remove j k m s.0, remove-IsSorted k m s.1)
    | inr (inl e) ↦ rw (e, remove) (remove-IsSorted k m s.1)
    | inr (inr e) ↦ rw (e, remove) (Above-remove j k m s.0, remove-IsSorted k m s.1)
  ]

  Above-middle :
      (j k : K) (v : V) (m n : BTreeMap K V) → Above j (m ++ ((k, v) ∷ n)) → o.cmp j k ≡ Ordering.lt
  Above-middle j k v [] n a = a.0
  Above-middle j k v ((i, w) ∷ m) n a = Above-middle j k v m n a.1

  -- A key above all others goes to the end.
  insert_last :
      (k : K) (v : V) (m n : BTreeMap K V)
      → IsSorted (m ++ ((k, v) ∷ n))
      → insert k v m ≡ m ++ ((k, v) ∷ [])
  unfolding insert
  insert_last k v [] n s = refl
  insert_last k v ((j, w) ∷ m) n s =
      rw (o.cmp_lt j k (Above-middle j k v m n s.0), insert)
        (ap (λ t. (j, w) ∷ t) (insert_last k v m n s.1))

  -- Entries inserted in ascending order are appended.
  pub insert_all-sorted : (m n : BTreeMap K V) → IsSorted (m ++ n) → insert_all m n ≡ m ++ n
  unfolding insert_all
  insert_all-sorted m [] s = sym (append-nil m)
  insert_all-sorted m ((k, v) ∷ n) s =
      let e = append_assoc m ((k, v) ∷ []) n in
      rw (insert_last k v m n s)
        (insert_all-sorted (m ++ ((k, v) ∷ [])) n (subst IsSorted (sym e) s) ∙ e)

  pub get-Above : (k : K) (m : BTreeMap K V) → Above k m → get k m ≡ none
  unfolding get
  get-Above k [] a = refl
  get-Above k ((j, v) ∷ m) a = rw (a.0, get) (get-Above k m a.1)

  pub get_head : (k : K) (v : V) (m : BTreeMap K V) → get k ((k, v) ∷ m) ≡ some v
  unfolding get
  get_head k v m = rw (o.cmp_refl k, get)

  -- A property of all entries, and the number of entries, after an insertion.
  pub All-insert {μ} :
      (P : K × V → Type μ) (k : K) (v : V) (m : BTreeMap K V)
      → P (k, v)
      → All P m
      → All P (insert k v m)
  unfolding insert
  All-insert P k v [] p h = (p, tt)
  All-insert P k v ((j, w) ∷ m) p h = elim (Ordering-cases (o.cmp k j)) [
    | inl e ↦ rw (e, insert) (p, h)
    | inr (inl e) ↦ rw (e, insert) (p, h.1)
    | inr (inr e) ↦ rw (e, insert) (h.0, All-insert P k v m p h.1)
  ]

  pub length-insert : (k : K) (v : V) (m : BTreeMap K V) → length (insert k v m) ≤ length m + 1
  unfolding insert
  length-insert k v [] = omega arith
  length-insert k v ((j, w) ∷ m) = elim (Ordering-cases (o.cmp k j)) [
    | inl e ↦ rw (e, insert) (omega arith)
    | inr (inl e) ↦ rw (e, insert) (omega arith)
    | inr (inr e) ↦ rw (e, insert) (omega (arith, length-insert k v m))
  ]

  pub All-remove {μ} :
      (P : K × V → Type μ) (k : K) (m : BTreeMap K V) → All P m → All P (remove k m)
  unfolding remove
  All-remove P k [] h = tt
  All-remove P k ((j, w) ∷ m) (h, hs) = elim (Ordering-cases (o.cmp k j)) [
    | inl e ↦ rw (e, remove) (h, All-remove P k m hs)
    | inr (inl e) ↦ rw (e, remove) (All-remove P k m hs)
    | inr (inr e) ↦ rw (e, remove) (h, All-remove P k m hs)
  ]
