-- ===== src/BTreeMap/Lookup.antt =====
-- What a lookup returns after each operation.
use mediagit_core.Prelude.{◌≡◌, refl, inl, inr, true, [], ◌∷◌, none, some, Ordering, arith}
use mediagit_core.BTreeMap.Order.{Ord, Ordering-cases}
use mediagit_core.BTreeMap.{BTreeMap, get, insert, remove, contains_key}

-- The value under the compared key, by the outcome of the comparison.
abbrev pub on_eq {ℓ} : {A : Type ℓ} → Ordering → A → A → A
on_eq Ordering.lt x y = y
on_eq Ordering.eq x y = x
on_eq Ordering.gt x y = y

pub on_eq_other {ℓ} :
    {A : Type ℓ} (c : Ordering) (x y : A) → (c ≡ Ordering.eq → ⊥) → on_eq c x y ≡ y
on_eq_other Ordering.lt x y h = refl
on_eq_other Ordering.eq x y h = absurd (h refl)
on_eq_other Ordering.gt x y h = refl

module _ {ℓ κ} {K : Type ℓ} {V : Type κ} ⦃o : Ord K⦄ where
  pub get-insert :
      (k j : K) (v : V) (m : BTreeMap K V)
      → get j (insert k v m) ≡ on_eq (o.cmp j k) (some v) (get j m)
  unfolding get insert
  get-insert k j v [] = ground arith
  get-insert k j v ((i, w) ∷ m) = ground (
    arith,
    get-insert k j v m,
    o.cmp_eq j k,
    o.cmp_eq j i,
    o.cmp_eq k i,
    o.cmp_refl k,
    o.cmp_refl i,
  )

  pub get-remove :
      (k j : K) (m : BTreeMap K V) → get j (remove k m) ≡ on_eq (o.cmp j k) none (get j m)
  unfolding get remove
  get-remove k j [] = ground arith
  get-remove k j ((i, w) ∷ m) = ground (
    arith,
    get-remove k j m,
    o.cmp_eq j k,
    o.cmp_eq j i,
    o.cmp_eq k i,
    o.cmp_refl k,
    o.cmp_refl i,
  )

  pub contains_key-insert :
      (k j : K) (v : V) (m : BTreeMap K V)
      → contains_key j (insert k v m) ≡ on_eq (o.cmp j k) true (contains_key j m)
  unfolding contains_key
  contains_key-insert k j v m = elim (Ordering-cases (o.cmp j k)) [
    | inl e ↦ rw (contains_key, get-insert k j v m, e)
    | inr (inl e) ↦ rw (contains_key, get-insert k j v m, e)
    | inr (inr e) ↦ rw (contains_key, get-insert k j v m, e)
  ]

  -- Lookups in a map with a first entry.
  pub get_cons :
      (j k : K) (v : V) (m : BTreeMap K V)
      → get j ((k, v) ∷ m) ≡ on_eq (o.cmp j k) (some v) (get j m)
  unfolding get
  get_cons j k v m = elim (Ordering-cases (o.cmp j k)) [
    | inl e ↦ rw (e, get)
    | inr (inl e) ↦ rw (e, get)
    | inr (inr e) ↦ rw (e, get)
  ]

  pub contains_key_cons :
      (j k : K) (v : V) (m : BTreeMap K V)
      → contains_key j ((k, v) ∷ m) ≡ on_eq (o.cmp j k) true (contains_key j m)
  unfolding contains_key
  contains_key_cons j k v m = elim (Ordering-cases (o.cmp j k)) [
    | inl e ↦ rw (contains_key, get_cons j k v m, e)
    | inr (inl e) ↦ rw (contains_key, get_cons j k v m, e)
    | inr (inr e) ↦ rw (contains_key, get_cons j k v m, e)
  ]
