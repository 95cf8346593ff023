-- ===== src/BTreeMap.antt =====
-- `std::collections::BTreeMap` as the program uses it: an association list in the order of its
-- keys. The operations are those that `tree.rs`, `index.rs` and `pack.rs` call.
pub mod Order
pub mod Lookup
pub mod Sorted
pub mod Canonical
pub mod Keys
pub mod Assoc
use mediagit_core.Prelude.{ℕ, List, [], ◌∷◌, Option, none, some, Ordering, Bool, true, false, map}
use Order.{Ord}

abbrev pub BTreeMap {ℓ κ} : Type ℓ → Type κ → Type (ℓ ⊔ κ)
BTreeMap K V = List (K × V)

module _ {ℓ κ} {K : Type ℓ} {V : Type κ} ⦃o : Ord K⦄ where
  unfoldable pub get : K → BTreeMap K V → Option V
  get k [] = none
  get k ((j, v) ∷ m) = let rest = get k m in elim (o.cmp k j) [ Ordering.eq ↦ some v | _ ↦ rest ]

  unfoldable pub insert : K → V → BTreeMap K V → BTreeMap K V
  insert k v [] = (k, v) ∷ []
  insert k v ((j, w) ∷ m) =
      let rest = insert k v m in
      elim (o.cmp k j) [
        | Ordering.lt ↦ (k, v) ∷ (j, w) ∷ m
        | Ordering.eq ↦ (k, v) ∷ m
        | Ordering.gt ↦ (j, w) ∷ rest
      ]

  unfoldable pub remove : K → BTreeMap K V → BTreeMap K V
  remove k [] = []
  remove k ((j, w) ∷ m) =
      let rest = remove k m in elim (o.cmp k j) [ Ordering.eq ↦ rest | _ ↦ (j, w) ∷ rest ]

  unfoldable pub contains_key : K → BTreeMap K V → Bool
  unfolding get
  contains_key k m = elim (get k m) [ none ↦ false | some _ ↦ true ]

  -- Insertion one entry after the other, from the left.
  unfoldable pub insert_all : BTreeMap K V → List (K × V) → BTreeMap K V
  insert_all m [] = m
  insert_all m ((k, v) ∷ kvs) = insert_all (insert k v m) kvs

module _ {ℓ κ} {K : Type ℓ} {V : Type κ} where
  abbrev pub keys : BTreeMap K V → List K
  keys m = map (λ e. e.0) m

  abbrev pub values : BTreeMap K V → List V
  values m = map (λ e. e.1) m
