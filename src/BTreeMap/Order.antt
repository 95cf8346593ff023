-- ===== src/BTreeMap/Order.antt =====
-- `Ord` of the Rust standard library, as an interface, and its instance on byte sequences:
-- `String` and `[u8; 32]` are both ordered byte by byte.
use Prim.Native.Nat.{compare}
use mediagit_core.Prelude.{ℕ, ◌≡◌, refl, ◌⊎◌, inl, inr, List, [], ◌∷◌, Ordering, arith}

-- A total order by a three-way comparison.
pub record Ord {ℓ} (K : Type ℓ) : Type ℓ where
  pub cmp : K → K → Ordering
  pub cmp_refl : (a : K) → cmp a a ≡ Ordering.eq
  pub cmp_eq : (a b : K) → cmp a b ≡ Ordering.eq → a ≡ b
  pub cmp_lt : (a b : K) → cmp a b ≡ Ordering.lt → cmp b a ≡ Ordering.gt
  pub cmp_gt : (a b : K) → cmp a b ≡ Ordering.gt → cmp b a ≡ Ordering.lt
  pub cmp_trans :
      (a b c : K) → cmp a b ≡ Ordering.lt → cmp b c ≡ Ordering.lt → cmp a c ≡ Ordering.lt

-- To split on a comparison and keep the equation.
pub Ordering-cases : (c : Ordering) → (c ≡ Ordering.lt) ⊎ (c ≡ Ordering.eq) ⊎ (c ≡ Ordering.gt)
Ordering-cases Ordering.lt = inl refl
Ordering-cases Ordering.eq = inr (inl refl)
Ordering-cases Ordering.gt = inr (inr refl)

-- Byte by byte; a proper prefix comes first.
abbrev pub bytes_cmp : List ℕ → List ℕ → Ordering
bytes_cmp [] [] = Ordering.eq
bytes_cmp [] (b ∷ bs) = Ordering.lt
bytes_cmp (a ∷ as') [] = Ordering.gt
bytes_cmp (a ∷ as') (b ∷ bs) =
    let rest = bytes_cmp as' bs in
    elim (compare a b) [
      | Ordering.lt ↦ Ordering.lt
      | Ordering.eq ↦ rest
      | Ordering.gt ↦ Ordering.gt
    ]

pub bytes_cmp_refl : (a : List ℕ) → bytes_cmp a a ≡ Ordering.eq
bytes_cmp_refl [] = refl
bytes_cmp_refl (x ∷ a) = ground (arith, bytes_cmp_refl a)

pub bytes_cmp_eq : (a b : List ℕ) → bytes_cmp a b ≡ Ordering.eq → a ≡ b
bytes_cmp_eq [] [] h = refl
bytes_cmp_eq [] (y ∷ b) h = cc
bytes_cmp_eq (x ∷ a) [] h = cc
bytes_cmp_eq (x ∷ a) (y ∷ b) h = ground (arith, bytes_cmp_eq a b)

pub bytes_cmp_lt : (a b : List ℕ) → bytes_cmp a b ≡ Ordering.lt → bytes_cmp b a ≡ Ordering.gt
bytes_cmp_lt [] [] h = cc
bytes_cmp_lt [] (y ∷ b) h = refl
bytes_cmp_lt (x ∷ a) [] h = cc
bytes_cmp_lt (x ∷ a) (y ∷ b) h = ground (arith, bytes_cmp_lt a b)

pub bytes_cmp_gt : (a b : List ℕ) → bytes_cmp a b ≡ Ordering.gt → bytes_cmp b a ≡ Ordering.lt
bytes_cmp_gt [] [] h = cc
bytes_cmp_gt [] (y ∷ b) h = cc
bytes_cmp_gt (x ∷ a) [] h = refl
bytes_cmp_gt (x ∷ a) (y ∷ b) h = ground (arith, bytes_cmp_gt a b)

pub bytes_cmp_trans :
    (a b c : List ℕ)
    → bytes_cmp a b ≡ Ordering.lt
    → bytes_cmp b c ≡ Ordering.lt
    → bytes_cmp a c ≡ Ordering.lt
bytes_cmp_trans [] [] c h k = cc
bytes_cmp_trans [] (y ∷ b) [] h k = cc
bytes_cmp_trans [] (y ∷ b) (z ∷ c) h k = refl
bytes_cmp_trans (x ∷ a) [] c h k = cc
bytes_cmp_trans (x ∷ a) (y ∷ b) [] h k = cc
bytes_cmp_trans (x ∷ a) (y ∷ b) (z ∷ c) h k = ground (arith, bytes_cmp_trans a b c)

instance abbrev pub bytes_ord : Ord (List ℕ)
bytes_ord = record {
  cmp = bytes_cmp;
  cmp_refl = bytes_cmp_refl;
  cmp_eq = bytes_cmp_eq;
  cmp_lt = bytes_cmp_lt;
  cmp_gt = bytes_cmp_gt;
  cmp_trans = bytes_cmp_trans;
}
