-- ===== src/BTreeMap/Keys.antt =====
-- The keys of a map whose keys are byte strings.
use mediagit_core.Prelude.{
  ℕ, ◌≡◌, refl, sym, ◌∙◌, inl, inr, Bool, true, false, Bool-cases, Option, none, some, List, [],
  ◌∷◌,
}
use mediagit_core.Bytes.{bytes_eq, bytes_eq→eq, bytes_eq_refl, listed}
use mediagit_core.BTreeMap.{BTreeMap, get, keys, contains_key}
use mediagit_core.BTreeMap.Order.{
  Ordering-cases, bytes_ord, bytes_cmp, bytes_cmp_eq, bytes_cmp_refl,
}
use mediagit_core.BTreeMap.Lookup.{on_eq, on_eq_other, contains_key_cons}

bytes_eq-cmp : (p q : List ℕ) → bytes_eq p q ≡ on_eq (bytes_cmp p q) true false
bytes_eq-cmp p q = elim (Bool-cases (bytes_eq p q)) [
  | inl y ↦ rw (bytes_eq→eq p q y, bytes_cmp_refl q) (bytes_eq_refl q)
  | inr n ↦
      n
      ∙ sym (
          on_eq_other (bytes_cmp p q) true false (λ e. cc (n, bytes_cmp_eq p q e, bytes_eq_refl q)))
]

-- The keys of a map are listed.
pub listed-keys {ℓ} :
    {V : Type ℓ} (p : List ℕ) (m : BTreeMap (List ℕ) V) → listed p (keys m) ≡ contains_key p m
unfolding contains_key get
listed-keys p [] = refl
listed-keys p ((q, v) ∷ m) = elim (Ordering-cases (bytes_cmp p q)) [
  | inl lt ↦ rw (contains_key_cons p q v m, bytes_eq-cmp p q, lt, listed-keys p m)
  | inr (inl eq) ↦ rw (contains_key_cons p q v m, bytes_eq-cmp p q, eq)
  | inr (inr gt) ↦ rw (contains_key_cons p q v m, bytes_eq-cmp p q, gt, listed-keys p m)
]

abbrev pub is_some {ℓ} : {A : Type ℓ} → Option A → Bool
is_some none = false
is_some (some a) = true

option_test {ℓ} : {V : Type ℓ} (v : Option V) → elim v [ none ↦ false | some _ ↦ true ] ≡ is_some v
option_test none = refl
option_test (some v) = refl

pub contains_key-get {ℓ} :
    {V : Type ℓ} (p : List ℕ) (m : BTreeMap (List ℕ) V) → contains_key p m ≡ is_some (get p m)
unfolding contains_key
contains_key-get p m = option_test (get p m)
