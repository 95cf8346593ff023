-- ===== src/BTreeMap/Canonical.antt =====
-- A sorted map is determined by its lookups.
use mathlib.Core.Path.{subst}
use mediagit_core.Prelude.{◌≡◌, refl, sym, ◌∙◌, inl, inr, [], ◌∷◌, Ordering}
use mediagit_core.BTreeMap.Order.{Ord, Ordering-cases}
use mediagit_core.BTreeMap.{BTreeMap, get}
use mediagit_core.BTreeMap.Sorted.{Above, IsSorted, Above-trans, get-Above, get_head}

module _ {ℓ κ} {K : Type ℓ} {V : Type κ} ⦃o : Ord K⦄ where
  -- Maps with the same least key that agree everywhere agree behind it.
  tails_agree :
      (k : K) (v w : V) (m n : BTreeMap K V)
      → Above k m
      → Above k n
      → ((i : K) → get i ((k, v) ∷ m) ≡ get i ((k, w) ∷ n))
      → (i : K) → get i m ≡ get i n
  tails_agree k v w m n a b h i = elim (Ordering-cases (o.cmp i k)) [
    | inl e ↦ unfold get in rw (e, get) at (h i)
    | inr (inl e) ↦
        let p = sym (o.cmp_eq i k e) in
        subst (λ x. get x m ≡ get x n) p (get-Above k m a ∙ sym (get-Above k n b))
    | inr (inr e) ↦ unfold get in rw (e, get) at (h i)
  ]

  same_head :
      (k j : K) (v w : V) (m n : BTreeMap K V)
      → k ≡ j
      → Above k m
      → Above j n
      → (((i : K) → get i m ≡ get i n) → m ≡ n)
      → ((i : K) → get i ((k, v) ∷ m) ≡ get i ((j, w) ∷ n))
      → ◌≡◌ {A = BTreeMap K V} ((k, v) ∷ m) ((j, w) ∷ n)
  same_head k j v w m n p a b ih =
      subst
        (λ x.
          Above x n
          → ((i : K) → get i ((k, v) ∷ m) ≡ get i ((x, w) ∷ n))
          → ◌≡◌ {A = BTreeMap K V} ((k, v) ∷ m) ((x, w) ∷ n))
        p
        (λ b' h.
          let e = sym (get_head k v m) ∙ h k ∙ get_head k w n in
          let t = ih (tails_agree k v w m n a b' h) in cc (e, t))
        b

  -- A key below the least one is not found.
  missing :
      (k j : K) (v w : V) (m n : BTreeMap K V)
      → o.cmp k j ≡ Ordering.lt
      → Above j n
      → get k ((k, v) ∷ m) ≡ get k ((j, w) ∷ n)
      → ⊥
  missing k j v w m n e b h =
      let gone = get-Above k ((j, w) ∷ n) (e, Above-trans k j n e b) in cc (get_head k v m, h, gone)

  pub Sorted_ext :
      (m n : BTreeMap K V) → IsSorted m → IsSorted n → ((k : K) → get k m ≡ get k n) → m ≡ n
  Sorted_ext [] [] s t h = refl
  Sorted_ext [] ((j, w) ∷ n) s t h = unfold get in cc (h j, get_head j w n)
  Sorted_ext ((k, v) ∷ m) [] s t h = unfold get in cc (h k, get_head k v m)
  Sorted_ext ((k, v) ∷ m) ((j, w) ∷ n) s t h =
      let ih = Sorted_ext m n s.1 t.1 in
      elim (Ordering-cases (o.cmp k j)) [
        | inl e ↦ absurd (missing k j v w m n e t.0 (h k))
        | inr (inl e) ↦ same_head k j v w m n (o.cmp_eq k j e) s.0 t.0 ih h
        | inr (inr e) ↦ absurd (missing j k w v n m (o.cmp_gt k j e) s.0 (sym (h j)))
      ]
