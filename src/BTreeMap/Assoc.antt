-- ===== src/BTreeMap/Assoc.antt =====
-- Lookups in a map whose keys are byte strings, at the same key and at another one.
use mathlib.Core.Path.{subst}
use mediagit_core.Prelude.{
  ℕ, ◌≡◌, ◌≢◌, refl, sym, ◌∙◌, inl, inr, Bool-cases, none, some, List, [], ◌∷◌, All, Ordering,
}
use mediagit_core.Bytes.{bytes_eq, bytes_eq→eq, bytes_eq_ne}
use mediagit_core.BTreeMap.{BTreeMap, get, insert, remove}
use mediagit_core.BTreeMap.Order.{bytes_ord, bytes_cmp, bytes_cmp_refl, bytes_cmp_eq}
use mediagit_core.BTreeMap.Lookup.{get_cons, get-insert, get-remove, on_eq_other}

ne_cmp : (p q : List ℕ) → q ≢ p → bytes_cmp q p ≡ Ordering.eq → ⊥
ne_cmp p q h e = h (bytes_cmp_eq q p e)

module _ {V : Type 0} where
  pub get-insert_same :
      (p : List ℕ) (v : V) (s : BTreeMap (List ℕ) V) → get p (insert p v s) ≡ some v
  get-insert_same p v s = rw (get-insert p p v s, bytes_cmp_refl p)

  pub get-insert_other :
      (p q : List ℕ) (v : V) (s : BTreeMap (List ℕ) V) → q ≢ p → get q (insert p v s) ≡ get q s
  get-insert_other p q v s h = get-insert p q v s ∙ on_eq_other _ _ _ (ne_cmp p q h)

  pub get-remove_same : (p : List ℕ) (s : BTreeMap (List ℕ) V) → get p (remove p s) ≡ none
  get-remove_same p s = rw (get-remove p p s, bytes_cmp_refl p)

  pub get-remove_other :
      (p q : List ℕ) (s : BTreeMap (List ℕ) V) → q ≢ p → get q (remove p s) ≡ get q s
  get-remove_other p q s h = get-remove p q s ∙ on_eq_other _ _ _ (ne_cmp p q h)

  pub get_cons_other :
      (p k : List ℕ) (v : V) (rest : BTreeMap (List ℕ) V)
      → p ≢ k
      → get p ((k, v) ∷ rest) ≡ get p rest
  get_cons_other p k v rest apart = get_cons p k v rest ∙ on_eq_other _ _ _ (ne_cmp k p apart)

  -- What holds at the keys, and at every path that is no key, holds at every path.
  pub at_every_path :
      (P : List ℕ → Type 0) (m : BTreeMap (List ℕ) V) (p : List ℕ)
      → All (λ e. P e.0) m
      → (get p m ≡ none → P p)
      → P p
  at_every_path P [] p h f = f (unfold get in refl)
  at_every_path P ((k, v) ∷ m) p (h, hs) f = elim (Bool-cases (bytes_eq p k)) [
    | inl y ↦ subst P (sym (bytes_eq→eq p k y)) h
    | inr n ↦ at_every_path P m p hs (λ e. f (get_cons_other p k v m (bytes_eq_ne p k n) ∙ e))
  ]
