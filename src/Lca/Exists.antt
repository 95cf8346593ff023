-- ===== src/Lca/Exists.antt =====
-- lca.rs: two histories that share a commit have a best common ancestor.
use mediagit_core.Prelude.{
  ℕ, ◌+◌, ◌≤◌, ◌<◌, ◌≡◌, ◌↔◌, refl, inl, inr, true, Option, List, [], ◌∷◌, arith, Bool-cases, ltb,
  ltb→lt,
}
use mediagit_core.Bytes.{bytes_eq→eq, bytes_eq_refl, listed}
use mediagit_core.Object.{Oid}
use mediagit_core.Lca.{Commit, parents_of}
use mediagit_core.Lca.Walk.{Closed, weight}
use mediagit_core.Lca.Reach.{Reach, Reach-rank}
use mediagit_core.Lca.Ancestors.{find_common_ancestors_exact}
use mediagit_core.Lca.Base.{IsBest}

-- A commit of the highest rank in a list that is not empty.
highest :
    (rank : Oid → ℕ) (c : Oid) (cs : List Oid)
    → (m : Oid) × (listed m (c ∷ cs) ≡ true)
      × ((q : Oid) → listed q (c ∷ cs) ≡ true → rank q ≤ rank m)
highest rank c [] = (c, rw (bytes_eq_refl c) refl, λ q h. ground (arith, bytes_eq→eq q c, h))
highest rank c (d ∷ cs) =
    let (m, k, top) = highest rank d cs in
    elim (Bool-cases (ltb (rank m) (rank c))) [
      | inl y ↦ (
        c,
        rw (bytes_eq_refl c) refl,
        λ q h. ground (arith, bytes_eq→eq q c, h, top q, ltb→lt (rank m) (rank c) y),
      )
      | inr n ↦ (m, ground (arith, k), λ q h. ground (arith, bytes_eq→eq q c, h, top q, n))
    ]

module _ (read : Oid → Option Commit) (all : List Oid) (closed : Closed read all) (fuel : ℕ)
    (enough : 1 + weight read all [] < fuel) (rank : Oid → ℕ)
    (falls : (c p : Oid) → listed p (parents_of read c) ≡ true → rank p < rank c) (oid1 oid2 : Oid)
    (known1 : listed oid1 all ≡ true) (known2 : listed oid2 all ≡ true) where
  IsBest-among :
      (common : List Oid)
      → ((p : Oid) → (listed p common ≡ true) ↔ (Reach read oid1 p × Reach read oid2 p))
      → (p : Oid) → listed p common ≡ true
      → (b : Oid) × IsBest read oid1 oid2 b
  IsBest-among [] iff p h = cc h
  IsBest-among (c ∷ cs) iff p h =
      let (m, k, top) = highest rank c cs in
      (
        m,
        (
          ((iff m).0 k).0,
          ((iff m).0 k).1,
          λ q qa qb r. elim (Reach-rank read rank falls q m r) [
            | inl e ↦ e
            | inr lt ↦ absurd (omega (arith, top q ((iff q).1 (qa, qb))))
          ],
        ),
      )

  -- In a finite history whose ranks fall from commits to parents.
  pub IsBest-exists :
      (p : Oid) → Reach read oid1 p → Reach read oid2 p → (b : Oid) × IsBest read oid1 oid2 b
  IsBest-exists p ra rb =
      let (common, e, iff) =
        find_common_ancestors_exact read all closed fuel enough oid1 oid2 known1 known2 in
      IsBest-among common iff p ((iff p).1 (ra, rb))
