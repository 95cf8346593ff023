-- ===== src/Lca/Base.antt =====
-- lca.rs: `filter_to_lca` and `find_merge_base` give the best common ancestors.
use mathlib.Core.Path.{subst}
use mediagit_core.Prelude.{
  ℕ, ◌+◌, ◌<◌, ◌≡◌, ◌↔◌, refl, sym, inl, inr, true, Option, some, List, [], ◌∷◌, arith, Bool-cases,
}
use mediagit_core.Bytes.{bytes_eq, bytes_eq→eq, bytes_eq_refl, listed}
use mediagit_core.Object.{Oid}
use mediagit_core.Lca.{
  Commit, filter_to_lca, Bases, found, no_common_ancestor, bases_among, find_merge_base,
}
use mediagit_core.Lca.Walk.{Closed, weight}
use mediagit_core.Lca.Reach.{Reach, here}
use mediagit_core.Lca.Ancestors.{is_ancestor_exact, find_common_ancestors_exact}
use mediagit_core.Lca.Lowest.{IsLowest, Reach-known, lowest_loop_exact, eq→bytes_eq}

-- `p` is in both histories, and in the history of no other commit that is.
abbrev pub IsBest : (Oid → Option Commit) → Oid → Oid → Oid → Type 0
IsBest read oid1 oid2 p =
    Reach read oid1 p
    × Reach read oid2 p
    × ((q : Oid) → Reach read oid1 q → Reach read oid2 q → Reach read q p → q ≡ p)

-- What the result says of the best common ancestors.
abbrev pub Gives : (Oid → Option Commit) → Oid → Oid → Bases → Type 0
Gives read oid1 oid2 (found bases) =
    ((p : Oid) × Reach read oid1 p × Reach read oid2 p)
    × ((p : Oid) → (listed p bases ≡ true) ↔ IsBest read oid1 oid2 p)
Gives read oid1 oid2 no_common_ancestor = (p : Oid) → Reach read oid1 p → Reach read oid2 p → ⊥

module _ (read : Oid → Option Commit) (all : List Oid) (closed : Closed read all) (fuel : ℕ)
    (enough : 1 + weight read all [] < fuel)
    (acyclic : (a b : Oid) → Reach read a b → Reach read b a → a ≡ b) where
  filter_to_lca_exact :
      (common : List Oid)
      → ((p : Oid) → listed p common ≡ true → listed p all ≡ true)
      → (lca : List Oid) × (filter_to_lca read fuel common ≡ some lca)
        × ((p : Oid) → (listed p lca ≡ true) ↔ ((listed p common ≡ true) × IsLowest read p common))
  unfolding filter_to_lca
  filter_to_lca_exact [] within = ([], refl, λ p. (λ h. cc h, λ h. h.0))
  filter_to_lca_exact (c ∷ []) within = (
    c ∷ [],
    refl,
    λ p. (λ h. (h, λ q k r. ground (arith, bytes_eq→eq q c, bytes_eq→eq p c, h, k)), λ h. h.0),
  )
  filter_to_lca_exact (c ∷ (d ∷ cs)) within =
      let (lca, e, iff) =
        lowest_loop_exact read all closed fuel enough (c ∷ (d ∷ cs)) (c ∷ (d ∷ cs)) within in
      (lca, ground (arith, e), iff)

  bases_among_exact :
      (oid1 oid2 : Oid)
      → listed oid1 all ≡ true
      → (common : List Oid)
      → ((p : Oid) → (listed p common ≡ true) ↔ (Reach read oid1 p × Reach read oid2 p))
      → (r : Bases) × (bases_among read fuel common ≡ some r) × Gives read oid1 oid2 r
  bases_among_exact oid1 oid2 known [] iff =
      (no_common_ancestor, refl, λ p ra rb. cc ((iff p).1 (ra, rb)))
  bases_among_exact oid1 oid2 known (c ∷ cs) iff =
      let within : (p : Oid) → listed p (c ∷ cs) ≡ true → listed p all ≡ true =
        λ p h. Reach-known read all closed fuel enough oid1 p known ((iff p).0 h).0 in
      let (lca, e, liff) = filter_to_lca_exact (c ∷ cs) within in
      (
        found lca,
        rw e,
        (
          let (ra, rb) = (iff c).0 (rw (bytes_eq_refl c) refl) in (c, ra, rb),
          λ p. (
            λ h.
                let (k, low) = (liff p).0 h in
                let (ra, rb) = (iff p).0 k in (ra, rb, λ q qa qb r. low q ((iff q).1 (qa, qb)) r),
            λ (ra, rb, best).
                (liff p).1 ((iff p).1 (ra, rb), λ q k r. best q ((iff q).0 k).0 ((iff q).0 k).1 r),
          ),
        ),
      )

  -- The one base where `a` is in the history of `b`.
  single : (a b : Oid) → Reach read b a → (p : Oid) → (listed p (a ∷ []) ≡ true) ↔ IsBest read a b p
  single a b r p = (
    λ h.
        let e : a ≡ p = ground (arith, bytes_eq→eq p a, h) in
        subst (IsBest read a b) e (here, r, λ q ra rb rq. acyclic q a rq ra),
    λ (ra, rb, best). rw (eq→bytes_eq p a (sym (best a here r ra))),
  )

  swap : (a b p : Oid) → IsBest read a b p → IsBest read b a p
  swap a b p (ra, rb, best) = (rb, ra, λ q qb qa r. best q qa qb r)

  -- In a finite history without cycles, and with fuel for every parent link and two steps more,
  -- `find_merge_base` ends. It reports that there is no common ancestor only where there is none,
  -- and otherwise returns exactly the best common ancestors, those that are in the history of no
  -- other common ancestor.
  pub find_merge_base_exact :
      (oid1 oid2 : Oid)
      → listed oid1 all ≡ true
      → listed oid2 all ≡ true
      → (r : Bases) × (find_merge_base read fuel oid1 oid2 ≡ some r) × Gives read oid1 oid2 r
  unfolding find_merge_base
  find_merge_base_exact oid1 oid2 known1 known2 =
      let (forward, ef, fiff) = is_ancestor_exact read all closed fuel enough oid1 oid2 known2 in
      let (backward, eb, biff) = is_ancestor_exact read all closed fuel enough oid2 oid1 known1 in
      elim (Bool-cases (bytes_eq oid1 oid2)) [
        | inl same ↦ (
          found (oid1 ∷ []),
          rw same,
          let r = subst (λ x. Reach read x oid1) (bytes_eq→eq oid1 oid2 same) here in
              ((oid1, here, r), single oid1 oid2 r),
        )
        | inr differ ↦ elim (Bool-cases forward) [
          | inl f ↦ (
            found (oid1 ∷ []),
            rw (differ, ef, f),
            ((oid1, here, fiff.0 f), single oid1 oid2 (fiff.0 f)),
          )
          | inr nf ↦ elim (Bool-cases backward) [
            | inl b ↦ (
              found (oid2 ∷ []),
              rw (differ, ef, nf, eb, b),
              (
                (oid2, biff.0 b, here),
                λ p.
                    let s = single oid2 oid1 (biff.0 b) p in
                    (λ h. swap oid2 oid1 p (s.0 h), λ h. s.1 (swap oid1 oid2 p h)),
              ),
            )
            | inr nb ↦
                let (common, ec, ciff) =
                  find_common_ancestors_exact read all closed fuel enough oid1 oid2 known1 known2 in
                let (r, er, gives) = bases_among_exact oid1 oid2 known1 common ciff in
                (r, rw (differ, ef, nf, eb, nb, ec) er, gives)
          ]
        ]
      ]
