-- ===== src/Lca/Lowest.antt =====
-- lca.rs: `filter_to_lca` and `find_merge_base`.
use mathlib.Core.Path.{subst}
use mediagit_core.Prelude.{
  ℕ, ◌+◌, ◌<◌, ◌≡◌, ◌↔◌, refl, sym, ◌∙◌, inl, inr, Bool, true, false, Option, some, List, [], ◌∷◌,
  arith, Bool-cases, if◌then◌else◌,
}
use mediagit_core.Bytes.{bytes_eq, bytes_eq→eq, bytes_eq_refl, listed}
use mediagit_core.Object.{Oid}
use mediagit_core.Lca.{Commit, is_lowest, lowest_loop}
use mediagit_core.Lca.Walk.{Closed, weight}
use mediagit_core.Lca.Reach.{Reach, here, parent}
use mediagit_core.Lca.Ancestors.{is_ancestor_exact}

pub eq→bytes_eq : (a b : Oid) → a ≡ b → bytes_eq a b ≡ true
eq→bytes_eq a b e = rw e (bytes_eq_refl b)

-- No other commit of the list has `p` in its history.
abbrev pub IsLowest : (Oid → Option Commit) → Oid → List Oid → Type 0
IsLowest read p commits = (q : Oid) → listed q commits ≡ true → Reach read q p → q ≡ p

module _ (read : Oid → Option Commit) (all : List Oid) (closed : Closed read all) (fuel : ℕ)
    (enough : 1 + weight read all [] < fuel) where
  pub Reach-known :
      (start p : Oid) → listed start all ≡ true → Reach read start p → listed p all ≡ true
  Reach-known start p known here = known
  Reach-known start p known (parent {c} r h) = closed c p (Reach-known start c known r) h

  abbrev Within : List Oid → Type 0
  Within commits = (p : Oid) → listed p commits ≡ true → listed p all ≡ true

  -- The step of the inner loop at another commit.
  not_same :
      (p other : Oid) (others : List Oid)
      → Within (other ∷ others)
      → (rest : Bool) → is_lowest read fuel p others ≡ some rest
      → ((rest ≡ true) ↔ IsLowest read p others)
      → bytes_eq p other ≡ false
      → (b : Bool) × (is_lowest read fuel p (other ∷ others) ≡ some b)
        × ((b ≡ true) ↔ IsLowest read p (other ∷ others))
  unfolding is_lowest
  not_same p other others within rest e iff differ =
      let first : listed other (other ∷ others) ≡ true = rw (bytes_eq_refl other) in
      let (above, ea, aiff) =
        is_ancestor_exact read all closed fuel enough p other (within other first) in
      elim (Bool-cases above) [
        | inl t ↦ (
          false,
          rw (differ, ea, t),
          (λ h. cc h, λ low. cc (eq→bytes_eq p other (sym (low other first (aiff.0 t))), differ)),
        )
        | inr f ↦ (
          rest,
          rw (differ, ea, f) e,
          (
            λ t q h r. elim (Bool-cases (bytes_eq q other)) [
              | inl k ↦ cc (f, aiff.1 (subst (λ x. Reach read x p) (bytes_eq→eq q other k) r))
              | inr k ↦ iff.0 t q (ground (arith, h, k)) r
            ],
            λ low. iff.1 (λ q h r. low q (ground (arith, h)) r),
          ),
        )
      ]

  keep_iff :
      (common candidates : List Oid) (c : Oid) (rest : List Oid) (b : Bool) (p : Oid)
      → (listed p rest ≡ true) ↔ ((listed p candidates ≡ true) × IsLowest read p common)
      → (b ≡ true) ↔ IsLowest read c common
      → (listed p (if b then c ∷ rest else rest) ≡ true)
        ↔ ((listed p (c ∷ candidates) ≡ true) × IsLowest read p common)
  keep_iff common candidates c rest true p iff biff = (
    λ h. elim (Bool-cases (bytes_eq p c)) [
      | inl k ↦ (rw k, rw (bytes_eq→eq p c k) (biff.0 refl))
      | inr k ↦ let (l, low) = iff.0 (ground (arith, h, k)) in (rw (k, l), low)
    ],
    λ (h, low). elim (Bool-cases (bytes_eq p c)) [
      | inl k ↦ rw k
      | inr k ↦ rw (k, iff.1 (ground (arith, h, k), low))
    ],
  )
  keep_iff common candidates c rest false p iff biff = (
    λ h. let (l, low) = iff.0 h in (ground (arith, l), low),
    λ (h, low). elim (Bool-cases (bytes_eq p c)) [
      | inl k ↦ cc (biff.1 (rw (bytes_eq→eq p c k) at low))
      | inr k ↦ iff.1 (ground (arith, h, k), low)
    ],
  )

  is_lowest_exact :
      (p : Oid) (others : List Oid)
      → Within others
      → (b : Bool) × (is_lowest read fuel p others ≡ some b) × ((b ≡ true) ↔ IsLowest read p others)
  unfolding is_lowest
  is_lowest_exact p [] within = (true, refl, (λ _ q h. cc h, λ _. refl))
  is_lowest_exact p (other ∷ others) within =
      let (rest, e, iff) = is_lowest_exact p others (λ q h. within q (ground (arith, h))) in
      elim (Bool-cases (bytes_eq p other)) [
        | inl same ↦ (
          rest,
          rw (same, e),
          (
            λ t q h r. elim (Bool-cases (bytes_eq q other)) [
              | inl k ↦ bytes_eq→eq q other k ∙ sym (bytes_eq→eq p other same)
              | inr k ↦ iff.0 t q (ground (arith, h, k)) r
            ],
            λ low. iff.1 (λ q h r. low q (ground (arith, h)) r),
          ),
        )
        | inr differ ↦ not_same p other others within rest e iff differ
      ]

  pub lowest_loop_exact :
      (common candidates : List Oid)
      → Within common
      → (lca : List Oid) × (lowest_loop read fuel common candidates ≡ some lca)
        × ((p : Oid)
            → (listed p lca ≡ true) ↔ ((listed p candidates ≡ true) × IsLowest read p common))
  unfolding lowest_loop
  lowest_loop_exact common [] within = ([], refl, λ p. (λ h. cc h, λ h. h.0))
  lowest_loop_exact common (c ∷ candidates) within =
      let (rest, e, iff) = lowest_loop_exact common candidates within in
      let (b, eb, biff) = is_lowest_exact c common within in
      (
        (if b then c ∷ rest else rest),
        rw (eb, e),
        λ p. keep_iff common candidates c rest b p (iff p) biff,
      )
