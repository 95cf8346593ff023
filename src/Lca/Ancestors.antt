-- ===== src/Lca/Ancestors.antt =====
-- lca.rs: the searches against the history relation.
use mediagit_core.Prelude.{
  ℕ, ◌+◌, ◌<◌, ◌≡◌, ◌↔◌, refl, ap, ◌∙◌, inl, inr, Bool, true, false, ◌&&◌, Option, some, List, [],
  ◌∷◌, arith, Bool-cases,
}
use mediagit_core.Bytes.{bytes_eq, bytes_eq→eq, bytes_eq_refl, listed, listed-append}
use mediagit_core.Object.{Oid}
use mediagit_core.Lca.{Commit, is_ancestor, get_all_ancestors, find_common_ancestors}
use mediagit_core.Lca.Walk.{
  Closed, weight, first, second, commons, map_commons, is_ancestor_loop-walk,
  get_all_ancestors_loop-walk, common_loop-walk,
}
use mediagit_core.Lca.Reach.{Reach, here, Outcome, walk_lem}

decided :
    (read : Oid → Option Commit) (ancestor descendant : Oid) (r : Bool × List Oid)
    → Outcome read (λ c. bytes_eq c ancestor) descendant r
    → (r.0 ≡ true) ↔ Reach read descendant ancestor
decided read ancestor descendant (true, visited) (c, stopped, reached) =
    (λ _. rw (bytes_eq→eq c ancestor stopped) at reached, λ _. refl)
decided read ancestor descendant (false, visited) (sound, complete) = (
  λ h. cc h,
  λ reached. let (_, missed) = complete ancestor reached in cc (missed, bytes_eq_refl ancestor),
)

visited_exact :
    (read : Oid → Option Commit) (start : Oid) (r : Bool × List Oid)
    → Outcome read (λ c. false) start r
    → (p : Oid) → (listed p r.1 ≡ true) ↔ Reach read start p
visited_exact read start (true, visited) (c, stopped, reached) p = cc stopped
visited_exact read start (false, visited) (sound, complete) p =
    (sound p, λ reached. (complete p reached).0)

listed-commons :
    (read : Oid → Option Commit) (ancestors1 visited : List Oid) (p : Oid)
    → listed p (commons read ancestors1 visited) ≡ (listed p visited && listed p ancestors1)
listed-commons read ancestors1 [] p = refl
listed-commons read ancestors1 (c ∷ visited) p = ground (
  arith,
  listed-commons read ancestors1 visited p,
  listed-append p (commons read ancestors1 visited) (c ∷ []),
  bytes_eq→eq p c,
)

module _ (read : Oid → Option Commit) (all : List Oid) (closed : Closed read all) (fuel : ℕ)
    (enough : 1 + weight read all [] < fuel) where
  -- In a finite history, and with fuel for every parent link and two steps more, `is_ancestor`
  -- ends and answers yes exactly for what is in the history of the descendant.
  pub is_ancestor_exact :
      (ancestor descendant : Oid)
      → listed descendant all ≡ true
      → (b : Bool) × (is_ancestor read fuel ancestor descendant ≡ some b)
        × ((b ≡ true) ↔ Reach read descendant ancestor)
  unfolding is_ancestor
  is_ancestor_exact ancestor descendant known = elim (Bool-cases (bytes_eq ancestor descendant)) [
    | inl e ↦ (true, rw e, (λ _. rw (bytes_eq→eq ancestor descendant e) here, λ _. refl))
    | inr e ↦
        let (r, w, outcome) =
          walk_lem read (λ c. bytes_eq c ancestor) descendant all closed known fuel enough in
        (
          r.0,
          rw e (is_ancestor_loop-walk read fuel ancestor (descendant ∷ []) [] ∙ ap (first read) w),
          decided read ancestor descendant r outcome,
        )
  ]

  pub get_all_ancestors_exact :
      (oid : Oid)
      → listed oid all ≡ true
      → (ancestors : List Oid) × (get_all_ancestors read fuel oid ≡ some ancestors)
        × ((p : Oid) → (listed p ancestors ≡ true) ↔ Reach read oid p)
  unfolding get_all_ancestors
  get_all_ancestors_exact oid known =
      let (r, w, outcome) = walk_lem read (λ c. false) oid all closed known fuel enough in
      (
        r.1,
        get_all_ancestors_loop-walk read fuel (oid ∷ []) [] ∙ ap (second read) w,
        visited_exact read oid r outcome,
      )

  -- In a finite history, and with fuel for every parent link and two steps more,
  -- `find_common_ancestors` ends with exactly the commits that are in both histories.
  pub find_common_ancestors_exact :
      (oid1 oid2 : Oid)
      → listed oid1 all ≡ true
      → listed oid2 all ≡ true
      → (common : List Oid) × (find_common_ancestors read fuel oid1 oid2 ≡ some common)
        × ((p : Oid) → (listed p common ≡ true) ↔ (Reach read oid1 p × Reach read oid2 p))
  unfolding find_common_ancestors
  find_common_ancestors_exact oid1 oid2 known1 known2 =
      let (ancestors1, e1, exact1) = get_all_ancestors_exact oid1 known1 in
      let (r, w, outcome) = walk_lem read (λ c. false) oid2 all closed known2 fuel enough in
      let exact2 = visited_exact read oid2 r outcome in
      let split = listed-commons read ancestors1 r.1 in
      (
        commons read ancestors1 r.1,
        rw e1 (
            common_loop-walk read fuel ancestors1 (oid2 ∷ []) []
            ∙ ap (λ x. map_commons read ancestors1 (second read x)) w),
        λ p. (
          λ h. (
            (exact1 p).0 (ground (arith, split p, h)),
            (exact2 p).0 (ground (arith, split p, h)),
          ),
          λ (a, b). rw (split p, (exact2 p).1 b, (exact1 p).1 a),
        ),
      )
