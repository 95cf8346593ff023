-- ===== src/Lca/Walk.antt =====
-- lca.rs: the breadth-first loop that the three searches share, and how much fuel it takes.
use mediagit_core.Prelude.{
  ℕ, zero, suc, ◌+◌, ◌≤◌, ◌<◌, ◌≡◌, refl, inl, inr, Bool, true, false, not, ◌&&◌, Option, none,
  some, List, [], ◌∷◌, ◌++◌, length, length-append, arith, Bool-cases, ◌⊎◌, if◌then◌else◌,
}
use mediagit_core.Bytes.{bytes_eq, bytes_eq→eq, bytes_eq_refl, listed, listed-append}
use mediagit_core.Object.{Oid}
use mediagit_core.Lca.{
  Commit, parents_of, unvisited, is_ancestor_loop, get_all_ancestors_loop, push_common, common_loop,
}

module _ (read : Oid → Option Commit) where
  -- Stops at a commit that passes the test; returns whether it did, and the visited commits.
  unfoldable pub walk : (Oid → Bool) → ℕ → List Oid → List Oid → Option (Bool × List Oid)
  walk stop zero queue visited = none
  walk stop (suc fuel) [] visited = some (false, visited)
  walk stop (suc fuel) (current ∷ queue) visited =
      let skip = walk stop fuel queue visited in
      let seen = current ∷ visited in
      let go = walk stop fuel (queue ++ unvisited read seen (parents_of read current)) seen in
      if stop current then some (true, visited) else if listed current visited then skip else go

  abbrev pub first : Option (Bool × List Oid) → Option Bool
  first none = none
  first (some (b, v)) = some b

  abbrev pub second : Option (Bool × List Oid) → Option (List Oid)
  second none = none
  second (some (b, v)) = some v

  pub is_ancestor_loop-walk :
      (fuel : ℕ) (ancestor : Oid) (queue visited : List Oid)
      → is_ancestor_loop read fuel ancestor queue visited
        ≡ first (walk (λ c. bytes_eq c ancestor) fuel queue visited)
  unfolding is_ancestor_loop walk
  is_ancestor_loop-walk zero ancestor queue visited = refl
  is_ancestor_loop-walk (suc fuel) ancestor [] visited = refl
  is_ancestor_loop-walk (suc fuel) ancestor (current ∷ queue) visited =
      let seen = current ∷ visited in
      ground (
        arith,
        is_ancestor_loop-walk fuel ancestor queue visited,
        is_ancestor_loop-walk fuel ancestor (queue ++ unvisited read seen (parents_of read current))
            seen,
      )

  pub get_all_ancestors_loop-walk :
      (fuel : ℕ) (queue visited : List Oid)
      → get_all_ancestors_loop read fuel queue visited
        ≡ second (walk (λ c. false) fuel queue visited)
  unfolding get_all_ancestors_loop walk
  get_all_ancestors_loop-walk zero queue visited = refl
  get_all_ancestors_loop-walk (suc fuel) [] visited = refl
  get_all_ancestors_loop-walk (suc fuel) (current ∷ queue) visited =
      let seen = current ∷ visited in
      ground (
        arith,
        get_all_ancestors_loop-walk fuel queue visited,
        get_all_ancestors_loop-walk fuel (queue ++ unvisited read seen (parents_of read current))
            seen,
      )

  -- The visited commits that are among the others, in the order of the visit.
  abbrev pub commons : List Oid → List Oid → List Oid
  commons ancestors1 [] = []
  commons ancestors1 (c ∷ visited) = push_common read ancestors1 c (commons ancestors1 visited)

  abbrev pub map_commons : List Oid → Option (List Oid) → Option (List Oid)
  map_commons ancestors1 none = none
  map_commons ancestors1 (some v) = some (commons ancestors1 v)

  pub common_loop-walk :
      (fuel : ℕ) (ancestors1 queue visited : List Oid)
      → common_loop read fuel ancestors1 queue visited (commons ancestors1 visited)
        ≡ map_commons ancestors1 (second (walk (λ c. false) fuel queue visited))
  unfolding common_loop walk
  common_loop-walk zero ancestors1 queue visited = refl
  common_loop-walk (suc fuel) ancestors1 [] visited = refl
  common_loop-walk (suc fuel) ancestors1 (current ∷ queue) visited =
      let seen = current ∷ visited in
      ground (
        arith,
        common_loop-walk fuel ancestors1 queue visited,
        common_loop-walk fuel ancestors1 (queue ++ unvisited read seen (parents_of read current))
            seen,
      )

  pub listed-unvisited :
      (visited ps : List Oid) (p : Oid)
      → listed p (unvisited read visited ps) ≡ (listed p ps && not (listed p visited))
  unfolding unvisited
  listed-unvisited visited [] p = refl
  listed-unvisited visited (q ∷ ps) p =
      ground (arith, listed-unvisited visited ps p, bytes_eq→eq p q)

  length-unvisited : (visited ps : List Oid) → length (unvisited read visited ps) ≤ length ps
  unfolding unvisited
  length-unvisited visited [] = omega arith
  length-unvisited visited (q ∷ ps) = ground (arith, length-unvisited visited ps)

  -- How many parents can still be pushed, in a history within `all`.
  abbrev pub weight : List Oid → List Oid → ℕ
  weight [] visited = 0
  weight (u ∷ us) visited =
      (if listed u visited then 0 else length (parents_of read u)) + weight us visited

  weight_mono : (all visited : List Oid) (c : Oid) → weight all (c ∷ visited) ≤ weight all visited
  weight_mono [] visited c = omega arith
  weight_mono (u ∷ us) visited c = ground (arith, weight_mono us visited c)

  weight_drop :
      (all visited : List Oid) (c : Oid)
      → listed c all ≡ true
      → listed c visited ≡ false
      → weight all (c ∷ visited) + length (parents_of read c) ≤ weight all visited
  weight_drop [] visited c h k = cc
  weight_drop (u ∷ us) visited c h k = elim (Bool-cases (bytes_eq c u)) [
    | inl e ↦ rw (← bytes_eq→eq c u e, k, bytes_eq_refl c) (omega (arith, weight_mono us visited c))
    | inr e ↦ ground (arith, weight_drop us visited c, h, e)
  ]

  -- `all` has the parents of its commits.
  abbrev pub Closed : List Oid → Type 0
  Closed all =
      (c p : Oid) → listed c all ≡ true → listed p (parents_of read c) ≡ true → listed p all ≡ true

  -- What stands in the queue after a commit was expanded: the rest, and unvisited parents.
  pub pushed_cases :
      (current p : Oid) (queue visited : List Oid)
      → listed p (queue ++ unvisited read visited (parents_of read current)) ≡ true
      → (listed p queue ≡ true) ⊎ (listed p (parents_of read current) ≡ true)
  pushed_cases current p queue visited h = ground (
    arith,
    listed-append p queue (unvisited read visited (parents_of read current)),
    listed-unvisited visited (parents_of read current) p,
    h,
  )

  -- With more fuel than commits in the queue and parents left to push, the loop ends by itself.
  pub walk_total :
      (stop : Oid → Bool) (all : List Oid)
      → Closed all
      → (fuel : ℕ) (queue visited : List Oid)
      → ((p : Oid) → listed p queue ≡ true → listed p all ≡ true)
      → length queue + weight all visited < fuel
      → (r : Bool × List Oid) × (walk stop fuel queue visited ≡ some r)
  unfolding walk
  walk_total stop all closed zero queue visited within enough = absurd (omega arith)
  walk_total stop all closed (suc fuel) [] visited within enough = ((false, visited), refl)
  walk_total stop all closed (suc fuel) (current ∷ queue) visited within enough =
      elim (Bool-cases (stop current)) [
        | inl e ↦ ((true, visited), rw e)
        | inr e ↦ rw e (elim (Bool-cases (listed current visited)) [
          | inl seen ↦ rw seen (
              walk_total stop all closed fuel queue visited (λ p h. within p (ground (arith, h)))
                (omega arith))
          | inr unseen ↦
              let seen = current ∷ visited in
              let here = within current (rw (bytes_eq_refl current)) in
              rw unseen (
                walk_total stop all closed fuel
                  (queue ++ unvisited read seen (parents_of read current)) seen
                  (λ p h. elim (pushed_cases current p queue seen h) [
                    | inl old ↦ within p (ground (arith, old))
                    | inr parent ↦ closed current p here parent
                  ])
                  (omega (
                    arith,
                    length-append queue (unvisited read seen (parents_of read current)),
                    length-unvisited seen (parents_of read current),
                    weight_drop all visited current here unseen,
                  )))
        ])
      ]
