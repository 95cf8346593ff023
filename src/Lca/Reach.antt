-- ===== src/Lca/Reach.antt =====
-- lca.rs: the loop visits exactly the history of the commit that it starts from.
use mediagit_core.Prelude.{
  ℕ, zero, suc, ◌+◌, ◌<◌, ◌≡◌, refl, sym, inl, inr, Bool, true, false, ◌||◌, ◌⊎◌, Option, none,
  some, List, [], ◌∷◌, ◌++◌, arith, Bool-cases,
}
use mediagit_core.Bytes.{bytes_eq, bytes_eq→eq, bytes_eq_refl, listed, listed-append}
use mediagit_core.Object.{Oid}
use mediagit_core.Lca.{Commit, parents_of, unvisited}
use mediagit_core.Lca.Walk.{walk, walk_total, weight, Closed, listed-unvisited, pushed_cases}

-- `c` is in the history of `start`: by parents, from the start on, which counts too.
pub data Reach (read : Oid → Option Commit) (start : Oid) : Oid → Type 0 where
  here : Reach read start start
  parent :
      {c p : Oid} → Reach read start c → listed p (parents_of read c) ≡ true → Reach read start p

module _ (read : Oid → Option Commit) (stop : Oid → Bool) (start : Oid) where
  -- The loop's invariant.
  pub record Inv (queue visited : List Oid) : Type 0 where
    pub queue_reached : (p : Oid) → listed p queue ≡ true → Reach read start p
    pub visited_reached : (p : Oid) → listed p visited ≡ true → Reach read start p
    pub no_stop : (p : Oid) → listed p visited ≡ true → stop p ≡ false
    pub start_known : (listed start visited || listed start queue) ≡ true
    pub closed :
        (c p : Oid)
        → listed c visited ≡ true
        → listed p (parents_of read c) ≡ true
        → (listed p visited || listed p queue) ≡ true

  -- What the loop's end tells.
  abbrev pub Outcome : Bool × List Oid → Type 0
  Outcome (true, visited) = (c : Oid) × (stop c ≡ true) × Reach read start c
  Outcome (false, visited) =
      ((p : Oid) → listed p visited ≡ true → Reach read start p)
      × ((p : Oid) → Reach read start p → (listed p visited ≡ true) × (stop p ≡ false))

  all_visited :
      (visited : List Oid)
      → Inv [] visited
      → (p : Oid) → Reach read start p
      → listed p visited ≡ true
  all_visited visited inv p here = ground (arith, inv.start_known)
  all_visited visited inv p (parent {c} r h) =
      ground (arith, inv.closed c p (all_visited visited inv c r) h)

  Inv-skip :
      (current : Oid) (queue visited : List Oid)
      → listed current visited ≡ true
      → Inv (current ∷ queue) visited
      → Inv queue visited
  Inv-skip current queue visited seen inv = record {
    queue_reached = λ p h. inv.queue_reached p (ground (arith, h));
    visited_reached = inv.visited_reached;
    no_stop = inv.no_stop;
    start_known = ground (arith, inv.start_known, bytes_eq→eq start current, seen);
    closed = λ c p h k. ground (arith, inv.closed c p h k, bytes_eq→eq p current, seen);
  }

  Inv-expand :
      (current : Oid) (queue visited : List Oid)
      → stop current ≡ false
      → Inv (current ∷ queue) visited
      → Inv
          (queue ++ unvisited read (current ∷ visited) (parents_of read current))
          (current ∷ visited)
  Inv-expand current queue visited go inv =
      let ps = parents_of read current in
      let seen = current ∷ visited in
      let fresh = unvisited read seen ps in
      let reached = inv.queue_reached current (rw (bytes_eq_refl current)) in
      record {
        queue_reached = λ p h. elim (pushed_cases read current p queue seen h) [
          | inl old ↦ inv.queue_reached p (ground (arith, old))
          | inr k ↦ parent reached k
        ];
        visited_reached = λ p h. elim (Bool-cases (bytes_eq p current)) [
          | inl e ↦ rw (bytes_eq→eq p current e) reached
          | inr e ↦ inv.visited_reached p (ground (arith, e, h))
        ];
        no_stop = λ p h. elim (Bool-cases (bytes_eq p current)) [
          | inl e ↦ rw (bytes_eq→eq p current e) go
          | inr e ↦ inv.no_stop p (ground (arith, e, h))
        ];
        start_known = ground (arith, inv.start_known, listed-append start queue fresh);
        closed = λ c p h k. elim (Bool-cases (bytes_eq c current)) [
          | inl e ↦
              let k' : listed p ps ≡ true = rw (bytes_eq→eq c current e) at k in
              ground (arith, listed-append p queue fresh, listed-unvisited read seen ps p, k')
          | inr e ↦
              let old : listed c visited ≡ true = ground (arith, e, h) in
              ground (arith, listed-append p queue fresh, inv.closed c p old k)
        ];
      }

  abbrev OutcomeOf : Option (Bool × List Oid) → Type 0
  OutcomeOf none = Unit
  OutcomeOf (some r) = Outcome r

  walk_outcome :
      (fuel : ℕ) (queue visited : List Oid)
      → Inv queue visited
      → OutcomeOf (walk read stop fuel queue visited)
  unfolding walk
  walk_outcome zero queue visited inv = tt
  walk_outcome (suc fuel) [] visited inv =
      (inv.visited_reached, λ p r. let v = all_visited visited inv p r in (v, inv.no_stop p v))
  walk_outcome (suc fuel) (current ∷ queue) visited inv = elim (Bool-cases (stop current)) [
    | inl e ↦ rw e (current, e, inv.queue_reached current (rw (bytes_eq_refl current)))
    | inr e ↦ rw e (elim (Bool-cases (listed current visited)) [
      | inl seen ↦
          rw seen (walk_outcome fuel queue visited (Inv-skip current queue visited seen inv))
      | inr unseen ↦ rw unseen (
          walk_outcome fuel (queue ++ unvisited read (current ∷ visited) (parents_of read current))
            (current ∷ visited) (Inv-expand current queue visited e inv))
    ])
  ]

  Inv-start : Inv (start ∷ []) []
  Inv-start = record {
    queue_reached = λ p h. elim (Bool-cases (bytes_eq p start)) [
      | inl e ↦ rw (bytes_eq→eq p start e) here
      | inr e ↦ absurd (ground (arith, e, h))
    ];
    visited_reached = λ p h. cc h;
    no_stop = λ p h. cc h;
    start_known = rw (bytes_eq_refl start);
    closed = λ c p h k. cc h;
  }

  -- From a start within a closed history, with fuel for it, the loop ends and its end is right.
  pub walk_lem :
      (all : List Oid)
      → Closed read all
      → listed start all ≡ true
      → (fuel : ℕ) → 1 + weight read all [] < fuel
      → (r : Bool × List Oid) × (walk read stop fuel (start ∷ []) [] ≡ some r) × Outcome r
  walk_lem all closed known fuel enough =
      let only : (p : Oid) → listed p (start ∷ []) ≡ true → listed p all ≡ true =
        λ p h. ground (arith, bytes_eq→eq p start, known, h) in
      let (r, e) = walk_total read stop all closed fuel (start ∷ []) [] only (omega arith) in
      (r, e, rw e at (walk_outcome fuel (start ∷ []) [] Inv-start))

-- Along a rank that falls from every commit to its parents, the history has no cycle.
module _ (read : Oid → Option Commit) (rank : Oid → ℕ)
    (falls : (c p : Oid) → listed p (parents_of read c) ≡ true → rank p < rank c) where
  pub Reach-rank : (a b : Oid) → Reach read a b → (a ≡ b) ⊎ (rank b < rank a)
  Reach-rank a b here = inl refl
  Reach-rank a b (parent {c} r h) = elim (Reach-rank a c r) [
    | inl e ↦ inr (rw e (falls c b h))
    | inr lt ↦ inr (omega (arith, falls c b h))
  ]

  pub acyclic_of_rank : (a b : Oid) → Reach read a b → Reach read b a → a ≡ b
  acyclic_of_rank a b r s = elim (Reach-rank a b r) [
    | inl e ↦ e
    | inr lt ↦ elim (Reach-rank b a s) [ inl e ↦ sym e | inr gt ↦ absurd (omega arith) ]
  ]
