-- ===== src/Lca.antt =====
-- crates/mediagit-versioning/src/lca.rs: searches in the history of commits. `read` stands for
-- `Commit::read` on the object database; a commit that cannot be read has no parents here, as in
-- the source. A `HashSet` of visited commits is the list of them, the last one first. The loops
-- take fuel, and `none` means that it ran out.
pub mod Walk
pub mod Reach
pub mod Ancestors
pub mod Lowest
pub mod Base
pub mod Exists
pub mod Tests
use mediagit_core.Prelude.{
  ℕ, zero, suc, ◌+◌, ◌<◌, Bool, true, false, not, Option, none, some, List, [], ◌∷◌, ◌++◌, length,
  ltb, if◌then◌else◌,
}
use mediagit_core.Bytes.{bytes_eq, listed}
use mediagit_core.Object.{Oid}

-- The fields of a commit that this component and the merge read.
pub record Commit : Type 0 where
  pub tree : Oid
  pub parents : List Oid

infixl 5 ◌>>=◌
abbrev pub ◌>>=◌ {ℓ κ} : {A : Type ℓ} {B : Type κ} → Option A → (A → Option B) → Option B
none >>= f = none
some a >>= f = f a

-- What `find_merge_base` returns: the bases, or its error.
pub data Bases : Type 0 where
  found : List Oid → Bases
  no_common_ancestor : Bases

module _ (read : Oid → Option Commit) where
  abbrev pub parents_of : Oid → List Oid
  parents_of oid = elim (read oid) [ none ↦ [] | some commit ↦ commit.parents ]

  -- The parents that are pushed: those that are not visited.
  unfoldable pub unvisited : List Oid → List Oid → List Oid
  unvisited visited [] = []
  unvisited visited (p ∷ ps) =
      let rest = unvisited visited ps in if listed p visited then rest else p ∷ rest

  unfoldable pub is_ancestor_loop : ℕ → Oid → List Oid → List Oid → Option Bool
  is_ancestor_loop zero ancestor queue visited = none
  is_ancestor_loop (suc fuel) ancestor [] visited = some false
  is_ancestor_loop (suc fuel) ancestor (current ∷ queue) visited =
      let skip = is_ancestor_loop fuel ancestor queue visited in
      let seen = current ∷ visited in
      let go = is_ancestor_loop fuel ancestor (queue ++ unvisited seen (parents_of current)) seen in
      if bytes_eq current ancestor then some true else if listed current visited then skip else go

  unfoldable pub is_ancestor : ℕ → Oid → Oid → Option Bool
  unfolding is_ancestor_loop
  is_ancestor fuel ancestor descendant =
      let found = is_ancestor_loop fuel ancestor (descendant ∷ []) [] in
      if bytes_eq ancestor descendant then some true else found

  unfoldable pub get_all_ancestors_loop : ℕ → List Oid → List Oid → Option (List Oid)
  get_all_ancestors_loop zero queue ancestors = none
  get_all_ancestors_loop (suc fuel) [] ancestors = some ancestors
  get_all_ancestors_loop (suc fuel) (current ∷ queue) ancestors =
      let skip = get_all_ancestors_loop fuel queue ancestors in
      let seen = current ∷ ancestors in
      let go = get_all_ancestors_loop fuel (queue ++ unvisited seen (parents_of current)) seen in
      if listed current ancestors then skip else go

  unfoldable pub get_all_ancestors : ℕ → Oid → Option (List Oid)
  unfolding get_all_ancestors_loop
  get_all_ancestors fuel oid = get_all_ancestors_loop fuel (oid ∷ []) []

  abbrev pub push_common : List Oid → Oid → List Oid → List Oid
  push_common ancestors1 current common =
      if listed current ancestors1 then common ++ (current ∷ []) else common

  unfoldable pub common_loop : ℕ → List Oid → List Oid → List Oid → List Oid → Option (List Oid)
  common_loop zero ancestors1 queue visited common = none
  common_loop (suc fuel) ancestors1 [] visited common = some common
  common_loop (suc fuel) ancestors1 (current ∷ queue) visited common =
      let skip = common_loop fuel ancestors1 queue visited common in
      let seen = current ∷ visited in
      let go =
        common_loop fuel ancestors1 (queue ++ unvisited seen (parents_of current)) seen
          (push_common ancestors1 current common) in
      if listed current visited then skip else go

  unfoldable pub find_common_ancestors : ℕ → Oid → Oid → Option (List Oid)
  unfolding common_loop
  find_common_ancestors fuel oid1 oid2 = do
    ancestors1 ← get_all_ancestors fuel oid1
    common_loop fuel ancestors1 (oid2 ∷ []) [] []

  -- The inner loop of `filter_to_lca`: whether no other commit of the list has the candidate as an
  -- ancestor.
  unfoldable pub is_lowest : ℕ → Oid → List Oid → Option Bool
  is_lowest fuel candidate [] = some true
  is_lowest fuel candidate (other ∷ others) =
      let rest = is_lowest fuel candidate others in
      if bytes_eq candidate other
      then rest
      else (do above ← is_ancestor fuel candidate other; if above then some false else rest)

  unfoldable pub lowest_loop : ℕ → List Oid → List Oid → Option (List Oid)
  lowest_loop fuel common [] = some []
  lowest_loop fuel common (candidate ∷ candidates) =
      let rest = lowest_loop fuel common candidates in
      do
        lowest ← is_lowest fuel candidate common
        lca ← rest
        some (if lowest then candidate ∷ lca else lca)

  unfoldable pub filter_to_lca : ℕ → List Oid → Option (List Oid)
  unfolding lowest_loop is_lowest
  filter_to_lca fuel common =
      let all = lowest_loop fuel common common in if ltb 1 (length common) then all else some common

  abbrev pub bases_among : ℕ → List Oid → Option Bases
  bases_among fuel [] = some no_common_ancestor
  bases_among fuel (c ∷ cs) = do lca ← filter_to_lca fuel (c ∷ cs); some (found lca)

  unfoldable pub find_merge_base : ℕ → Oid → Oid → Option Bases
  find_merge_base fuel oid1 oid2 = if bytes_eq oid1 oid2 then some (found (oid1 ∷ [])) else (do
    forward ← is_ancestor fuel oid1 oid2
    if forward then some (found (oid1 ∷ [])) else do
      backward ← is_ancestor fuel oid2 oid1
      if backward
          then some (found (oid2 ∷ []))
          else do common ← find_common_ancestors fuel oid1 oid2; bases_among fuel common)
