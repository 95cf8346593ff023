-- ===== src/Merge/Engine/Tests.antt =====
-- The merge of two commits on the fork of Lca/Tests, with the trees of Conflict/Tests.
use mediagit_core.Prelude.{
  [], ◌∷◌, true, ◌≤◌, ◌≡◌, refl, ap, false, inl, inr, Option, some, List, [], map, arith,
  if◌then◌else◌,
}
use mediagit_core.Result.{Result, ok, err}
use mediagit_core.Bytes.{bytes_eq, bytes_eq_refl, listed}
use mediagit_core.Object.{Oid}
use mediagit_core.Tree.{Name, Tree}
use mediagit_core.Conflict.Tests.{base, ours, theirs, both}
use mediagit_core.Lca.{parents_of}
use mediagit_core.Lca.Reach.{Reach, here, parent, Reach-rank}
use mediagit_core.Lca.Base.{IsBest}
use mediagit_core.Lca.Tests.{
  root, left, right, island, fork, commits, commits-Closed, rank, rank_falls,
}
use mediagit_core.Merge.{MergeError, recursive, take_theirs, lca_failed}
use mediagit_core.Merge.Engine.{with_tree, forwarded, merge, merge_over}
use mediagit_core.Merge.Engine.History.{merge_fast_forward, merge_over-IsBest, merge_unrelated}

abbrev read_tree : Oid → Option Tree
read_tree c = some (if bytes_eq c root then base else if bytes_eq c left then ours else theirs)

abbrev write : Tree → Result MergeError Oid
write t = ok (map (λ e. 1) t)

abbrev order : Tree → Tree → Tree → List Name
order b o t = both

-- A commit is in the history of another one only if its rank is lower.
not_below : (a b : Oid) → bytes_eq a b ≡ false → rank a ≤ rank b → Reach fork a b → ⊥
not_below a b differ h r = elim (Reach-rank fork rank rank_falls a b r) [
  | inl e ↦ cc (e, differ, bytes_eq_refl a)
  | inr lt ↦ omega arith
]

top_alone : (a p : Oid) → parents_of fork a ≡ [] → Reach fork a p → a ≡ p
top_alone a p e here = refl
top_alone a p e (parent {c} r h) =
    let k = top_alone a c e r in
    absurd (cc (h, ap (λ x. listed p (parents_of fork x)) k, ap (listed p) e))

merge_over-IsBest_example :
    (b : Oid) × IsBest fork left right b
    × (merge fork read_tree write order order 20 left right take_theirs
        ≡ merge_over fork read_tree write order order b left right take_theirs)
merge_over-IsBest_example =
    merge_over-IsBest fork commits commits-Closed 20 (omega arith) read_tree write order order
      take_theirs left right refl refl refl rank rank_falls
      (not_below left right refl (omega arith)) (not_below right left refl (omega arith)) root
      (parent here refl) (parent here refl)

merge_unrelated_example :
    merge fork read_tree write order order 20 island root recursive ≡ err lca_failed
merge_unrelated_example =
    merge_unrelated fork commits commits-Closed 20 (omega arith) read_tree write order order
      recursive island root refl refl refl rank rank_falls
      (not_below island root refl (omega arith)) (not_below root island refl (omega arith))
      (λ p r s. cc (top_alone island p refl r, top_alone root p refl s))

merge_fast_forward_example :
    merge fork read_tree write order order 20 root left recursive
    ≡ ok (
        with_tree recursive
          (forwarded root left true)
          (record { tree = left; parents = root ∷ [] }))
merge_fast_forward_example =
    merge_fast_forward fork commits commits-Closed 20 (omega arith) read_tree write order order
      recursive root left refl refl refl (record { tree = left; parents = root ∷ [] }) refl
      (not_below root left refl (omega arith)) (parent here refl)
