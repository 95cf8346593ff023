-- ===== src/Merge/Engine/History.antt =====
-- merge.rs: what `merge` does on each relation between the two commits' histories.
use mathlib.Core.Path.{subst}
use mediagit_core.Prelude.{
  ℕ, ◌+◌, ◌<◌, ◌≡◌, ◌↔◌, refl, ap, sym, ◌∙◌, inl, inr, Bool, true, false, Option, none, some, List,
  [], ◌∷◌, Bool-cases,
}
use mediagit_core.Result.{Result, ok, err, panic, ◌>>=◌}
use mediagit_core.Bytes.{bytes_eq, bytes_eq→eq, bytes_eq_refl, listed}
use mediagit_core.Object.{Oid}
use mediagit_core.Tree.{Name, Tree}
use mediagit_core.Lca.{Commit, parents_of, Bases, found, no_common_ancestor}
use mediagit_core.Lca.Walk.{Closed, weight}
use mediagit_core.Lca.Reach.{Reach, here, acyclic_of_rank}
use mediagit_core.Lca.Exists.{IsBest-exists}
use mediagit_core.Lca.Ancestors.{is_ancestor_exact}
use mediagit_core.Lca.Base.{IsBest, Gives, find_merge_base_exact}
use mediagit_core.Merge.{MergeError, lca_failed, MergeStrategy, MergeResult}
use mediagit_core.Merge.Engine.{
  can_fast_forward, check_fast_forward, read_commit, moved_to, merge_over, merge_diverged, merge,
  with_tree, forwarded, some_base,
}

moved_to-read :
    (read : Oid → Option Commit) (strategy : MergeStrategy) (from to : Oid) (b : Bool) (c : Commit)
    → read to ≡ some c
    → moved_to read strategy from to b ≡ ok (some (with_tree strategy (forwarded from to b) c))
unfolding moved_to read_commit
moved_to-read read strategy from to b c e = rw (moved_to, read_commit, e)

-- The base that the merge takes is a best common ancestor; without one, the search's error is kept.
abbrev Picks : (Oid → Option Commit) → Oid → Oid → Result MergeError Oid → Type 0
Picks read ours theirs (ok b) = IsBest read ours theirs b
Picks read ours theirs (err e) =
    (e ≡ lca_failed) × ((p : Oid) → Reach read ours p → Reach read theirs p → ⊥)
Picks read ours theirs panic = ⊥

some_base-Picks :
    (read : Oid → Option Commit) (ours theirs : Oid) (bases : Bases)
    → Gives read ours theirs bases
    → ((p : Oid) → Reach read ours p → Reach read theirs p → (b : Oid) × IsBest read ours theirs b)
    → Picks read ours theirs (some_base bases)
some_base-Picks read ours theirs no_common_ancestor gives best = (refl, gives)
some_base-Picks read ours theirs (found []) ((p, ra, rb), gives) best =
    let (b, is_best) = best p ra rb in cc ((gives b).1 is_best)
some_base-Picks read ours theirs (found (b ∷ bs)) (shared, gives) best =
    (gives b).0 (rw (bytes_eq_refl b) refl)

over-IsBest :
    (read : Oid → Option Commit) (ours theirs : Oid) (base : Result MergeError Oid)
    → Picks read ours theirs base
    → {m : Result MergeError MergeResult} {over : Oid → Result MergeError MergeResult}
    → m ≡ (base >>= over)
    → (p : Oid) → Reach read ours p
    → Reach read theirs p
    → (b : Oid) × IsBest read ours theirs b × (m ≡ over b)
over-IsBest read ours theirs (ok b) best e p ra rb = (b, best, e)
over-IsBest read ours theirs (err x) (_, disjoint) e p ra rb = absurd (disjoint p ra rb)
over-IsBest read ours theirs panic never e p ra rb = absurd never

fails :
    (read : Oid → Option Commit) (ours theirs : Oid) (base : Result MergeError Oid)
    → Picks read ours theirs base
    → ((p : Oid) → Reach read ours p → Reach read theirs p → ⊥)
    → (over : Oid → Result MergeError MergeResult) → (base >>= over) ≡ err lca_failed
fails read ours theirs (ok b) (ra, rb, _) disjoint over = absurd (disjoint b ra rb)
fails read ours theirs (err x) (is_lca, _) disjoint over = ap err is_lca
fails read ours theirs panic never disjoint over = absurd never

module _ (read : Oid → Option Commit) (all : List Oid) (closed : Closed read all) (fuel : ℕ)
    (enough : 1 + weight read all [] < fuel) where
  -- In a finite history, and with fuel for every parent link and two steps more,
  -- `can_fast_forward` ends and answers yes exactly where the old commit is in the history of the
  -- new one.
  pub can_fast_forward_exact :
      (from to : Oid)
      → listed to all ≡ true
      → (b : Bool) × (can_fast_forward read fuel from to ≡ ok b) × ((b ≡ true) ↔ Reach read to from)
  unfolding can_fast_forward
  can_fast_forward_exact from to known =
      let (b, e, iff) = is_ancestor_exact read all closed fuel enough from to known in
      elim (Bool-cases (bytes_eq from to)) [
        | inl same ↦ (
          true,
          rw same,
          (λ _. subst (Reach read to) (sym (bytes_eq→eq from to same)) here, λ _. refl),
        )
        | inr differ ↦ (b, rw (differ, e), iff)
      ]

  module _ (read_tree : Oid → Option Tree) (write : Tree → Result MergeError Oid)
      (detect_order build_order : Tree → Tree → Tree → List Name) (strategy : MergeStrategy)
      (ours theirs : Oid) (known1 : listed ours all ≡ true) (known2 : listed theirs all ≡ true)
      (differ : bytes_eq ours theirs ≡ false) where
    -- In a finite history, and with fuel for every parent link and two steps more, where their
    -- commit is in our history and is another one, `merge` keeps our tree and moves nothing.
    pub merge_up_to_date :
        (c : Commit)
        → read ours ≡ some c
        → Reach read ours theirs
        → merge read read_tree write detect_order build_order fuel ours theirs strategy
          ≡ ok (with_tree strategy (forwarded ours ours false) c)
    unfolding merge check_fast_forward
    merge_up_to_date c e reached =
        let (b, eb, iff) = is_ancestor_exact read all closed fuel enough theirs ours known1 in
        rw (differ, eb, iff.1 reached, moved_to-read read strategy ours ours false c e)

    -- In a finite history, and with fuel for every parent link and two steps more, where our
    -- commit is in their history and theirs is not in ours, `merge` takes their tree and reports a
    -- fast-forward from our commit to theirs.
    pub merge_fast_forward :
        (c : Commit)
        → read theirs ≡ some c
        → (Reach read ours theirs → ⊥)
        → Reach read theirs ours
        → merge read read_tree write detect_order build_order fuel ours theirs strategy
          ≡ ok (with_tree strategy (forwarded ours theirs true) c)
    unfolding merge check_fast_forward
    merge_fast_forward c e behind reached =
        let (b, eb, biff) = is_ancestor_exact read all closed fuel enough theirs ours known1 in
        let (f, ef, fiff) = is_ancestor_exact read all closed fuel enough ours theirs known2 in
        elim (Bool-cases b) [
          | inl y ↦ absurd (behind (biff.0 y))
          | inr n ↦
              rw (
                differ,
                eb,
                n,
                ef,
                fiff.1 reached,
                moved_to-read read strategy ours theirs true c e,
              )
        ]

    -- Without a relation, the check for a fast-forward finds nothing.
    pub no_fast_forward :
        (Reach read ours theirs → ⊥)
        → (Reach read theirs ours → ⊥)
        → check_fast_forward read fuel ours theirs strategy ≡ ok none
    unfolding check_fast_forward
    no_fast_forward behind ahead =
        let (b, eb, biff) = is_ancestor_exact read all closed fuel enough theirs ours known1 in
        let (f, ef, fiff) = is_ancestor_exact read all closed fuel enough ours theirs known2 in
        elim (Bool-cases b) [
          | inl y ↦ absurd (behind (biff.0 y))
          | inr n ↦ elim (Bool-cases f) [
            | inl y ↦ absurd (ahead (fiff.0 y))
            | inr m ↦ rw (eb, n, ef, m)
          ]
        ]

    module _ (rank : Oid → ℕ)
        (falls : (c p : Oid) → listed p (parents_of read c) ≡ true → rank p < rank c)
        (behind : Reach read ours theirs → ⊥) (ahead : Reach read theirs ours → ⊥) where
      base_of_merge :
          (base : Result MergeError Oid) × Picks read ours theirs base
          × (merge read read_tree write detect_order build_order fuel ours theirs strategy ≡ (
              base >>= λ b.
              merge_over read read_tree write detect_order build_order b ours theirs strategy))
      unfolding merge merge_diverged
      base_of_merge =
          let (bases, eb, gives) =
            find_merge_base_exact read all closed fuel enough (acyclic_of_rank read rank falls) ours
              theirs known1 known2 in
          (
            some_base bases,
            some_base-Picks read ours theirs bases gives
                (IsBest-exists read all closed fuel enough rank falls ours theirs known1 known2),
            rw (differ, no_fast_forward behind ahead, eb),
          )

      -- In a finite history whose ranks fall from commits to parents, and with fuel for every
      -- parent link and two steps more, where neither commit is in the other's history and the two
      -- histories share a commit, `merge` is the merge of the three trees over some best common
      -- ancestor.
      pub merge_over-IsBest :
          (p : Oid)
          → Reach read ours p
          → Reach read theirs p
          → (b : Oid) × IsBest read ours theirs b
            × (merge read read_tree write detect_order build_order fuel ours theirs strategy
                ≡ merge_over read read_tree write detect_order build_order b ours theirs strategy)
      merge_over-IsBest p ra rb =
          let (base, picks, e) = base_of_merge in over-IsBest read ours theirs base picks e p ra rb

      -- In a finite history whose ranks fall from commits to parents, and with fuel for every
      -- parent link and two steps more, where neither commit is in the other's history and the
      -- histories share no commit, `merge` fails with the error of the search for the merge base,
      -- whatever the strategy.
      pub merge_unrelated :
          ((p : Oid) → Reach read ours p → Reach read theirs p → ⊥)
          → merge read read_tree write detect_order build_order fuel ours theirs strategy
            ≡ err lca_failed
      merge_unrelated disjoint =
          let (base, picks, e) = base_of_merge in e ∙ fails read ours theirs base picks disjoint _
