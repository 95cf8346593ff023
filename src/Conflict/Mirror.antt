-- ===== src/Conflict/Mirror.antt =====
-- conflict.rs: the detection with the two sides exchanged, and the statistics.
use mediagit_core.Prelude.{
  ℕ, ◌+◌, ◌≡◌, refl, ◌∙◌, Option, none, some, List, [], ◌∷◌, map, length, arith,
}
use mediagit_core.Result.{Result, ok, err, panic, ◌>>=◌}
use mediagit_core.Bytes.{bytes_eq_comm}
use mediagit_core.BTreeMap.{get}
use mediagit_core.BTreeMap.Order.{bytes_ord}
use mediagit_core.Tree.{Name, TreeEntry, Tree}
use mediagit_core.Conflict.{
  Conflict, ConflictError, ConflictType, modify_modify_type, add_add_type, delete_modify_type,
  modify_delete_type, categorize, push_some, detect_conflicts, ConflictStats, bump, no_stats,
  stats_loop, conflict_stats,
}

abbrev pub mirror_type : ConflictType → ConflictType
mirror_type modify_modify_type = modify_modify_type
mirror_type add_add_type = add_add_type
mirror_type delete_modify_type = modify_delete_type
mirror_type modify_delete_type = delete_modify_type

abbrev pub mirror : Conflict → Conflict
mirror c = record {
  path = c.path;
  conflict_type = mirror_type c.conflict_type;
  base = c.base;
  ours = c.theirs;
  theirs = c.ours;
}

abbrev pub on_ok : {A B : Type 0} → (A → B) → Result ConflictError A → Result ConflictError B
on_ok f (ok a) = ok (f a)
on_ok f (err e) = err e
on_ok f panic = panic

abbrev mirror_some : Option Conflict → Option Conflict
mirror_some none = none
mirror_some (some c) = some (mirror c)

categorize_mirror :
    (path : Name) (b o t : Option TreeEntry)
    → categorize path b t o ≡ on_ok mirror_some (categorize path b o t)
unfolding categorize
categorize_mirror path (some b) (some o) (some t) = ground (arith, bytes_eq_comm o.oid t.oid)
categorize_mirror path none (some o) (some t) = ground (arith, bytes_eq_comm o.oid t.oid)
categorize_mirror path b o t = ground arith

push_mirror :
    (c : Result ConflictError (Option Conflict)) (cs : Result ConflictError (List Conflict))
    → (do x ← on_ok mirror_some c; xs ← on_ok (map mirror) cs; ok (push_some x xs))
      ≡ on_ok (map mirror) (do x ← c; xs ← cs; ok (push_some x xs))
push_mirror (ok none) (ok xs) = refl
push_mirror (ok (some x)) (ok xs) = refl
push_mirror (ok x) (err e) = refl
push_mirror (ok x) panic = refl
push_mirror (err e) cs = refl
push_mirror panic cs = refl

-- Exchanging the two sides exchanges them in every reported conflict, and turns a deletion by us
-- against their change into a change by us against their deletion; the order of the report and its
-- errors stay.
pub detect_conflicts-mirror :
    (paths : List Name) (base ours theirs : Tree)
    → detect_conflicts paths base theirs ours
      ≡ on_ok (map mirror) (detect_conflicts paths base ours theirs)
unfolding detect_conflicts
detect_conflicts-mirror [] base ours theirs = refl
detect_conflicts-mirror (path ∷ paths) base ours theirs =
    rw
      (
        categorize_mirror path (get path base) (get path ours) (get path theirs),
        detect_conflicts-mirror paths base ours theirs,
      )
      (push_mirror (categorize path (get path base) (get path ours) (get path theirs))
        (detect_conflicts paths base ours theirs))

abbrev pub counted : ConflictStats → ℕ
counted s = s.modify_modify_count + s.add_add_count + s.delete_modify_count + s.modify_delete_count

counted-bump : (t : ConflictType) (s : ConflictStats) → counted (bump t s) ≡ counted s + 1
counted-bump modify_modify_type s = omega arith
counted-bump add_add_type s = omega arith
counted-bump delete_modify_type s = omega arith
counted-bump modify_delete_type s = omega arith

counted_loop :
    (cs : List Conflict) (s : ConflictStats) → counted (stats_loop cs s) ≡ counted s + length cs
unfolding stats_loop
counted_loop [] s = omega arith
counted_loop (c ∷ cs) s =
    counted_loop cs (bump c.conflict_type s) ∙ omega (arith, counted-bump c.conflict_type s)

-- The four counts of the statistics add up to the total, which is the number of conflicts.
pub conflict_stats_total :
    (cs : List Conflict)
    → (counted (conflict_stats cs) ≡ (conflict_stats cs).total)
      × ((conflict_stats cs).total ≡ length cs)
unfolding conflict_stats
conflict_stats_total cs = (counted_loop cs no_stats ∙ omega arith, refl)
