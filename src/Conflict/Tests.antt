-- ===== src/Conflict/Tests.antt =====
-- The conflict theorems at concrete trees.
use mediagit_core.Prelude.{ℕ, ◌≡◌, refl, true, not, List, [], ◌∷◌, All, map, arith}
use mediagit_core.Result.{ok}
use mediagit_core.Bytes.{bytes_eq_refl}
use mediagit_core.BTreeMap.{get}
use mediagit_core.BTreeMap.Order.{bytes_ord, bytes_cmp_eq}
use mediagit_core.Tree.{Name, Tree, TreeEntry, regular}
use mediagit_core.Conflict.{
  Conflict, categorize, add_add, modify_modify, from_entry, detect_conflicts, can_auto_merge,
}
use mediagit_core.Conflict.Paths.{present, listed, Enumerates}
use mediagit_core.Conflict.Mirror.{mirror, on_ok, detect_conflicts-mirror}
use mediagit_core.Conflict.Sides.{Carries, detect_conflicts-Carries}
use mediagit_core.Conflict.Laws.{reported, detect_conflicts_exact}

abbrev pub name_a : Name
name_a = 0x61 ∷ []

abbrev pub name_b : Name
name_b = 0x62 ∷ []

abbrev pub file : Name → ℕ → TreeEntry
file name content = record { name = name; mode = regular; oid = content ∷ [] }

abbrev pub base : Tree
base = (name_a, file name_a 1) ∷ (name_b, file name_b 1) ∷ []

abbrev pub ours : Tree
ours = (name_a, file name_a 2) ∷ (name_b, file name_b 1) ∷ []

abbrev pub theirs : Tree
theirs = (name_a, file name_a 3) ∷ []

abbrev pub both : List Name
both = name_b ∷ name_a ∷ []

pub both_covers : (p : Name) → present base ours theirs p ≡ true → listed p both ≡ true
unfolding get
both_covers p h = ground (
  arith,
  bytes_cmp_eq p name_a,
  bytes_cmp_eq p name_b,
  h,
  bytes_eq_refl name_a,
  bytes_eq_refl name_b,
)

abbrev pub both_Enumerates : Enumerates base ours theirs both
unfolding get
both_Enumerates = record { sound = (refl, (refl, tt)); covers = both_covers }

detect_conflicts_exact_example :
    (cs : List Conflict) × (detect_conflicts both base ours theirs ≡ ok cs)
    × ((p : Name) → reported p cs ≡ not (can_auto_merge p base ours theirs))
detect_conflicts_exact_example = detect_conflicts_exact base ours theirs both both_Enumerates

run_detect :
    detect_conflicts both base ours theirs
    ≡ ok (
        modify_modify name_a
          (from_entry (file name_a 1))
          (from_entry (file name_a 2))
          (from_entry (file name_a 3))
        ∷ [])
unfolding detect_conflicts categorize get
run_detect = refl

detect_conflicts-mirror_example :
    detect_conflicts both base theirs ours
    ≡ on_ok (map mirror) (detect_conflicts both base ours theirs)
detect_conflicts-mirror_example = detect_conflicts-mirror both base ours theirs

abbrev found_two : List Conflict
found_two =
    modify_modify name_a (from_entry (file name_a 1)) (from_entry (file name_a 2))
      (from_entry (file name_a 3))
    ∷ add_add name_b (from_entry (file name_b 1)) (from_entry (file name_b 2))
    ∷ []

detect_conflicts-Carries_example :
    (cs : List Conflict) × (detect_conflicts both base ours theirs ≡ ok cs)
    × All (Carries base ours theirs) cs
detect_conflicts-Carries_example = detect_conflicts-Carries base ours theirs both both_Enumerates
