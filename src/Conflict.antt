-- ===== src/Conflict.antt =====
-- crates/mediagit-versioning/src/conflict.rs: conflicts of a three-way merge. The source goes over
-- a `HashSet` of paths; `paths` is the order in which that set yields them.
pub mod Paths
pub mod AllPaths
pub mod Laws
pub mod Sides
pub mod Mirror
pub mod Tests
use mediagit_core.Prelude.{
  ℕ, ◌+◌, Bool, true, false, not, ◌&&◌, Option, none, some, List, [], ◌∷◌, length, if◌then◌else◌,
}
use mediagit_core.Result.{Result, ok, err, ◌>>=◌}
use mediagit_core.Bytes.{bytes_eq}
use mediagit_core.Object.{Oid}
use mediagit_core.BTreeMap.{get}
use mediagit_core.BTreeMap.Order.{bytes_ord}
use mediagit_core.Tree.{Name, TreeEntry, Tree, as_u32}

pub data ConflictType : Type 0 where
  modify_modify_type add_add_type delete_modify_type modify_delete_type : ConflictType

pub record ConflictSide : Type 0 where
  pub oid : Oid
  pub mode : ℕ

unfoldable pub from_entry : TreeEntry → ConflictSide
from_entry e = record { oid = e.oid; mode = as_u32 e.mode }

pub record Conflict : Type 0 where
  pub path : Name
  pub conflict_type : ConflictType
  pub base : Option ConflictSide
  pub ours : Option ConflictSide
  pub theirs : Option ConflictSide

abbrev pub modify_modify : Name → ConflictSide → ConflictSide → ConflictSide → Conflict
modify_modify path b o t = record {
  path = path;
  conflict_type = modify_modify_type;
  base = some b;
  ours = some o;
  theirs = some t;
}

abbrev pub add_add : Name → ConflictSide → ConflictSide → Conflict
add_add path o t = record {
  path = path;
  conflict_type = add_add_type;
  base = none;
  ours = some o;
  theirs = some t;
}

abbrev pub delete_modify : Name → ConflictSide → ConflictSide → Conflict
delete_modify path b modifier = record {
  path = path;
  conflict_type = delete_modify_type;
  base = some b;
  ours = none;
  theirs = some modifier;
}

abbrev pub modify_delete : Name → ConflictSide → ConflictSide → Conflict
modify_delete path b modifier = record {
  path = path;
  conflict_type = modify_delete_type;
  base = some b;
  ours = some modifier;
  theirs = none;
}

pub data ConflictError : Type 0 where
  path_in_no_tree : ConflictError

-- The body of the loop of `detect_conflicts`, for one path and its three entries.
unfoldable pub categorize :
    Name
    → Option TreeEntry
    → Option TreeEntry
    → Option TreeEntry
    → Result ConflictError (Option Conflict)
categorize path (some b) (some o) (some t) =
    let ours_changed = not (bytes_eq b.oid o.oid) in
    let theirs_changed = not (bytes_eq b.oid t.oid) in
    if ours_changed && theirs_changed
    then (if bytes_eq o.oid t.oid
        then ok none
        else ok (some (modify_modify path (from_entry b) (from_entry o) (from_entry t))))
    else ok none
categorize path (some b) (some o) none =
    if not (bytes_eq b.oid o.oid)
    then ok (some (modify_delete path (from_entry b) (from_entry o)))
    else ok none
categorize path (some b) none (some t) =
    if not (bytes_eq b.oid t.oid)
    then ok (some (delete_modify path (from_entry b) (from_entry t)))
    else ok none
categorize path none (some o) (some t) =
    if bytes_eq o.oid t.oid then ok none else ok (some (add_add path (from_entry o) (from_entry t)))
categorize path (some b) none none = ok none
categorize path none (some o) none = ok none
categorize path none none (some t) = ok none
categorize path none none none = err path_in_no_tree

abbrev pub push_some : Option Conflict → List Conflict → List Conflict
push_some none cs = cs
push_some (some c) cs = c ∷ cs

unfoldable pub detect_conflicts :
    List Name → Tree → Tree → Tree → Result ConflictError (List Conflict)
detect_conflicts [] base ours theirs = ok []
detect_conflicts (path ∷ paths) base ours theirs =
    let rest = detect_conflicts paths base ours theirs in
    do
      c ← categorize path (get path base) (get path ours) (get path theirs)
      cs ← rest
      ok (push_some c cs)

unfoldable pub auto_mergeable : Option TreeEntry → Option TreeEntry → Option TreeEntry → Bool
auto_mergeable (some b) (some o) (some t) =
    let ours_changed = not (bytes_eq b.oid o.oid) in
    let theirs_changed = not (bytes_eq b.oid t.oid) in
    if ours_changed && theirs_changed then bytes_eq o.oid t.oid else true
auto_mergeable (some b) (some o) none = bytes_eq b.oid o.oid
auto_mergeable (some b) none (some t) = bytes_eq b.oid t.oid
auto_mergeable none (some o) (some t) = bytes_eq o.oid t.oid
auto_mergeable (some b) none none = true
auto_mergeable none (some o) none = true
auto_mergeable none none (some t) = true
auto_mergeable none none none = true

unfoldable pub can_auto_merge : Name → Tree → Tree → Tree → Bool
unfolding auto_mergeable
can_auto_merge path base ours theirs =
    auto_mergeable (get path base) (get path ours) (get path theirs)

pub record ConflictStats : Type 0 where
  pub total : ℕ
  pub modify_modify_count : ℕ
  pub add_add_count : ℕ
  pub delete_modify_count : ℕ
  pub modify_delete_count : ℕ

abbrev bump : ConflictType → ConflictStats → ConflictStats
bump modify_modify_type s = record s { modify_modify_count = s.modify_modify_count + 1 }
bump add_add_type s = record s { add_add_count = s.add_add_count + 1 }
bump delete_modify_type s = record s { delete_modify_count = s.delete_modify_count + 1 }
bump modify_delete_type s = record s { modify_delete_count = s.modify_delete_count + 1 }

stats_loop : List Conflict → ConflictStats → ConflictStats
stats_loop [] s = s
stats_loop (c ∷ cs) s = stats_loop cs (bump c.conflict_type s)

-- `ConflictStats::default()`.
abbrev pub no_stats : ConflictStats
no_stats = record {
  total = 0;
  modify_modify_count = 0;
  add_add_count = 0;
  delete_modify_count = 0;
  modify_delete_count = 0;
}

unfoldable pub conflict_stats : List Conflict → ConflictStats
unfolding stats_loop
conflict_stats cs = record (stats_loop cs no_stats) { total = length cs }
