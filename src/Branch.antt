-- ===== src/Branch.antt =====
-- crates/mediagit-versioning/src/branch.rs: `BranchManager`, which keeps branches, tags and HEAD
-- in the database of references.
pub mod Current
pub mod Rename
mod Tests
use mediagit_core.Prelude.{
  ℕ, Bool, true, false, not, ◌&&◌, ◌||◌, Option, none, some, List, [], ◌∷◌, ◌++◌, ◌==◌,
  if◌then◌else◌,
}
use mediagit_core.Result.{Result, ok, err, panic, ◌>>=◌, ◌>>◌, ensure}
use mediagit_core.Bytes.{bytes_eq}
use mediagit_core.Object.{Oid}
use mediagit_core.Refs.Hex.{Texts}
use mediagit_core.Refs.Disk.{FileSystem}
use mediagit_core.Refs.{
  Text, RefType, direct, symbolic, Ref, new_direct, new_symbolic, RefError, branch_exists,
  no_branch, current_branch_kept, tag_exists, no_tag, bad_name, direct_without_oid, head,
  heads_prefix, tags_prefix, strip_prefix, is_some, is_text, is_empty, ok_or,
}
use mediagit_core.Refs.Database.{
  named, is_direct, write, read, exists, delete, resolve, update, update_symbolic,
}

abbrev pub heads : Text → Text
heads name = heads_prefix ++ name

abbrev pub tags : Text → Text
tags name = tags_prefix ++ name

-- "refs/heads/main".
abbrev pub main_ref : Text
main_ref = heads (b'm' ∷ b'a' ∷ b'i' ∷ b'n' ∷ [])

-- `starts_with`, `ends_with` and `contains`.
abbrev pub starts_with : Text → Text → Bool
starts_with text part = is_some (strip_prefix part text)

abbrev pub last_is : Text → ℕ → Bool
last_is [] c = false
last_is (x ∷ []) c = x == c
last_is (x ∷ y ∷ xs) c = last_is (y ∷ xs) c

abbrev pub contains : Text → Text → Bool
contains [] part = starts_with [] part
contains (x ∷ xs) part = starts_with (x ∷ xs) part || contains xs part

abbrev pub starts_badly : Text → Bool
starts_badly name = starts_with name (b'-' ∷ []) || starts_with name (b'.' ∷ [])

unfoldable pub validate_branch_name : Text → Result RefError (Unit {0})
validate_branch_name name = do
  ensure (not (is_empty name)) (bad_name name)
  ensure (not (starts_badly name)) (bad_name name)
  ensure (not (last_is name b'.')) (bad_name name)
  ensure
      (not (
        contains name (b'.' ∷ b'.' ∷ [])
        || (contains name (b'/' ∷ b'/' ∷ []) || contains name (b'\\' ∷ []))))
      (bad_name name)

unfoldable pub validate_tag_name : Text → Result RefError (Unit {0})
validate_tag_name name = do
  ensure (not (is_empty name)) (bad_name name)
  ensure (not (starts_badly name)) (bad_name name)

pub record BranchInfo : Type 0 where
  pub name : Text
  pub ref_path : Text
  pub oid : Oid
  pub is_current : Bool

pub record DetachedHead : Type 0 where
  pub commit_oid : Oid
  pub previous_branch : Option Text

abbrev pub on_branch : RefType → Option Text → Option Text
on_branch direct target = none
on_branch symbolic none = none
on_branch symbolic (some target) = strip_prefix heads_prefix target

-- Whether HEAD was read as a symbolic reference to the name.
abbrev pub head_is : Result RefError Ref → Text → Bool
head_is (ok h) name = not (is_direct h.ref_type) && is_text h.target name
head_is (err e) name = false
head_is panic name = false

module _ {S P : Type 0} (texts : Texts) (fs : FileSystem S P) where
  unfoldable pub create : Text → Oid → S → Result RefError S
  create branch_name commit_oid s = do
    validate_branch_name branch_name
    ensure (not (exists texts fs (heads branch_name) s)) (branch_exists branch_name)
    write texts fs (new_direct (heads branch_name) commit_oid) s

  unfoldable pub delete_branch : Text → S → Result RefError S
  delete_branch branch_name s = do
    ensure (exists texts fs (heads branch_name) s) (no_branch branch_name)
    ensure (not (head_is (read texts fs head s) (heads branch_name)))
        (current_branch_kept branch_name)
    delete texts fs (heads branch_name) s

  abbrev pub current_of : Result RefError Ref → Option Text
  current_of (ok h) = on_branch h.ref_type h.target
  current_of (err e) = none
  current_of panic = none

  -- It never fails.
  unfoldable pub current_branch : S → Option Text
  current_branch s = current_of (read texts fs head s)

  -- The full path is compared with the current branch, which is a short name.
  unfoldable pub get_info : Text → S → Result RefError BranchInfo
  unfolding current_branch
  get_info branch_name s = do
    ensure (exists texts fs (heads branch_name) s) (no_branch branch_name)
    r ← read texts fs (heads branch_name) s
    oid ← ok_or direct_without_oid r.oid
    ok (record {
      name = branch_name;
      ref_path = heads branch_name;
      oid = oid;
      is_current = is_text (current_branch s) (heads branch_name);
    })

  abbrev pub exists_branch : Text → S → Bool
  exists_branch branch_name s = exists texts fs (heads branch_name) s

  -- HEAD follows a branch that is renamed.
  abbrev pub follow : Bool → Text → S → Result RefError S
  follow true new_ref s = update_symbolic texts fs head new_ref s
  follow false new_ref s = ok s

  unfoldable pub rename : Text → Text → S → Result RefError S
  rename old_name new_name s = do
    validate_branch_name new_name
    ensure (exists texts fs (heads old_name) s) (no_branch old_name)
    ensure (not (exists texts fs (heads new_name) s)) (branch_exists new_name)
    r ← read texts fs (heads old_name) s
    t ← write texts fs (named (heads new_name) r) s
    u ← delete texts fs (heads old_name) t
    follow (head_is (read texts fs head u) (heads old_name)) (heads new_name) u

  unfoldable pub switch_to : Text → S → Result RefError S
  switch_to branch_name s = do
    ensure (exists texts fs (heads branch_name) s) (no_branch branch_name)
    update_symbolic texts fs head (heads branch_name) s

  unfoldable pub detach_head : Oid → S → Result RefError (DetachedHead × S)
  unfolding current_branch
  detach_head commit_oid s = do
    t ← write texts fs (new_direct head commit_oid) s
    ok (record { commit_oid = commit_oid; previous_branch = current_branch s }, t)

  abbrev pub direct_of : Result RefError Ref → Bool
  direct_of (ok h) = is_direct h.ref_type
  direct_of (err e) = false
  direct_of panic = false

  unfoldable pub is_detached : S → Bool
  is_detached s = direct_of (read texts fs head s)

  unfoldable pub head_commit : S → Result RefError Oid
  head_commit s = resolve texts fs head s

  unfoldable pub update_to : Text → Oid → Bool → S → Result RefError S
  update_to branch_name new_oid force s = do
    ensure (exists texts fs (heads branch_name) s) (no_branch branch_name)
    update texts fs (heads branch_name) new_oid force s

  unfoldable pub create_tag : Text → Oid → S → Result RefError S
  create_tag tag_name commit_oid s = do
    validate_tag_name tag_name
    ensure (not (exists texts fs (tags tag_name) s)) (tag_exists tag_name)
    write texts fs (new_direct (tags tag_name) commit_oid) s

  unfoldable pub delete_tag : Text → S → Result RefError S
  delete_tag tag_name s = do
    ensure (exists texts fs (tags tag_name) s) (no_tag tag_name)
    delete texts fs (tags tag_name) s

  unfoldable pub initialize : Option Oid → S → Result RefError S
  initialize none s = write texts fs (new_symbolic head main_ref) s
  initialize (some commit_oid) s = do
    t ← write texts fs (new_direct main_ref commit_oid) s
    write texts fs (new_symbolic head main_ref) t
