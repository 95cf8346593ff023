-- ===== src/Branch/Tests.antt =====
-- Runs of the branches, and the theorems at a concrete disk.
use mediagit_core.Prelude.{true, none, ◌≡◌, ◌≢◌, refl, false, some, [], ◌∷◌, ◌++◌, arith}
use mediagit_core.Result.{ok, err}
use mediagit_core.Bytes.{bytes_eq_ne}
use mediagit_core.Object.{Oid}
use mediagit_core.BTreeMap.{get, remove, contains_key}
use mediagit_core.BTreeMap.Order.{bytes_ord}
use mediagit_core.Refs.Hex.{from_hex}
use mediagit_core.Refs.{
  Text, new_direct, new_symbolic, not_found, head, symbolic_prefix, deserialize,
}
use mediagit_core.Refs.Database.{read, exists, delete}
use mediagit_core.Refs.Memory.{encode, texts, Disk, disk, disk-replaces, disk-removes}
use mediagit_core.Branch.{
  detach_head, heads, BranchInfo, validate_branch_name, current_branch, delete_branch, get_info,
  rename, switch_to, is_detached, head_commit,
}
use mediagit_core.Branch.Current.{
  detach_head_exact, delete_branch_safe, get_info_current, switch_to_exact,
}
use mediagit_core.Branch.Rename.{rename_current}

-- Thirty-two bytes.
abbrev oid_7 : Oid
oid_7 =
    7 ∷ 7 ∷ 7 ∷ 7 ∷ 7 ∷ 7 ∷ 7 ∷ 7 ∷ 7 ∷ 7 ∷ 7 ∷ 7 ∷ 7 ∷ 7 ∷ 7 ∷ 7 ∷ 7 ∷ 7 ∷ 7 ∷ 7 ∷ 7 ∷ 7 ∷ 7 ∷ 7
    ∷ 7 ∷ 7 ∷ 7 ∷ 7 ∷ 7 ∷ 7 ∷ 7 ∷ 7 ∷ []

abbrev x : Text
x = b'x' ∷ []

abbrev y : Text
y = b'y' ∷ []

abbrev z : Text
z = b'z' ∷ []

-- HEAD on the branch `x`, and a second branch.
abbrev files : Disk
files =
    (head, symbolic_prefix ++ (heads x ++ (b'\n' ∷ [])))
    ∷ (heads x, encode oid_7 ++ (b'\n' ∷ []))
    ∷ (heads y, encode oid_7 ++ (b'\n' ∷ []))
    ∷ []

files-head : read texts disk head files ≡ ok (new_symbolic head (heads x))
unfolding read get deserialize from_hex
files-head = refl

files-x : read texts disk (heads x) files ≡ ok (new_direct (heads x) oid_7)
unfolding read get deserialize from_hex
files-x = refl

files-y : read texts disk (heads y) files ≡ ok (new_direct (heads y) oid_7)
unfolding read get deserialize from_hex
files-y = refl

current_x : current_branch texts disk files ≡ some x
unfolding current_branch read get deserialize from_hex
current_x = refl

deleted_y : (s' : Disk) × (delete_branch texts disk y files ≡ ok s')
unfolding delete_branch exists contains_key delete read get deserialize from_hex remove
deleted_y = (_, refl)

info_x : (info : BranchInfo) × (get_info texts disk x files ≡ ok info)
unfolding get_info exists contains_key read get deserialize from_hex current_branch
info_x = (_, refl)

free_z : exists texts disk (heads z) files ≡ false
unfolding exists contains_key get
free_z = refl

valid_z : validate_branch_name z ≡ ok tt
unfolding validate_branch_name
valid_z = refl

delete_branch_safe_example :
    (current_branch texts disk files ≢ some y)
    × (current_branch texts disk deleted_y.0 ≡ current_branch texts disk files)
    × (read texts disk (heads y) deleted_y.0 ≡ err (not_found (heads y)))
delete_branch_safe_example =
    delete_branch_safe texts disk y files deleted_y.0 (bytes_eq_ne _ _ refl) deleted_y.1

get_info_current_example : info_x.0.is_current ≡ false
get_info_current_example = get_info_current texts disk x info_x.0 files current_x info_x.1

switch_to_exact_example :
    (s' : Disk) × (switch_to texts disk y files ≡ ok s')
    × (current_branch texts disk s' ≡ some y)
    × (is_detached texts disk s' ≡ false)
    × (head_commit texts disk s' ≡ ok oid_7)
switch_to_exact_example =
    switch_to_exact texts disk y oid_7 files (bytes_eq_ne _ _ refl) (bytes_eq_ne _ _ refl)
      (λ bytes. disk-replaces head bytes files) refl refl
      (new_direct (heads y) oid_7, files-y, refl, refl)

rename_current_example :
    (s' : Disk) × (rename texts disk x z files ≡ ok s')
    × (current_branch texts disk s' ≡ some z)
    × (head_commit texts disk s' ≡ ok oid_7)
    × (read texts disk (heads x) s' ≡ err (not_found (heads x)))
rename_current_example =
    rename_current texts disk x z oid_7 files (λ name bytes t. disk-replaces name bytes t)
      (λ bytes t h. disk-removes (heads x) bytes t h)
      ((bytes_eq_ne _ _ refl), (bytes_eq_ne _ _ refl))
      ((bytes_eq_ne _ _ refl), (bytes_eq_ne _ _ refl))
      ((bytes_eq_ne _ _ refl), (bytes_eq_ne _ _ refl))
      ((bytes_eq_ne _ _ refl), (bytes_eq_ne _ _ refl)) valid_z refl refl refl (omega arith) free_z
      files-x files-head

detach_head_exact_example :
    (s' : Disk) × (detach_head texts disk oid_7 files
      ≡ ok (record { commit_oid = oid_7; previous_branch = current_branch texts disk files }, s'))
    × (current_branch texts disk s' ≡ none)
    × (is_detached texts disk s' ≡ true)
    × (head_commit texts disk s' ≡ ok oid_7)
    × (read texts disk (heads x) s' ≡ read texts disk (heads x) files)
detach_head_exact_example =
    detach_head_exact texts disk x oid_7 files (bytes_eq_ne _ _ refl) (bytes_eq_ne _ _ refl)
      (λ bytes. disk-replaces head bytes files) refl (omega arith)
