-- ===== src/Refs/Tests.antt =====
-- Runs of the database of references, and the theorems at concrete disks.
use mediagit_core.Prelude.{ℕ, ◌<◌, ◌≡◌, ◌↔◌, refl, false, some, [], ◌∷◌, ◌++◌, arith}
use mediagit_core.Result.{ok, err}
use mediagit_core.Bytes.{bytes_eq_ne}
use mediagit_core.Object.{Oid}
use mediagit_core.BTreeMap.{get, insert, remove}
use mediagit_core.BTreeMap.Order.{bytes_ord}
use mediagit_core.Refs.Hex.{from_hex}
use mediagit_core.Refs.{
  Text, new_direct, new_symbolic, not_found, circular, head, heads_prefix, symbolic_prefix,
  validate, serialize, deserialize, normalize_ref_name, namespace, branch_name, heads_word,
}
use mediagit_core.Refs.Database.{replace_file, write, read, resolve, resolve_within, update}
use mediagit_core.Refs.Stored.{to_commit, write_exact, write_loses}
use mediagit_core.Refs.Resolve.{Chain, resolve_exact, resolve_cycle}
use mediagit_core.Refs.Memory.{encode, texts, Disk, disk, disk-replaces}

-- Thirty-two bytes.
abbrev oid_7 : Oid
oid_7 =
    7 ∷ 7 ∷ 7 ∷ 7 ∷ 7 ∷ 7 ∷ 7 ∷ 7 ∷ 7 ∷ 7 ∷ 7 ∷ 7 ∷ 7 ∷ 7 ∷ 7 ∷ 7 ∷ 7 ∷ 7 ∷ 7 ∷ 7 ∷ 7 ∷ 7 ∷ 7 ∷ 7
    ∷ 7 ∷ 7 ∷ 7 ∷ 7 ∷ 7 ∷ 7 ∷ 7 ∷ 7 ∷ []

abbrev branch_x : Text
branch_x = heads_prefix ++ (b'x' ∷ [])

abbrev branch_x_tmp : Text
branch_x_tmp = branch_x ++ (b'.' ∷ b't' ∷ b'm' ∷ b'p' ∷ [])

-- HEAD on the branch `x`, and a branch `x.tmp`.
abbrev files : Disk
files =
    (head, symbolic_prefix ++ (branch_x ++ (b'\n' ∷ [])))
    ∷ (branch_x, encode oid_7 ++ (b'\n' ∷ []))
    ∷ (branch_x_tmp, encode oid_7 ++ (b'\n' ∷ []))
    ∷ []

-- HEAD that names itself.
abbrev looped : Disk
looped = (head, symbolic_prefix ++ (head ++ (b'\n' ∷ []))) ∷ []

files-head : read texts disk head files ≡ ok (new_symbolic head branch_x)
unfolding read get deserialize from_hex
files-head = refl

files-x : read texts disk branch_x files ≡ ok (new_direct branch_x oid_7)
unfolding read get deserialize from_hex
files-x = refl

looped-head : read texts disk head looped ≡ ok (new_symbolic head head)
unfolding read get deserialize from_hex
looped-head = refl

normalized : normalize_ref_name (b'x' ∷ []) ≡ branch_x
unfolding normalize_ref_name
normalized = refl

parts :
    (namespace (new_direct branch_x oid_7) ≡ some heads_word)
    × (branch_name (new_direct branch_x oid_7) ≡ b'x' ∷ [])
unfolding namespace branch_name
parts = (refl, refl)

write_exact_example :
    (s' : Disk) × (write texts disk (new_direct branch_x oid_7) files ≡ ok s')
    × (read texts disk branch_x s' ≡ ok (new_direct branch_x oid_7))
    × (read texts disk head s' ≡ read texts disk head files)
write_exact_example =
    write_exact texts disk (new_direct branch_x oid_7) head files
      (to_commit branch_x oid_7 (bytes_eq_ne branch_x [] refl) refl (omega arith))
      (λ bytes. disk-replaces branch_x bytes files) (bytes_eq_ne _ _ refl) (bytes_eq_ne _ _ refl)

written : (s' : Disk) × (write texts disk (new_direct branch_x oid_7) files ≡ ok s')
unfolding write validate serialize replace_file get insert remove
written = (_, refl)

write_loses_example : read texts disk branch_x_tmp written.0 ≡ err (not_found branch_x_tmp)
write_loses_example =
    write_loses texts disk (new_direct branch_x oid_7) branch_x_tmp files written.0 written.1 refl
      (bytes_eq_ne _ _ refl)

resolve_exact_example :
    (resolve texts disk head files ≡ ok oid_7)
    ↔ ((n : ℕ) × (n < 10) × Chain texts disk files n head oid_7)
resolve_exact_example = resolve_exact texts disk files head oid_7

resolve_cycle_example : resolve texts disk head looped ≡ err circular
resolve_cycle_example =
    resolve_cycle texts disk looped 0 head
      (head, (new_symbolic head head, looped-head, refl, refl), refl)

resolved : resolve texts disk head files ≡ ok oid_7
unfolding resolve resolve_within read get deserialize from_hex
resolved = refl

updated : (s' : Disk) × (update texts disk branch_x oid_7 false files ≡ ok s')
unfolding update write validate serialize replace_file read get deserialize from_hex insert remove
updated = (_, refl)
