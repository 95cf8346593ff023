-- ===== src/Revision/Tests.antt =====
-- Runs of the revisions, and the theorem at a concrete disk and history.
use mediagit_core.Prelude.{
  ℕ, ◌-◌, ◌<◌, ◌≡◌, ◌↔◌, refl, Option, none, some, List, [], ◌∷◌, ◌++◌, leb, ◌&&◌, if◌then◌else◌,
}
use mediagit_core.Result.{Result, ok, err}
use mediagit_core.Bytes.{bytes_eq}
use mediagit_core.Object.{Oid}
use mediagit_core.BTreeMap.{get}
use mediagit_core.BTreeMap.Order.{bytes_ord}
use mediagit_core.Refs.Hex.{from_hex}
use mediagit_core.Refs.{Text, head, symbolic_prefix, heads_prefix, deserialize}
use mediagit_core.Refs.Database.{read, resolve, resolve_within}
use mediagit_core.Refs.Resolve.{Chain}
use mediagit_core.Refs.Memory.{encode, texts, Disk, disk}
use mediagit_core.Revision.{
  RevisionError, no_parents, zero_count, parse_parent_notation, walk_parents, resolve_base,
  resolve_revision,
}
use mediagit_core.Revision.Parents.{FirstParents, resolve_revision_exact}

-- Thirty-two bytes.
abbrev oid_of : ℕ → Oid
oid_of b =
    b ∷ b ∷ b ∷ b ∷ b ∷ b ∷ b ∷ b ∷ b ∷ b ∷ b ∷ b ∷ b ∷ b ∷ b ∷ b ∷ b ∷ b ∷ b ∷ b ∷ b ∷ b ∷ b ∷ b
    ∷ b ∷ b ∷ b ∷ b ∷ b ∷ b ∷ b ∷ b ∷ []

abbrev branch_x : Text
branch_x = heads_prefix ++ (b'x' ∷ [])

abbrev files : Disk
files =
    (head, symbolic_prefix ++ (branch_x ++ (b'\n' ∷ [])))
    ∷ (branch_x, encode (oid_of 7) ++ (b'\n' ∷ []))
    ∷ []

-- One digit.
abbrev parse_digit : Text → Option ℕ
parse_digit (c ∷ []) = if leb b'0' c && leb c b'9' then some (c - b'0') else none
parse_digit other = none

-- A merge, its first parent and the root.
abbrev history : Oid → Option (List Oid)
history oid =
    if bytes_eq oid (oid_of 7)
    then some (oid_of 6 ∷ oid_of 3 ∷ [])
    else if bytes_eq oid (oid_of 6)
    then some (oid_of 5 ∷ [])
    else some []

abbrev run : Text → Result RevisionError Oid
run revision = resolve_revision texts disk parse_digit history (λ t. none) revision files

head_2 : run (head ++ (b'~' ∷ b'2' ∷ [])) ≡ ok (oid_of 5)
unfolding resolve_revision parse_parent_notation resolve_base walk_parents resolve resolve_within
    read get deserialize from_hex
head_2 = refl

head_3 : run (head ++ (b'~' ∷ b'3' ∷ [])) ≡ err (no_parents (oid_of 5))
unfolding resolve_revision parse_parent_notation resolve_base walk_parents resolve resolve_within
    read get deserialize from_hex
head_3 = refl

head_0 : run (head ++ (b'~' ∷ b'0' ∷ [])) ≡ err zero_count
unfolding resolve_revision parse_parent_notation
head_0 = refl

name_x : run (b'x' ∷ []) ≡ ok (oid_of 7)
unfolding resolve_revision parse_parent_notation resolve resolve_within read get deserialize
    from_hex
name_x = refl

resolve_revision_exact_example : (run (head ++ (b'~' ∷ b'2' ∷ [])) ≡ ok (oid_of 5)) ↔ (
    (start : Oid) × ((k : ℕ) × (k < 10) × Chain texts disk files k head start)
    × FirstParents history 2 start (oid_of 5))
resolve_revision_exact_example =
    resolve_revision_exact texts disk parse_digit history (λ t. none) (b'2' ∷ []) 1 (oid_of 5) files
      ((λ e. cc e), tt) refl
