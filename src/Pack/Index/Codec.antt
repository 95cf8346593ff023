-- ===== src/Pack/Index/Codec.antt =====
-- pack.rs: `PackIndex::from_bytes` against `PackIndex::to_bytes`.
use mediagit_core.Prelude.{
  ◌%◌, ◌∙◌, ℕ, suc, ◌+◌, ◌*◌, ◌^◌, ◌<◌, ◌≡◌, refl, ap, List, [], ◌∷◌, ◌++◌, All, length,
  length-append, take, drop, take_field, drop_field, arith, le→ltb,
}
use native.Mathlib.Nat.{mod-eq_of_lt}
use mediagit_core.Result.{ok}
use mediagit_core.Bytes.{to_le, from_le, length-to_le, from_le-to_le_4, from_le-to_le_8}
use mediagit_core.Object.{Oid, IsOid}
use mediagit_core.BTreeMap.{insert, insert_all}
use mediagit_core.BTreeMap.Order.{bytes_ord}
use mediagit_core.BTreeMap.Sorted.{IsSorted, insert_all-sorted}
use mediagit_core.Pack.Index.{
  PackIndex, entries_to_bytes, index_to_bytes, read_entries, index_from_bytes,
}

-- The identifier has its length, and the offset and the size fit a `u64` and a `u32`.
abbrev pub EntryFits : Oid × (ℕ × ℕ) → Type 0
EntryFits (oid, (offset, size)) = IsOid oid × (offset < 2 ^ 64) × (size < 2 ^ 32)

-- One round of `read_entries` on the bytes of an entry.
read_entry :
    (n : ℕ) (oid : Oid) (offset size : ℕ) (rest : List ℕ) (m : PackIndex)
    → EntryFits (oid, (offset, size))
    → read_entries (suc n) (oid ++ (to_le 8 offset ++ (to_le 4 size ++ rest))) m
      ≡ read_entries n rest (insert oid (offset, size) m)
unfolding read_entries
read_entry n oid offset size rest m (fit, fit_offset, fit_size) = rw (
  take_field 32 oid (to_le 8 offset ++ (to_le 4 size ++ rest)) fit,
  drop_field 32 oid (to_le 8 offset ++ (to_le 4 size ++ rest)) fit,
  take_field 8 (to_le 8 offset) (to_le 4 size ++ rest) (length-to_le 8 offset),
  drop_field 8 (to_le 8 offset) (to_le 4 size ++ rest) (length-to_le 8 offset),
  take_field 4 (to_le 4 size) rest (length-to_le 4 size),
  drop_field 4 (to_le 4 size) rest (length-to_le 4 size),
  from_le-to_le_8 offset fit_offset,
  from_le-to_le_4 size fit_size,
)

read_entries-entries_to_bytes :
    (m acc : PackIndex)
    → All EntryFits m
    → read_entries (length m) (entries_to_bytes m) acc ≡ insert_all acc m
unfolding entries_to_bytes insert_all
read_entries-entries_to_bytes [] acc h = unfold read_entries in refl
read_entries-entries_to_bytes ((oid, (offset, size)) ∷ m) acc (fit, fits) =
    rw (read_entry (length m) oid offset size (entries_to_bytes m) acc fit)
      (read_entries-entries_to_bytes m (insert oid (offset, size) acc) fits)

length-entries_to_bytes :
    (m : PackIndex) → All EntryFits m → length (entries_to_bytes m) ≡ length m * 44
unfolding entries_to_bytes
length-entries_to_bytes [] h = refl
length-entries_to_bytes ((oid, (offset, size)) ∷ m) (fit, fits) =
    rw
      (
        length-append oid (to_le 8 offset ++ (to_le 4 size ++ entries_to_bytes m)),
        length-append (to_le 8 offset) (to_le 4 size ++ entries_to_bytes m),
        length-append (to_le 4 size) (entries_to_bytes m),
      )
      (omega
        (arith, fit.0, length-to_le 8 offset, length-to_le 4 size, length-entries_to_bytes m fits))

pub length-index_to_bytes :
    (m : PackIndex) → All EntryFits m → length (index_to_bytes m) ≡ 4 + length m * 44
unfolding index_to_bytes
length-index_to_bytes m h =
    rw length-append
      (omega (arith, length-to_le 4 (length m % 2 ^ 32), length-entries_to_bytes m h))

count_field : (m : PackIndex) → length m < 2 ^ 32 → from_le (take 4 (index_to_bytes m)) ≡ length m
unfolding index_to_bytes
count_field m few =
    let count = length m % 2 ^ 32 in
    rw (take_field 4 (to_le 4 count) (entries_to_bytes m) (length-to_le 4 count))
      (from_le-to_le_4 count (omega arith) ∙ mod-eq_of_lt few)

entries_field : (m : PackIndex) → drop 4 (index_to_bytes m) ≡ entries_to_bytes m
unfolding index_to_bytes
entries_field m =
    let count = length m % 2 ^ 32 in
    drop_field 4 (to_le 4 count) (entries_to_bytes m) (length-to_le 4 count)

-- The entries of an index are put into the map in the order in which they stand.
pub index_from_bytes-entries :
    (m : PackIndex)
    → All EntryFits m
    → length m < 2 ^ 32
    → index_from_bytes (index_to_bytes m) ≡ ok (insert_all [] m)
unfolding index_from_bytes
index_from_bytes-entries m fits few =
    let size = length-index_to_bytes m fits in
    rw (
      le→ltb (length (index_to_bytes m)) 4 (omega arith),
      count_field m few,
      le→ltb (length (index_to_bytes m)) (4 + length m * 44) (omega arith),
      entries_field m,
      read_entries-entries_to_bytes m [] fits,
    )

-- An index in ascending order, of fewer than 2^32 entries that fit their fields, is read back from
-- its bytes.
pub index_from_bytes-index_to_bytes :
    (m : PackIndex)
    → IsSorted m
    → All EntryFits m
    → length m < 2 ^ 32
    → index_from_bytes (index_to_bytes m) ≡ ok m
index_from_bytes-index_to_bytes m sorted fits few =
    index_from_bytes-entries m fits few ∙ ap ok (insert_all-sorted [] m sorted)
