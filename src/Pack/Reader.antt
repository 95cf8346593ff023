-- ===== src/Pack/Reader.antt =====
-- pack.rs: `PackReader`.
pub mod Objects
use mediagit_core.Prelude.{
  ℕ, zero, suc, ◌+◌, ◌-◌, ◌%◌, ◌^◌, Bool, false, Option, none, some, List, length, get_elem?, take,
  drop, leb, if◌then◌else◌,
}
use mediagit_core.Result.{Result, ok, err, panic, ◌>>=◌, ◌>>◌, ensure, map_err, slice}
use mediagit_core.Bytes.{from_le, bytes_eq}
use mediagit_core.Object.{ObjectType, from_u8, Oid}
use mediagit_core.Delta.{Zstd, from_bytes, apply}
use mediagit_core.BTreeMap.{get, keys}
use mediagit_core.BTreeMap.Order.{bytes_ord}
use mediagit_core.Pack.{
  PackError, pack_too_short, checksum_failed, invalid_index_offset, delta_chain_too_deep,
  object_not_found, object_corrupted, invalid_object_type, object_too_small, delta_too_small,
  delta_parse_failed, delta_apply_failed, delta_magic, checksum_size, header_from_bytes,
}
use mediagit_core.Pack.Index.{PackIndex, index_from_bytes}

pub record PackReader : Type 0 where
  pub bytes : List ℕ
  pub index : PackIndex
  pub object_data_end : ℕ

abbrev pub list_objects : PackReader → List Oid
list_objects r = keys r.index

-- A sum of `usize`s, which wraps in a release build.
abbrev pub add64 : ℕ → ℕ → ℕ
add64 a b = (a + b) % 2 ^ 64

-- `data[i]`.
abbrev pub byte_at : ℕ → List ℕ → Result PackError ℕ
byte_at i bytes = elim (get_elem? bytes i) [ none ↦ panic | some b ↦ ok b ]

module _ (sha256 : List ℕ → List ℕ) where
  unfoldable pub new_reader : List ℕ → Result PackError PackReader
  new_reader bytes = do
    ensure (leb (12 + checksum_size + 4) (length bytes)) pack_too_short
    header ← header_from_bytes (take 12 bytes)
    let checksum_offset = length bytes - checksum_size
    ensure (bytes_eq (sha256 (take checksum_offset bytes)) (drop checksum_offset bytes))
        checksum_failed
    let index_offset_pos = length bytes - checksum_size - 4
    let index_offset = from_le (take 4 (drop index_offset_pos bytes))
    ensure (leb 12 index_offset) invalid_index_offset
    index_bytes ← slice index_offset index_offset_pos bytes
    index ← index_from_bytes index_bytes
    ok (record { bytes = bytes; index = index; object_data_end = index_offset })

-- Whether the bytes at `offset` begin with the delta magic, in an object that could hold it.
unfoldable pub is_delta : List ℕ → ℕ → ℕ → Result PackError Bool
is_delta bytes offset total_size =
    if leb 5 total_size
    then (do head ← slice offset (add64 offset 5) bytes; ok (bytes_eq head delta_magic))
    else ok false

abbrev pub known_type : Option ObjectType → Result PackError ObjectType
known_type none = err invalid_object_type
known_type (some t) = ok t

unfoldable pub read_regular : List ℕ → ℕ → ℕ → Result PackError (ObjectType × List ℕ)
read_regular bytes offset total_size = do
  type_byte ← byte_at offset bytes
  t ← known_type (from_u8 type_byte)
  ensure (leb 5 total_size) object_too_small
  object ← slice (add64 offset 5) (add64 (add64 offset 5) (total_size - 5)) bytes
  ok (t, object)

abbrev pub located : Option (ℕ × ℕ) → Result PackError (ℕ × ℕ)
located none = err object_not_found
located (some place) = ok place

module _ (z : Zstd) where
  -- `read_base` reads the base object, one level deeper.
  unfoldable pub read_delta_object :
      (Oid → Result PackError (ObjectType × List ℕ))
      → List ℕ
      → ℕ
      → ℕ
      → Result PackError (ObjectType × List ℕ)
  read_delta_object read_base bytes offset total_size = do
    ensure (leb 37 total_size) delta_too_small
    base_oid ← slice (add64 offset 5) (add64 (add64 offset 5) 32) bytes
    delta_bytes ← slice (add64 (add64 offset 5) 32) (add64 offset total_size) bytes
    (base_type, base) ← read_base base_oid
    delta ← map_err delta_parse_failed (from_bytes delta_bytes)
    object ← map_err delta_apply_failed (apply z base delta)
    ok (base_type, object)

  abbrev pub max_delta_chain_depth : ℕ
  max_delta_chain_depth = 10

  -- `depth` is `max_delta_chain_depth + 1 - levels`: no level is left at a depth above the limit.
  unfoldable pub get_object_at : ℕ → PackReader → Oid → Result PackError (ObjectType × List ℕ)
  get_object_at zero r oid = err delta_chain_too_deep
  get_object_at (suc levels) r oid = do
    (offset, total_size) ← located (get oid r.index)
    ensure (leb (add64 offset total_size) (length r.bytes)) object_corrupted
    delta ← is_delta r.bytes offset total_size
    if delta
        then read_delta_object (get_object_at levels r) r.bytes offset total_size
        else read_regular r.bytes offset total_size

  unfoldable pub get_object_with_type : PackReader → Oid → Result PackError (ObjectType × List ℕ)
  unfolding get_object_at
  get_object_with_type r oid = get_object_at 11 r oid

  unfoldable pub get_object : PackReader → Oid → Result PackError (List ℕ)
  unfolding get_object_with_type
  get_object r oid = do (t, object) ← get_object_with_type r oid; ok object
