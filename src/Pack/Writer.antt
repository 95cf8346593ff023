-- ===== src/Pack/Writer.antt =====
-- pack.rs: `should_pack_object` and `PackWriter`.
pub mod Contents
pub mod Moved
use mediagit_core.Prelude.{ℕ, ◌+◌, Option, none, some, List, [], ◌∷◌, ◌++◌, map, length}
use mediagit_core.Bytes.{to_le, as_u32}
use mediagit_core.Object.{ObjectType, blob, to_u8, Oid}
use mediagit_core.BTreeMap.{insert, insert_all}
use mediagit_core.BTreeMap.Order.{bytes_ord}
use mediagit_core.Pack.{delta_magic, new_header, header_to_bytes}
use mediagit_core.Pack.Index.{PackIndex, index_to_bytes}

pub record PackObjectEntry : Type 0 where
  pub oid : Oid
  pub object_type : ObjectType
  pub offset : ℕ
  pub size : ℕ
  pub base_oid : Option Oid

pub record PackWriter : Type 0 where
  pub bytes : List ℕ
  pub index : PackIndex
  pub entries : List PackObjectEntry

abbrev pub new_writer : PackWriter
new_writer = record { bytes = []; index = []; entries = [] }

-- One byte for the type, four for the size, and the object.
unfoldable pub object_bytes : ObjectType → List ℕ → List ℕ
unfolding to_u8
object_bytes t object = to_u8 t ∷ (to_le 4 (as_u32 (length object)) ++ object)

-- `size + 5` is a sum of `u32`s, which wraps in a release build.
unfoldable pub add_object : Oid → ObjectType → List ℕ → PackWriter → PackWriter × ℕ
unfolding object_bytes
add_object oid t object w =
    let offset = length w.bytes in
    let size = as_u32 (length object) in
    let entry : PackObjectEntry = record {
      oid = oid;
      object_type = t;
      offset = offset;
      size = size;
      base_oid = none;
    } in
    (
      record {
        bytes = w.bytes ++ object_bytes t object;
        index = insert oid (offset, as_u32 (size + 5)) w.index;
        entries = w.entries ++ (entry ∷ []);
      },
      offset,
    )

unfoldable pub add_delta_object : Oid → Oid → List ℕ → PackWriter → PackWriter × ℕ
add_delta_object oid base_oid delta w =
    let offset = length w.bytes in
    let size = as_u32 (length delta) in
    let entry : PackObjectEntry = record {
      oid = oid;
      object_type = blob;
      offset = offset;
      size = size;
      base_oid = some base_oid;
    } in
    (
      record {
        bytes = w.bytes ++ (delta_magic ++ (base_oid ++ delta));
        index = insert oid (offset, size) w.index;
        entries = w.entries ++ (entry ∷ []);
      },
      offset,
    )

-- The offset of an index entry, moved behind the header.
abbrev pub moved : ℕ → Oid × (ℕ × ℕ) → Oid × (ℕ × ℕ)
moved start (oid, (offset, size)) = (oid, (start + offset, size))

module _ (sha256 : List ℕ → List ℕ) where
  -- The checksum is that of all that stands before it.
  abbrev pub with_checksum : List ℕ → List ℕ
  with_checksum content = content ++ sha256 content

  unfoldable pub finalize : PackWriter → List ℕ
  finalize w =
      let header = header_to_bytes (new_header (as_u32 (length w.entries))) in
      let objects = header ++ w.bytes in
      let adjusted = insert_all [] (map (moved (length header)) w.index) in
      with_checksum (objects ++ (index_to_bytes adjusted ++ to_le 4 (as_u32 (length objects))))
