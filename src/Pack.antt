-- ===== src/Pack.antt =====
-- crates/mediagit-versioning/src/pack.rs: the errors and the header of a pack file. The children
-- have its index, the choice of objects, the writer and the reader.
pub mod Index
pub mod Writer
pub mod Reader
pub mod Segment
pub mod Header
pub mod Open
pub mod Listing
pub mod Selection
pub mod RoundTrip
mod Tests
use mediagit_core.Prelude.{ℕ, ◌+◌, List, [], ◌∷◌, ◌++◌, length, take, drop, ltb, if◌then◌else◌}
use mediagit_core.Result.{Result, ok, err}
use mediagit_core.Bytes.{to_le, from_le, bytes_eq}
use mediagit_core.Delta.Varint.{DeltaError}

pub data PackError : Type 0 where
  header_too_short invalid_signature index_too_short index_data_too_short : PackError
  pack_too_short checksum_failed invalid_index_offset : PackError
  delta_chain_too_deep object_not_found object_corrupted invalid_object_type : PackError
  object_too_small delta_too_small : PackError
  delta_parse_failed delta_apply_failed : DeltaError → PackError

-- b"PACK", and b"DELTA" before a delta object.
abbrev pub pack_signature : List ℕ
pack_signature = 0x50 ∷ 0x41 ∷ 0x43 ∷ 0x4B ∷ []

abbrev pub delta_magic : List ℕ
delta_magic = 0x44 ∷ 0x45 ∷ 0x4C ∷ 0x54 ∷ 0x41 ∷ []

abbrev pub pack_version : ℕ
pack_version = 2

abbrev pub checksum_size : ℕ
checksum_size = 32

pub record PackHeader : Type 0 where
  pub version : ℕ
  pub object_count : ℕ

abbrev pub new_header : ℕ → PackHeader
new_header object_count = record { version = pack_version; object_count = object_count }

unfoldable pub header_to_bytes : PackHeader → List ℕ
unfolding to_le
header_to_bytes h = pack_signature ++ (to_le 4 h.version ++ to_le 4 h.object_count)

-- A version other than the current one is only logged.
unfoldable pub header_from_bytes : List ℕ → Result PackError PackHeader
header_from_bytes bytes =
    if ltb (length bytes) 12
    then err header_too_short
    else if bytes_eq (take 4 bytes) pack_signature
    then ok (record {
      version = from_le (take 4 (drop 4 bytes));
      object_count = from_le (take 4 (drop 8 bytes));
    })
    else err invalid_signature
