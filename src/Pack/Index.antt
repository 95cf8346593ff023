-- ===== src/Pack/Index.antt =====
-- pack.rs: `PackIndex`, the map from an object to its offset and size, and its bytes.
pub mod Codec
use mediagit_core.Prelude.{
  ℕ, zero, suc, ◌+◌, ◌*◌, List, [], ◌∷◌, ◌++◌, length, take, drop, ltb, if◌then◌else◌,
}
use mediagit_core.Result.{Result, ok, err}
use mediagit_core.Bytes.{to_le, from_le, as_u32}
use mediagit_core.Object.{Oid}
use mediagit_core.BTreeMap.{BTreeMap, insert}
use mediagit_core.BTreeMap.Order.{bytes_ord}
use mediagit_core.Pack.{PackError, index_too_short, index_data_too_short}

-- The offset and the size of each object.
abbrev pub PackIndex : Type 0
PackIndex = BTreeMap Oid (ℕ × ℕ)

unfoldable pub entries_to_bytes : PackIndex → List ℕ
entries_to_bytes [] = []
entries_to_bytes ((oid, (offset, size)) ∷ m) =
    oid ++ (to_le 8 offset ++ (to_le 4 size ++ entries_to_bytes m))

unfoldable pub index_to_bytes : PackIndex → List ℕ
unfolding entries_to_bytes
index_to_bytes index = to_le 4 (as_u32 (length index)) ++ entries_to_bytes index

-- The list is what `pos` has not passed. The caller has checked that it holds `count` entries.
unfoldable pub read_entries : ℕ → List ℕ → PackIndex → PackIndex
read_entries zero bytes entries = entries
read_entries (suc count) bytes entries =
    let entry : ℕ × ℕ =
      (from_le (take 8 (drop 32 bytes)), from_le (take 4 (drop 8 (drop 32 bytes)))) in
    read_entries count (drop 4 (drop 8 (drop 32 bytes))) (insert (take 32 bytes) entry entries)

unfoldable pub index_from_bytes : List ℕ → Result PackError PackIndex
unfolding read_entries
index_from_bytes bytes =
    if ltb (length bytes) 4
    then err index_too_short
    else (let count = from_le (take 4 bytes) in
        if ltb (length bytes) (4 + count * (32 + 8 + 4))
        then err index_data_too_short
        else ok (read_entries count (drop 4 bytes) []))
