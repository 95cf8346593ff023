-- ===== src/Pack/Tests.antt =====
-- Runs of the pack, and the theorems at concrete inputs.
use mediagit_core.Prelude.{
  ℕ, ◌+◌, ◌^◌, ◌<◌, ◌≡◌, refl, inr, some, none, List, [], ◌∷◌, map, length, All, arith,
}
use mediagit_core.Result.{ok, err, ◌>>=◌, map_err}
use mediagit_core.Bytes.{to_le, listed}
use mediagit_core.Object.{blob, tree, Oid, IsOid}
use mediagit_core.Tree.{Name}
use mediagit_core.Pack.Listing.{list_after, list_after_exact}
use mediagit_core.Pack.Selection.{should_pack_object, smart_add_object}
use mediagit_core.Pack.Selection.RoundTrip.{Request, request_all, read_requested, read_accepted}
use mediagit_core.BTreeMap.{get, insert, insert_all, contains_key}
use mediagit_core.BTreeMap.Order.{bytes_ord}
use mediagit_core.Delta.{from_bytes, apply}
use mediagit_core.Delta.Tests.{store}
use mediagit_core.Pack.{object_not_found, delta_too_small, delta_parse_failed, delta_apply_failed}
use mediagit_core.Pack.Index.{PackIndex}
use mediagit_core.Pack.Writer.{finalize, moved, new_writer, add_object, add_delta_object}
use mediagit_core.Pack.Writer.Contents.{
  PackOp, whole, patch, perform_all, contents, IsComplete, new_writer-IsValid,
}
use mediagit_core.Pack.Open.{new_reader-finalize}
use mediagit_core.Pack.Reader.{PackReader, new_reader}
use mediagit_core.Pack.RoundTrip.{
  read_after, perform_all-IsValid, read_whole, read_missing, read_patch_short, read_patch_cut,
}

-- Thirty-two bytes; the theorems ask no more of the checksum.
abbrev bytes_32 : ℕ → List ℕ
bytes_32 b =
    b ∷ b ∷ b ∷ b ∷ b ∷ b ∷ b ∷ b ∷ b ∷ b ∷ b ∷ b ∷ b ∷ b ∷ b ∷ b ∷ b ∷ b ∷ b ∷ b ∷ b ∷ b ∷ b ∷ b
    ∷ b ∷ b ∷ b ∷ b ∷ b ∷ b ∷ b ∷ b ∷ []

abbrev checksum : List ℕ → List ℕ
checksum bytes = bytes_32 (length bytes)

abbrev oid_1 : Oid
oid_1 = bytes_32 1

abbrev oid_2 : Oid
oid_2 = bytes_32 2

abbrev oid_3 : Oid
oid_3 = bytes_32 3

-- A delta of 42 bytes: the magic, the sizes 2 and 2, and a payload of 38 bytes.
abbrev delta_42 : List ℕ
delta_42 = 0x5A ∷ 0x44 ∷ 2 ∷ 2 ∷ 0x28 ∷ 7 ∷ 8 ∷ 9 ∷ 9 ∷ 9 ∷ bytes_32 9

abbrev history : List PackOp
history =
    whole oid_1 blob (10 ∷ 20 ∷ [])
    ∷ patch oid_2 oid_1 (1 ∷ 2 ∷ 3 ∷ 4 ∷ 5 ∷ 6 ∷ [])
    ∷ patch oid_3 oid_1 delta_42
    ∷ []

abbrev sum_32 : (b : List ℕ) → length (checksum b) ≡ 32
sum_32 b = refl

abbrev complete : All IsComplete history
complete = (refl, ((refl, refl), ((refl, refl), tt)))

history_small : 12 + length (perform_all history new_writer).bytes < 2 ^ 32
unfolding perform_all add_object add_delta_object to_le
history_small = omega arith

read_whole_example : read_after store checksum history oid_1 ≡ ok (blob, 10 ∷ 20 ∷ [])
unfolding insert_all insert get
read_whole_example =
    read_whole store checksum sum_32 history complete history_small oid_1 oid_1 blob (10 ∷ 20 ∷ [])
      refl

read_missing_example : read_after store checksum history (bytes_32 4) ≡ err object_not_found
unfolding insert_all insert get
read_missing_example =
    read_missing store checksum sum_32 history complete history_small (bytes_32 4) refl

read_patch_short_example : read_after store checksum history oid_2 ≡ err delta_too_small
unfolding insert_all insert get
read_patch_short_example =
    read_patch_short store checksum sum_32 history complete history_small oid_2 oid_2 oid_1
      (1 ∷ 2 ∷ 3 ∷ 4 ∷ 5 ∷ 6 ∷ []) refl (omega arith) refl

read_patch_cut_example : read_after store checksum history oid_3 ≡ (do
  d ← map_err delta_parse_failed (from_bytes (0x5A ∷ 0x44 ∷ 2 ∷ 2 ∷ 0x28 ∷ []))
  target ← map_err delta_apply_failed (apply store (10 ∷ 20 ∷ []) d)
  ok (blob, target))
unfolding insert_all insert get
read_patch_cut_example =
    read_patch_cut store checksum sum_32 history complete history_small oid_3 oid_3 oid_1 delta_42
      oid_1 blob (10 ∷ 20 ∷ []) refl (omega arith) refl refl

abbrev two_entries : PackIndex
two_entries = (oid_1, (12, 7)) ∷ (oid_2, (19, 6)) ∷ []

-- The same equation, for the check below.
opens_again :
    new_reader checksum (finalize checksum (perform_all history new_writer))
    ≡ ok (record {
      bytes = finalize checksum (perform_all history new_writer);
      index = map (moved 12) (perform_all history new_writer).index;
      object_data_end = 12 + length (perform_all history new_writer).bytes;
    })
opens_again =
    new_reader-finalize checksum (perform_all history new_writer) sum_32
      (perform_all-IsValid history new_writer complete new_writer-IsValid) history_small

abbrev file : List ℕ
file = finalize checksum (perform_all history new_writer)

abbrev file_reader : PackReader
file_reader = record {
  bytes = file;
  index = map (moved 12) (perform_all history new_writer).index;
  object_data_end = 12 + length (perform_all history new_writer).bytes;
}

list_after_exact_example :
    (ids : List Oid) × (list_after checksum history ≡ ok ids)
    × ((oid : Oid) → listed oid ids ≡ contains_key oid (contents history))
list_after_exact_example = list_after_exact checksum history sum_32 complete history_small

-- No name has an extension here.
abbrev no_extension : Name → List ℕ
no_extension name = []

abbrev small_blob : Request
small_blob = record {
  oid = oid_2;
  object_type = blob;
  object = 1 ∷ 2 ∷ [];
  filename = some (0x61 ∷ []);
}

abbrev a_tree : Request
a_tree = record { oid = oid_1; object_type = tree; object = 7 ∷ []; filename = none }

abbrev requests : List Request
requests = small_blob ∷ a_tree ∷ small_blob ∷ []

abbrev requests_complete : All (λ (r : Request). IsOid r.oid) requests
requests_complete = (refl, (refl, (refl, tt)))

requests_small : 12 + length (request_all no_extension requests new_writer).bytes < 2 ^ 32
unfolding request_all smart_add_object should_pack_object add_object to_le
requests_small = omega arith

read_accepted_example :
    read_requested no_extension store checksum requests oid_1 ≡ ok (tree, 7 ∷ [])
unfolding should_pack_object
read_accepted_example =
    read_accepted no_extension store checksum sum_32 requests requests_complete requests_small
      (small_blob ∷ []) a_tree (small_blob ∷ []) refl refl (inr refl, tt)
