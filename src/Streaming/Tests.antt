-- ===== src/Streaming/Tests.antt =====
-- Runs of the streaming pack, and the theorems at concrete inputs.
use mediagit_core.Prelude.{ℕ, ◌≡◌, refl, List, [], ◌∷◌, length, arith}
use mediagit_core.Result.{ok, err, ◌>>=◌}
use mediagit_core.Bytes.{to_le, from_le}
use mediagit_core.Object.{blob, tree, to_u8, from_u8}
use mediagit_core.Delta.Tests.{store}
use mediagit_core.BTreeMap.{get, insert, insert_all}
use mediagit_core.BTreeMap.Order.{bytes_ord}
use mediagit_core.Pack.{header_to_bytes, header_from_bytes}
use mediagit_core.Streaming.{
  delta_needs_base, new_writer, write_object, add_entry, finalize, finalize_index, read_exact,
  accept_object, read_object_internal, next_object, read_objects, new_reader, read_stream,
}
use mediagit_core.Streaming.Written.{Write, write_all}
use mediagit_core.Streaming.Open.{stream_file, read_streamed, read_streamed_exact}
use mediagit_core.Streaming.Received.{received, received_exact}

-- Thirty-two bytes.
abbrev bytes_32 : ℕ → List ℕ
bytes_32 b =
    b ∷ b ∷ b ∷ b ∷ b ∷ b ∷ b ∷ b ∷ b ∷ b ∷ b ∷ b ∷ b ∷ b ∷ b ∷ b ∷ b ∷ b ∷ b ∷ b ∷ b ∷ b ∷ b ∷ b
    ∷ b ∷ b ∷ b ∷ b ∷ b ∷ b ∷ b ∷ b ∷ []

abbrev checksum : List ℕ → List ℕ
checksum bytes = bytes_32 (length bytes)

-- The first object is written twice.
abbrev three : List Write
three =
    (bytes_32 1, (blob, 7 ∷ 8 ∷ []))
    ∷ (bytes_32 2, (tree, 9 ∷ []))
    ∷ (bytes_32 1, (blob, 5 ∷ []))
    ∷ []

-- The second object is a text that begins with the word DELTA.
abbrev with_delta_text : List Write
with_delta_text =
    (bytes_32 1, (blob, 7 ∷ []))
    ∷ (bytes_32 2, (blob, 0x44 ∷ 0x45 ∷ 0x4C ∷ 0x54 ∷ 0x41 ∷ bytes_32 3))
    ∷ []

-- The same run, computed.
run_three :
    (do file ← stream_file checksum 3 three; ok (read_stream checksum file))
    ≡ ok (
      (bytes_32 2, (blob, 7 ∷ 8 ∷ []))
          ∷ (bytes_32 1, (tree, 9 ∷ []))
          ∷ (bytes_32 1, (blob, 5 ∷ []))
          ∷ [],
      ok tt,
    )
unfolding stream_file write_all new_writer write_object add_entry finalize finalize_index
    read_stream new_reader read_exact read_objects next_object read_object_internal accept_object
    header_to_bytes header_from_bytes to_le from_le to_u8 from_u8
run_three = refl

read_streamed_exact_example : read_streamed checksum store 3 three (bytes_32 1) ≡ ok (blob, 5 ∷ [])
unfolding insert_all insert get
read_streamed_exact_example =
    read_streamed_exact checksum (λ b. refl) 3 three (refl, (refl, (refl, tt))) (omega arith) store
      (bytes_32 1)

received_exact_example :
    (do file ← stream_file checksum 2 with_delta_text; ok (read_stream checksum file))
    ≡ ok ((bytes_32 1, (blob, 7 ∷ [])) ∷ [], err (delta_needs_base (bytes_32 3)))
unfolding received
received_exact_example =
    received_exact checksum 2 with_delta_text (λ b. refl) (refl, (refl, tt)) (omega arith)
