-- ===== src/Pack/Open.antt =====
-- pack.rs: `PackReader::new` on what `PackWriter::finalize` wrote.
use mediagit_core.Prelude.{
  ℕ, ◌+◌, ◌-◌, ◌^◌, ◌<◌, ◌≤◌, ◌≡◌, refl, ap, ◌∙◌, List, [], ◌++◌, append_assoc, map, length,
  length-append, length-map, take, drop, take_field, drop_field, le→leb, arith,
}
use mathlib.Core.Path.{subst}
use native.Mathlib.Nat.{mod-eq_of_lt}
use mediagit_core.Result.{ok, slice}
use mediagit_core.Bytes.{to_le, from_le, as_u32, length-to_le, from_le-to_le_4, bytes_eq_refl}
use mediagit_core.BTreeMap.Order.{bytes_ord}
use mediagit_core.BTreeMap.Sorted.{insert_all-sorted}
use mediagit_core.Pack.{PackError, PackHeader, header_from_bytes, header_to_bytes, new_header}
use mediagit_core.Pack.Header.{length-header_to_bytes, header_from_bytes-header_to_bytes}
use mediagit_core.Pack.Index.{PackIndex, index_to_bytes, index_from_bytes}
use mediagit_core.Pack.Index.Codec.{index_from_bytes-index_to_bytes, length-index_to_bytes}
use mediagit_core.Pack.Segment.{Segment, Segment-append, Segment-prepend, slice-Segment}
use mediagit_core.Pack.Writer.{PackWriter, finalize, moved}
use mediagit_core.Pack.Writer.Moved.{IsSorted-moved, EntryFits-moved}
use mediagit_core.Pack.Writer.Contents.{IsValid}
use mediagit_core.Pack.Reader.{new_reader}

-- The reader on a file whose fields are known.
open_fields :
    (sha256 : List ℕ → List ℕ) (bytes content index_bytes : List ℕ) (h : PackHeader) (start : ℕ)
    (index : PackIndex)
    → 48 ≤ length bytes
    → header_from_bytes (take 12 bytes) ≡ ok h
    → take (length bytes - 32) bytes ≡ content
    → drop (length bytes - 32) bytes ≡ sha256 content
    → from_le (take 4 (drop (length bytes - 32 - 4) bytes)) ≡ start
    → 12 ≤ start
    → slice {E = PackError} start (length bytes - 32 - 4) bytes ≡ ok index_bytes
    → index_from_bytes index_bytes ≡ ok index
    → new_reader sha256 bytes
      ≡ ok (record { bytes = bytes; index = index; object_data_end = start })
unfolding new_reader
open_fields sha256 bytes content index_bytes h start index long head front sum foot low cut parsed =
    rw (
      le→leb 48 (length bytes) long,
      head,
      front,
      sum,
      bytes_eq_refl (sha256 content),
      foot,
      le→leb 12 start low,
      cut,
      parsed,
    )

-- A pack file in its five parts, with the lengths of those that are fixed.
module _ (sha256 : List ℕ → List ℕ) (header : List ℕ) (body index foot : List ℕ)
    (header_12 : length header ≡ 12) (foot_4 : length foot ≡ 4)
    (sum_32 : length (sha256 ((header ++ body) ++ (index ++ foot))) ≡ 32) where
  abbrev pub content : List ℕ
  content = (header ++ body) ++ (index ++ foot)

  abbrev pub file : List ℕ
  file = content ++ sha256 content

  pub length-content : length content ≡ 12 + length body + (length index + 4)
  length-content =
      rw
        (
          length-append (header ++ body) (index ++ foot),
          length-append header body,
          length-append index foot,
        )
        (omega arith)

  pub length-file : length file ≡ length content + 32
  length-file = rw (length-append content (sha256 content)) (omega arith)

  take_header : take 12 file ≡ header
  take_header =
      rw (append_assoc (header ++ body) (index ++ foot) (sha256 content), append_assoc header body)
        (take_field 12 header _ header_12)

  take-content : take (length file - 32) file ≡ content
  take-content = take_field _ content (sha256 content) (omega (arith, length-file))

  drop-content : drop (length file - 32) file ≡ sha256 content
  drop-content = drop_field _ content (sha256 content) (omega (arith, length-file))

  take_foot : take 4 (drop (length file - 32 - 4) file) ≡ foot
  take_foot =
      let front = (header ++ body) ++ index in
      let e : file ≡ front ++ (foot ++ sha256 content) = simp append_assoc in
      let n : length front ≡ length file - 32 - 4 =
        rw (length-append (header ++ body) index, length-append header body)
          (omega (arith, length-file, length-content)) in
      ap (λ b. take 4 (drop (length file - 32 - 4) b)) e
      ∙ ap (take 4) (drop_field (length file - 32 - 4) front (foot ++ sha256 content) n)
      ∙ take_field 4 foot (sha256 content) foot_4

  index_field : Segment file (length (header ++ body)) index
  index_field = record {
    before = header ++ body;
    behind = foot ++ sha256 content;
    split = simp append_assoc;
    at = refl;
  }

  pub open_parts :
      (h : PackHeader) (m : PackIndex)
      → header_from_bytes header ≡ ok h
      → from_le foot ≡ length (header ++ body)
      → index_from_bytes index ≡ ok m
      → new_reader sha256 file
        ≡ ok (record { bytes = file; index = m; object_data_end = length (header ++ body) })
  open_parts h m head start parsed =
      let n = length-append header body in
      open_fields sha256 file content index h (length (header ++ body)) m
        (omega (arith, length-file, length-content)) (ap header_from_bytes take_header ∙ head)
        take-content drop-content (ap from_le take_foot ∙ start) (omega arith)
        (slice-Segment (length (header ++ body)) (length file - 32 - 4) index_field
          (omega (arith, length-file, length-content)))
        parsed

-- The pack of a valid writer, whose header and objects take less than 4 GiB, opens: the reader has
-- the whole file, and the writer's index moved behind the header.
pub new_reader-finalize :
    (sha256 : List ℕ → List ℕ) (w : PackWriter)
    → ((b : List ℕ) → length (sha256 b) ≡ 32)
    → IsValid w
    → 12 + length w.bytes < 2 ^ 32
    → new_reader sha256 (finalize sha256 w)
      ≡ ok (record {
        bytes = finalize sha256 w;
        index = map (moved 12) w.index;
        object_data_end = 12 + length w.bytes;
      })
unfolding finalize
new_reader-finalize sha256 w sum_32 v small =
    let adjusted = map (moved 12) w.index in
    let h = new_header (as_u32 (length w.entries)) in
    let sorted = IsSorted-moved 12 w.index v.sorted in
    let fits = EntryFits-moved 12 (length w.bytes) w.index small v.within in
    let objects = header_to_bytes h ++ w.bytes in
    let n : length objects ≡ 12 + length w.bytes =
      rw (length-append (header_to_bytes h) w.bytes, length-header_to_bytes h) in
    let foot = to_le 4 (as_u32 (length objects)) in
    rw (length-header_to_bytes h, insert_all-sorted [] adjusted sorted, ← n)
      (open_parts sha256 (header_to_bytes h) w.bytes (index_to_bytes adjusted) foot
        (length-header_to_bytes h) (length-to_le 4 _) (sum_32 _) h adjusted
        (header_from_bytes-header_to_bytes h (omega arith) (omega arith))
        (from_le-to_le_4 _ (omega arith) ∙ mod-eq_of_lt (omega arith))
        (index_from_bytes-index_to_bytes adjusted sorted fits
          (omega (arith, length-map (moved 12) w.index, v.few))))

module _ (sha256 : List ℕ → List ℕ) (w : PackWriter)
    (sum_32 : (b : List ℕ) → length (sha256 b) ≡ 32) (v : IsValid w)
    (small : 12 + length w.bytes < 2 ^ 32) where
  -- The whole file, its index included, is far from 2^64 bytes.
  pub finalize_small : length (finalize sha256 w) < 2 ^ 64
  unfolding finalize
  finalize_small =
      let adjusted = map (moved 12) w.index in
      let h = header_to_bytes (new_header (as_u32 (length w.entries))) in
      let fits = EntryFits-moved 12 (length w.bytes) w.index small v.within in
      let sorted = IsSorted-moved 12 w.index v.sorted in
      let foot = to_le 4 (as_u32 (length (h ++ w.bytes))) in
      let n12 = length-header_to_bytes (new_header (as_u32 (length w.entries))) in
      rw
        (
          n12,
          insert_all-sorted [] adjusted sorted,
          length-file sha256 h w.bytes (index_to_bytes adjusted) foot n12 (length-to_le 4 _)
              (sum_32 _),
          length-content sha256 h w.bytes (index_to_bytes adjusted) foot n12 (length-to_le 4 _)
              (sum_32 _),
          length-index_to_bytes adjusted fits,
        )
        (omega (arith, length-map (moved 12) w.index, v.few))

  -- What stands in the object data stands in the file, twelve bytes further on.
  pub finalize-Segment :
      (offset : ℕ) (part : List ℕ)
      → Segment w.bytes offset part
      → Segment (finalize sha256 w) (12 + offset) part
  unfolding finalize
  finalize-Segment offset part s =
      let n12 = length-header_to_bytes (new_header (as_u32 (length w.entries))) in
      subst (λ n. Segment (finalize sha256 w) (n + offset) part) n12
        (Segment-append _ (Segment-append _ (Segment-prepend _ s)))
