-- ===== src/Streaming/Open.antt =====
-- streaming_pack.rs: `StreamingPackWriter::finalize`, and `PackReader` of pack.rs on the pack that
-- it wrote.
use mediagit_core.Prelude.{
  ℕ, ◌+◌, ◌^◌, ◌<◌, ◌≤◌, ◌≡◌, ◌≢◌, refl, ap, sym, ◌∙◌, inl, inr, Option, none, some, List, [], ◌∷◌,
  ◌++◌, append_assoc, false, ◌⊎◌, All, length, length-append, arith, ◌==◌, ==_iff, Bool-cases,
  if◌then◌else◌,
}
use native.Mathlib.Nat.{mod-eq_of_lt}
use mediagit_core.Result.{Result, ok, err, ◌>>=◌, map_err}
use mediagit_core.Bytes.{to_le, as_u32, length-to_le, from_le-to_le_4}
use mediagit_core.Object.{ObjectType, Oid, IsOid}
use mediagit_core.Delta.{Zstd}
use mediagit_core.BTreeMap.{get, insert_all}
use mediagit_core.BTreeMap.Order.{bytes_ord}
use mediagit_core.Pack.{PackError, new_header, header_to_bytes, object_not_found}
use mediagit_core.Pack.Header.{length-header_to_bytes, header_from_bytes-header_to_bytes}
use mediagit_core.Pack.Index.{PackIndex, index_to_bytes, entries_to_bytes}
use mediagit_core.Pack.Index.Codec.{index_from_bytes-entries, length-index_to_bytes}
use mediagit_core.Pack.Segment.{Segment-append}
use mediagit_core.Pack.Writer.{with_checksum}
use mediagit_core.Pack.Reader.{new_reader, get_object_at, get_object_with_type}
use mediagit_core.Pack.Reader.Objects.{get_object_at-regular}
use mediagit_core.Pack.Open.{open_parts}
use mediagit_core.Streaming.{
  StreamError, StreamingPackWriter, count_mismatch, new_writer, finalize, finalize_index,
}
use mediagit_core.Streaming.Written.{
  Write, write_all, objects_size, Placed, Streams, index_of, new_writer-Streams, write_all-Streams,
  length-write_all,
}

finalize_index-index_of :
    (entries : PackIndex) → finalize_index (index_of entries) ≡ index_to_bytes entries
unfolding finalize_index index_to_bytes entries_to_bytes to_le
finalize_index-index_of [] = refl
finalize_index-index_of (e ∷ entries) = ground arith

module _ (sha256 : List ℕ → List ℕ) where
  -- Writing all objects, and finalizing.
  unfoldable pub stream_file : ℕ → List Write → Result StreamError (List ℕ)
  stream_file n writes = finalize sha256 (write_all writes (new_writer n))

  -- Opening the pack that was written, and reading one object.
  unfoldable pub read_streamed :
      Zstd → ℕ → List Write → Oid → Result (StreamError ⊎ PackError) (ObjectType × List ℕ)
  read_streamed z n writes oid = do
    file ← map_err inl (stream_file n writes)
    map_err inr (do r ← new_reader sha256 file; get_object_with_type z r oid)

-- What a pack with these objects has to answer.
abbrev pub answer :
    Option (ObjectType × List ℕ) → Result (StreamError ⊎ PackError) (ObjectType × List ℕ)
answer none = err (inr object_not_found)
answer (some object) = ok object

length-objects_size : (writes : List Write) → length writes ≤ objects_size writes
length-objects_size [] = omega arith
length-objects_size ((oid, (t, object)) ∷ writes) = omega (arith, length-objects_size writes)

module _ (sha256 : List ℕ → List ℕ) (sum_32 : (b : List ℕ) → length (sha256 b) ≡ 32) (n : ℕ)
    (writes : List Write) (oids : All (λ e. IsOid e.0) writes)
    (small : 12 + objects_size writes < 2 ^ 32) where
  abbrev written : StreamingPackWriter
  written = write_all writes (new_writer n)

  streams :
      (entries : PackIndex) × (length entries ≡ length writes)
      × Streams n entries (insert_all [] writes) written
  unfolding new_writer insert_all
  streams =
      let (entries, count, s) =
        write_all-Streams writes n [] [] (new_writer n) oids
          (omega (arith, length-header_to_bytes (new_header n))) (new_writer-Streams n) in
      (entries, omega arith, s)

  pub few_objects : length writes ≡ n → n < 2 ^ 32
  few_objects same = omega (arith, length-objects_size writes)

  other :
      (entries : PackIndex)
      → (length writes == n) ≡ false
      → length entries ≡ length writes
      → length entries ≢ n
  other entries e count p = cc (e, (==_iff (length writes) n).1 (sym count ∙ p))

  length-written : length written.writer ≡ 12 + objects_size writes
  unfolding new_writer
  length-written =
      omega (arith, length-write_all writes (new_writer n), length-header_to_bytes (new_header n))

  module _ (entries : PackIndex) (s : Streams n entries (insert_all [] writes) written) where
    abbrev body_12 : List ℕ
    body_12 = header_to_bytes (new_header n)

    abbrev packed : List ℕ
    packed =
        with_checksum sha256
          (written.writer ++ (index_to_bytes entries ++ to_le 4 (as_u32 written.current_offset)))

    stream_file-packed : length entries ≡ n → stream_file sha256 n writes ≡ ok packed
    unfolding stream_file finalize
    stream_file-packed same =
        rw (s.counted, s.expected, same, s.hashed, s.indexed, finalize_index-index_of entries)
          (ground arith)

    stream_file-mismatch :
        length entries ≢ n → stream_file sha256 n writes ≡ err (count_mismatch n (length entries))
    unfolding stream_file finalize
    stream_file-mismatch other = rw (s.counted, s.expected) (ground arith)

    new_reader-packed :
        n < 2 ^ 32
        → new_reader sha256 packed
          ≡ ok (record {
            bytes = packed;
            index = insert_all [] entries;
            object_data_end = length written.writer;
          })
    new_reader-packed small_n =
        let h = new_header n in
        rw s.starts (
          open_parts sha256 (header_to_bytes h) s.body (index_to_bytes entries) _
            (length-header_to_bytes h) (length-to_le 4 _) (sum_32 _) h (insert_all [] entries)
            (header_from_bytes-header_to_bytes h (omega arith) small_n)
            (from_le-to_le_4 _ (omega arith)
              ∙ mod-eq_of_lt (omega (arith, s.offset, length-written))
              ∙ s.offset
              ∙ ap length s.starts)
            (index_from_bytes-entries entries s.fits (omega (arith, s.few, length-written))))

    packed_small : length packed < 2 ^ 64
    packed_small =
        let foot = to_le 4 (as_u32 written.current_offset) in
        omega (
          arith,
          length-append (written.writer ++ (index_to_bytes entries ++ foot))
              (sha256 (written.writer ++ (index_to_bytes entries ++ foot))),
          sum_32 (written.writer ++ (index_to_bytes entries ++ foot)),
          length-append written.writer (index_to_bytes entries ++ foot),
          length-append (index_to_bytes entries) foot,
          length-to_le 4 (as_u32 written.current_offset),
          length-index_to_bytes entries s.fits,
          s.few,
          length-written,
        )

    -- What the reader makes of the place of an object.
    read-Placed :
        (z : Zstd) (oid : Oid) (end : ℕ) (place : Option (ℕ × ℕ))
        (object : Option (ObjectType × List ℕ))
        → get oid (insert_all [] entries) ≡ place
        → Placed written.writer place object
        → map_err inr (
            get_object_with_type z
              (record { bytes = packed; index = insert_all [] entries; object_data_end = end })
              oid)
          ≡ answer object
    unfolding get_object_with_type get_object_at
    read-Placed z oid end none none e h = rw e
    read-Placed z oid end none (some object) e h = absurd h
    read-Placed z oid end (some place) none e h = absurd h
    read-Placed z oid end (some (offset, size)) (some (t, object)) e (here, fit) =
        ap (map_err inr) (
          get_object_at-regular z
            (record { bytes = packed; index = insert_all [] entries; object_data_end = end }) oid
            offset packed_small 10 t object (Segment-append _ (Segment-append _ here))
            (e ∙ ap (λ k. some (offset, k)) fit))

  -- The file begins with all that was written to the output stream.
  pub stream_file-writer :
      (tail : List ℕ) × (stream_file sha256 n writes ≡ (
        if length writes == n
        then ok (written.writer ++ tail)
        else err (count_mismatch n (length writes))))
  stream_file-writer =
      let (entries, count, s) = streams in
      let foot = to_le 4 (as_u32 written.current_offset) in
      let sum = sha256 (written.writer ++ (index_to_bytes entries ++ foot)) in
      (
        (index_to_bytes entries ++ foot) ++ sum,
        elim (Bool-cases (length writes == n)) [
          | inl e ↦
              rw (e, stream_file-packed entries s (count ∙ (==_iff (length writes) n).0 e))
                (ap ok (append_assoc written.writer (index_to_bytes entries ++ foot) sum))
          | inr e ↦ rw (e, stream_file-mismatch entries s (other entries e count), count)
        ],
      )

  -- A pack that was written object by object, finalized, opened by `PackReader::new` and asked for
  -- an object answers with the type and the content of the last object written under that
  -- identifier, and with its absence where there is none; where another number of objects was
  -- written than announced, finalizing is refused with both numbers. Checksums and identifiers
  -- have 32 bytes, and the header and the objects take less than 4 GiB.
  pub read_streamed_exact :
      (z : Zstd) (oid : Oid)
      → read_streamed sha256 z n writes oid ≡ (
          if length writes == n
          then answer (get oid (insert_all [] writes))
          else err (inl (count_mismatch n (length writes))))
  unfolding read_streamed
  read_streamed_exact z oid =
      let (entries, count, s) = streams in
      elim (Bool-cases (length writes == n)) [
        | inl e ↦
            let same = (==_iff (length writes) n).0 e in
            rw
              (
                e,
                stream_file-packed entries s (count ∙ same),
                new_reader-packed entries s (few_objects same),
              )
              (read-Placed entries s z oid _ _ _ refl (s.placed oid))
        | inr e ↦ rw (e, stream_file-mismatch entries s (other entries e count), count)
      ]
