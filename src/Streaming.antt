-- ===== src/Streaming.antt =====
-- crates/mediagit-versioning/src/streaming_index.rs and streaming_pack.rs: packs that are written
-- and read one object at a time. The output stream and the temporary file of the index are what
-- has been written to them; they do not fail.
pub mod Written
pub mod Open
pub mod Received
mod Tests
use mediagit_core.Prelude.{
  ℕ, zero, suc, ◌+◌, ◌*◌, Bool, true, false, ◌&&◌, Option, none, some, List, [], ◌∷◌, ◌++◌, length,
  take, drop, map, leb, ltb, ◌==◌, if◌then◌else◌,
}
use mediagit_core.Result.{Result, ok, err, panic, ◌>>=◌, ◌>>◌, ensure, map_err}
use mediagit_core.Bytes.{to_le, from_le, as_u32, bytes_eq}
use mediagit_core.Object.{ObjectType, to_u8, from_u8, Oid}
use mediagit_core.Pack.{
  PackError, PackHeader, new_header, header_to_bytes, header_from_bytes, delta_magic,
}
use mediagit_core.Pack.Reader.{add64}

-- The temporary file, and the two counters.
pub record StreamingPackIndex : Type 0 where
  pub temp_file : List ℕ
  pub entry_count : ℕ
  pub bytes_written : ℕ

abbrev pub new_index : StreamingPackIndex
new_index = record { temp_file = []; entry_count = 0; bytes_written = 0 }

unfoldable pub add_entry : Oid → ℕ → ℕ → StreamingPackIndex → StreamingPackIndex
add_entry oid offset size index = record {
  temp_file = index.temp_file ++ (oid ++ (to_le 8 offset ++ to_le 4 size));
  entry_count = add64 index.entry_count 1;
  bytes_written = add64 index.bytes_written 44;
}

unfoldable pub finalize_index : StreamingPackIndex → List ℕ
finalize_index index =
    if index.bytes_written == 0
    then 0 ∷ 0 ∷ 0 ∷ 0 ∷ []
    else to_le 4 (as_u32 index.entry_count) ++ index.temp_file

-- `writer` and `hasher` hold what they have been given so far.
pub record StreamingPackWriter : Type 0 where
  pub writer : List ℕ
  pub objects_written : ℕ
  pub expected_count : ℕ
  pub hasher : List ℕ
  pub index : Option StreamingPackIndex
  pub current_offset : ℕ

pub data StreamError : Type 0 where
  unexpected_eof object_too_large delta_object_too_small unknown_type out_of_fuel : StreamError
  bad_header : PackError → StreamError
  delta_needs_base : Oid → StreamError
  count_mismatch : ℕ → ℕ → StreamError

unfoldable pub new_writer : ℕ → StreamingPackWriter
new_writer expected_count =
    let header_bytes = header_to_bytes (new_header expected_count) in
    record {
      writer = header_bytes;
      objects_written = 0;
      expected_count = expected_count;
      hasher = header_bytes;
      index = some new_index;
      current_offset = 12;
    }

abbrev pub with_entry : Oid → ℕ → ℕ → Option StreamingPackIndex → Option StreamingPackIndex
with_entry oid offset size none = none
with_entry oid offset size (some index) = some (add_entry oid offset size index)

-- The sums are those of a release build, which wrap.
unfoldable pub write_object : Oid → ObjectType → List ℕ → StreamingPackWriter → StreamingPackWriter
write_object oid t object w =
    let size = as_u32 (length object) in
    let header = to_u8 t ∷ to_le 4 size in
    record {
      writer = (w.writer ++ header) ++ object;
      objects_written = as_u32 (w.objects_written + 1);
      expected_count = w.expected_count;
      hasher = (w.hasher ++ header) ++ object;
      index = with_entry oid w.current_offset (as_u32 (size + 5)) w.index;
      current_offset = add64 (add64 w.current_offset 5) (length object);
    }

abbrev pub finalized : Option StreamingPackIndex → List ℕ
finalized none = 0 ∷ 0 ∷ 0 ∷ 0 ∷ []
finalized (some index) = finalize_index index

module _ (sha256 : List ℕ → List ℕ) where
  -- What stands in the output stream at the end.
  unfoldable pub finalize : StreamingPackWriter → Result StreamError (List ℕ)
  finalize w =
      if w.objects_written == w.expected_count
      then (let index_bytes = finalized w.index in
          let index_offset_bytes = to_le 4 (as_u32 w.current_offset) in
          let hashed = w.hasher ++ (index_bytes ++ index_offset_bytes) in
          ok ((w.writer ++ (index_bytes ++ index_offset_bytes)) ++ sha256 hashed))
      else err (count_mismatch w.expected_count w.objects_written)

-- `read_exact`: the bytes, and what is left of the stream.
unfoldable pub read_exact : ℕ → List ℕ → Result StreamError (List ℕ × List ℕ)
read_exact n stream =
    if leb n (length stream) then ok (take n stream, drop n stream) else err unexpected_eof

-- `reader` is what is left of the stream. The state after an error is not described: the callers
-- give up. There is always memory for an object.
pub record StreamingPackReader : Type 0 where
  pub reader : List ℕ
  pub header : Option PackHeader
  pub objects_processed : ℕ
  pub expected_count : ℕ
  pub hasher : List ℕ

unfoldable pub new_reader : List ℕ → Result StreamError StreamingPackReader
unfolding read_exact
new_reader stream = do
  (header_buf, rest) ← read_exact 12 stream
  header ← map_err bad_header (header_from_bytes header_buf)
  ok (record {
    reader = rest;
    header = some header;
    objects_processed = 0;
    expected_count = header.object_count;
    hasher = header_buf;
  })

-- 2 GiB.
abbrev pub max_pack_object_size : ℕ
max_pack_object_size = 2147483648

-- Whether the object is taken for a delta.
abbrev pub begins_as_delta : List ℕ → Bool
begins_as_delta object = leb 5 (length object) && bytes_eq (take 5 object) delta_magic

abbrev pub typed : Option ObjectType → Result StreamError ObjectType
typed none = err unknown_type
typed (some t) = ok t

-- An object that was received: its identifier, its type and its content.
abbrev pub Received : Type 0
Received = Oid × (ObjectType × List ℕ)

module _ (sha256 : List ℕ → List ℕ) where
  -- What is made of the type byte and the bytes of an object.
  unfoldable pub accept_object : ℕ → List ℕ → Result StreamError Received
  accept_object type_byte object =
      if begins_as_delta object
      then (if ltb (length object) 37
          then err delta_object_too_small
          else err (delta_needs_base (take 32 (drop 5 object))))
      else (do t ← typed (from_u8 type_byte); ok (sha256 object, (t, object)))

  unfoldable pub read_object_internal :
      StreamingPackReader → Result StreamError (Received × StreamingPackReader)
  unfolding read_exact accept_object
  read_object_internal r = do
    (header_buf, after_header) ← read_exact 5 r.reader
    let size = from_le (drop 1 header_buf)
    ensure (leb size max_pack_object_size) object_too_large
    (object, rest) ← read_exact size after_header
    item ← accept_object (from_le (take 1 header_buf)) object
    ok (
      item,
      record {
        reader = rest;
        header = r.header;
        objects_processed = r.objects_processed;
        expected_count = r.expected_count;
        hasher = (r.hasher ++ header_buf) ++ object;
      },
    )

  unfoldable pub next_object :
      StreamingPackReader → Option (Result StreamError (Received × StreamingPackReader))
  unfolding read_object_internal
  next_object r =
      if leb r.expected_count r.objects_processed
      then none
      else some (do
        (item, r') ← read_object_internal r
        ok (
          item,
          record {
            reader = r'.reader;
            header = r'.header;
            objects_processed = as_u32 (r'.objects_processed + 1);
            expected_count = r'.expected_count;
            hasher = r'.hasher;
          },
        ))

  -- The callers' loop, up to the first error: the objects that it was given, and how it ended. A
  -- round without fuel is an error of the model.
  unfoldable pub read_objects :
      ℕ → StreamingPackReader → List Received × Result StreamError (Unit {0})
  read_objects zero r = ([], err out_of_fuel)
  read_objects (suc fuel) r = elim (next_object r) [
    | none ↦ ([], ok tt)
    | some result ↦ elim result [
      | ok (item, r') ↦ let rest = read_objects fuel r' in (item ∷ rest.0, rest.1)
      | err e ↦ ([], err e)
      | panic ↦ ([], panic)
    ]
  ]

  abbrev read_all :
      Result StreamError StreamingPackReader → List Received × Result StreamError (Unit {0})
  read_all (ok r) = read_objects (suc r.expected_count) r
  read_all (err e) = ([], err e)
  read_all panic = ([], panic)

  unfoldable pub read_stream : List ℕ → List Received × Result StreamError (Unit {0})
  read_stream stream = read_all (new_reader stream)
