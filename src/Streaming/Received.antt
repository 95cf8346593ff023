-- ===== src/Streaming/Received.antt =====
-- streaming_pack.rs: `StreamingPackReader` on the pack that `StreamingPackWriter` wrote.
use mediagit_core.Prelude.{
  ℕ, suc, ◌+◌, ◌^◌, ◌<◌, ◌≡◌, refl, ap, sym, ◌∙◌, inl, inr, List, [], ◌∷◌, ◌++◌, append_assoc,
  append-nil, take, drop, length, length-append, take_field, drop_field, arith, ltb, leb, le→leb,
  lt→leb, ltb→lt, ltb→le, ◌==◌, ==_iff, Bool-cases, if◌then◌else◌, none, some, All,
}
use native.Mathlib.Nat.{mod-eq_of_lt}
use mediagit_core.Result.{Result, ok, err, panic, ◌>>=◌, ◌>>◌, ensure}
use mediagit_core.Bytes.{to_le, from_le, as_u32, length-to_le, from_le-to_le_4}
use mediagit_core.Object.{ObjectType, to_u8, from_u8-to_u8, IsOid}
use mediagit_core.Pack.{new_header, header_to_bytes}
use mediagit_core.Pack.Header.{length-header_to_bytes, header_from_bytes-header_to_bytes}
use mediagit_core.Pack.Writer.{object_bytes}
use mediagit_core.Streaming.{
  StreamError, object_too_large, delta_object_too_small, delta_needs_base, count_mismatch,
  StreamingPackWriter, StreamingPackReader, Received, new_writer, read_exact, begins_as_delta,
  max_pack_object_size, accept_object, read_object_internal, next_object, read_objects, new_reader,
  read_stream,
}
use mediagit_core.Streaming.Written.{Write, write_all, objects_size, write_object-writer}
use mediagit_core.Streaming.Open.{stream_file, stream_file-writer, few_objects}

-- What the reader has to make of the objects: those before the first that it refuses, and its error.
unfoldable pub received :
    (List ℕ → List ℕ) → List Write → List Received × Result StreamError (Unit {0})
received sha256 [] = ([], ok tt)
received sha256 ((oid, (t, object)) ∷ writes) =
    let rest = received sha256 writes in
    if ltb max_pack_object_size (length object)
    then ([], err object_too_large)
    else if begins_as_delta object
    then (if ltb (length object) 37
        then ([], err delta_object_too_small)
        else ([], err (delta_needs_base (take 32 (drop 5 object)))))
    else ((sha256 object, (t, object)) ∷ rest.0, rest.1)

abbrev stream_body : List Write → List ℕ
stream_body [] = []
stream_body ((oid, (t, object)) ∷ writes) = object_bytes t object ++ stream_body writes

write_all-stream_body :
    (writes : List Write) (w : StreamingPackWriter)
    → (write_all writes w).writer ≡ w.writer ++ stream_body writes
unfolding write_all
write_all-stream_body [] w = sym (append-nil w.writer)
write_all-stream_body ((oid, (t, object)) ∷ writes) w =
    write_all-stream_body writes _
    ∙ ap (λ b. b ++ stream_body writes) (write_object-writer oid t object w)
    ∙ append_assoc w.writer (object_bytes t object) (stream_body writes)

read_exact_field :
    (n : ℕ) (part rest : List ℕ) → length part ≡ n → read_exact n (part ++ rest) ≡ ok (part, rest)
unfolding read_exact
read_exact_field n part rest e = rw (
  le→leb n (length (part ++ rest)) (omega (arith, length-append part rest)),
  take_field n part rest e,
  drop_field n part rest e,
)

-- The item and the reader, and then the reader with its count raised.
bind_assoc {ℓ κ μ ν} :
    {E : Type ℓ} {A : Type κ} {B : Type μ} {C : Type ν} (f : A → B) (g : B → C) (m : Result E A)
    → ((m >>= λ a. ok (f a)) >>= λ b. ok (g b)) ≡ (m >>= λ a. ok (g (f a)))
bind_assoc f g (ok a) = refl
bind_assoc f g (err e) = refl
bind_assoc f g panic = refl

module _ (sha256 : List ℕ → List ℕ) where
  accept_object_lem :
      (t : ObjectType) (object : List ℕ)
      → accept_object sha256 (to_u8 t) object ≡ (
          if begins_as_delta object
          then (if ltb (length object) 37
              then err delta_object_too_small
              else err (delta_needs_base (take 32 (drop 5 object))))
          else ok (sha256 object, (t, object)))
  unfolding accept_object
  accept_object_lem t object = rw (from_u8-to_u8 t)

  -- One object at the front of the stream.
  module _ (r : StreamingPackReader) (t : ObjectType) (object rest : List ℕ)
      (front : r.reader ≡ object_bytes t object ++ rest) (small : length object < 2 ^ 32) where
    abbrev head : List ℕ
    head = to_u8 t ∷ to_le 4 (as_u32 (length object))

    abbrev behind : StreamingPackReader
    behind = record {
      reader = rest;
      header = r.header;
      objects_processed = r.objects_processed;
      expected_count = r.expected_count;
      hasher = (r.hasher ++ head) ++ object;
    }

    head_field : read_exact 5 r.reader ≡ ok (head, object ++ rest)
    unfolding object_bytes
    head_field =
        ap (read_exact 5) (front ∙ append_assoc head object rest)
        ∙ read_exact_field 5 head (object ++ rest)
            (omega (arith, length-to_le 4 (as_u32 (length object))))

    size_field : from_le (drop 1 head) ≡ length object
    size_field = from_le-to_le_4 _ (omega arith) ∙ mod-eq_of_lt small

    type_field : from_le (take 1 head) ≡ to_u8 t
    unfolding from_le
    type_field = omega arith

    read_object_internal_lem : read_object_internal sha256 r ≡ (
        ensure (leb (length object) max_pack_object_size) object_too_large
        >> (accept_object sha256 (to_u8 t) object >>= λ item. ok (item, behind)))
    unfolding read_object_internal
    read_object_internal_lem =
        rw (head_field, size_field, type_field, read_exact_field (length object) object rest refl)

    abbrev advanced : StreamingPackReader
    advanced = record {
      reader = rest;
      header = r.header;
      objects_processed = as_u32 (r.objects_processed + 1);
      expected_count = r.expected_count;
      hasher = (r.hasher ++ head) ++ object;
    }

    abbrev counted_up : Received × StreamingPackReader → Received × StreamingPackReader
    counted_up (item, r') = (
      item,
      record {
        reader = r'.reader;
        header = r'.header;
        objects_processed = as_u32 (r'.objects_processed + 1);
        expected_count = r'.expected_count;
        hasher = r'.hasher;
      },
    )

    next_object_lem :
        r.objects_processed < r.expected_count
        → next_object sha256 r
          ≡ some (
              ensure (leb (length object) max_pack_object_size) object_too_large
              >> (accept_object sha256 (to_u8 t) object >>= λ item. ok (item, advanced)))
    unfolding next_object
    next_object_lem more =
        rw (lt→leb r.expected_count r.objects_processed more, read_object_internal_lem)
          (elim (Bool-cases (leb (length object) max_pack_object_size)) [
            | inl e ↦ rw e (
                ap some (
                  bind_assoc (λ item. (item, behind)) counted_up
                    (accept_object sha256 (to_u8 t) object)))
            | inr e ↦ rw e
          ])

    -- One round of the loop, on every branch.
    read_objects_round :
        (fuel : ℕ)
        → r.objects_processed < r.expected_count
        → read_objects sha256 (suc fuel) r ≡ (
            if ltb max_pack_object_size (length object)
            then ([], err object_too_large)
            else if begins_as_delta object
            then (if ltb (length object) 37
                then ([], err delta_object_too_small)
                else ([], err (delta_needs_base (take 32 (drop 5 object)))))
            else (
              (sha256 object, (t, object)) ∷ (read_objects sha256 fuel advanced).0,
              (read_objects sha256 fuel advanced).1,
            ))
    unfolding read_objects
    read_objects_round fuel more =
        rw (next_object_lem more, read_objects, accept_object_lem t object)
          (elim (Bool-cases (ltb max_pack_object_size (length object))) [
            | inl e ↦ rw (e, lt→leb (length object) max_pack_object_size (ltb→lt _ _ e))
            | inr e ↦
                rw (e, le→leb (length object) max_pack_object_size (ltb→le _ _ e))
                  (elim (Bool-cases (begins_as_delta object)) [
                    | inl d ↦
                        rw d (elim (Bool-cases (ltb (length object) 37)) [
                          | inl k ↦ rw k
                          | inr k ↦ rw k
                        ])
                    | inr d ↦ rw d
                  ])
          ])

  read_objects_lem :
      (writes : List Write) (r : StreamingPackReader) (tail : List ℕ)
      → r.reader ≡ stream_body writes ++ tail
      → r.objects_processed + length writes ≡ r.expected_count
      → r.expected_count < 2 ^ 32
      → objects_size writes < 2 ^ 32
      → read_objects sha256 (suc (length writes)) r ≡ received sha256 writes
  unfolding received
  read_objects_lem [] r tail front count few small =
      let done : next_object sha256 r ≡ none =
        unfold next_object in rw (le→leb r.expected_count r.objects_processed (omega arith)) in
      unfold read_objects in rw (done, read_objects)
  read_objects_lem ((oid, (t, object)) ∷ writes) r tail front count few small =
      let rest = stream_body writes ++ tail in
      let split = front ∙ append_assoc (object_bytes t object) (stream_body writes) tail in
      let fits : length object < 2 ^ 32 = omega arith in
      let next = advanced r t object rest split fits in
      rw (
        read_objects_round r t object rest split fits (suc (length writes)) (omega arith),
        read_objects_lem writes next tail refl (omega arith) few (omega arith),
      )

  read_stream_lem :
      (n : ℕ) (writes : List Write) (tail : List ℕ)
      → length writes ≡ n
      → n < 2 ^ 32
      → objects_size writes < 2 ^ 32
      → read_stream sha256 ((write_all writes (new_writer n)).writer ++ tail)
        ≡ received sha256 writes
  unfolding read_stream new_reader new_writer
  read_stream_lem n writes tail same small fits =
      let h = header_to_bytes (new_header n) in
      let front =
        ap (λ b. b ++ tail) (write_all-stream_body writes (new_writer n))
        ∙ append_assoc h (stream_body writes) tail in
      rw
        (
          front,
          read_exact_field 12 h (stream_body writes ++ tail)
              (length-header_to_bytes (new_header n)),
          header_from_bytes-header_to_bytes (new_header n) (omega arith) small,
          ← same,
        )
        (read_objects_lem writes _ tail refl (omega arith) (rw same small) fits)

-- The streaming reader, on the pack that the streaming writer wrote, gives its caller the objects
-- in their order, each under the hash of its content with its type and content, up to the first
-- that it refuses, and then its error: an object of more than 2 GiB is too large, and one whose
-- content begins with the five bytes of a delta's magic is taken for a delta, which is too small
-- below 37 bytes and otherwise needs a base. Where another number of objects was written than
-- announced, finalizing is refused with both numbers. Checksums and identifiers have 32 bytes, and
-- the header and the objects take less than 4 GiB.
pub received_exact :
    (sha256 : List ℕ → List ℕ) (n : ℕ) (writes : List Write)
    → ((b : List ℕ) → length (sha256 b) ≡ 32)
    → All (λ e. IsOid e.0) writes
    → 12 + objects_size writes < 2 ^ 32
    → (do file ← stream_file sha256 n writes; ok (read_stream sha256 file)) ≡ (
        if length writes == n
        then ok (received sha256 writes)
        else err (count_mismatch n (length writes)))
received_exact sha256 n writes sum_32 oids small =
    let (tail, e) = stream_file-writer sha256 sum_32 n writes oids small in
    rw e (elim (Bool-cases (length writes == n)) [
      | inl k ↦
          let same = (==_iff (length writes) n).0 k in
          rw k (
            ap ok (
              read_stream_lem sha256 n writes tail same
                (few_objects sha256 sum_32 n writes oids small same) (omega arith)))
      | inr k ↦ rw k
    ])
