-- ===== src/Streaming/Written.antt =====
-- streaming_pack.rs: what a writer holds after a sequence of `write_object`.
use mediagit_core.Prelude.{
  All-append, ℕ, ◌+◌, ◌*◌, ◌^◌, ◌<◌, ◌≤◌, ◌≡◌, refl, ap, sym, ◌∙◌, inl, inr, Option, none, some,
  List, [], ◌∷◌, ◌++◌, append_assoc, append-nil, All, length, length-append, arith,
}
use native.Mathlib.Nat.{mod-eq_of_lt}
use mediagit_core.Bytes.{to_le, as_u32}
use mediagit_core.Object.{ObjectType, to_u8, Oid, IsOid}
use mediagit_core.BTreeMap.{BTreeMap, get, insert, insert_all}
use mediagit_core.BTreeMap.Order.{bytes_ord, bytes_cmp, Ordering-cases}
use mediagit_core.BTreeMap.Lookup.{get-insert}
use mediagit_core.Pack.{new_header, header_to_bytes}
use mediagit_core.Pack.Header.{length-header_to_bytes}
use mediagit_core.Pack.Index.{PackIndex, entries_to_bytes}
use mediagit_core.Pack.Index.Codec.{EntryFits}
use mediagit_core.Pack.Segment.{Segment, Segment-append, Segment-last}
use mediagit_core.Pack.Writer.{object_bytes}
use mediagit_core.Pack.Writer.Contents.{length-object_bytes}
use mediagit_core.Pack.Reader.{add64}
use mediagit_core.Streaming.{
  StreamingPackWriter, StreamingPackIndex, new_writer, add_entry, write_object,
}

-- An object with its type, under the identifier that the caller gives it.
abbrev pub Write : Type 0
Write = Oid × (ObjectType × List ℕ)

unfoldable pub write_all : List Write → StreamingPackWriter → StreamingPackWriter
write_all [] w = w
write_all ((oid, (t, object)) ∷ writes) w = write_all writes (write_object oid t object w)

-- The bytes that the objects take, each behind five bytes of its own.
abbrev pub objects_size : List Write → ℕ
objects_size [] = 0
objects_size ((oid, (t, object)) ∷ writes) = length object + 5 + objects_size writes

-- The place of an entry of the index, where the object that was written last stands.
abbrev pub Placed : List ℕ → Option (ℕ × ℕ) → Option (ObjectType × List ℕ) → Type 0
Placed bytes none none = Unit
Placed bytes none (some object) = ⊥
Placed bytes (some place) none = ⊥
Placed bytes (some (offset, size)) (some (t, object)) =
    Segment bytes offset (object_bytes t object) × (size ≡ length object + 5)

Placed-append :
    (bytes more : List ℕ) (place : Option (ℕ × ℕ)) (object : Option (ObjectType × List ℕ))
    → Placed bytes place object
    → Placed (bytes ++ more) place object
Placed-append bytes more none none h = tt
Placed-append bytes more none (some object) h = absurd h
Placed-append bytes more (some place) none h = absurd h
Placed-append bytes more (some (offset, size)) (some (t, object)) (s, e) =
    (Segment-append more s, e)

Placed-insert :
    (bytes : List ℕ) (entries : PackIndex) (m : BTreeMap Oid (ObjectType × List ℕ)) (oid : Oid)
    (t : ObjectType) (object : List ℕ) (size : ℕ)
    → size ≡ length object + 5
    → ((k : Oid) → Placed bytes (get k entries) (get k m))
    → (k : Oid)
    → Placed
        (bytes ++ object_bytes t object)
        (get k (insert oid (length bytes, size) entries))
        (get k (insert oid (t, object) m))
Placed-insert bytes entries m oid t object size e h k =
    let old = Placed-append bytes (object_bytes t object) (get k entries) (get k m) (h k) in
    rw (get-insert oid k (length bytes, size) entries, get-insert oid k (t, object) m)
      (elim (Ordering-cases (bytes_cmp k oid)) [
        | inl c ↦ rw c old
        | inr (inl c) ↦ rw c (Segment-last bytes (object_bytes t object), e)
        | inr (inr c) ↦ rw c old
      ])

insert_all-append :
    (m n : PackIndex) (oid : Oid) (place : ℕ × ℕ)
    → insert_all m (n ++ ((oid, place) ∷ [])) ≡ insert oid place (insert_all m n)
unfolding insert_all
insert_all-append m [] oid place = refl
insert_all-append m ((k, v) ∷ n) oid place = insert_all-append (insert k v m) n oid place

entries_to_bytes-append :
    (m n : PackIndex) → entries_to_bytes (m ++ n) ≡ entries_to_bytes m ++ entries_to_bytes n
unfolding entries_to_bytes
entries_to_bytes-append [] n = refl
entries_to_bytes-append ((oid, (offset, size)) ∷ m) n =
    rw (entries_to_bytes-append m n) (simp append_assoc)

-- The index that holds these entries.
abbrev pub index_of : PackIndex → StreamingPackIndex
index_of entries = record {
  temp_file = entries_to_bytes entries;
  entry_count = length entries;
  bytes_written = length entries * 44;
}

add_entry-index_of :
    (entries : PackIndex) (oid : Oid) (offset size : ℕ)
    → length entries * 5 < 2 ^ 32
    → add_entry oid offset size (index_of entries)
      ≡ index_of (entries ++ ((oid, (offset, size)) ∷ []))
unfolding add_entry
add_entry-index_of entries oid offset size small =
    let last : PackIndex = (oid, (offset, size)) ∷ [] in
    let one : entries_to_bytes last ≡ oid ++ (to_le 8 offset ++ to_le 4 size) =
      unfold entries_to_bytes in simp append-nil in
    let count = length-append entries last in
    let file : entries_to_bytes entries ++ (oid ++ (to_le 8 offset ++ to_le 4 size))
        ≡ entries_to_bytes (entries ++ last) =
      rw (entries_to_bytes-append entries last, one) in
    let counted : add64 (length entries) 1 ≡ length (entries ++ last) =
      rw count (mod-eq_of_lt (omega arith)) in
    let written : add64 (length entries * 44) 44 ≡ length (entries ++ last) * 44 =
      rw count (mod-eq_of_lt (omega arith) ∙ omega arith) in
    λ i. record { temp_file = file i; entry_count = counted i; bytes_written = written i }

-- A writer for `n` objects, whose index has `entries` in the order of writing, and whose last
-- object under each identifier is that of `m`.
pub record Streams (n : ℕ) (entries : PackIndex) (m : BTreeMap Oid (ObjectType × List ℕ))
    (w : StreamingPackWriter) : Type 0 where
  pub body : List ℕ
  pub starts : w.writer ≡ header_to_bytes (new_header n) ++ body
  pub hashed : w.hasher ≡ w.writer
  pub offset : w.current_offset ≡ length w.writer
  pub expected : w.expected_count ≡ n
  pub counted : w.objects_written ≡ length entries
  pub indexed : w.index ≡ some (index_of entries)
  pub fits : All EntryFits entries
  pub few : length entries * 5 + 12 ≤ length w.writer
  pub placed : (oid : Oid) → Placed w.writer (get oid (insert_all [] entries)) (get oid m)

pub new_writer-Streams : (n : ℕ) → Streams n [] [] (new_writer n)
unfolding new_writer insert_all get entries_to_bytes
new_writer-Streams n =
    let n12 = length-header_to_bytes (new_header n) in
    record {
      body = [];
      starts = simp append-nil;
      hashed = refl;
      offset = sym n12;
      expected = refl;
      counted = refl;
      indexed = refl;
      fits = tt;
      few = omega (arith, n12);
      placed = λ oid. tt;
    }

pub write_object-writer :
    (oid : Oid) (t : ObjectType) (object : List ℕ) (w : StreamingPackWriter)
    → (write_object oid t object w).writer ≡ w.writer ++ object_bytes t object
unfolding write_object object_bytes
write_object-writer oid t object w = simp append_assoc

add64_twice : (a b : ℕ) → a + (b + 5) < 2 ^ 32 → add64 (add64 a 5) b ≡ a + (b + 5)
add64_twice a b h = omega arith

pub write_object-Streams :
    (n : ℕ) (entries : PackIndex) (m : BTreeMap Oid (ObjectType × List ℕ)) (oid : Oid)
    (t : ObjectType) (object : List ℕ) (w : StreamingPackWriter)
    → IsOid oid
    → length w.writer + (length object + 5) < 2 ^ 32
    → Streams n entries m w
    → Streams n
        (entries ++ ((oid, (length w.writer, length object + 5)) ∷ []))
        (insert oid (t, object) m)
        (write_object oid t object w)
unfolding write_object add_entry
write_object-Streams n entries m oid t object w fit small s =
    let place : ℕ × ℕ = (length w.writer, length object + 5) in
    let last : PackIndex = (oid, place) ∷ [] in
    let sized : as_u32 (as_u32 (length object) + 5) ≡ length object + 5 = omega arith in
    let writer = write_object-writer oid t object w in
    let grown = length-append w.writer (object_bytes t object) in
    let size = length-object_bytes t object in
    let count = length-append entries last in
    record {
      body = s.body ++ object_bytes t object;
      starts = writer ∙ ap (λ b. b ++ object_bytes t object) s.starts ∙ simp append_assoc;
      hashed = ap (λ b. (b ++ (to_u8 t ∷ to_le 4 (as_u32 (length object)))) ++ object) s.hashed;
      offset =
          rw (s.offset, writer, length-append w.writer (object_bytes t object), size)
            (add64_twice (length w.writer) (length object) (omega arith));
      expected = s.expected;
      counted = rw (s.counted, count) (mod-eq_of_lt (omega (arith, s.few)) ∙ omega arith);
      indexed =
          rw (s.indexed, s.offset, sized)
            (ap some (
              add_entry-index_of entries oid (length w.writer) (length object + 5)
                (omega (arith, s.few))));
      fits = All-append EntryFits entries (oid, place) s.fits (fit, omega arith, omega arith);
      few = rw (count, writer) (omega (arith, s.few, grown, size));
      placed = λ k.
          rw (insert_all-append [] entries oid place, writer)
            (Placed-insert w.writer (insert_all [] entries) m oid t object _ refl s.placed k);
    }

pub write_all-Streams :
    (writes : List Write) (n : ℕ) (entries : PackIndex) (m : BTreeMap Oid (ObjectType × List ℕ))
    (w : StreamingPackWriter)
    → All (λ e. IsOid e.0) writes
    → length w.writer + objects_size writes < 2 ^ 32
    → Streams n entries m w
    → (entries' : PackIndex) × (length entries' ≡ length entries + length writes)
      × Streams n entries' (insert_all m writes) (write_all writes w)
unfolding write_all insert_all
write_all-Streams [] n entries m w h small s = (entries, omega arith, s)
write_all-Streams ((oid, (t, object)) ∷ writes) n entries m w (fit, h) small s =
    let more : PackIndex = (oid, (length w.writer, length object + 5)) ∷ [] in
    let grown = length-append w.writer (object_bytes t object) in
    let size = length-object_bytes t object in
    let writer = ap length (write_object-writer oid t object w) in
    let (entries', count, s') =
      write_all-Streams writes n (entries ++ more) (insert oid (t, object) m)
        (write_object oid t object w) h (omega arith)
        (write_object-Streams n entries m oid t object w fit (omega arith) s) in
    (entries', omega (arith, length-append entries more), s')

pub length-write_all :
    (writes : List Write) (w : StreamingPackWriter)
    → length (write_all writes w).writer ≡ length w.writer + objects_size writes
unfolding write_all
length-write_all [] w = omega arith
length-write_all ((oid, (t, object)) ∷ writes) w =
    let writer = ap length (write_object-writer oid t object w) in
    omega (
      arith,
      length-write_all writes (write_object oid t object w),
      length-append w.writer (object_bytes t object),
      length-object_bytes t object,
    )
