-- ===== src/Pack/RoundTrip.antt =====
-- pack.rs: reading, from a pack that was written by any sequence of `add_object` and
-- `add_delta_object` and opened again, the objects that were added.
use mediagit_core.Prelude.{
  ℕ, ◌+◌, ◌-◌, ◌^◌, ◌<◌, ◌≤◌, ◌≡◌, refl, ap, ◌∙◌, Option, none, some, List, [], ◌∷◌, map, All,
  length, length-append, arith, take, inl, inr, Bool-cases, ltb→lt, ltb→le, ltb, if◌then◌else◌,
}
use mediagit_core.Result.{Result, ok, err, ◌>>=◌, map_err}
use mediagit_core.Object.{ObjectType, Oid, IsOid}
use mediagit_core.Delta.{Zstd, from_bytes, apply}
use mediagit_core.BTreeMap.{BTreeMap, get, insert, insert_all}
use mediagit_core.BTreeMap.Order.{bytes_ord}
use mediagit_core.Pack.{
  PackError, object_not_found, delta_too_small, invalid_object_type, delta_parse_failed,
  delta_apply_failed,
}
use mediagit_core.Pack.Segment.{Segment}
use mediagit_core.Pack.Writer.{
  PackWriter, new_writer, object_bytes, add_object, add_delta_object, finalize, moved,
}
use mediagit_core.Pack.Writer.Contents.{
  PackOp, whole, patch, perform, perform_all, named, contents, IsComplete, op_bytes, op_size,
  AtPlace, Represents, IsValid, new_writer-IsValid, perform-IsValid, perform-Represents,
}
use mediagit_core.Pack.Writer.Moved.{get-moved}
use mediagit_core.Pack.Reader.{PackReader, new_reader, get_object_at, get_object_with_type}
use mediagit_core.Pack.Reader.Objects.{
  get_object_at-regular, get_object_at-tiny, get_object_at-short, get_object_at-delta,
}
use mediagit_core.Pack.Open.{new_reader-finalize, finalize_small, finalize-Segment}

perform_grows : (op : PackOp) (w : PackWriter) → length w.bytes ≤ length (perform op w).bytes
unfolding perform add_object add_delta_object
perform_grows (whole oid t object) w = omega (arith, length-append w.bytes (object_bytes t object))
perform_grows (patch oid base delta) w =
    omega (arith, length-append w.bytes (op_bytes (patch oid base delta)))

perform_all_grows :
    (ops : List PackOp) (w : PackWriter) → length w.bytes ≤ length (perform_all ops w).bytes
unfolding perform_all
perform_all_grows [] w = omega arith
perform_all_grows (op ∷ ops) w =
    omega (arith, perform_grows op w, perform_all_grows ops (perform op w))

pub perform_all-IsValid :
    (ops : List PackOp) (w : PackWriter)
    → All IsComplete ops
    → IsValid w
    → IsValid (perform_all ops w)
unfolding perform_all
perform_all-IsValid [] w c v = v
perform_all-IsValid (op ∷ ops) w (c, cs) v =
    perform_all-IsValid ops (perform op w) cs (perform-IsValid op w c v)

pub perform_all-Represents :
    (ops : List PackOp) (w : PackWriter) (m : BTreeMap Oid PackOp)
    → length (perform_all ops w).bytes < 2 ^ 32
    → Represents w m
    → Represents (perform_all ops w) (insert_all m (map named ops))
unfolding perform_all insert_all
perform_all-Represents [] w m small h = h
perform_all-Represents (whole oid t object ∷ ops) w m small h =
    let op = whole oid t object in
    perform_all-Represents ops (perform op w) (insert oid op m) small
      (perform-Represents op w m (omega (arith, perform_all_grows ops (perform op w))) h)
perform_all-Represents (patch oid base delta ∷ ops) w m small h =
    let op = patch oid base delta in
    perform_all-Represents ops (perform op w) (insert oid op m) small
      (perform-Represents op w m (omega (arith, perform_all_grows ops (perform op w))) h)

pub place_of :
    (bytes : List ℕ) (place : Option (ℕ × ℕ)) (op : PackOp)
    → AtPlace bytes place (some op)
    → (offset : ℕ) × (place ≡ some (offset, op_size op)) × Segment bytes offset (op_bytes op)
place_of bytes none op h = absurd h
place_of bytes (some (offset, size)) op (s, e) = (offset, ap (λ n. some (offset, n)) e, s)

pub no_place : (bytes : List ℕ) (place : Option (ℕ × ℕ)) → AtPlace bytes place none → place ≡ none
no_place bytes none h = refl
no_place bytes (some place) h = absurd h

-- Writing, finalizing, opening and reading one object.
unfoldable pub read_after :
    Zstd → (List ℕ → List ℕ) → List PackOp → Oid → Result PackError (ObjectType × List ℕ)
read_after z sha256 ops oid = do
  r ← new_reader sha256 (finalize sha256 (perform_all ops new_writer))
  get_object_with_type z r oid

module _ (z : Zstd) (sha256 : List ℕ → List ℕ) (sum_32 : (b : List ℕ) → length (sha256 b) ≡ 32)
    (ops : List PackOp) (complete : All IsComplete ops)
    (small : 12 + length (perform_all ops new_writer).bytes < 2 ^ 32) where
  abbrev written : PackWriter
  written = perform_all ops new_writer

  abbrev opened : PackReader
  opened = record {
    bytes = finalize sha256 written;
    index = map (moved 12) written.index;
    object_data_end = 12 + length written.bytes;
  }

  valid : IsValid written
  valid = perform_all-IsValid ops new_writer complete new_writer-IsValid

  represents : Represents written (contents ops)
  represents = perform_all-Represents ops new_writer [] (omega arith) (λ oid. unfold get in tt)

  fits : length (finalize sha256 written) < 2 ^ 64
  fits = finalize_small sha256 written sum_32 valid small

  opens : (oid : Oid) → read_after z sha256 ops oid ≡ get_object_at z 11 opened oid
  unfolding read_after get_object_with_type
  opens oid = rw (new_reader-finalize sha256 written sum_32 valid small)

  -- Where the file has the bytes of the last operation on `oid`, and the index their place.
  located_op :
      (oid : Oid) (op : PackOp)
      → get oid (contents ops) ≡ some op
      → (offset : ℕ) × (get oid opened.index ≡ some (offset, op_size op))
        × Segment opened.bytes offset (op_bytes op)
  located_op oid op e =
      let (offset, place, s) =
        place_of written.bytes (get oid written.index) op (rw e at (represents oid)) in
      (
        12 + offset,
        rw (get-moved 12 oid written.index, place),
        finalize-Segment sha256 written sum_32 valid small offset (op_bytes op) s,
      )

  -- An object whose last operation was `add_object` is read back with its type and bytes from the
  -- pack that any sequence of `add_object` and `add_delta_object` wrote, finalized and opened
  -- again, where the header and the objects take less than 4 GiB and checksums and identifiers
  -- have 32 bytes.
  pub read_whole :
      (oid key : Oid) (t : ObjectType) (object : List ℕ)
      → get oid (contents ops) ≡ some (whole key t object)
      → read_after z sha256 ops oid ≡ ok (t, object)
  read_whole oid key t object e =
      let (offset, place, s) = located_op oid (whole key t object) e in
      opens oid ∙ get_object_at-regular z opened oid offset fits 10 t object s place

  -- Under the same conditions as for `add_object`, an object that no operation named is reported
  -- as missing.
  pub read_missing :
      (oid : Oid)
      → get oid (contents ops) ≡ none
      → read_after z sha256 ops oid ≡ err object_not_found
  read_missing oid e =
      let p = no_place written.bytes (get oid written.index) (rw e at (represents oid)) in
      opens oid ∙ unfold get_object_at in rw (get-moved 12 oid written.index, p)

  -- Under the same conditions as for `add_object`, an object whose last operation was
  -- `add_delta_object` with a delta of fewer than 37 bytes is never read back: the reader finds no
  -- object type where the delta has fewer than five bytes, and takes the delta for too small
  -- otherwise.
  pub read_patch_short :
      (oid key base delta : Oid)
      → IsOid base
      → length delta < 37
      → get oid (contents ops) ≡ some (patch key base delta)
      → read_after z sha256 ops oid
        ≡ (if ltb (length delta) 5 then err invalid_object_type else err delta_too_small)
  read_patch_short oid key base delta base_IsOid short e =
      let (offset, place, s) = located_op oid (patch key base delta) e in
      elim (Bool-cases (ltb (length delta) 5)) [
        | inl tiny ↦ rw tiny (
            opens oid
            ∙ get_object_at-tiny z opened oid offset fits base delta base_IsOid s place 10
                (ltb→lt _ _ tiny))
        | inr more ↦ rw more (
            opens oid
            ∙ get_object_at-short z opened oid offset fits base delta base_IsOid s place 10
                (ltb→le _ _ more) short)
      ]

  -- Under the same conditions as for `add_object`, an object whose last operation was
  -- `add_delta_object`, with a delta of 37 bytes or more over a base that was added whole, is read
  -- with the delta's last 37 bytes cut off.
  pub read_patch_cut :
      (oid key base delta key' : Oid) (t : ObjectType) (object : List ℕ)
      → IsOid base
      → 37 ≤ length delta
      → get oid (contents ops) ≡ some (patch key base delta)
      → get base (contents ops) ≡ some (whole key' t object)
      → read_after z sha256 ops oid ≡ (do
        d ← map_err delta_parse_failed (from_bytes (take (length delta - 37) delta))
        target ← map_err delta_apply_failed (apply z object d)
        ok (t, target))
  read_patch_cut oid key base delta key' t object base_IsOid long e e' =
      let (offset, place, s) = located_op oid (patch key base delta) e in
      let (offset', place', s') = located_op base (whole key' t object) e' in
      opens oid
      ∙ get_object_at-delta z opened oid offset fits base delta base_IsOid s place 10 long
      ∙ rw (get_object_at-regular z opened base offset' fits 9 t object s' place')
