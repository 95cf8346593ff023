-- ===== src/Pack/Reader/Objects.antt =====
-- pack.rs: what the reader returns for an object whose bytes stand where the index says.
use mediagit_core.Prelude.{
  ℕ, suc, ◌+◌, ◌-◌, ◌<◌, ◌≤◌, ◌^◌, ◌≡◌, refl, ap, List, ◌∷◌, ◌++◌, length, length-take, take, drop,
  get_elem?-length_append, true, false, some, le→leb, lt→leb, take-append-drop, arith,
}
use native.Mathlib.Nat.{mod-eq_of_lt}
use mediagit_core.Result.{ok, err, ◌>>=◌, map_err}
use mediagit_core.Bytes.{to_le, as_u32, length-to_le, bytes_eq}
use mediagit_core.Object.{ObjectType, blob, tree, commit, to_u8, from_u8, from_u8-to_u8, Oid, IsOid}
use mediagit_core.Delta.{Zstd, from_bytes, apply}
use mediagit_core.BTreeMap.{get}
use mediagit_core.BTreeMap.Order.{bytes_ord}
use mediagit_core.Pack.{
  delta_magic, delta_too_small, invalid_object_type, delta_parse_failed, delta_apply_failed,
}
use mediagit_core.Pack.Segment.{Segment, Segment-front, Segment-back, Segment-end, slice-Segment}
use mediagit_core.Pack.Writer.{object_bytes}
use mediagit_core.Pack.Reader.{
  PackReader, add64, byte_at, is_delta, read_regular, read_delta_object, get_object_at,
}

byte_at-Segment :
    {bytes : List ℕ} {offset b : ℕ} {rest : List ℕ}
    → Segment bytes offset (b ∷ rest)
    → byte_at offset bytes ≡ ok b
byte_at-Segment {b = b} {rest = rest} s =
    let found = get_elem?-length_append s.before b (rest ++ s.behind) in
    rw (s.split, ← s.at, byte_at) (rw (found, byte_at))

type_ne_magic : (t : ObjectType) (rest : List ℕ) → bytes_eq (to_u8 t ∷ rest) delta_magic ≡ false
unfolding to_u8
type_ne_magic blob rest = refl
type_ne_magic tree rest = refl
type_ne_magic commit rest = refl

-- A sum that fits 64 bits does not wrap.
add64_fits : (a b : ℕ) → a + b < 2 ^ 64 → add64 a b ≡ a + b
add64_fits a b h = mod-eq_of_lt h

module _ (bytes : List ℕ) (offset : ℕ) (t : ObjectType) (object : List ℕ)
    (here : Segment bytes offset (object_bytes t object)) (small : length bytes < 2 ^ 64) where
  abbrev head : List ℕ
  head = to_u8 t ∷ to_le 4 (as_u32 (length object))

  length-head : length head ≡ 5
  length-head = ap suc (length-to_le 4 (as_u32 (length object)))

  head_field : Segment bytes offset head
  unfolding object_bytes
  head_field = Segment-front head object here

  object_field : Segment bytes (offset + 5) object
  unfolding object_bytes
  object_field = rw length-head at (Segment-back head object here)

  object_end : offset + 5 + length object ≤ length bytes
  object_end = Segment-end object_field

  regular_is_delta : is_delta bytes offset (length object + 5) ≡ ok false
  unfolding is_delta
  regular_is_delta =
      rw
        (
          le→leb 5 (length object + 5) (omega arith),
          add64_fits offset 5 (omega (arith, object_end)),
          slice-Segment offset (offset + 5) head_field (omega (arith, length-head)),
        )
        (ap ok (type_ne_magic t (to_le 4 (as_u32 (length object)))))

  regular_lem : read_regular bytes offset (length object + 5) ≡ ok (t, object)
  unfolding read_regular
  regular_lem = rw (
    byte_at-Segment head_field,
    from_u8-to_u8 t,
    le→leb 5 (length object + 5) (omega arith),
    add64_fits offset 5 (omega (arith, object_end)),
    add64_fits (offset + 5) (length object + 5 - 5) (omega (arith, object_end)),
    slice-Segment (offset + 5) (offset + 5 + (length object + 5 - 5)) object_field (omega arith),
  )

module _ (z : Zstd) (r : PackReader) (oid : Oid) (offset : ℕ)
    (small : length r.bytes < 2 ^ 64) where
  -- An object that was stored whole is returned with its type.
  pub get_object_at-regular :
      (levels : ℕ) (t : ObjectType) (object : List ℕ)
      → Segment r.bytes offset (object_bytes t object)
      → get oid r.index ≡ some (offset, length object + 5)
      → get_object_at z (suc levels) r oid ≡ ok (t, object)
  unfolding get_object_at
  get_object_at-regular levels t object here e =
      let end = object_end r.bytes offset t object here small in
      rw
        (
          e,
          add64_fits offset (length object + 5) (omega arith),
          le→leb (offset + (length object + 5)) (length r.bytes) (omega arith),
          regular_is_delta r.bytes offset t object here small,
        )
        (regular_lem r.bytes offset t object here small)

  module _ (base delta : List ℕ) (base_IsOid : IsOid base)
      (here : Segment r.bytes offset (delta_magic ++ (base ++ delta)))
      (e : get oid r.index ≡ some (offset, length delta)) where
    magic_field : Segment r.bytes offset delta_magic
    magic_field = Segment-front delta_magic (base ++ delta) here

    base_field : Segment r.bytes (offset + 5) base
    base_field = Segment-front base delta (Segment-back delta_magic (base ++ delta) here)

    delta_field : Segment r.bytes (offset + 5 + 32) delta
    delta_field =
        rw base_IsOid at (Segment-back base delta (Segment-back delta_magic (base ++ delta) here))

    delta_end : offset + 5 + 32 + length delta ≤ length r.bytes
    delta_end = Segment-end delta_field

    -- Below five bytes of delta, the magic is not looked for, and its first byte is no type.
    pub get_object_at-tiny :
        (levels : ℕ)
        → length delta < 5
        → get_object_at z (suc levels) r oid ≡ err invalid_object_type
    unfolding get_object_at is_delta read_regular from_u8
    get_object_at-tiny levels h = rw (
      e,
      add64_fits offset (length delta) (omega (arith, delta_end)),
      le→leb (offset + length delta) (length r.bytes) (omega (arith, delta_end)),
      lt→leb 5 (length delta) h,
      byte_at-Segment magic_field,
    )

    found_delta : 5 ≤ length delta → is_delta r.bytes offset (length delta) ≡ ok true
    unfolding is_delta
    found_delta h = rw (
      le→leb 5 (length delta) h,
      add64_fits offset 5 (omega (arith, delta_end)),
      slice-Segment offset (offset + 5) magic_field refl,
    )

    pub get_object_at-short :
        (levels : ℕ)
        → 5 ≤ length delta
        → length delta < 37
        → get_object_at z (suc levels) r oid ≡ err delta_too_small
    unfolding get_object_at read_delta_object
    get_object_at-short levels h k = rw (
      e,
      add64_fits offset (length delta) (omega (arith, delta_end)),
      le→leb (offset + length delta) (length r.bytes) (omega (arith, delta_end)),
      found_delta h,
      lt→leb 37 (length delta) k,
    )

    -- The bytes that the reader takes for the delta.
    cut_field : Segment r.bytes (offset + 5 + 32) (take (length delta - 37) delta)
    cut_field =
        let n = length delta - 37 in
        Segment-front (take n delta) (drop n delta) (rw (take-append-drop n delta) delta_field)

    pub get_object_at-delta :
        (levels : ℕ)
        → 37 ≤ length delta
        → get_object_at z (suc levels) r oid ≡ (do
          (base_type, base_object) ← get_object_at z levels r base
          d ← map_err delta_parse_failed (from_bytes (take (length delta - 37) delta))
          object ← map_err delta_apply_failed (apply z base_object d)
          ok (base_type, object))
    unfolding get_object_at read_delta_object
    get_object_at-delta levels h = rw (
      e,
      add64_fits offset (length delta) (omega (arith, delta_end)),
      le→leb (offset + length delta) (length r.bytes) (omega (arith, delta_end)),
      found_delta (omega arith),
      le→leb 37 (length delta) h,
      add64_fits offset 5 (omega (arith, delta_end)),
      add64_fits (offset + 5) 32 (omega (arith, delta_end)),
      slice-Segment (offset + 5) (offset + 5 + 32) base_field (omega (arith, base_IsOid)),
      slice-Segment (offset + 5 + 32) (offset + length delta) cut_field
          (omega (arith, length-take (length delta - 37) delta)),
    )
