-- ===== src/Pack/Writer/Contents.antt =====
-- pack.rs: what a writer holds after a sequence of `add_object` and `add_delta_object`.
use mediagit_core.Prelude.{
  ℕ, ◌+◌, ◌^◌, ◌<◌, ◌≤◌, ◌≡◌, inl, inr, Option, none, some, List, [], ◌∷◌, ◌++◌, map, All, All-imp,
  length, length-append, arith,
}
use mediagit_core.Bytes.{to_le, as_u32, length-to_le}
use mediagit_core.Object.{ObjectType, Oid, IsOid}
use mediagit_core.BTreeMap.{BTreeMap, get, insert, insert_all}
use mediagit_core.BTreeMap.Order.{bytes_ord, bytes_cmp, Ordering-cases}
use mediagit_core.BTreeMap.Lookup.{get-insert}
use mediagit_core.BTreeMap.Sorted.{IsSorted, insert-IsSorted, All-insert, length-insert}
use mediagit_core.Pack.{delta_magic}
use mediagit_core.Pack.Segment.{Segment, Segment-append, Segment-last}
use mediagit_core.Pack.Writer.{new_writer, PackWriter, object_bytes, add_object, add_delta_object}
use mediagit_core.Pack.Writer.Moved.{Within}

pub data PackOp : Type 0 where
  whole : Oid → ObjectType → List ℕ → PackOp
  patch : Oid → Oid → List ℕ → PackOp

unfoldable pub perform : PackOp → PackWriter → PackWriter
perform (whole oid t object) w = (add_object oid t object w).0
perform (patch oid base delta) w = (add_delta_object oid base delta w).0

unfoldable pub perform_all : List PackOp → PackWriter → PackWriter
unfolding perform
perform_all [] w = w
perform_all (op ∷ ops) w = perform_all ops (perform op w)

abbrev pub named : PackOp → Oid × PackOp
named (whole oid t object) = (oid, whole oid t object)
named (patch oid base delta) = (oid, patch oid base delta)

-- The last operation on each identifier.
abbrev pub contents : List PackOp → BTreeMap Oid PackOp
contents ops = insert_all [] (map named ops)

-- The identifiers have their length.
abbrev pub IsComplete : PackOp → Type 0
IsComplete (whole oid t object) = IsOid oid
IsComplete (patch oid base delta) = IsOid oid × IsOid base

abbrev pub op_bytes : PackOp → List ℕ
op_bytes (whole oid t object) = object_bytes t object
op_bytes (patch oid base delta) = delta_magic ++ (base ++ delta)

-- The size that the index gets, where it fits.
abbrev pub op_size : PackOp → ℕ
op_size (whole oid t object) = length object + 5
op_size (patch oid base delta) = length delta

-- The index has a place exactly where an operation named the object, and the bytes stand there.
abbrev pub AtPlace : List ℕ → Option (ℕ × ℕ) → Option PackOp → Type 0
AtPlace bytes none none = Unit
AtPlace bytes none (some op) = ⊥
AtPlace bytes (some place) none = ⊥
AtPlace bytes (some (offset, size)) (some op) =
    Segment bytes offset (op_bytes op) × (size ≡ op_size op)

abbrev pub Represents : PackWriter → BTreeMap Oid PackOp → Type 0
Represents w m = (oid : Oid) → AtPlace w.bytes (get oid w.index) (get oid m)

pub record IsValid (w : PackWriter) : Type 0 where
  pub sorted : IsSorted w.index
  pub within : All (Within (length w.bytes)) w.index
  pub few : length w.index ≤ length w.bytes

pub length-object_bytes :
    (t : ObjectType) (object : List ℕ) → length (object_bytes t object) ≡ length object + 5
unfolding object_bytes
length-object_bytes t object =
    let size = to_le 4 (as_u32 (length object)) in
    omega (arith, length-append size object, length-to_le 4 (as_u32 (length object)))

pub new_writer-IsValid : IsValid new_writer
new_writer-IsValid = record { sorted = tt; within = tt; few = omega arith }

pub perform-IsValid :
    (op : PackOp) (w : PackWriter) → IsComplete op → IsValid w → IsValid (perform op w)
unfolding perform add_object add_delta_object
perform-IsValid (whole oid t object) w fit v =
    let entry : ℕ × ℕ = (length w.bytes, as_u32 (as_u32 (length object) + 5)) in
    let grown = length-append w.bytes (object_bytes t object) in
    let size = length-object_bytes t object in
    record {
      sorted = insert-IsSorted oid entry w.index v.sorted;
      within =
          All-insert _ oid entry w.index (fit, omega (arith, grown, size))
            (All-imp w.index (λ e h. (h.0, omega (arith, grown, h.1))) v.within);
      few = omega (arith, grown, size, length-insert oid entry w.index, v.few);
    }
perform-IsValid (patch oid base delta) w (fit, fit_base) v =
    let entry : ℕ × ℕ = (length w.bytes, as_u32 (length delta)) in
    let grown = length-append w.bytes (delta_magic ++ (base ++ delta)) in
    let size = length-append base delta in
    record {
      sorted = insert-IsSorted oid entry w.index v.sorted;
      within =
          All-insert _ oid entry w.index (fit, omega (arith, grown, size))
            (All-imp w.index (λ e h. (h.0, omega (arith, grown, h.1))) v.within);
      few = omega (arith, grown, size, length-insert oid entry w.index, v.few);
    }

AtPlace-append :
    (bytes more : List ℕ) (place : Option (ℕ × ℕ)) (op : Option PackOp)
    → AtPlace bytes place op
    → AtPlace (bytes ++ more) place op
AtPlace-append bytes more none none h = tt
AtPlace-append bytes more none (some op) h = absurd h
AtPlace-append bytes more (some place) none h = absurd h
AtPlace-append bytes more (some (offset, size)) (some op) (s, e) = (Segment-append more s, e)

-- One more object behind the others.
Represents-insert :
    (w : PackWriter) (m : BTreeMap Oid PackOp) (oid : Oid) (op : PackOp) (size : ℕ)
    → size ≡ op_size op
    → Represents w m
    → (k : Oid)
    → AtPlace
        (w.bytes ++ op_bytes op)
        (get k (insert oid (length w.bytes, size) w.index))
        (get k (insert oid op m))
Represents-insert w m oid op size e h k =
    let old = AtPlace-append w.bytes (op_bytes op) (get k w.index) (get k m) (h k) in
    rw (get-insert oid k (length w.bytes, size) w.index, get-insert oid k op m)
      (elim (Ordering-cases (bytes_cmp k oid)) [
        | inl c ↦ rw c old
        | inr (inl c) ↦ rw c (Segment-last w.bytes (op_bytes op), e)
        | inr (inr c) ↦ rw c old
      ])

pub perform-Represents :
    (op : PackOp) (w : PackWriter) (m : BTreeMap Oid PackOp)
    → length (perform op w).bytes < 2 ^ 32
    → Represents w m
    → Represents (perform op w) (insert (named op).0 op m)
unfolding perform add_object add_delta_object
perform-Represents (whole oid t object) w m small h =
    let grown = length-append w.bytes (object_bytes t object) in
    let size = length-object_bytes t object in
    Represents-insert w m oid (whole oid t object) _ (omega arith) h
perform-Represents (patch oid base delta) w m small h =
    let grown = length-append w.bytes (delta_magic ++ (base ++ delta)) in
    let size = length-append base delta in
    Represents-insert w m oid (patch oid base delta) _ (omega arith) h
