-- ===== src/Delta/Laws.antt =====
-- delta.rs: the wire format and the decoder against the encoder.
use native.Mathlib.Nat.{mod-eq_of_lt}
use mediagit_core.Prelude.{
  ℕ, ◌^◌, ◌<◌, ◌≤◌, ◌≡◌, ◌≢◌, ◌⊎◌, inl, inr, refl, List, [], ◌∷◌, ◌++◌, some, length, arith,
}
use mediagit_core.Result.{ok, ◌>>=◌}
use mediagit_core.Bytes.{as_u32}
use mediagit_core.Delta.Varint.{encode_varint, decode-encode_varint}
use mediagit_core.Delta.{
  Delta, Zstd, to_bytes, from_bytes, max_1, encode, compress_or_raw, apply, max_delta_result_size,
}

-- Reading back a serialized delta gives its payload, and its two sizes cut to 32 bits; the ratio
-- is that of the whole input to the result.
pub from_bytes-to_bytes :
    (d : Delta)
    → from_bytes (to_bytes d)
      ≡ ok (record {
        base_size = as_u32 d.base_size;
        result_size = as_u32 d.result_size;
        compression_ratio = (length (to_bytes d), max_1 (as_u32 d.result_size));
        zstd_data = d.zstd_data;
      })
unfolding from_bytes to_bytes
from_bytes-to_bytes d = rw (
  decode-encode_varint (as_u32 d.base_size) (encode_varint (as_u32 d.result_size) ++ d.zstd_data)
      (omega arith),
  decode-encode_varint (as_u32 d.result_size) d.zstd_data (omega arith),
)

payload_cases : (l : List ℕ) → (l ≡ []) ⊎ ((b : ℕ) × (bs : List ℕ) × (l ≡ b ∷ bs))
payload_cases [] = inl refl
payload_cases (b ∷ bs) = inr (b, bs, refl)

module _ (z : Zstd) where
  -- What the decoder returns has the size that the delta states, unless the delta has no payload:
  -- then the decoder returns the empty object, whatever size is stated.
  pub length-apply :
      (base : List ℕ) (d : Delta) (r : List ℕ)
      → apply z base d ≡ ok r
      → (length r ≡ d.result_size) ⊎ ((d.zstd_data ≡ []) × (r ≡ []))
  unfolding apply
  length-apply base d r h = ground (arith, payload_cases d.zstd_data)

  -- A delta whose payload is the compressed target, and whose size is right, gives the target.
  apply_frame :
      (base target frame : List ℕ) (m n : ℕ) (q : ℕ × ℕ)
      → z.compress base target ≡ some frame
      → n ≡ length target
      → length target ≤ max_delta_result_size
      → apply z base
          (record { base_size = m; result_size = n; compression_ratio = q; zstd_data = frame })
        ≡ ok target
  unfolding apply
  apply_frame base target [] m n q c p fits = absurd (z.frame_ne_nil base target [] c refl)
  apply_frame base target (f ∷ fs) m n q c p fits =
      ground (arith, z.decompress-compress base target (f ∷ fs) n c (omega arith))

  -- Encoding a target below 4 GiB, writing the delta, reading it and applying it to the base gives
  -- the target, where the compressor succeeds.
  pub apply-encode :
      (base target frame : List ℕ)
      → z.compress base target ≡ some frame
      → length target < 2 ^ 32
      → (from_bytes (to_bytes (encode z base target)) >>= apply z base) ≡ ok target
  unfolding apply encode compress_or_raw
  apply-encode base [] frame c h = rw from_bytes-to_bytes
  apply-encode base (b ∷ bs) frame c h =
      rw (from_bytes-to_bytes (encode z base (b ∷ bs)), c, compress_or_raw)
        (apply_frame base (b ∷ bs) frame 0 _ (0, 0) c (mod-eq_of_lt h) (omega arith))

  sizes :
      (base : List ℕ) (b : ℕ) (bs : List ℕ) → (encode z base (b ∷ bs)).result_size ≡ length (b ∷ bs)
  unfolding encode
  sizes base b bs = refl

  -- For a target of 4 GiB or more, the delta that was written and read never gives the target.
  pub apply_4_gib :
      (base target : List ℕ)
      → 2 ^ 32 ≤ length target
      → (from_bytes (to_bytes (encode z base target)) >>= apply z base) ≢ ok target
  apply_4_gib base [] h e = absurd (omega arith)
  apply_4_gib base (b ∷ bs) h e =
      let read = from_bytes-to_bytes (encode z base (b ∷ bs)) in
      elim (length-apply base _ (b ∷ bs) (rw read at e)) [
        | inl size ↦ absurd (omega (arith, sizes base b bs))
        | inr (_, empty) ↦ cc empty
      ]
