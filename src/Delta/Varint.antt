-- ===== src/Delta/Varint.antt =====
-- delta.rs: `encode_varint` and `decode_varint` on 32-bit values, seven bits a byte.
use mediagit_core.Prelude.{
  ℕ, zero, suc, ◌+◌, ◌*◌, ◌/◌, ◌%◌, ◌^◌, ◌<◌, ◌≡◌, ap, List, [], ◌∷◌, ◌++◌, leb, ◌==◌,
  if◌then◌else◌, arith,
}
use mediagit_core.Result.{Result, ok, err}
use native.Mathlib.Nat.{div-add-mod}
use native.Mathlib.Numerals.{towards_suc}

pub data DeltaError : Type 0 where
  missing_magic varint_overflow varint_too_large : DeltaError
  too_large_result decompress_failed size_mismatch : DeltaError

-- `value & 0x7f` is `value % 128`, and setting the bit 0x80 on it adds 128. `rounds` bounds the
-- loop from above: a `u32` has five groups at most, and `encode_varint` gives five.
encode_loop : ℕ → ℕ → List ℕ
encode_loop zero value = []
encode_loop (suc rounds) value =
    let rest = encode_loop rounds (value / 128) in
    if value / 128 == 0 then (value % 128) ∷ [] else (value % 128 + 128) ∷ rest

unfoldable pub encode_varint : ℕ → List ℕ
unfolding encode_loop
encode_varint value = encode_loop 5 value

-- The list is what `pos` has not passed. A group shifted by `shift` is cut at 32 bits, and its
-- bits are disjoint from those of `result`, so that `|=` adds.
decode_loop : List ℕ → ℕ → ℕ → Result DeltaError (ℕ × List ℕ)
decode_loop [] result shift = err varint_overflow
decode_loop (byte ∷ rest) result shift =
    let result' = result + byte % 128 * 2 ^ shift % 2 ^ 32 in
    let more = decode_loop rest result' (shift + 7) in
    if byte / 128 % 2 == 0
    then ok (result', rest)
    else if leb 32 (shift + 7)
    then err varint_too_large
    else more

unfoldable pub decode_varint : List ℕ → Result DeltaError (ℕ × List ℕ)
unfolding decode_loop
decode_varint bytes = decode_loop bytes 0 0

shift_seven : (s : ℕ) → 2 ^ (s + 7) ≡ 128 * 2 ^ s
shift_seven s = simp towards_suc (omega arith)

-- The lowest group of `v` and the rest, both shifted by `s`.
split_group : (v s : ℕ) → v * 2 ^ s ≡ v % 128 * 2 ^ s + v / 128 * 2 ^ (s + 7)
split_group v s = omega (
  arith,
  ap (λ (t : ℕ). t * 2 ^ s) (div-add-mod v 128),
  ap (λ (t : ℕ). v / 128 * t) (shift_seven s),
)

-- Four bits of a `u32` lie above bit 28.
last_group :
    (v acc : ℕ) (rest : List ℕ)
    → acc + v * 2 ^ 28 < 2 ^ 32
    → decode_loop (encode_loop 1 v ++ rest) acc 28 ≡ ok (acc + v * 2 ^ 28, rest)
unfolding decode_loop encode_loop
last_group v acc rest fits = ground arith

-- After the groups below bit `shift`, the loop reads those of `v` that are left.
decode-encode_loop :
    (k v acc shift : ℕ) (rest : List ℕ)
    → shift + 7 * k ≡ 28
    → acc + v * 2 ^ shift < 2 ^ 32
    → decode_loop (encode_loop (suc k) v ++ rest) acc shift ≡ ok (acc + v * 2 ^ shift, rest)
unfolding decode_loop encode_loop
decode-encode_loop zero v acc shift rest hs fits =
    let e : shift ≡ 28 = omega arith in rw e (last_group v acc rest (rw e at fits))
decode-encode_loop (suc k) v acc shift rest hs fits = ground (
  arith,
  split_group v shift,
  decode-encode_loop k (v / 128) (acc + v % 128 * 2 ^ shift) (shift + 7) rest (omega arith),
)

-- A number below 2^32 is read back as it was written, with what follows it left.
pub decode-encode_varint :
    (v : ℕ) (rest : List ℕ) → v < 2 ^ 32 → decode_varint (encode_varint v ++ rest) ≡ ok (v, rest)
unfolding decode_varint encode_varint
decode-encode_varint v rest h = ground (arith, decode-encode_loop 4 v 0 0 rest (omega arith))
