-- ===== src/Delta/Tests.antt =====
-- Runs of the delta functions, and the theorems at concrete inputs.
use mediagit_core.Prelude.{
  ℕ, zero, suc, ◌^◌, ◌≤◌, ◌≡◌, ◌≢◌, refl, ap, List, [], ◌∷◌, Option, none, some, length, leb,
  if◌then◌else◌, arith,
}
use mediagit_core.Result.{ok, err, ◌>>=◌}
use mediagit_core.Delta.Varint.{encode_varint, decode_varint, varint_too_large}
use mediagit_core.Delta.{Delta, Zstd, to_bytes, from_bytes, encode, apply}
use mediagit_core.Delta.Laws.{apply-encode, apply_4_gib}

-- A compressor that stores its input behind one byte.
abbrev pub store_decompress : List ℕ → List ℕ → ℕ → Option (List ℕ)
store_decompress base [] n = none
store_decompress base (b ∷ bs) n = if leb (length bs) n then some bs else none

pub store_ne_nil :
    (base input frame : List ℕ)
    → ◌≡◌ {A = Option (List ℕ)} (some (0x28 ∷ input)) (some frame)
    → frame ≢ []
store_ne_nil base input frame h e = cc

pub store_law :
    (base input frame : List ℕ) (n : ℕ)
    → ◌≡◌ {A = Option (List ℕ)} (some (0x28 ∷ input)) (some frame)
    → length input ≤ n
    → store_decompress base frame n ≡ some input
store_law base input frame n h k = let e : 0x28 ∷ input ≡ frame = cc in rw (← e) (ground arith)

abbrev pub store : Zstd
store = record {
  compress = λ base input. some (0x28 ∷ input);
  decompress = store_decompress;
  frame_ne_nil = store_ne_nil;
  decompress-compress = store_law;
}

varint_300 : encode_varint 300 ≡ 0xac ∷ 0x02 ∷ []
unfolding encode_varint
varint_300 = refl

varint_five_groups :
    decode_varint (0xff ∷ 0xff ∷ 0xff ∷ 0xff ∷ 0x8f ∷ 1 ∷ []) ≡ err varint_too_large
unfolding decode_varint
varint_five_groups = refl

abbrev sample : Delta
sample = record {
  base_size = 3;
  result_size = 300;
  compression_ratio = (2, 300);
  zstd_data = 7 ∷ 8 ∷ [];
}

applied : apply store [] (record sample { result_size = 1 }) ≡ ok (8 ∷ [])
unfolding apply
applied = refl

apply-encode_example :
    (from_bytes (to_bytes (encode store (9 ∷ []) (1 ∷ 2 ∷ []))) >>= apply store (9 ∷ []))
    ≡ ok (1 ∷ 2 ∷ [])
apply-encode_example =
    apply-encode store (9 ∷ []) (1 ∷ 2 ∷ []) (0x28 ∷ 1 ∷ 2 ∷ []) refl (omega arith)

zeros : ℕ → List ℕ
zeros zero = []
zeros (suc n) = 0 ∷ zeros n

length-zeros : (n : ℕ) → length (zeros n) ≡ n
unfolding zeros
length-zeros zero = refl
length-zeros (suc n) = ap suc (length-zeros n)

apply_4_gib_example :
    (from_bytes (to_bytes (encode store [] (zeros (2 ^ 32)))) >>= apply store [])
    ≢ ok (zeros (2 ^ 32))
apply_4_gib_example = apply_4_gib store [] (zeros (2 ^ 32)) (omega (arith, length-zeros (2 ^ 32)))
