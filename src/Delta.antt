-- ===== src/Delta.antt =====
-- crates/mediagit-versioning/src/delta.rs: deltas, their wire format, encoder and decoder. The
-- functions of the `zstd` crate are the parameter `Zstd`.
pub mod Varint
pub mod Laws
pub mod Tests
use mediagit_core.Prelude.{
  ℕ, ◌*◌, ◌^◌, ◌≤◌, ◌≡◌, ◌≢◌, Option, none, some, List, [], ◌∷◌, ◌++◌, length, leb, ◌==◌,
  if◌then◌else◌,
}
use mediagit_core.Result.{Result, ok, err, ◌>>=◌, ◌>>◌, ensure}
use mediagit_core.Bytes.{as_u32}
use Varint.{DeltaError, missing_magic, too_large_result, decompress_failed, size_mismatch}
use Varint.{encode_varint, decode_varint}

-- `compression_ratio` is the quotient's numerator and denominator; the source rounds it to a float.
pub record Delta : Type 0 where
  pub base_size : ℕ
  pub result_size : ℕ
  pub compression_ratio : ℕ × ℕ
  pub zstd_data : List ℕ

unfoldable pub to_bytes : Delta → List ℕ
to_bytes d =
    0x5A
    ∷ 0x44
    ∷ (encode_varint (as_u32 d.base_size) ++ (encode_varint (as_u32 d.result_size) ++ d.zstd_data))

abbrev max_1 : ℕ → ℕ
max_1 n = if n == 0 then 1 else n

-- What follows the magic bytes of an input of `size` bytes.
abbrev from_body : ℕ → List ℕ → Result DeltaError Delta
from_body size body = do
  (base, behind) ← decode_varint body
  (result, rest) ← decode_varint behind
  ok (record {
    base_size = base;
    result_size = result;
    compression_ratio = (size, max_1 result);
    zstd_data = rest;
  })

unfoldable pub from_bytes : List ℕ → Result DeltaError Delta
from_bytes (a ∷ b ∷ body) =
    if a == 0x5A
    then (if b == 0x44 then from_body (length (a ∷ b ∷ body)) body else err missing_magic)
    else err missing_magic
from_bytes _ = err missing_magic

-- The bulk compressor and decompressor of the `zstd` crate with a raw dictionary, and what its
-- documentation says of them: a frame is never empty, and it decompresses, with the dictionary
-- that it was made with, to its input where the capacity holds that.
pub record Zstd : Type 0 where
  pub compress : List ℕ → List ℕ → Option (List ℕ)
  pub decompress : List ℕ → List ℕ → ℕ → Option (List ℕ)
  pub frame_ne_nil : (base input frame : List ℕ) → compress base input ≡ some frame → frame ≢ []
  pub decompress-compress :
      (base input frame : List ℕ) (capacity : ℕ)
      → compress base input ≡ some frame
      → length input ≤ capacity
      → decompress base frame capacity ≡ some input

abbrev pub max_delta_result_size : ℕ
max_delta_result_size = 16 * 1024 * 1024 * 1024

module _ (z : Zstd) where
  unfoldable pub compress_or_raw : List ℕ → List ℕ → List ℕ
  compress_or_raw base target = elim (z.compress base target) [ none ↦ target | some frame ↦ frame ]

  unfoldable pub encode : List ℕ → List ℕ → Delta
  unfolding compress_or_raw
  encode base [] = record {
    base_size = length base;
    result_size = 0;
    compression_ratio = (0, 1);
    zstd_data = [];
  }
  encode base (b ∷ bs) =
      let target = b ∷ bs in
      let frame = compress_or_raw base target in
      record {
        base_size = length base;
        result_size = length target;
        compression_ratio = (length frame, length target);
        zstd_data = frame;
      }

  -- The size check on what the decompressor gave.
  abbrev checked : ℕ → Option (List ℕ) → Result DeltaError (List ℕ)
  checked size none = err decompress_failed
  checked size (some result) = if length result == size then ok result else err size_mismatch

  abbrev decompressed : List ℕ → ℕ → List ℕ → Result DeltaError (List ℕ)
  decompressed base size [] = ok []
  decompressed base size (b ∷ bs) = checked size (z.decompress base (b ∷ bs) size)

  unfoldable pub apply : List ℕ → Delta → Result DeltaError (List ℕ)
  apply base d = do
    ensure (leb d.result_size max_delta_result_size) too_large_result
    decompressed base d.result_size d.zstd_data
