-- ===== src/Pack/Header.antt =====
-- pack.rs: `PackHeader::from_bytes` against `PackHeader::to_bytes`.
use mediagit_core.Prelude.{◌^◌, ◌<◌, ◌≡◌, refl, length, arith}
use mediagit_core.Result.{ok}
use mediagit_core.Bytes.{from_le}
use mediagit_core.Pack.{PackHeader, header_to_bytes, header_from_bytes}

pub length-header_to_bytes : (h : PackHeader) → length (header_to_bytes h) ≡ 12
unfolding header_to_bytes
length-header_to_bytes h = refl

-- A header whose two fields are below 2^32 is read back from its bytes.
pub header_from_bytes-header_to_bytes :
    (h : PackHeader)
    → h.version < 2 ^ 32
    → h.object_count < 2 ^ 32
    → header_from_bytes (header_to_bytes h) ≡ ok h
unfolding header_from_bytes header_to_bytes from_le
header_from_bytes-header_to_bytes h v c = ground arith
