-- ===== src/Refs/Hex.antt =====
-- oid.rs: `to_hex` and `from_hex`, over what the standard library and the `hex` crate do with texts.
use mediagit_core.Prelude.{
  ℕ, ◌*◌, ◌<◌, ◌≡◌, Bool, true, Option, none, some, List, [], ◌∷◌, ◌++◌, All, length, ◌==◌,
  if◌then◌else◌,
}
use mediagit_core.Object.{Oid}

-- A character from `0` to `f`, as every hexadecimal digit is.
abbrev pub IsHexDigit : ℕ → Type 0
IsHexDigit c = (47 < c) × (c < 103)

-- `trim` removes a line feed at the end and leaves hexadecimal digits alone, and these are UTF-8,
-- as is the concatenation of two texts in UTF-8.
pub record Texts : Type 0 where
  pub hex_encode : List ℕ → List ℕ
  pub hex_decode : List ℕ → Option (List ℕ)
  pub is_utf8 : List ℕ → Bool
  pub trim : List ℕ → List ℕ
  pub hex_decode-hex_encode :
      (b : List ℕ) → All (λ x. x < 256) b → hex_decode (hex_encode b) ≡ some b
  pub length-hex_encode : (b : List ℕ) → length (hex_encode b) ≡ 2 * length b
  pub hex_encode_digits : (b : List ℕ) → All (λ x. x < 256) b → All IsHexDigit (hex_encode b)
  pub trim_newline : (x : List ℕ) → trim x ≡ x → trim (x ++ (b'\n' ∷ [])) ≡ x
  pub trim_digits : (x : List ℕ) → All IsHexDigit x → trim x ≡ x
  pub is_utf8_ascii : (x : List ℕ) → All (λ c. c < 128) x → is_utf8 x ≡ true
  pub is_utf8-append :
      (x y : List ℕ) → is_utf8 x ≡ true → is_utf8 y ≡ true → is_utf8 (x ++ y) ≡ true

module _ (texts : Texts) where
  abbrev pub to_hex : Oid → List ℕ
  to_hex oid = texts.hex_encode oid

  abbrev pub oid_of : Option (List ℕ) → Option Oid
  oid_of none = none
  oid_of (some bytes) = if length bytes == 32 then some bytes else none

  unfoldable pub from_hex : List ℕ → Option Oid
  from_hex text = if length text == 64 then oid_of (texts.hex_decode text) else none
