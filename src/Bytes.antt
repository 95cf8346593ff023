-- ===== src/Bytes.antt =====
-- Little-endian integers: `to_le_bytes`, `from_le_bytes` and the `as u32` cast.
use mediagit_core.Prelude.{
  ℕ, zero, suc, ◌+◌, ◌*◌, ◌/◌, ◌%◌, ◌^◌, ◌<◌, ◌≡◌, refl, ap, sym, ◌≢◌, List, [], ◌∷◌, length, arith,
  Bool, true, false, ◌&&◌, ◌||◌, ◌==◌, ◌++◌,
}

-- A truncating cast.
abbrev pub as_u32 : ℕ → ℕ
as_u32 n = n % 2 ^ 32

-- The `k` low bytes of `n`, the lowest first.
unfoldable pub to_le : ℕ → ℕ → List ℕ
to_le zero n = []
to_le (suc k) n = (n % 256) ∷ to_le k (n / 256)

unfoldable pub from_le : List ℕ → ℕ
from_le [] = 0
from_le (b ∷ bs) = b + 256 * from_le bs

pub length-to_le : (k n : ℕ) → length (to_le k n) ≡ k
unfolding to_le
length-to_le zero n = refl
length-to_le (suc k) n = ap suc (length-to_le k (n / 256))

-- Four bytes hold a `u32`, and eight a `u64`.
pub from_le-to_le_4 : (n : ℕ) → n < 2 ^ 32 → from_le (to_le 4 n) ≡ n
unfolding to_le from_le
from_le-to_le_4 n h = omega arith

pub from_le-to_le_8 : (n : ℕ) → n < 2 ^ 64 → from_le (to_le 8 n) ≡ n
unfolding to_le from_le
from_le-to_le_8 n h = omega arith

-- Equality of byte strings.
abbrev pub bytes_eq : List ℕ → List ℕ → Bool
bytes_eq [] [] = true
bytes_eq [] (y ∷ ys) = false
bytes_eq (x ∷ xs) [] = false
bytes_eq (x ∷ xs) (y ∷ ys) = x == y && bytes_eq xs ys

pub bytes_eq_refl : (xs : List ℕ) → bytes_eq xs xs ≡ true
bytes_eq_refl [] = refl
bytes_eq_refl (x ∷ xs) = ground (arith, bytes_eq_refl xs)

pub bytes_eq→eq : (xs ys : List ℕ) → bytes_eq xs ys ≡ true → xs ≡ ys
bytes_eq→eq [] [] h = refl
bytes_eq→eq [] (y ∷ ys) h = cc
bytes_eq→eq (x ∷ xs) [] h = cc
bytes_eq→eq (x ∷ xs) (y ∷ ys) h = ground (arith, bytes_eq→eq xs ys)

pub bytes_eq_ne : (xs ys : List ℕ) → bytes_eq xs ys ≡ false → xs ≢ ys
bytes_eq_ne xs ys h e = let same = ap (bytes_eq xs) e in cc (h, sym same, bytes_eq_refl xs)

pub bytes_eq_comm : (xs ys : List ℕ) → bytes_eq xs ys ≡ bytes_eq ys xs
bytes_eq_comm [] [] = refl
bytes_eq_comm [] (y ∷ ys) = refl
bytes_eq_comm (x ∷ xs) [] = refl
bytes_eq_comm (x ∷ xs) (y ∷ ys) = ground (arith, bytes_eq_comm xs ys)

-- Membership in a list of byte strings.
abbrev pub listed : List ℕ → List (List ℕ) → Bool
listed p [] = false
listed p (q ∷ qs) = bytes_eq p q || listed p qs

pub listed-append :
    (p : List ℕ) (xs ys : List (List ℕ)) → listed p (xs ++ ys) ≡ (listed p xs || listed p ys)
listed-append p [] ys = refl
listed-append p (x ∷ xs) ys = ground (arith, listed-append p xs ys)
