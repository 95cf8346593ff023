-- ===== src/Pack/Writer/Moved.antt =====
-- pack.rs: the index with its offsets moved behind the header.
use mediagit_core.Prelude.{
  ℕ, ◌+◌, ◌^◌, ◌<◌, ◌≤◌, ◌≡◌, refl, [], ◌∷◌, map, All, Option, none, some, arith, inl, inr,
}
use mediagit_core.Object.{Oid, IsOid}
use mediagit_core.BTreeMap.{get}
use mediagit_core.BTreeMap.Order.{bytes_ord, bytes_cmp, Ordering-cases}
use mediagit_core.BTreeMap.Sorted.{Above, IsSorted}
use mediagit_core.Pack.Index.{PackIndex}
use mediagit_core.Pack.Index.Codec.{EntryFits}
use mediagit_core.Pack.Writer.{moved}

-- An entry of a complete identifier that lies within the first `n` bytes.
abbrev pub Within : ℕ → Oid × (ℕ × ℕ) → Type 0
Within n (oid, (offset, size)) = IsOid oid × (offset + size ≤ n)

abbrev pub moved_place : ℕ → Option (ℕ × ℕ) → Option (ℕ × ℕ)
moved_place start none = none
moved_place start (some (offset, size)) = some (start + offset, size)

module _ (start : ℕ) where
  Above-moved : (k : Oid) (m : PackIndex) → Above k m → Above k (map (moved start) m)
  Above-moved k [] a = tt
  Above-moved k ((j, (offset, size)) ∷ m) (lt, a) = (lt, Above-moved k m a)

  pub IsSorted-moved : (m : PackIndex) → IsSorted m → IsSorted (map (moved start) m)
  IsSorted-moved [] s = tt
  IsSorted-moved ((j, (offset, size)) ∷ m) (a, s) = (Above-moved j m a, IsSorted-moved m s)

  pub EntryFits-moved :
      (n : ℕ) (m : PackIndex)
      → start + n < 2 ^ 32
      → All (Within n) m
      → All EntryFits (map (moved start) m)
  EntryFits-moved n [] h w = tt
  EntryFits-moved n ((j, (offset, size)) ∷ m) h ((fit, within), w) =
      ((fit, omega arith, omega arith), EntryFits-moved n m h w)

  pub get-moved :
      (k : Oid) (m : PackIndex) → get k (map (moved start) m) ≡ moved_place start (get k m)
  unfolding get
  get-moved k [] = refl
  get-moved k ((j, (offset, size)) ∷ m) = elim (Ordering-cases (bytes_cmp k j)) [
    | inl e ↦ rw (e, get) (get-moved k m)
    | inr (inl e) ↦ rw (e, get)
    | inr (inr e) ↦ rw (e, get) (get-moved k m)
  ]
