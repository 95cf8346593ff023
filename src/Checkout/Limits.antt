-- ===== src/Checkout/Limits.antt =====
-- The working directory in memory has finitely many directories, no deeper than ten.
use mathlib.Core.Path.{subst}
use mediagit_core.Prelude.{
  ℕ, suc, ◌-◌, ◌<◌, ◌≤◌, ◌≡◌, refl, inl, inr, Bool, true, false, Bool-cases, Option, some, List, [],
  ◌∷◌, ◌++◌, map, length, leb, All, arith,
}
use mediagit_core.Bytes.{bytes_eq}
use mediagit_core.Checkout.Disk.{FilePath}
use mediagit_core.Checkout.Ends.{RankedBelow}
use mediagit_core.Checkout.Memory.{
  Directory, is_child, children, is_listed, without, entries_of, remove_empty, listed_dir, some_eq,
  disk,
}

abbrev pub count : Directory → ℕ
count s = length s.1

abbrev pub rank : FilePath → ℕ
rank p = 10 - length p

length-without : (p : FilePath) (qs : List FilePath) → length (without p qs) ≤ length qs
length-without p [] = omega arith
length-without p (q ∷ qs) = ground (arith, length-without p qs)

length-without_listed :
    (p : FilePath) (qs : List FilePath) → is_listed p qs ≡ true → length (without p qs) < length qs
length-without_listed p [] h = cc h
length-without_listed p (q ∷ qs) h = elim (Bool-cases (bytes_eq p q)) [
  | inl y ↦ rw y (ground (arith, length-without p qs))
  | inr n ↦ rw n (ground (arith, length-without_listed p qs (rw n at h)))
]

keeps_empty :
    (es : List FilePath) (p : FilePath) (s : Directory) → count (remove_empty es p s).1 ≤ count s
keeps_empty [] p s = length-without p s.1
keeps_empty (e ∷ es) p s = omega arith

pub keeps : (p : FilePath) (s : Directory) → count (disk.remove_dir p s).1 ≤ count s
keeps p s = elim (Bool-cases (is_listed p s.1)) [
  | inl y ↦ rw y (keeps_empty (entries_of p s) p s)
  | inr n ↦ rw n (omega arith)
]

removes_empty :
    (es : List FilePath) (p : FilePath) (s : Directory)
    → is_listed p s.1 ≡ true
    → (remove_empty es p s).0 ≡ true
    → count (remove_empty es p s).1 < count s
removes_empty [] p s there h = length-without_listed p s.1 there
removes_empty (e ∷ es) p s there h = cc h

pub removes :
    (p : FilePath) (s : Directory)
    → (disk.remove_dir p s).0 ≡ true
    → count (disk.remove_dir p s).1 < count s
removes p s h = elim (Bool-cases (is_listed p s.1)) [
  | inl y ↦ rw y (removes_empty (entries_of p s) p s y (rw y at h))
  | inr n ↦ cc (rw n at h)
]

length-child : (p q : FilePath) → is_child p q ≡ true → length q ≡ suc (length p)
length-child [] [] h = cc h
length-child [] (x ∷ []) h = refl
length-child [] (x ∷ y ∷ q) h = cc h
length-child (a ∷ p) [] h = cc h
length-child (a ∷ p) (b ∷ q) h = ground (arith, length-child p q)

children_ranked :
    (p : FilePath) (qs : List FilePath) → length p < 10 → All (λ q. rank q < rank p) (children p qs)
children_ranked p [] short = tt
children_ranked p (q ∷ qs) short = elim (Bool-cases (is_child p q)) [
  | inl y ↦ rw y (omega (arith, length-child p q y), children_ranked p qs short)
  | inr n ↦ rw n (children_ranked p qs short)
]

All_concat :
    (P : FilePath → Type 0) (xs ys : List FilePath) → All P xs → All P ys → All P (xs ++ ys)
All_concat P [] ys h k = k
All_concat P (x ∷ xs) ys (h, hs) k = (h, All_concat P xs ys hs k)

some_ranked :
    (bound : ℕ) (qs : List FilePath)
    → All (λ q. rank q < bound) qs
    → All (RankedBelow rank bound) (map some qs)
some_ranked bound [] h = tt
some_ranked bound (q ∷ qs) (h, hs) = (h, some_ranked bound qs hs)

listed_ranked :
    (long : Bool) (p : FilePath) (s : Directory) (entries : List (Option FilePath))
    → leb 10 (length p) ≡ long
    → listed_dir long p s ≡ some entries
    → All (RankedBelow rank (rank p)) entries
listed_ranked true p s entries e h = cc h
listed_ranked false p s entries e h =
    let short : length p < 10 = ground arith in
    subst (All (RankedBelow rank (rank p))) (some_eq _ _ h) (
      some_ranked (rank p) (entries_of p s) (
        All_concat _ (children p (map (λ e. e.0) s.0)) (children p s.1)
          (children_ranked p (map (λ e. e.0) s.0) short) (children_ranked p s.1 short)))

pub lists :
    (p : FilePath) (s : Directory) (entries : List (Option FilePath))
    → disk.read_dir p s ≡ some entries
    → All (RankedBelow rank (rank p)) entries
lists p s entries h = listed_ranked (leb 10 (length p)) p s entries refl h
