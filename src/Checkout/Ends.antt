-- ===== src/Checkout/Ends.antt =====
-- checkout.rs: `remove_empty_directories` ends.
use mediagit_core.Prelude.{
  ℕ, zero, suc, ◌<◌, ◌≤◌, ◌≡◌, ◌⊎◌, refl, ap, ◌∙◌, inl, inr, Bool, true, false, not, ◌||◌,
  Bool-cases, Option, none, some, Option-cases, List, [], ◌∷◌, All, arith,
}
use mediagit_core.Result.{Result, ok, err, panic, ◌>>=◌}
use mediagit_core.Bytes.{bytes_eq}
use mediagit_core.Object.{Oid}
use mediagit_core.Checkout.{
  CheckoutError, io, is_mediagit, try_remove_dir, clean_at_root, clean_root, clean_entry,
  clean_entries, clean_dir, emptied, try_remove_empty_dirs, remove_empty_directories,
}
use mediagit_core.Checkout.Disk.{WorkTree, FilePath}

-- A result that satisfies `P`, or an I/O error.
abbrev Ends {ℓ} : {A : Type ℓ} → (A → Type 0) → Result CheckoutError A → Type 0
Ends P (ok a) = P a
Ends P (err e) = e ≡ io
Ends P panic = ⊥

Ends-bind {ℓ κ} :
    {A : Type ℓ} {B : Type κ} (P : A → Type 0) (Q : B → Type 0) (m : Result CheckoutError A)
    (k : A → Result CheckoutError B)
    → Ends P m
    → ((a : A) → P a → Ends Q (k a))
    → Ends Q (m >>= k)
Ends-bind P Q (ok a) k h next = next a h
Ends-bind P Q (err e) k h next = h
Ends-bind P Q panic k h next = absurd h

Ends-weaken {ℓ} :
    {A : Type ℓ} (P Q : A → Type 0) (m : Result CheckoutError A)
    → ((a : A) → P a → Q a)
    → Ends P m
    → Ends Q m
Ends-weaken P Q (ok a) f h = f a h
Ends-weaken P Q (err e) f h = h
Ends-weaken P Q panic f h = absurd h

abbrev pub RankedBelow : (FilePath → ℕ) → ℕ → Option FilePath → Type 0
RankedBelow rank bound none = Unit
RankedBelow rank bound (some path) = rank path < bound

module _ {S : Type 0} (disk : WorkTree S) (read_blob : Oid → Option (List ℕ))
    (is_utf8 : List ℕ → Bool) (count : S → ℕ) (rank : FilePath → ℕ)
    (removes : (p : FilePath) (s : S)
      → (disk.remove_dir p s).0 ≡ true
      → count (disk.remove_dir p s).1 < count s)
    (keeps : (p : FilePath) (s : S) → count (disk.remove_dir p s).1 ≤ count s)
    (lists : (p : FilePath) (s : S) (entries : List (Option FilePath))
      → disk.read_dir p s ≡ some entries
      → All (RankedBelow rank (rank p)) entries) where
  -- A directory was removed, or the mark is as before and none was added.
  abbrev Progress : Bool × S → Bool × S → Type 0
  Progress st st' = ((st'.0 ≡ st.0) × (count st'.1 ≤ count st.1)) ⊎ (count st'.1 < count st.1)

  still : (st : Bool × S) → Progress st st
  still st = inl (refl, omega arith)

  after : (a b c : Bool × S) → Progress a b → Progress b c → Progress a c
  after a b c (inl (e, h)) (inl (e', h')) = inl (e' ∙ e, omega arith)
  after a b c (inl (e, h)) (inr h') = inr (omega arith)
  after a b c (inr h) (inl (e', h')) = inr (omega arith)
  after a b c (inr h) (inr h') = inr (omega arith)

  try_remove_dir-Progress :
      (attempts : ℕ) (dir : FilePath) (st : Bool × S)
      → Progress st (try_remove_dir disk read_blob is_utf8 attempts dir st).1
  unfolding try_remove_dir
  try_remove_dir-Progress zero dir st = still st
  try_remove_dir-Progress (suc attempts) dir (removed_any, s) =
      elim (Bool-cases (disk.remove_dir dir s).0) [
        | inl y ↦ rw (y, try_remove_dir) (inr (removes dir s y))
        | inr n ↦
            let next : Bool × S = (removed_any, (disk.remove_dir dir s).1) in
            rw (n, try_remove_dir)
              (after (removed_any, s) next _ (inl (refl, keeps dir s))
                (try_remove_dir-Progress attempts dir next))
      ]

  emptied-Progress :
      (dir : FilePath) (r : Bool × (Bool × S))
      → Progress r.1 (emptied disk read_blob is_utf8 dir r).1
  emptied-Progress dir (true, st) = still st
  emptied-Progress dir (false, st) = try_remove_dir-Progress 3 dir st

  abbrev Below : Type 0
  Below = FilePath → Bool × S → Result CheckoutError (Bool × (Bool × S))

  -- A round that ends, with a mark and a state that came about from the earlier ones.
  abbrev Advances : Bool × S → Result CheckoutError (Bool × (Bool × S)) → Type 0
  Advances st = Ends (λ r. Progress st r.1)

  module _ (below : Below) (bound : ℕ)
      (ends : (path : FilePath) (st : Bool × S)
        → rank path < bound
        → Advances st (below path st)) where
    clean_at_root-Ends :
        (path : FilePath) (st : Bool × S)
        → rank path < bound
        → Ends (Progress st) (clean_at_root disk read_blob is_utf8 below path st)
    clean_at_root-Ends path (removed_any, s) low =
        elim (Bool-cases (is_mediagit disk read_blob is_utf8 path || not (disk.is_dir path s))) [
          | inl y ↦ rw y (still (removed_any, s))
          | inr n ↦ rw n (
              Ends-bind (λ r. Progress (removed_any, s) r.1) (Progress (removed_any, s))
                (below path (removed_any, s)) (λ r. ok r.1) (ends path (removed_any, s) low)
                (λ r h. h))
        ]

    clean_root-Ends :
        (entries : List (Option FilePath)) (st : Bool × S)
        → All (RankedBelow rank bound) entries
        → Ends (Progress st) (clean_root disk read_blob is_utf8 below entries st)
    unfolding clean_root
    clean_root-Ends [] st low = still st
    clean_root-Ends (none ∷ entries) st low = refl
    clean_root-Ends (some path ∷ entries) st (low, lows) =
        Ends-bind (Progress st) (Progress st) (clean_at_root disk read_blob is_utf8 below path st)
          (λ st'. clean_root disk read_blob is_utf8 below entries st')
          (clean_at_root-Ends path st low)
          (λ st' h.
            Ends-weaken (Progress st') (Progress st) _ (λ x h'. after st st' x h h')
              (clean_root-Ends entries st' lows))

    clean_entry-Ends :
        (path : FilePath) (has_contents : Bool) (st : Bool × S)
        → rank path < bound
        → Advances st (clean_entry disk read_blob is_utf8 below path has_contents st)
    clean_entry-Ends path has_contents (removed_any, s) low =
        elim (Bool-cases (is_mediagit disk read_blob is_utf8 path)) [
          | inl y ↦ rw y (still (removed_any, s))
          | inr n ↦ elim (Bool-cases (disk.is_dir path s)) [
            | inl d ↦
                rw (n, d)
                  (Ends-bind (λ r. Progress (removed_any, s) r.1)
                    (λ r. Progress (removed_any, s) r.1) (below path (removed_any, s))
                    (λ r. ok (has_contents || r.0, r.1)) (ends path (removed_any, s) low)
                    (λ r h. h))
            | inr f ↦ rw (n, f) (still (removed_any, s))
          ]
        ]

    clean_entries-Ends :
        (entries : List (Option FilePath)) (has_contents : Bool) (st : Bool × S)
        → All (RankedBelow rank bound) entries
        → Advances st (clean_entries disk read_blob is_utf8 below entries has_contents st)
    unfolding clean_entries
    clean_entries-Ends [] has_contents st low = still st
    clean_entries-Ends (none ∷ entries) has_contents st (low, lows) =
        clean_entries-Ends entries has_contents st lows
    clean_entries-Ends (some path ∷ entries) has_contents st (low, lows) =
        Ends-bind (λ r. Progress st r.1) (λ r. Progress st r.1)
          (clean_entry disk read_blob is_utf8 below path has_contents st)
          (λ r. clean_entries disk read_blob is_utf8 below entries r.0 r.1)
          (clean_entry-Ends path has_contents st low)
          (λ r h.
            Ends-weaken (λ x. Progress r.1 x.1) (λ x. Progress st x.1) _
              (λ x h'. after st r.1 x.1 h h') (clean_entries-Ends entries r.0 r.1 lows))

    clean_dir-Ends :
        (dir : FilePath) (entries : List (Option FilePath)) (st : Bool × S)
        → All (RankedBelow rank bound) entries
        → Advances st (clean_dir disk read_blob is_utf8 below dir entries st)
    clean_dir-Ends dir entries st lows = elim (Bool-cases (bytes_eq dir [])) [
      | inl root ↦ rw root (
          Ends-bind (Progress st) (λ r. Progress st r.1)
            (clean_root disk read_blob is_utf8 below entries st) (λ st'. ok (true, st'))
            (clean_root-Ends entries st lows) (λ st' h. h))
      | inr inner ↦ rw inner (
          Ends-bind (λ r. Progress st r.1) (λ r. Progress st r.1)
            (clean_entries disk read_blob is_utf8 below entries false st)
            (λ r. ok (emptied disk read_blob is_utf8 dir r))
            (clean_entries-Ends entries false st lows)
            (λ r h. after st r.1 _ h (emptied-Progress dir r)))
    ]

  try_remove_empty_dirs-Ends :
      (fuel : ℕ) (dir : FilePath) (st : Bool × S)
      → rank dir < fuel
      → Advances st (try_remove_empty_dirs disk read_blob is_utf8 fuel dir st)
  unfolding try_remove_empty_dirs
  try_remove_empty_dirs-Ends zero dir st low = absurd (omega arith)
  try_remove_empty_dirs-Ends (suc fuel) dir (removed_any, s) low =
      elim (Bool-cases (not (disk.exists dir s) || not (disk.is_dir dir s))) [
        | inl y ↦ rw y (still (removed_any, s))
        | inr n ↦ elim (Option-cases (disk.read_dir dir s)) [
          | inl unread ↦ rw (n, unread) refl
          | inr (entries, e) ↦
              rw (n, e)
                (clean_dir-Ends (try_remove_empty_dirs disk read_blob is_utf8 fuel) (rank dir)
                  (λ path st' lower. try_remove_empty_dirs-Ends fuel path st' (omega arith)) dir
                  entries (removed_any, s) (lists dir s entries e))
        ]
      ]

  abbrev Returns : Result CheckoutError S → Type 0
  Returns r = (r ≡ err io) ⊎ ((s' : S) × (r ≡ ok s'))

  -- One pass, and those behind it where it removed a directory.
  pass-Returns :
      (passes depth : ℕ) (s : S) (first : Result CheckoutError (Bool × (Bool × S)))
      → Advances (false, s) first
      → ((s' : S)
          → count s' < count s
          → Returns (remove_empty_directories disk read_blob is_utf8 passes depth s'))
      → Returns (
          first >>= λ r. elim r.1.0 [
            | true ↦ remove_empty_directories disk read_blob is_utf8 passes depth r.1.1
            | false ↦ ok r.1.1
          ])
  pass-Returns passes depth s (ok (b, (false, s'))) h next = inr (s', refl)
  pass-Returns passes depth s (ok (b, (true, s'))) (inl (e, h)) next = cc e
  pass-Returns passes depth s (ok (b, (true, s'))) (inr h) next = next s' h
  pass-Returns passes depth s (err e) h next = inl (ap err h)
  pass-Returns passes depth s panic h next = absurd h

  -- Where the paths that a directory lists have a lower rank than the directory, every directory
  -- that is removed lowers a count of them, a failure to remove one does not raise it, and the
  -- fuel is more than that count and the rank of the root, `remove_empty_directories` ends, with a
  -- result or an I/O error.
  pub remove_empty_directories_ends :
      (passes depth : ℕ) (s : S)
      → count s < passes
      → rank [] < depth
      → (remove_empty_directories disk read_blob is_utf8 passes depth s ≡ err io)
        ⊎ ((s' : S) × (remove_empty_directories disk read_blob is_utf8 passes depth s ≡ ok s'))
  unfolding remove_empty_directories
  remove_empty_directories_ends zero depth s enough deep = absurd (omega arith)
  remove_empty_directories_ends (suc passes) depth s enough deep =
      pass-Returns passes depth s (try_remove_empty_dirs disk read_blob is_utf8 depth [] (false, s))
        (try_remove_empty_dirs-Ends depth [] (false, s) deep)
        (λ s' fewer. remove_empty_directories_ends passes depth s' (omega arith) deep)
