-- ===== src/Checkout/Cleaning.antt =====
-- checkout.rs: `remove_empty_directories` leaves every file and link.
use mediagit_core.Prelude.{
  ℕ, zero, suc, ◌≡◌, refl, ap, sym, ◌∙◌, inl, inr, Bool, true, false, not, ◌||◌, Bool-cases, Option,
  none, some, List, [], ◌∷◌,
}
use mediagit_core.Result.{Result, ok, bind_ok, ok_inj}
use mediagit_core.Bytes.{bytes_eq}
use mediagit_core.Object.{Oid}
use mediagit_core.Checkout.{
  CheckoutError, io, or_err, is_mediagit, try_remove_dir, clean_at_root, clean_root, clean_entry,
  clean_entries, clean_dir, emptied, try_remove_empty_dirs, remove_empty_directories,
}
use mediagit_core.Checkout.Disk.{WorkTree, FilePath}

module _ {S : Type 0} (disk : WorkTree S) (read_blob : Oid → Option (List ℕ))
    (is_utf8 : List ℕ → Bool) where
  -- The same file or link stands at every path.
  abbrev pub SameNodes : S → S → Type 0
  SameNodes s s' = (q : FilePath) → disk.node q s' ≡ disk.node q s

  try_remove_dir-SameNodes :
      (attempts : ℕ) (dir : FilePath) (st : Bool × S)
      → SameNodes st.1 (try_remove_dir disk read_blob is_utf8 attempts dir st).1.1
  unfolding try_remove_dir
  try_remove_dir-SameNodes zero dir st q = refl
  try_remove_dir-SameNodes (suc attempts) dir (removed_any, s) q =
      elim (Bool-cases (disk.remove_dir dir s).0) [
        | inl y ↦ rw (y, try_remove_dir) (disk.remove_dir_nodes dir q s)
        | inr n ↦
            rw (n, try_remove_dir)
              (try_remove_dir-SameNodes attempts dir (removed_any, (disk.remove_dir dir s).1) q
                ∙ disk.remove_dir_nodes dir q s)
      ]

  emptied-SameNodes :
      (dir : FilePath) (r : Bool × (Bool × S))
      → SameNodes r.1.1 (emptied disk read_blob is_utf8 dir r).1.1
  emptied-SameNodes dir (true, st) q = refl
  emptied-SameNodes dir (false, st) q = try_remove_dir-SameNodes 3 dir st q

  abbrev Below : Type 0
  Below = FilePath → Bool × S → Result CheckoutError (Bool × (Bool × S))

  abbrev KeepsNodes : Below → Type 0
  KeepsNodes below =
      (path : FilePath) (st : Bool × S) (r : Bool × (Bool × S))
      → below path st ≡ ok r
      → SameNodes st.1 r.1.1

  module _ (below : Below) (keeps : KeepsNodes below) where
    clean_at_root-SameNodes :
        (path : FilePath) (st st' : Bool × S)
        → clean_at_root disk read_blob is_utf8 below path st ≡ ok st'
        → SameNodes st.1 st'.1
    clean_at_root-SameNodes path (removed_any, s) st' h q =
        elim (Bool-cases (is_mediagit disk read_blob is_utf8 path || not (disk.is_dir path s))) [
          | inl y ↦ ap (λ st. disk.node q st.1) (sym (ok_inj (removed_any, s) st' (rw y at h)))
          | inr n ↦
              let (r, e, last) = bind_ok (below path (removed_any, s)) _ st' (rw n at h) in
              ap (λ st. disk.node q st.1) (sym (ok_inj r.1 st' last))
              ∙ keeps path (removed_any, s) r e q
        ]

    clean_root-SameNodes :
        (entries : List (Option FilePath)) (st st' : Bool × S)
        → clean_root disk read_blob is_utf8 below entries st ≡ ok st'
        → SameNodes st.1 st'.1
    unfolding clean_root
    clean_root-SameNodes [] st st' h q = ap (λ x. disk.node q x.1) (sym (ok_inj st st' h))
    clean_root-SameNodes (none ∷ entries) st st' h q = cc h
    clean_root-SameNodes (some path ∷ entries) st st' h q =
        let (mid, e, rest) = bind_ok (clean_at_root disk read_blob is_utf8 below path st) _ st' h in
        clean_root-SameNodes entries mid st' rest q ∙ clean_at_root-SameNodes path st mid e q

    clean_entry-SameNodes :
        (path : FilePath) (has_contents : Bool) (st : Bool × S) (r : Bool × (Bool × S))
        → clean_entry disk read_blob is_utf8 below path has_contents st ≡ ok r
        → SameNodes st.1 r.1.1
    clean_entry-SameNodes path has_contents (removed_any, s) r h q =
        elim (Bool-cases (is_mediagit disk read_blob is_utf8 path)) [
          | inl y ↦
              ap (λ x. disk.node q x.1.1)
                (sym (ok_inj (has_contents, (removed_any, s)) r (rw y at h)))
          | inr n ↦ elim (Bool-cases (disk.is_dir path s)) [
            | inl d ↦
                let (r', e, last) = bind_ok (below path (removed_any, s)) _ r (rw (n, d) at h) in
                ap (λ x. disk.node q x.1.1) (sym (ok_inj (has_contents || r'.0, r'.1) r last))
                ∙ keeps path (removed_any, s) r' e q
            | inr f ↦
                ap (λ x. disk.node q x.1.1)
                  (sym (ok_inj (true, (removed_any, s)) r (rw (n, f) at h)))
          ]
        ]

    clean_entries-SameNodes :
        (entries : List (Option FilePath)) (has_contents : Bool) (st : Bool × S)
        (r : Bool × (Bool × S))
        → clean_entries disk read_blob is_utf8 below entries has_contents st ≡ ok r
        → SameNodes st.1 r.1.1
    unfolding clean_entries
    clean_entries-SameNodes [] has_contents st r h q =
        ap (λ x. disk.node q x.1.1) (sym (ok_inj (has_contents, st) r h))
    clean_entries-SameNodes (none ∷ entries) has_contents st r h q =
        clean_entries-SameNodes entries has_contents st r h q
    clean_entries-SameNodes (some path ∷ entries) has_contents st r h q =
        let (mid, e, rest) =
          bind_ok (clean_entry disk read_blob is_utf8 below path has_contents st) _ r h in
        clean_entries-SameNodes entries mid.0 mid.1 r rest q
        ∙ clean_entry-SameNodes path has_contents st mid e q

    clean_dir-SameNodes :
        (dir : FilePath) (entries : List (Option FilePath)) (st : Bool × S) (r : Bool × (Bool × S))
        → clean_dir disk read_blob is_utf8 below dir entries st ≡ ok r
        → SameNodes st.1 r.1.1
    clean_dir-SameNodes dir entries st r h q = elim (Bool-cases (bytes_eq dir [])) [
      | inl root ↦
          let (st', e, last) =
            bind_ok (clean_root disk read_blob is_utf8 below entries st) _ r (rw root at h) in
          ap (λ x. disk.node q x.1.1) (sym (ok_inj (true, st') r last))
          ∙ clean_root-SameNodes entries st st' e q
      | inr inner ↦
          let (r', e, last) =
            bind_ok (clean_entries disk read_blob is_utf8 below entries false st) _ r
              (rw inner at h) in
          ap (λ x. disk.node q x.1.1) (sym (ok_inj (emptied disk read_blob is_utf8 dir r') r last))
          ∙ emptied-SameNodes dir r' q
          ∙ clean_entries-SameNodes entries false st r' e q
    ]

  try_remove_empty_dirs-SameNodes :
      (fuel : ℕ) → KeepsNodes (try_remove_empty_dirs disk read_blob is_utf8 fuel)
  unfolding try_remove_empty_dirs
  try_remove_empty_dirs-SameNodes zero dir st r h q = cc h
  try_remove_empty_dirs-SameNodes (suc fuel) dir (removed_any, s) r h q =
      elim (Bool-cases (not (disk.exists dir s) || not (disk.is_dir dir s))) [
        | inl y ↦ ap (λ x. disk.node q x.1.1) (sym (ok_inj (false, (removed_any, s)) r (rw y at h)))
        | inr n ↦
            let (entries, e, rest) = bind_ok (or_err io (disk.read_dir dir s)) _ r (rw n at h) in
            clean_dir-SameNodes (try_remove_empty_dirs disk read_blob is_utf8 fuel)
              (try_remove_empty_dirs-SameNodes fuel) dir entries (removed_any, s) r rest q
      ]

  pub remove_empty_directories-SameNodes :
      (passes depth : ℕ) (s s' : S)
      → remove_empty_directories disk read_blob is_utf8 passes depth s ≡ ok s'
      → SameNodes s s'
  unfolding remove_empty_directories
  remove_empty_directories-SameNodes zero depth s s' h q = cc h
  remove_empty_directories-SameNodes (suc passes) depth s s' h q =
      let (r, e, rest) =
        bind_ok (try_remove_empty_dirs disk read_blob is_utf8 depth [] (false, s)) _ s' h in
      let first = try_remove_empty_dirs-SameNodes depth [] (false, s) r e q in
      elim (Bool-cases r.1.0) [
        | inl y ↦ remove_empty_directories-SameNodes passes depth r.1.1 s' (rw y at rest) q ∙ first
        | inr n ↦ ap (disk.node q) (sym (ok_inj r.1.1 s' (rw n at rest))) ∙ first
      ]
