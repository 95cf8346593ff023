-- ===== src/Checkout/Loops.antt =====
-- checkout.rs: what the two loops of `checkout_diff` leave at each path.
use mathlib.Core.Path.{subst}
use mediagit_core.Prelude.{
  ℕ, ◌≡◌, ◌≢◌, refl, ap, sym, ◌∙◌, inl, inr, Bool, true, false, Bool-cases, Option, none, some,
  List, [], ◌∷◌, if◌then◌else◌,
}
use mediagit_core.Result.{ok, bind_ok}
use mediagit_core.Bytes.{bytes_eq, bytes_eq→eq, bytes_eq_ne}
use mediagit_core.Object.{Oid}
use mediagit_core.BTreeMap.{get, contains_key}
use mediagit_core.BTreeMap.Order.{bytes_ord}
use mediagit_core.BTreeMap.Sorted.{get_head}
use mediagit_core.BTreeMap.Assoc.{get_cons_other}
use mediagit_core.Tree.{FileMode}
use mediagit_core.Checkout.{
  Files, FileListing, CheckoutStats, io, place_file, place_files, delete_file, delete_files,
}
use mediagit_core.Checkout.Disk.{WorkTree, FilePath, Node, file, link, IsPlain, IsLinkFree}
use mediagit_core.Checkout.Steps.{
  IsRegular, still-IsLinkFree, or_err_ok, Updated, Touches, stats_ok, untouched, place_file_lem,
}

-- No path is listed twice.
abbrev pub IsDistinct : FileListing → Type 0
IsDistinct [] = Unit
IsDistinct ((path, entry) ∷ rest) = (get path rest ≡ none) × IsDistinct rest

module _ {S : Type 0} (disk : WorkTree S) (read_blob : Oid → Option (List ℕ))
    (is_utf8 : List ℕ → Bool) where
  -- What the first loop did at a path, if it is listed.
  abbrev pub Looped :
      Option (Oid × FileMode) → Option (Oid × FileMode) → Option Node → Option Node → Type 0
  Looped f none n n' = n' ≡ n
  Looped f (some (oid, mode)) n n' = Updated disk read_blob is_utf8 f oid mode n n'

  -- A path with no file, link or directory.
  absent :
      (p : FilePath) (n : Option Node) (s : S)
      → IsPlain n
      → disk.node p s ≡ n
      → disk.exists p s ≡ false
      → disk.node p s ≡ none
  absent p none s plain e h = e
  absent p (some (file b x)) s plain e h = cc (disk.exists_file p b x s e, h)
  absent p (some (link t)) s plain e h = absurd plain

  distinct_ne :
      (p k : FilePath) (rest : FileListing) (e : Oid × FileMode)
      → get k rest ≡ none
      → get p rest ≡ some e
      → p ≢ k
  distinct_ne p k rest e h found same = cc (sym h ∙ ap (λ x. get x rest) (sym same) ∙ found)

  rest-IsRegular :
      (k : FilePath) (e : Oid × FileMode) (rest : FileListing)
      → get k rest ≡ none
      → ((p : FilePath) (e' : Oid × FileMode) → get p ((k, e) ∷ rest) ≡ some e' → IsRegular e'.1)
      → (p : FilePath) (e' : Oid × FileMode) → get p rest ≡ some e'
      → IsRegular e'.1
  rest-IsRegular k e rest fresh r p e' found =
      r p e' (get_cons_other p k e rest (distinct_ne p k rest e' fresh found) ∙ found)

  pub place_files-IsLinkFree :
      (from_files : Files) (l : FileListing) (c c' : CheckoutStats) (s s' : S)
      → IsDistinct l
      → ((p : FilePath) (e : Oid × FileMode) → get p l ≡ some e → IsRegular e.1)
      → IsLinkFree disk s
      → place_files disk read_blob is_utf8 from_files l (c, s) ≡ ok (c', s')
      → IsLinkFree disk s'
  unfolding place_files
  place_files-IsLinkFree from_files [] c c' s s' distinct r free h =
      λ q. subst IsPlain (sym (untouched disk read_blob is_utf8 q c c' s s' h q)) (free q)
  place_files-IsLinkFree from_files ((k, (oid, mode)) ∷ rest) c c' s s' (fresh, distinct) r free h =
      let ((d, t), e, more) =
        bind_ok (place_file disk read_blob is_utf8 (get k from_files) k oid mode (c, s)) _ (c', s')
          h in
      let (touched, free') =
        place_file_lem disk read_blob is_utf8 (get k from_files) k oid mode c d s t
          (r k (oid, mode) (get_head k _ rest)) free e in
      place_files-IsLinkFree from_files rest d c' t s' distinct
        (rest-IsRegular k (oid, mode) rest fresh r) free' more

  pub place_files_lem :
      (from_files : Files) (l : FileListing) (c c' : CheckoutStats) (s s' : S)
      → IsDistinct l
      → ((p : FilePath) (e : Oid × FileMode) → get p l ≡ some e → IsRegular e.1)
      → IsLinkFree disk s
      → place_files disk read_blob is_utf8 from_files l (c, s) ≡ ok (c', s')
      → (p : FilePath) → Looped (get p from_files) (get p l) (disk.node p s) (disk.node p s')
  unfolding place_files
  place_files_lem from_files [] c c' s s' distinct r free h p =
      unfold get in untouched disk read_blob is_utf8 p c c' s s' h p
  place_files_lem from_files ((k, (oid, mode)) ∷ rest) c c' s s' (fresh, distinct) r free h p =
      let ((d, t), e, more) =
        bind_ok (place_file disk read_blob is_utf8 (get k from_files) k oid mode (c, s)) _ (c', s')
          h in
      let ((here, there), free') =
        place_file_lem disk read_blob is_utf8 (get k from_files) k oid mode c d s t
          (r k (oid, mode) (get_head k _ rest)) free e in
      let ih =
        place_files_lem from_files rest d c' t s' distinct
          (rest-IsRegular k (oid, mode) rest fresh r) free' more in
      elim (Bool-cases (bytes_eq p k)) [
        | inl y ↦
            let last : disk.node k s' ≡ disk.node k t = rw fresh at (ih k) in
            let now : Looped (get k from_files) (get k ((k, (oid, mode)) ∷ rest)) (disk.node k s)
                (disk.node k s') =
              rw (get_head k (oid, mode) rest) (
                subst
                  (λ n.
                    Updated disk read_blob is_utf8 (get k from_files) oid mode (disk.node k s) n)
                  (sym last) here) in
            subst
              (λ x.
                Looped (get x from_files) (get x ((k, (oid, mode)) ∷ rest)) (disk.node x s)
                  (disk.node x s'))
              (sym (bytes_eq→eq p k y)) now
        | inr n ↦
            let apart = bytes_eq_ne p k n in
            rw (get_cons_other p k (oid, mode) rest apart) (
              subst (λ m. Looped (get p from_files) (get p rest) m (disk.node p s')) (there p apart)
                (ih p))
      ]

  -- One path of the second loop.
  delete_file_lem :
      (kept : Bool) (p : FilePath) (c c' : CheckoutStats) (s s' : S)
      → IsLinkFree disk s
      → delete_file disk read_blob is_utf8 kept p (c, s) ≡ ok (c', s')
      → Touches disk read_blob is_utf8 p (λ n n'. if kept then n' ≡ n else n' ≡ none) s s'
  delete_file_lem true p c c' s s' free h =
      let same = untouched disk read_blob is_utf8 p c c' s s' h in (same p, λ q apart. same q)
  delete_file_lem false p c c' s s' free h = elim (Bool-cases (disk.exists p s)) [
    | inl e ↦
        let done = or_err_ok io _ s' (stats_ok disk read_blob is_utf8 _ _ c' s' (rw e at h)) in
        (disk.remove_same p s s' free done, λ q apart. disk.remove_other p q s s' free apart done)
    | inr e ↦
        let same = untouched disk read_blob is_utf8 p c c' s s' (rw e at h) in
        (same p ∙ absent p (disk.node p s) s (free p) refl e, λ q apart. same q)
  ]

  swept-IsPlain :
      (kept : Bool) (n n' : Option Node)
      → IsPlain n
      → (if kept then n' ≡ n else n' ≡ none)
      → IsPlain n'
  swept-IsPlain true n n' plain h = subst IsPlain (sym h) plain
  swept-IsPlain false n n' plain h = subst IsPlain (sym h) tt

  -- What the second loop did at a path, if it is listed.
  abbrev pub Swept : Bool → Option (Oid × FileMode) → Option Node → Option Node → Type 0
  Swept kept none n n' = n' ≡ n
  Swept kept (some e) n n' = if kept then n' ≡ n else n' ≡ none

  pub delete_files_lem :
      (to_files : Files) (l : FileListing) (c c' : CheckoutStats) (s s' : S)
      → IsDistinct l
      → IsLinkFree disk s
      → delete_files disk read_blob is_utf8 to_files l (c, s) ≡ ok (c', s')
      → (p : FilePath) → Swept (contains_key p to_files) (get p l) (disk.node p s) (disk.node p s')
  unfolding delete_files
  delete_files_lem to_files [] c c' s s' distinct free h p =
      unfold get in untouched disk read_blob is_utf8 p c c' s s' h p
  delete_files_lem to_files ((k, entry) ∷ rest) c c' s s' (fresh, distinct) free h p =
      let ((d, t), e, more) =
        bind_ok (delete_file disk read_blob is_utf8 (contains_key k to_files) k (c, s)) _ (c', s')
          h in
      let (here, there) = delete_file_lem (contains_key k to_files) k c d s t free e in
      let free' =
        still-IsLinkFree disk read_blob is_utf8 k s t free
          (swept-IsPlain (contains_key k to_files) _ _ (free k) here) there in
      let ih = delete_files_lem to_files rest d c' t s' distinct free' more in
      elim (Bool-cases (bytes_eq p k)) [
        | inl y ↦
            let last : disk.node k s' ≡ disk.node k t = rw fresh at (ih k) in
            let now : Swept (contains_key k to_files) (get k ((k, entry) ∷ rest)) (disk.node k s)
                (disk.node k s') =
              rw (get_head k entry rest) (
                subst (λ n. if contains_key k to_files then n ≡ disk.node k s else n ≡ none)
                  (sym last) here) in
            subst
              (λ x.
                Swept (contains_key x to_files) (get x ((k, entry) ∷ rest)) (disk.node x s)
                  (disk.node x s'))
              (sym (bytes_eq→eq p k y)) now
        | inr n ↦
            let apart = bytes_eq_ne p k n in
            rw (get_cons_other p k entry rest apart) (
              subst (λ m. Swept (contains_key p to_files) (get p rest) m (disk.node p s'))
                (there p apart) (ih p))
      ]
