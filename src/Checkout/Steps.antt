-- ===== src/Checkout/Steps.antt =====
-- checkout.rs: what `checkout_single_file` leaves, and one step of the first loop.
use mathlib.Core.Path.{subst}
use mediagit_core.Prelude.{
  ℕ, ◌≡◌, ◌≢◌, ap, sym, ◌∙◌, inl, inr, Bool, true, Bool-cases, Option, none, some, List,
  if◌then◌else◌,
}
use mediagit_core.Result.{Result, ok, err, panic, ◌>>=◌, bind_ok, ok_inj}
use mediagit_core.Bytes.{bytes_eq, bytes_eq→eq, bytes_eq_ne}
use mediagit_core.Object.{Oid}
use mediagit_core.BTreeMap.Order.{bytes_ord}
use mediagit_core.Tree.{FileMode, regular, executable, symlink, directory}
use mediagit_core.Checkout.{
  CheckoutError, CheckoutStats, io, blob_unreadable, or_err, write_mode, checkout_single_file,
  place_file,
}
use mediagit_core.Checkout.Disk.{WorkTree, FilePath, Node, file, link, bit, IsPlain, IsLinkFree}

-- What `checkout_single_file` leaves, given what stood there.
abbrev pub written : List ℕ → FileMode → Option Node → Option Node
written blob regular n = some (file blob (bit n))
written blob executable n = some (file blob true)
written blob symlink n = some (link blob)
written blob directory n = n

-- The mode of a regular or an executable file.
abbrev pub IsRegular : FileMode → Type 0
IsRegular regular = Unit
IsRegular executable = Unit
IsRegular symlink = ⊥
IsRegular directory = ⊥

pub or_err_ok {ℓ} :
    {A : Type ℓ} (e : CheckoutError) (o : Option A) (a : A) → or_err e o ≡ ok a → o ≡ some a
or_err_ok e none a h = cc h
or_err_ok e (some b) a h = cc h

module _ {S : Type 0} (disk : WorkTree S) (read_blob : Oid → Option (List ℕ))
    (is_utf8 : List ℕ → Bool) where
  pub still-IsLinkFree :
      (p : FilePath) (s s' : S)
      → IsLinkFree disk s
      → IsPlain (disk.node p s')
      → ((q : FilePath) → q ≢ p → disk.node q s' ≡ disk.node q s)
      → IsLinkFree disk s'
  still-IsLinkFree p s s' free plain others q = elim (Bool-cases (bytes_eq q p)) [
    | inl y ↦ subst (λ x. IsPlain (disk.node x s')) (sym (bytes_eq→eq q p y)) plain
    | inr n ↦ subst IsPlain (sym (others q (bytes_eq_ne q p n))) (free q)
  ]

  write_mode_lem :
      (p : FilePath) (blob : List ℕ) (mode : FileMode) (s s' : S)
      → IsRegular mode
      → IsLinkFree disk s
      → write_mode disk read_blob is_utf8 p blob mode s ≡ ok s'
      → (disk.node p s' ≡ written blob mode (disk.node p s))
        × ((q : FilePath) → q ≢ p → disk.node q s' ≡ disk.node q s)
  write_mode_lem p blob regular s s' r free h =
      let done = or_err_ok io (disk.write p blob s) s' h in
      (
        disk.write_same p blob s s' free done,
        λ q apart. disk.write_other p q blob s s' free apart done,
      )
  write_mode_lem p blob executable s s' r free h =
      let (t, e, rest) = bind_ok (or_err io (disk.write p blob s)) _ s' h in
      let done = or_err_ok io (disk.write p blob s) t e in
      let last = or_err_ok io (disk.set_executable p t) s' rest in
      let there = disk.write_same p blob s t free done in
      let others =
        λ (q : FilePath) (apart : q ≢ p). disk.write_other p q blob s t free apart done in
      let free' = still-IsLinkFree p s t free (subst IsPlain (sym there) tt) others in
      (
        disk.set_executable_same p blob _ t s' there last,
        λ q apart. disk.set_executable_other p q t s' free' apart last ∙ others q apart,
      )
  write_mode_lem p blob symlink s s' r free h = absurd r
  write_mode_lem p blob directory s s' r free h = absurd r

  abbrev pub Placed : Oid → FileMode → Option Node → Option Node → Type 0
  Placed oid mode n n' = (blob : List ℕ) × (read_blob oid ≡ some blob) × (n' ≡ written blob mode n)

  single_lem :
      (p : FilePath) (oid : Oid) (mode : FileMode) (s s' : S)
      → IsRegular mode
      → IsLinkFree disk s
      → checkout_single_file disk read_blob is_utf8 p oid mode s ≡ ok s'
      → Placed oid mode (disk.node p s) (disk.node p s')
        × ((q : FilePath) → q ≢ p → disk.node q s' ≡ disk.node q s)
  unfolding checkout_single_file
  single_lem p oid mode s s' r free h =
      let (blob, e, rest) = bind_ok (or_err blob_unreadable (read_blob oid)) _ s' h in
      let (t, e', rest') = bind_ok (or_err io (disk.create_parent p s)) _ s' rest in
      let made = or_err_ok io (disk.create_parent p s) t e' in
      let same = λ (q : FilePath). disk.create_parent_nodes p q s t made in
      let (here, there) =
        write_mode_lem p blob mode t s' r (λ q. subst IsPlain (sym (same q)) (free q)) rest' in
      (
        (
          blob,
          or_err_ok blob_unreadable (read_blob oid) blob e,
          here ∙ ap (written blob mode) (same p),
        ),
        λ q apart. there q apart ∙ same q,
      )

  -- What is left at a path of the target tree.
  abbrev pub Updated : Option (Oid × FileMode) → Oid → FileMode → Option Node → Option Node → Type 0
  Updated none oid mode n n' = Placed oid mode n n'
  Updated (some (from_oid, from_mode)) oid mode n n' =
      if bytes_eq from_oid oid then n' ≡ n else Placed oid mode n n'

  -- What happened at one path, while nothing happened at the others.
  abbrev pub Touches : FilePath → (Option Node → Option Node → Type 0) → S → S → Type 0
  Touches p R s s' =
      R (disk.node p s) (disk.node p s') × ((q : FilePath) → q ≢ p → disk.node q s' ≡ disk.node q s)

  pub stats_ok :
      (m : Result CheckoutError S) (c c' : CheckoutStats) (s' : S)
      → ◌>>=◌ {B = CheckoutStats × S} m (λ t. ok (c, t)) ≡ ok (c', s')
      → m ≡ ok s'
  stats_ok (ok t) c c' s' h = ap (λ st. ok st.1) (ok_inj (c, t) (c', s') h)
  stats_ok (err e) c c' s' h = cc h
  stats_ok panic c c' s' h = cc h

  pub untouched :
      (p : FilePath) (c c' : CheckoutStats) (s s' : S)
      → ◌≡◌ {A = Result CheckoutError (CheckoutStats × S)} (ok (c, s)) (ok (c', s'))
      → (q : FilePath) → disk.node q s' ≡ disk.node q s
  untouched p c c' s s' h q = ap (λ st. disk.node q st.1) (sym (ok_inj (c, s) (c', s') h))

  IsPlain-Placed :
      (oid : Oid) (mode : FileMode) (n n' : Option Node)
      → IsRegular mode
      → IsPlain n
      → Placed oid mode n n'
      → IsPlain n'
  IsPlain-Placed oid regular n n' r plain (blob, e, there) = subst IsPlain (sym there) tt
  IsPlain-Placed oid executable n n' r plain (blob, e, there) = subst IsPlain (sym there) tt
  IsPlain-Placed oid symlink n n' r plain placed = absurd r
  IsPlain-Placed oid directory n n' r plain placed = absurd r

  IsPlain-Updated :
      (f : Option (Oid × FileMode)) (oid : Oid) (mode : FileMode) (n n' : Option Node)
      → IsRegular mode
      → IsPlain n
      → Updated f oid mode n n'
      → IsPlain n'
  IsPlain-Updated none oid mode n n' r plain u = IsPlain-Placed oid mode n n' r plain u
  IsPlain-Updated (some (from_oid, from_mode)) oid mode n n' r plain u =
      elim (Bool-cases (bytes_eq from_oid oid)) [
        | inl y ↦ let same : n' ≡ n = rw y at u in subst IsPlain (sym same) plain
        | inr no' ↦ IsPlain-Placed oid mode n n' r plain (rw no' at u)
      ]

  place_file-Touches :
      (f : Option (Oid × FileMode)) (p : FilePath) (oid : Oid) (mode : FileMode)
      (c c' : CheckoutStats) (s s' : S)
      → IsRegular mode
      → IsLinkFree disk s
      → place_file disk read_blob is_utf8 f p oid mode (c, s) ≡ ok (c', s')
      → Touches p (Updated f oid mode) s s'
  place_file-Touches none p oid mode c c' s s' r free h =
      single_lem p oid mode s s' r free (stats_ok _ _ c' s' h)
  place_file-Touches (some (from_oid, from_mode)) p oid mode c c' s s' r free h =
      elim (Bool-cases (bytes_eq from_oid oid)) [
        | inl e ↦ let same = untouched p _ c' s s' (rw e at h) in rw e (same p, λ q apart. same q)
        | inr e ↦ rw e (single_lem p oid mode s s' r free (stats_ok _ _ c' s' (rw e at h)))
      ]

  pub place_file_lem :
      (f : Option (Oid × FileMode)) (p : FilePath) (oid : Oid) (mode : FileMode)
      (c c' : CheckoutStats) (s s' : S)
      → IsRegular mode
      → IsLinkFree disk s
      → place_file disk read_blob is_utf8 f p oid mode (c, s) ≡ ok (c', s')
      → Touches p (Updated f oid mode) s s' × IsLinkFree disk s'
  place_file_lem f p oid mode c c' s s' r free h =
      let (here, others) = place_file-Touches f p oid mode c c' s s' r free h in
      (
        (here, others),
        still-IsLinkFree p s s' free (IsPlain-Updated f oid mode _ _ r (free p) here) others,
      )
