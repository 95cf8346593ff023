-- ===== src/Checkout/Exact.antt =====
-- checkout.rs: what `checkout_diff` leaves in the working directory.
use mathlib.Core.Path.{subst}
use mediagit_core.Prelude.{
  ◌⊎◌, ℕ, ◌≡◌, ap, sym, ◌∙◌, inl, inr, Bool, true, false, Bool-cases, Option, none, some, List,
}
use mediagit_core.Result.{Result, ok, bind_ok, ok_inj}
use mediagit_core.Bytes.{bytes_eq, bytes_eq→eq, bytes_eq_refl}
use mediagit_core.Object.{Oid}
use mediagit_core.BTreeMap.{get, contains_key}
use mediagit_core.BTreeMap.Order.{bytes_ord}
use mediagit_core.BTreeMap.Keys.{contains_key-get, is_some}
use mediagit_core.Tree.{FileMode, regular, executable, symlink, directory}
use mediagit_core.Lca.{Commit}
use mediagit_core.Checkout.{
  Files, FileListing, CheckoutError, CheckoutStats, no_stats, place_files, delete_files,
  remove_empty_directories, update_files, checkout_diff,
}
use mediagit_core.Checkout.Disk.{WorkTree, FilePath, Node, file, link, bit, IsPlain, IsLinkFree}
use mediagit_core.Checkout.Cleaning.{remove_empty_directories-SameNodes}
use mediagit_core.Checkout.Steps.{IsRegular, Placed, Updated, untouched}
use mediagit_core.Checkout.Loops.{
  IsDistinct, Looped, Swept, place_files-IsLinkFree, place_files_lem, delete_files_lem,
}

some_inj {ℓ} : {A : Type ℓ} (a b : A) → ◌≡◌ {A = Option A} (some a) (some b) → a ≡ b
some_inj a b h = cc h

-- An order of the files: each path once, with what the map has there.
pub record IsOrder (m : Files) (l : FileListing) : Type 0 where
  pub same : (p : FilePath) → get p l ≡ get p m
  pub distinct : IsDistinct l

-- A regular or an executable file, if there is one.
abbrev pub RegularAt : Option (Oid × FileMode) → Type 0
RegularAt none = Unit
RegularAt (some (oid, mode)) = IsRegular mode

abbrev pub AreRegular : Files → Type 0
AreRegular files = (p : FilePath) → RegularAt (get p files)

module _ {S : Type 0} (disk : WorkTree S) (read_blob : Oid → Option (List ℕ))
    (is_utf8 : List ℕ → Bool) where
  -- What stands at a path after the update, given the two trees and what stood there.
  abbrev pub Settled :
      Option (Oid × FileMode) → Option (Oid × FileMode) → Option Node → Option Node → Type 0
  Settled none none n n' = n' ≡ n
  Settled (some f) none n n' = n' ≡ none
  Settled f (some (oid, mode)) n n' = Updated disk read_blob is_utf8 f oid mode n n'

  settle :
      (f e : Option (Oid × FileMode)) (n m n' : Option Node)
      → Looped disk read_blob is_utf8 f e n m
      → Swept disk read_blob is_utf8 (is_some e) f m n'
      → Settled f e n n'
  settle none none n m n' h k = k ∙ h
  settle none (some (oid, mode)) n m n' h k =
      subst (λ x. Updated disk read_blob is_utf8 none oid mode n x) (sym k) h
  settle (some f) none n m n' h k = k
  settle (some f) (some (oid, mode)) n m n' h k =
      subst (λ x. Updated disk read_blob is_utf8 (some f) oid mode n x) (sym k) h

  update_files_lem :
      (order : Files → FileListing) (passes depth : ℕ) (from_files to_files : Files)
      (c' : CheckoutStats) (s s' : S)
      → IsOrder from_files (order from_files)
      → IsOrder to_files (order to_files)
      → AreRegular to_files
      → IsLinkFree disk s
      → update_files disk read_blob is_utf8 order passes depth from_files to_files s ≡ ok (c', s')
      → (p : FilePath)
      → Settled (get p from_files) (get p to_files) (disk.node p s) (disk.node p s')
  unfolding update_files
  update_files_lem order passes depth from_files to_files c' s s' from_order to_order r free h p =
      let ((d, t), e, more) =
        bind_ok (place_files disk read_blob is_utf8 from_files (order to_files) (no_stats, s)) _
          (c', s') h in
      let ((d', u), e', last) =
        bind_ok (delete_files disk read_blob is_utf8 to_files (order from_files) (d, t)) _ (c', s')
          more in
      let (v, e'', end) =
        bind_ok (remove_empty_directories disk read_blob is_utf8 passes depth u) _ (c', s') last in
      let listed = λ (q : FilePath) (g : Oid × FileMode) (found : get q (order to_files) ≡ some g).
        subst RegularAt (sym (to_order.same q) ∙ found) (r q) in
      let looped =
        subst
          (λ g. Looped disk read_blob is_utf8 (get p from_files) g (disk.node p s) (disk.node p t))
          (to_order.same p)
          (place_files_lem disk read_blob is_utf8 from_files (order to_files) no_stats d s t
            to_order.distinct listed free e p) in
      let swept =
        delete_files_lem disk read_blob is_utf8 to_files (order from_files) d d' t u
          from_order.distinct
          (place_files-IsLinkFree disk read_blob is_utf8 from_files (order to_files) no_stats d s t
            to_order.distinct listed free e)
          e' p in
      let swept' : Swept disk read_blob is_utf8 (is_some (get p to_files)) (get p from_files)
          (disk.node p t) (disk.node p u) =
        subst
          (λ k. Swept disk read_blob is_utf8 k (get p from_files) (disk.node p t) (disk.node p u))
          (contains_key-get p to_files)
          (subst
            (λ g.
              Swept disk read_blob is_utf8 (contains_key p to_files) g (disk.node p t)
                (disk.node p u))
            (from_order.same p) swept) in
      let cleaned : disk.node p s' ≡ disk.node p u =
        untouched disk read_blob is_utf8 p d' c' v s' end p
        ∙ remove_empty_directories-SameNodes disk read_blob is_utf8 passes depth u v e'' p in
      subst (λ n. Settled (get p from_files) (get p to_files) (disk.node p s) n) (sym cleaned)
        (settle (get p from_files) (get p to_files) _ (disk.node p t) (disk.node p u) looped swept')

  -- The node of a file of a tree.
  abbrev pub Shows : Option (Oid × FileMode) → Option Node → Type 0
  Shows none n = n ≡ none
  Shows (some (oid, regular)) n =
      (blob : List ℕ) × (read_blob oid ≡ some blob) × (n ≡ some (file blob false))
  Shows (some (oid, executable)) n =
      (blob : List ℕ) × (read_blob oid ≡ some blob) × (n ≡ some (file blob true))
  Shows (some (oid, symlink)) n =
      (blob : List ℕ) × (read_blob oid ≡ some blob) × (n ≡ some (link blob))
  Shows (some (oid, directory)) n = ⊥

  -- The working directory has the files of the tree, and no others.
  abbrev pub Matches : Files → S → Type 0
  Matches files s = (p : FilePath) → Shows (get p files) (disk.node p s)

  -- A path of both trees has the same mode in both.
  abbrev pub KeepsMode : Option (Oid × FileMode) → Option (Oid × FileMode) → Type 0
  KeepsMode (some (from_oid, from_mode)) (some (oid, mode)) = from_mode ≡ mode
  KeepsMode _ _ = Unit

  pub shown-IsPlain :
      (f : Option (Oid × FileMode)) (n : Option Node) → RegularAt f → Shows f n → IsPlain n
  shown-IsPlain f none r h = tt
  shown-IsPlain f (some (file b x)) r h = tt
  shown-IsPlain none (some (link t)) r h = cc h
  shown-IsPlain (some (oid, regular)) (some (link t)) r h = cc (h.2)
  shown-IsPlain (some (oid, executable)) (some (link t)) r h = cc (h.2)
  shown-IsPlain (some (oid, symlink)) (some (link t)) r h = absurd r
  shown-IsPlain (some (oid, directory)) (some (link t)) r h = absurd h

  Settled-Shows :
      (f e : Option (Oid × FileMode)) (n n' : Option Node)
      → RegularAt e
      → KeepsMode f e
      → Shows f n
      → Settled f e n n'
      → Shows e n'
  Settled-Shows none none n n' r k h g = g ∙ h
  Settled-Shows (some f) none n n' r k h g = g
  Settled-Shows f (some (oid, symlink)) n n' r k h g = absurd r
  Settled-Shows f (some (oid, directory)) n n' r k h g = absurd r
  Settled-Shows none (some (oid, regular)) n n' r k h (blob, e, there) =
      (blob, e, there ∙ ap (λ x. some (file blob (bit x))) h)
  Settled-Shows none (some (oid, executable)) n n' r k h g = g
  Settled-Shows (some (from_oid, m)) (some (oid, regular)) n n' r k h g =
      let (old, e, there) : Shows (some (from_oid, regular)) n =
        subst (λ x. Shows (some (from_oid, x)) n) k h in
      elim (Bool-cases (bytes_eq from_oid oid)) [
        | inl y ↦
            let same : n' ≡ n = rw y at g in
            (old, ap read_blob (sym (bytes_eq→eq from_oid oid y)) ∙ e, same ∙ there)
        | inr no' ↦
            let (blob, e', now) : Placed disk read_blob is_utf8 oid regular n n' = rw no' at g in
            (blob, e', now ∙ ap (λ x. some (file blob (bit x))) there)
      ]
  Settled-Shows (some (from_oid, m)) (some (oid, executable)) n n' r k h g =
      let (old, e, there) : Shows (some (from_oid, executable)) n =
        subst (λ x. Shows (some (from_oid, x)) n) k h in
      elim (Bool-cases (bytes_eq from_oid oid)) [
        | inl y ↦
            let same : n' ≡ n = rw y at g in
            (old, ap read_blob (sym (bytes_eq→eq from_oid oid y)) ∙ e, same ∙ there)
        | inr no' ↦ rw no' at g
      ]

  module _ (order : Files → FileListing) (passes depth : ℕ) (read_commit : Oid → Option Commit)
      (files_of : Oid → Result CheckoutError Files) (from_oid to_oid : Oid)
      (from_commit to_commit : Commit) (from_files to_files : Files) (c' : CheckoutStats) (s s' : S)
      (read_from : read_commit from_oid ≡ some from_commit)
      (read_to : read_commit to_oid ≡ some to_commit)
      (from_tree : files_of from_commit.tree ≡ ok from_files)
      (to_tree : files_of to_commit.tree ≡ ok to_files)
      (from_order : IsOrder from_files (order from_files))
      (to_order : IsOrder to_files (order to_files))
      (done : checkout_diff disk read_blob is_utf8 order passes depth read_commit files_of from_oid
          to_oid s
        ≡ ok (c', s')) where
    kept :
        ◌≡◌ {A = Result CheckoutError (CheckoutStats × S)} (ok (no_stats, s)) (ok (c', s')) → s' ≡ s
    kept h = ap (λ st. st.1) (sym (ok_inj (no_stats, s) (c', s') h))

    -- Either nothing was done, since the commits or their trees are the same, or the files were
    -- updated.
    checkout_diff_cases :
        ((from_files ≡ to_files) × (s' ≡ s))
        ⊎ (update_files disk read_blob is_utf8 order passes depth from_files to_files s
            ≡ ok (c', s'))
    unfolding checkout_diff
    checkout_diff_cases = elim (Bool-cases (bytes_eq from_oid to_oid)) [
      | inl y ↦
          let oids = bytes_eq→eq from_oid to_oid y in
          let commits : from_commit ≡ to_commit =
            some_inj _ _ (sym read_from ∙ ap read_commit oids ∙ read_to) in
          inl (
            ok_inj from_files to_files
                (sym from_tree ∙ ap (λ c. files_of c.tree) commits ∙ to_tree),
            kept (rw y at done),
          )
      | inr n ↦ elim (Bool-cases (bytes_eq from_commit.tree to_commit.tree)) [
        | inl y ↦
            let trees = bytes_eq→eq from_commit.tree to_commit.tree y in
            inl (
              ok_inj from_files to_files (sym from_tree ∙ ap files_of trees ∙ to_tree),
              kept (rw (n, read_from, read_to, y) at done),
            )
        | inr m ↦ inr (rw (n, read_from, read_to, m, from_tree, to_tree) at done)
      ]
    ]

    -- Where all files of both commits' trees are regular or executable, none with another mode in
    -- the other tree, and the working directory has exactly the files of the first tree, a
    -- `checkout_diff` that succeeds leaves exactly the files of the second, each with its content
    -- and its executable bit, in whatever order it goes through them.
    pub checkout_diff_exact :
        AreRegular from_files
        → AreRegular to_files
        → ((p : FilePath) → KeepsMode (get p from_files) (get p to_files))
        → Matches from_files s
        → Matches to_files s'
    checkout_diff_exact from_regular to_regular modes before p = elim checkout_diff_cases [
      | inl (same, still) ↦
          subst (λ u. Shows (get p to_files) (disk.node p u)) (sym still)
            (subst (λ f. Shows (get p f) (disk.node p s)) same (before p))
      | inr updated ↦
          Settled-Shows (get p from_files) (get p to_files) (disk.node p s) (disk.node p s')
            (to_regular p) (modes p) (before p)
            (update_files_lem order passes depth from_files to_files c' s s' from_order to_order
              to_regular
              (λ q. shown-IsPlain (get q from_files) (disk.node q s) (from_regular q) (before q))
              updated p)
    ]

    -- A file that has the same content in both trees stays as it is in the working directory, also
    -- where the two trees give it different modes, after a `checkout_diff` that succeeds, where
    -- the working directory has no symbolic link and all files of the second tree are regular or
    -- executable.
    pub checkout_diff_mode :
        (p : FilePath) (oid : Oid) (mode mode' : FileMode)
        → get p from_files ≡ some (oid, mode)
        → get p to_files ≡ some (oid, mode')
        → AreRegular to_files
        → IsLinkFree disk s
        → disk.node p s' ≡ disk.node p s
    checkout_diff_mode p oid mode mode' e e' to_regular free = elim checkout_diff_cases [
      | inl (same, still) ↦ ap (disk.node p) still
      | inr updated ↦
          let settled =
            update_files_lem order passes depth from_files to_files c' s s' from_order to_order
              to_regular free updated p in
          let there : Settled (some (oid, mode)) (some (oid, mode')) (disk.node p s)
              (disk.node p s') =
            subst (λ f. Settled f (some (oid, mode')) (disk.node p s) (disk.node p s')) e
              (subst (λ f. Settled (get p from_files) f (disk.node p s) (disk.node p s')) e'
                settled) in
          rw (bytes_eq_refl oid) at there
    ]
