-- ===== src/Revision/Parents.antt =====
-- revision.rs: what `HEAD~N` resolves to.
use mediagit_core.Prelude.{
  false, ℕ, zero, suc, ◌<◌, ◌≡◌, ◌≢◌, ◌↔◌, refl, ap, sym, ◌∙◌, Option, none, some, List, [], ◌∷◌,
  ◌++◌, All, arith, ◌==◌,
}
use mediagit_core.Result.{Result, ok, err, panic, ◌>>=◌, bind_ok, ok_inj}
use mediagit_core.Object.{Oid}
use mediagit_core.Refs.Hex.{Texts}
use mediagit_core.Refs.Disk.{FileSystem}
use mediagit_core.Refs.{Text, head}
use mediagit_core.Refs.Database.{resolve}
use mediagit_core.Refs.Resolve.{Chain, resolve_exact}
use mediagit_core.Revision.{
  no_head, split_tilde, or_else, parse_parent_notation, first_parent, walk_parents, resolve_base,
  resolve_revision,
}

-- `n` first parents lead from one commit to another.
abbrev pub FirstParents : (Oid → Option (List Oid)) → ℕ → Oid → Oid → Type 0
FirstParents parents_of zero start last = start ≡ last
FirstParents parents_of (suc n) start last =
    (p : Oid) × (ps : List Oid) × (parents_of start ≡ some (p ∷ ps))
    × FirstParents parents_of n p last

module _ (parents_of : Oid → Option (List Oid)) where
  first_parent_ok :
      (oid : Oid) (o : Option (List Oid)) (p : Oid)
      → first_parent parents_of oid o ≡ ok p
      → (ps : List Oid) × (o ≡ some (p ∷ ps))
  first_parent_ok oid none p h = cc h
  first_parent_ok oid (some []) p h = cc h
  first_parent_ok oid (some (q ∷ qs)) p h = (qs, ap (λ x. some (x ∷ qs)) (ok_inj q p h))

  walk_parents_sound :
      (n : ℕ) (start last : Oid)
      → walk_parents parents_of n start ≡ ok last
      → FirstParents parents_of n start last
  unfolding walk_parents
  walk_parents_sound zero start last h = ok_inj start last h
  walk_parents_sound (suc n) start last h =
      let (p, e, rest) = bind_ok (first_parent parents_of start (parents_of start)) _ last h in
      let (ps, listed) = first_parent_ok start (parents_of start) p e in
      (p, ps, listed, walk_parents_sound n p last rest)

  walk_parents_complete :
      (n : ℕ) (start last : Oid)
      → FirstParents parents_of n start last
      → walk_parents parents_of n start ≡ ok last
  unfolding walk_parents
  walk_parents_complete zero start last h = ap ok h
  walk_parents_complete (suc n) start last (p, ps, e, rest) =
      rw e (walk_parents_complete n p last rest)

no_tilde : (xs : Text) → All (λ c. c ≢ b'~') xs → split_tilde xs ≡ none
no_tilde [] h = refl
no_tilde (x ∷ xs) h = let c = h.0 in rw (no_tilde xs h.1) (ground arith)

-- The text is split at the last tilde.
split_tilde_at :
    (base count : Text)
    → All (λ c. c ≢ b'~') count
    → split_tilde (base ++ (b'~' ∷ count)) ≡ some (base, count)
split_tilde_at [] count h = rw (no_tilde count h)
split_tilde_at (x ∷ xs) count h = rw (split_tilde_at xs count h)

or_else_ok {ℓ κ μ} :
    {E : Type ℓ} {F : Type κ} {A : Type μ} (m : Result E A) (e : F) (a : A)
    → ◌≡◌ {A = Result F A} (or_else m (err e)) (ok a)
    → m ≡ ok a
or_else_ok (ok x) e a h = cc h
or_else_ok (err x) e a h = cc h
or_else_ok panic e a h = cc h

module _ {S P : Type 0} (texts : Texts) (fs : FileSystem S P) (parse_usize : Text → Option ℕ)
    (parents_of : Oid → Option (List Oid)) (abbreviated : Text → Option Oid) where
  tilde_lem :
      (count : Text) (n : ℕ) (s : S)
      → All (λ c. c ≢ b'~') count
      → parse_usize count ≡ some (suc n)
      → resolve_revision texts fs parse_usize parents_of abbreviated (head ++ (b'~' ∷ count)) s
        ≡ (or_else (resolve texts fs head s) (err no_head) >>= walk_parents parents_of (suc n))
  unfolding resolve_revision parse_parent_notation resolve_base
  tilde_lem count n s h e =
      let split = split_tilde_at head count h in
      let positive : (suc n == 0) ≡ false = ground arith in rw (split, e, positive)

  -- `HEAD~N` resolves to a commit exactly where HEAD leads, over fewer than ten symbolic
  -- references, to a commit from which N first parents lead to it; N is positive, and the text
  -- behind the tilde, in which there is no other, is read as N.
  pub resolve_revision_exact :
      (count : Text) (n : ℕ) (oid : Oid) (s : S)
      → All (λ c. c ≢ b'~') count
      → parse_usize count ≡ some (suc n)
      → (resolve_revision texts fs parse_usize parents_of abbreviated (head ++ (b'~' ∷ count)) s
          ≡ ok oid)
        ↔ ((start : Oid) × ((k : ℕ) × (k < 10) × Chain texts fs s k head start)
            × FirstParents parents_of (suc n) start oid)
  resolve_revision_exact count n oid s h e =
      let run = tilde_lem count n s h e in
      (
        λ found.
            let (start, leads, walks) =
              bind_ok (or_else (resolve texts fs head s) (err no_head)) _ oid (sym run ∙ found) in
            (
              start,
              (resolve_exact texts fs s head start).0 (or_else_ok _ no_head start leads),
              walk_parents_sound parents_of (suc n) start oid walks,
            ),
        λ c.
            let (start, leads, walks) = c in
            run
            ∙ rw ((resolve_exact texts fs s head start).1 leads)
                (walk_parents_complete parents_of (suc n) start oid walks),
      )
