-- ===== src/Branch/Current.antt =====
-- branch.rs: what HEAD is after `switch_to`, `detach_head` and `delete`, and what `get_info` says
-- of the current branch.
use mediagit_core.Prelude.{
  ◌<◌, ◌≡◌, ◌≢◌, refl, ap, sym, ◌∙◌, inl, inr, true, false, not, ◌&&◌, Option, none, some, [], ◌∷◌,
  ◌++◌, All, length, length-append, arith, Bool-cases, Option-cases,
}
use mediagit_core.Result.{Result, ok, err, panic, bind_ok, ensure_ok, ok_inj}
use mediagit_core.Bytes.{bytes_eq, bytes_eq_refl, bytes_eq→eq}
use mediagit_core.Object.{Oid, IsOid}
use mediagit_core.Refs.Hex.{Texts}
use mediagit_core.Refs.Disk.{FileSystem}
use mediagit_core.Refs.{
  Text, RefType, direct, symbolic, Ref, new_direct, new_symbolic, RefError, io, not_found,
  no_branch, current_branch_kept, head, heads_prefix, symbolic_prefix, strip_prefix, is_text, ok_or,
  direct_without_oid,
}
use mediagit_core.Refs.Database.{
  is_direct, parse_file, replace_file, read, exists, delete, update_symbolic,
}
use mediagit_core.Refs.Stored.{IsStorable, to_ref, to_commit, write_exact, ok_or-some}
use mediagit_core.Refs.Resolve.{Names, resolve_exact}
use mediagit_core.Branch.{
  heads, BranchInfo, on_branch, head_is, current_of, current_branch, delete_branch, get_info,
  switch_to, detach_head, is_detached, head_commit,
}

pub strip_prefix_eq : (p t n : Text) → strip_prefix p t ≡ some n → t ≡ p ++ n
strip_prefix_eq [] t n h = cc h
strip_prefix_eq (c ∷ cs) [] n h = cc h
strip_prefix_eq (c ∷ cs) (x ∷ xs) n h = ground (arith, strip_prefix_eq cs xs n)

on_branch_eq :
    (t : RefType) (g : Option Text) (name : Text)
    → on_branch t g ≡ some name
    → (not (is_direct t) && is_text g (heads name)) ≡ true
on_branch_eq direct g name h = cc h
on_branch_eq symbolic none name h = cc h
on_branch_eq symbolic (some target) name h =
    rw (strip_prefix_eq heads_prefix target name h) (bytes_eq_refl (heads name))

longer : (name : Text) → bytes_eq name (heads name) ≡ false
longer name = elim (Bool-cases (bytes_eq name (heads name))) [
  | inl e ↦
      let same = ap length (bytes_eq→eq name (heads name) e) in
      absurd (omega (arith, length-append heads_prefix name))
  | inr e ↦ e
]

module _ {S P : Type 0} (texts : Texts) (fs : FileSystem S P) where
  pub read-exists :
      (name : Text) (r : Ref) (s : S) → read texts fs name s ≡ ok r → exists texts fs name s ≡ true
  unfolding read exists
  read-exists name r s h = elim (Option-cases (fs.read_file (fs.path name) s)) [
    | inl e ↦ cc (ap (parse_file texts fs name) e, h)
    | inr (bytes, e) ↦ fs.metadata_file (fs.path name) bytes s e
  ]

  -- The branch that HEAD names is the current one.
  head_is-current_of :
      (h : Result RefError Ref) (name : Text)
      → current_of texts fs h ≡ some name
      → head_is h (heads name) ≡ true
  head_is-current_of (ok h) name e = on_branch_eq h.ref_type h.target name e
  head_is-current_of (err e) name h = cc h
  head_is-current_of panic name h = cc h

  -- A branch that was deleted was not the current one, which stays, and is gone, where its file is
  -- not that of HEAD.
  pub delete_branch_safe :
      (name : Text) (s s' : S)
      → fs.path head ≢ fs.path (heads name)
      → delete_branch texts fs name s ≡ ok s'
      → (current_branch texts fs s ≢ some name)
        × (current_branch texts fs s' ≡ current_branch texts fs s)
        × (read texts fs (heads name) s' ≡ err (not_found (heads name)))
  unfolding delete_branch delete current_branch read
  delete_branch_safe name s s' apart h =
      let (found, rest) = ensure_ok (exists texts fs (heads name) s) (no_branch name) _ s' h in
      let (free, last) =
        ensure_ok (not (head_is (read texts fs head s) (heads name))) (current_branch_kept name) _
          s' rest in
      let removed = ok_or-some io (fs.remove_file (fs.path (heads name)) s) s' last in
      (
        λ e. cc (ap not (head_is-current_of (read texts fs head s) name e), free),
        ap (λ f. current_of texts fs (parse_file texts fs head f))
            (fs.remove_file_other (fs.path (heads name)) (fs.path head) s s' apart removed),
        rw (fs.remove_file_same (fs.path (heads name)) s s' removed),
      )

  -- Where `get_info` succeeds for the current branch, it reports the branch as not current.
  pub get_info_current :
      (name : Text) (info : BranchInfo) (s : S)
      → current_branch texts fs s ≡ some name
      → get_info texts fs name s ≡ ok info
      → info.is_current ≡ false
  unfolding get_info
  get_info_current name info s current h =
      let (found, rest) = ensure_ok (exists texts fs (heads name) s) (no_branch name) _ info h in
      let (r, parsed, rest') = bind_ok (read texts fs (heads name) s) _ info rest in
      let (oid, e, last) = bind_ok (ok_or direct_without_oid r.oid) _ info rest' in
      ap (λ i. i.is_current) (sym (ok_inj _ info last)) ∙ rw current (longer name)

  module _ (name : Text) (oid : Oid) (s : S) (apart : fs.path (heads name) ≢ fs.path head)
      (apart_temp : fs.path (heads name) ≢ fs.temp (fs.path head))
      (works : (bytes : Text)
        → (s' : S) × (replace_file texts fs (fs.path head) bytes s ≡ some s')) where
    -- Switching to a branch that names a commit succeeds, makes it the current branch and attaches
    -- HEAD to it, and HEAD then leads to that commit, where the file of HEAD can be replaced, the
    -- branch's file is neither that of HEAD nor its temporary file, and the branch's name is UTF-8
    -- that does not end in white space.
    pub switch_to_exact :
        texts.is_utf8 (heads name) ≡ true
        → texts.trim (symbolic_prefix ++ heads name) ≡ symbolic_prefix ++ heads name
        → Names texts fs s (heads name) oid
        → (s' : S) × (switch_to texts fs name s ≡ ok s')
          × (current_branch texts fs s' ≡ some name)
          × (is_detached texts fs s' ≡ false)
          × (head_commit texts fs s' ≡ ok oid)
    unfolding switch_to update_symbolic current_branch is_detached head_commit
    switch_to_exact utf8 trimmed (r, found, kind, e) =
        let target = new_symbolic head (heads name) in
        let fit : IsStorable texts target = to_ref head (heads name) (λ n. cc n) utf8 trimmed in
        let (s', done, now, kept) =
          write_exact texts fs target (heads name) s fit works apart apart_temp in
        (
          s',
          rw (read-exists (heads name) r s found, done),
          rw now,
          rw now,
          (resolve_exact texts fs s' head oid).1
              (1, omega arith, (heads name, (target, now, refl, refl), (r, kept ∙ found, kind, e))),
        )

    -- Detaching HEAD at a commit succeeds and returns the branch that was current; no branch is
    -- current then, HEAD is detached and leads to the commit, and a branch, whose file is neither
    -- that of HEAD nor its temporary file, reads as before. The file of HEAD can be replaced, and
    -- the identifier has 32 bytes.
    pub detach_head_exact :
        IsOid oid
        → All (λ x. x < 256) oid
        → (s' : S) × (detach_head texts fs oid s
            ≡ ok (record { commit_oid = oid; previous_branch = current_branch texts fs s }, s'))
          × (current_branch texts fs s' ≡ none)
          × (is_detached texts fs s' ≡ true)
          × (head_commit texts fs s' ≡ ok oid)
          × (read texts fs (heads name) s' ≡ read texts fs (heads name) s)
    unfolding detach_head current_branch is_detached head_commit
    detach_head_exact n b =
        let target = new_direct head oid in
        let fit : IsStorable texts target = to_commit head oid (λ n. cc n) n b in
        let (s', done, now, kept) =
          write_exact texts fs target (heads name) s fit works apart apart_temp in
        (
          s',
          rw done,
          rw now,
          rw now,
          (resolve_exact texts fs s' head oid).1 (0, omega arith, (target, now, refl, refl)),
          kept,
        )
