-- ===== src/Branch/Rename.antt =====
-- branch.rs: `rename` of the current branch.
use mediagit_core.Prelude.{
  ◌<◌, ◌≡◌, ◌≢◌, refl, ap, sym, ◌∙◌, true, false, some, ◌++◌, All, arith, inl, inr, Option-cases,
}
use mediagit_core.Result.{ok, err}
use mediagit_core.Bytes.{bytes_eq_refl}
use mediagit_core.Object.{Oid, IsOid}
use mediagit_core.Refs.Hex.{Texts}
use mediagit_core.Refs.Disk.{FileSystem}
use mediagit_core.Refs.{Text, Ref, io, new_direct, new_symbolic, not_found, head, symbolic_prefix}
use mediagit_core.Refs.Database.{parse_file, replace_file, read, exists, delete, update_symbolic}
use mediagit_core.Refs.Stored.{to_ref, to_commit, write_exact, write_keeps, ok_or-some}
use mediagit_core.Refs.Resolve.{resolve_exact}
use mediagit_core.Branch.{heads, validate_branch_name, current_branch, rename, head_commit}
use mediagit_core.Branch.Current.{read-exists}

-- The first name's file is neither the second's nor its temporary file.
abbrev pub Apart : {S P : Type 0} → FileSystem S P → Text → Text → Type 0
Apart fs a b = (fs.path a ≢ fs.path b) × (fs.path a ≢ fs.temp (fs.path b))

module _ {S P : Type 0} (texts : Texts) (fs : FileSystem S P) where
  read_file_some :
      (name : Text) (r : Ref) (s : S)
      → read texts fs name s ≡ ok r
      → (bytes : Text) × (fs.read_file (fs.path name) s ≡ some bytes)
  unfolding read
  read_file_some name r s h = elim (Option-cases (fs.read_file (fs.path name) s)) [
    | inl e ↦ absurd (cc (ap (parse_file texts fs name) e, h))
    | inr found ↦ found
  ]

  -- A file that is there can be removed.
  delete_exact :
      (name : Text) (r : Ref) (s : S)
      → read texts fs name s ≡ ok r
      → ((bytes : Text)
          → fs.read_file (fs.path name) s ≡ some bytes
          → (s' : S) × (fs.remove_file (fs.path name) s ≡ some s'))
      → (s' : S) × (delete texts fs name s ≡ ok s') × (read texts fs name s' ≡ err (not_found name))
  unfolding delete read
  delete_exact name r s h works =
      let (bytes, there) = read_file_some name r s h in
      let (s', done) = works bytes there in
      (s', rw done, rw (fs.remove_file_same (fs.path name) s s' done))

  delete_keeps :
      (name other : Text) (s s' : S)
      → delete texts fs name s ≡ ok s'
      → fs.path other ≢ fs.path name
      → read texts fs other s' ≡ read texts fs other s
  unfolding delete read
  delete_keeps name other s s' h apart =
      ap (parse_file texts fs other)
        (fs.remove_file_other (fs.path name) (fs.path other) s s' apart (ok_or-some io _ s' h))

  module _ (old new : Text) (oid : Oid) (s : S)
      (write_works : (name bytes : Text) (t : S)
        → (u : S) × (replace_file texts fs (fs.path name) bytes t ≡ some u))
      (delete_works : (bytes : Text) (t : S)
        → fs.read_file (fs.path (heads old)) t ≡ some bytes
        → (u : S) × (fs.remove_file (fs.path (heads old)) t ≡ some u))
      (old_new : Apart fs (heads old) (heads new)) (head_new : Apart fs head (heads new))
      (new_head : Apart fs (heads new) head) (old_head : Apart fs (heads old) head) where
    -- Renaming the current branch, which names a commit, to a valid name that is free succeeds:
    -- the new name is the current branch, HEAD leads to the same commit as before, and the old
    -- name is gone. The files of the references can be written and removed, those of HEAD and the
    -- two branches are different, none of them is the temporary file of another, and the new name
    -- is UTF-8 that does not end in white space.
    pub rename_current :
        validate_branch_name new ≡ ok tt
        → texts.is_utf8 (heads new) ≡ true
        → texts.trim (symbolic_prefix ++ heads new) ≡ symbolic_prefix ++ heads new
        → IsOid oid
        → All (λ x. x < 256) oid
        → exists texts fs (heads new) s ≡ false
        → read texts fs (heads old) s ≡ ok (new_direct (heads old) oid)
        → read texts fs head s ≡ ok (new_symbolic head (heads old))
        → (s' : S) × (rename texts fs old new s ≡ ok s')
          × (current_branch texts fs s' ≡ some new)
          × (head_commit texts fs s' ≡ ok oid)
          × (read texts fs (heads old) s' ≡ err (not_found (heads old)))
    unfolding rename update_symbolic current_branch head_commit
    rename_current valid utf8 trimmed n b free branch at_head =
        let moved = new_direct (heads new) oid in
        let target = new_symbolic head (heads new) in
        let (t, wrote, stored, kept) =
          write_exact texts fs moved (heads old) s (to_commit (heads new) oid (λ e. cc e) n b)
            (λ bytes. write_works (heads new) bytes s) old_new.0 old_new.1 in
        let (u, deleted, gone) =
          delete_exact (heads old) (new_direct (heads old) oid) t (kept ∙ branch)
            (λ bytes. delete_works bytes t) in
        let (s', set, now, stays) =
          write_exact texts fs target (heads new) u
            (to_ref head (heads new) (λ e. cc e) utf8 trimmed) (λ bytes. write_works head bytes u)
            new_head.0 new_head.1 in
        let head_u =
          delete_keeps (heads old) head t u deleted (λ e. old_head.0 (sym e))
          ∙ write_keeps texts fs moved head s t wrote head_new.0 head_new.1
          ∙ at_head in
        let new_u =
          delete_keeps (heads old) (heads new) t u deleted (λ e. old_new.0 (sym e)) ∙ stored in
        let old_s = write_keeps texts fs target (heads old) u s' set old_head.0 old_head.1 ∙ gone in
        (
          s',
          rw
              (
                valid,
                read-exists texts fs (heads old) _ s branch,
                free,
                branch,
                wrote,
                deleted,
                head_u,
                bytes_eq_refl old,
              )
              set,
          rw now,
          (resolve_exact texts fs s' head oid).1 (
            1,
            omega arith,
            (heads new, (target, now, refl, refl), (moved, stays ∙ new_u, refl, refl)),
          ),
          old_s,
        )
