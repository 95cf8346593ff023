-- ===== src/Refs/Stored.antt =====
-- refs.rs: what `RefDatabase::read` returns after `RefDatabase::write`.
use mediagit_core.Prelude.{
  All-append, ℕ, ◌<◌, ◌≡◌, ◌≢◌, refl, ap, ◌∙◌, true, Option, none, some, List, [], ◌∷◌, ◌++◌, All,
  All-imp, length, arith,
}
use mediagit_core.Result.{bind_ok, ok, err}
use mediagit_core.Object.{Oid, IsOid}
use mediagit_core.Refs.Hex.{Texts, IsHexDigit, to_hex, from_hex}
use mediagit_core.Refs.Disk.{FileSystem}
use mediagit_core.Refs.{
  Text, Ref, new_direct, new_symbolic, RefError, io, not_found, symbolic_prefix, strip_prefix,
  validate, serialize, deserialize, ok_or,
}
use mediagit_core.Refs.Database.{
  named, create_parent, then_do, parse_file, replace_file, write, read,
}

-- A reference as the constructors make it, whose text comes back: 32 bytes for an identifier; for
-- a target, UTF-8 that does not end in white space.
pub data IsStorable (texts : Texts) : Ref → Type 0 where
  to_commit :
      (name : Text) (oid : Oid)
      → name ≢ []
      → IsOid oid
      → All (λ x. x < 256) oid
      → IsStorable texts (new_direct name oid)
  to_ref :
      (name target : Text)
      → name ≢ []
      → texts.is_utf8 target ≡ true
      → texts.trim (symbolic_prefix ++ target) ≡ symbolic_prefix ++ target
      → IsStorable texts (new_symbolic name target)

digit_lt : (xs : List ℕ) → All IsHexDigit xs → All (λ c. c < 128) xs
digit_lt xs h = All-imp xs (λ x p. omega arith) h

no_symbolic_prefix : (xs : List ℕ) → All IsHexDigit xs → strip_prefix symbolic_prefix xs ≡ none
no_symbolic_prefix [] h = refl
no_symbolic_prefix (x ∷ xs) h = let d = h.0 in ground arith

module _ (texts : Texts) where
  from_hex-to_hex :
      (oid : Oid)
      → IsOid oid
      → All (λ x. x < 256) oid
      → from_hex texts (to_hex texts oid) ≡ some oid
  unfolding from_hex
  from_hex-to_hex oid h b =
      let n : length (to_hex texts oid) ≡ 64 = omega (arith, texts.length-hex_encode oid) in
      rw (n, texts.hex_decode-hex_encode oid b, h)

  -- The text of a reference, and what is read from it.
  pub deserialize-serialize :
      (r : Ref)
      → IsStorable texts r
      → (bytes : Text) × (serialize texts r ≡ ok bytes)
        × (deserialize texts bytes ≡ ok (named [] r))
        × (validate r ≡ ok tt)
  unfolding serialize deserialize validate
  deserialize-serialize r (to_commit [] oid nonempty n b) = absurd (nonempty refl)
  deserialize-serialize r (to_commit (x ∷ xs) oid nonempty n b) =
      let digits = texts.hex_encode_digits oid b in
      let hex = to_hex texts oid in
      (
        hex ++ (b'\n' ∷ []),
        refl,
        rw (
          texts.is_utf8_ascii (hex ++ (b'\n' ∷ []))
              (All-append (λ c. c < 128) hex _ (digit_lt hex digits) (omega arith)),
          texts.trim_newline hex (texts.trim_digits hex digits),
          no_symbolic_prefix hex digits,
          from_hex-to_hex oid n b,
        ),
        refl,
      )
  deserialize-serialize r (to_ref [] target nonempty u t) = absurd (nonempty refl)
  deserialize-serialize r (to_ref (x ∷ xs) target nonempty u t) = (
    symbolic_prefix ++ (target ++ (b'\n' ∷ [])),
    refl,
    rw (
      texts.is_utf8-append symbolic_prefix (target ++ (b'\n' ∷ []))
          (texts.is_utf8_ascii symbolic_prefix (omega arith))
          (texts.is_utf8-append target (b'\n' ∷ []) u
            (texts.is_utf8_ascii (b'\n' ∷ []) (omega arith))),
      texts.trim_newline (symbolic_prefix ++ target) t,
    ),
    refl,
  )

pub ok_or-some {ℓ} :
    {A : Type ℓ} (e : RefError) (o : Option A) (a : A) → ok_or e o ≡ ok a → o ≡ some a
ok_or-some e none a h = cc h
ok_or-some e (some b) a h = cc h

-- The three calls behind `write`.
module _ {S P : Type 0} (texts : Texts) (fs : FileSystem S P) where
  create_parent_files :
      (d : Option P) (p : P) (s s' : S)
      → create_parent texts fs d s ≡ some s'
      → fs.read_file p s' ≡ fs.read_file p s
  create_parent_files none p s s' h = cc h
  create_parent_files (some d) p s s' h = fs.create_dir_all_files d p s s' h

  then_do-some :
      (m : Option S) (f : S → Option S) (s : S)
      → then_do texts fs m f ≡ some s
      → (t : S) × (m ≡ some t) × (f t ≡ some s)
  then_do-some none f s h = cc h
  then_do-some (some t) f s h = (t, refl, h)

  module _ (p : P) (bytes : Text) (s s' : S)
      (done : replace_file texts fs p bytes s ≡ some s') where
    calls :
        (t u : S) × (create_parent texts fs (fs.parent p) s ≡ some t)
        × (fs.write_file (fs.temp p) bytes t ≡ some u)
        × (fs.rename (fs.temp p) p u ≡ some s')
    unfolding replace_file
    calls =
        let (u, made, moved) = then_do-some _ (fs.rename (fs.temp p) p) s' done in
        let (t, created, filled) = then_do-some _ (fs.write_file (fs.temp p) bytes) u made in
        (t, u, created, filled, moved)

    pub replace_file_same : fs.read_file p s' ≡ some bytes
    replace_file_same =
        let (t, u, created, filled, moved) = calls in
        fs.rename_same (fs.temp p) p u s' moved ∙ fs.write_file_same (fs.temp p) bytes t u filled

    pub replace_file_other : (q : P) → q ≢ p → q ≢ fs.temp p → fs.read_file q s' ≡ fs.read_file q s
    replace_file_other q a b =
        let (t, u, created, filled, moved) = calls in
        fs.rename_other (fs.temp p) p q u s' b a moved
        ∙ fs.write_file_other (fs.temp p) q bytes t u b filled
        ∙ create_parent_files (fs.parent p) q s t created

    pub replace_file_lost : fs.temp p ≢ p → fs.read_file (fs.temp p) s' ≡ none
    replace_file_lost a =
        let (t, u, created, filled, moved) = calls in fs.rename_gone (fs.temp p) p u s' a moved

  -- A write that succeeded replaced the file.
  write_replaces :
      (r : Ref) (s s' : S)
      → write texts fs r s ≡ ok s'
      → (bytes : Text) × (replace_file texts fs (fs.path r.name) bytes s ≡ some s')
  unfolding write
  write_replaces r s s' h =
      let (u, checked, rest) = bind_ok (validate r) _ s' h in
      let (bytes, made, rest') = bind_ok (serialize texts r) _ s' rest in
      (bytes, ok_or-some io (replace_file texts fs (fs.path r.name) bytes s) s' rest')

  pub write_keeps :
      (r : Ref) (other : Text) (s s' : S)
      → write texts fs r s ≡ ok s'
      → fs.path other ≢ fs.path r.name
      → fs.path other ≢ fs.temp (fs.path r.name)
      → read texts fs other s' ≡ read texts fs other s
  unfolding read
  write_keeps r other s s' h a b =
      let (bytes, done) = write_replaces r s s' h in
      ap (parse_file texts fs other) (replace_file_other _ bytes s s' done (fs.path other) a b)

  -- Writing a reference succeeds where its file can be replaced, and it is read back whole;
  -- another one, whose file is neither that of the reference nor the temporary one, reads as
  -- before. The reference is direct with an identifier of 32 bytes, or symbolic with a target in
  -- UTF-8 that does not end in white space.
  pub write_exact :
      (r : Ref) (other : Text) (s : S)
      → IsStorable texts r
      → ((bytes : Text) → (s' : S) × (replace_file texts fs (fs.path r.name) bytes s ≡ some s'))
      → fs.path other ≢ fs.path r.name
      → fs.path other ≢ fs.temp (fs.path r.name)
      → (s' : S) × (write texts fs r s ≡ ok s')
        × (read texts fs r.name s' ≡ ok r)
        × (read texts fs other s' ≡ read texts fs other s)
  unfolding write read
  write_exact r other s fit works a b =
      let (bytes, made, parsed, valid) = deserialize-serialize texts r fit in
      let (s', done) = works bytes in
      (
        s',
        rw (valid, made, done),
        rw (replace_file_same _ bytes s s' done, parsed),
        ap (parse_file texts fs other) (replace_file_other _ bytes s s' done (fs.path other) a b),
      )

  -- After a reference was written, one whose file has the name of the temporary file, such as the
  -- branch `x.tmp` where the branch `x` is written, is reported as not found, whatever it was.
  pub write_loses :
      (r : Ref) (other : Text) (s s' : S)
      → write texts fs r s ≡ ok s'
      → fs.path other ≡ fs.temp (fs.path r.name)
      → fs.path other ≢ fs.path r.name
      → read texts fs other s' ≡ err (not_found other)
  unfolding read
  write_loses r other s s' h same apart =
      let (bytes, done) = write_replaces r s s' h in
      let gone = replace_file_lost _ bytes s s' done (λ e. apart (same ∙ e)) in rw (same, gone)
