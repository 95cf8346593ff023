-- ===== src/Refs/Database.antt =====
-- refs.rs: `RefDatabase`. The state of the disk is passed in and returned; the state after an
-- error is not described.
use mediagit_core.Prelude.{ℕ, zero, suc, Bool, true, false, ◌&&◌, not, Option, none, some}
use mediagit_core.Result.{Result, ok, err, panic, ◌>>=◌, ◌>>◌, ensure}
use mediagit_core.Bytes.{bytes_eq}
use mediagit_core.Object.{Oid}
use mediagit_core.Refs.Hex.{Texts}
use mediagit_core.Refs.Disk.{FileSystem}
use mediagit_core.Refs.{
  Text, RefType, direct, symbolic, Ref, new_direct, new_symbolic, RefError, io, circular, not_found,
  symbolic_update, non_fast_forward, direct_without_oid, symbolic_without_target, validate,
  serialize, deserialize, ok_or,
}

abbrev pub is_oid : Option Oid → Oid → Bool
is_oid none oid = false
is_oid (some o) oid = bytes_eq o oid

abbrev pub is_direct : RefType → Bool
is_direct direct = true
is_direct symbolic = false

abbrev pub named : Text → Ref → Ref
named name r = record { name = name; ref_type = r.ref_type; oid = r.oid; target = r.target }

module _ {S P : Type 0} (texts : Texts) (fs : FileSystem S P) where
  abbrev pub create_parent : Option P → S → Option S
  create_parent none s = some s
  create_parent (some p) s = fs.create_dir_all p s

  abbrev pub then_do : Option S → (S → Option S) → Option S
  then_do none f = none
  then_do (some s) f = f s

  -- The file is written under another name, and renamed.
  unfoldable pub replace_file : P → Text → S → Option S
  replace_file p bytes s =
      then_do (then_do (create_parent (fs.parent p) s) (fs.write_file (fs.temp p) bytes))
        (fs.rename (fs.temp p) p)

  unfoldable pub write : Ref → S → Result RefError S
  write r s = do
    validate r
    bytes ← serialize texts r
    ok_or io (replace_file (fs.path r.name) bytes s)

  abbrev pub parse_file : Text → Option Text → Result RefError Ref
  parse_file name none = err (not_found name)
  parse_file name (some bytes) = do r ← deserialize texts bytes; ok (named name r)

  unfoldable pub read : Text → S → Result RefError Ref
  read name s = parse_file name (fs.read_file (fs.path name) s)

  unfoldable pub exists : Text → S → Bool
  exists name s = fs.metadata (fs.path name) s

  unfoldable pub delete : Text → S → Result RefError S
  delete name s = ok_or io (fs.remove_file (fs.path name) s)

  -- The reference that was read gives the identifier, or the name to go on with.
  abbrev pub followed : Ref → (Text → Result RefError Oid) → Result RefError Oid
  followed r next = elim r.ref_type [
    | direct ↦ ok_or direct_without_oid r.oid
    | symbolic ↦ do target ← ok_or symbolic_without_target r.target; next target
  ]

  unfoldable pub resolve_within : ℕ → Text → S → Result RefError Oid
  resolve_within zero current s = err circular
  resolve_within (suc depth) current s = do
    r ← read current s
    followed r (λ target. resolve_within depth target s)

  unfoldable pub resolve : Text → S → Result RefError Oid
  unfolding resolve_within
  resolve name s = resolve_within 10 name s

  -- The two refusals. A direct reference always has an identifier, which only the messages use.
  abbrev pub check_update : Text → Oid → Bool → Result RefError Ref → Result RefError (Unit {0})
  check_update name oid force (ok r) = do
    ensure (is_direct r.ref_type) (symbolic_update name)
    ensure (not (not force && not (is_oid r.oid oid))) (non_fast_forward name)
  check_update name oid force (err e) = ok tt
  check_update name oid force panic = panic

  unfoldable pub update : Text → Oid → Bool → S → Result RefError S
  update name oid force s = do
    check_update name oid force (read name s)
    write (new_direct name oid) s

  unfoldable pub update_symbolic : Text → Text → S → Result RefError S
  update_symbolic name target s = write (new_symbolic name target) s
