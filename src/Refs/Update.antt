-- ===== src/Refs/Update.antt =====
-- refs.rs: what `RefDatabase::update` refuses.
use mediagit_core.Prelude.{
  ◌≡◌, ◌⊎◌, refl, inl, inr, Bool, true, false, Option, none, some, arith, ap, sym, ◌∙◌, not, ◌&&◌,
}
use mediagit_core.Result.{ok, ensure, bind_ok, ensure_ok}
use mediagit_core.Bytes.{bytes_eq→eq}
use mediagit_core.Object.{Oid}
use mediagit_core.Refs.Hex.{Texts}
use mediagit_core.Refs.Disk.{FileSystem}
use mediagit_core.Refs.{
  Text, Ref, RefType, direct, symbolic, RefError, symbolic_update, non_fast_forward,
}
use mediagit_core.Refs.Database.{is_oid, is_direct, check_update, read, update}

is_oid_eq : (o : Option Oid) (oid : Oid) → is_oid o oid ≡ true → o ≡ some oid
is_oid_eq none oid h = cc h
is_oid_eq (some x) oid h = ap some (bytes_eq→eq x oid h)

is_direct_eq : (t : RefType) → is_direct t ≡ true → t ≡ direct
is_direct_eq direct h = refl
is_direct_eq symbolic h = cc h

ensure-true : (test : Bool) (e : RefError) (u : Unit {0}) → ensure test e ≡ ok u → test ≡ true
ensure-true true e u h = refl
ensure-true false e u h = cc h

module _ {S P : Type 0} (texts : Texts) (fs : FileSystem S P) where
  forced_or_same :
      (force : Bool) (o : Option Oid) (oid : Oid)
      → not (not force && not (is_oid o oid)) ≡ true
      → (force ≡ true) ⊎ (o ≡ some oid)
  forced_or_same true o oid h = inl refl
  forced_or_same false o oid h = inr (is_oid_eq o oid (ground arith))

  -- An update of a reference that can be read succeeds only where the reference is direct, and
  -- where the update is forced or the reference already names the new commit.
  pub update_guards :
      (name : Text) (oid : Oid) (force : Bool) (r : Ref) (s s' : S)
      → read texts fs name s ≡ ok r
      → update texts fs name oid force s ≡ ok s'
      → (r.ref_type ≡ direct) × ((force ≡ true) ⊎ (r.oid ≡ some oid))
  unfolding update
  update_guards name oid force r s s' found h =
      let (u, checked, done) =
        bind_ok (check_update texts fs name oid force (read texts fs name s)) _ s' h in
      let passed : check_update texts fs name oid force (ok r) ≡ ok u =
        ap (check_update texts fs name oid force) (sym found) ∙ checked in
      let (kind, rest) = ensure_ok (is_direct r.ref_type) (symbolic_update name) _ u passed in
      (
        is_direct_eq r.ref_type kind,
        forced_or_same force r.oid oid (
            ensure-true (not (not force && not (is_oid r.oid oid))) (non_fast_forward name) u rest),
      )
