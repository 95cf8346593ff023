-- ===== src/Transaction/Pending.antt =====
-- transaction.rs: the temporary files of the objects that were added.
use mathlib.Core.Path.{subst}
use mediagit_core.Prelude.{
  ℕ, ◌≡◌, refl, sym, ◌∙◌, inl, inr, Bool, true, false, Bool-cases, Option, none, some, List, [],
  ◌∷◌, ◌++◌, map, All, All-imp, All-append, ◌||◌, arith,
}
use mediagit_core.Result.{Result, ok, ◌>>=◌, bind_ok, ok_inj}
use mediagit_core.Bytes.{bytes_eq, bytes_eq_refl, bytes_eq→eq, bytes_eq_ne}
use mediagit_core.Object.{ObjectType, Oid}
use mediagit_core.BTreeMap.{BTreeMap, get, insert, insert_all}
use mediagit_core.BTreeMap.Order.{bytes_ord}
use mediagit_core.BTreeMap.Assoc.{get-insert_same, get-insert_other}
use mediagit_core.Refs.Disk.{FileSystem}
use mediagit_core.Transaction.{PackTransaction, TransactionError, io, or_err, add_object}
use mediagit_core.Transaction.Storage.{StorageBackend}

pub or_err_ok {ℓ} :
    {A : Type ℓ} (e : TransactionError) (o : Option A) (a : A) → or_err e o ≡ ok a → o ≡ some a
or_err_ok e none a h = cc h
or_err_ok e (some b) a h = cc h

-- The last content that was added under each identifier.
abbrev pub contents : List (Oid × (ObjectType × List ℕ)) → BTreeMap Oid (List ℕ)
contents adds = insert_all [] (map (λ e. (e.0, e.1.1)) adds)

abbrev pub is_pending : Oid → List (Oid × ObjectType) → Bool
is_pending oid [] = false
is_pending oid (e ∷ es) = bytes_eq oid e.0 || is_pending oid es

is_pending-append :
    (oid : Oid) (es : List (Oid × ObjectType)) (e : Oid × ObjectType)
    → is_pending oid (es ++ (e ∷ [])) ≡ (is_pending oid es || bytes_eq oid e.0)
is_pending-append oid [] e = ground arith
is_pending-append oid (x ∷ es) e = ground (arith, is_pending-append oid es e)

or_false : (a b : Bool) → (a || b) ≡ false → (a ≡ false) × (b ≡ false)
or_false true b h = cc h
or_false false b h = (refl, h)

module _ {S P K : Type 0} (fs : FileSystem S P) (storage : StorageBackend K) (to_hex : Oid → List ℕ)
    (remove_dir_all : S → Option S)
    (apart : (a b : Oid) → fs.path (to_hex a) ≡ fs.path (to_hex b) → a ≡ b) where
  unfoldable pub add_all :
      List (Oid × (ObjectType × List ℕ))
      → PackTransaction × S
      → Result TransactionError (PackTransaction × S)
  add_all [] st = ok st
  add_all ((oid, (t, bytes)) ∷ adds) st = do
    st' ← add_object fs storage to_hex remove_dir_all oid t bytes st
    add_all adds st'

  -- The temporary file of an object has its last content.
  abbrev pub HasFile : BTreeMap Oid (List ℕ) → S → Oid → Type 0
  HasFile m s oid =
      (bytes : List ℕ) × (get oid m ≡ some bytes)
      × (fs.read_file (fs.path (to_hex oid)) s ≡ some bytes)

  -- Every pending object has its file, and every object that was added is pending.
  pub record Holds (m : BTreeMap Oid (List ℕ)) (tx : PackTransaction) (s : S) : Type 0 where
    pub files : All (λ e. HasFile m s e.0) tx.pending_objects
    pub pending : (oid : Oid) → is_pending oid tx.pending_objects ≡ false → get oid m ≡ none

  HasFile-insert :
      (m : BTreeMap Oid (List ℕ)) (s t : S) (oid k : Oid) (bytes : List ℕ)
      → fs.write_file (fs.path (to_hex oid)) bytes s ≡ some t
      → HasFile m s k
      → HasFile (insert oid bytes m) t k
  HasFile-insert m s t oid k bytes done (old, e, there) = elim (Bool-cases (bytes_eq k oid)) [
    | inl y ↦ rw (bytes_eq→eq k oid y) (
      bytes,
      get-insert_same oid bytes m,
      fs.write_file_same (fs.path (to_hex oid)) bytes s t done,
    )
    | inr n ↦
        let ne = bytes_eq_ne k oid n in
        (
          old,
          get-insert_other oid k bytes m ne ∙ e,
          fs.write_file_other (fs.path (to_hex oid)) (fs.path (to_hex k)) bytes s t
                (λ p. ne (apart k oid p)) done
              ∙ there,
        )
  ]

  add_object-Holds :
      (m : BTreeMap Oid (List ℕ)) (oid : Oid) (kind : ObjectType) (bytes : List ℕ)
      (tx tx' : PackTransaction) (s s' : S)
      → Holds m tx s
      → add_object fs storage to_hex remove_dir_all oid kind bytes (tx, s) ≡ ok (tx', s')
      → Holds (insert oid bytes m) tx' s'
  unfolding add_object
  add_object-Holds m oid kind bytes tx tx' s s' h done =
      let (t, e, rest) =
        bind_ok (or_err io (fs.write_file (fs.path (to_hex oid)) bytes s)) _ (tx', s') done in
      let wrote = or_err_ok io _ t e in
      let there = fs.write_file_same (fs.path (to_hex oid)) bytes s t wrote in
      let tx2 : PackTransaction = record {
        pending_objects = tx.pending_objects ++ ((oid, kind) ∷ []);
        committed = tx.committed;
      } in
      let end = ok_inj (tx2, t) (tx', s') (rw (there, bytes_eq_refl bytes) at rest) in
      let now : HasFile (insert oid bytes m) t oid = (bytes, get-insert_same oid bytes m, there) in
      let new : Holds (insert oid bytes m) tx2 t = record {
        files =
            All-append (λ e. HasFile (insert oid bytes m) t e.0) tx.pending_objects (oid, kind)
              (All-imp tx.pending_objects (λ e f. HasFile-insert m s t oid e.0 bytes wrote f)
                h.files)
              now;
        pending = λ k p.
            let (old, ne) =
              or_false (is_pending k tx.pending_objects) (bytes_eq k oid)
                (sym (is_pending-append k tx.pending_objects (oid, kind)) ∙ p) in
            get-insert_other oid k bytes m (bytes_eq_ne k oid ne) ∙ h.pending k old;
      } in
      subst (λ st. Holds (insert oid bytes m) st.0 st.1) end new

  pub add_all-Holds :
      (adds : List (Oid × (ObjectType × List ℕ))) (m : BTreeMap Oid (List ℕ))
      (tx tx' : PackTransaction) (s s' : S)
      → Holds m tx s
      → add_all adds (tx, s) ≡ ok (tx', s')
      → Holds (insert_all m (map (λ e. (e.0, e.1.1)) adds)) tx' s'
  unfolding add_all insert_all
  add_all-Holds [] m tx tx' s s' h done =
      subst (λ st. Holds m st.0 st.1) (ok_inj (tx, s) (tx', s') done) h
  add_all-Holds ((oid, (t, bytes)) ∷ adds) m tx tx' s s' h done =
      let ((tx2, u), e, rest) =
        bind_ok (add_object fs storage to_hex remove_dir_all oid t bytes (tx, s)) _ (tx', s')
          done in
      add_all-Holds adds (insert oid bytes m) tx2 tx' u s'
        (add_object-Holds m oid t bytes tx tx2 s u h e) rest
