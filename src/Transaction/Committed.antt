-- ===== src/Transaction/Committed.antt =====
-- transaction.rs: what the storage holds after `commit`.
use mathlib.Core.Path.{subst}
use mediagit_core.Prelude.{
  ℕ, ◌≡◌, ◌⊎◌, Bool, refl, ap, sym, ◌∙◌, inl, inr, true, false, Bool-cases, Option, none, some,
  Option-cases, List, [], ◌∷◌, ◌++◌, All, if◌then◌else◌, arith,
}
use mediagit_core.Result.{Result, ok, err, ◌>>=◌, bind_ok, ok_inj}
use mediagit_core.Bytes.{bytes_eq, bytes_eq→eq, bytes_eq_ne}
use mediagit_core.Object.{ObjectType, Oid}
use mediagit_core.BTreeMap.{BTreeMap, get}
use mediagit_core.BTreeMap.Order.{bytes_ord}
use mediagit_core.Refs.Disk.{FileSystem}
use mediagit_core.Transaction.{
  PackTransaction, TransactionError, io, storage_failed, or_err, begin, commit_objects, commit,
}
use mediagit_core.Transaction.Storage.{StorageBackend}
use mediagit_core.Transaction.Pending.{is_pending, contents, add_all, HasFile, Holds, add_all-Holds}

-- The content that was added, or what was there before.
abbrev pub or_old : Option (List ℕ) → Option (List ℕ) → Option (List ℕ)
or_old none old = old
or_old (some bytes) old = some bytes

put_cases : {K : Type 0} (r : Bool × K) → ((k : K) × (r ≡ (false, k))) ⊎ ((k : K) × (r ≡ (true, k)))
put_cases (false, k) = inl (k, refl)
put_cases (true, k) = inr (k, refl)

module _ {S P K : Type 0} (fs : FileSystem S P) (storage : StorageBackend K) (to_hex : Oid → List ℕ)
    (remove_dir_all : S → Option S)
    (apart : (a b : Oid) → fs.path (to_hex a) ≡ fs.path (to_hex b) → a ≡ b) where
  file_of :
      (m : BTreeMap Oid (List ℕ)) (s : S) (oid : Oid) (es : List (Oid × ObjectType))
      → All (λ e. HasFile fs storage to_hex remove_dir_all apart m s e.0) es
      → is_pending oid es ≡ true
      → HasFile fs storage to_hex remove_dir_all apart m s oid
  file_of m s oid [] h p = cc p
  file_of m s oid (e ∷ es) (h, hs) p = elim (Bool-cases (bytes_eq oid e.0)) [
    | inl y ↦
        subst (HasFile fs storage to_hex remove_dir_all apart m s) (sym (bytes_eq→eq oid e.0 y)) h
    | inr n ↦ file_of m s oid es hs (rw n at p)
  ]

  abbrev pub run : List (Oid × ObjectType) → S → K → Result TransactionError (Unit {0}) × K
  run pending s k = commit_objects fs storage to_hex remove_dir_all pending s k

  -- One object of a commit.
  step_file :
      (oid : Oid) (t : ObjectType) (rest : List (Oid × ObjectType)) (s : S) (k k' : K)
      (bytes : List ℕ)
      → fs.read_file (fs.path (to_hex oid)) s ≡ some bytes
      → storage.put (to_hex oid) bytes k ≡ (true, k')
      → run ((oid, t) ∷ rest) s k ≡ run rest s k'
  unfolding commit_objects
  step_file oid t rest s k k' bytes e e' =
      rw (e, ap (λ r. r.0) e', commit_objects) (ap (λ r. run rest s r.1) e')

  abbrev refusal : Bool × K → Result TransactionError (Unit {0}) × K
  refusal (b, k) = (err storage_failed, k)

  step_failed :
      (oid : Oid) (t : ObjectType) (rest : List (Oid × ObjectType)) (s : S) (k k' : K)
      (bytes : List ℕ)
      → fs.read_file (fs.path (to_hex oid)) s ≡ some bytes
      → storage.put (to_hex oid) bytes k ≡ (false, k')
      → run ((oid, t) ∷ rest) s k ≡ (err storage_failed, k')
  unfolding commit_objects
  step_failed oid t rest s k k' bytes e e' =
      rw (e, ap (λ r. r.0) e', commit_objects) (ap refusal e')

  run_ok :
      (m : BTreeMap Oid (List ℕ)) (pending : List (Oid × ObjectType)) (s : S) (k : K) (oid : Oid)
      → All (λ e. HasFile fs storage to_hex remove_dir_all apart m s e.0) pending
      → (run pending s k).0 ≡ ok tt
      → storage.get (to_hex oid) (run pending s k).1
        ≡ (if is_pending oid pending then get oid m else storage.get (to_hex oid) k)
  run_ok m [] s k oid h done = unfold commit_objects in refl
  run_ok m ((p, t) ∷ rest) s k oid ((bytes, e, there), hs) done =
      elim (put_cases (storage.put (to_hex p) bytes k)) [
        | inl (k', failed) ↦
            cc (ap (λ r. r.0) (step_failed p t rest s k k' bytes there failed), done)
        | inr (k', put) ↦
            let next = step_file p t rest s k k' bytes there put in
            let ih = run_ok m rest s k' oid hs (sym (ap (λ r. r.0) next) ∙ done) in
            ap (λ r. storage.get (to_hex oid) r.1) next
            ∙ ih
            ∙ elim (Bool-cases (is_pending oid rest)) [
              | inl y ↦ rw y (ground arith)
              | inr n ↦ elim (Bool-cases (bytes_eq oid p)) [
                | inl same ↦
                    let q = bytes_eq→eq oid p same in
                    rw (n, same)
                      (ap (λ x. storage.get (to_hex x) k') q
                        ∙ storage.put_same (to_hex p) bytes k k' put
                        ∙ sym e
                        ∙ ap (λ x. get x m) (sym q))
                | inr ne ↦
                    rw (n, ne)
                      (storage.put_other (to_hex p) (to_hex oid) bytes k k'
                        (λ q. bytes_eq_ne oid p ne (apart oid p (ap fs.path q))) put)
              ]
            ]
      ]

  settled :
      (m : BTreeMap Oid (List ℕ)) (tx : PackTransaction) (s : S) (oid : Oid)
      → Holds fs storage to_hex remove_dir_all apart m tx s
      → (old : Option (List ℕ))
      → (if is_pending oid tx.pending_objects then get oid m else old) ≡ or_old (get oid m) old
  settled m tx s oid h old = elim (Bool-cases (is_pending oid tx.pending_objects)) [
    | inl y ↦ let (bytes, e, there) = file_of m s oid tx.pending_objects h.files y in rw (y, e)
    | inr n ↦ rw (n, h.pending oid n)
  ]

  -- The whole transaction, up to the commit.
  unfoldable pub transact :
      (S → Option S)
      → P
      → List ℕ
      → List (Oid × (ObjectType × List ℕ))
      → S
      → Result TransactionError (PackTransaction × S)
  unfolding add_all
  transact make_dir marker_path transaction_id adds s = do
    st ← begin fs storage to_hex remove_dir_all make_dir marker_path transaction_id s
    add_all fs storage to_hex remove_dir_all apart adds st

  begin-Holds :
      (make_dir : S → Option S) (marker_path : P) (transaction_id : List ℕ) (tx : PackTransaction)
      (s t : S)
      → begin fs storage to_hex remove_dir_all make_dir marker_path transaction_id s ≡ ok (tx, t)
      → Holds fs storage to_hex remove_dir_all apart [] tx t
  unfolding begin
  begin-Holds make_dir marker_path transaction_id tx s t h =
      let (u, e, rest) = bind_ok (or_err io (make_dir s)) _ (tx, t) h in
      let (v, e', rest') =
        bind_ok (or_err io (fs.write_file marker_path transaction_id u)) _ (tx, t) rest in
      let fresh : PackTransaction = record { pending_objects = []; committed = false } in
      subst (λ st. Holds fs storage to_hex remove_dir_all apart [] st.0 st.1)
        (ok_inj (fresh, v) (tx, t) rest')
        (record { files = tt; pending = λ oid p. unfold get in refl })

  -- Where a transaction was begun, its objects were added and its commit succeeded, the storage
  -- has under every identifier the content that was added last, and what it had before under the
  -- others, where different identifiers have different temporary files.
  pub commit_exact :
      (make_dir : S → Option S) (marker_path : P) (transaction_id : List ℕ)
      (adds : List (Oid × (ObjectType × List ℕ))) (tx : PackTransaction) (s t : S) (k : K)
      (oid : Oid)
      → transact make_dir marker_path transaction_id adds s ≡ ok (tx, t)
      → (commit fs storage to_hex remove_dir_all tx t k).0 ≡ ok tt
      → storage.get (to_hex oid) (commit fs storage to_hex remove_dir_all tx t k).2
        ≡ or_old (get oid (contents adds)) (storage.get (to_hex oid) k)
  unfolding transact commit
  commit_exact make_dir marker_path transaction_id adds tx s t k oid added done =
      let ((tx0, s0), e, rest) =
        bind_ok (begin fs storage to_hex remove_dir_all make_dir marker_path transaction_id s) _
          (tx, t) added in
      let held =
        add_all-Holds fs storage to_hex remove_dir_all apart adds [] tx0 tx s0 t
          (begin-Holds make_dir marker_path transaction_id tx0 s s0 e) rest in
      run_ok (contents adds) tx.pending_objects t k oid held.files done
      ∙ settled (contents adds) tx t oid held (storage.get (to_hex oid) k)

  unread :
      (oid : Oid) (t : ObjectType) (rest : List (Oid × ObjectType)) (s : S) (k : K)
      → fs.read_file (fs.path (to_hex oid)) s ≡ none
      → run ((oid, t) ∷ rest) s k ≡ (err io, k)
  unfolding commit_objects
  unread oid t rest s k e = rw (e, commit_objects)

  -- How a commit stops: at an object whose file cannot be read, or that the storage refuses.
  abbrev pub StopsAt : Oid → S → K → K → Type 0
  StopsAt oid s k k' =
      ((fs.read_file (fs.path (to_hex oid)) s ≡ none) × (k' ≡ k))
      ⊎ ((bytes : List ℕ) × (fs.read_file (fs.path (to_hex oid)) s ≡ some bytes)
          × (storage.put (to_hex oid) bytes k ≡ (false, k')))

  abbrev pub Stopped : List (Oid × ObjectType) → S → K → K → Type 0
  Stopped pending s k k' =
      (before behind : List (Oid × ObjectType)) × (failed : Oid × ObjectType) × (stored : K)
      × (pending ≡ before ++ (failed ∷ behind))
      × (run before s k ≡ (ok tt, stored))
      × StopsAt failed.0 s stored k'

  Stopped-here :
      (failed : Oid × ObjectType) (rest : List (Oid × ObjectType)) (s : S) (k k' : K)
      → StopsAt failed.0 s k k'
      → Stopped (failed ∷ rest) s k k'
  Stopped-here failed rest s k k' h = ([], rest, failed, k, refl, unfold commit_objects in refl, h)

  run_partial :
      (pending : List (Oid × ObjectType)) (s : S) (k : K) (e : TransactionError)
      → (run pending s k).0 ≡ err e
      → Stopped pending s k (run pending s k).1
  run_partial [] s k e h = unfold commit_objects in cc h
  run_partial ((oid, t) ∷ rest) s k e h =
      elim (Option-cases (fs.read_file (fs.path (to_hex oid)) s)) [
        | inl missing ↦
            Stopped-here (oid, t) rest s k _
              (inl (missing, ap (λ r. r.1) (unread oid t rest s k missing)))
        | inr (bytes, there) ↦ elim (put_cases (storage.put (to_hex oid) bytes k)) [
          | inl (k', failed) ↦
              let end = ap (λ r. r.1) (step_failed oid t rest s k k' bytes there failed) in
              Stopped-here (oid, t) rest s k _
                (inr (bytes, there, failed ∙ ap (λ (x : K). (false, x)) (sym end)))
          | inr (k', put) ↦
              let next = step_file oid t rest s k k' bytes there put in
              let (before, behind, failed, stored, split, done, stop) =
                run_partial rest s k' e (sym (ap (λ r. r.0) next) ∙ h) in
              (
                (oid, t) ∷ before,
                behind,
                failed,
                stored,
                ap (λ l. (oid, t) ∷ l) split,
                step_file oid t before s k k' bytes there put ∙ done,
                subst (StopsAt failed.0 s stored) (sym (ap (λ r. r.1) next)) stop,
              )
        ]
      ]

  -- A commit that fails stops at one of the pending objects: those before it are stored as a
  -- successful commit of them stores them, and then either its temporary file cannot be read, and
  -- the storage is left so, or the storage fails to put its content, and is left as that call
  -- leaves it.
  pub commit_partial :
      (tx : PackTransaction) (s : S) (k : K) (e : TransactionError)
      → (commit fs storage to_hex remove_dir_all tx s k).0 ≡ err e
      → Stopped tx.pending_objects s k (commit fs storage to_hex remove_dir_all tx s k).2
  unfolding commit
  commit_partial tx s k e h = run_partial tx.pending_objects s k e h
