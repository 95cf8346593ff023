-- ===== src/Transaction/Tests.antt =====
-- A transaction on a disk and a storage in memory, and the theorems there.
use mediagit_core.Prelude.{
  ℕ, ◌≡◌, refl, Bool, true, false, inl, inr, Bool-cases, ap, sym, ◌∙◌, some, List, [], ◌∷◌,
  if◌then◌else◌,
}
use mediagit_core.Result.{ok, err}
use mediagit_core.Bytes.{bytes_eq}
use mediagit_core.Object.{ObjectType, blob, tree, Oid}
use mediagit_core.BTreeMap.{get, insert, insert_all}
use mediagit_core.BTreeMap.Order.{bytes_ord}
use mediagit_core.BTreeMap.Assoc.{get-insert_same, get-insert_other}
use mediagit_core.Refs.Memory.{encode, decode, decode-encode, some_eq, Disk, disk}
use mediagit_core.Transaction.{
  PackTransaction, storage_failed, begin, add_object, commit_objects, commit,
}
use mediagit_core.Transaction.Storage.{StorageBackend}
use mediagit_core.Transaction.Pending.{add_all}
use mediagit_core.Transaction.Committed.{transact, Stopped, commit_exact, commit_partial}

-- A storage in memory that refuses one key, and leaves an empty object there.
abbrev put : List ℕ → List ℕ → List ℕ → Disk → Bool × Disk
put refused key bytes k =
    if bytes_eq key refused then (false, insert key [] k) else (true, insert key bytes k)

put_eq :
    (refused key bytes : List ℕ) (k k' : Disk)
    → put refused key bytes k ≡ (true, k')
    → insert key bytes k ≡ k'
put_eq refused key bytes k k' h = elim (Bool-cases (bytes_eq key refused)) [
  | inl y ↦ cc (rw y at h)
  | inr n ↦ ap (λ r. r.1) (rw n at h)
]

abbrev storage : List ℕ → StorageBackend Disk
storage refused = record {
  get = λ key k. get key k;
  put = λ key bytes k. put refused key bytes k;
  put_same = λ key bytes k k' h.
      ap (get key) (sym (put_eq refused key bytes k k' h)) ∙ get-insert_same key bytes k;
  put_other = λ key other bytes k k' apart h.
      ap (get other) (sym (put_eq refused key bytes k k' h))
      ∙ get-insert_other key other bytes k apart;
}

encode_apart : (a b : Oid) → disk.path (encode a) ≡ disk.path (encode b) → a ≡ b
encode_apart a b h = some_eq a b (sym (decode-encode a) ∙ ap decode h ∙ decode-encode b)

abbrev adds : List (Oid × (ObjectType × List ℕ))
adds = (1 ∷ [], (blob, 7 ∷ [])) ∷ (2 ∷ [], (tree, 8 ∷ [])) ∷ []

-- The marker and the two temporary files.
abbrev files : Disk
files = (0 ∷ [], 99 ∷ []) ∷ (encode (1 ∷ []), 7 ∷ []) ∷ (encode (2 ∷ []), 8 ∷ []) ∷ []

abbrev pending : PackTransaction
pending = record { pending_objects = (1 ∷ [], blob) ∷ (2 ∷ [], tree) ∷ []; committed = false }

module _ (refused : List ℕ) where
  transacted :
      transact disk
        (storage refused)
        encode
        (λ s. some [])
        encode_apart
        (λ s. some s)
        (0 ∷ [])
        (99 ∷ [])
        adds
        []
      ≡ ok (pending, files)
  unfolding transact begin add_all add_object insert get
  transacted = refl

committed_both : (commit disk (storage []) encode (λ s. some []) pending files []).0 ≡ ok tt
unfolding commit commit_objects get insert
committed_both = refl

committed_one :
    (commit disk (storage (encode (2 ∷ []))) encode (λ s. some []) pending files []).0
    ≡ err storage_failed
unfolding commit commit_objects get insert
committed_one = refl

commit_exact_example :
    get (encode (2 ∷ [])) (commit disk (storage []) encode (λ s. some []) pending files []).2
    ≡ some (8 ∷ [])
unfolding insert_all insert get
commit_exact_example =
    commit_exact disk (storage []) encode (λ s. some []) encode_apart (λ s. some s) (0 ∷ [])
      (99 ∷ []) adds pending [] files [] (2 ∷ []) (transacted []) committed_both

commit_partial_example :
    Stopped disk
      (storage (encode (2 ∷ [])))
      encode
      (λ s. some [])
      encode_apart
      pending.pending_objects
      files
      []
      (commit disk (storage (encode (2 ∷ []))) encode (λ s. some []) pending files []).2
commit_partial_example =
    commit_partial disk (storage (encode (2 ∷ []))) encode (λ s. some []) encode_apart pending files
      [] storage_failed committed_one
