-- ===== src/Transaction.antt =====
-- crates/mediagit-versioning/src/transaction.rs: `PackTransaction`, which keeps the objects of a
-- pack in a temporary directory until they are committed to the storage.
pub mod Storage
pub mod Pending
pub mod Committed
mod Tests
use mediagit_core.Prelude.{
  ℕ, Bool, true, false, Option, none, some, List, [], ◌∷◌, ◌++◌, length, if◌then◌else◌,
}
use mediagit_core.Result.{Result, ok, err, panic, ◌>>=◌}
use mediagit_core.Bytes.{bytes_eq}
use mediagit_core.Object.{ObjectType, Oid}
use mediagit_core.Refs.Disk.{FileSystem}
use Storage.{StorageBackend}

pub record PackTransaction : Type 0 where
  pub pending_objects : List (Oid × ObjectType)
  pub committed : Bool

pub data TransactionError : Type 0 where
  io storage_failed : TransactionError
  verification_failed : Oid → TransactionError

abbrev pub or_err {ℓ} : {A : Type ℓ} → TransactionError → Option A → Result TransactionError A
or_err e none = err e
or_err e (some a) = ok a

-- `fs.path` joins a name to the temporary directory, `to_hex` is `Oid::to_hex`, and
-- `remove_dir_all` removes the temporary directory, where a failure is only logged.
module _ {S P K : Type 0} (fs : FileSystem S P) (storage : StorageBackend K) (to_hex : Oid → List ℕ)
    (remove_dir_all : S → Option S) where
  -- `make_dir` creates the temporary directory.
  unfoldable pub begin :
      (S → Option S) → P → List ℕ → S → Result TransactionError (PackTransaction × S)
  begin make_dir marker_path transaction_id s = do
    t ← or_err io (make_dir s)
    u ← or_err io (fs.write_file marker_path transaction_id t)
    ok (record { pending_objects = []; committed = false }, u)

  unfoldable pub add_object :
      Oid
      → ObjectType
      → List ℕ
      → PackTransaction × S
      → Result TransactionError (PackTransaction × S)
  add_object oid obj_type bytes (tx, s) = do
    t ← or_err io (fs.write_file (fs.path (to_hex oid)) bytes s)
    written_data ← or_err io (fs.read_file (fs.path (to_hex oid)) t)
    if bytes_eq written_data bytes
        then ok (
          record {
            pending_objects = tx.pending_objects ++ ((oid, obj_type) ∷ []);
            committed = tx.committed;
          },
          t,
        )
        else err (verification_failed oid)

  -- The storage is returned also after an error.
  unfoldable pub commit_objects :
      List (Oid × ObjectType) → S → K → Result TransactionError (Unit {0}) × K
  commit_objects [] s k = (ok tt, k)
  commit_objects ((oid, obj_type) ∷ rest) s k = elim (fs.read_file (fs.path (to_hex oid)) s) [
    | none ↦ (err io, k)
    | some bytes ↦
        let put = storage.put (to_hex oid) bytes k in
        elim put.0 [ false ↦ (err storage_failed, put.1) | true ↦ commit_objects rest s put.1 ]
  ]

  abbrev pub cleaned : Option S → S → S
  cleaned none s = s
  cleaned (some t) s = t

  -- `drop`: without a commit, the temporary directory is removed.
  unfoldable pub drop : PackTransaction → S → S
  drop tx s = if tx.committed then s else cleaned (remove_dir_all s) s

  abbrev pub finished : PackTransaction → S → Result TransactionError (Unit {0}) → S
  finished tx s (ok u) =
      drop (record { pending_objects = tx.pending_objects; committed = true })
        (cleaned (remove_dir_all s) s)
  finished tx s (err e) = drop tx s
  finished tx s panic = drop tx s

  -- The transaction is used up: an error drops it, too.
  unfoldable pub commit : PackTransaction → S → K → Result TransactionError (Unit {0}) × S × K
  unfolding commit_objects drop
  commit tx s k =
      let done = commit_objects tx.pending_objects s k in (done.0, finished tx s done.0, done.1)
