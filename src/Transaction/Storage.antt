-- ===== src/Transaction/Storage.antt =====
-- The calls of a storage backend that the transaction makes, over the state `K` of the storage.
-- `put` answers whether it succeeded; nothing is known of the storage after a `put` that failed.
use mediagit_core.Prelude.{◌≡◌, ◌≢◌, ℕ, Bool, true, Option, some, List}

pub record StorageBackend (K : Type 0) : Type 0 where
  pub get : List ℕ → K → Option (List ℕ)
  pub put : List ℕ → List ℕ → K → Bool × K
  pub put_same :
      (key bytes : List ℕ) (k k' : K) → put key bytes k ≡ (true, k') → get key k' ≡ some bytes
  pub put_other :
      (key other bytes : List ℕ) (k k' : K)
      → other ≢ key
      → put key bytes k ≡ (true, k')
      → get other k' ≡ get other k
