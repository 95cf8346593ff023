-- ===== src/Refs/Disk.antt =====
-- The calls of `tokio::fs` that refs.rs makes, over the state `S` of the disk. `none` is an I/O
-- error. The laws say what a call that succeeds does to the files.
use mediagit_core.Prelude.{◌≡◌, ◌≢◌, ℕ, Bool, true, Option, none, some, List}

-- `path` is `root.join`, `parent` and `temp` are `parent()` and `with_extension("tmp")`.
-- `write_file` creates or truncates the file, writes all bytes and waits for the disk.
pub record FileSystem (S P : Type 0) : Type 0 where
  pub path : List ℕ → P
  pub parent : P → Option P
  pub temp : P → P
  pub read_file : P → S → Option (List ℕ)
  pub metadata : P → S → Bool
  pub create_dir_all : P → S → Option S
  pub write_file : P → List ℕ → S → Option S
  pub rename : P → P → S → Option S
  pub remove_file : P → S → Option S
  pub metadata_file : (p : P) (b : List ℕ) (s : S) → read_file p s ≡ some b → metadata p s ≡ true
  pub create_dir_all_files :
      (d p : P) (s s' : S) → create_dir_all d s ≡ some s' → read_file p s' ≡ read_file p s
  pub write_file_same :
      (p : P) (b : List ℕ) (s s' : S) → write_file p b s ≡ some s' → read_file p s' ≡ some b
  pub write_file_other :
      (p q : P) (b : List ℕ) (s s' : S)
      → q ≢ p
      → write_file p b s ≡ some s'
      → read_file q s' ≡ read_file q s
  pub rename_same : (p q : P) (s s' : S) → rename p q s ≡ some s' → read_file q s' ≡ read_file p s
  pub rename_gone : (p q : P) (s s' : S) → p ≢ q → rename p q s ≡ some s' → read_file p s' ≡ none
  pub rename_other :
      (p q r : P) (s s' : S)
      → r ≢ p
      → r ≢ q
      → rename p q s ≡ some s'
      → read_file r s' ≡ read_file r s
  pub remove_file_same : (p : P) (s s' : S) → remove_file p s ≡ some s' → read_file p s' ≡ none
  pub remove_file_other :
      (p q : P) (s s' : S) → q ≢ p → remove_file p s ≡ some s' → read_file q s' ≡ read_file q s
