-- ===== src/Checkout/Disk.antt =====
-- The calls on files that `checkout_diff` makes, over the state `S` of the working directory, and
-- what a call that succeeds does. `none` is an I/O error.
use mediagit_core.Prelude.{◌≡◌, ◌≢◌, ℕ, Bool, true, false, Option, none, some, List}

-- Relative to the root of the repository, and made of names alone, without `..`.
abbrev pub FilePath : Type 0
FilePath = List ℕ

-- A file with its content and its executable bit, or a symbolic link with its target.
pub data Node : Type 0 where
  file : List ℕ → Bool → Node
  link : List ℕ → Node

-- The executable bit of what stands there, which a write keeps.
abbrev pub bit : Option Node → Bool
bit none = false
bit (some (file b x)) = x
bit (some (link t)) = false

-- No symbolic link stands there.
abbrev pub IsPlain : Option Node → Type 0
IsPlain none = Unit
IsPlain (some (file b x)) = Unit
IsPlain (some (link t)) = ⊥

-- The calls follow symbolic links, on the whole path but for `remove`, which keeps to the last
-- name. Hence what one call does at other paths is known only where `IsLinkFree` says that there
-- is no symbolic link at any path. There are no hard links, and different paths are different
-- files.
pub record WorkTree (S : Type 0) : Type 0 where
  -- The file or link at a path, and whether a file or directory is found there.
  pub node : FilePath → S → Option Node
  pub exists : FilePath → S → Bool
  pub is_dir : FilePath → S → Bool
  pub create_parent : FilePath → S → Option S
  pub write : FilePath → List ℕ → S → Option S
  pub set_executable : FilePath → S → Option S
  pub remove : FilePath → S → Option S
  pub symlink : List ℕ → FilePath → S → Option S
  -- The entries of a directory, where one that cannot be read is `none`.
  pub read_dir : FilePath → S → Option (List (Option FilePath))
  pub file_name : FilePath → Option (List ℕ)
  -- Whether the directory was removed, and the state after that, or after the delay.
  pub remove_dir : FilePath → S → Bool × S
  pub exists_file :
      (p : FilePath) (b : List ℕ) (x : Bool) (s : S)
      → node p s ≡ some (file b x)
      → exists p s ≡ true
  pub create_parent_nodes :
      (p q : FilePath) (s s' : S) → create_parent p s ≡ some s' → node q s' ≡ node q s
  pub write_same :
      (p : FilePath) (b : List ℕ) (s s' : S)
      → ((q : FilePath) → IsPlain (node q s))
      → write p b s ≡ some s'
      → node p s' ≡ some (file b (bit (node p s)))
  pub write_other :
      (p q : FilePath) (b : List ℕ) (s s' : S)
      → ((q' : FilePath) → IsPlain (node q' s))
      → q ≢ p
      → write p b s ≡ some s'
      → node q s' ≡ node q s
  pub set_executable_same :
      (p : FilePath) (b : List ℕ) (x : Bool) (s s' : S)
      → node p s ≡ some (file b x)
      → set_executable p s ≡ some s'
      → node p s' ≡ some (file b true)
  pub set_executable_other :
      (p q : FilePath) (s s' : S)
      → ((q' : FilePath) → IsPlain (node q' s))
      → q ≢ p
      → set_executable p s ≡ some s'
      → node q s' ≡ node q s
  pub remove_same :
      (p : FilePath) (s s' : S)
      → ((q : FilePath) → IsPlain (node q s))
      → remove p s ≡ some s'
      → node p s' ≡ none
  pub remove_other :
      (p q : FilePath) (s s' : S)
      → ((q' : FilePath) → IsPlain (node q' s))
      → q ≢ p
      → remove p s ≡ some s'
      → node q s' ≡ node q s
  -- Only an empty directory is removed.
  pub remove_dir_nodes : (p q : FilePath) (s : S) → node q (remove_dir p s).1 ≡ node q s

-- No symbolic link stands at any path.
abbrev pub IsLinkFree : {S : Type 0} → WorkTree S → S → Type 0
IsLinkFree disk s = (p : FilePath) → IsPlain (disk.node p s)
