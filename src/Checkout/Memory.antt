-- ===== src/Checkout/Memory.antt =====
-- A working directory in memory: an instance of the calls on files, for the tests.
use mediagit_core.Prelude.{
  length, leb, ℕ, ◌≡◌, ◌≢◌, refl, ap, sym, ◌∙◌, inl, inr, Bool-cases, Bool, true, false, ◌==◌, ◌&&◌,
  ◌||◌, Option, none, some, List, [], ◌∷◌, ◌++◌, map, if◌then◌else◌,
}
use mediagit_core.Bytes.{bytes_eq}
use mediagit_core.BTreeMap.{BTreeMap, get, insert, remove, contains_key}
use mediagit_core.BTreeMap.Order.{bytes_ord}
use mediagit_core.BTreeMap.Assoc.{
  get-insert_same, get-insert_other, get-remove_same, get-remove_other,
}
use mediagit_core.Checkout.Disk.{WorkTree, FilePath, Node, file, link, bit}

abbrev pub Nodes : Type 0
Nodes = BTreeMap FilePath Node

-- The files, and the directories but for the root.
abbrev pub Directory : Type 0
Directory = Nodes × List FilePath

abbrev pub is_child : FilePath → FilePath → Bool
is_child [] (x ∷ []) = true
is_child (a ∷ p) (b ∷ q) = a == b && is_child p q
is_child _ _ = false

-- The paths right below a directory.
abbrev pub children : FilePath → List FilePath → List FilePath
children p [] = []
children p (q ∷ qs) = let rest = children p qs in if is_child p q then q ∷ rest else rest

abbrev pub is_listed : FilePath → List FilePath → Bool
is_listed p [] = false
is_listed p (q ∷ qs) = bytes_eq p q || is_listed p qs

abbrev pub without : FilePath → List FilePath → List FilePath
without p [] = []
without p (q ∷ qs) = let rest = without p qs in if bytes_eq p q then rest else q ∷ rest

abbrev pub entries_of : FilePath → Directory → List FilePath
entries_of p (files, dirs) = children p (map (λ e. e.0) files) ++ children p dirs

abbrev pub found_dir : FilePath → Directory → Bool
found_dir [] s = true
found_dir p (files, dirs) = is_listed p dirs

abbrev pub last_name : FilePath → Option (List ℕ)
last_name [] = none
last_name (x ∷ []) = some (x ∷ [])
last_name (x ∷ p) = last_name p

abbrev pub parent : FilePath → FilePath
parent [] = []
parent (x ∷ []) = []
parent (x ∷ p) = x ∷ parent p

abbrev pub with_dir : FilePath → Directory → Directory
with_dir p (files, dirs) = if found_dir p (files, dirs) then (files, dirs) else (files, p ∷ dirs)

pub with_dir_nodes : (p q : FilePath) (s : Directory) → get q (with_dir p s).0 ≡ get q s.0
with_dir_nodes p q (files, dirs) = elim (Bool-cases (found_dir p (files, dirs))) [
  | inl y ↦ rw y
  | inr n ↦ rw n
]

abbrev pub remove_empty : List FilePath → FilePath → Directory → Bool × Directory
remove_empty [] p (files, dirs) = (true, (files, without p dirs))
remove_empty (e ∷ es) p s = (false, s)

pub remove_empty_nodes :
    (es : List FilePath) (p q : FilePath) (s : Directory)
    → get q (remove_empty es p s).1.0 ≡ get q s.0
remove_empty_nodes [] p q s = refl
remove_empty_nodes (e ∷ es) p q s = refl

abbrev pub remove_dir_at : Bool → FilePath → Directory → Bool × Directory
remove_dir_at false p s = (false, s)
remove_dir_at true p s = remove_empty (entries_of p s) p s

pub remove_dir_nodes :
    (there : Bool) (p q : FilePath) (s : Directory)
    → get q (remove_dir_at there p s).1.0 ≡ get q s.0
remove_dir_nodes false p q s = refl
remove_dir_nodes true p q s = remove_empty_nodes (entries_of p s) p q s

-- A path of ten names or more is too long.
abbrev pub listed_dir : Bool → FilePath → Directory → Option (List (Option FilePath))
listed_dir true p s = none
listed_dir false p s = some (map some (entries_of p s))

abbrev pub with_files : Option Nodes → Directory → Option Directory
with_files none s = none
with_files (some files) s = some (files, s.1)

pub with_files_eq : (o : Option Nodes) (s s' : Directory) → with_files o s ≡ some s' → o ≡ some s'.0
with_files_eq none s s' h = cc h
with_files_eq (some files) s s' h = cc h

-- A write through a link fails here.
abbrev pub write_over : Option Node → FilePath → List ℕ → Nodes → Option Nodes
write_over none p b s = some (insert p (file b false) s)
write_over (some (file c x)) p b s = some (insert p (file b x) s)
write_over (some (link t)) p b s = none

abbrev pub make_executable : Option Node → FilePath → Nodes → Option Nodes
make_executable (some (file b x)) p s = some (insert p (file b true) s)
make_executable other p s = none

abbrev pub unlink : Option Node → FilePath → Nodes → Option Nodes
unlink none p s = none
unlink (some n) p s = some (remove p s)

pub some_eq {ℓ} : {A : Type ℓ} (a b : A) → ◌≡◌ {A = Option A} (some a) (some b) → a ≡ b
some_eq a b h = cc h

pub exists_lem :
    (p : FilePath) (b : List ℕ) (x : Bool) (s : Directory)
    → get p s.0 ≡ some (file b x)
    → (contains_key p s.0 || found_dir p s) ≡ true
unfolding contains_key
exists_lem p b x s h = rw (contains_key, h)

pub write_over_eq :
    (n : Option Node) (p : FilePath) (b : List ℕ) (s s' : Nodes)
    → write_over n p b s ≡ some s'
    → insert p (file b (bit n)) s ≡ s'
write_over_eq none p b s s' h = some_eq _ s' h
write_over_eq (some (file c x)) p b s s' h = some_eq _ s' h
write_over_eq (some (link t)) p b s s' h = cc h

pub make_executable_eq :
    (n : Option Node) (p : FilePath) (b : List ℕ) (x : Bool) (s s' : Nodes)
    → n ≡ some (file b x)
    → make_executable n p s ≡ some s'
    → insert p (file b true) s ≡ s'
make_executable_eq n p b x s s' e h = some_eq _ s' (ap (λ m. make_executable m p s) (sym e) ∙ h)

pub unlink_eq :
    (n : Option Node) (p : FilePath) (s s' : Nodes) → unlink n p s ≡ some s' → remove p s ≡ s'
unlink_eq none p s s' h = cc h
unlink_eq (some n) p s s' h = some_eq _ s' h

pub at_same : (p : FilePath) (n : Node) (s s' : Nodes) → insert p n s ≡ s' → get p s' ≡ some n
at_same p n s s' h = ap (get p) (sym h) ∙ get-insert_same p n s

pub at_other :
    (p q : FilePath) (n : Node) (s s' : Nodes) → q ≢ p → insert p n s ≡ s' → get q s' ≡ get q s
at_other p q n s s' apart h = ap (get q) (sym h) ∙ get-insert_other p q n s apart

pub make_executable_other :
    (n : Option Node) (p q : FilePath) (s s' : Nodes)
    → q ≢ p
    → make_executable n p s ≡ some s'
    → get q s' ≡ get q s
make_executable_other none p q s s' apart h = cc h
make_executable_other (some (file b x)) p q s s' apart h =
    at_other p q _ s s' apart (some_eq _ s' h)
make_executable_other (some (link t)) p q s s' apart h = cc h

abbrev pub disk : WorkTree Directory
disk = record {
  node = λ p s. get p s.0;
  exists = λ p s. contains_key p s.0 || found_dir p s;
  is_dir = found_dir;
  create_parent = λ p s. some (with_dir (parent p) s);
  write = λ p b s. with_files (write_over (get p s.0) p b s.0) s;
  set_executable = λ p s. with_files (make_executable (get p s.0) p s.0) s;
  remove = λ p s. with_files (unlink (get p s.0) p s.0) s;
  symlink = λ t p s. some (insert p (link t) s.0, s.1);
  read_dir = λ p s. listed_dir (leb 10 (length p)) p s;
  file_name = last_name;
  remove_dir = λ p s. remove_dir_at (is_listed p s.1) p s;
  exists_file = exists_lem;
  create_parent_nodes =
      λ p q s s' h. ap (λ x. get q x.0) (sym (some_eq _ s' h)) ∙ with_dir_nodes (parent p) q s;
  write_same = λ p b s s' free h.
      at_same p _ s.0 s'.0 (write_over_eq (get p s.0) p b s.0 s'.0 (with_files_eq _ s s' h));
  write_other = λ p q b s s' free apart h.
      at_other p q _ s.0 s'.0 apart
        (write_over_eq (get p s.0) p b s.0 s'.0 (with_files_eq _ s s' h));
  set_executable_same = λ p b x s s' e h.
      at_same p _ s.0 s'.0
        (make_executable_eq (get p s.0) p b x s.0 s'.0 e (with_files_eq _ s s' h));
  set_executable_other = λ p q s s' free apart h.
      make_executable_other (get p s.0) p q s.0 s'.0 apart (with_files_eq _ s s' h);
  remove_same = λ p s s' free h.
      ap (get p) (sym (unlink_eq (get p s.0) p s.0 s'.0 (with_files_eq _ s s' h)))
      ∙ get-remove_same p s.0;
  remove_other = λ p q s s' free apart h.
      ap (get q) (sym (unlink_eq (get p s.0) p s.0 s'.0 (with_files_eq _ s s' h)))
      ∙ get-remove_other p q s.0 apart;
  remove_dir_nodes = λ p q s. remove_dir_nodes (is_listed p s.1) p q s;
}
