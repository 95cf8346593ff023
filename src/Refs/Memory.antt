-- ===== src/Refs/Memory.antt =====
-- A disk in memory, and texts over the ASCII hexadecimal digits: instances of the two interfaces.
use mediagit_core.Prelude.{
  ℕ, ◌+◌, ◌*◌, ◌-◌, ◌/◌, ◌%◌, ◌<◌, ◌≡◌, ◌≢◌, refl, ap, ◌∙◌, true, Option, none, some, List, [], ◌∷◌,
  ◌++◌, All, length, arith, ltb, ◌==◌, if◌then◌else◌, sym,
}
use mediagit_core.BTreeMap.{BTreeMap, get, insert, remove, contains_key}
use mediagit_core.BTreeMap.Order.{bytes_ord}
use mediagit_core.BTreeMap.Assoc.{
  get-insert_same, get-insert_other, get-remove_same, get-remove_other,
}
use mediagit_core.Refs.Hex.{Texts, IsHexDigit}
use mediagit_core.Refs.Disk.{FileSystem}
use mediagit_core.Refs.Database.{replace_file}

abbrev pub digit : ℕ → ℕ
digit d = if ltb d 10 then 48 + d else 87 + d

abbrev pub value : ℕ → ℕ
value c = if ltb c 58 then c - 48 else c - 87

abbrev pub encode : List ℕ → List ℕ
encode [] = []
encode (b ∷ bs) = digit (b / 16) ∷ digit (b % 16) ∷ encode bs

abbrev pub cons : ℕ → Option (List ℕ) → Option (List ℕ)
cons b none = none
cons b (some bs) = some (b ∷ bs)

abbrev pub decode : List ℕ → Option (List ℕ)
decode [] = some []
decode (c ∷ []) = none
decode (c ∷ d ∷ rest) = cons (value c * 16 + value d) (decode rest)

-- One line feed at the end is removed.
abbrev pub chomp : List ℕ → List ℕ
chomp [] = []
chomp (x ∷ []) = if x == 10 then [] else x ∷ []
chomp (x ∷ y ∷ xs) = x ∷ chomp (y ∷ xs)

value-digit : (d : ℕ) → value (digit d) ≡ d
value-digit d = ground arith

digit-IsHexDigit : (d : ℕ) → d < 16 → IsHexDigit (digit d)
digit-IsHexDigit d h = ground arith

pub decode-encode : (b : List ℕ) → decode (encode b) ≡ some b
decode-encode [] = refl
decode-encode (x ∷ xs) =
    rw (decode-encode xs, value-digit (x / 16), value-digit (x % 16))
      (ap (λ n. some (n ∷ xs)) (omega arith))

pub length-encode : (b : List ℕ) → length (encode b) ≡ 2 * length b
length-encode [] = refl
length-encode (x ∷ xs) = omega (arith, length-encode xs)

pub encode_digits : (b : List ℕ) → All (λ x. x < 256) b → All IsHexDigit (encode b)
encode_digits [] h = tt
encode_digits (x ∷ xs) (h, hs) = (
  digit-IsHexDigit (x / 16) (omega arith),
  (digit-IsHexDigit (x % 16) (omega arith), encode_digits xs hs),
)

pub chomp_newline : (x : List ℕ) → chomp (x ++ (b'\n' ∷ [])) ≡ x
chomp_newline [] = refl
chomp_newline (x ∷ []) = refl
chomp_newline (x ∷ y ∷ xs) = ap (λ l. x ∷ l) (chomp_newline (y ∷ xs))

pub chomp_digits : (x : List ℕ) → All IsHexDigit x → chomp x ≡ x
chomp_digits [] h = refl
chomp_digits (x ∷ []) h = let d = h.0 in ground arith
chomp_digits (x ∷ y ∷ xs) h = ap (λ l. x ∷ l) (chomp_digits (y ∷ xs) h.1)

abbrev pub texts : Texts
texts = record {
  hex_encode = encode;
  hex_decode = decode;
  is_utf8 = λ x. true;
  trim = chomp;
  hex_decode-hex_encode = λ b h. decode-encode b;
  length-hex_encode = length-encode;
  hex_encode_digits = encode_digits;
  trim_newline = λ x h. chomp_newline x;
  trim_digits = chomp_digits;
  is_utf8_ascii = λ x h. refl;
  is_utf8-append = λ x y h k. refl;
}

abbrev pub Disk : Type 0
Disk = BTreeMap (List ℕ) (List ℕ)

abbrev pub move_file : Option (List ℕ) → List ℕ → List ℕ → Disk → Option Disk
move_file none p q s = none
move_file (some b) p q s = some (insert q b (remove p s))

abbrev pub unlink : Option (List ℕ) → List ℕ → Disk → Option Disk
unlink none p s = none
unlink (some b) p s = some (remove p s)

pub some_eq {ℓ} : {A : Type ℓ} (a b : A) → ◌≡◌ {A = Option A} (some a) (some b) → a ≡ b
some_eq a b h = cc h

pub contains_file : (p b : List ℕ) (s : Disk) → get p s ≡ some b → contains_key p s ≡ true
unfolding contains_key
contains_file p b s h = rw (contains_key, h)

-- What a successful call leaves.
moved_file :
    (o : Option (List ℕ)) (p q : List ℕ) (s s' : Disk)
    → move_file o p q s ≡ some s'
    → (b : List ℕ) × (o ≡ some b) × (insert q b (remove p s) ≡ s')
moved_file none p q s s' h = cc h
moved_file (some b) p q s s' h = (b, refl, some_eq _ s' h)

unlinked :
    (o : Option (List ℕ)) (p : List ℕ) (s s' : Disk) → unlink o p s ≡ some s' → remove p s ≡ s'
unlinked none p s s' h = cc h
unlinked (some b) p s s' h = some_eq _ s' h

pub rename_same_lem :
    (p q : List ℕ) (s s' : Disk) → move_file (get p s) p q s ≡ some s' → get q s' ≡ get p s
rename_same_lem p q s s' h =
    let (b, e, done) = moved_file (get p s) p q s s' h in
    ap (get q) (sym done) ∙ get-insert_same q b (remove p s) ∙ sym e

pub rename_gone_lem :
    (p q : List ℕ) (s s' : Disk) → p ≢ q → move_file (get p s) p q s ≡ some s' → get p s' ≡ none
rename_gone_lem p q s s' apart h =
    let (b, e, done) = moved_file (get p s) p q s s' h in
    ap (get p) (sym done) ∙ get-insert_other q p b (remove p s) apart ∙ get-remove_same p s

pub rename_other_lem :
    (p q r : List ℕ) (s s' : Disk)
    → r ≢ p
    → r ≢ q
    → move_file (get p s) p q s ≡ some s'
    → get r s' ≡ get r s
rename_other_lem p q r s s' h k done =
    let (b, e, done') = moved_file (get p s) p q s s' done in
    ap (get r) (sym done') ∙ get-insert_other q r b (remove p s) k ∙ get-remove_other p r s h

pub write_same_lem :
    (p b : List ℕ) (s s' : Disk)
    → ◌≡◌ {A = Option Disk} (some (insert p b s)) (some s')
    → get p s' ≡ some b
write_same_lem p b s s' h = ap (get p) (sym (some_eq _ s' h)) ∙ get-insert_same p b s

pub write_other_lem :
    (p q b : List ℕ) (s s' : Disk)
    → q ≢ p
    → ◌≡◌ {A = Option Disk} (some (insert p b s)) (some s')
    → get q s' ≡ get q s
write_other_lem p q b s s' k h = ap (get q) (sym (some_eq _ s' h)) ∙ get-insert_other p q b s k

pub create_lem :
    (p : List ℕ) (s s' : Disk) → ◌≡◌ {A = Option Disk} (some s) (some s') → get p s' ≡ get p s
create_lem p s s' h = ap (get p) (sym (some_eq s s' h))

pub remove_same_lem : (p : List ℕ) (s s' : Disk) → unlink (get p s) p s ≡ some s' → get p s' ≡ none
remove_same_lem p s s' h = ap (get p) (sym (unlinked _ p s s' h)) ∙ get-remove_same p s

pub remove_other_lem :
    (p q : List ℕ) (s s' : Disk) → q ≢ p → unlink (get p s) p s ≡ some s' → get q s' ≡ get q s
remove_other_lem p q s s' k h = ap (get q) (sym (unlinked _ p s s' h)) ∙ get-remove_other p q s k

-- Paths are names, and the temporary file of `x` is `x.tmp`.
abbrev pub disk : FileSystem Disk (List ℕ)
disk = record {
  path = λ name. name;
  parent = λ p. none;
  temp = λ p. p ++ (b'.' ∷ b't' ∷ b'm' ∷ b'p' ∷ []);
  read_file = λ p s. get p s;
  metadata = λ p s. contains_key p s;
  create_dir_all = λ p s. some s;
  write_file = λ p b s. some (insert p b s);
  rename = λ p q s. move_file (get p s) p q s;
  remove_file = λ p s. unlink (get p s) p s;
  metadata_file = contains_file;
  create_dir_all_files = λ d p s s' h. create_lem p s s' h;
  write_file_same = write_same_lem;
  write_file_other = write_other_lem;
  rename_same = rename_same_lem;
  rename_gone = rename_gone_lem;
  rename_other = rename_other_lem;
  remove_file_same = remove_same_lem;
  remove_file_other = remove_other_lem;
}

-- A file can always be replaced there, and one that is there removed.
pub disk-replaces :
    (p b : List ℕ) (s : Disk) → (s' : Disk) × (replace_file texts disk p b s ≡ some s')
unfolding replace_file
disk-replaces p b s =
    let temp = p ++ (b'.' ∷ b't' ∷ b'm' ∷ b'p' ∷ []) in
    let full = insert temp b s in (insert p b (remove temp full), rw (get-insert_same temp b s))

pub disk-removes :
    (p b : List ℕ) (s : Disk) → get p s ≡ some b → (s' : Disk) × (disk.remove_file p s ≡ some s')
disk-removes p b s h = (remove p s, rw h)
