-- ===== src/Revision.antt =====
-- crates/mediagit-versioning/src/revision.rs: from a revision, such as `HEAD~2`, to a commit.
pub mod Parents
mod Tests
use mediagit_core.Prelude.{
  ℕ, zero, suc, Bool, true, false, ◌&&◌, ◌||◌, Option, none, some, List, [], ◌∷◌, ◌++◌, length, ltb,
  leb, ◌==◌, if◌then◌else◌,
}
use mediagit_core.Result.{Result, ok, err, panic, ◌>>=◌}
use mediagit_core.Bytes.{bytes_eq}
use mediagit_core.Object.{Oid}
use mediagit_core.Refs.Hex.{Texts, from_hex}
use mediagit_core.Refs.Disk.{FileSystem}
use mediagit_core.Refs.{Text, head}
use mediagit_core.Refs.Database.{resolve}
use mediagit_core.Branch.{heads}

pub data RevisionError : Type 0 where
  bad_count zero_count no_head cannot_resolve : RevisionError
  unreadable no_parents : Oid → RevisionError

-- The text before and behind the last tilde.
abbrev pub behind_tilde : ℕ → Text → Option (Text × Text) → Option (Text × Text)
behind_tilde x xs (some (base, count)) = some (x ∷ base, count)
behind_tilde x xs none = if x == b'~' then some ([], xs) else none

abbrev pub split_tilde : Text → Option (Text × Text)
split_tilde [] = none
split_tilde (x ∷ xs) = behind_tilde x xs (split_tilde xs)

abbrev pub is_ascii_hexdigit : ℕ → Bool
is_ascii_hexdigit c =
    (leb b'0' c && leb c b'9') || ((leb b'a' c && leb c b'f') || (leb b'A' c && leb c b'F'))

abbrev pub all_hex : Text → Bool
all_hex [] = true
all_hex (c ∷ cs) = is_ascii_hexdigit c && all_hex cs

-- The first result that is no error.
abbrev pub or_else {ℓ κ μ} :
    {E : Type ℓ} {F : Type κ} {A : Type μ} → Result E A → Result F A → Result F A
or_else (ok a) other = ok a
or_else (err e) other = other
or_else panic other = panic

abbrev pub found {ℓ κ} : {E : Type ℓ} {A : Type κ} → Option A → Result E A → Result E A
found none other = other
found (some a) other = ok a

-- `parse_usize` is `str::parse::<usize>`.
module _ (parse_usize : Text → Option ℕ) where
  abbrev pub counted : Text → Option ℕ → Result RevisionError (Option (Text × ℕ))
  counted base none = err bad_count
  counted base (some count) = if count == 0 then err zero_count else ok (some (base, count))

  abbrev pub notation_of : Option (Text × Text) → Result RevisionError (Option (Text × ℕ))
  notation_of none = ok none
  notation_of (some (base, count)) = counted base (parse_usize count)

  unfoldable pub parse_parent_notation : Text → Result RevisionError (Option (Text × ℕ))
  parse_parent_notation revision = notation_of (split_tilde revision)

-- `parents_of` is reading a commit from the object database: its parents, where it is a commit.
module _ (parents_of : Oid → Option (List Oid)) where
  abbrev pub first_parent : Oid → Option (List Oid) → Result RevisionError Oid
  first_parent oid none = err (unreadable oid)
  first_parent oid (some []) = err (no_parents oid)
  first_parent oid (some (p ∷ ps)) = ok p

  unfoldable pub walk_parents : ℕ → Oid → Result RevisionError Oid
  walk_parents zero oid = ok oid
  walk_parents (suc count) oid = do
    parent ← first_parent oid (parents_of oid)
    walk_parents count parent

-- `abbreviated` is `resolve_abbreviated_oid` of the object database.
module _ {S P : Type 0} (texts : Texts) (fs : FileSystem S P) (parse_usize : Text → Option ℕ)
    (parents_of : Oid → Option (List Oid)) (abbreviated : Text → Option Oid) where
  unfoldable pub resolve_base : Text → S → Result RevisionError Oid
  resolve_base base s =
      if bytes_eq base head
      then or_else (resolve texts fs head s) (err no_head)
      else found (from_hex texts base) (
          or_else (resolve texts fs base s)
            (or_else (resolve texts fs (heads base) s) (err cannot_resolve)))

  abbrev pub from_abbreviated : Text → Option Oid
  from_abbreviated revision =
      if leb 4 (length revision) && (ltb (length revision) 64 && all_hex revision)
      then abbreviated revision
      else none

  abbrev pub resolve_parsed : Text → S → Option (Text × ℕ) → Result RevisionError Oid
  resolve_parsed revision s (some (base, count)) = do
    oid ← resolve_base base s
    walk_parents parents_of count oid
  resolve_parsed revision s none = found (from_hex texts revision) (
      found (from_abbreviated revision) (
        or_else (resolve texts fs revision s)
          (or_else (resolve texts fs (heads revision) s) (err cannot_resolve))))

  unfoldable pub resolve_revision : Text → S → Result RevisionError Oid
  unfolding resolve_base
  resolve_revision revision s = do
    parsed ← parse_parent_notation parse_usize revision
    resolve_parsed revision s parsed
