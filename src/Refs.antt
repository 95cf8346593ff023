-- ===== src/Refs.antt =====
-- crates/mediagit-versioning/src/refs.rs: references, their text, and their database, which is in
-- Refs/Database. A text is its sequence of bytes.
pub mod Hex
pub mod Disk
pub mod Database
pub mod Stored
pub mod Resolve
pub mod Update
pub mod Memory
mod Tests
use mediagit_core.Prelude.{
  ℕ, Bool, true, false, Option, none, some, List, [], ◌∷◌, ◌++◌, ◌==◌, if◌then◌else◌,
}
use mediagit_core.Result.{Result, ok, err, ◌>>=◌, ◌>>◌, ensure}
use mediagit_core.Bytes.{bytes_eq}
use mediagit_core.Object.{Oid}
use Hex.{Texts, to_hex, from_hex}

abbrev pub Text : Type 0
Text = List ℕ

pub data RefType : Type 0 where
  direct symbolic : RefType

pub record Ref : Type 0 where
  pub name : Text
  pub ref_type : RefType
  pub oid : Option Oid
  pub target : Option Text

abbrev pub new_direct : Text → Oid → Ref
new_direct name oid = record { name = name; ref_type = direct; oid = some oid; target = none }

abbrev pub new_symbolic : Text → Text → Ref
new_symbolic name target = record {
  name = name;
  ref_type = symbolic;
  oid = none;
  target = some target;
}

pub data RefError : Type 0 where
  empty_name direct_without_oid direct_with_target : RefError
  symbolic_without_target symbolic_with_oid : RefError
  not_utf8 bad_oid io circular : RefError
  not_found symbolic_update non_fast_forward : Text → RefError
  branch_exists no_branch current_branch_kept tag_exists no_tag bad_name : Text → RefError

-- "refs/", "heads", "HEAD" and "ref: ".
abbrev pub refs_prefix : Text
refs_prefix = b'r' ∷ b'e' ∷ b'f' ∷ b's' ∷ b'/' ∷ []

abbrev pub heads_word : Text
heads_word = b'h' ∷ b'e' ∷ b'a' ∷ b'd' ∷ b's' ∷ []

abbrev pub tags_word : Text
tags_word = b't' ∷ b'a' ∷ b'g' ∷ b's' ∷ []

abbrev pub remotes_word : Text
remotes_word = b'r' ∷ b'e' ∷ b'm' ∷ b'o' ∷ b't' ∷ b'e' ∷ b's' ∷ []

abbrev pub head : Text
head = b'H' ∷ b'E' ∷ b'A' ∷ b'D' ∷ []

abbrev pub symbolic_prefix : Text
symbolic_prefix = b'r' ∷ b'e' ∷ b'f' ∷ b':' ∷ b' ' ∷ []

abbrev pub heads_prefix : Text
heads_prefix = refs_prefix ++ (heads_word ++ (b'/' ∷ []))

abbrev pub tags_prefix : Text
tags_prefix = refs_prefix ++ (tags_word ++ (b'/' ∷ []))

-- `strip_prefix`.
abbrev pub strip_prefix : Text → Text → Option Text
strip_prefix [] text = some text
strip_prefix (c ∷ cs) [] = none
strip_prefix (c ∷ cs) (x ∷ xs) = let rest = strip_prefix cs xs in if c == x then rest else none

-- The first and the last part between slashes.
abbrev pub first_part : Text → Text
first_part [] = []
first_part (x ∷ xs) = let rest = first_part xs in if x == b'/' then [] else x ∷ rest

abbrev pub last_part : Text → Text → Text
last_part part [] = part
last_part part (x ∷ xs) = last_part (if x == b'/' then [] else part ++ (x ∷ [])) xs

unfoldable pub namespace : Ref → Option Text
namespace r = elim (strip_prefix refs_prefix r.name) [
  | none ↦ none
  | some after_refs ↦ some (first_part after_refs)
]

unfoldable pub short_name : Ref → Text
short_name r = elim (strip_prefix refs_prefix r.name) [ none ↦ r.name | some text ↦ text ]

unfoldable pub branch_name : Ref → Text
branch_name r = last_part [] r.name

abbrev pub is_text : Option Text → Text → Bool
is_text none text = false
is_text (some t) text = bytes_eq t text

unfoldable pub is_branch : Ref → Bool
unfolding namespace
is_branch r = is_text (namespace r) heads_word

unfoldable pub is_tag : Ref → Bool
unfolding namespace
is_tag r = is_text (namespace r) tags_word

unfoldable pub is_remote : Ref → Bool
unfolding namespace
is_remote r = is_text (namespace r) remotes_word

abbrev pub is_head : Ref → Bool
is_head r = bytes_eq r.name head

abbrev pub is_none {ℓ} : {A : Type ℓ} → Option A → Bool
is_none none = true
is_none (some a) = false

abbrev pub is_some {ℓ} : {A : Type ℓ} → Option A → Bool
is_some none = false
is_some (some a) = true

abbrev pub is_empty : Text → Bool
is_empty [] = true
is_empty (x ∷ xs) = false

abbrev pub not_empty : Text → Bool
not_empty [] = false
not_empty (x ∷ xs) = true

abbrev pub validate_kind : RefType → Option Oid → Option Text → Result RefError (Unit {0})
validate_kind direct oid target = do
  ensure (is_some oid) direct_without_oid
  ensure (is_none target) direct_with_target
validate_kind symbolic oid target = do
  ensure (is_some target) symbolic_without_target
  ensure (is_none oid) symbolic_with_oid

unfoldable pub validate : Ref → Result RefError (Unit {0})
validate r = do ensure (not_empty r.name) empty_name; validate_kind r.ref_type r.oid r.target

-- `ok_or_else`.
abbrev pub ok_or {ℓ} : {A : Type ℓ} → RefError → Option A → Result RefError A
ok_or e none = err e
ok_or e (some a) = ok a

module _ (texts : Texts) where
  abbrev pub serialize_kind : RefType → Option Oid → Option Text → Result RefError Text
  serialize_kind direct oid target = do
    id ← ok_or direct_without_oid oid
    ok (to_hex texts id ++ (b'\n' ∷ []))
  serialize_kind symbolic oid target = do
    t ← ok_or symbolic_without_target target
    ok (symbolic_prefix ++ (t ++ (b'\n' ∷ [])))

  unfoldable pub serialize : Ref → Result RefError Text
  serialize r = serialize_kind r.ref_type r.oid r.target

  -- The caller sets the name.
  abbrev pub deserialize_content : Text → Option Text → Result RefError Ref
  deserialize_content content (some target) = ok (new_symbolic [] target)
  deserialize_content content none = do
    oid ← ok_or bad_oid (from_hex texts content)
    ok (new_direct [] oid)

  unfoldable pub deserialize : Text → Result RefError Ref
  deserialize bytes = do
    ensure (texts.is_utf8 bytes) not_utf8
    let content = texts.trim bytes
    deserialize_content content (strip_prefix symbolic_prefix content)

unfoldable pub normalize_ref_name : Text → Text
normalize_ref_name input =
    if is_some (strip_prefix refs_prefix input)
    then input
    else if bytes_eq input head
    then input
    else heads_prefix ++ input
