-- ===== src/Object.antt =====
-- crates/mediagit-versioning/src/object.rs and oid.rs: object types and object identifiers.
use mediagit_core.Prelude.{ℕ, ◌≡◌, refl, Option, none, some, List, length, ◌==◌, if◌then◌else◌}

pub data ObjectType : Type 0 where
  blob tree commit : ObjectType

unfoldable pub to_u8 : ObjectType → ℕ
to_u8 blob = 1
to_u8 tree = 2
to_u8 commit = 3

unfoldable pub from_u8 : ℕ → Option ObjectType
from_u8 value =
    if value == 1
    then some blob
    else if value == 2
    then some tree
    else if value == 3
    then some commit
    else none

-- `Oid([u8; 32])` is its sequence of bytes; `IsOid` is the length that the Rust type fixes.
abbrev pub Oid : Type 0
Oid = List ℕ

abbrev pub IsOid : Oid → Type 0
IsOid oid = length oid ≡ 32

pub from_u8-to_u8 : (t : ObjectType) → from_u8 (to_u8 t) ≡ some t
unfolding from_u8 to_u8
from_u8-to_u8 blob = refl
from_u8-to_u8 tree = refl
from_u8-to_u8 commit = refl
