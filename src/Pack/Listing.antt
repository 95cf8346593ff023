-- ===== src/Pack/Listing.antt =====
-- pack.rs: `list_objects` on a pack that was written and opened again.
use mediagit_core.Prelude.{
  ℕ, ◌+◌, ◌<◌, ◌^◌, ◌≡◌, refl, sym, ap, ◌∙◌, Option, none, some, List, [], map, All, length, arith,
}
use mediagit_core.Result.{Result, ok, ◌>>=◌}
use mediagit_core.Bytes.{listed}
use mediagit_core.Object.{Oid}
use mediagit_core.BTreeMap.{get, keys, contains_key}
use mediagit_core.BTreeMap.Order.{bytes_ord}
use mediagit_core.BTreeMap.Keys.{listed-keys, contains_key-get, is_some}
use mediagit_core.Pack.{PackError}
use mediagit_core.Pack.Writer.{new_writer, finalize, moved}
use mediagit_core.Pack.Writer.Moved.{get-moved, moved_place}
use mediagit_core.Pack.Writer.Contents.{
  PackOp, perform_all, contents, IsComplete, AtPlace, new_writer-IsValid,
}
use mediagit_core.Pack.Reader.{new_reader, list_objects}
use mediagit_core.Pack.Open.{new_reader-finalize}
use mediagit_core.Pack.RoundTrip.{perform_all-IsValid, perform_all-Represents}

placed :
    (bytes : List ℕ) (place : Option (ℕ × ℕ)) (op : Option PackOp)
    → AtPlace bytes place op
    → is_some place ≡ is_some op
placed bytes none none h = refl
placed bytes none (some op) h = absurd h
placed bytes (some place) none h = absurd h
placed bytes (some (offset, size)) (some op) h = refl

moved_stays :
    (start : ℕ) (place : Option (ℕ × ℕ)) → is_some (moved_place start place) ≡ is_some place
moved_stays start none = refl
moved_stays start (some (offset, size)) = refl

-- Writing, finalizing, opening and listing.
unfoldable pub list_after : (List ℕ → List ℕ) → List PackOp → Result PackError (List Oid)
list_after sha256 ops = do
  r ← new_reader sha256 (finalize sha256 (perform_all ops new_writer))
  ok (list_objects r)

-- After any sequence of `add_object` and `add_delta_object`, `finalize` and `PackReader::new`,
-- `list_objects` lists an identifier exactly where an operation named it, where the header and the
-- objects take less than 4 GiB and checksums and identifiers have 32 bytes.
pub list_after_exact :
    (sha256 : List ℕ → List ℕ) (ops : List PackOp)
    → ((b : List ℕ) → length (sha256 b) ≡ 32)
    → All IsComplete ops
    → 12 + length (perform_all ops new_writer).bytes < 2 ^ 32
    → (ids : List Oid) × (list_after sha256 ops ≡ ok ids)
      × ((oid : Oid) → listed oid ids ≡ contains_key oid (contents ops))
unfolding list_after
list_after_exact sha256 ops sum_32 complete small =
    let w = perform_all ops new_writer in
    let valid = perform_all-IsValid ops new_writer complete new_writer-IsValid in
    let represents =
      perform_all-Represents ops new_writer [] (omega arith) (λ oid. unfold get in tt) in
    (
      keys (map (moved 12) w.index),
      rw (new_reader-finalize sha256 w sum_32 valid small),
      λ oid.
          listed-keys oid (map (moved 12) w.index)
          ∙ contains_key-get oid (map (moved 12) w.index)
          ∙ ap is_some (get-moved 12 oid w.index)
          ∙ moved_stays 12 (get oid w.index)
          ∙ placed w.bytes (get oid w.index) (get oid (contents ops)) (represents oid)
          ∙ sym (contains_key-get oid (contents ops)),
    )
