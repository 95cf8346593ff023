-- ===== src/Pack/Selection/RoundTrip.antt =====
-- pack.rs: reading what `smart_add_object` was asked to add.
use mediagit_core.Prelude.{
  ℕ, ◌+◌, ◌<◌, ◌^◌, ◌≡◌, refl, sym, ◌∙◌, ap, inl, inr, Bool, true, false, Bool-cases, Option, some,
  List, [], ◌∷◌, ◌++◌, map, All, length, ◌⊎◌, if◌then◌else◌, Ordering,
}
use mediagit_core.Result.{Result, ok, err, ◌>>=◌}
use mediagit_core.Object.{ObjectType, Oid, IsOid}
use mediagit_core.Delta.{Zstd}
use mediagit_core.Tree.{Name}
use mediagit_core.BTreeMap.{BTreeMap, get, insert, insert_all}
use mediagit_core.BTreeMap.Order.{bytes_ord, bytes_cmp, bytes_cmp_eq, bytes_cmp_refl}
use mediagit_core.BTreeMap.Lookup.{on_eq_other, get-insert}
use mediagit_core.Pack.{PackError, object_not_found}
use mediagit_core.Pack.Writer.{PackWriter, new_writer, finalize}
use mediagit_core.Pack.Writer.Contents.{
  PackOp, whole, perform, perform_all, named, contents, IsComplete,
}
use mediagit_core.Pack.Reader.{new_reader, get_object_with_type}
use mediagit_core.Pack.RoundTrip.{read_after, read_whole, read_missing}
use mediagit_core.Pack.Selection.{should_pack_object, smart_add_object}

-- A call of `smart_add_object`.
pub record Request : Type 0 where
  pub oid : Oid
  pub object_type : ObjectType
  pub object : List ℕ
  pub filename : Option Name

module _ (extension_of : Name → List ℕ) where
  abbrev pub wanted : Request → Bool
  wanted r = should_pack_object extension_of (length r.object) r.object_type r.filename

  unfoldable pub request_all : List Request → PackWriter → PackWriter
  request_all [] w = w
  request_all (r ∷ rs) w =
      request_all rs (smart_add_object extension_of r.oid r.object_type r.object r.filename w).0

  -- The additions among the requests.
  abbrev pub selected : List Request → List PackOp
  selected [] = []
  selected (r ∷ rs) =
      let rest = selected rs in if wanted r then whole r.oid r.object_type r.object ∷ rest else rest

  request_all-selected :
      (rs : List Request) (w : PackWriter) → request_all rs w ≡ perform_all (selected rs) w
  unfolding request_all smart_add_object perform_all perform
  request_all-selected [] w = refl
  request_all-selected (r ∷ rs) w = elim (Bool-cases (wanted r)) [
    | inl y ↦ rw y (request_all-selected rs _)
    | inr n ↦ rw n (request_all-selected rs w)
  ]

  selected-IsComplete :
      (rs : List Request) → All (λ r. IsOid r.oid) rs → All IsComplete (selected rs)
  selected-IsComplete [] c = tt
  selected-IsComplete (r ∷ rs) (c, cs) = elim (Bool-cases (wanted r)) [
    | inl y ↦ rw y (c, selected-IsComplete rs cs)
    | inr n ↦ rw n (selected-IsComplete rs cs)
  ]

  -- A request leaves the object alone: it names another one, or is refused.
  abbrev pub Passes : Oid → Request → Type 0
  Passes oid r = (r.oid ≡ oid → ⊥) ⊎ (wanted r ≡ false)

  get-passed :
      (oid : Oid) (rs : List Request) (m : BTreeMap Oid PackOp)
      → All (Passes oid) rs
      → get oid (insert_all m (map named (selected rs))) ≡ get oid m
  unfolding insert_all
  get-passed oid [] m h = refl
  get-passed oid (r ∷ rs) m (h, hs) = elim (Bool-cases (wanted r)) [
    | inl y ↦ rw y (
        get-passed oid rs (insert r.oid (whole r.oid r.object_type r.object) m) hs
        ∙ get-insert r.oid oid (whole r.oid r.object_type r.object) m
        ∙ on_eq_other (bytes_cmp oid r.oid) _ _ (another y))
    | inr n ↦ rw n (get-passed oid rs m hs)
  ]
    where
      another : wanted r ≡ true → bytes_cmp oid r.oid ≡ Ordering.eq → ⊥
      another y e = elim h [
        | inl differ ↦ differ (sym (bytes_cmp_eq oid r.oid e))
        | inr n ↦ cc (y, n)
      ]

  get-accepted :
      (before : List Request) (r : Request) (after : List Request) (m : BTreeMap Oid PackOp)
      → wanted r ≡ true
      → All (Passes r.oid) after
      → get r.oid (insert_all m (map named (selected (before ++ r ∷ after))))
        ≡ some (whole r.oid r.object_type r.object)
  unfolding insert_all
  get-accepted [] r after m y h =
      let op = whole r.oid r.object_type r.object in
      rw y (
        get-passed r.oid after (insert r.oid op m) h
        ∙ get-insert r.oid r.oid op m
        ∙ rw (bytes_cmp_refl r.oid))
  get-accepted (q ∷ before) r after m y h = elim (Bool-cases (wanted q)) [
    | inl want ↦
        rw want
          (get-accepted before r after (insert q.oid (whole q.oid q.object_type q.object) m) y h)
    | inr refuse ↦ rw refuse (get-accepted before r after m y h)
  ]

  -- Requesting, finalizing, opening and reading one object.
  unfoldable pub read_requested :
      Zstd → (List ℕ → List ℕ) → List Request → Oid → Result PackError (ObjectType × List ℕ)
  read_requested z sha256 rs oid = do
    r ← new_reader sha256 (finalize sha256 (request_all rs new_writer))
    get_object_with_type z r oid

  module _ (z : Zstd) (sha256 : List ℕ → List ℕ) (sum_32 : (b : List ℕ) → length (sha256 b) ≡ 32)
      (rs : List Request) (complete : All (λ r. IsOid r.oid) rs)
      (small : 12 + length (request_all rs new_writer).bytes < 2 ^ 32) where
    requested : (oid : Oid) → read_requested z sha256 rs oid ≡ read_after z sha256 (selected rs) oid
    unfolding read_requested read_after
    requested oid = rw (request_all-selected rs new_writer)

    selected_small : 12 + length (perform_all (selected rs) new_writer).bytes < 2 ^ 32
    selected_small = rw (request_all-selected rs new_writer) at small

    -- After any sequence of calls of `smart_add_object`, `finalize` and `PackReader::new`, an
    -- object for which every request was refused is reported as missing, where the header and the
    -- packed objects take less than 4 GiB and checksums and identifiers have 32 bytes.
    pub read_refused :
        (oid : Oid) → All (Passes oid) rs → read_requested z sha256 rs oid ≡ err object_not_found
    unfolding get
    read_refused oid passes =
        requested oid
        ∙ read_missing z sha256 sum_32 (selected rs) (selected-IsComplete rs complete)
            selected_small oid (get-passed oid rs [] passes)

    -- After any sequence of calls of `smart_add_object`, `finalize` and `PackReader::new`, an
    -- object that the selection accepted, and after which every request for its identifier was
    -- refused, is read back with its type and bytes, where the header and the packed objects take
    -- less than 4 GiB and checksums and identifiers have 32 bytes.
    pub read_accepted :
        (before : List Request) (r : Request) (after : List Request)
        → rs ≡ before ++ r ∷ after
        → wanted r ≡ true
        → All (Passes r.oid) after
        → read_requested z sha256 rs r.oid ≡ ok (r.object_type, r.object)
    read_accepted before r after split y h =
        requested r.oid
        ∙ read_whole z sha256 sum_32 (selected rs) (selected-IsComplete rs complete) selected_small
            r.oid r.oid r.object_type r.object
            (ap (λ (x : List Request). get r.oid (contents (selected x))) split
              ∙ get-accepted before r after [] y h)
