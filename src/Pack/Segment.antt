-- ===== src/Pack/Segment.antt =====
-- Where a run of bytes stands in a longer one, and how it is cut out.
use mediagit_core.Prelude.{
  ℕ, ◌+◌, ◌-◌, ◌≤◌, ◌≡◌, refl, ap, sym, ◌∙◌, List, [], ◌++◌, append_assoc, append-nil, length,
  length-append, take, drop, take_field, drop_field, arith,
}
use mediagit_core.Result.{ok, slice, slice_within}
use mediagit_core.Pack.{PackError}

-- `part` stands in `bytes` at `offset`.
pub record Segment (bytes : List ℕ) (offset : ℕ) (part : List ℕ) : Type 0 where
  pub before : List ℕ
  pub behind : List ℕ
  pub split : bytes ≡ before ++ (part ++ behind)
  pub at : length before ≡ offset

pub Segment-append :
    {bytes : List ℕ} {offset : ℕ} {part : List ℕ} (more : List ℕ)
    → Segment bytes offset part
    → Segment (bytes ++ more) offset part
Segment-append {part = part} more s = record {
  before = s.before;
  behind = s.behind ++ more;
  split =
      ap (λ b. b ++ more) s.split
      ∙ append_assoc s.before (part ++ s.behind) more
      ∙ ap (λ b. s.before ++ b) (append_assoc part s.behind more);
  at = s.at;
}

pub Segment-prepend :
    {bytes : List ℕ} {offset : ℕ} {part : List ℕ} (front : List ℕ)
    → Segment bytes offset part
    → Segment (front ++ bytes) (length front + offset) part
Segment-prepend {part = part} front s = record {
  before = front ++ s.before;
  behind = s.behind;
  split = ap (λ b. front ++ b) s.split ∙ sym (append_assoc front s.before (part ++ s.behind));
  at = rw length-append (omega (arith, s.at));
}

pub Segment-last : (bytes part : List ℕ) → Segment (bytes ++ part) (length bytes) part
Segment-last bytes part = record { before = bytes; behind = []; split = simp append-nil; at = refl }

pub Segment-front :
    {bytes : List ℕ} {offset : ℕ} (a b : List ℕ)
    → Segment bytes offset (a ++ b)
    → Segment bytes offset a
Segment-front a b s = record {
  before = s.before;
  behind = b ++ s.behind;
  split = s.split ∙ simp append_assoc;
  at = s.at;
}

pub Segment-back :
    {bytes : List ℕ} {offset : ℕ} (a b : List ℕ)
    → Segment bytes offset (a ++ b)
    → Segment bytes (offset + length a) b
Segment-back a b s = record {
  before = s.before ++ a;
  behind = s.behind;
  split = s.split ∙ simp append_assoc;
  at = rw length-append (omega (arith, s.at));
}

pub Segment-end :
    {bytes : List ℕ} {offset : ℕ} {part : List ℕ}
    → Segment bytes offset part
    → offset + length part ≤ length bytes
Segment-end {part = part} s =
    rw (s.split, length-append s.before (part ++ s.behind), length-append part s.behind)
      (omega (arith, s.at))

-- Cutting exactly a segment returns it.
pub slice-Segment :
    {bytes : List ℕ} {part : List ℕ} (a b : ℕ)
    → Segment bytes a part
    → b ≡ a + length part
    → slice {E = PackError} a b bytes ≡ ok part
slice-Segment {bytes} {part} a b s e =
    slice_within a b bytes (omega arith) (rw e (Segment-end s)) ∙ ap ok (cut)
  where
    cut : take (b - a) (drop a bytes) ≡ part
    cut =
        rw (s.split, drop_field a s.before (part ++ s.behind) s.at)
          (take_field (b - a) part s.behind (omega arith))
