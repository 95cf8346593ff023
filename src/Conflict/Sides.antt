-- ===== src/Conflict/Sides.antt =====
-- conflict.rs: what a reported conflict says of the entries at its path.
use mediagit_core.Prelude.{
  ◌≡◌, refl, sym, ap, ◌∙◌, Bool, true, false, not, ◌&&◌, Option, none, some, List, [], ◌∷◌, All,
  if◌then◌else◌,
}
use mediagit_core.Result.{Result, ok, err, panic, ◌>>=◌}
use mediagit_core.Bytes.{bytes_eq}
use mediagit_core.BTreeMap.{get}
use mediagit_core.BTreeMap.Order.{bytes_ord}
use mediagit_core.Tree.{Name, TreeEntry, Tree}
use mediagit_core.Conflict.Paths.{Enumerates}
use mediagit_core.Conflict.Laws.{detect_conflicts_exact}
use mediagit_core.Conflict.{
  Conflict, ConflictSide, ConflictError, from_entry, categorize, push_some, detect_conflicts,
}

abbrev pub side : Option TreeEntry → Option ConflictSide
side none = none
side (some e) = some (from_entry e)

-- The three sides of a conflict are the entries at its path.
abbrev pub Carries : Tree → Tree → Tree → Conflict → Type 0
Carries base ours theirs c =
    (c.base ≡ side (get c.path base))
    × (c.ours ≡ side (get c.path ours))
    × (c.theirs ≡ side (get c.path theirs))

abbrev CarriesOne :
    Name
    → Option TreeEntry
    → Option TreeEntry
    → Option TreeEntry
    → Result ConflictError (Option Conflict)
    → Type 0
CarriesOne path b o t (ok none) = Unit
CarriesOne path b o t (ok (some c)) =
    (c.path ≡ path) × (c.base ≡ side b) × (c.ours ≡ side o) × (c.theirs ≡ side t)
CarriesOne path b o t (err e) = Unit
CarriesOne path b o t panic = Unit

abbrev pub OnOk : {A : Type 0} → (A → Type 0) → Result ConflictError A → Type 0
OnOk P (ok a) = P a
OnOk P (err e) = Unit
OnOk P panic = Unit

when :
    (path : Name) (b o t : Option TreeEntry) (c : Conflict) (test : Bool)
    → CarriesOne path b o t (ok (some c))
    → CarriesOne path b o t (if test then ok (some c) else ok none)
when path b o t c true h = h
when path b o t c false h = tt

unless :
    (path : Name) (b o t : Option TreeEntry) (c : Conflict) (test : Bool)
    → CarriesOne path b o t (ok (some c))
    → CarriesOne path b o t (if test then ok none else ok (some c))
unless path b o t c true h = tt
unless path b o t c false h = h

changed :
    (path : Name) (b o t : Option TreeEntry) (c : Conflict) (test same : Bool)
    → CarriesOne path b o t (ok (some c))
    → CarriesOne path b o t (if test then (if same then ok none else ok (some c)) else ok none)
changed path b o t c true same h = unless path b o t c same h
changed path b o t c false same h = tt

categorize-CarriesOne :
    (path : Name) (b o t : Option TreeEntry) → CarriesOne path b o t (categorize path b o t)
unfolding categorize
categorize-CarriesOne path (some b) (some o) (some t) =
    changed path (some b) (some o) (some t) _
      (not (bytes_eq b.oid o.oid) && not (bytes_eq b.oid t.oid)) (bytes_eq o.oid t.oid)
      (refl, refl, refl, refl)
categorize-CarriesOne path (some b) (some o) none =
    when path (some b) (some o) none _ (not (bytes_eq b.oid o.oid)) (refl, refl, refl, refl)
categorize-CarriesOne path (some b) none (some t) =
    when path (some b) none (some t) _ (not (bytes_eq b.oid t.oid)) (refl, refl, refl, refl)
categorize-CarriesOne path none (some o) (some t) =
    unless path none (some o) (some t) _ (bytes_eq o.oid t.oid) (refl, refl, refl, refl)
categorize-CarriesOne path (some b) none none = tt
categorize-CarriesOne path none (some o) none = tt
categorize-CarriesOne path none none (some t) = tt
categorize-CarriesOne path none none none = tt

module _ (base ours theirs : Tree) where
  Carries-one :
      (path : Name) (c : Conflict)
      → CarriesOne path (get path base) (get path ours) (get path theirs) (ok (some c))
      → Carries base ours theirs c
  Carries-one path c (same, b, o, t) = (
    b ∙ ap (λ (x : Name). side (get x base)) (sym same),
    o ∙ ap (λ (x : Name). side (get x ours)) (sym same),
    t ∙ ap (λ (x : Name). side (get x theirs)) (sym same),
  )

  push-Carries :
      (path : Name) (one : Result ConflictError (Option Conflict))
      (rest : Result ConflictError (List Conflict))
      → CarriesOne path (get path base) (get path ours) (get path theirs) one
      → OnOk (All (Carries base ours theirs)) rest
      → OnOk (All (Carries base ours theirs)) (do c ← one; cs ← rest; ok (push_some c cs))
  push-Carries path (ok none) (ok cs) h hs = hs
  push-Carries path (ok (some c)) (ok cs) h hs = (Carries-one path c h, hs)
  push-Carries path (ok c) (err e) h hs = tt
  push-Carries path (ok c) panic h hs = tt
  push-Carries path (err e) rest h hs = tt
  push-Carries path panic rest h hs = tt

  detected :
      (paths : List Name)
      → OnOk (All (Carries base ours theirs)) (detect_conflicts paths base ours theirs)
  unfolding detect_conflicts
  detected [] = tt
  detected (path ∷ paths) =
      push-Carries path (categorize path (get path base) (get path ours) (get path theirs))
        (detect_conflicts paths base ours theirs)
        (categorize-CarriesOne path (get path base) (get path ours) (get path theirs))
        (detected paths)

  -- Over any enumeration of the paths of the three trees, `detect_conflicts` ends without an
  -- error, and each conflict that it reports carries as its three sides the entries of the three
  -- trees at its path, a side being absent exactly where the entry is.
  pub detect_conflicts-Carries :
      (paths : List Name)
      → Enumerates base ours theirs paths
      → (cs : List Conflict) × (detect_conflicts paths base ours theirs ≡ ok cs)
        × All (Carries base ours theirs) cs
  detect_conflicts-Carries paths all =
      let (cs, e, _) = detect_conflicts_exact base ours theirs paths all in
      (cs, e, rw e at (detected paths))
