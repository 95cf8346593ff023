-- ===== src/Refs/Resolve.antt =====
-- refs.rs: `RefDatabase::resolve` against the chain of symbolic references.
use Prim.Native.Nat.add
use mediagit_core.Prelude.{
  ℕ, zero, suc, ◌+◌, ◌<◌, ◌≤◌, ◌≡◌, ◌↔◌, ◌⊎◌, inl, inr, refl, ap, ◌∙◌, Option, none, some, arith,
}
use mediagit_core.Result.{Result, ok, err, bind_ok, ok_inj}
use mediagit_core.Object.{Oid}
use mediagit_core.Refs.Hex.{Texts}
use mediagit_core.Refs.Disk.{FileSystem}
use mediagit_core.Refs.{Text, Ref, RefType, direct, symbolic, RefError, circular}
use mediagit_core.Refs.Database.{read, followed, resolve_within, resolve}

module _ {S P : Type 0} (texts : Texts) (fs : FileSystem S P) (s : S) where
  -- The name is a symbolic reference to the target.
  abbrev pub PointsTo : Text → Text → Type 0
  PointsTo name target =
      (r : Ref) × (read texts fs name s ≡ ok r) × (r.ref_type ≡ symbolic) × (r.target ≡ some target)

  -- The name is a direct reference to the commit.
  abbrev pub Names : Text → Oid → Type 0
  Names name oid =
      (r : Ref) × (read texts fs name s ≡ ok r) × (r.ref_type ≡ direct) × (r.oid ≡ some oid)

  -- `n` symbolic references lead from one name to another.
  abbrev pub Hops : ℕ → Text → Text → Type 0
  Hops zero name last = name ≡ last
  Hops (suc n) name last = (target : Text) × PointsTo name target × Hops n target last

  -- `n` symbolic references, and then a direct one.
  abbrev pub Chain : ℕ → Text → Oid → Type 0
  Chain zero name oid = Names name oid
  Chain (suc n) name oid = (target : Text) × PointsTo name target × Chain n target oid

  within_direct :
      (depth : ℕ) (name : Text) (oid : Oid)
      → Names name oid
      → resolve_within texts fs (suc depth) name s ≡ ok oid
  unfolding resolve_within
  within_direct depth name oid (r, found, kind, e) = rw (found, followed, kind, e)

  within_symbolic :
      (depth : ℕ) (name target : Text)
      → PointsTo name target
      → resolve_within texts fs (suc depth) name s ≡ resolve_within texts fs depth target s
  unfolding resolve_within
  within_symbolic depth name target (r, found, kind, e) = rw (found, followed, kind, e)

  within-Chain :
      (depth n : ℕ) (name : Text) (oid : Oid)
      → n < depth
      → Chain n name oid
      → resolve_within texts fs depth name s ≡ ok oid
  within-Chain zero n name oid h c = absurd (omega arith)
  within-Chain (suc depth) zero name oid h c = within_direct depth name oid c
  within-Chain (suc depth) (suc n) name oid h (target, p, c) =
      within_symbolic depth name target p ∙ within-Chain depth n target oid (omega arith) c

  within-Hops :
      (depth : ℕ) (name last : Text)
      → Hops depth name last
      → resolve_within texts fs depth name s ≡ err circular
  within-Hops zero name last h = unfold resolve_within in refl
  within-Hops (suc depth) name last (target, p, h) =
      within_symbolic depth name target p ∙ within-Hops depth target last h

  followed_ok :
      (name : Text) (t : RefType) (o : Option Oid) (g : Option Text)
      (next : Text → Result RefError Oid) (oid : Oid)
      → followed texts fs (record { name = name; ref_type = t; oid = o; target = g }) next ≡ ok oid
      → ((t ≡ direct) × (o ≡ some oid))
        ⊎ ((target : Text) × (t ≡ symbolic) × (g ≡ some target) × (next target ≡ ok oid))
  followed_ok name direct none g next oid h = cc h
  followed_ok name direct (some x) g next oid h = inl (refl, ap some (ok_inj x oid h))
  followed_ok name symbolic o none next oid h = cc h
  followed_ok name symbolic o (some x) next oid h = inr (x, refl, refl, h)

  -- What a successful search found.
  found-Chain :
      (depth : ℕ) (name : Text) (oid : Oid)
      → resolve_within texts fs depth name s ≡ ok oid
      → (n : ℕ) × (n < depth) × Chain n name oid
  unfolding resolve_within
  found-Chain zero name oid h = cc h
  found-Chain (suc depth) name oid h =
      let (r, found, next) = bind_ok (read texts fs name s) _ oid h in
      elim (followed_ok r.name r.ref_type r.oid r.target _ oid next) [
        | inl (kind, e) ↦ (0, omega arith, (r, found, kind, e))
        | inr (target, kind, e, rest) ↦
            let (n, few, c) = found-Chain depth target oid rest in
            (suc n, omega arith, (target, (r, found, kind, e), c))
      ]

  -- A name resolves to a commit exactly where fewer than ten symbolic references lead from it to a
  -- direct reference to that commit.
  pub resolve_exact :
      (name : Text) (oid : Oid)
      → (resolve texts fs name s ≡ ok oid) ↔ ((n : ℕ) × (n < 10) × Chain n name oid)
  unfolding resolve
  resolve_exact name oid = (found-Chain 10 name oid, λ c. within-Chain 10 c.0 name oid c.1 c.2)

  Hops-append : (m n : ℕ) (a b c : Text) → Hops m a b → Hops n b c → Hops (m + n) a c
  Hops-append zero n a b c h k = rw (add.zero n, h) k
  Hops-append (suc m) n a b c (t, p, h) k = rw (add.suc m n) (t, p, Hops-append m n t b c h k)

  Hops-shorten : (m n : ℕ) (a b : Text) → m ≤ n → Hops n a b → (t : Text) × Hops m a t
  Hops-shorten zero n a b le h = (a, refl)
  Hops-shorten (suc m) zero a b le h = absurd (omega arith)
  Hops-shorten (suc m) (suc n) a b le (t, p, h) =
      let (u, k) = Hops-shorten m n t b (omega arith) h in (u, (t, p, k))

  rounds : (k : ℕ) (a : Text) → Hops (suc k) a a → (j : ℕ) → (n : ℕ) × (j ≤ n) × Hops n a a
  rounds k a h zero = (0, omega arith, refl)
  rounds k a h (suc j) =
      let (n, le, more) = rounds k a h j in
      (suc k + n, omega arith, Hops-append (suc k) n a a a h more)

  -- A name from which symbolic references lead back to itself is refused as circular.
  pub resolve_cycle :
      (k : ℕ) (name : Text) → Hops (suc k) name name → resolve texts fs name s ≡ err circular
  unfolding resolve
  resolve_cycle k name h =
      let (n, le, around) = rounds k name h 10 in
      let (last, ten) = Hops-shorten 10 n name name le around in within-Hops 10 name last ten
