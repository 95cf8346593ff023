-- ===== src/Result.antt =====
-- `Result` of the Rust standard library, and the panic of an operation that aborts the thread.
use mediagit_core.Prelude.{
  ℕ, ◌-◌, ◌≤◌, ◌≡◌, refl, List, length, take, drop, Bool, true, false, leb, ◌&&◌, if◌then◌else◌,
  le→leb, leb→le, arith,
}

pub data Result {ℓ κ} (E : Type ℓ) (A : Type κ) : Type (ℓ ⊔ κ) where
  ok : A → Result E A
  err : E → Result E A
  panic : Result E A

-- The operator `?`: an error leaves the function, and so does a panic.
infixl 5 ◌>>=◌ ◌>>◌
abbrev pub ◌>>=◌ {ℓ κ μ} :
    {E : Type ℓ} {A : Type κ} {B : Type μ} → Result E A → (A → Result E B) → Result E B
ok a >>= f = f a
err e >>= f = err e
panic >>= f = panic

abbrev pub ◌>>◌ {ℓ κ} : {E : Type ℓ} {B : Type κ} → Result E (Unit {0}) → Result E B → Result E B
m >> k = m >>= λ _. k

-- An early return with an error where the test fails.
abbrev pub ensure {ℓ} : {E : Type ℓ} → Bool → E → Result E (Unit {0})
ensure true e = ok tt
ensure false e = err e

-- `map_err`.
abbrev pub map_err {ℓ κ μ} :
    {E : Type ℓ} {F : Type κ} {A : Type μ} → (E → F) → Result E A → Result F A
map_err f (ok a) = ok a
map_err f (err e) = err (f e)
map_err f panic = panic

-- `&data[a..b]` panics where the range is reversed or ends behind the data.
unfoldable pub slice {ℓ} : {E : Type ℓ} → ℕ → ℕ → List ℕ → Result E (List ℕ)
slice a b bytes =
    if leb a b && leb b (length bytes) then ok (take (b - a) (drop a bytes)) else panic

-- A range within the data is cut without a panic.
pub slice_within {ℓ} :
    {E : Type ℓ} (a b : ℕ) (bytes : List ℕ)
    → a ≤ b
    → b ≤ length bytes
    → slice {E = E} a b bytes ≡ ok (take (b - a) (drop a bytes))
unfolding slice
slice_within a b bytes h k = rw (le→leb a b h, le→leb b (length bytes) k)

-- What a successful step tells of its parts.
pub bind_ok {ℓ κ μ} :
    {E : Type ℓ} {A : Type κ} {B : Type μ} (m : Result E A) (f : A → Result E B) (b : B)
    → (m >>= f) ≡ ok b
    → (a : A) × (m ≡ ok a) × (f a ≡ ok b)
bind_ok (ok a) f b h = (a, refl, h)
bind_ok (err e) f b h = cc h
bind_ok panic f b h = cc h

pub ensure_ok {ℓ κ} :
    {E : Type ℓ} {B : Type κ} (test : Bool) (e : E) (k : Result E B) (b : B)
    → (ensure test e >> k) ≡ ok b
    → (test ≡ true) × (k ≡ ok b)
ensure_ok true e k b h = (refl, h)
ensure_ok false e k b h = cc h

pub ok_inj {ℓ κ} : {E : Type ℓ} {A : Type κ} (a b : A) → ◌≡◌ {A = Result E A} (ok a) (ok b) → a ≡ b
ok_inj a b h = cc h

pub slice_ok {ℓ} :
    {E : Type ℓ} (a b : ℕ) (bytes part : List ℕ) → slice {E = E} a b bytes ≡ ok part → a ≤ b
unfolding slice
slice_ok a b bytes part h = ground (arith, leb→le a b)
