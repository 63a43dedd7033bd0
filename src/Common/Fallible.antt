-- ===== src/Common/Fallible.antt =====
-- Rust's `Result`: a value or an error, with the chain that `?` makes.
use mathlib.Core.Path.{◌≡◌, refl}
use mathlib.Core.Logic.{◌≢◌}
use mathlib.Core.Bool.{Bool, true, false}
use mathlib.Core.Option.{Option, none, some}

pub data Result {ℓ κ} (E : Type κ) (A : Type ℓ) : Type (ℓ ⊔ κ) where
  ok : A → Result E A
  err : E → Result E A

infixl 5 ◌>>=◌ ◌>>◌
abbrev pub ◌>>=◌ {ℓ κ μ} :
    {E : Type μ} {A : Type ℓ} {B : Type κ} → Result E A → (A → Result E B) → Result E B
ok a >>= f = f a
err e >>= f = err e

abbrev pub ◌>>◌ {κ μ} : {E : Type μ} {B : Type κ} → Result E (Unit {0}) → Result E B → Result E B
ok u >> k = k
err e >> k = err e

-- `if c { return Err(e) }`.
abbrev pub reject_if {μ} : {E : Type μ} → Bool → E → Result E (Unit {0})
reject_if true e = err e
reject_if false e = ok tt

-- `o.ok_or(e)?`.
abbrev pub ok_or {ℓ μ} : {E : Type μ} {A : Type ℓ} → Option A → E → Result E A
ok_or none e = err e
ok_or (some a) e = ok a

-- A check that refuses with no error passes.
pub ok_of_not_err {μ} : {E : Type μ} (m : Result E (Unit {0})) → ((e : E) → m ≢ err e) → m ≡ ok tt
ok_of_not_err (ok u) h = refl
ok_of_not_err (err e) h = absurd (h e refl)

-- A chain that succeeds went through its first step.
pub ok_of_bind :
    {E A B : Type 0} (x : Result E A) (f : A → Result E B) (b : B)
    → (x >>= f) ≡ ok b
    → (a : A) × (x ≡ ok a) × (f a ≡ ok b)
ok_of_bind (ok a) f b h = (a, refl, h)
ok_of_bind (err e) f b h = cc

-- A chain that succeeds passed its checks.
pub passed :
    {E B : Type 0} (c : Bool) (e : E) (k : Result E B) (b : B)
    → (reject_if c e >> k) ≡ ok b
    → (c ≡ false) × (k ≡ ok b)
passed true e k b h = cc
passed false e k b h = (refl, h)

-- A value that is there.
pub some_of_ok : {E A : Type 0} (o : Option A) (e : E) (a : A) → ok_or o e ≡ ok a → o ≡ some a
some_of_ok none e a h = cc
some_of_ok (some b) e a h = cc
