-- ===== src/Common/Int.antt =====
-- Signed integers over the native numbers, read through their two halves: what a number adds and
-- what it takes away.
use Prim.Native.Nat.{ℕ, zero, suc}
use mathlib.Core.Path.{◌≡◌, refl}

pub data ℤ : Type 0 where
  pos : ℕ → ℤ
  negsuc : ℕ → ℤ

-- `-n` for an `n` that is not negative.
unfoldable pub neg : ℕ → ℤ
neg zero = pos 0
neg (suc n) = negsuc n

-- `max(n, 0)`.
unfoldable pub inflow : ℤ → ℕ
inflow (pos n) = n
inflow (negsuc n) = 0

-- `max(-n, 0)`.
unfoldable pub outflow : ℤ → ℕ
outflow (pos n) = 0
outflow (negsuc n) = suc n

pub inflow-neg : (n : ℕ) → inflow (neg n) ≡ 0
unfolding inflow neg
inflow-neg zero = refl
inflow-neg (suc n) = refl

pub outflow-neg : (n : ℕ) → outflow (neg n) ≡ n
unfolding outflow neg
outflow-neg zero = refl
outflow-neg (suc n) = refl
