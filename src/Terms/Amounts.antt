-- ===== src/Terms/Amounts.antt =====
-- crates/wallet-core/src/swap_terms.rs: conversions between the two legs, and the commission.
use native.Mathlib.Nat.{mul-le-mul_right, mul-le-mul_left}
use fortis.Common.{ℕ, ◌+◌, ◌*◌, ◌/◌, ◌≤◌, ◌<◌, ◌≡◌, u64_mod, u64_max, arith, max}
use fortis.Terms.{
  btc_for_xbt, swap_commission_sat, sat_per_coin, swap_fee_floor_sat, min_btc_leg_sat,
}

-- Below saturation the conversion is the product rounded down to whole sats.
pub btc_for_xbt_exact :
    (x p : ℕ)
    → x * p / sat_per_coin ≤ u64_max
    → (btc_for_xbt x p * sat_per_coin ≤ x * p) × (x * p < (btc_for_xbt x p + 1) * sat_per_coin)
unfolding btc_for_xbt
btc_for_xbt_exact x p h = (omega arith, omega arith)

pub btc_for_xbt-lt : (x p : ℕ) → btc_for_xbt x p < u64_mod
unfolding btc_for_xbt
btc_for_xbt-lt x p = omega arith

-- More XBT is never worth fewer BTC sats, at the same or a higher price.
pub btc_for_xbt_mono : {x y p q : ℕ} → x ≤ y → p ≤ q → btc_for_xbt x p ≤ btc_for_xbt y q
unfolding btc_for_xbt
btc_for_xbt_mono {x} {y} {p} {q} h k = omega (arith, mul-le-mul_right p h, mul-le-mul_left y k)

-- The commission on any amount that a `u64` holds is half a percent rounded down, with the floor
-- where that is less; it is never wrapped by the cast.
pub swap_commission_lem :
    (s : ℕ) → s < u64_mod → swap_commission_sat s ≡ max (s / 200) swap_fee_floor_sat
unfolding swap_commission_sat
swap_commission_lem s h = omega arith

-- On a leg of at least the minimum size the commission takes at most a fifth of it, and never less
-- than the floor.
pub swap_commission_bounds :
    (s : ℕ)
    → s < u64_mod
    → min_btc_leg_sat ≤ s
    → (swap_fee_floor_sat ≤ swap_commission_sat s) × (5 * swap_commission_sat s ≤ s)
swap_commission_bounds s h m = omega (arith, swap_commission_lem s h)
