-- ===== src/Lsp/Conversion.antt =====
-- crates/fortis-lsp/src/conversion.rs: the plan for an account over the cap; and of
-- crates/fortis-lsp/src/account_api.rs the price of a withdrawal and the reserve of a send.
use fortis.Common.{
  ℕ, ◌+◌, ◌-◌, ◌*◌, ◌/◌, ◌≤◌, ◌<◌, ◌≡◌, Bool, true, false, not, ◌||◌, ◌&&◌, Option, none, some, max,
  if◌then◌else◌, ltb, leb, u64, arith, ◌^◌, ◌⊎◌,
}

unfoldable pub conversion_fee_msat : ℕ → ℕ
conversion_fee_msat moved = max (moved / 100) 1000000

pub data Plan : Type 0 where
  no_plan : Plan
  pay_over_channel : (amount_msat : ℕ) → Plan
  open_channel : (channel_sat push_msat : ℕ) → Plan

-- `u64::div_ceil` by 1000.
unfoldable pub sat_ceil : ℕ → ℕ
sat_ceil msat = (msat + 999) / 1000

-- What is left of a balance after the fee, `filter(|m| *m > 0)`.
unfoldable pub moved_of : ℕ → Option ℕ
unfolding conversion_fee_msat
moved_of balance =
    if ltb (conversion_fee_msat balance) balance
    then some (balance - conversion_fee_msat balance)
    else none

unfoldable pub plan_move : ℕ → ℕ → Option ℕ → Plan
unfolding sat_ceil
plan_move room channel_min none = no_plan
plan_move room channel_min (some moved) =
    if leb moved room
    then pay_over_channel moved
    else open_channel (max channel_min (u64 (2 * sat_ceil moved))) moved

unfoldable pub plan : ℕ → ℕ → Bool → ℕ → Bool → ℕ → Plan
unfolding moved_of plan_move
plan balance cap connected room in_progress channel_min =
    if leb balance cap || not connected || in_progress
    then no_plan
    else plan_move room channel_min (moved_of balance)

-- What a plan moves to the user, and what it must leave room for.
abbrev pub Moves : ℕ → ℕ → ℕ → ℕ → Plan → Type 0
Moves balance cap room channel_min no_plan = Unit
Moves balance cap room channel_min (pay_over_channel amount) =
    (cap < balance)
    × (amount + conversion_fee_msat balance ≡ balance)
    × (0 < amount)
    × (amount ≤ room)
Moves balance cap room channel_min (open_channel channel push) =
    (cap < balance)
    × (push + conversion_fee_msat balance ≡ balance)
    × (room < push)
    × (channel_min ≤ channel)
    × (2 * push ≤ 1000 * channel)

unfoldable pub acts : Plan → Bool
acts no_plan = false
acts _ = true

above_fee : (balance : ℕ) → 1000000 < balance → ltb (conversion_fee_msat balance) balance ≡ true
unfolding conversion_fee_msat
above_fee balance h = ground (arith, h)

over_cap : (balance cap : ℕ) → cap < balance → leb balance cap ≡ false
over_cap balance cap h = ground (arith, h)

acts-plan_move :
    (room channel_min moved : ℕ) → acts (plan_move room channel_min (some moved)) ≡ true
unfolding plan_move acts
acts-plan_move room channel_min moved = ground arith

plan_made :
    (balance cap room channel_min : ℕ)
    → cap < balance
    → 1000000 < balance
    → acts (plan balance cap true room false channel_min) ≡ true
unfolding plan
plan_made balance cap room channel_min over enough =
    rw (over_cap balance cap over, above_fee balance enough)
      (acts-plan_move room channel_min (balance - conversion_fee_msat balance))

plan_covers :
    (balance cap : ℕ) (connected : Bool) (room : ℕ) (in_progress : Bool) (channel_min : ℕ)
    → balance < 2 ^ 63
    → Moves balance cap room channel_min (plan balance cap connected room in_progress channel_min)
unfolding plan conversion_fee_msat
plan_covers balance cap connected room in_progress channel_min fits = ground arith

-- Below the wrap of a machine word, a plan acts only on a balance above the cap; what it moves and
-- the fee are the whole balance; it pays over a channel only with room for the amount, and else
-- opens one of at least the minimum and twice what it pushes. And it does act on every balance
-- above the cap and the least fee, if the user is connected and no conversion is in progress.
pub plan-Moves :
    (balance cap : ℕ) (connected : Bool) (room : ℕ) (in_progress : Bool) (channel_min : ℕ)
    → balance < 2 ^ 63
    → Moves balance cap room channel_min (plan balance cap connected room in_progress channel_min)
      × (cap < balance
          → 1000000 < balance
          → acts (plan balance cap true room false channel_min) ≡ true)
plan-Moves balance cap connected room in_progress channel_min fits = (
  plan_covers balance cap connected room in_progress channel_min fits,
  plan_made balance cap room channel_min,
)

-- Withdrawals to an address on the chain.
abbrev withdraw_tx_vbytes : ℕ
withdraw_tx_vbytes = 200

abbrev pub dust_sat : ℕ
dust_sat = 546

pub record Withdrawal : Type 0 where
  pub payout_sat : ℕ
  pub fee_sat : ℕ

unfoldable pub network_fee : ℕ → ℕ
network_fee feerate = u64 (withdraw_tx_vbytes * max feerate 1)

unfoldable pub withdrawal_fee_sat : ℕ → ℕ → ℕ
withdrawal_fee_sat amount net =
    let fee = max (max (amount / 100) 1000) net in
    let share = if ltb (fee - net) dust_sat then 0 else fee - net in net + share

unfoldable pub withdrawal : ℕ → ℕ → Option Withdrawal
unfolding network_fee withdrawal_fee_sat
withdrawal amount feerate =
    let fee = withdrawal_fee_sat amount (network_fee feerate) in
    if leb fee amount && leb dust_sat (amount - fee)
    then some (record { payout_sat = amount - fee; fee_sat = fee })
    else none

unfoldable pub fee_cap_msat : ℕ → ℕ
fee_cap_msat amount = u64 (amount / 100 + 50000)

abbrev pub IsPriced : ℕ → ℕ → Option Withdrawal → Type 0
IsPriced amount feerate (some w) =
    (w.payout_sat + w.fee_sat ≡ amount)
    × (dust_sat ≤ w.payout_sat)
    × (200 * max feerate 1 ≤ w.fee_sat)
    × (w.fee_sat ≤ max (max (amount / 100) 1000) (200 * max feerate 1))
    × ((w.fee_sat ≡ 200 * max feerate 1) ⊎ (200 * max feerate 1 + dust_sat ≤ w.fee_sat))
IsPriced amount feerate none =
    amount < max (max (amount / 100) 1000) (200 * max feerate 1) + dust_sat

-- A withdrawal at an accepted rate: the payout and the fee are the amount, the payout is no dust,
-- the fee covers the network's and is at most the largest of a per cent, 1000 sat and the
-- network's, and what the operator keeps of it is nothing or no dust. There is none only if less
-- than a dust output would be left.
pub withdrawal-IsPriced :
    (amount feerate : ℕ) → feerate ≤ 500 → IsPriced amount feerate (withdrawal amount feerate)
unfolding withdrawal withdrawal_fee_sat network_fee
withdrawal-IsPriced amount feerate ok = ground arith
