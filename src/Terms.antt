-- ===== src/Terms.antt =====
-- crates/wallet-core/src/swap_terms.rs: the terms of a matched swap, and the check that each wallet
-- runs before it accepts them. Amounts are `u64`, times are `u32` unix seconds.
pub mod Amounts
pub mod Accepted
pub mod Deadlines
use Prim.Native.String.{String}
use text.Mathlib.Text.{◌==◌ as str_eq}
use fortis.Common.{
  ℕ, ◌+◌, ◌-◌, ◌*◌, ◌/◌, min, max, Bool, true, false, not, ◌&&◌, ◌||◌, Result, ok, err, ◌>>=◌, ◌>>◌,
  reject_if, if◌then◌else◌, ltb, leb, ◌==◌, u64_max, u64,
}
pub use fortis.Htlc.{contract_v1, contract_v2}
use fortis.Chain.{ChainParams, bitcoin, blake2b, bitcoin_regtest, blake2b_regtest}
use fortis.Error.{WalletError, terms_rejected}
use fortis.Error

abbrev pub swap_fee_bps : ℕ
swap_fee_bps = 50

abbrev pub swap_fee_floor_sat : ℕ
swap_fee_floor_sat = 400

abbrev pub min_btc_leg_sat : ℕ
min_btc_leg_sat = 2_000

abbrev pub max_price_sat_per_xbt : ℕ
max_price_sat_per_xbt = 2_100_000_000_000_000

abbrev pub xbt_confs_required : ℕ
xbt_confs_required = 6

abbrev pub btc_confs_required : ℕ
btc_confs_required = 2

abbrev pub accept_secs : ℕ
accept_secs = 120

abbrev pub initiator_fund_secs : ℕ
initiator_fund_secs = 1800

abbrev pub min_btc_leg_left_secs : ℕ
min_btc_leg_left_secs = 12 * 3600

abbrev pub locktime_tolerance_secs : ℕ
locktime_tolerance_secs = 600

abbrev pub max_clock_skew_secs : ℕ
max_clock_skew_secs = 600

-- htlc.rs: the versions of the contract script.
abbrev pub sat_per_coin : ℕ
sat_per_coin = 100_000_000

pub record SwapTerms : Type 0 where
  pub match_id : ℕ
  pub network : String
  pub xbt_sat : ℕ
  pub btc_sat : ℕ
  pub price_sat_per_xbt : ℕ
  pub fee_bps : ℕ
  pub fee_address : String
  pub matched_at : ℕ
  pub xbt_locktime : ℕ
  pub btc_locktime : ℕ
  pub xbt_confs : ℕ
  pub btc_confs : ℕ
  pub accept_by : ℕ
  pub initiator_fund_by : ℕ
  pub contract_version : ℕ

-- swap.rs: who funds first.
pub data SwapRole : Type 0 where
  initiator participant : SwapRole

-- The product of two `u64` fits the `u128` that the source widens to.
unfoldable pub btc_for_xbt : ℕ → ℕ → ℕ
btc_for_xbt xbt_sat price = min (xbt_sat * price / sat_per_coin) u64_max

unfoldable pub swap_commission_sat : ℕ → ℕ
swap_commission_sat send_sat = max (u64 (send_sat * swap_fee_bps / 10_000)) swap_fee_floor_sat

-- `-` on the native numbers stops at 0, as `saturating_sub` does.
unfoldable pub participant_fund_latest : SwapTerms → ℕ
participant_fund_latest t =
    let leg = t.btc_locktime - t.matched_at in t.btc_locktime - min min_btc_leg_left_secs (leg / 2)

pub reject {ℓ} : {A : Type ℓ} → Error.Reason → Result WalletError A
reject r = err (terms_rejected r)

-- The parameters of the two legs, `(btc, xbt)`.
unfoldable pub network_params : String → Result WalletError (ChainParams × ChainParams)
unfolding reject
network_params name =
    if str_eq name "bitcoin"
    then ok (bitcoin, blake2b)
    else if str_eq name "regtest"
    then ok (bitcoin_regtest, blake2b_regtest)
    else reject (Error.unknown_network name)

-- swap.rs: the relative lifetimes of the two legs.
pub record SwapTimelocks : Type 0 where
  pub xbt_leg_secs : ℕ
  pub btc_leg_secs : ℕ

unfoldable pub swap_timelocks : ChainParams → ChainParams → SwapTimelocks
swap_timelocks btc xbt = record {
  xbt_leg_secs = xbt.htlc_initiator_locktime_secs;
  btc_leg_secs = btc.htlc_participant_locktime_secs;
}

-- `a.abs_diff(b) <= LOCKTIME_TOLERANCE_SECS`; one of the two differences is 0.
near : ℕ → ℕ → Bool
near actual expected = leb ((actual - expected) + (expected - actual)) locktime_tolerance_secs

is_worse : SwapRole → ℕ → ℕ → Bool
is_worse initiator price limit = ltb price limit
is_worse participant price limit = ltb limit price

unfoldable pub validate_terms : SwapTerms → ℕ → SwapRole → ℕ → Result WalletError (Unit {0})
unfolding near is_worse
validate_terms t limit role now = do
  (btc, xbt) ← network_params t.network
  reject_if (not (t.contract_version == contract_v1 || t.contract_version == contract_v2))
      (terms_rejected (Error.unknown_contract_version t.contract_version))
  reject_if (ltb (now + max_clock_skew_secs) t.matched_at) (terms_rejected Error.dated_in_future)
  reject_if (limit == 0) (terms_rejected Error.zero_limit_price)
  reject_if (t.price_sat_per_xbt == 0 || ltb max_price_sat_per_xbt t.price_sat_per_xbt)
      (terms_rejected Error.price_out_of_range)
  reject_if (is_worse role t.price_sat_per_xbt limit) (terms_rejected Error.worse_than_limit)
  reject_if (not (t.btc_sat == btc_for_xbt t.xbt_sat t.price_sat_per_xbt))
      (terms_rejected Error.amount_mismatch)
  reject_if (ltb t.btc_sat min_btc_leg_sat) (terms_rejected Error.below_minimum)
  reject_if (not (t.fee_bps == swap_fee_bps)) (terms_rejected Error.unexpected_fee)
  reject_if (not (t.xbt_confs == xbt_confs_required) || not (t.btc_confs == btc_confs_required))
      (terms_rejected Error.unexpected_confirmations)
  let tl = swap_timelocks btc xbt
  reject_if
      (not (near t.xbt_locktime (t.matched_at + tl.xbt_leg_secs))
        || not (near t.btc_locktime (t.matched_at + tl.btc_leg_secs)))
      (terms_rejected Error.locktime_mismatch)
  reject_if
      (not (t.accept_by == t.matched_at + accept_secs)
        || not (t.initiator_fund_by == t.accept_by + initiator_fund_secs))
      (terms_rejected Error.unexpected_deadlines)
  reject_if (ltb t.accept_by now) (terms_rejected Error.accept_deadline_passed)

unfoldable pub validate_terms_on :
    SwapTerms → String → ℕ → SwapRole → ℕ → Result WalletError (Unit {0})
validate_terms_on t network limit role now = do
  reject_if (not (str_eq t.network network)) (terms_rejected Error.wrong_network)
  validate_terms t limit role now
