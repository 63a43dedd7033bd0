-- ===== src/Error.antt =====
-- crates/wallet-core/src/error.rs: the errors of the wallet core. The text of a message is a
-- constructor of `Reason`, one for each message that the modelled code writes.
use Prim.Native.String.{String}
use fortis.Common.{ℕ, Result, ok_or, checked_add}

pub data Reason : Type 0 where
  unknown_network : String → Reason
  wrong_network : Reason
  unknown_contract_version : ℕ → Reason
  dated_in_future : Reason
  zero_limit_price : Reason
  price_out_of_range : Reason
  worse_than_limit : Reason
  amount_mismatch : Reason
  below_minimum : Reason
  unexpected_fee : Reason
  unexpected_confirmations : Reason
  locktime_mismatch : Reason
  unexpected_deadlines : Reason
  accept_deadline_passed : Reason
  amount_total_overflows : Reason
  selected_value_overflows : Reason
  feerate_out_of_range : ℕ → Reason
  output_below_dust : ℕ → Reason
  service_fee_too_high : Reason
  needs_one_destination : Reason
  amount_too_small : ℕ → Reason
  no_feerates : Reason
  preimage_mismatch : Reason
  key_mismatch : Reason
  no_release : Reason
  release_not_one_input : Reason
  release_other_outpoint : Reason

pub data WalletError : Type 0 where
  terms_rejected : Reason → WalletError
  invalid_input : Reason → WalletError
  invalid_swap_params : Reason → WalletError
  insufficient_funds : (need have : ℕ) → WalletError
  contract_mismatch : WalletError
  swap_state : WalletError
  -- Not a value of the source's type: the overflow panic of the bitcoin crate's `Amount`.
  panicked : WalletError

-- `Amount + Amount`, which panics on overflow.
unfoldable pub add_amounts : ℕ → ℕ → Result WalletError ℕ
add_amounts a b = ok_or (checked_add a b) panicked
