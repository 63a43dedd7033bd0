-- ===== src/Wallet.antt =====
-- crates/wallet-core/src/wallet.rs: what a payment is planned from, the fees and the size model.
-- Scripts and their dust limits belong to the bitcoin crate, and are a parameter.
pub mod Plan
pub mod View
pub mod Planners
pub mod Selection
pub mod Rounds
pub mod Payment
pub mod Conservation
pub mod Change
pub mod Fees
pub mod Shortage
pub mod Coins
pub mod Sweep
pub mod Inclusion
pub mod Destination
pub mod Carving
pub mod Service
use fortis.Common.{
  ℕ, ◌+◌, ◌*◌, ◌/◌, min, max, Bool, true, false, not, ◌&&◌, ◌||◌, Option, none, some, List, [], ◌∷◌,
  map, Result, ok, err, ◌>>=◌, ◌>>◌, reject_if, ok_or, if◌then◌else◌, ltb, leb, ◌==◌, u64_max,
  checked_add, sat_add, sat_mul,
}
use fortis.Error.{WalletError, invalid_input}
use fortis.Error

-- The output scripts of the bitcoin crate: length in bytes, whether a script is an OP_RETURN, and
-- the least value that an output to it may carry to be relayed.
pub record Scripts : Type 1 where
  pub Script : Type 0
  pub len : Script → ℕ
  pub is_op_return : Script → Bool
  pub minimal_non_dust : Script → ℕ

abbrev pub max_service_fee_bps : ℕ
max_service_fee_bps = 100

abbrev pub max_service_fee_floor_sat : ℕ
max_service_fee_floor_sat = 2_000

-- `ServiceFee::MAX_BPS`.
abbrev pub max_bps : ℕ
max_bps = 1_000

abbrev pub tx_overhead_vb : ℕ
tx_overhead_vb = 11

abbrev pub p2wpkh_input_vb : ℕ
p2wpkh_input_vb = 68

abbrev pub change_dust_sat : ℕ
change_dust_sat = 294

abbrev pub max_feerate_sat_vb : ℕ
max_feerate_sat_vb = 10_000

-- `Amount::MAX_MONEY` of the bitcoin crate.
abbrev pub max_money : ℕ
max_money = 2_100_000_000_000_000

unfoldable pub varint_len : ℕ → ℕ
varint_len n =
    if leb n 0xFC then 1 else if leb n 0xFFFF then 3 else if leb n 0xFFFFFFFF then 5 else 9

unfoldable pub check_feerate : ℕ → Result WalletError (Unit {0})
check_feerate rate =
    reject_if (rate == 0 || ltb max_feerate_sat_vb rate)
      (invalid_input (Error.feerate_out_of_range rate))

-- `try_fold` with `checked_add`, from an accumulator.
unfoldable pub sum_from : ℕ → List ℕ → Result WalletError ℕ
sum_from acc [] = ok acc
sum_from acc (a ∷ rest) = do
  acc' ← ok_or (checked_add acc a) (invalid_input Error.amount_total_overflows)
  sum_from acc' rest

unfoldable pub checked_sum : List ℕ → Result WalletError ℕ
unfolding sum_from
checked_sum amounts = sum_from 0 amounts

-- `unwrap_or(Amount::MAX_MONEY)`.
abbrev pub or_max_money : Option ℕ → ℕ
or_max_money none = max_money
or_max_money (some a) = a

module _ (S : Scripts) where
  open S use {Script, len, is_op_return, minimal_non_dust}

  pub record TxOut : Type 0 where
    pub value : ℕ
    pub script_pubkey : Script

  pub record Utxo : Type 0 where
    pub outpoint : ℕ × ℕ
    pub value : ℕ
    pub script_pubkey : Script
    pub confirmations : ℕ
    pub derivation_index : ℕ
    pub is_change : Bool

  pub record ServiceFee : Type 0 where
    pub bps : ℕ
    pub floor_sat : ℕ
    pub cap_sat : ℕ
    pub fee_spk : Script

  -- The unsigned transaction: what it spends and what it pays. Version, sequence numbers and lock
  -- time are fixed.
  pub record Tx : Type 0 where
    pub input : List (ℕ × ℕ)
    pub output : List TxOut

  pub record FundingPlan : Type 0 where
    pub tx : Tx
    pub selected : List Utxo
    pub fee : ℕ
    pub change : Option ℕ
    pub service_fee : Option ℕ
    pub change_derivation_index : Option ℕ

  -- The product of a `u64` and at most 1000 fits the `u128` of the source.
  unfoldable pub amount_sat : ServiceFee → ℕ → ℕ
  amount_sat sf send =
      let fee = max (min (send * min sf.bps max_bps / 10_000) u64_max) sf.floor_sat in
      if ltb 0 sf.cap_sat then min fee sf.cap_sat else fee

  unfoldable pub fee_output : ServiceFee → ℕ → Option TxOut
  unfolding amount_sat
  fee_output sf send =
      let sat = amount_sat sf send in
      if sat == 0
      then none
      else some
          (record { value = max sat (minimal_non_dust sf.fee_spk); script_pubkey = sf.fee_spk })

  unfoldable pub check_service_fee : Option ServiceFee → Result WalletError (Unit {0})
  check_service_fee none = ok tt
  check_service_fee (some sf) =
      reject_if (ltb max_service_fee_bps sf.bps || ltb max_service_fee_floor_sat sf.floor_sat)
        (invalid_input Error.service_fee_too_high)

  unfoldable pub check_not_dust : List TxOut → Result WalletError (Unit {0})
  check_not_dust [] = ok tt
  check_not_dust (o ∷ os) = do
    reject_if (not (is_op_return o.script_pubkey) && ltb o.value (minimal_non_dust o.script_pubkey))
        (invalid_input (Error.output_below_dust o.value))
    check_not_dust os

  unfoldable pub output_vb : Script → ℕ
  unfolding varint_len
  output_vb spk = 8 + varint_len (len spk) + len spk

  -- The saturating sum of the sizes of outputs.
  unfoldable pub outputs_vb : List TxOut → ℕ
  outputs_vb [] = 0
  outputs_vb (o ∷ os) = sat_add (output_vb o.script_pubkey) (outputs_vb os)

  balance_from : ℕ → List Utxo → ℕ
  balance_from acc [] = acc
  balance_from acc (u ∷ us) = balance_from (or_max_money (checked_add acc u.value)) us

  unfoldable pub balance : List Utxo → ℕ
  unfolding balance_from
  balance us = balance_from 0 us

  unfoldable pub assemble : List Utxo → List TxOut → ℕ → Option ℕ → Option ℕ → FundingPlan
  assemble selected outputs fee change service_fee = record {
    tx = record { input = map (λ u. u.outpoint) selected; output = outputs };
    selected = selected;
    fee = fee;
    change = change;
    service_fee = service_fee;
    change_derivation_index = none;
  }
