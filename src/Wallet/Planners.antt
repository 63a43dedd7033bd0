-- ===== src/Wallet/Planners.antt =====
-- crates/wallet-core/src/wallet.rs: the planners of a `WalletView`.
use fortis.Common.{
  ℕ, ◌+◌, ◌-◌, Bool, false, not, ◌&&◌, Option, none, List, [], ◌∷◌, ◌++◌, map, Result, ok, ◌>>=◌,
  ◌>>◌, reject_if, if◌then◌else◌, leb, sat_add, sat_mul, keep, length, u32, u64,
}
use fortis.Error.{add_amounts, WalletError, insufficient_funds}
use fortis.Wallet.{
  Scripts, TxOut, Utxo, ServiceFee, FundingPlan, checked_sum, check_feerate, check_service_fee,
  check_not_dust, output_vb, outputs_vb, assemble, change_dust_sat,
}
use fortis.Wallet.Plan.{Job, largest_first, select, payment_round, payment_short, base_vb}
use fortis.Wallet.View.{
  WalletView, Planned, planned, Inclusive, inclusive_round, single_dest, fee_output_of,
  fee_on_total, values, value_of, vb_of, to_list, sat_of,
}

module _ (S : Scripts) (address_at : ℕ → ℕ → Result WalletError S.Script) where
  open S use {Script, is_op_return}

  -- What is outside the branches: the job of a payment to outputs that include the service fee's.
  unfoldable pub payment_job : List (TxOut S) → Option ℕ → ℕ → WalletView → ℕ → Script → Job S
  payment_job outputs service_fee feerate view target change_spk = record {
    outputs = outputs;
    target = target;
    outs_vb = outputs_vb S outputs;
    feerate = feerate;
    change_spk = change_spk;
    change_index = view.next_change;
    service_fee = service_fee;
  }

  -- `plan_payment` from the service fee's output on.
  unfoldable pub plan_exclusive :
      List (Utxo S)
      → List (TxOut S)
      → ℕ
      → ℕ
      → Option (TxOut S)
      → WalletView
      → Result WalletError (FundingPlan S)
  plan_exclusive utxos requested feerate min_confirmations fee_out view =
      let outputs = requested ++ to_list S fee_out in
      do
        target ← checked_sum (values S outputs)
        change_spk ← address_at 1 view.next_change
        let j = payment_job outputs (sat_of S fee_out) feerate view target change_spk
        select S (payment_round S j) (payment_short S j) (largest_first S min_confirmations utxos)
            [] 0

  unfoldable pub inclusive_job :
      List (TxOut S) × TxOut S × List (TxOut S)
      → Option (TxOut S)
      → ℕ
      → WalletView
      → Script
      → Inclusive S
  inclusive_job (b, d, a) sf_out feerate view change_spk = record {
    before = b;
    dest_spk = d.script_pubkey;
    budget = d.value;
    after = a;
    sf_out = sf_out;
    non_change_vb = sat_add (outputs_vb S (b ++ d ∷ a)) (vb_of S sf_out);
    feerate = feerate;
    change_spk = change_spk;
    change_index = view.next_change;
  }

  unfoldable pub plan_payment_fee_inclusive :
      List (Utxo S)
      → List (TxOut S)
      → ℕ
      → ℕ
      → Option (ServiceFee S)
      → WalletView
      → Result WalletError (FundingPlan S)
  plan_payment_fee_inclusive utxos outputs feerate min_confirmations service_fee view = do
    (b, d, a) ← single_dest S outputs
    change_spk ← address_at 1 view.next_change
    let j = inclusive_job (b, d, a) (fee_output_of S service_fee d.value) feerate view change_spk
    select S (inclusive_round S j) (λ _ have. insufficient_funds d.value have)
        (largest_first S min_confirmations utxos) [] 0

  unfoldable pub plan_payment :
      List (Utxo S) → List (TxOut S) → ℕ → ℕ → Option (ServiceFee S) → Bool → WalletView → Planned S
  plan_payment utxos outputs feerate min_confirmations service_fee fee_from_amount view = do
    check_feerate feerate
    check_service_fee S service_fee
    check_not_dust S outputs
    planned S view (
        if fee_from_amount
        then plan_payment_fee_inclusive utxos outputs feerate min_confirmations service_fee view
        else plan_exclusive utxos outputs feerate min_confirmations
            (fee_on_total S service_fee (checked_sum (values S outputs))) view)

  -- `contract.funding_output()` is the output of the contract.
  unfoldable pub plan_htlc_funding : List (Utxo S) → TxOut S → ℕ → ℕ → WalletView → Planned S
  unfolding plan_payment
  plan_htlc_funding utxos funding_output feerate min_confirmations view =
      plan_payment utxos (funding_output ∷ []) feerate min_confirmations none false view

  next_address : ℕ → ℕ → (ℕ → WalletView) → Result WalletError (Script × WalletView)
  next_address branch index moved = do a ← address_at branch index; ok (a, moved (u32 (index + 1)))

  unfoldable pub next_receive_address : WalletView → Result WalletError (Script × WalletView)
  unfolding next_address
  next_receive_address view =
      next_address 0 view.next_receive (λ i. record view { next_receive = i })

  unfoldable pub next_change_address : WalletView → Result WalletError (Script × WalletView)
  unfolding next_address
  next_change_address view = next_address 1 view.next_change (λ i. record view { next_change = i })

module _ (S : Scripts) where
  open S use {Script}

  -- What a sweep pays, or the error where fees leave less than dust.
  unfoldable pub sweep_to :
      Script → List (Utxo S) → ℕ → Option (TxOut S) → ℕ → Result WalletError (FundingPlan S)
  sweep_to dest selected total fee_out fee =
      let v = total - fee - value_of S fee_out in
      do
        fees ← add_amounts fee (value_of S fee_out)
        reject_if
            (not (leb fee total && leb (value_of S fee_out) (total - fee) && leb change_dust_sat v))
            (insufficient_funds (u64 (fees + change_dust_sat)) total)
        ok (
            assemble S selected (record { value = v; script_pubkey = dest } ∷ to_list S fee_out) fee
              none (sat_of S fee_out))

  unfoldable pub sweep_fee : Script → ℕ → Option (TxOut S) → ℕ → ℕ
  sweep_fee dest n fee_out feerate =
      sat_mul (sat_add (base_vb n (output_vb S dest)) (vb_of S fee_out)) feerate

  unfoldable pub plan_sweep :
      List (Utxo S) → Script → ℕ → ℕ → Option (ServiceFee S) → Result WalletError (FundingPlan S)
  unfolding sweep_fee
  plan_sweep utxos dest feerate min_confirmations service_fee =
      let selected = keep (λ u. leb min_confirmations u.confirmations) utxos in
      do
        check_feerate feerate
        check_service_fee S service_fee
        reject_if (leb (length selected) 0) (insufficient_funds 1 0)
        total ← checked_sum (map (λ u. u.value) selected)
        let fee_out = fee_output_of S service_fee total
        sweep_to dest selected total fee_out (sweep_fee dest (length selected) fee_out feerate)
