-- ===== src/Tests/WalletRuns.antt =====
-- Payments from three coins, as the tests of crates/wallet-core/src/wallet.rs plan them.
use fortis.Common.{
  ℕ, ◌+◌, ◌≡◌, refl, true, false, none, some, List, [], ◌∷◌, map, Result, ok, ◌==◌, keep, insert_by,
  sort_by,
}
use fortis.Error.{add_amounts, WalletError}
use fortis.Wallet.{
  Scripts, Utxo, TxOut, ServiceFee, FundingPlan, varint_len, check_feerate, sum_from, checked_sum,
  amount_sat, fee_output, check_service_fee, check_not_dust, output_vb, outputs_vb, assemble,
}
use fortis.Wallet.Plan.{
  base_vb, largest_first, select, plan_with_change, fee_no_change, fee_with_change, round_whole,
  round_from, payment_round,
}
use fortis.Wallet.View.{
  WalletView, fee_output_of, fee_on_total, advance, recipient_of, outputs_to, inclusive_change,
  inclusive_round, split_dest, single_dest,
}
use fortis.Wallet.Planners.{
  payment_job, plan_exclusive, inclusive_job, plan_payment_fee_inclusive, plan_payment, sweep_to,
  sweep_fee, plan_sweep,
}
use fortis.Wallet.Conservation.{paid, plan_payment-IsBalanced}
use fortis.Wallet.Selection.{total}
use fortis.Wallet.Shortage.{eligible}
use fortis.Wallet.Sweep.{Sweeps, plan_sweep-Sweeps}
use fortis.Wallet.Carving.{Carves, plan_payment-Carves}

-- A script is a tag: 0 for data, any other for an address of 22 bytes.
abbrev scripts : Scripts
scripts = record {
  Script = ℕ;
  len = λ s. 22;
  is_op_return = λ s. s == 0;
  minimal_non_dust = λ s. 294;
}

abbrev address_at : ℕ → ℕ → Result WalletError ℕ
address_at branch index = ok (100 + index)

abbrev coin : ℕ → ℕ → ℕ → Utxo scripts
coin id sats confs = record {
  outpoint = (id, 0);
  value = sats;
  script_pubkey = 7;
  confirmations = confs;
  derivation_index = id;
  is_change = false;
}

abbrev coins : List (Utxo scripts)
coins = coin 1 60_000 3 ∷ coin 2 100_000 3 ∷ coin 3 900_000 0 ∷ []

abbrev pay_to : ℕ → ℕ → TxOut scripts
pay_to spk sats = record { value = sats; script_pubkey = spk }

abbrev view : WalletView
view = record { next_receive = 4; next_change = 5 }

abbrev next_view : WalletView
next_view = record { next_receive = 4; next_change = 6 }

abbrev service : ServiceFee scripts
service = record { bps = 100; floor_sat = 500; cap_sat = 0; fee_spk = 9 }

-- 130,000 and 1,300 of service fee from two coins at 2 sat/vB, with change.
abbrev with_change : FundingPlan scripts
with_change = record {
  tx = record {
    input = (2, 0) ∷ (1, 0) ∷ [];
    output = pay_to 8 130_000 ∷ pay_to 9 1_300 ∷ pay_to 105 28_220 ∷ [];
  };
  selected = coin 2 100_000 3 ∷ coin 1 60_000 3 ∷ [];
  fee = 480;
  change = some 28_220;
  service_fee = some 1_300;
  change_derivation_index = some 5;
}

pays_with_change :
    plan_payment scripts address_at coins (pay_to 8 130_000 ∷ []) 2 1 (some service) false view
    ≡ ok (with_change, next_view)
unfolding plan_payment check_feerate check_service_fee check_not_dust checked_sum sum_from
    amount_sat fee_output fee_output_of fee_on_total plan_exclusive payment_job largest_first
    sort_by insert_by keep select payment_round round_from round_whole fee_with_change fee_no_change
    base_vb output_vb outputs_vb varint_len plan_with_change assemble advance
pays_with_change = refl

plan_payment-IsBalanced_example :
    (with_change.tx.input ≡ map (λ u. u.outpoint) with_change.selected)
    × (paid scripts with_change.tx.output + with_change.fee ≡ total scripts with_change.selected)
plan_payment-IsBalanced_example =
    plan_payment-IsBalanced scripts address_at coins (pay_to 8 130_000 ∷ []) 2 1 (some service) view
      next_view with_change pays_with_change

-- The fees come out of 90,000, with data in front of the destination.
abbrev carved : FundingPlan scripts
carved = record {
  tx = record {
    input = (2, 0) ∷ [];
    output = pay_to 0 0 ∷ pay_to 8 88_694 ∷ pay_to 9 900 ∷ pay_to 105 10_000 ∷ [];
  };
  selected = coin 2 100_000 3 ∷ [];
  fee = 406;
  change = some 10_000;
  service_fee = some 900;
  change_derivation_index = some 5;
}

pays_carved :
    plan_payment scripts address_at coins
      (pay_to 0 0 ∷ pay_to 8 90_000 ∷ [])
      2
      1
      (some service)
      true
      view
    ≡ ok (carved, next_view)
unfolding plan_payment check_feerate check_service_fee check_not_dust amount_sat fee_output
    fee_output_of plan_payment_fee_inclusive single_dest split_dest keep inclusive_job largest_first
    sort_by insert_by select inclusive_round inclusive_change recipient_of outputs_to base_vb
    output_vb outputs_vb varint_len plan_with_change assemble advance
pays_carved = refl

plan_payment-Carves_example :
    Carves scripts address_at coins
      (pay_to 0 0 ∷ pay_to 8 90_000 ∷ [])
      2
      1
      (some service)
      view
      next_view
      carved
plan_payment-Carves_example =
    plan_payment-Carves scripts address_at coins (pay_to 0 0 ∷ pay_to 8 90_000 ∷ []) 2 1
      (some service) view next_view carved pays_carved

-- 160,000 less 418 of fee (11 + 2 * 68 + 2 * 31 = 209 vB) and 1,600 of service fee.
abbrev swept_out : FundingPlan scripts
swept_out = record {
  tx = record { input = (1, 0) ∷ (2, 0) ∷ []; output = pay_to 8 157_982 ∷ pay_to 9 1_600 ∷ [] };
  selected = coin 1 60_000 3 ∷ coin 2 100_000 3 ∷ [];
  fee = 418;
  change = none;
  service_fee = some 1_600;
  change_derivation_index = none;
}

sweeps_out : plan_sweep scripts coins 8 2 1 (some service) ≡ ok swept_out
unfolding plan_sweep check_feerate check_service_fee checked_sum sum_from amount_sat fee_output
    fee_output_of keep sweep_to sweep_fee add_amounts base_vb output_vb varint_len assemble
sweeps_out = refl

plan_sweep-Sweeps_example :
    Sweeps scripts
      (eligible scripts 1 coins)
      8
      2
      (fee_output_of scripts (some service) (total scripts (eligible scripts 1 coins)))
      swept_out
plan_sweep-Sweeps_example =
    plan_sweep-Sweeps scripts coins 8 2 1 (some service) swept_out sweeps_out

service_accepted : check_service_fee scripts (some service) ≡ ok tt
unfolding check_service_fee
service_accepted = refl

service_output : fee_output scripts service 130_000 ≡ some (pay_to 9 1_300)
unfolding fee_output amount_sat
service_output = refl
