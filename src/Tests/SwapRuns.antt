-- ===== src/Tests/SwapRuns.antt =====
-- A swap of a match's two wallets, at concrete terms.
use fortis.Common.{
  ℕ, ◌+◌, ◌*◌, ◌≤◌, length, subst, Result, ◌≡◌, ◌≢◌, refl, arith, some, List, [], ◌∷◌, ok, any,
}
use fortis.Chain.{xbt, btc, blake2b, sighash_variant, unified}
use fortis.Terms.{initiator, participant}
use fortis.Error.{WalletError, add_amounts}
use fortis.Htlc.{
  Crate, HtlcContract, redeem, release, try_build, script_of, contract_script_v2, funding_output,
  htlc_spend_fee, has_release, sized_path, spend_on, sized_spend, sized_witness, redeem_tx,
  redeem_witness, release_tx, spend_skeleton,
}
use fortis.Swap.{
  SwapParams, settled, refunded, funding_broadcast, counterparty_funded, counterparty_redeemed,
  our_output_confirmed, timelock_expired, new_machine, next_state, on_event, params_from_terms,
  build_our_contract, verify_their_output, push_fee, fees_from, spend_fees,
}
use fortis.Swap.{verify_their_contract, expected_their_contract}
use fortis.Htlc.{
  Output, find_exact_output, position_from, Spend, spend_outputs, refund, refund_tx, guard_of,
  script_hashlock,
}
use fortis.Htlc.Spends.{SpendsAll, try_build-script_hashlock, spend_on-SpendsAll}
use fortis.Swap.Fees.{IsLadder, spend_fees-IsLadder}
use fortis.Swap.Payable.{SizedWithin, spend_fees_total}
use fortis.Swap.Mirror.{build_our_contract-verify_their_output}
use fortis.Swap.Runs.{run, SawRedeem, SawTimeout, run-SawRedeem, run-SawTimeout}
use fortis.Tests.TermsRuns.{mainnet_terms}

-- Every spend has 150 vB, and every script's dust limit is 294.
abbrev crate : Crate
crate = record {
  pubkey_hash = λ k. k + 1_000;
  p2wsh = λ ops. 77;
  guard_script = 5;
  zero_script = 6;
  minimal_non_dust = λ s. 294;
  vsize = λ s. 150;
}

abbrev our_params : SwapParams
our_params = record {
  swap_id = 0;
  role = initiator;
  send_chain = xbt;
  recv_chain = btc;
  send_amount = 100_000_000;
  recv_amount = 1_120_000;
  hashlock = 42;
  our_pubkey_send = 1;
  their_pubkey_send = 3;
  our_pubkey_recv = 2;
  their_pubkey_recv = 4;
  our_contract_locktime = 1_800_172_800;
  their_contract_locktime = 1_800_086_400;
  required_incoming_confs = 2;
  contract_version = 2;
}

abbrev contract : HtlcContract
contract = record {
  version = 2;
  witness_script = contract_script_v2 crate 42 3 1 1_800_172_800;
  script_pubkey = 77;
  value = 100_000_000;
  hashlock = 42;
  locktime = 1_800_172_800;
  sighash_variant = unified;
}

builds :
    build_our_contract crate blake2b
      (new_machine (params_from_terms mainnet_terms initiator (1, 2) (3, 4) 42 0))
    ≡ ok (
      contract,
      record (new_machine (params_from_terms mainnet_terms initiator (1, 2) (3, 4) 42 0)) {
        our_contract = some contract;
      },
    )
unfolding build_our_contract params_from_terms try_build script_of sighash_variant
builds = refl

build_our_contract-verify_their_output_example :
    (some contract ≡ some contract)
    × (verify_their_output crate
          (funding_output contract)
          blake2b
          (new_machine (params_from_terms mainnet_terms participant (3, 4) (1, 2) 42 9))
        ≡ ok
            (record (new_machine (params_from_terms mainnet_terms participant (3, 4) (1, 2) 42 9)) {
              their_contract = some contract;
            }))
build_our_contract-verify_their_output_example =
    build_our_contract-verify_their_output crate blake2b mainnet_terms initiator (1, 2) (3, 4) 42 0
      9 contract
      (record (new_machine (params_from_terms mainnet_terms initiator (1, 2) (3, 4) 42 0)) {
        our_contract = some contract;
      })
      builds

settles :
    (run (new_machine our_params) (
      funding_broadcast 8
      ∷ counterparty_funded 3
      ∷ counterparty_redeemed 7
      ∷ our_output_confirmed 2
      ∷ [])).state
    ≡ settled
unfolding on_event next_state
settles = refl

run-SawRedeem_example : SawRedeem 2 (
    funding_broadcast 8
    ∷ counterparty_funded 3
    ∷ counterparty_redeemed 7
    ∷ our_output_confirmed 2
    ∷ [])
run-SawRedeem_example =
    run-SawRedeem our_params
      (funding_broadcast 8
        ∷ counterparty_funded 3
        ∷ counterparty_redeemed 7
        ∷ our_output_confirmed 2
        ∷ [])
      settles

refunds :
    (run (new_machine our_params) (funding_broadcast 8 ∷ timelock_expired ∷ [])).state ≡ refunded
unfolding on_event next_state
refunds = refl

run-SawTimeout_example : SawTimeout (funding_broadcast 8 ∷ timelock_expired ∷ [])
run-SawTimeout_example =
    run-SawTimeout our_params (funding_broadcast 8 ∷ timelock_expired ∷ []) refunds

-- Of three rates the two highest are the same fee, since 500 is the most.
ladder : spend_fees crate contract release 8 (2 ∷ 500 ∷ 9_000 ∷ []) ≡ ok (300 ∷ 75_000 ∷ [])
unfolding spend_fees fees_from push_fee add_amounts htlc_spend_fee sized_path has_release spend_on
    sized_spend release_tx spend_skeleton any
ladder = refl

spend_fees-IsLadder_example :
    (◌≢◌ {A = List ℕ} (300 ∷ 75_000 ∷ []) []) × IsLadder 100_000_000 294 (300 ∷ 75_000 ∷ [])
spend_fees-IsLadder_example =
    spend_fees-IsLadder crate contract release 8 (2 ∷ 500 ∷ 9_000 ∷ []) (300 ∷ 75_000 ∷ []) ladder

-- A spend has a size that grows with its parts.
abbrev parts_crate : Crate
parts_crate = record crate { vsize = λ s. 60 + 40 * length s.output + 36 * length s.witness }

parts_sized : SizedWithin parts_crate contract redeem 1_000_000
unfolding spend_on sized_spend redeem_tx spend_skeleton spend_outputs sized_witness sized_path
    redeem_witness
parts_sized tx e = subst (λ s. parts_crate.vsize s ≤ 1_000_000) (same_ok _ tx e) (omega arith)
  where
    same_ok : (a b : Spend) → ◌≡◌ {A = Result WalletError Spend} (ok a) (ok b) → a ≡ b
    same_ok a b q = cc

spend_fees_total_example :
    (fees : List ℕ) × (spend_fees parts_crate contract redeem 8 (2 ∷ 500 ∷ []) ≡ ok fees)
spend_fees_total_example =
    spend_fees_total parts_crate contract redeem 8 2 (500 ∷ []) parts_sized (omega arith)
      (omega arith)

made : try_build crate blake2b 2 42 3 1 1_800_172_800 100_000_000 ≡ ok contract
unfolding try_build script_of sighash_variant
made = refl

try_build-script_hashlock_example :
    (script_hashlock contract.witness_script ≡ some 42)
    × (contract.hashlock ≡ 42)
    × (contract.script_pubkey ≡ crate.p2wsh contract.witness_script)
try_build-script_hashlock_example =
    try_build-script_hashlock crate blake2b 2 42 3 1 1_800_172_800 100_000_000 contract made

abbrev refunding : Spend
refunding = record {
  lock_time = 1_800_172_800;
  previous_output = (8, 0);
  witness = [];
  output = record { value = 99_999_700; script_pubkey = 9 } ∷ [];
}

refund_made : spend_on crate contract refund (8, 0) 9 300 ≡ ok refunding
unfolding spend_on refund_tx spend_skeleton spend_outputs guard_of
refund_made = refl

spend_on-SpendsAll_example : SpendsAll crate contract (8, 0) 9 300 1_800_172_800 refunding
spend_on-SpendsAll_example =
    spend_on-SpendsAll crate contract refund (8, 0) 9 300 refunding refund_made

abbrev their_params : SwapParams
their_params = params_from_terms mainnet_terms participant (3, 4) (1, 2) 42 9

-- The second output pays the contract.
abbrev funding : List Output
funding =
    record { value = 100_000_000; script_pubkey = 76 }
    ∷ record { value = 100_000_000; script_pubkey = 77 }
    ∷ []

verified :
    verify_their_contract crate (8, funding) blake2b (new_machine their_params)
    ≡ ok ((8, 1), record (new_machine their_params) { their_contract = some contract })
unfolding verify_their_contract find_exact_output position_from expected_their_contract try_build
    script_of sighash_variant params_from_terms
verified = refl
