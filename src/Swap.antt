-- ===== src/Swap.antt =====
-- crates/wallet-core/src/swap.rs: one wallet's half of a swap, its parameters and its fees.
pub mod Fees
pub mod Payable
pub mod Mirror
pub mod Runs
pub mod Funding
use fortis.Common.{
  ℕ, ◌+◌, ◌-◌, ◌<◌, min, Bool, true, false, not, ◌&&◌, Option, none, some, List, [], ◌∷◌, ◌++◌,
  Result, ok, err, ◌>>=◌, ◌>>◌, reject_if, ok_or, if◌then◌else◌, ltb, leb, ◌==◌, any,
}
use fortis.Chain.{Chain, btc, xbt, ChainParams}
use fortis.Terms.{SwapTerms, SwapRole, initiator, participant}
use fortis.Error.{
  WalletError, invalid_input, insufficient_funds, contract_mismatch, panicked, add_amounts,
}
use fortis.Error
use fortis.Htlc.{
  Crate, HtlcContract, HtlcPath, Output, try_build, find_exact_output, htlc_spend_fee,
}

pub record SwapParams : Type 0 where
  pub swap_id : ℕ
  pub role : SwapRole
  pub send_chain : Chain
  pub recv_chain : Chain
  pub send_amount : ℕ
  pub recv_amount : ℕ
  pub hashlock : ℕ
  pub our_pubkey_send : ℕ
  pub their_pubkey_send : ℕ
  pub our_pubkey_recv : ℕ
  pub their_pubkey_recv : ℕ
  pub our_contract_locktime : ℕ
  pub their_contract_locktime : ℕ
  pub required_incoming_confs : ℕ
  pub contract_version : ℕ

-- `Failed` is never entered by this file's code; its reason is a number.
pub data SwapState : Type 0 where
  negotiated : SwapState
  our_funding_broadcast : (txid : ℕ) → SwapState
  counterparty_funding_confirmed : SwapState
  redeemed : (preimage : ℕ) → SwapState
  settled : SwapState
  refunded : SwapState
  failed : (reason : ℕ) → SwapState

pub data SwapEvent : Type 0 where
  funding_broadcast : (txid : ℕ) → SwapEvent
  counterparty_funded : (confirmations : ℕ) → SwapEvent
  counterparty_redeemed : (preimage : ℕ) → SwapEvent
  our_output_confirmed : (confirmations : ℕ) → SwapEvent
  timelock_expired : SwapEvent

pub record SwapMachine : Type 0 where
  pub params : SwapParams
  pub state : SwapState
  pub our_contract : Option HtlcContract
  pub their_contract : Option HtlcContract
  pub our_outpoint : Option (ℕ × ℕ)
  pub their_outpoint : Option (ℕ × ℕ)

abbrev pub new_machine : SwapParams → SwapMachine
new_machine params = record {
  params = params;
  state = negotiated;
  our_contract = none;
  their_contract = none;
  our_outpoint = none;
  their_outpoint = none;
}

unfoldable pub set_our_outpoint : ℕ × ℕ → SwapMachine → SwapMachine
set_our_outpoint o m = record m { our_outpoint = some o }

unfoldable pub set_their_outpoint : ℕ × ℕ → SwapMachine → SwapMachine
set_their_outpoint o m = record m { their_outpoint = some o }

-- The state after an event, with the confirmations that the terms require.
unfoldable pub next_state : ℕ → SwapState → SwapEvent → SwapState
next_state confs negotiated (funding_broadcast txid) = our_funding_broadcast txid
next_state confs s (counterparty_funded n) =
    if leb confs n then counterparty_funding_confirmed else s
next_state confs s (counterparty_redeemed preimage) = redeemed preimage
next_state confs (redeemed p) (our_output_confirmed n) = if leb confs n then settled else redeemed p
next_state confs (our_funding_broadcast txid) timelock_expired = refunded
next_state confs s e = s

unfoldable pub on_event : SwapEvent → SwapMachine → SwapMachine
on_event e m = record m { state = next_state m.params.required_incoming_confs m.state e }

-- Our side of a match's terms; `ours` and `theirs` are an XBT key and a BTC key.
unfoldable pub params_from_terms :
    SwapTerms → SwapRole → (ours theirs : ℕ × ℕ) → (hashlock swap_id : ℕ) → SwapParams
params_from_terms t initiator (our_xbt, our_btc) (their_xbt, their_btc) hashlock swap_id = record {
  swap_id = swap_id;
  role = initiator;
  send_chain = xbt;
  recv_chain = btc;
  send_amount = t.xbt_sat;
  recv_amount = t.btc_sat;
  hashlock = hashlock;
  our_pubkey_send = our_xbt;
  their_pubkey_send = their_xbt;
  our_pubkey_recv = our_btc;
  their_pubkey_recv = their_btc;
  our_contract_locktime = t.xbt_locktime;
  their_contract_locktime = t.btc_locktime;
  required_incoming_confs = t.btc_confs;
  contract_version = t.contract_version;
}
params_from_terms t participant (our_xbt, our_btc) (their_xbt, their_btc) hashlock swap_id =
    record {
      swap_id = swap_id;
      role = participant;
      send_chain = btc;
      recv_chain = xbt;
      send_amount = t.btc_sat;
      recv_amount = t.xbt_sat;
      hashlock = hashlock;
      our_pubkey_send = our_btc;
      their_pubkey_send = their_btc;
      our_pubkey_recv = our_xbt;
      their_pubkey_recv = their_xbt;
      our_contract_locktime = t.btc_locktime;
      their_contract_locktime = t.xbt_locktime;
      required_incoming_confs = t.xbt_confs;
      contract_version = t.contract_version;
    }

abbrev pub max_swap_feerate_sat_vb : ℕ
max_swap_feerate_sat_vb = 500

-- `HtlcContract::build` panics on a version that no terms carry.
abbrev pub or_panic : Result WalletError HtlcContract → Result WalletError HtlcContract
or_panic (ok c) = ok c
or_panic (err e) = err panicked

-- What one feerate adds to the fees so far.
unfoldable pub push_fee : ℕ → ℕ → List ℕ → ℕ → Result WalletError (List ℕ)
push_fee value dust fees fee = do
  need ← add_amounts fee dust
  reject_if (leb value dust) (insufficient_funds need value)
  let f = min fee (value - dust)
  ok (if any (λ g. g == f) fees then fees else fees ++ f ∷ [])

module _ (B : Crate) where
  unfoldable pub build_our_contract :
      ChainParams → SwapMachine → Result WalletError (HtlcContract × SwapMachine)
  build_our_contract send_params m = do
    let p = m.params
    c ←
        try_build B send_params p.contract_version p.hashlock p.their_pubkey_send p.our_pubkey_send
          p.our_contract_locktime p.send_amount
    ok (c, record m { our_contract = some c })

  unfoldable pub expected_their_contract :
      ChainParams → SwapParams → Result WalletError HtlcContract
  expected_their_contract recv_params p = or_panic (
      try_build B recv_params p.contract_version p.hashlock p.our_pubkey_recv p.their_pubkey_recv
        p.their_contract_locktime p.recv_amount)

  -- The funding transaction is decoded: its id and its outputs.
  unfoldable pub verify_their_contract :
      ℕ × List Output → ChainParams → SwapMachine → Result WalletError ((ℕ × ℕ) × SwapMachine)
  verify_their_contract (txid, outputs) recv_params m = do
    c ← expected_their_contract recv_params m.params
    vout ← ok_or (find_exact_output c outputs m.params.recv_amount) contract_mismatch
    ok ((txid, vout), record m { their_contract = some c })

  unfoldable pub verify_their_output :
      Output → ChainParams → SwapMachine → Result WalletError SwapMachine
  verify_their_output o recv_params m = do
    c ← expected_their_contract recv_params m.params
    reject_if (not (o.script_pubkey == c.script_pubkey && o.value == m.params.recv_amount))
        contract_mismatch
    ok (record m { their_contract = some c })

  unfoldable pub fees_from :
      HtlcContract → HtlcPath → ℕ → List ℕ → List ℕ → Result WalletError (List ℕ)
  fees_from c path dust fees [] = ok fees
  fees_from c path dust fees (rate ∷ rates) = do
    fee ← htlc_spend_fee B c path (min rate max_swap_feerate_sat_vb)
    fees' ← push_fee c.value dust fees fee
    fees_from c path dust fees' rates

  unfoldable pub spend_fees : HtlcContract → HtlcPath → ℕ → List ℕ → Result WalletError (List ℕ)
  spend_fees c path to [] = err (invalid_input Error.no_feerates)
  spend_fees c path to (rate ∷ rates) = fees_from c path (B.minimal_non_dust to) [] (rate ∷ rates)
