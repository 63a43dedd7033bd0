-- ===== src/Wallet/View.antt =====
-- crates/wallet-core/src/wallet.rs: `WalletView` and its planners. `address_at` stands for the
-- derivation of an address' script from the account key, which may fail.
use fortis.Common.{
  ℕ, ◌+◌, ◌-◌, not, ◌&&◌, Option, none, some, List, [], ◌∷◌, ◌++◌, map, Result, ok, err, ◌>>=◌,
  if◌then◌else◌, ltb, leb, sat_add, sat_mul, keep, length, u32,
}
use fortis.Error.{add_amounts, WalletError, invalid_input, insufficient_funds, panicked}
use fortis.Error
use fortis.Wallet.{
  Scripts, TxOut, Utxo, ServiceFee, FundingPlan, fee_output, output_vb, assemble, change_dust_sat,
}
use fortis.Wallet.Plan.{plan_with_change, base_vb, Round}

-- The counters of a `WalletView`; its chain parameters and account key are fixed.
pub record WalletView : Type 0 where
  pub next_receive : ℕ
  pub next_change : ℕ

unfoldable pub set_next_indices : ℕ → ℕ → WalletView → WalletView
set_next_indices r c view = record { next_receive = r; next_change = c }

unfoldable pub next_indices : WalletView → ℕ × ℕ
next_indices view = (view.next_receive, view.next_change)

module _ (S : Scripts) where
  open S use {Script, is_op_return, minimal_non_dust}

  -- The outputs' values.
  abbrev pub values : List (TxOut S) → List ℕ
  values outputs = map (λ o. o.value) outputs

  -- `service_fee.and_then(|sf| sf.output(send))`.
  unfoldable pub fee_output_of : Option (ServiceFee S) → ℕ → Option (TxOut S)
  fee_output_of none send = none
  fee_output_of (some sf) send = fee_output S sf send

  abbrev pub value_of : Option (TxOut S) → ℕ
  value_of none = 0
  value_of (some o) = o.value

  abbrev pub vb_of : Option (TxOut S) → ℕ
  vb_of none = 0
  vb_of (some o) = output_vb S o.script_pubkey

  abbrev pub to_list : Option (TxOut S) → List (TxOut S)
  to_list none = []
  to_list (some o) = o ∷ []

  abbrev pub sat_of : Option (TxOut S) → Option ℕ
  sat_of none = none
  sat_of (some o) = some o.value

  -- The service fee's output for a payment: none where the amounts overflow.
  unfoldable pub fee_on_total : Option (ServiceFee S) → Result WalletError ℕ → Option (TxOut S)
  fee_on_total sf (ok send) = fee_output_of sf send
  fee_on_total sf (err e) = none

  -- `self.next_change += 1`, where the plan has a change output.
  unfoldable pub advance : WalletView → FundingPlan S → WalletView
  advance view plan = bump plan.change_derivation_index
    where
      bump : Option ℕ → WalletView
      bump none = view
      bump (some i) = record view { next_change = u32 (view.next_change + 1) }

  -- A planner's answer with the view that it leaves.
  abbrev pub Planned : Type 0
  Planned = Result WalletError (FundingPlan S × WalletView)

  abbrev pub planned : WalletView → Result WalletError (FundingPlan S) → Planned
  planned view r = do plan ← r; ok (plan, advance view plan)

  -- What a fee-inclusive payment's rounds read: the outputs before and after the destination.
  pub record Inclusive : Type 0 where
    pub before : List (TxOut S)
    pub dest_spk : Script
    pub budget : ℕ
    pub after : List (TxOut S)
    pub sf_out : Option (TxOut S)
    pub non_change_vb : ℕ
    pub feerate : ℕ
    pub change_spk : Script
    pub change_index : ℕ

  -- What is left for the recipient of the budget, where it is not dust.
  unfoldable pub recipient_of : Inclusive → ℕ → Result WalletError ℕ
  recipient_of j net_fee =
      let sf = value_of j.sf_out in
      let r = j.budget - sf - net_fee in
      if leb sf j.budget && leb net_fee (j.budget - sf) && leb (minimal_non_dust j.dest_spk) r
      then ok r
      else do fees ← add_amounts sf net_fee; err (invalid_input (Error.amount_too_small fees))

  -- The outputs with the recipient's value, and the service fee's output.
  unfoldable pub outputs_to : Inclusive → ℕ → List (TxOut S)
  outputs_to j recipient =
      (j.before ++ record { value = recipient; script_pubkey = j.dest_spk } ∷ j.after)
      ++ to_list j.sf_out

  -- A surplus worth an output is change, and the fees come out of the budget.
  unfoldable pub inclusive_change :
      Inclusive → List (Utxo S) → ℕ → Result WalletError (FundingPlan S)
  inclusive_change j selected surplus =
      let net_fee =
        sat_mul (sat_add (base_vb (length selected) j.non_change_vb) (output_vb S j.change_spk))
          j.feerate in
      do
        recipient ← recipient_of j net_fee
        ok (
            plan_with_change S selected (outputs_to j recipient) net_fee surplus j.change_spk
              j.change_index (sat_of j.sf_out))

  -- Any other surplus goes to the fee.
  unfoldable pub inclusive_whole :
      Inclusive → List (Utxo S) → ℕ → Result WalletError (FundingPlan S)
  inclusive_whole j selected acc = do
    recipient ← recipient_of j (sat_mul (base_vb (length selected) j.non_change_vb) j.feerate)
    ok (
        assemble S selected (outputs_to j recipient) (acc - recipient - value_of j.sf_out) none
          (sat_of j.sf_out))

  -- A round of the fee-inclusive loop.
  unfoldable pub inclusive_round : Inclusive → List (Utxo S) → ℕ → Round S
  inclusive_round j selected acc =
      if ltb acc j.budget
      then ok none
      else if leb change_dust_sat (acc - j.budget)
      then (do p ← inclusive_change j selected (acc - j.budget); ok (some p))
      else (do p ← inclusive_whole j selected acc; ok (some p))

  -- The outputs in front of the first that is spendable, that output, and those behind it.
  unfoldable pub split_dest : List (TxOut S) → Option (List (TxOut S) × TxOut S × List (TxOut S))
  split_dest [] = none
  split_dest (o ∷ os) =
      let rest = split_dest os in
      if is_op_return o.script_pubkey
      then elim rest [ none ↦ none | some (b, d, a) ↦ some (o ∷ b, d, a) ]
      else some ([], o, os)

  -- `[i] => *i`: the only spendable output, with those before and after it.
  unfoldable pub single_dest :
      List (TxOut S) → Result WalletError (List (TxOut S) × TxOut S × List (TxOut S))
  single_dest outputs = check (split_dest outputs)
    where
      check :
          Option (List (TxOut S) × TxOut S × List (TxOut S))
          → Result WalletError (List (TxOut S) × TxOut S × List (TxOut S))
      check none = err (invalid_input Error.needs_one_destination)
      check (some (b, d, a)) =
          if leb (length (keep (λ o. not (is_op_return o.script_pubkey)) a)) 0
          then ok (b, d, a)
          else err (invalid_input Error.needs_one_destination)
