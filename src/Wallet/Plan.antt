-- ===== src/Wallet/Plan.antt =====
-- crates/wallet-core/src/wallet.rs: the coin selection that the planners share, and the plan
-- that one round of `plan_payment` makes.
use fortis.Common.{
  ℕ, ◌+◌, ◌-◌, max, ◌&&◌, Option, none, some, List, [], ◌∷◌, ◌++◌, Result, ok, err, ◌>>=◌, ok_or,
  if◌then◌else◌, leb, checked_add, sat_add, sat_mul, keep, sort_by, length,
}
use fortis.Error.{WalletError, invalid_input, insufficient_funds}
use fortis.Error
use fortis.Wallet.{
  Scripts, TxOut, Utxo, FundingPlan, checked_sum, output_vb, assemble, tx_overhead_vb,
  p2wpkh_input_vb, change_dust_sat, max_money,
}

-- `TX_OVERHEAD_VB + n * P2WPKH_INPUT_VB + outputs`, saturating.
unfoldable pub base_vb : ℕ → ℕ → ℕ
base_vb n outs_vb = sat_add (sat_add tx_overhead_vb (sat_mul n p2wpkh_input_vb)) outs_vb

-- `unwrap_or(Amount::MAX_MONEY)`.
abbrev pub or_max_money : {E : Type 0} → Result E ℕ → ℕ
or_max_money (ok n) = n
or_max_money (err e) = max_money

module _ (S : Scripts) where
  open S use {Script}

  -- The coins that are deep enough, the largest first.
  unfoldable pub largest_first : ℕ → List (Utxo S) → List (Utxo S)
  largest_first min_confirmations utxos =
      sort_by (λ x y. leb y.value x.value) (keep (λ u. leb min_confirmations u.confirmations) utxos)

  -- The answer of a loop's round: a plan, or on to the next coin.
  abbrev pub Round : Type 0
  Round = Result WalletError (Option (FundingPlan S))

  abbrev pub answer_or :
      Option (FundingPlan S)
      → Result WalletError (FundingPlan S)
      → Result WalletError (FundingPlan S)
  answer_or (some p) rest = ok p
  answer_or none rest = rest

  -- The loop over the eligible coins (`acc + u.value` is the checked sum): `round` looks at the coins selected so far and their
  -- value, `fell_short` is the error when no coin is left.
  unfoldable pub select :
      (List (Utxo S) → ℕ → Result WalletError (Option (FundingPlan S)))
      → (List (Utxo S) → ℕ → WalletError)
      → List (Utxo S)
      → List (Utxo S)
      → ℕ
      → Result WalletError (FundingPlan S)
  select round fell_short [] selected acc = err (fell_short selected acc)
  select round fell_short (u ∷ us) selected acc =
      let rest = select round fell_short us (selected ++ u ∷ []) (acc + u.value) in
      do
        acc' ← ok_or (checked_add acc u.value) (invalid_input Error.selected_value_overflows)
        r ← round (selected ++ u ∷ []) acc'
        answer_or r rest

  -- What a payment's rounds read.
  pub record Job : Type 0 where
    pub outputs : List (TxOut S)
    pub target : ℕ
    pub outs_vb : ℕ
    pub feerate : ℕ
    pub change_spk : Script
    pub change_index : ℕ
    pub service_fee : Option ℕ

  -- A plan with a change output at the end of `outputs`.
  unfoldable pub plan_with_change :
      List (Utxo S) → List (TxOut S) → ℕ → ℕ → Script → ℕ → Option ℕ → FundingPlan S
  plan_with_change selected outputs fee change change_spk change_index service_fee =
      record (assemble S selected
        (outputs ++ record { value = change; script_pubkey = change_spk } ∷ []) fee (some change)
        service_fee) { change_derivation_index = some change_index }

  unfoldable pub fee_no_change : Job → ℕ → ℕ
  unfolding base_vb
  fee_no_change j n = sat_mul (base_vb n j.outs_vb) j.feerate

  unfoldable pub fee_with_change : Job → ℕ → ℕ
  unfolding base_vb
  fee_with_change j n = sat_mul (sat_add (base_vb n j.outs_vb) (output_vb S j.change_spk)) j.feerate

  -- What the payment loop reports when the coins fell short.
  unfoldable pub payment_short : Job → List (Utxo S) → ℕ → WalletError
  payment_short j selected acc =
      insufficient_funds
        (or_max_money (checked_sum (j.target ∷ fee_no_change j (max (length selected) 1) ∷ []))) acc

  -- A round without a change output: the surplus, less than a change output costs, is fee.
  unfoldable pub round_whole : Job → List (Utxo S) → ℕ → Round
  round_whole j selected acc = do
    least ← checked_sum (j.target ∷ fee_no_change j (length selected) ∷ [])
    if leb least acc
        then ok (some (assemble S selected j.outputs (acc - j.target) none j.service_fee))
        else ok none

  unfoldable pub round_from : Job → List (Utxo S) → ℕ → ℕ → Round
  round_from j selected acc need_with_change =
      if leb need_with_change acc && leb change_dust_sat (acc - need_with_change)
      then ok (
          some (
            plan_with_change selected j.outputs (fee_with_change j (length selected))
              (acc - need_with_change) j.change_spk j.change_index j.service_fee))
      else round_whole j selected acc

  -- A round of the payment loop.
  unfoldable pub payment_round : Job → List (Utxo S) → ℕ → Round
  payment_round j selected acc = do
    need_with_change ← checked_sum (j.target ∷ fee_with_change j (length selected) ∷ [])
    round_from j selected acc need_with_change
