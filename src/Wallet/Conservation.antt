-- ===== src/Wallet/Conservation.antt =====
-- crates/wallet-core/src/wallet.rs: where the value of a payment goes.
use fortis.Common.{
  ℕ, ◌+◌, ◌-◌, ◌≡◌, ◌∙◌, refl, sym, ap, inl, inr, false, none, Option, List, [], ◌∷◌, map, Result,
  ok, arith, length, sum_by, sum_by-append,
}
use fortis.Error.{WalletError}
use fortis.Wallet.{Scripts, Utxo, TxOut, ServiceFee, FundingPlan, assemble}
use fortis.Wallet.Plan.{Job, plan_with_change, fee_with_change}
use fortis.Wallet.View.{WalletView}
use fortis.Wallet.Planners.{plan_payment, payment_job}
use fortis.Wallet.Selection.{total}
use fortis.Wallet.Rounds.{IsPayment}
use fortis.Wallet.Payment.{plan_payment-Bought}

module _ (S : Scripts) where
  -- What the outputs of a transaction carry.
  abbrev pub paid : List (TxOut S) → ℕ
  paid os = sum_by (λ o. o.value) os

  -- The coins of a plan carry its outputs and its fee, and its transaction spends just them.
  pub record IsBalanced (coins : List (Utxo S)) (acc : ℕ) (p : FundingPlan S) : Type 0 where
    pub spends : p.selected ≡ coins
    pub inputs : p.tx.input ≡ map (λ u. u.outpoint) coins
    pub value : paid p.tx.output + p.fee ≡ acc

  with_change_value :
      (coins : List (Utxo S)) (os : List (TxOut S)) (fee c : ℕ) (spk : S.Script) (i : ℕ)
      (sf : Option ℕ)
      → paid (plan_with_change S coins os fee c spk i sf).tx.output ≡ paid os + c
  unfolding plan_with_change assemble sum_by
  with_change_value coins os fee c spk i sf =
      omega
        (arith, sum_by-append (λ o. o.value) os (record { value = c; script_pubkey = spk } ∷ []))

  pub with_change-IsBalanced :
      (coins : List (Utxo S)) (os : List (TxOut S)) (fee c : ℕ) (spk : S.Script) (i : ℕ)
      (sf : Option ℕ) (acc : ℕ)
      → paid os + fee + c ≡ acc
      → IsBalanced coins acc (plan_with_change S coins os fee c spk i sf)
  unfolding plan_with_change assemble
  with_change-IsBalanced coins os fee c spk i sf acc e = record {
    spends = refl;
    inputs = refl;
    value = omega (arith, e, with_change_value coins os fee c spk i sf);
  }

  pub assemble-IsBalanced :
      (coins : List (Utxo S)) (os : List (TxOut S)) (fee : ℕ) (sf : Option ℕ) (acc : ℕ)
      → paid os + fee ≡ acc
      → IsBalanced coins acc (assemble S coins os fee none sf)
  unfolding assemble
  assemble-IsBalanced coins os fee sf acc e = record { spends = refl; inputs = refl; value = e }

  pub payment-IsBalanced :
      (j : Job S) (coins : List (Utxo S)) (acc : ℕ) (p : FundingPlan S)
      → j.target ≡ paid j.outputs
      → IsPayment S j coins acc p
      → IsBalanced coins acc p
  payment-IsBalanced j coins acc p t (inl (c, e, ge, pe)) = rw pe (
      with_change-IsBalanced coins j.outputs (fee_with_change S j (length coins)) c j.change_spk
        j.change_index j.service_fee acc (omega (arith, t, e)))
  payment-IsBalanced j coins acc p t (inr (le, lt, pe)) = rw pe (
      assemble-IsBalanced coins j.outputs (acc - j.target) j.service_fee acc (omega (arith, t, le)))

-- The plan of a payment whose fees come on top of its amount spends the coins that it selected, and
-- no others, and their value is that of the outputs, the change and the service fee included, and of
-- the fee that the plan states.
pub plan_payment-IsBalanced :
    (S : Scripts) (address_at : ℕ → ℕ → Result WalletError S.Script) (utxos : List (Utxo S))
    (outputs : List (TxOut S)) (rate confs : ℕ) (sf : Option (ServiceFee S))
    (view view' : WalletView) (p : FundingPlan S)
    → plan_payment S address_at utxos outputs rate confs sf false view ≡ ok (p, view')
    → (p.tx.input ≡ map (λ u. u.outpoint) p.selected)
      × (paid S p.tx.output + p.fee ≡ total S p.selected)
unfolding payment_job
plan_payment-IsBalanced S address_at utxos outputs rate confs sf view view' p h =
    let b = plan_payment-Bought S address_at utxos outputs rate confs sf view view' p h in
    let v = payment-IsBalanced S _ b.chosen (total S b.chosen) p refl b.plan in
    (
      v.inputs ∙ ap (λ l. map (λ u. u.outpoint) l) (sym v.spends),
      v.value ∙ ap (λ l. total S l) (sym v.spends),
    )
