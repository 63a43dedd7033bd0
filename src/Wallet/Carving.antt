-- ===== src/Wallet/Carving.antt =====
-- crates/wallet-core/src/wallet.rs: where the value of a fee-inclusive payment goes.
use native.Mathlib.Nat.{zero-add}
use fortis.Common.{
  ℕ, ◌+◌, ◌-◌, ◌≤◌, ◌<◌, ◌≡◌, ◌∙◌, refl, sym, ap, ◌⊎◌, inl, inr, true, none, some, Option, List, [],
  ◌∷◌, ◌++◌, Result, ok, err, ◌>>=◌, length, arith, sat_mul, sat_add,
}
use fortis.Error.{WalletError, insufficient_funds}
use fortis.Wallet.{
  Scripts, Utxo, TxOut, ServiceFee, FundingPlan, assemble, change_dust_sat, output_vb, outputs_vb,
}
use fortis.Wallet.Plan.{base_vb, plan_with_change, select, largest_first}
use fortis.Wallet.View.{
  WalletView, advance, Inclusive, inclusive_round, outputs_to, value_of, vb_of, sat_of, to_list,
  single_dest, fee_output_of,
}
use fortis.Wallet.Planners.{plan_payment, plan_payment_fee_inclusive, inclusive_job}
use fortis.Wallet.Selection.{total, Found, select-Found}
use fortis.Wallet.Payment.{payment_checked}
use fortis.Wallet.Change.{IsWhole, HasChange, assemble-IsWhole, plan_with_change-HasChange}
use fortis.Wallet.Fees.{vsize, change_vsize, whole_vsize}
use fortis.Wallet.Shortage.{TakesLargest, takes_largest}
use fortis.Wallet.Inclusion.{IsCarved, inclusive_round-IsCarved}
use fortis.Wallet.Destination.{IsOnly, single_dest-IsOnly, paid_vb}

module _ (S : Scripts) where
  abbrev change_of : Option ℕ → ℕ
  change_of none = 0
  change_of (some c) = c

  module _ (address_at : ℕ → ℕ → Result WalletError S.Script) where
    -- A plan whose fees are carved out of the destination's amount.
    pub record Carves (utxos : List (Utxo S)) (outputs : List (TxOut S)) (rate confs : ℕ)
        (sf : Option (ServiceFee S)) (view view' : WalletView) (p : FundingPlan S) : Type 0 where
      pub before : List (TxOut S)
      pub dest : TxOut S
      pub after : List (TxOut S)
      pub only : IsOnly S outputs before dest after
      pub recipient : ℕ
      pub no_dust : S.minimal_non_dust dest.script_pubkey ≤ recipient
      pub pays :
          let os =
            (before ++ record { value = recipient; script_pubkey = dest.script_pubkey } ∷ after)
            ++ to_list S (fee_output_of S sf dest.value) in
          IsWhole S address_at os view view' p ⊎ HasChange S address_at os view view' p
      -- All that leaves the wallet, change aside, is the amount, or with no change a little more.
      pub cost :
          let left = recipient + value_of S (fee_output_of S sf dest.value) + p.fee in
          (left ≡ dest.value)
          ⊎ ((p.change ≡ none) × (dest.value ≤ left) × (left < dest.value + change_dust_sat))
      pub value :
          recipient + value_of S (fee_output_of S sf dest.value) + p.fee + change_of p.change
          ≡ total S p.selected
      pub at_rate : sat_mul (vsize S p.tx) rate ≤ p.fee
      pub coins : TakesLargest S confs utxos p

    module _ (utxos : List (Utxo S)) (outputs : List (TxOut S)) (rate confs : ℕ)
        (sf : Option (ServiceFee S)) (view view' : WalletView) (b a : List (TxOut S)) (d : TxOut S)
        (spk : S.Script) where
      abbrev sf_out : Option (TxOut S)
      sf_out = fee_output_of S sf d.value

      abbrev job : Inclusive S
      job = inclusive_job S address_at (b, d, a) sf_out rate view spk

      abbrev to : ℕ → List (TxOut S)
      to r = (b ++ record { value = r; script_pubkey = d.script_pubkey } ∷ a) ++ to_list S sf_out

      kept_rate :
          (coins : List (Utxo S)) (r c fee : ℕ)
          → fee
            ≡ sat_mul
                (sat_add
                  (base_vb (length coins) (sat_add (outputs_vb S (b ++ d ∷ a)) (vb_of S sf_out)))
                  (output_vb S spk))
                rate
          → sat_mul
              (vsize S
                (plan_with_change S coins (to r) fee c spk view.next_change (sat_of S sf_out)).tx)
              rate
            ≤ fee
      kept_rate coins r c fee e =
          rw
            (
              change_vsize S coins (to r) fee c spk view.next_change (sat_of S sf_out),
              paid_vb S b a d r sf_out,
            )
            (omega (arith, e))

      whole_rate :
          (coins : List (Utxo S)) (r fee : ℕ)
          → sat_mul
              (base_vb (length coins) (sat_add (outputs_vb S (b ++ d ∷ a)) (vb_of S sf_out)))
              rate
            ≤ fee
          → sat_mul (vsize S (assemble S coins (to r) fee none (sat_of S sf_out)).tx) rate ≤ fee
      whole_rate coins r fee e =
          rw (whole_vsize S coins (to r) fee (sat_of S sf_out), paid_vb S b a d r sf_out) e

      carves :
          (coins left : List (Utxo S)) (p : FundingPlan S)
          → IsOnly S outputs b d a
          → address_at 1 view.next_change ≡ ok spk
          → largest_first S confs utxos ≡ coins ++ left
          → view' ≡ advance S view p
          → IsCarved S job coins (total S coins) p
          → Carves utxos outputs rate confs sf view view' p
      unfolding inclusive_job plan_with_change assemble outputs_to
      carves coins left p o ad e m (inl (r, (nd, sh), le, pe)) = rw pe (record {
        before = b;
        dest = d;
        after = a;
        only = o;
        recipient = r;
        no_dust = nd;
        pays = inr (
            plan_with_change-HasChange S address_at coins (to r) _ (total S coins - d.value) spk
              (sat_of S sf_out) view view' ad (omega (arith, le))
              (m ∙ ap (λ q. advance S view q) pe));
        cost = inl sh;
        value = omega (arith, sh, le);
        at_rate = kept_rate coins r (total S coins - d.value) _ refl;
        coins = takes_largest S confs utxos coins left _ e refl;
      })
      carves coins left p o ad e m (inr (r, (nd, sh), le, lt, pe)) = rw pe (record {
        before = b;
        dest = d;
        after = a;
        only = o;
        recipient = r;
        no_dust = nd;
        pays = inl (
            assemble-IsWhole S address_at coins (to r) _ (sat_of S sf_out) view view'
              (m ∙ ap (λ q. advance S view q) pe));
        cost = inr (refl, omega (arith, sh, le), omega (arith, sh, le, lt));
        value = omega (arith, sh, le);
        at_rate = whole_rate coins r _ (omega (arith, sh, le));
        coins = takes_largest S confs utxos coins left _ e refl;
      })

      selected-Carves :
          (p : FundingPlan S)
          → IsOnly S outputs b d a
          → address_at 1 view.next_change ≡ ok spk
          → view' ≡ advance S view p
          → Found S (inclusive_round S job) (largest_first S confs utxos) [] 0 p
          → Carves utxos outputs rate confs sf view view' p
      selected-Carves p o ad m f = carves f.chosen f.left p o ad f.split m (
          inclusive_round-IsCarved S job f.chosen (total S f.chosen) p
            (rw (sym (zero-add (total S f.chosen))) f.answer))

    inclusive-Carves :
        (utxos : List (Utxo S)) (outputs : List (TxOut S)) (rate confs : ℕ)
        (sf : Option (ServiceFee S)) (view view' : WalletView) (p : FundingPlan S)
        → plan_payment_fee_inclusive S address_at utxos outputs rate confs sf view ≡ ok p
        → view' ≡ advance S view p
        → Carves utxos outputs rate confs sf view view' p
    unfolding plan_payment_fee_inclusive
    inclusive-Carves utxos outputs rate confs sf view view' p h m =
        at_dest (single_dest S outputs) refl (address_at 1 view.next_change) refl h
      where
        at_dest :
            (r : Result WalletError (List (TxOut S) × TxOut S × List (TxOut S)))
            → single_dest S outputs ≡ r
            → (x : Result WalletError S.Script) → address_at 1 view.next_change ≡ x
            → (r >>= λ (b, d, a). x >>= λ spk.
                select S
                  (inclusive_round S (
                    inclusive_job S address_at
                      (b, d, a)
                      (fee_output_of S sf d.value)
                      rate
                      view
                      spk))
                  (λ _ have. insufficient_funds d.value have)
                  (largest_first S confs utxos)
                  []
                  0)
              ≡ ok p
            → Carves utxos outputs rate confs sf view view' p
        at_dest (err e) er x ex h = absurd (cc h)
        at_dest (ok (b, d, a)) er (err e) ex h = absurd (cc h)
        at_dest (ok (b, d, a)) er (ok spk) ex h =
            selected-Carves utxos outputs rate confs sf view view' b a d spk p
              (single_dest-IsOnly S outputs b a d er) ex m
              (select-Found S _ _ (largest_first S confs utxos) [] 0 p h)

-- A payment whose fees come out of the amount has one output that is no data. Its recipient gets
-- no dust; that, the service fee on the amount, and the plan's fee make up the amount, or, with no
-- change, the amount and a surplus below the dust limit, and with the change they are the value
-- of the coins. The fee is at least the rate's for the transaction's size, the other outputs are
-- as requested, the change is as in any payment, and the coins are the largest.
pub plan_payment-Carves :
    (S : Scripts) (address_at : ℕ → ℕ → Result WalletError S.Script) (utxos : List (Utxo S))
    (outputs : List (TxOut S)) (rate confs : ℕ) (sf : Option (ServiceFee S))
    (view view' : WalletView) (p : FundingPlan S)
    → plan_payment S address_at utxos outputs rate confs sf true view ≡ ok (p, view')
    → Carves S address_at utxos outputs rate confs sf view view' p
plan_payment-Carves S address_at utxos outputs rate confs sf view view' p h =
    let c = payment_checked S address_at utxos outputs rate confs sf true view view' p h in
    inclusive-Carves S address_at utxos outputs rate confs sf view view' p c.3 c.4
