-- ===== src/Wallet/Fees.antt =====
-- crates/wallet-core/src/wallet.rs: the fee of a payment, and which coins it selects.
use fortis.Common.{
  ℕ, ◌+◌, ◌≤◌, ◌<◌, ◌≡◌, ◌≢◌, refl, ◌⊎◌, none, Option, List, [], ◌∷◌, ◌++◌, length, sat_add,
  sat_mul, arith, length-map,
}
use fortis.Wallet.{
  Scripts, Utxo, TxOut, FundingPlan, Tx, assemble, change_dust_sat, outputs_vb, output_vb,
}
use fortis.Wallet.Plan.{plan_with_change, base_vb}

module _ (S : Scripts) where
  -- The size of a transaction in the source's model, from the transaction alone.
  abbrev pub vsize : Tx S → ℕ
  vsize tx = base_vb (length tx.input) (outputs_vb S tx.output)

  outputs_vb_snoc :
      (os : List (TxOut S)) (o : TxOut S)
      → outputs_vb S (os ++ o ∷ []) ≡ sat_add (outputs_vb S os) (output_vb S o.script_pubkey)
  unfolding outputs_vb
  outputs_vb_snoc [] o = omega arith
  outputs_vb_snoc (q ∷ os) o = omega (arith, outputs_vb_snoc os o)

  base_vb_more : (n outs v : ℕ) → base_vb n (sat_add outs v) ≡ sat_add (base_vb n outs) v
  unfolding base_vb
  base_vb_more n outs v = omega arith

  -- The fee is the rate's for the transaction's size, or, with no change output, less than that
  -- rate's fee with a change output and a change at the dust limit.
  pub record PaysRate (rate : ℕ) (change_spk : S.Script) (p : FundingPlan S) : Type 0 where
    pub at_least : sat_mul (vsize p.tx) rate ≤ p.fee
    pub at_most :
        ((p.change ≢ none) × (p.fee ≡ sat_mul (vsize p.tx) rate))
        ⊎ ((p.change ≡ none)
            × (p.fee
                < sat_mul (sat_add (vsize p.tx) (output_vb S change_spk)) rate + change_dust_sat))

  pub change_vsize :
      (coins : List (Utxo S)) (os : List (TxOut S)) (fee c : ℕ) (spk : S.Script) (i : ℕ)
      (sf : Option ℕ)
      → vsize (plan_with_change S coins os fee c spk i sf).tx
        ≡ sat_add (base_vb (length coins) (outputs_vb S os)) (output_vb S spk)
  unfolding plan_with_change assemble
  change_vsize coins os fee c spk i sf =
      rw
        (
          length-map (λ u. u.outpoint) coins,
          outputs_vb_snoc os (record { value = c; script_pubkey = spk }),
        )
        (base_vb_more (length coins) (outputs_vb S os) (output_vb S spk))

  pub whole_vsize :
      (coins : List (Utxo S)) (os : List (TxOut S)) (fee : ℕ) (sf : Option ℕ)
      → vsize (assemble S coins os fee none sf).tx ≡ base_vb (length coins) (outputs_vb S os)
  unfolding assemble
  whole_vsize coins os fee sf = rw (length-map (λ u. u.outpoint) coins) refl
