-- ===== src/Wallet/Sweep.antt =====
-- crates/wallet-core/src/wallet.rs: what `plan_sweep` spends and pays.
use fortis.Common.{
  ℕ, ◌+◌, ◌-◌, ◌≤◌, ◌≡◌, ◌∙◌, refl, subst, ap, none, some, Option, List, [], ◌∷◌, map, Result, ok,
  err, ◌>>=◌, length, arith, sum_by, sat_mul, length-map,
}
use fortis.Error.{add_amounts, WalletError}
use fortis.Wallet.{
  Scripts, Utxo, TxOut, ServiceFee, FundingPlan, checked_sum, assemble, change_dust_sat, outputs_vb,
}
use fortis.Wallet.Plan.{base_vb}
use fortis.Wallet.View.{fee_output_of, value_of, to_list, sat_of}
use fortis.Wallet.Planners.{plan_sweep, sweep_to, sweep_fee}
use fortis.Wallet.Selection.{total}
use fortis.Wallet.Rounds.{checked_sum_lem}
use fortis.Wallet.Shortage.{eligible}
use fortis.Wallet.Fees.{vsize}

module _ (S : Scripts) where
  -- A plan that empties the eligible coins to one script, at just the rate's fee for its size.
  pub record Sweeps (coins : List (Utxo S)) (dest : S.Script) (rate : ℕ)
      (fee_out : Option (TxOut S)) (p : FundingPlan S) : Type 0 where
    pub spends : p.selected ≡ coins
    pub inputs : p.tx.input ≡ map (λ u. u.outpoint) coins
    pub amount : ℕ
    pub no_dust : change_dust_sat ≤ amount
    pub pays : p.tx.output ≡ record { value = amount; script_pubkey = dest } ∷ to_list S fee_out
    pub value : amount + value_of S fee_out + p.fee ≡ total S coins
    pub at_rate : p.fee ≡ sat_mul (vsize S p.tx) rate
    pub no_change : (p.change ≡ none) × (p.change_derivation_index ≡ none)

  sweep_size :
      (coins : List (Utxo S)) (dest : S.Script) (v : ℕ) (fee_out : Option (TxOut S)) (rate fee : ℕ)
      → sweep_fee S dest (length coins) fee_out rate
        ≡ sat_mul
            (vsize S
              (assemble S coins
                (record { value = v; script_pubkey = dest } ∷ to_list S fee_out)
                fee
                none
                (sat_of S fee_out)).tx)
            rate
  unfolding assemble sweep_fee base_vb outputs_vb
  sweep_size coins dest v none rate fee =
      ap (λ n. sat_mul n rate) (rw (length-map (λ u. u.outpoint) coins) (omega arith))
  sweep_size coins dest v (some o) rate fee =
      ap (λ n. sat_mul n rate) (rw (length-map (λ u. u.outpoint) coins) (omega arith))

  swept :
      (coins : List (Utxo S)) (dest : S.Script) (rate : ℕ) (fee_out : Option (TxOut S)) (fee v : ℕ)
      → change_dust_sat ≤ v
      → v + value_of S fee_out + fee ≡ total S coins
      → fee ≡ sweep_fee S dest (length coins) fee_out rate
      → Sweeps coins dest rate fee_out (
          assemble S coins
            (record { value = v; script_pubkey = dest } ∷ to_list S fee_out)
            fee
            none
            (sat_of S fee_out))
  unfolding assemble
  swept coins dest rate fee_out fee v ge e f = record {
    spends = refl;
    inputs = refl;
    amount = v;
    no_dust = ge;
    pays = refl;
    value = e;
    at_rate = f ∙ sweep_size coins dest v fee_out rate fee;
    no_change = (refl, refl);
  }

  sweep_parts :
      (dest : S.Script) (coins : List (Utxo S)) (sum : ℕ) (fee_out : Option (TxOut S)) (fee : ℕ)
      (p : FundingPlan S)
      → sweep_to S dest coins sum fee_out fee ≡ ok p
      → (fee ≤ sum)
        × (value_of S fee_out ≤ sum - fee)
        × (change_dust_sat ≤ sum - fee - value_of S fee_out)
        × (p
            ≡ assemble S coins
                (record { value = sum - fee - value_of S fee_out; script_pubkey = dest }
                  ∷ to_list S fee_out)
                fee
                none
                (sat_of S fee_out))
  unfolding sweep_to add_amounts
  sweep_parts dest coins sum fee_out fee p h = ground arith

  sweep_to-Sweeps :
      (dest : S.Script) (coins : List (Utxo S)) (sum rate : ℕ) (fee_out : Option (TxOut S))
      (p : FundingPlan S)
      → sum ≡ total S coins
      → sweep_to S dest coins sum fee_out (sweep_fee S dest (length coins) fee_out rate) ≡ ok p
      → Sweeps coins dest rate fee_out p
  sweep_to-Sweeps dest coins sum rate fee_out p e h =
      let c =
        sweep_parts dest coins sum fee_out (sweep_fee S dest (length coins) fee_out rate) p h in
      rw c.3 (
        swept coins dest rate fee_out (sweep_fee S dest (length coins) fee_out rate)
          (sum - sweep_fee S dest (length coins) fee_out rate - value_of S fee_out) c.2
          (omega (arith, c.0, c.1, e)) refl)

  sweep_checked :
      (utxos : List (Utxo S)) (dest : S.Script) (rate confs : ℕ) (sf : Option (ServiceFee S))
      (p : FundingPlan S)
      → plan_sweep S utxos dest rate confs sf ≡ ok p
      → (sum : ℕ) × (checked_sum (map (λ u. u.value) (eligible S confs utxos)) ≡ ok sum)
        × (sweep_to S dest
              (eligible S confs utxos)
              sum
              (fee_output_of S sf sum)
              (sweep_fee S dest (length (eligible S confs utxos)) (fee_output_of S sf sum) rate)
            ≡ ok p)
  unfolding plan_sweep
  sweep_checked utxos dest rate confs sf p h =
      at_sum (checked_sum (map (λ u. u.value) (eligible S confs utxos))) refl (ground (arith, h))
    where
      at_sum :
          (m : Result WalletError ℕ)
          → checked_sum (map (λ u. u.value) (eligible S confs utxos)) ≡ m
          → (m >>= λ sum.
              sweep_to S dest
                (eligible S confs utxos)
                sum
                (fee_output_of S sf sum)
                (sweep_fee S dest (length (eligible S confs utxos)) (fee_output_of S sf sum) rate))
            ≡ ok p
          → (sum : ℕ) × (checked_sum (map (λ u. u.value) (eligible S confs utxos)) ≡ ok sum)
            × (sweep_to S dest
                  (eligible S confs utxos)
                  sum
                  (fee_output_of S sf sum)
                  (sweep_fee S dest (length (eligible S confs utxos)) (fee_output_of S sf sum) rate)
                ≡ ok p)
      at_sum (err e) em h = absurd (cc h)
      at_sum (ok n) em h = (n, em, h)

  sum_coins : (us : List (Utxo S)) → sum_by (λ a. a) (map (λ u. u.value) us) ≡ total S us
  unfolding sum_by
  sum_coins [] = refl
  sum_coins (u ∷ us) = omega (arith, sum_coins us)

-- A sweep spends every coin that is deep enough and pays one output to the destination, at
-- least the least change, and the service fee's on the swept total, with no change. The outputs and the fee
-- are together the coins' value, and the fee is the rate's for the transaction's size.
pub plan_sweep-Sweeps :
    (S : Scripts) (utxos : List (Utxo S)) (dest : S.Script) (rate confs : ℕ)
    (sf : Option (ServiceFee S)) (p : FundingPlan S)
    → plan_sweep S utxos dest rate confs sf ≡ ok p
    → Sweeps S
        (eligible S confs utxos)
        dest
        rate
        (fee_output_of S sf (total S (eligible S confs utxos)))
        p
plan_sweep-Sweeps S utxos dest rate confs sf p h =
    let (sum, e, k) = sweep_checked S utxos dest rate confs sf p h in
    let t = checked_sum_lem _ sum e ∙ sum_coins S (eligible S confs utxos) in
    subst (λ n. Sweeps S (eligible S confs utxos) dest rate (fee_output_of S sf n) p) t
      (sweep_to-Sweeps S dest (eligible S confs utxos) sum rate (fee_output_of S sf sum) p t k)
