-- ===== src/Wallet/Inclusion.antt =====
-- crates/wallet-core/src/wallet.rs: payments whose fees come out of the amount.
use fortis.Common.{
  ℕ, ◌+◌, ◌-◌, ◌≤◌, ◌<◌, ◌≡◌, refl, ◌⊎◌, inl, inr, none, some, List, Result, ok, err, ◌>>=◌, length,
  arith, sat_mul, sat_add,
}
use fortis.Error.{add_amounts, WalletError}
use fortis.Wallet.{Scripts, Utxo, FundingPlan, assemble, change_dust_sat, output_vb}
use fortis.Wallet.Plan.{base_vb, plan_with_change}
use fortis.Wallet.View.{
  Inclusive, inclusive_round, inclusive_change, inclusive_whole, recipient_of, outputs_to, value_of,
  sat_of,
}

module _ (S : Scripts) where
  -- The fee of the rate for the outputs without change, and with.
  abbrev pub whole_fee : Inclusive S → ℕ → ℕ
  whole_fee j n = sat_mul (base_vb n j.non_change_vb) j.feerate

  abbrev pub kept_fee : Inclusive S → ℕ → ℕ
  kept_fee j n = sat_mul (sat_add (base_vb n j.non_change_vb) (output_vb S j.change_spk)) j.feerate

  -- The recipient gets what the fees leave of the budget.
  abbrev pub Shares : Inclusive S → (net_fee recipient : ℕ) → Type 0
  Shares j net_fee recipient =
      (S.minimal_non_dust j.dest_spk ≤ recipient)
      × (recipient + value_of S j.sf_out + net_fee ≡ j.budget)

  recipient_of-Shares :
      (j : Inclusive S) (net_fee r : ℕ) → recipient_of S j net_fee ≡ ok r → Shares j net_fee r
  unfolding recipient_of add_amounts
  recipient_of-Shares j net_fee r h = ground arith

  -- The two plans of a round.
  abbrev pub IsCarved : Inclusive S → List (Utxo S) → ℕ → FundingPlan S → Type 0
  IsCarved j coins acc p =
      ((r : ℕ) × Shares j (kept_fee j (length coins)) r
        × (j.budget + change_dust_sat ≤ acc)
        × (p
            ≡ plan_with_change S coins (outputs_to S j r) (kept_fee j (length coins))
                (acc - j.budget) j.change_spk j.change_index (sat_of S j.sf_out)))
      ⊎ ((r : ℕ) × Shares j (whole_fee j (length coins)) r
          × (j.budget ≤ acc)
          × (acc < j.budget + change_dust_sat)
          × (p
              ≡ assemble S coins (outputs_to S j r) (acc - r - value_of S j.sf_out) none
                  (sat_of S j.sf_out)))

  change_parts :
      (j : Inclusive S) (coins : List (Utxo S)) (acc : ℕ) (p : FundingPlan S)
      → inclusive_change S j coins (acc - j.budget) ≡ ok p
      → j.budget + change_dust_sat ≤ acc
      → IsCarved j coins acc p
  unfolding inclusive_change
  change_parts j coins acc p h le =
      at_recipient (recipient_of S j (kept_fee j (length coins))) refl h
    where
      at_recipient :
          (m : Result WalletError ℕ)
          → recipient_of S j (kept_fee j (length coins)) ≡ m
          → (m >>= λ r. ok (
              plan_with_change S coins
                (outputs_to S j r)
                (kept_fee j (length coins))
                (acc - j.budget)
                j.change_spk
                j.change_index
                (sat_of S j.sf_out)))
            ≡ ok p
          → IsCarved j coins acc p
      at_recipient (err e) em h = absurd (cc h)
      at_recipient (ok r) em h = inl (r, recipient_of-Shares j _ r em, le, cc h)

  whole_parts :
      (j : Inclusive S) (coins : List (Utxo S)) (acc : ℕ) (p : FundingPlan S)
      → inclusive_whole S j coins acc ≡ ok p
      → j.budget ≤ acc
      → acc < j.budget + change_dust_sat
      → IsCarved j coins acc p
  unfolding inclusive_whole
  whole_parts j coins acc p h le lt =
      at_recipient (recipient_of S j (whole_fee j (length coins))) refl h
    where
      at_recipient :
          (m : Result WalletError ℕ)
          → recipient_of S j (whole_fee j (length coins)) ≡ m
          → (m >>= λ r. ok (
              assemble S coins
                (outputs_to S j r)
                (acc - r - value_of S j.sf_out)
                none
                (sat_of S j.sf_out)))
            ≡ ok p
          → IsCarved j coins acc p
      at_recipient (err e) em h = absurd (cc h)
      at_recipient (ok r) em h = inr (r, recipient_of-Shares j _ r em, le, lt, cc h)

  -- Which of the two a round took.
  round_parts :
      (j : Inclusive S) (coins : List (Utxo S)) (acc : ℕ) (p : FundingPlan S)
      → inclusive_round S j coins acc ≡ ok (some p)
      → ((inclusive_change S j coins (acc - j.budget) ≡ ok p) × (j.budget + change_dust_sat ≤ acc))
        ⊎ ((inclusive_whole S j coins acc ≡ ok p)
            × (j.budget ≤ acc)
            × (acc < j.budget + change_dust_sat))
  unfolding inclusive_round
  round_parts j coins acc p h = ground arith

  pub inclusive_round-IsCarved :
      (j : Inclusive S) (coins : List (Utxo S)) (acc : ℕ) (p : FundingPlan S)
      → inclusive_round S j coins acc ≡ ok (some p)
      → IsCarved j coins acc p
  inclusive_round-IsCarved j coins acc p h = elim (round_parts j coins acc p h) [
    | inl (c, le) ↦ change_parts j coins acc p c le
    | inr (c, le, lt) ↦ whole_parts j coins acc p c le lt
  ]
