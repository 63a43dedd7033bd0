-- ===== src/Wallet/Rounds.antt =====
-- crates/wallet-core/src/wallet.rs: the plans that a round of `plan_payment` makes.
use fortis.Common.{
  ℕ, ◌+◌, ◌-◌, ◌<◌, ◌≤◌, ◌≡◌, refl, ◌⊎◌, inl, inr, none, some, List, [], ◌∷◌, Result, ok, err,
  ◌>>=◌, arith, lt_cases, length, sum_by,
}
use fortis.Error.{WalletError}
use fortis.Wallet.{Scripts, Utxo, FundingPlan, checked_sum, sum_from, assemble, change_dust_sat}
use fortis.Wallet.Plan.{
  Job, round_from, round_whole, payment_round, plan_with_change, fee_no_change, fee_with_change,
}

-- A sum that did not overflow is the sum.
pub sum_from_lem :
    (acc : ℕ) (l : List ℕ) (n : ℕ) → sum_from acc l ≡ ok n → n ≡ acc + sum_by (λ a. a) l
unfolding sum_from sum_by
sum_from_lem acc [] n h = ground (arith, h)
sum_from_lem acc (a ∷ l) n h = ground (arith, sum_from_lem (acc + a) l n)

pub checked_sum_lem : (l : List ℕ) (n : ℕ) → checked_sum l ≡ ok n → n ≡ sum_by (λ a. a) l
unfolding checked_sum
checked_sum_lem l n h = omega (arith, sum_from_lem 0 l n h)

-- The sum of two, and its only error.
pub sum_two : (a b n : ℕ) → checked_sum (a ∷ b ∷ []) ≡ ok n → n ≡ a + b
unfolding checked_sum sum_from
sum_two a b n h = ground arith

module _ (S : Scripts) where
  -- The two plans of a payment's round on coins of a value.
  abbrev pub IsPayment : Job S → List (Utxo S) → ℕ → FundingPlan S → Type 0
  IsPayment j coins acc p =
      ((c : ℕ) × (j.target + fee_with_change S j (length coins) + c ≡ acc)
        × (change_dust_sat ≤ c)
        × (p
            ≡ plan_with_change S coins j.outputs (fee_with_change S j (length coins)) c j.change_spk
                j.change_index j.service_fee))
      ⊎ ((j.target + fee_no_change S j (length coins) ≤ acc)
          × (acc < j.target + fee_with_change S j (length coins) + change_dust_sat)
          × (p ≡ assemble S coins j.outputs (acc - j.target) none j.service_fee))

  change_plan :
      (j : Job S) (coins : List (Utxo S)) (acc : ℕ) (p : FundingPlan S) (need : ℕ)
      → need ≤ acc
      → change_dust_sat ≤ acc - need
      → round_from S j coins acc need ≡ ok (some p)
      → p
        ≡ plan_with_change S coins j.outputs
            (fee_with_change S j (length coins))
            (acc - need)
            j.change_spk
            j.change_index
            j.service_fee
  unfolding round_from
  change_plan j coins acc p need le ge h = ground arith

  no_change_plan :
      (j : Job S) (coins : List (Utxo S)) (acc : ℕ) (p : FundingPlan S) (need : ℕ)
      → acc < need + change_dust_sat
      → round_from S j coins acc need ≡ ok (some p)
      → round_whole S j coins acc ≡ ok (some p)
  unfolding round_from
  no_change_plan j coins acc p need lt h = ground arith

  whole_plan :
      (j : Job S) (coins : List (Utxo S)) (acc : ℕ) (p : FundingPlan S)
      → round_whole S j coins acc ≡ ok (some p)
      → (j.target + fee_no_change S j (length coins) ≤ acc)
        × (p ≡ assemble S coins j.outputs (acc - j.target) none j.service_fee)
  unfolding round_whole checked_sum sum_from
  whole_plan j coins acc p h = ground arith

  from_IsPayment :
      (j : Job S) (coins : List (Utxo S)) (acc : ℕ) (p : FundingPlan S) (need : ℕ)
      → need ≡ j.target + fee_with_change S j (length coins)
      → round_from S j coins acc need ≡ ok (some p)
      → IsPayment j coins acc p
  from_IsPayment j coins acc p need e h = elim (lt_cases acc (need + change_dust_sat)) [
    | inl lt ↦
        let w = whole_plan j coins acc p (no_change_plan j coins acc p need lt h) in
        inr (w.0, omega (arith, lt, e), w.1)
    | inr ge ↦ inl (
      acc - need,
      omega (arith, ge, e),
      omega (arith, ge),
      change_plan j coins acc p need (omega (arith, ge)) (omega (arith, ge)) h,
    )
  ]

  pub payment_round-IsPayment :
      (j : Job S) (coins : List (Utxo S)) (acc : ℕ) (p : FundingPlan S)
      → payment_round S j coins acc ≡ ok (some p)
      → IsPayment j coins acc p
  unfolding payment_round
  payment_round-IsPayment j coins acc p h =
      go (checked_sum (j.target ∷ fee_with_change S j (length coins) ∷ [])) refl h
    where
      go :
          (m : Result WalletError ℕ)
          → checked_sum (j.target ∷ fee_with_change S j (length coins) ∷ []) ≡ m
          → (m >>= λ need. round_from S j coins acc need) ≡ ok (some p)
          → IsPayment j coins acc p
      go (err e) eq h = absurd (cc h)
      go (ok need) eq h = from_IsPayment j coins acc p need (sum_two _ _ need eq) h
