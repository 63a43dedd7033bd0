-- ===== src/Wallet/Payment.antt =====
-- crates/wallet-core/src/wallet.rs: what a plan of `plan_payment` consists of.
use fortis.Common.{
  ℕ, ◌≡◌, ◌∙◌, sym, subst, refl, Bool, false, some, Option, List, [], ◌∷◌, ◌++◌, Result, ok, err,
  ◌>>=◌, arith, sum_by, if◌then◌else◌,
}
use fortis.Error.{WalletError}
use fortis.Wallet.{
  Scripts, Utxo, TxOut, ServiceFee, FundingPlan, checked_sum, check_feerate, check_service_fee,
  check_not_dust,
}
use fortis.Wallet.Plan.{select, largest_first, payment_round, payment_short}
use fortis.Wallet.View.{WalletView, advance, values, fee_on_total, to_list, sat_of}
use fortis.Wallet.Planners.{plan_payment, plan_exclusive, plan_payment_fee_inclusive, payment_job}
use fortis.Wallet.Selection.{Found, select-Found, total}
use native.Mathlib.Nat.{zero-add}
use fortis.Wallet.Rounds.{checked_sum_lem, IsPayment, payment_round-IsPayment}

module _ (S : Scripts) (address_at : ℕ → ℕ → Result WalletError S.Script) where
  -- The checks in front of a payment, and the plan behind them.
  pub payment_checked :
      (utxos : List (Utxo S)) (outputs : List (TxOut S)) (rate confs : ℕ)
      (sf : Option (ServiceFee S)) (inclusive : Bool) (view view' : WalletView) (p : FundingPlan S)
      → plan_payment S address_at utxos outputs rate confs sf inclusive view ≡ ok (p, view')
      → (check_feerate rate ≡ ok tt)
        × (check_service_fee S sf ≡ ok tt)
        × (check_not_dust S outputs ≡ ok tt)
        × ((if inclusive
              then plan_payment_fee_inclusive S address_at utxos outputs rate confs sf view
              else plan_exclusive S address_at utxos outputs rate confs
                  (fee_on_total S sf (checked_sum (values S outputs)))
                  view)
            ≡ ok p)
        × (view' ≡ advance S view p)
  unfolding plan_payment
  payment_checked utxos outputs rate confs sf inclusive view view' p h = ground arith

  sum_values : (os : List (TxOut S)) → sum_by (λ a. a) (values S os) ≡ sum_by (λ o. o.value) os
  unfolding sum_by
  sum_values [] = refl
  sum_values (o ∷ os) = omega (arith, sum_values os)

  -- The loop behind a payment to requested outputs and the service fee's.
  pub record Paid (utxos : List (Utxo S)) (outputs : List (TxOut S)) (rate confs : ℕ)
      (fee_out : Option (TxOut S)) (view : WalletView) (p : FundingPlan S) : Type 0 where
    pub target : ℕ
    pub change_spk : S.Script
    pub sums : target ≡ sum_by (λ o. o.value) outputs
    pub derived : address_at 1 view.next_change ≡ ok change_spk
    pub found :
        Found S
          (payment_round S
            (payment_job S address_at outputs (sat_of S fee_out) rate view target change_spk))
          (largest_first S confs utxos)
          []
          0
          p

  module _ (utxos : List (Utxo S)) (outputs : List (TxOut S)) (rate confs : ℕ)
      (fee_out : Option (TxOut S)) (view : WalletView) (p : FundingPlan S) where
    -- The selection of `plan_exclusive`, from the total and the change script.
    abbrev selection : ℕ → S.Script → Result WalletError (FundingPlan S)
    selection target change_spk =
        let j =
          payment_job S address_at (outputs ++ to_list S fee_out) (sat_of S fee_out) rate view
            target change_spk in
        select S (payment_round S j) (payment_short S j) (largest_first S confs utxos) [] 0

    exclusive_parts :
        plan_exclusive S address_at utxos outputs rate confs fee_out view ≡ ok p
        → (target : ℕ) × (change_spk : S.Script) × (checked_sum
              (values S (outputs ++ to_list S fee_out))
            ≡ ok target)
          × (address_at 1 view.next_change ≡ ok change_spk)
          × (selection target change_spk ≡ ok p)
    unfolding plan_exclusive
    exclusive_parts h =
        target_of (checked_sum (values S (outputs ++ to_list S fee_out))) refl
          (address_at 1 view.next_change) refl h
      where
        target_of :
            (m : Result WalletError ℕ)
            → checked_sum (values S (outputs ++ to_list S fee_out)) ≡ m
            → (a : Result WalletError S.Script) → address_at 1 view.next_change ≡ a
            → (m >>= λ t. a >>= λ spk. selection t spk) ≡ ok p
            → (target : ℕ) × (change_spk : S.Script) × (checked_sum
                  (values S (outputs ++ to_list S fee_out))
                ≡ ok target)
              × (address_at 1 view.next_change ≡ ok change_spk)
              × (selection target change_spk ≡ ok p)
        target_of (err e) em a ea h = absurd (cc h)
        target_of (ok t) em (err e) ea h = absurd (cc h)
        target_of (ok t) em (ok spk) ea h = (t, spk, em, ea, h)

    pub exclusive-Paid :
        plan_exclusive S address_at utxos outputs rate confs fee_out view ≡ ok p
        → Paid utxos (outputs ++ to_list S fee_out) rate confs fee_out view p
    exclusive-Paid h =
        let (target, change_spk, sums, derived, found) = exclusive_parts h in
        record {
          target = target;
          change_spk = change_spk;
          sums = checked_sum_lem _ target sums ∙ sum_values (outputs ++ to_list S fee_out);
          derived = derived;
          found = select-Found S _ _ (largest_first S confs utxos) [] 0 p found;
        }

  -- The coins behind a paid plan: the first of the eligible ones, the plan, and its counters.
  pub record Bought (utxos : List (Utxo S)) (outputs : List (TxOut S)) (rate confs : ℕ)
      (fee_out : Option (TxOut S)) (view view' : WalletView) (p : FundingPlan S) : Type 0 where
    pub change_spk : S.Script
    pub derived : address_at 1 view.next_change ≡ ok change_spk
    pub chosen : List (Utxo S)
    pub left : List (Utxo S)
    pub largest : largest_first S confs utxos ≡ chosen ++ left
    pub plan :
        IsPayment S
          (payment_job S address_at outputs
            (sat_of S fee_out)
            rate
            view
            (sum_by (λ o. o.value) outputs)
            change_spk)
          chosen
          (total S chosen)
          p
    pub moved : view' ≡ advance S view p

  module _ (utxos : List (Utxo S)) (outputs : List (TxOut S)) (rate confs : ℕ)
      (fee_out : Option (TxOut S)) (view view' : WalletView) (p : FundingPlan S) where
    planned-Bought :
        Paid utxos outputs rate confs fee_out view p
        → view' ≡ advance S view p
        → Bought utxos outputs rate confs fee_out view view' p
    planned-Bought d m = record {
      change_spk = d.change_spk;
      derived = d.derived;
      chosen = d.found.chosen;
      left = d.found.left;
      largest = d.found.split;
      plan = payment_round-IsPayment S _ d.found.chosen (total S d.found.chosen) p (
          subst
            (λ t.
              payment_round S
                (payment_job S address_at outputs (sat_of S fee_out) rate view t d.change_spk)
                d.found.chosen (total S d.found.chosen)
              ≡ ok (some p))
            d.sums (rw (sym (zero-add (total S d.found.chosen))) d.found.answer));
      moved = m;
    }

  -- The outputs that a payment makes, a change output aside.
  abbrev pub asked : List (TxOut S) → Option (ServiceFee S) → List (TxOut S)
  asked outputs sf = outputs ++ to_list S (fee_on_total S sf (checked_sum (values S outputs)))

  pub plan_payment-Bought :
      (utxos : List (Utxo S)) (outputs : List (TxOut S)) (rate confs : ℕ)
      (sf : Option (ServiceFee S)) (view view' : WalletView) (p : FundingPlan S)
      → plan_payment S address_at utxos outputs rate confs sf false view ≡ ok (p, view')
      → Bought utxos
          (asked outputs sf)
          rate
          confs
          (fee_on_total S sf (checked_sum (values S outputs)))
          view
          view'
          p
  plan_payment-Bought utxos outputs rate confs sf view view' p h =
      let c = payment_checked utxos outputs rate confs sf false view view' p h in
      planned-Bought utxos (asked outputs sf) rate confs _ view view' p
        (exclusive-Paid utxos outputs rate confs _ view p c.3) c.4
