-- ===== src/Wallet/Shortage.antt =====
-- crates/wallet-core/src/wallet.rs: which coins are selected, and when they do not suffice.
use fortis.Common.{
  ℕ, ◌+◌, ◌≤◌, ◌<◌, ◌≡◌, ◌∙◌, refl, suc, max, ◌*◌, sym, subst, ap, ◌≢◌, u64_mod, Bool, none, List,
  [], ◌∷◌, ◌++◌, ok, err, length, arith, leb, keep, sum_by, sum_by-sort_by, sort_by-IsSortedBy,
  IsSortedBy,
}
use fortis.Error.{insufficient_funds}
use fortis.Wallet.{Scripts, Utxo, FundingPlan, checked_sum, sum_from}
use fortis.Wallet.Plan.{
  Job, largest_first, payment_round, round_from, round_whole, fee_no_change, base_vb, payment_short,
  or_max_money,
}
use fortis.Wallet.Selection.{total}

product_positive : (a b : ℕ) → 1 ≤ a → 1 ≤ b → 1 ≤ a * b
product_positive a b h k = grind (arith, h, k)

max_one : (n : ℕ) → max (suc n) 1 ≡ suc n
max_one n = omega arith

module _ (S : Scripts) where
  -- The coins that are deep enough, in the wallet's order.
  abbrev pub eligible : ℕ → List (Utxo S) → List (Utxo S)
  eligible confs utxos = keep (λ u. leb confs u.confirmations) utxos

  abbrev pub no_smaller : Utxo S → Utxo S → Bool
  no_smaller x y = leb y.value x.value

  pub largest_first-IsSortedBy :
      (confs : ℕ) (utxos : List (Utxo S)) → IsSortedBy no_smaller (largest_first S confs utxos)
  unfolding largest_first
  largest_first-IsSortedBy confs utxos =
      sort_by-IsSortedBy no_smaller (λ x y h. ground (arith, h)) (λ x y z h k. ground (arith, h, k))
        (eligible confs utxos)

  -- The sort has the same coins: they weigh the same under every measure.
  pub sum_by-largest_first :
      (f : Utxo S → ℕ) (confs : ℕ) (utxos : List (Utxo S))
      → sum_by f (largest_first S confs utxos) ≡ sum_by f (eligible confs utxos)
  unfolding largest_first
  sum_by-largest_first f confs utxos = sum_by-sort_by f no_smaller (eligible confs utxos)

  -- The coins of a payment and those it left, the largest first.
  pub record TakesLargest (confs : ℕ) (utxos : List (Utxo S)) (p : FundingPlan S) : Type 0 where
    pub left : List (Utxo S)
    pub sorted : IsSortedBy no_smaller (p.selected ++ left)
    pub same_coins :
        (f : Utxo S → ℕ) → sum_by f (p.selected ++ left) ≡ sum_by f (eligible confs utxos)

  pub takes_largest :
      (confs : ℕ) (utxos coins left : List (Utxo S)) (p : FundingPlan S)
      → largest_first S confs utxos ≡ coins ++ left
      → p.selected ≡ coins
      → TakesLargest confs utxos p
  takes_largest confs utxos coins left p e s = record {
    left = left;
    sorted =
        subst (λ l. IsSortedBy no_smaller l) (split confs utxos coins left p e s)
          (largest_first-IsSortedBy confs utxos);
    same_coins = λ f.
        sym (ap (λ l. sum_by f l) (split confs utxos coins left p e s))
        ∙ sum_by-largest_first f confs utxos;
  }
    where
      split :
          (confs : ℕ) (utxos coins left : List (Utxo S)) (p : FundingPlan S)
          → largest_first S confs utxos ≡ coins ++ left
          → p.selected ≡ coins
          → largest_first S confs utxos ≡ p.selected ++ left
      split confs utxos coins left p e s = e ∙ ap (λ l. l ++ left) (sym s)

  -- A round that gives no plan has too few coins, and its sums did not overflow.
  round_short :
      (j : Job S) (coins : List (Utxo S)) (acc : ℕ)
      → payment_round S j coins acc ≡ ok none
      → (acc < j.target + fee_no_change S j (length coins))
        × (j.target + fee_no_change S j (length coins) < u64_mod)
  unfolding payment_round round_from round_whole checked_sum sum_from
  round_short j coins acc h = ground arith

  -- A round's error is never that of a shortage.
  pub round_never_short :
      (j : Job S) (coins : List (Utxo S)) (acc need have : ℕ)
      → payment_round S j coins acc ≢ err (insufficient_funds need have)
  unfolding payment_round round_from round_whole checked_sum sum_from
  round_never_short j coins acc need have h = ground arith

  -- What a payment that fell short asks for.
  abbrev need_of : Job S → ℕ → ℕ
  need_of j n = or_max_money (checked_sum (j.target ∷ fee_no_change S j n ∷ []))

  need_of_fitting :
      (j : Job S) (n : ℕ)
      → j.target + fee_no_change S j n < u64_mod
      → need_of j n ≡ j.target + fee_no_change S j n
  unfolding checked_sum sum_from
  need_of_fitting j n h = ground arith

  fee_positive : (j : Job S) → 1 ≤ j.feerate → 1 ≤ fee_no_change S j 1
  unfolding fee_no_change base_vb
  fee_positive j h = omega (arith, product_positive (base_vb 1 j.outs_vb) j.feerate (omega arith) h)

  need_positive : (j : Job S) → 1 ≤ j.feerate → 1 ≤ need_of j 1
  unfolding checked_sum sum_from
  need_positive j h = ground (arith, fee_positive j h)

  -- On no coin at all the payment asks for more than nothing.
  pub short_none :
      (j : Job S) (us : List (Utxo S)) (need have : ℕ)
      → us ≡ []
      → 1 ≤ j.feerate
      → insufficient_funds need have ≡ payment_short S j us (total S us)
      → (have ≡ total S us) × (have < need)
  unfolding payment_short sum_by
  short_none j [] need have e r h = ground (arith, need_positive j r)
  short_none j (u ∷ us) need have e r h = absurd (ground (arith, e))

  pub short_some :
      (j : Job S) (us : List (Utxo S)) (need have : ℕ)
      → 1 ≤ j.feerate
      → insufficient_funds need have ≡ payment_short S j us (total S us)
      → payment_round S j us (total S us) ≡ ok none
      → (have ≡ total S us) × (have < need)
  unfolding payment_short
  short_some j [] need have r h e = short_none j [] need have refl r h
  short_some j (u ∷ us) need have r h e =
      let b = round_short j (u ∷ us) (total S (u ∷ us)) e in
      ground (arith, b, need_of_fitting j (length (u ∷ us)) b.1, max_one (length us))
