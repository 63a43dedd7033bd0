-- ===== src/Wallet/Selection.antt =====
-- crates/wallet-core/src/wallet.rs: what the coin selection loop selects.
use mathlib.Core.List.{append_assoc, append-nil}
use native.Mathlib.Nat.{add_assoc, add-zero}
use fortis.Common.{
  subst, ℕ, ◌+◌, ◌<◌, ◌≤◌, ◌≡◌, refl, sym, ap, ◌∙◌, ◌⊎◌, inl, inr, none, some, List, [], ◌∷◌, ◌++◌,
  Result, ok, err, ◌>>=◌, u64_mod, sum_by, arith, lt_cases,
}
use fortis.Error.{WalletError, invalid_input}
use fortis.Error
use fortis.Wallet.{Scripts, Utxo, FundingPlan}
use fortis.Wallet.Plan.{select, Round, answer_or}

module _ (S : Scripts) where
  abbrev pub total : List (Utxo S) → ℕ
  total us = sum_by (λ u. u.value) us

  module _ (round : List (Utxo S) → ℕ → Round S) where
    -- The coins that a selection added, and that the round on them gave the plan.
    pub record Found (us selected : List (Utxo S)) (acc : ℕ) (p : FundingPlan S) : Type 0 where
      pub chosen : List (Utxo S)
      pub left : List (Utxo S)
      pub split : us ≡ chosen ++ left
      pub fits : acc + total chosen < u64_mod
      pub answer : round (selected ++ chosen) (acc + total chosen) ≡ ok (some p)

    -- One coin more in front of a selection.
    more-Found :
        (u : Utxo S) (us selected : List (Utxo S)) (acc : ℕ) (p : FundingPlan S)
        → Found us (selected ++ u ∷ []) (acc + u.value) p
        → Found (u ∷ us) selected acc p
    unfolding sum_by
    more-Found u us selected acc p f = record {
      chosen = u ∷ f.chosen;
      left = f.left;
      split = ap (λ l. u ∷ l) f.split;
      fits = omega (arith, f.fits);
      answer =
          rw
            (
              sym (append_assoc selected (u ∷ []) f.chosen),
              sym (add_assoc acc u.value (total f.chosen)),
            )
            f.answer;
    }

    here-Found :
        (u : Utxo S) (us selected : List (Utxo S)) (acc : ℕ) (p : FundingPlan S)
        → acc + u.value < u64_mod
        → round (selected ++ u ∷ []) (acc + u.value) ≡ ok (some p)
        → Found (u ∷ us) selected acc p
    unfolding sum_by
    here-Found u us selected acc p lt e = record {
      chosen = u ∷ [];
      left = us;
      split = refl;
      fits = omega (arith, lt);
      answer = subst (λ n. round (selected ++ u ∷ []) (acc + n) ≡ ok (some p)) (omega arith) e;
    }

    module _ (fell_short : List (Utxo S) → ℕ → WalletError) where
      -- The rest of a round, from its answer.
      abbrev onward :
          Utxo S → List (Utxo S) → List (Utxo S) → ℕ → Round S → Result WalletError (FundingPlan S)
      onward u us selected acc r = r >>= λ q.
          answer_or S q (select S round fell_short us (selected ++ u ∷ []) (acc + u.value))

      select_step :
          (u : Utxo S) (us selected : List (Utxo S)) (acc : ℕ)
          → acc + u.value < u64_mod
          → select S round fell_short (u ∷ us) selected acc
            ≡ onward u us selected acc (round (selected ++ u ∷ []) (acc + u.value))
      unfolding select
      select_step u us selected acc lt = ground arith

      select_overflow :
          (u : Utxo S) (us selected : List (Utxo S)) (acc : ℕ)
          → u64_mod ≤ acc + u.value
          → select S round fell_short (u ∷ us) selected acc
            ≡ err (invalid_input Error.selected_value_overflows)
      unfolding select
      select_overflow u us selected acc le = ground arith

      select_end :
          (selected : List (Utxo S)) (acc : ℕ)
          → select S round fell_short [] selected acc ≡ err (fell_short selected acc)
      unfolding select
      select_end selected acc = refl

      onward-Found :
          (u : Utxo S) (us selected : List (Utxo S)) (acc : ℕ) (p : FundingPlan S)
          → (select S round fell_short us (selected ++ u ∷ []) (acc + u.value) ≡ ok p
              → Found us (selected ++ u ∷ []) (acc + u.value) p)
          → acc + u.value < u64_mod
          → (r : Round S) → round (selected ++ u ∷ []) (acc + u.value) ≡ r
          → onward u us selected acc r ≡ ok p
          → Found (u ∷ us) selected acc p
      onward-Found u us selected acc p IH lt (err e) eq h = absurd (cc h)
      onward-Found u us selected acc p IH lt (ok none) eq h = more-Found u us selected acc p (IH h)
      onward-Found u us selected acc p IH lt (ok (some q)) eq h =
          here-Found u us selected acc p lt (eq ∙ cc h)

      -- A selection that finds a plan found it by a round on the first coins.
      pub select-Found :
          (us selected : List (Utxo S)) (acc : ℕ) (p : FundingPlan S)
          → select S round fell_short us selected acc ≡ ok p
          → Found us selected acc p
      select-Found [] selected acc p h = absurd (cc (h, select_end selected acc))
      select-Found (u ∷ us) selected acc p h = elim (lt_cases (acc + u.value) u64_mod) [
        | inr le ↦ absurd (cc (h, select_overflow u us selected acc le))
        | inl lt ↦
            onward-Found u us selected acc p
              (select-Found us (selected ++ u ∷ []) (acc + u.value) p) lt
              (round (selected ++ u ∷ []) (acc + u.value)) refl
              (sym (select_step u us selected acc lt) ∙ h)
      ]

      -- A selection that failed on all the coins: the last round, if any, gave no plan.
      pub record Spent (us selected : List (Utxo S)) (acc : ℕ) (e : WalletError) : Type 0 where
        pub reported : e ≡ fell_short (selected ++ us) (acc + total us)
        pub last : (us ≡ []) ⊎ (round (selected ++ us) (acc + total us) ≡ ok none)

      -- The ways in which a selection fails.
      abbrev pub Fails : List (Utxo S) → List (Utxo S) → ℕ → WalletError → Type 0
      Fails us selected acc e =
          Spent us selected acc e
          ⊎ ((e ≡ invalid_input Error.selected_value_overflows)
              ⊎ ((some_coins : List (Utxo S)) × (a : ℕ) × (round some_coins a ≡ err e)))

      -- The coins and the value in two ways to bracket them.
      regroup {ℓ} :
          (P : List (Utxo S) → ℕ → Type ℓ) (u : Utxo S) (us selected : List (Utxo S)) (acc : ℕ)
          → P (selected ++ u ∷ [] ++ us) (acc + u.value + total us)
          → P (selected ++ u ∷ us) (acc + total (u ∷ us))
      unfolding sum_by
      regroup P u us selected acc h =
          rw (sym (append_assoc selected (u ∷ []) us), sym (add_assoc acc u.value (total us))) h

      last_of :
          (u : Utxo S) (us selected : List (Utxo S)) (acc : ℕ)
          → round (selected ++ u ∷ []) (acc + u.value) ≡ ok none
          → (us ≡ []) ⊎ (round (selected ++ u ∷ [] ++ us) (acc + u.value + total us) ≡ ok none)
          → round (selected ++ u ∷ us) (acc + total (u ∷ us)) ≡ ok none
      unfolding sum_by
      last_of u us selected acc eq (inl e) =
          subst (λ l. round (selected ++ u ∷ l) (acc + total (u ∷ l)) ≡ ok none) (sym e)
            (subst (λ n. round (selected ++ u ∷ []) (acc + n) ≡ ok none) (omega arith) eq)
      last_of u us selected acc eq (inr e) =
          regroup (λ l n. round l n ≡ ok none) u us selected acc e

      more-Fails :
          (u : Utxo S) (us selected : List (Utxo S)) (acc : ℕ) (e : WalletError)
          → round (selected ++ u ∷ []) (acc + u.value) ≡ ok none
          → Fails us (selected ++ u ∷ []) (acc + u.value) e
          → Fails (u ∷ us) selected acc e
      more-Fails u us selected acc e eq (inr o) = inr o
      more-Fails u us selected acc e eq (inl s) = inl (record {
        reported = regroup (λ l n. e ≡ fell_short l n) u us selected acc s.reported;
        last = inr (last_of u us selected acc eq s.last);
      })

      none-Spent :
          (selected : List (Utxo S)) (acc : ℕ) (e : WalletError)
          → select S round fell_short [] selected acc ≡ err e
          → Spent [] selected acc e
      unfolding select sum_by
      none-Spent selected acc e h = record {
        reported = rw (append-nil selected, add-zero acc) (cc h);
        last = inl refl;
      }

      onward-Fails :
          (u : Utxo S) (us selected : List (Utxo S)) (acc : ℕ) (e : WalletError)
          → (select S round fell_short us (selected ++ u ∷ []) (acc + u.value) ≡ err e
              → Fails us (selected ++ u ∷ []) (acc + u.value) e)
          → (r : Round S) → round (selected ++ u ∷ []) (acc + u.value) ≡ r
          → onward u us selected acc r ≡ err e
          → Fails (u ∷ us) selected acc e
      onward-Fails u us selected acc e IH (err d) eq h =
          inr (inr (selected ++ u ∷ [], acc + u.value, eq ∙ cc h))
      onward-Fails u us selected acc e IH (ok none) eq h = more-Fails u us selected acc e eq (IH h)
      onward-Fails u us selected acc e IH (ok (some q)) eq h = absurd (cc h)

      pub select-Fails :
          (us selected : List (Utxo S)) (acc : ℕ) (e : WalletError)
          → select S round fell_short us selected acc ≡ err e
          → Fails us selected acc e
      select-Fails [] selected acc e h = inl (none-Spent selected acc e h)
      select-Fails (u ∷ us) selected acc e h = elim (lt_cases (acc + u.value) u64_mod) [
        | inr le ↦ inr (inl (cc (h, select_overflow u us selected acc le)))
        | inl lt ↦
            onward-Fails u us selected acc e
              (select-Fails us (selected ++ u ∷ []) (acc + u.value) e)
              (round (selected ++ u ∷ []) (acc + u.value)) refl
              (sym (select_step u us selected acc lt) ∙ h)
      ]
