-- ===== src/Wallet/Change.antt =====
-- crates/wallet-core/src/wallet.rs: the outputs of a payment, its change and the change counter.
use fortis.Common.{ℕ, ◌+◌, ◌≤◌, ◌≡◌, refl, none, some, Option, List, [], ◌∷◌, ◌++◌, Result, ok, u32}
use fortis.Error.{WalletError}
use fortis.Wallet.{Scripts, Utxo, TxOut, FundingPlan, assemble, change_dust_sat}
use fortis.Wallet.Plan.{plan_with_change}
use fortis.Wallet.View.{WalletView, advance}

module _ (S : Scripts) (address_at : ℕ → ℕ → Result WalletError S.Script) where
  -- No change, and a counter that stands.
  pub record IsWhole (outputs : List (TxOut S)) (view view' : WalletView) (p : FundingPlan S)
      : Type 0 where
    pub no_change : p.change ≡ none
    pub no_index : p.change_derivation_index ≡ none
    pub pays : p.tx.output ≡ outputs
    pub stays : view' ≡ view

  -- Change that is worth an output, to the next change address, whose index is used up.
  pub record HasChange (outputs : List (TxOut S)) (view view' : WalletView) (p : FundingPlan S)
      : Type 0 where
    pub amount : ℕ
    pub address : S.Script
    pub derived : address_at 1 view.next_change ≡ ok address
    pub no_dust : change_dust_sat ≤ amount
    pub stated : p.change ≡ some amount
    pub index : p.change_derivation_index ≡ some view.next_change
    pub pays : p.tx.output ≡ outputs ++ record { value = amount; script_pubkey = address } ∷ []
    pub moves : view' ≡ record view { next_change = u32 (view.next_change + 1) }

  pub assemble-IsWhole :
      (coins : List (Utxo S)) (outputs : List (TxOut S)) (fee : ℕ) (sf : Option ℕ)
      (view view' : WalletView)
      → view' ≡ advance S view (assemble S coins outputs fee none sf)
      → IsWhole outputs view view' (assemble S coins outputs fee none sf)
  unfolding assemble advance
  assemble-IsWhole coins outputs fee sf view view' e = record {
    no_change = refl;
    no_index = refl;
    pays = refl;
    stays = e;
  }

  pub plan_with_change-HasChange :
      (coins : List (Utxo S)) (outputs : List (TxOut S)) (fee c : ℕ) (spk : S.Script)
      (sf : Option ℕ) (view view' : WalletView)
      → address_at 1 view.next_change ≡ ok spk
      → change_dust_sat ≤ c
      → view' ≡ advance S view (plan_with_change S coins outputs fee c spk view.next_change sf)
      → HasChange outputs view view'
          (plan_with_change S coins outputs fee c spk view.next_change sf)
  unfolding plan_with_change assemble advance
  plan_with_change-HasChange coins outputs fee c spk sf view view' d le e = record {
    amount = c;
    address = spk;
    derived = d;
    no_dust = le;
    stated = refl;
    index = refl;
    pays = refl;
    moves = e;
  }
