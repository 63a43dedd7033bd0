-- ===== src/Wallet/Coins.antt =====
-- crates/wallet-core/src/wallet.rs: the coins that `plan_payment` takes, and its shortage error.
use fortis.Common.{ℕ, ◌≡◌, refl, false, Option, List, Result, ok}
use fortis.Error.{WalletError}
use fortis.Wallet.{Scripts, Utxo, TxOut, ServiceFee, FundingPlan}
use fortis.Wallet.View.{WalletView}
use fortis.Wallet.Planners.{plan_payment, payment_job}
use fortis.Wallet.Selection.{total}
use fortis.Wallet.Payment.{plan_payment-Bought}
use fortis.Wallet.Conservation.{payment-IsBalanced}
use fortis.Wallet.Shortage.{TakesLargest, takes_largest}

-- A payment takes the largest coins first: its coins, followed by those that it left, are the
-- coins that are deep enough, in falling order of value.
pub plan_payment-TakesLargest :
    (S : Scripts) (address_at : ℕ → ℕ → Result WalletError S.Script) (utxos : List (Utxo S))
    (outputs : List (TxOut S)) (rate confs : ℕ) (sf : Option (ServiceFee S))
    (view view' : WalletView) (p : FundingPlan S)
    → plan_payment S address_at utxos outputs rate confs sf false view ≡ ok (p, view')
    → TakesLargest S confs utxos p
unfolding payment_job
plan_payment-TakesLargest S address_at utxos outputs rate confs sf view view' p h =
    let b = plan_payment-Bought S address_at utxos outputs rate confs sf view view' p h in
    takes_largest S confs utxos b.chosen b.left p b.largest
      (payment-IsBalanced S _ b.chosen (total S b.chosen) p refl b.plan).spends
