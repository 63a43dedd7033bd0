-- ===== src/Wallet/Service.antt =====
-- crates/wallet-core/src/wallet.rs: how much a service fee may be.
use fortis.Common.{ℕ, ◌*◌, ◌/◌, ◌≤◌, ◌≡◌, ok, some, arith, min, max}
use fortis.Wallet.{Scripts, TxOut, ServiceFee, amount_sat, fee_output, check_service_fee, max_bps}

product_le : (n k m : ℕ) → k ≤ m → n * k ≤ n * m
product_le n k m h = grind (arith, h)

-- A share of at most one per cent.
share_le : (n k : ℕ) → k ≤ 100 → n * min k max_bps / 10_000 ≤ n / 100
share_le n k h = omega (arith, h, product_le n (min k max_bps) 100 (omega (arith, h)))

-- A service fee that the planners accept pays its script no dust, and at most one per cent of the
-- amount, or the largest floor, or the least output that the script takes, whichever is most.
pub fee_output_bounds :
    (S : Scripts) (sf : ServiceFee S) (send : ℕ) (o : TxOut S)
    → check_service_fee S (some sf) ≡ ok tt
    → fee_output S sf send ≡ some o
    → (o.script_pubkey ≡ sf.fee_spk)
      × (S.minimal_non_dust sf.fee_spk ≤ o.value)
      × (o.value ≤ max (max (send / 100) 2_000) (S.minimal_non_dust sf.fee_spk))
unfolding check_service_fee fee_output amount_sat
fee_output_bounds S sf send o h e = ground (arith, share_le send sf.bps)
