-- ===== src/Swap/Payable.antt =====
-- crates/wallet-core/src/swap.rs: when there are fees to sign a contract's spends at.
use fortis.Common.{
  ℕ, ◌-◌, ◌*◌, ◌≤◌, ◌<◌, ◌≡◌, ◌∙◌, refl, min, Bool, true, false, List, [], ◌∷◌, ◌++◌, Result, ok,
  err, ◌>>=◌, ◌==◌, arith, any, if◌then◌else◌, sat_mul, ◌^◌,
}
use fortis.Error.{WalletError, add_amounts}
use fortis.Htlc.{
  Crate, HtlcContract, HtlcPath, redeem, refund, release, Spend, sized_path, spend_on, sized_spend,
  sized_witness, redeem_tx, refund_tx, release_tx, spend_skeleton, spend_outputs, has_release,
  htlc_spend_fee,
}
use fortis.Swap.{push_fee, fees_from, spend_fees, max_swap_feerate_sat_vb}

product_bound : (n r : ℕ) → n ≤ 1_000_000 → r ≤ 500 → n * r ≤ 1_000_000 * 500
product_bound n r a b = grind (arith, a, b)

size_bound : (n r : ℕ) → n ≤ 1_000_000 → r ≤ 500 → sat_mul n r ≤ 500_000_000
size_bound n r a b = omega (arith, product_bound n r a b)

push_total :
    (value dust fee : ℕ) (fs : List ℕ)
    → dust < value
    → dust ≤ 1_000_000
    → fee ≤ 500_000_000
    → (gs : List ℕ) × (push_fee value dust fs fee ≡ ok gs)
unfolding push_fee add_amounts
push_total value dust fee fs lt d f = (
  if any (λ g. g == min fee (value - dust)) fs then fs else fs ++ min fee (value - dust) ∷ [],
  ground (arith, lt, d, f),
)

module _ (B : Crate) where
  released :
      (c : HtlcContract) (prevout : ℕ × ℕ) (to : ℕ)
      → has_release c ≡ true
      → release_tx B c prevout to 0 ≡ spend_skeleton B c prevout to 0 0
  unfolding release_tx
  released c prevout to e = ground (arith, e)

  -- A spend with no fee is always there.
  skeleton_free :
      (c : HtlcContract) (prevout : ℕ × ℕ) (to lock_time : ℕ)
      → spend_skeleton B c prevout to 0 lock_time
        ≡ ok (record {
          lock_time = lock_time;
          previous_output = prevout;
          witness = [];
          output = spend_outputs B c (c.value - 0) to;
        })
  unfolding spend_skeleton
  skeleton_free c prevout to lock_time = ground arith

  spend_free :
      (c : HtlcContract) (path : HtlcPath) (prevout : ℕ × ℕ) (to : ℕ)
      → (tx : Spend) × (spend_on B c (sized_path c path) prevout to 0 ≡ ok tx)
  unfolding spend_on sized_path redeem_tx refund_tx
  spend_free c redeem prevout to = (_, skeleton_free c prevout to 0)
  spend_free c refund prevout to = (_, skeleton_free c prevout to c.locktime)
  spend_free c release prevout to = go (has_release c) refl
    where
      go :
          (b : Bool)
          → has_release c ≡ b
          → (tx : Spend) × (spend_on B c (if b then release else refund) prevout to 0 ≡ ok tx)
      go true e = (_, released c prevout to e ∙ skeleton_free c prevout to 0)
      go false e = (_, skeleton_free c prevout to c.locktime)

  -- The transaction that the fees of a path are computed from has a size of at most so much.
  abbrev pub SizedWithin : HtlcContract → HtlcPath → ℕ → Type 0
  SizedWithin c path n =
      (tx : Spend)
      → sized_spend c (sized_path c path)
          (spend_on B c (sized_path c path) (0, 2 ^ 32 - 1) B.zero_script 0)
        ≡ ok tx
      → B.vsize tx ≤ n

  -- The fee of a path is there, and a bound on the sizes bounds it.
  sized_fee :
      (c : HtlcContract) (path : HtlcPath) (rate : ℕ)
      → SizedWithin c path 1_000_000
      → rate ≤ 500
      → (fee : ℕ) × (htlc_spend_fee B c path rate ≡ ok fee) × (fee ≤ 500_000_000)
  unfolding htlc_spend_fee sized_spend
  sized_fee c path rate b r =
      go (spend_on B c (sized_path c path) (0, 2 ^ 32 - 1) B.zero_script 0)
        (spend_free c path (0, 2 ^ 32 - 1) B.zero_script) b
    where
      go :
          (m : Result WalletError Spend)
          → (tx : Spend) × (m ≡ ok tx)
          → ((tx : Spend) → sized_spend c (sized_path c path) m ≡ ok tx → B.vsize tx ≤ 1_000_000)
          → (fee : ℕ) × ((sized_spend c (sized_path c path) m >>= λ tx.
                ok (sat_mul (B.vsize tx) rate))
              ≡ ok fee)
            × (fee ≤ 500_000_000)
      go (err e) (tx, q) sized = absurd (cc q)
      go (ok tx) q sized = (
        _,
        refl,
        size_bound (B.vsize (record tx { witness = sized_witness c (sized_path c path) })) rate
            (sized _ refl) r,
      )

  module _ (c : HtlcContract) (path : HtlcPath) (dust : ℕ) (sized : SizedWithin c path 1_000_000)
      (d : dust ≤ 1_000_000) (lt : dust < c.value) where
    fees_total : (rates fs : List ℕ) → (gs : List ℕ) × (fees_from B c path dust fs rates ≡ ok gs)
    unfolding fees_from
    fees_total [] fs = (fs, refl)
    fees_total (rate ∷ rates) fs =
        at_fee (λ mid. fees_total rates mid)
          (htlc_spend_fee B c path (min rate max_swap_feerate_sat_vb))
          (sized_fee c path (min rate max_swap_feerate_sat_vb) sized (omega arith))
      where
        at_push :
            ((mid : List ℕ) → (gs : List ℕ) × (fees_from B c path dust mid rates ≡ ok gs))
            → (m : Result WalletError (List ℕ)) → (gs : List ℕ) × (m ≡ ok gs)
            → (gs : List ℕ) × ((m >>= λ mid. fees_from B c path dust mid rates) ≡ ok gs)
        at_push IH (err e) (gs, q) = absurd (cc q)
        at_push IH (ok mid) q = IH mid

        at_fee :
            ((mid : List ℕ) → (gs : List ℕ) × (fees_from B c path dust mid rates ≡ ok gs))
            → (r : Result WalletError ℕ) → (fee : ℕ) × (r ≡ ok fee) × (fee ≤ 500_000_000)
            → (gs : List ℕ) × ((r >>= λ fee.
                  push_fee c.value dust fs fee >>= λ mid. fees_from B c path dust mid rates)
                ≡ ok gs)
        at_fee IH (err e) (fee, q, b) = absurd (cc q)
        at_fee IH (ok f) (fee, q, b) =
            at_push IH (push_fee c.value dust fs f)
              (push_total c.value dust f fs lt d (ground (arith, q, b)))

  -- A contract above the dust limit of the payout's script has fees at any rates, the highest and
  -- the lowest included, if that limit is at most 1,000,000 and so is the size of the one transaction
  -- that the path's fees are computed from.
  pub spend_fees_total :
      (c : HtlcContract) (path : HtlcPath) (to rate : ℕ) (rates : List ℕ)
      → SizedWithin c path 1_000_000
      → B.minimal_non_dust to ≤ 1_000_000
      → B.minimal_non_dust to < c.value
      → (fees : List ℕ) × (spend_fees B c path to (rate ∷ rates) ≡ ok fees)
  unfolding spend_fees
  spend_fees_total c path to rate rates sized d lt =
      fees_total c path (B.minimal_non_dust to) sized d lt (rate ∷ rates) []
