-- ===== src/Terms/Accepted.antt =====
-- crates/wallet-core/src/swap_terms.rs: what the checks of `validate_terms` amount to.
use Prim.Native.String.{String}
use text.Mathlib.Text.{◌==◌ as str_eq}
use text.Mathlib.TextEquality.{eq_iff}
use fortis.Common.{
  ℕ, ◌+◌, ◌*◌, ◌≤◌, ◌<◌, ◌≡◌, refl, ◌≢◌, ◌↔◌, ◌⊎◌, inl, inr, ok, err, arith, Bool-cases,
  ok_of_not_err,
}
use fortis.Chain.{bitcoin, blake2b, bitcoin_regtest, blake2b_regtest}
use fortis.Error.{WalletError, terms_rejected}
use fortis.Error
use fortis.Terms.{
  SwapTerms, SwapRole, initiator, participant, btc_for_xbt, network_params, validate_terms,
  validate_terms_on, swap_timelocks, min_btc_leg_sat, max_price_sat_per_xbt, contract_v1,
  contract_v2, swap_fee_bps, xbt_confs_required, btc_confs_required, accept_secs,
  initiator_fund_secs, max_clock_skew_secs, locktime_tolerance_secs,
}

-- Within the tolerance of one another.
abbrev pub Near : ℕ → ℕ → Type 0
Near a b = (a ≤ b + locktime_tolerance_secs) × (b ≤ a + locktime_tolerance_secs)

-- The locktimes lie where the network's leg lengths put them.
abbrev pub HasLegs : SwapTerms → (xbt_leg btc_leg : ℕ) → Type 0
HasLegs t xbt_leg btc_leg =
    Near t.xbt_locktime (t.matched_at + xbt_leg) × Near t.btc_locktime (t.matched_at + btc_leg)

-- The price is at least as good for the role as its limit.
abbrev pub KeepsLimit : SwapRole → (price limit : ℕ) → Type 0
KeepsLimit initiator price limit = limit ≤ price
KeepsLimit participant price limit = price ≤ limit

-- Terms that a wallet may accept, with no reference to the order of the checks.
pub record IsAcceptable (t : SwapTerms) (limit : ℕ) (role : SwapRole) (now : ℕ) : Type 0 where
  pub legs :
      (t.network ≡ "bitcoin") × HasLegs t (48 * 3600) (24 * 3600)
      ⊎ (t.network ≡ "regtest") × HasLegs t 1800 600
  pub version : (t.contract_version ≡ contract_v1) ⊎ (t.contract_version ≡ contract_v2)
  pub dated : t.matched_at ≤ now + max_clock_skew_secs
  pub has_limit : 0 < limit
  pub has_price : 0 < t.price_sat_per_xbt
  pub price_capped : t.price_sat_per_xbt ≤ max_price_sat_per_xbt
  pub keeps_limit : KeepsLimit role t.price_sat_per_xbt limit
  pub amount : t.btc_sat ≡ btc_for_xbt t.xbt_sat t.price_sat_per_xbt
  pub large_enough : min_btc_leg_sat ≤ t.btc_sat
  pub fee : t.fee_bps ≡ swap_fee_bps
  pub xbt_depth : t.xbt_confs ≡ xbt_confs_required
  pub btc_depth : t.btc_confs ≡ btc_confs_required
  pub accept_deadline : t.accept_by ≡ t.matched_at + accept_secs
  pub fund_deadline : t.initiator_fund_by ≡ t.accept_by + initiator_fund_secs
  pub in_time : now ≤ t.accept_by

-- The three answers of `network_params`.
pub network_cases :
    (n : String)
    → ((n ≡ "bitcoin") × (network_params n ≡ ok (bitcoin, blake2b)))
      ⊎ (((n ≡ "regtest") × (network_params n ≡ ok (bitcoin_regtest, blake2b_regtest)))
          ⊎ ((n ≢ "bitcoin")
              × (n ≢ "regtest")
              × (network_params n ≡ err (terms_rejected (Error.unknown_network n)))))
unfolding network_params
network_cases n = elim (Bool-cases (str_eq n "bitcoin")) [
  | inl p ↦ inl ((eq_iff _ _).0 p, rw p refl)
  | inr p ↦ elim (Bool-cases (str_eq n "regtest")) [
    | inl q ↦ inr (inl ((eq_iff _ _).0 q, rw (p, q) refl))
    | inr q ↦ inr (
        inr
          (ground (arith, eq_iff n "bitcoin"), ground (arith, eq_iff n "regtest"), rw (p, q) refl))
  ]
]

pub network_params_of_bitcoin :
    {n : String} → n ≡ "bitcoin" → network_params n ≡ ok (bitcoin, blake2b)
unfolding network_params
network_params_of_bitcoin e = rw e refl

pub network_params_of_regtest :
    {n : String} → n ≡ "regtest" → network_params n ≡ ok (bitcoin_regtest, blake2b_regtest)
unfolding network_params
network_params_of_regtest e = rw e refl

module _ (t : SwapTerms) (limit : ℕ) (now : ℕ) where
  sound :
      (role : SwapRole) → validate_terms t limit role now ≡ ok tt → IsAcceptable t limit role now
  unfolding validate_terms swap_timelocks
  sound initiator h = elim (network_cases t.network) [
    | inl (n, e) ↦ let h' = (rw e at h) in ground arith
    | inr (inl (n, e)) ↦ let h' = (rw e at h) in ground arith
    | inr (inr (_, _, e)) ↦ let h' = (rw e at h) in ground arith
  ]
  sound participant h = elim (network_cases t.network) [
    | inl (n, e) ↦ let h' = (rw e at h) in ground arith
    | inr (inl (n, e)) ↦ let h' = (rw e at h) in ground arith
    | inr (inr (_, _, e)) ↦ let h' = (rw e at h) in ground arith
  ]

  not_refused :
      (role : SwapRole) (e : WalletError)
      → IsAcceptable t limit role now
      → validate_terms t limit role now ≢ err e
  unfolding validate_terms swap_timelocks
  not_refused initiator e a h = elim a.legs [
    | inl (n, l) ↦ let h' = (rw (network_params_of_bitcoin n) at h) in ground arith
    | inr (n, l) ↦ let h' = (rw (network_params_of_regtest n) at h) in ground arith
  ]
  not_refused participant e a h = elim a.legs [
    | inl (n, l) ↦ let h' = (rw (network_params_of_bitcoin n) at h) in ground arith
    | inr (n, l) ↦ let h' = (rw (network_params_of_regtest n) at h) in ground arith
  ]

  complete :
      (role : SwapRole) → IsAcceptable t limit role now → validate_terms t limit role now ≡ ok tt
  complete role a = ok_of_not_err (validate_terms t limit role now) (λ e. not_refused role e a)

-- A wallet accepts terms exactly when they are acceptable: on a known network with its leg lengths
-- within the tolerance, of a known contract version, not dated in the future, at a price within
-- bounds and no worse than the limit, with the amounts, fee, depths and deadlines of the protocol,
-- and before the accept deadline.
pub validate_terms_iff :
    (t : SwapTerms) (limit : ℕ) (role : SwapRole) (now : ℕ)
    → (validate_terms t limit role now ≡ ok tt) ↔ IsAcceptable t limit role now
validate_terms_iff t limit role now = (sound t limit now role, complete t limit now role)

-- The check for a given network accepts exactly the acceptable terms that name that network.
pub validate_terms_on_iff :
    (t : SwapTerms) (network : String) (limit : ℕ) (role : SwapRole) (now : ℕ)
    → (validate_terms_on t network limit role now ≡ ok tt)
      ↔ ((t.network ≡ network) × IsAcceptable t limit role now)
unfolding validate_terms_on
validate_terms_on_iff t network limit role now =
    ground (arith, eq_iff t.network network, validate_terms_iff t limit role now)
