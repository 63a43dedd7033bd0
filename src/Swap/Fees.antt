-- ===== src/Swap/Fees.antt =====
-- crates/wallet-core/src/swap.rs: the fees that a contract's spends are signed at.
use fortis.Common.{
  ℕ, ◌+◌, ◌-◌, ◌≤◌, ◌<◌, ◌≡◌, ◌≢◌, ◌∙◌, refl, sym, subst, min, Bool, true, false, List, [], ◌∷◌,
  ◌++◌, Result, ok, err, ◌>>=◌, ◌==◌, arith, All, any, if◌then◌else◌,
}
use fortis.Error.{WalletError, add_amounts}
use fortis.Htlc.{Crate, HtlcContract, HtlcPath, htlc_spend_fee}
use fortis.Swap.{push_fee, fees_from, spend_fees, max_swap_feerate_sat_vb}

-- No fee twice.
abbrev pub IsDistinct : List ℕ → Type 0
IsDistinct [] = Unit
IsDistinct (f ∷ fs) = All (λ g. f ≢ g) fs × IsDistinct fs

-- Fees that each leave the payout at least its dust limit.
pub record IsLadder (value dust : ℕ) (fees : List ℕ) : Type 0 where
  pub leaves_dust : All (λ f. f + dust ≤ value) fees
  pub distinct : IsDistinct fees

All-snoc {κ} : (P : ℕ → Type κ) (fs : List ℕ) (f : ℕ) → All P fs → P f → All P (fs ++ f ∷ [])
All-snoc P [] f a p = (p, tt)
All-snoc P (g ∷ fs) f a p = (a.0, All-snoc P fs f a.1 p)

distinct_snoc :
    (fs : List ℕ) (f : ℕ) → IsDistinct fs → any (λ g. g == f) fs ≡ false → IsDistinct (fs ++ f ∷ [])
unfolding any
distinct_snoc [] f d a = (tt, tt)
distinct_snoc (g ∷ fs) f d a = (
  All-snoc (λ x. g ≢ x) fs f d.0 (λ e. ground (arith, a, e)),
  distinct_snoc fs f d.1 (ground (arith, a)),
)

snoc-IsLadder :
    (value dust : ℕ) (fs : List ℕ) (f : ℕ)
    → IsLadder value dust fs
    → f + dust ≤ value
    → IsLadder value dust (if any (λ g. g == f) fs then fs else fs ++ f ∷ [])
snoc-IsLadder value dust fs f l le = go (any (λ g. g == f) fs) refl
  where
    go :
        (b : Bool) → any (λ g. g == f) fs ≡ b → IsLadder value dust (if b then fs else fs ++ f ∷ [])
    go true e = l
    go false e = record {
      leaves_dust = All-snoc (λ g. g + dust ≤ value) fs f l.leaves_dust le;
      distinct = distinct_snoc fs f l.distinct e;
    }

-- A fee that is taken is clamped to what leaves the dust limit.
push_parts :
    (value dust fee : ℕ) (fs gs : List ℕ)
    → push_fee value dust fs fee ≡ ok gs
    → (dust < value)
      × (gs ≡ (
          if any (λ g. g == min fee (value - dust)) fs
          then fs
          else fs ++ min fee (value - dust) ∷ []))
unfolding push_fee add_amounts
push_parts value dust fee fs gs h = ground arith

push-IsLadder :
    (value dust fee : ℕ) (fs gs : List ℕ)
    → push_fee value dust fs fee ≡ ok gs
    → IsLadder value dust fs
    → IsLadder value dust gs
push-IsLadder value dust fee fs gs h l =
    let p = push_parts value dust fee fs gs h in
    rw p.1 (snoc-IsLadder value dust fs (min fee (value - dust)) l (omega (arith, p.0)))

-- A fee that was taken is there.
some_taken : (fs : List ℕ) (f : ℕ) → (if any (λ g. g == f) fs then fs else fs ++ f ∷ []) ≢ []
unfolding any
some_taken [] f e = ground (arith, e)
some_taken (g ∷ fs) f e = ground (arith, e)

push_some : (value dust fee : ℕ) (fs gs : List ℕ) → push_fee value dust fs fee ≡ ok gs → gs ≢ []
push_some value dust fee fs gs h e =
    some_taken fs (min fee (value - dust)) (sym (push_parts value dust fee fs gs h).1 ∙ e)

module _ (B : Crate) where
  -- A rate taken, and the rest of the rates.
  fees_step :
      (c : HtlcContract) (path : HtlcPath) (dust rate : ℕ) (rates fs gs : List ℕ)
      → fees_from B c path dust fs (rate ∷ rates) ≡ ok gs
      → (fee : ℕ) × (mid : List ℕ) × (push_fee c.value dust fs fee ≡ ok mid)
        × (fees_from B c path dust mid rates ≡ ok gs)
  unfolding fees_from
  fees_step c path dust rate rates fs gs h =
      at_fee (htlc_spend_fee B c path (min rate max_swap_feerate_sat_vb)) h
    where
      at_push :
          (fee : ℕ) (m : Result WalletError (List ℕ))
          → push_fee c.value dust fs fee ≡ m
          → (m >>= λ mid. fees_from B c path dust mid rates) ≡ ok gs
          → (fee : ℕ) × (mid : List ℕ) × (push_fee c.value dust fs fee ≡ ok mid)
            × (fees_from B c path dust mid rates ≡ ok gs)
      at_push fee (err e) em h = absurd (cc h)
      at_push fee (ok mid) em h = (fee, mid, em, h)

      at_fee :
          (r : Result WalletError ℕ)
          → (r >>= λ fee. push_fee c.value dust fs fee >>= λ mid. fees_from B c path dust mid rates)
            ≡ ok gs
          → (fee : ℕ) × (mid : List ℕ) × (push_fee c.value dust fs fee ≡ ok mid)
            × (fees_from B c path dust mid rates ≡ ok gs)
      at_fee (err e) h = absurd (cc h)
      at_fee (ok fee) h = at_push fee (push_fee c.value dust fs fee) refl h

  ended :
      (c : HtlcContract) (path : HtlcPath) (dust : ℕ) (fs gs : List ℕ)
      → fees_from B c path dust fs [] ≡ ok gs
      → fs ≡ gs
  unfolding fees_from
  ended c path dust fs gs h = cc h

  fees_from-IsLadder :
      (c : HtlcContract) (path : HtlcPath) (dust : ℕ) (rates fs gs : List ℕ)
      → fees_from B c path dust fs rates ≡ ok gs
      → IsLadder c.value dust fs
      → IsLadder c.value dust gs
  fees_from-IsLadder c path dust [] fs gs h l =
      subst (λ x. IsLadder c.value dust x) (ended c path dust fs gs h) l
  fees_from-IsLadder c path dust (rate ∷ rates) fs gs h l =
      let (fee, mid, p, k) = fees_step c path dust rate rates fs gs h in
      fees_from-IsLadder c path dust rates mid gs k (push-IsLadder c.value dust fee fs mid p l)

  fees_from_some :
      (c : HtlcContract) (path : HtlcPath) (dust : ℕ) (rates fs gs : List ℕ)
      → fees_from B c path dust fs rates ≡ ok gs
      → fs ≢ []
      → gs ≢ []
  fees_from_some c path dust [] fs gs h l e = l (ended c path dust fs gs h ∙ e)
  fees_from_some c path dust (rate ∷ rates) fs gs h l e =
      let (fee, mid, p, k) = fees_step c path dust rate rates fs gs h in
      fees_from_some c path dust rates mid gs k (push_some c.value dust fee fs mid p) e

  -- The fees that a contract's spends are signed at: at least one, none twice, and each leaves
  -- the payout at least the dust limit of its script.
  pub spend_fees-IsLadder :
      (c : HtlcContract) (path : HtlcPath) (to : ℕ) (rates fees : List ℕ)
      → spend_fees B c path to rates ≡ ok fees
      → (fees ≢ []) × IsLadder c.value (B.minimal_non_dust to) fees
  unfolding spend_fees
  spend_fees-IsLadder c path to [] fees h = absurd (ground (arith, h))
  spend_fees-IsLadder c path to (rate ∷ rates) fees h =
      let (fee, mid, p, k) = fees_step c path (B.minimal_non_dust to) rate rates [] fees h in
      (
        fees_from_some c path (B.minimal_non_dust to) rates mid fees k
            (push_some c.value (B.minimal_non_dust to) fee [] mid p),
        fees_from-IsLadder c path (B.minimal_non_dust to) (rate ∷ rates) [] fees h
            (record { leaves_dust = tt; distinct = tt }),
      )
