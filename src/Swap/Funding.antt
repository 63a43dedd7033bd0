-- ===== src/Swap/Funding.antt =====
-- crates/wallet-core/src/swap.rs: which output of the counterparty's funding transaction is taken.
use fortis.Common.{
  ℕ, suc, ◌+◌, ◌≡◌, refl, sym, ap, subst, Bool, true, false, ◌&&◌, Option, none, some, List, [],
  ◌∷◌, ◌++◌, Result, ok, err, ◌>>=◌, ok_or, if◌then◌else◌, length, arith, ◌==◌,
}
use fortis.Chain.{ChainParams}
use fortis.Error.{WalletError, contract_mismatch}
use fortis.Htlc.{Crate, HtlcContract, Output, position_from, find_exact_output}
use fortis.Swap.{SwapMachine, expected_their_contract, verify_their_contract}

-- An output of a value for a script stands at an index.
pub record IsAt (script value : ℕ) (outputs : List Output) (index : ℕ) : Type 0 where
  pub before : List Output
  pub after : List Output
  pub split : outputs ≡ before ++ record { value = value; script_pubkey = script } ∷ after
  pub place : index ≡ length before

-- The same, where the indices start elsewhere.
record IsFrom (script value : ℕ) (outputs : List Output) (start index : ℕ) : Type 0 where
  before : List Output
  after : List Output
  split : outputs ≡ before ++ record { value = value; script_pubkey = script } ∷ after
  place : index ≡ start + length before

here :
    (script value : ℕ) (o : Output) (os : List Output) (start : ℕ)
    → o.script_pubkey ≡ script
    → o.value ≡ value
    → IsFrom script value (o ∷ os) start start
here script value o os start e f = record {
  before = [];
  after = os;
  split = λ i. record { value = f i; script_pubkey = e i } ∷ os;
  place = omega arith;
}

later :
    (script value : ℕ) (o : Output) (os : List Output) (start index : ℕ)
    → IsFrom script value os (suc start) index
    → IsFrom script value (o ∷ os) start index
later script value o os start index f = record {
  before = o ∷ f.before;
  after = f.after;
  split = ap (λ l. o ∷ l) f.split;
  place = omega (arith, f.place);
}

position-IsFrom :
    (c : HtlcContract) (value start index : ℕ) (os : List Output)
    → position_from c value start os ≡ some index
    → IsFrom c.script_pubkey value os start index
unfolding position_from
position-IsFrom c value start index [] h = absurd (ground (arith, h))
position-IsFrom c value start index (o ∷ os) h =
    go (position-IsFrom c value (suc start) index os)
      (o.script_pubkey == c.script_pubkey && o.value == value) refl h
  where
    go :
        (position_from c value (suc start) os ≡ some index
          → IsFrom c.script_pubkey value os (suc start) index)
        → (b : Bool) → (o.script_pubkey == c.script_pubkey && o.value == value) ≡ b
        → (if b then some start else position_from c value (suc start) os) ≡ some index
        → IsFrom c.script_pubkey value (o ∷ os) start index
    go IH false e h = later c.script_pubkey value o os start index (IH h)
    go IH true e h =
        subst (λ n. IsFrom c.script_pubkey value (o ∷ os) start n) (cc h)
          (here c.script_pubkey value o os start (ground (arith, e)) (ground (arith, e)))

zero-IsAt :
    (c : HtlcContract) (value : ℕ) (os : List Output) (start index : ℕ)
    → start ≡ 0
    → IsFrom c.script_pubkey value os start index
    → IsAt c.script_pubkey value os index
zero-IsAt c value os start index z f = record {
  before = f.before;
  after = f.after;
  split = f.split;
  place = omega (arith, f.place, z);
}

module _ (B : Crate) (txid : ℕ) (outputs : List Output) (chain : ChainParams) (m m' : SwapMachine)
    (outpoint : ℕ × ℕ) where
  -- What a check that passed has found.
  abbrev Verified : Type 0
  Verified =
      (c : HtlcContract) × (expected_their_contract B chain m.params ≡ ok c)
      × (outpoint.0 ≡ txid)
      × IsAt c.script_pubkey m.params.recv_amount outputs outpoint.1
      × (m' ≡ record m { their_contract = some c })

  taken :
      (c : HtlcContract) (k : ℕ)
      → expected_their_contract B chain m.params ≡ ok c
      → position_from c m.params.recv_amount 0 outputs ≡ some k
      → (txid, k) ≡ outpoint
      → record m { their_contract = some c } ≡ m'
      → Verified
  taken c k e p o r = (
    c,
    e,
    sym (ap (λ (x : ℕ × ℕ). x.0) o),
    subst (λ n. IsAt c.script_pubkey m.params.recv_amount outputs n) (ap (λ (x : ℕ × ℕ). x.1) o)
        (zero-IsAt c m.params.recv_amount outputs 0 k refl
          (position-IsFrom c m.params.recv_amount 0 k outputs p)),
    sym r,
  )

  at_position :
      (c : HtlcContract)
      → expected_their_contract B chain m.params ≡ ok c
      → (o : Option ℕ) → position_from c m.params.recv_amount 0 outputs ≡ o
      → ◌>>=◌ {B = (ℕ × ℕ) × SwapMachine}
          (ok_or o contract_mismatch)
          (λ k. ok ((txid, k), record m { their_contract = some c }))
        ≡ ok (outpoint, m')
      → Verified
  at_position c e none p h = absurd (cc h)
  at_position c e (some k) p h = taken c k e p (cc h) (cc h)

  at_contract :
      (r : Result WalletError HtlcContract)
      → expected_their_contract B chain m.params ≡ r
      → ◌>>=◌ {B = (ℕ × ℕ) × SwapMachine} r (λ c.
        ok_or (position_from c m.params.recv_amount 0 outputs) contract_mismatch >>= λ k.
        ok ((txid, k), record m { their_contract = some c }))
        ≡ ok (outpoint, m')
      → Verified
  at_contract (err e) q h = absurd (cc h)
  at_contract (ok c) q h = at_position c q (position_from c m.params.recv_amount 0 outputs) refl h

-- A funding transaction passes only with an output of just the agreed amount to the script of the
-- expected contract, which is the output that is returned, and the machine then holds that contract.
pub verify_their_contract-IsAt :
    (B : Crate) (txid : ℕ) (outputs : List Output) (chain : ChainParams) (m m' : SwapMachine)
    (outpoint : ℕ × ℕ)
    → verify_their_contract B (txid, outputs) chain m ≡ ok (outpoint, m')
    → (c : HtlcContract) × (expected_their_contract B chain m.params ≡ ok c)
      × (outpoint.0 ≡ txid)
      × IsAt c.script_pubkey m.params.recv_amount outputs outpoint.1
      × (m' ≡ record m { their_contract = some c })
unfolding verify_their_contract find_exact_output
verify_their_contract-IsAt B txid outputs chain m m' outpoint h =
    at_contract B txid outputs chain m m' outpoint (expected_their_contract B chain m.params) refl h
