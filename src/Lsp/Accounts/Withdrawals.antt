-- ===== src/Lsp/Accounts/Withdrawals.antt =====
-- crates/fortis-lsp/src/account_api.rs: what a withdrawal leaves of the accounts.
use fortis.Common.{
  ℕ, ◌+◌, ◌*◌, ◌/◌, ◌%◌, ◌≤◌, ◌≡◌, refl, min, Bool, true, false, ◌&&◌, Option, none, some,
  if◌then◌else◌, ltb, leb, ◌==◌, Result, ok, arith, inl, inr, subst, sym, u64, leb→le,
}
use fortis.Lsp.Records.{
  Hold, HoldKind, Ledger, LedgerError, insufficient_balance, unknown_hold, db, as_i64, i64_max,
  balance_in, held_in,
}
use fortis.Lsp.Ledger.{hold_withdrawal, settle_hold, settle_withdrawal}
use fortis.Lsp.Ledger.Balances.{if_node}
use fortis.Lsp.Ledger.Books.{IsBooked}
use fortis.Lsp.Ledger.Settling.{IsClosed, settle_hold_open, settle_withdrawal_open}
use fortis.Lsp.Accounts.Holds.{
  placed, hold_of, hold_kind-cases, placed-named, placed-IsBooked, placed-IsClosed,
}
use fortis.Lsp.Conversion.{Withdrawal, withdrawal, IsPriced, withdrawal-IsPriced}
use fortis.Lsp.Accounts.{
  HoldIds, OnchainSend, broadcast, no_address, node_error, NodeAnswers, Accounts, Reply, refused,
  withdrawn_as, Outcome, Refusal, too_small, bad_params, insufficient, refuse, stored, refused_or,
  send_withdrawal, held_withdrawal, priced_withdrawal, withdraw, bad_address, node_failed,
}

priced_sum :
    (amount feerate : ℕ) (w : Withdrawal)
    → feerate ≤ 500
    → withdrawal (amount / 1000) feerate ≡ some w
    → w.payout_sat + w.fee_sat ≡ amount / 1000
priced_sum amount feerate w rate e =
    (subst (IsPriced (amount / 1000) feerate) e
      (withdrawal-IsPriced (amount / 1000) feerate rate)).0

-- What a reply says was taken from the account.
abbrev taken : ℕ → Result LedgerError Reply → ℕ
taken amount (ok (withdrawn_as txid payout fee)) = amount
taken amount _ = 0

-- What a reply says was paid out is what the node was told to send and broadcast in that
-- transaction, and with the fee it adds up to the amount.
abbrev PaysOut : NodeAnswers → Option ℕ → ℕ → ℕ → Result LedgerError Reply → Type 0
PaysOut n to feerate amount (ok (withdrawn_as txid payout fee)) =
    ((payout + fee) * 1000 ≡ amount)
    × ((address : ℕ) × (to ≡ some address)
        × (n.send_onchain address payout feerate ≡ broadcast txid))
PaysOut n to feerate amount _ = Unit

abbrev pub IsWithdrawn : NodeAnswers → Option ℕ → ℕ → Accounts → ℕ → ℕ → Outcome → Type 0
IsWithdrawn n to feerate a node amount out =
    ((j : ℕ)
      → balance_in out.0.ledger.accounts j + if_node node j (taken amount out.1)
        ≡ balance_in a.ledger.accounts j)
    × ((j : ℕ) → held_in out.0.ledger.holds j ≡ held_in a.ledger.holds j)
    × PaysOut n to feerate amount out.1

untouched :
    (n : NodeAnswers) (to : Option ℕ) (feerate : ℕ) (a : Accounts) (node amount status : ℕ)
    (r : Refusal)
    → IsWithdrawn n to feerate a node amount (refuse status r a)
untouched n to feerate a node amount status r = (λ j. ground arith, λ j. refl, tt)

module _ (now : ℕ) (n : NodeAnswers) (id node amount address feerate : ℕ) (a : Accounts)
    (fits : amount ≤ i64_max) where
  abbrev held_ledger : Ledger
  held_ledger = placed node id amount amount HoldKind.withdraw a.ledger

  abbrev held : Accounts
  held = record a { ledger = held_ledger }

  abbrev new_hold : Hold
  new_hold = hold_of node id amount amount HoldKind.withdraw

  exact : as_i64 amount ≡ amount
  unfolding as_i64
  exact = omega (arith, fits)

  min_zero : (m : ℕ) → min 0 m ≡ 0
  min_zero m = omega arith

  refused_again :
      (b : IsBooked held_ledger) (status : ℕ) (r : Refusal)
      → IsWithdrawn n
          (some address)
          feerate
          a
          node
          amount
          (stored held (refused status r) (settle_hold now id 0 0 none held_ledger))
  refused_again b status r =
      let (after, e, c) =
        settle_hold_open now id new_hold held_ledger b
          (placed-named node id amount amount HoldKind.withdraw a.ledger) 0 0 none in
      let back =
        placed-IsClosed node id amount amount HoldKind.withdraw a.ledger 0 after
          (subst (λ m. IsClosed held_ledger id new_hold m after) (min_zero (as_i64 amount)) c) in
      subst
        (λ x. IsWithdrawn n (some address) feerate a node amount (stored held (refused status r) x))
        (sym e) (back.0, back.1, tt)

  sent_out :
      (b : IsBooked held_ledger) (w : Withdrawal) (fee txid : ℕ)
      → (w.payout_sat + w.fee_sat) * 1000 ≡ amount
      → n.send_onchain address w.payout_sat feerate ≡ broadcast txid
      → IsWithdrawn n (some address) feerate a node amount (
          stored held
            (withdrawn_as txid w.payout_sat w.fee_sat)
            (settle_withdrawal now id fee txid held_ledger))
  sent_out b w fee txid whole told =
      let (after, e, c) =
        settle_withdrawal_open now id new_hold held_ledger b
          (placed-named node id amount amount HoldKind.withdraw a.ledger) fee txid in
      let back =
        placed-IsClosed node id amount amount HoldKind.withdraw a.ledger (as_i64 amount) after c in
      subst
        (λ x.
          IsWithdrawn n (some address) feerate a node amount
            (stored held (withdrawn_as txid w.payout_sat w.fee_sat) x))
        (sym e)
        (
          λ j.
              subst
                (λ m.
                  balance_in after.accounts j + if_node node j m ≡ balance_in a.ledger.accounts j)
                exact (back.0 j),
          back.1,
          (whole, (address, refl, told)),
        )

  refused_or-IsWithdrawn :
      (e : LedgerError) → IsWithdrawn n (some address) feerate a node amount (refused_or a e)
  refused_or-IsWithdrawn insufficient_balance =
      untouched n (some address) feerate a node amount 402 insufficient
  refused_or-IsWithdrawn (unknown_hold i) = (λ j. ground arith, λ j. refl, tt)
  refused_or-IsWithdrawn db = (λ j. ground arith, λ j. refl, tt)

  sent_or_refused :
      (b : IsBooked held_ledger) (w : Withdrawal) (o : OnchainSend)
      → (w.payout_sat + w.fee_sat) * 1000 ≡ amount
      → n.send_onchain address w.payout_sat feerate ≡ o
      → IsWithdrawn n (some address) feerate a node amount (send_withdrawal now id w o held)
  unfolding send_withdrawal
  sent_or_refused b w (broadcast txid) whole told =
      sent_out b w (u64 (w.fee_sat * 1000)) txid whole told
  sent_or_refused b w no_address whole told = refused_again b 400 bad_address
  sent_or_refused b w node_error whole told = refused_again b 502 node_failed

  held_or_refused :
      (w : Withdrawal)
      → IsBooked a.ledger
      → (w.payout_sat + w.fee_sat) * 1000 ≡ amount
      → IsWithdrawn n
          (some address)
          feerate
          a
          node
          amount
          (held_withdrawal now n id address feerate w a (hold_withdrawal node id amount a.ledger))
  unfolding held_withdrawal hold_withdrawal
  held_or_refused w b whole =
      elim (hold_kind-cases node id amount amount HoldKind.withdraw a.ledger) [
        | inl (e, f) ↦
            subst
              (λ r.
                IsWithdrawn n (some address) feerate a node amount
                  (held_withdrawal now n id address feerate w a r))
              (sym f) (refused_or-IsWithdrawn e)
        | inr f ↦
            subst
              (λ r.
                IsWithdrawn n (some address) feerate a node amount
                  (held_withdrawal now n id address feerate w a r))
              (sym f)
              (sent_or_refused
                (placed-IsBooked node id amount amount HoldKind.withdraw a.ledger b f) w
                (n.send_onchain address w.payout_sat feerate) whole refl)
      ]

  priced :
      (o : Option Withdrawal)
      → withdrawal (amount / 1000) feerate ≡ o
      → (amount % 1000 == 0) ≡ true
      → feerate ≤ 500
      → IsBooked a.ledger
      → IsWithdrawn n
          (some address)
          feerate
          a
          node
          amount
          (priced_withdrawal now n id node amount address feerate o a)
  unfolding priced_withdrawal
  priced none e m rate b = untouched n (some address) feerate a node amount 400 too_small
  priced (some w) e m rate b =
      held_or_refused w b (ground (arith, m, priced_sum amount feerate w rate e))

-- A withdrawal from booked accounts either moves the whole amount out, and what is paid out and
-- the fee add up to it, or takes nothing; what is paid out is what the node was told to send to the
-- address, and broadcast: whatever the reply or the error, no other account's
-- balance changes, and what is held for each account is as before.
pub withdraw-IsWithdrawn :
    (ids : HoldIds) (now : ℕ) (n : NodeAnswers) (node nonce amount : ℕ) (address : Option ℕ)
    (feerate : ℕ) (a : Accounts)
    → IsBooked a.ledger
    → amount ≤ i64_max
    → IsWithdrawn n address feerate a node amount
        (withdraw ids now n node nonce amount address feerate a)
unfolding withdraw
withdraw-IsWithdrawn ids now n node nonce amount none feerate a b fits =
    untouched n none feerate a node amount 400 bad_params
withdraw-IsWithdrawn ids now n node nonce amount (some address) feerate a b fits =
    guarded (ltb 0 amount) (amount % 1000 == 0) (leb 1 feerate) (leb feerate 500) refl refl
  where
    asked : Outcome
    asked =
        priced_withdrawal now n (ids.withdrawal_hold_id node nonce) node amount address feerate
          (withdrawal (amount / 1000) feerate) a

    guarded :
        (p q r t : Bool)
        → (amount % 1000 == 0) ≡ q
        → leb feerate 500 ≡ t
        → IsWithdrawn n
            (some address)
            feerate
            a
            node
            amount
            (if p && q && r && t then asked else refuse 400 bad_params a)
    guarded true true true true q t =
        priced now n (ids.withdrawal_hold_id node nonce) node amount address feerate a fits
          (withdrawal (amount / 1000) feerate) refl q (leb→le feerate 500 t) b
    guarded true true true false q t =
        untouched n (some address) feerate a node amount 400 bad_params
    guarded true true false t' q t = untouched n (some address) feerate a node amount 400 bad_params
    guarded true false r t' q t = untouched n (some address) feerate a node amount 400 bad_params
    guarded false q' r t' q t = untouched n (some address) feerate a node amount 400 bad_params
