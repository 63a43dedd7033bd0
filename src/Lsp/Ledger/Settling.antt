-- ===== src/Lsp/Ledger/Settling.antt =====
-- crates/fortis-lsp/src/account.rs: closing a hold. The ledger is one that its own operations have
-- made.
use fortis.Common.{
  ℕ, ◌+◌, ◌≤◌, ◌≡◌, refl, false, some, inl, inr, List, ltb, min, neg, inflow-neg, outflow-neg, ok,
  arith, Option, Bool-cases,
}
use fortis.Lsp.Records.{
  Hold, EntryKind, RevenueKind, Reference, Ledger, as_i64, balance_in, held_in, hold_named,
  drop_hold,
}
use fortis.Lsp.Ledger.{
  empty_ledger, insert_entry, take_hold, pay_from_hold, settle_hold, settle_withdrawal,
  finish_conversion_by, debit,
}
use fortis.Lsp.Ledger.Revenue.{insert_fee}
use fortis.Lsp.Ledger.Balances.{
  if_node, moved, balance_in-moved, held_in-drop_hold, hold_named_fits,
}
use fortis.Lsp.Ledger.Books.{IsBooked, entered}
use fortis.Lsp.Ledger.Kept.{released_room, debit_released}
use fortis.Lsp.Ledger.Runs.{Op, run, run-IsBooked}

-- The hold is gone, with `spent` of it: no other node's account has changed.
abbrev pub IsClosed : Ledger → ℕ → Hold → ℕ → Ledger → Type 0
IsClosed l id h spent after =
    (after.holds ≡ drop_hold l.holds id)
    × ((j : ℕ) → balance_in after.accounts j + if_node h.node j spent ≡ balance_in l.accounts j)
    × ((j : ℕ) → held_in after.holds j + if_node h.node j h.amount ≡ held_in l.holds j)

module _ (now id : ℕ) (h : Hold) (l : Ledger) (b : IsBooked l)
    (e : hold_named l.holds id ≡ some h) where
  abbrev rest : Ledger
  rest = record l { holds = drop_hold l.holds id }

  held : (j : ℕ) → held_in (drop_hold l.holds id) j + if_node h.node j h.amount ≡ held_in l.holds j
  held j = held_in-drop_hold l.holds id h j b.0 e

  debited_balance :
      (spent j : ℕ)
      → spent ≤ h.amount
      → balance_in (moved l.accounts h.node (neg (as_i64 spent))) j + if_node h.node j spent
        ≡ balance_in l.accounts j
  unfolding as_i64
  debited_balance spent j le = ground (
    arith,
    le,
    balance_in-moved l.accounts h.node (neg (as_i64 spent)) j,
    released_room id h l b e h.node,
    hold_named_fits l.holds id h b.0 e,
    inflow-neg (as_i64 spent),
    outflow-neg (as_i64 spent),
  )

  abbrev debited : EntryKind → ℕ → ℕ → Option ℕ → Ledger
  debited kind spent fee hash = entered now h.node kind (neg (as_i64 spent)) (as_i64 fee) hash rest

  debited-IsClosed :
      (kind : EntryKind) (spent fee : ℕ) (hash : Option ℕ)
      → spent ≤ h.amount
      → (debit now h.node kind spent fee hash rest ≡ ok (debited kind spent fee hash))
        × IsClosed l id h spent (debited kind spent fee hash)
  unfolding insert_entry
  debited-IsClosed kind spent fee hash le = (
    (debit_released now kind spent fee hash id h l b e le).0,
    (refl, λ j. debited_balance spent j le, held),
  )

  fee_booked :
      (kind : RevenueKind) (fee spent : ℕ) (reference : Reference) (after : Ledger)
      → IsClosed l id h spent after
      → IsClosed l id h spent (insert_fee now kind fee h.node reference after)
  unfolding insert_fee
  fee_booked kind fee spent reference after c = ground (arith, c)

  pub settle_hold_open :
      (spent fee : ℕ) (hash : Option ℕ)
      → (after : Ledger) × (settle_hold now id spent fee hash l ≡ ok after)
        × IsClosed l id h (min spent h.amount) after
  unfolding settle_hold take_hold pay_from_hold
  settle_hold_open spent fee hash =
      let paid = debited-IsClosed EntryKind.sent (min spent h.amount) fee hash (omega arith) in
      elim (Bool-cases (ltb 0 (min spent h.amount))) [
        | inl p ↦ (debited EntryKind.sent (min spent h.amount) fee hash, rw (e, p) paid.0, paid.1)
        | inr p ↦ (rest, rw (e, p) refl, (refl, λ j. nothing j p, held))
      ]
    where
      nothing :
          (j : ℕ)
          → ltb 0 (min spent h.amount) ≡ false
          → balance_in l.accounts j + if_node h.node j (min spent h.amount)
            ≡ balance_in l.accounts j
      nothing j p = ground (arith, p)

  pub settle_withdrawal_open :
      (fee txid : ℕ)
      → (after : Ledger) × (settle_withdrawal now id fee txid l ≡ ok after)
        × IsClosed l id h h.amount after
  unfolding settle_withdrawal take_hold
  settle_withdrawal_open fee txid =
      let paid = debited-IsClosed EntryKind.withdrawn h.amount fee (some txid) (omega arith) in
      (
        insert_fee now RevenueKind.withdrawal_fee fee h.node (Reference.of_withdrawal (some txid))
            (debited EntryKind.withdrawn h.amount fee (some txid)),
        rw (e, paid.0) refl,
        fee_booked RevenueKind.withdrawal_fee fee h.amount (Reference.of_withdrawal (some txid))
            (debited EntryKind.withdrawn h.amount fee (some txid)) paid.1,
      )

  pub finish_conversion_open :
      (fee : ℕ) (hash : Option ℕ)
      → (after : Ledger) × (finish_conversion_by now id fee hash l ≡ ok after)
        × IsClosed l id h h.amount after
  unfolding finish_conversion_by take_hold
  finish_conversion_open fee hash =
      let paid = debited-IsClosed EntryKind.converted h.amount fee hash (omega arith) in
      (
        insert_fee now RevenueKind.channel_fee fee h.node (Reference.of_conversion id)
            (debited EntryKind.converted h.amount fee hash),
        rw (e, paid.0) refl,
        fee_booked RevenueKind.channel_fee fee h.amount (Reference.of_conversion id)
            (debited EntryKind.converted h.amount fee hash) paid.1,
      )

-- In a ledger that any operations have led to from an empty one, closing an open hold of an
-- account send always succeeds: it debits what was spent but at most what was held, frees the
-- whole hold, and leaves the balances and holds of all other nodes as they were.
pub settle_hold_lem :
    (ops : List (ℕ × Op)) (now id spent fee : ℕ) (hash : Option ℕ) (h : Hold)
    → hold_named (run ops empty_ledger).holds id ≡ some h
    → (after : Ledger) × (settle_hold now id spent fee hash (run ops empty_ledger) ≡ ok after)
      × IsClosed (run ops empty_ledger) id h (min spent h.amount) after
settle_hold_lem ops now id spent fee hash h e =
    settle_hold_open now id h (run ops empty_ledger) (run-IsBooked ops) e spent fee hash

-- In such a ledger, closing an open hold as a withdrawal that was broadcast, or as a conversion
-- that has arrived, always succeeds, and debits exactly what was held, whatever the fee.
pub settle_whole :
    (ops : List (ℕ × Op)) (now id fee txid : ℕ) (hash : Option ℕ) (h : Hold)
    → hold_named (run ops empty_ledger).holds id ≡ some h
    → ((after : Ledger) × (settle_withdrawal now id fee txid (run ops empty_ledger) ≡ ok after)
        × IsClosed (run ops empty_ledger) id h h.amount after)
      × ((after : Ledger) × (finish_conversion_by now id fee hash (run ops empty_ledger) ≡ ok after)
          × IsClosed (run ops empty_ledger) id h h.amount after)
settle_whole ops now id fee txid hash h e = (
  settle_withdrawal_open now id h (run ops empty_ledger) (run-IsBooked ops) e fee txid,
  finish_conversion_open now id h (run ops empty_ledger) (run-IsBooked ops) e fee hash,
)
