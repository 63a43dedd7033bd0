-- ===== src/Lsp/Accounts/Payments.antt =====
-- crates/fortis-lsp/src/account_api.rs: what a payment out of an account costs in the end.
use fortis.Common.{
  ap, ◌∙◌, ℕ, ◌+◌, ◌/◌, ◌<◌, ◌^◌, ◌≡◌, refl, min, max, Bool, true, false, Option, none, some,
  if◌then◌else◌, ok, arith, inl, inr, subst, sym, u64, sat_add,
}
use fortis.Lsp.Records.{
  Hold, HoldKind, Ledger, LedgerError, insufficient_balance, unknown_hold, db, as_i64, balance_in,
  held_in, hold_named,
}
use fortis.Lsp.Ledger.{hold_send, hold_owner, settle_hold, settle_send}
use fortis.Lsp.Ledger.Balances.{if_node}
use fortis.Lsp.Ledger.Books.{IsBooked}
use fortis.Lsp.Ledger.Settling.{settle_hold_open}
use fortis.Lsp.Conversion.{fee_cap_msat}
use fortis.Lsp.Accounts.{
  HoldIds, NodeAnswers, Accounts, refused, paying, Outcome, send_failed, stored, refused_or,
}
use fortis.Lsp.Accounts.Sends.{held_send, pay_outside, kept, resolve_send, on_payment_resolved}
use fortis.Lsp.Accounts.Holds.{
  placed, hold_of, hold_kind-cases, placed-named, placed-IsBooked, placed-IsClosed,
}

-- The accounts after a node has spent an amount, with nothing more held than before.
abbrev pub HasSpent : Accounts → ℕ → ℕ → Accounts → Type 0
HasSpent a node spent after =
    ((j : ℕ)
      → balance_in after.ledger.accounts j + if_node node j spent ≡ balance_in a.ledger.accounts j)
    × ((j : ℕ) → held_in after.ledger.holds j ≡ held_in a.ledger.holds j)

-- What a resolved payment costs: the fee is none for one that failed.
abbrev pub cost_of : ℕ → Option ℕ → ℕ
cost_of amount none = 0
cost_of amount (some fee) = min (amount + fee) (amount + (amount / 100 + 50000))

-- A payment that is under way, however and whenever it is resolved; any other reply costs nothing.
abbrev pub IsPaid : HoldIds → Accounts → ℕ → ℕ → ℕ → Outcome → Type 0
IsPaid ids a node amount hash (after, ok (paying sent)) =
    (sent ≡ hash)
    × ((later : ℕ) (fee : Option ℕ)
        → (resolved : Accounts) × (on_payment_resolved ids later hash fee after ≡ (resolved, ok tt))
          × HasSpent a node (cost_of amount fee) resolved)
IsPaid ids a node amount hash (after, _) = HasSpent a node 0 after

unspent : (a : Accounts) (node : ℕ) → HasSpent a node 0 a
unspent a node = (λ j. ground arith, λ j. refl)

settle_send_named :
    (now id fee : ℕ) (hash : Option ℕ) (h : Hold) (l : Ledger)
    → hold_named l.holds id ≡ some h
    → settle_send now id fee hash l ≡ settle_hold now id (sat_add h.base fee) fee hash l
unfolding settle_send
settle_send_named now id fee hash h l e = rw e refl

hold_owner_named :
    (id : ℕ) (h : Hold) (l : Ledger)
    → hold_named l.holds id ≡ some h
    → hold_owner l id ≡ some (h.node, h.amount)
unfolding hold_owner
hold_owner_named id h l e = rw (e, hold_owner) refl

on_payment_resolved_open :
    (ids : HoldIds) (later hash : ℕ) (fee : Option ℕ) (a : Accounts) (owner : ℕ × ℕ)
    → hold_owner a.ledger (ids.send_hold_id hash) ≡ some owner
    → on_payment_resolved ids later hash fee a
      ≡ kept a (resolve_send later (ids.send_hold_id hash) hash fee a.ledger)
unfolding on_payment_resolved
on_payment_resolved_open ids later hash fee a owner e = rw (e, on_payment_resolved) refl

module _ (ids : HoldIds) (now : ℕ) (n : NodeAnswers) (node invoice hash amount : ℕ)
    (inv_amount : Option ℕ) (a : Accounts) (fits : amount < 2 ^ 62) where
  abbrev reserve : ℕ
  reserve = max (u64 (amount + fee_cap_msat amount)) amount

  abbrev id : ℕ
  id = ids.send_hold_id hash

  abbrev held_ledger : Ledger
  held_ledger = placed node id reserve amount HoldKind.send a.ledger

  abbrev held : Accounts
  held = record a { ledger = held_ledger }

  abbrev new_hold : Hold
  new_hold = hold_of node id reserve amount HoldKind.send

  named : hold_named held_ledger.holds id ≡ some new_hold
  named = placed-named node id reserve amount HoldKind.send a.ledger

  closing :
      (b : IsBooked held_ledger) (later spent fee : ℕ) (paid_hash : Option ℕ)
      → (after : Ledger) × (settle_hold later id spent fee paid_hash held_ledger ≡ ok after)
        × HasSpent a node (min spent (as_i64 reserve)) (record a { ledger = after })
  closing b later spent fee paid_hash =
      let (after, e, c) =
        settle_hold_open later id new_hold held_ledger b named spent fee paid_hash in
      (
        after,
        e,
        placed-IsClosed node id reserve amount HoldKind.send a.ledger (min spent (as_i64 reserve))
            after c,
      )

  cost : (fee : ℕ) → min (sat_add (as_i64 amount) fee) (as_i64 reserve) ≡ cost_of amount (some fee)
  unfolding as_i64 fee_cap_msat
  cost fee = omega (arith, fits)

  none_spent : min 0 (as_i64 reserve) ≡ 0
  none_spent = omega arith

  resolving :
      (b : IsBooked held_ledger) (later : ℕ) (fee : Option ℕ)
      → (after : Ledger) × (resolve_send later id hash fee held_ledger ≡ ok after)
        × HasSpent a node (cost_of amount fee) (record a { ledger = after })
  unfolding resolve_send
  resolving b later none =
      let (after, e, c) = closing b later 0 0 none in
      (after, e, subst (λ m. HasSpent a node m (record a { ledger = after })) none_spent c)
  resolving b later (some fee) =
      let (after, e, c) = closing b later (sat_add (as_i64 amount) fee) fee (some hash) in
      (
        after,
        settle_send_named later id fee (some hash) new_hold held_ledger named ∙ e,
        subst (λ m. HasSpent a node m (record a { ledger = after })) (cost fee) c,
      )

  resolved :
      (b : IsBooked held_ledger) (later : ℕ) (fee : Option ℕ)
      → (after : Accounts) × (on_payment_resolved ids later hash fee held ≡ (after, ok tt))
        × HasSpent a node (cost_of amount fee) after
  resolved b later fee =
      let (after, e, c) = resolving b later fee in
      (
        record a { ledger = after },
        on_payment_resolved_open ids later hash fee held (node, as_i64 reserve)
              (hold_owner_named id new_hold held_ledger named)
            ∙ ap (kept held) e,
        c,
      )

  refused_or-IsPaid : (e : LedgerError) → IsPaid ids a node amount hash (refused_or a e)
  refused_or-IsPaid insufficient_balance = unspent a node
  refused_or-IsPaid (unknown_hold i) = unspent a node
  refused_or-IsPaid db = unspent a node

  send_failed-IsPaid :
      IsBooked held_ledger
      → IsPaid ids a node amount hash
          (stored held (refused 502 send_failed) (settle_hold now id 0 0 none held_ledger))
  send_failed-IsPaid b =
      let (after, e, c) = closing b now 0 0 none in
      subst (λ r. IsPaid ids a node amount hash (stored held (refused 502 send_failed) r)) (sym e)
        (subst (λ m. HasSpent a node m (record a { ledger = after })) none_spent c)

  sent_or_failed :
      IsBooked held_ledger
      → (b : Bool)
      → IsPaid ids a node amount hash (
          if b
          then (held, ok (paying hash))
          else stored held (refused 502 send_failed) (settle_hold now id 0 0 none held_ledger))
  sent_or_failed b true = (refl, resolved b)
  sent_or_failed b false = send_failed-IsPaid b

  -- A payment to an invoice that is not an account's, from booked accounts: once it is under way,
  -- its result closes the hold, and costs the amount and the fee, at most the reserve, or nothing if
  -- it failed; no other account changes, and nothing stays held. If it is not under way, nothing
  -- was taken.
  pub pay_outside-IsPaid :
      IsBooked a.ledger
      → IsPaid ids a node amount hash (pay_outside ids now n node invoice hash inv_amount amount a)
  unfolding pay_outside hold_send held_send
  pay_outside-IsPaid b = elim (hold_kind-cases node id reserve amount HoldKind.send a.ledger) [
    | inl (e, f) ↦
        subst (λ r. IsPaid ids a node amount hash (held_send now n id invoice hash pay_amount a r))
          (sym f) (refused_or-IsPaid e)
    | inr f ↦
        subst (λ r. IsPaid ids a node amount hash (held_send now n id invoice hash pay_amount a r))
          (sym f)
          (sent_or_failed (placed-IsBooked node id reserve amount HoldKind.send a.ledger b f)
            (n.send_bolt11 invoice pay_amount))
  ]
    where
      pay_amount : Option ℕ
      pay_amount = elim inv_amount [ none ↦ some amount | some x ↦ none ]
