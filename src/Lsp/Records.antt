-- ===== src/Lsp/Records.antt =====
-- crates/fortis-lsp/src/account.rs: the rows of the ledger's tables, and their look-ups.
-- A node's key, a hold's id, a payment hash, a token and an offer are numbers.
use fortis.Common.{
  ℕ, ◌+◌, ◌-◌, min, Bool, true, false, ◌&&◌, Option, none, some, List, [], ◌∷◌, if◌then◌else◌, ◌==◌,
  leb, find_first, any, ◌^◌, ℤ, inflow, outflow, Result, ok, err,
}

pub data HoldKind : Type 0 where
  send : HoldKind
  withdraw : HoldKind
  conversion : HoldKind

pub data EntryKind : Type 0 where
  received : EntryKind
  sent : EntryKind
  internal : EntryKind
  converted : EntryKind
  withdrawn : EntryKind

pub data RevenueKind : Type 0 where
  transfer_fee : RevenueKind
  channel_fee : RevenueKind
  withdrawal_fee : RevenueKind
  routing_fee : RevenueKind
  earlier : RevenueKind
  -- The rows that say an import has been done.
  marker : RevenueKind

-- What a revenue row refers to; each constructor is one format of the text.
pub data Reference : Type 0 where
  of_payment : ℕ → Reference
  of_withdrawal : Option ℕ → Reference
  of_conversion : ℕ → Reference
  of_conversion_entry : ℕ → Reference
  of_forward : ℕ → Reference
  earlier_import : Reference
  entry_fee_import : Reference

pub data LedgerError : Type 0 where
  insufficient_balance : LedgerError
  unknown_hold : ℕ → LedgerError
  -- A constraint of a table that the code does not read as `InsufficientBalance`.
  db : LedgerError

pub record Account : Type 0 where
  pub balance : ℕ
  pub held : ℕ

pub record AccountRow : Type 0 where
  pub node : ℕ
  pub balance : ℕ

pub record Hold : Type 0 where
  pub id : ℕ
  pub node : ℕ
  pub amount : ℕ
  pub base : ℕ
  pub kind : HoldKind

pub record Entry : Type 0 where
  pub seq : ℕ
  pub node : ℕ
  pub at_secs : ℕ
  pub kind : EntryKind
  pub amount : ℤ
  pub fee : ℕ
  pub payment_hash : Option ℕ

pub record RevenueEntry : Type 0 where
  pub at_secs : ℕ
  pub kind : RevenueKind
  pub amount : ℕ
  pub node : Option ℕ
  pub reference : Reference

-- `accounts.sqlite`, its tables that hold money. Entries and revenue stand newest first.
pub record Ledger : Type 0 where
  pub accounts : List AccountRow
  pub holds : List Hold
  pub entries : List Entry
  pub revenue : List RevenueEntry
  -- Transfer-fee invoices: the hash and the node.
  pub fee_invoices : List (ℕ × ℕ)

abbrev pub i64_max : ℕ
i64_max = 2 ^ 63 - 1

unfoldable pub as_i64 : ℕ → ℕ
as_i64 msat = min msat i64_max

unfoldable pub free_msat : Account → ℕ
free_msat a = a.balance - a.held

-- The balance column of a node's row, 0 without a row.
unfoldable pub balance_in : List AccountRow → ℕ → ℕ
balance_in [] k = 0
balance_in (r ∷ rs) k = if r.node == k then r.balance else balance_in rs k

unfoldable pub held_in : List Hold → ℕ → ℕ
held_in [] k = 0
held_in (h ∷ hs) k = if h.node == k then h.amount + held_in hs k else held_in hs k

unfoldable pub account_of : List AccountRow → List Hold → ℕ → Account
unfolding balance_in held_in
account_of accounts holds k = record { balance = balance_in accounts k; held = held_in holds k }

-- `balance_msat + delta`, refused by the CHECK when it is negative.
unfoldable pub change_balance : ℕ → ℤ → Result LedgerError ℕ
unfolding inflow outflow
change_balance b delta =
    if leb (outflow delta) (b + inflow delta)
    then ok (b + inflow delta - outflow delta)
    else err insufficient_balance

unfoldable pub set_balance :
    AccountRow → List AccountRow → Result LedgerError ℕ → Result LedgerError (List AccountRow)
set_balance r rs (ok b) = ok (record r { balance = b } ∷ rs)
set_balance r rs (err e) = err e

unfoldable pub keep_row :
    AccountRow → Result LedgerError (List AccountRow) → Result LedgerError (List AccountRow)
keep_row r (ok rs) = ok (r ∷ rs)
keep_row r (err e) = err e

-- The upsert: a node without a row gets one with `max(delta, 0)`.
unfoldable pub add_balance : List AccountRow → ℕ → ℤ → Result LedgerError (List AccountRow)
unfolding change_balance inflow set_balance keep_row
add_balance [] k delta = ok (record { node = k; balance = inflow delta } ∷ [])
add_balance (r ∷ rs) k delta =
    let rest = add_balance rs k delta in
    if r.node == k then set_balance r rs (change_balance r.balance delta) else keep_row r rest

unfoldable pub hold_named : List Hold → ℕ → Option Hold
unfolding find_first
hold_named hs id = find_first (λ h. h.id == id) hs

unfoldable pub drop_hold : List Hold → ℕ → List Hold
drop_hold [] id = []
drop_hold (h ∷ hs) id = if h.id == id then drop_hold hs id else h ∷ drop_hold hs id

abbrev is_credit : EntryKind → Bool
is_credit received = true
is_credit internal = true
is_credit _ = false

abbrev pub has_hash : Option ℕ → ℕ → Bool
has_hash none h = false
has_hash (some g) h = g == h

-- The index `credited_once` has a row for the node and the hash.
unfoldable pub credited : List Entry → ℕ → ℕ → Bool
unfolding any
credited entries k hash =
    any (λ e. e.node == k && has_hash e.payment_hash hash && is_credit e.kind) entries
