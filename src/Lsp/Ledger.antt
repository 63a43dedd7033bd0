-- ===== src/Lsp/Ledger.antt =====
-- crates/fortis-lsp/src/account.rs: the operations of `Ledger`. Each is one transaction: an error
-- leaves the ledger as it was, so an operation returns the new ledger or an error. `now` is the
-- clock.
use fortis.Common.{
  ℕ, suc, ◌+◌, min, max, Bool, true, false, Option, none, some, List, [], ◌∷◌, if◌then◌else◌, ltb,
  ◌==◌, leb, any, length, ℤ, pos, neg, Result, ok, err, ◌>>=◌, ◌>>◌, reject_if, ok_or, sum_by,
  sat_add,
}
use fortis.Lsp.Ledger.Revenue.{insert_fee}
use fortis.Lsp.Records.{
  HoldKind, EntryKind, RevenueKind, Reference, LedgerError, insufficient_balance, unknown_hold, db,
  Account, AccountRow, Hold, Entry, RevenueEntry, Ledger, as_i64, free_msat, account_of,
  add_balance, hold_named, drop_hold, credited, has_hash,
}
pub mod Revenue
pub mod Balances
pub mod Books
pub mod Kept
pub mod Operations
pub mod Transfers
pub mod Once
pub mod Memory
pub mod Runs
pub mod Replays
pub mod Settling

abbrev pub empty_ledger : Ledger
empty_ledger = record { accounts = []; holds = []; entries = []; revenue = []; fee_invoices = [] }

unfoldable pub account : Ledger → ℕ → Account
unfolding account_of
account l k = account_of l.accounts l.holds k

-- `INSERT INTO entries`: the sequence number is one above the last.
unfoldable pub insert_entry : ℕ → ℕ → EntryKind → ℤ → ℕ → Option ℕ → Ledger → Ledger
insert_entry now k kind amount fee hash l = record l {
  entries =
      record {
        seq = suc (length l.entries);
        node = k;
        at_secs = now;
        kind = kind;
        amount = amount;
        fee = fee;
        payment_hash = hash;
      }
      ∷ l.entries;
}

-- `add_balance` on the ledger.
unfoldable pub move_balance : ℕ → ℤ → Ledger → Result LedgerError Ledger
unfolding add_balance
move_balance k delta l = do
  accounts ← add_balance l.accounts k delta
  ok (record l { accounts = accounts })

-- The hold and the ledger without it.
unfoldable pub take_hold : ℕ → Ledger → Result LedgerError (Hold × Ledger)
unfolding hold_named drop_hold
take_hold id l = do
  h ← ok_or (hold_named l.holds id) (unknown_hold id)
  ok (h, record l { holds = drop_hold l.holds id })

unfoldable pub credit : ℕ → ℕ → ℕ → ℕ → Ledger → Result LedgerError (Bool × Ledger)
unfolding credited insert_entry move_balance as_i64
credit now k hash amount l = if credited l.entries k hash then ok (false, l) else (do
  after ←
      move_balance k (pos (as_i64 amount))
        (insert_entry now k EntryKind.received (pos (as_i64 amount)) 0 (some hash) l)
  ok (true, after))

unfoldable pub insert_hold : ℕ → ℕ → ℕ → ℕ → HoldKind → Ledger → Result LedgerError Ledger
unfolding as_i64 hold_named
insert_hold k id amount base kind l = elim (hold_named l.holds id) [
  | some h ↦ err db
  | none ↦ ok (record l {
    holds =
        record { id = id; node = k; amount = as_i64 amount; base = as_i64 base; kind = kind }
        ∷ l.holds;
  })
]

unfoldable pub hold_kind : ℕ → ℕ → ℕ → ℕ → HoldKind → Ledger → Result LedgerError Ledger
unfolding free_msat account insert_hold
hold_kind k id amount base kind l = do
  _ ← reject_if (ltb (free_msat (account l k)) amount) insufficient_balance
  insert_hold k id amount base kind l

unfoldable pub hold_send : ℕ → ℕ → ℕ → ℕ → Ledger → Result LedgerError Ledger
unfolding hold_kind
hold_send k id amount reserve l = hold_kind k id (max reserve amount) amount HoldKind.send l

unfoldable pub hold_withdrawal : ℕ → ℕ → ℕ → Ledger → Result LedgerError Ledger
unfolding hold_kind
hold_withdrawal k id amount l = hold_kind k id amount amount HoldKind.withdraw l

unfoldable pub start_conversion : ℕ → ℕ → Ledger → Result LedgerError (ℕ × Ledger)
unfolding hold_kind free_msat account
start_conversion k id l = do
  after ← hold_kind k id (free_msat (account l k)) (free_msat (account l k)) HoldKind.conversion l
  ok (free_msat (account l k), after)

unfoldable pub hold_owner : Ledger → ℕ → Option (ℕ × ℕ)
unfolding hold_named
hold_owner l id = elim (hold_named l.holds id) [ none ↦ none | some h ↦ some (h.node, h.amount) ]

-- `-amount` for the node, with its entry.
unfoldable pub debit : ℕ → ℕ → EntryKind → ℕ → ℕ → Option ℕ → Ledger → Result LedgerError Ledger
unfolding move_balance insert_entry as_i64
debit now k kind amount fee hash l = do
  after ← move_balance k (neg (as_i64 amount)) l
  ok (insert_entry now k kind (neg (as_i64 amount)) (as_i64 fee) hash after)

-- What an account send costs, out of a hold that is already taken.
unfoldable pub pay_from_hold : ℕ → ℕ → ℕ → ℕ → Option ℕ → Ledger → Result LedgerError Ledger
unfolding debit
pay_from_hold now k spent fee hash rest =
    if ltb 0 spent then debit now k EntryKind.sent spent fee hash rest else ok rest

unfoldable pub settle_hold : ℕ → ℕ → ℕ → ℕ → Option ℕ → Ledger → Result LedgerError Ledger
unfolding take_hold pay_from_hold
settle_hold now id spent fee hash l = do
  (h, rest) ← take_hold id l
  pay_from_hold now h.node (min spent h.amount) fee hash rest

unfoldable pub settle_send : ℕ → ℕ → ℕ → Option ℕ → Ledger → Result LedgerError Ledger
unfolding hold_named settle_hold
settle_send now id fee hash l = do
  h ← ok_or (hold_named l.holds id) (unknown_hold id)
  settle_hold now id (sat_add h.base fee) fee hash l

-- Debits the whole hold; `after` is what the operation still does.
unfoldable pub settle_withdrawal : ℕ → ℕ → ℕ → ℕ → Ledger → Result LedgerError Ledger
unfolding take_hold debit insert_fee
settle_withdrawal now id fee txid l = do
  (h, rest) ← take_hold id l
  paid ← debit now h.node EntryKind.withdrawn h.amount fee (some txid) rest
  ok (
      insert_fee now RevenueKind.withdrawal_fee fee h.node (Reference.of_withdrawal (some txid))
        paid)

unfoldable pub finish_conversion_by : ℕ → ℕ → ℕ → Option ℕ → Ledger → Result LedgerError Ledger
unfolding take_hold debit insert_fee
finish_conversion_by now id fee hash l = do
  (h, rest) ← take_hold id l
  paid ← debit now h.node EntryKind.converted h.amount fee hash rest
  ok (insert_fee now RevenueKind.channel_fee fee h.node (Reference.of_conversion id) paid)

unfoldable pub finish_conversion : ℕ → ℕ → ℕ → Ledger → Result LedgerError Ledger
unfolding finish_conversion_by
finish_conversion now id fee l = finish_conversion_by now id fee none l

unfoldable pub abandon_conversion : ℕ → Ledger → Result LedgerError Ledger
unfolding take_hold
abandon_conversion id l = do (h, rest) ← take_hold id l; ok rest

-- `UPDATE holds SET id`: the new id must be free, unless it is the old one.
unfoldable pub rename_in : List Hold → ℕ → ℕ → List Hold
rename_in [] old new = []
rename_in (h ∷ hs) old new =
    (if h.id == old then record h { id = new } else h) ∷ rename_in hs old new

unfoldable pub rename_hold : ℕ → ℕ → Ledger → Result LedgerError Ledger
unfolding hold_named rename_in
rename_hold old new l = elim (hold_named l.holds old) [
  | none ↦ err (unknown_hold old)
  | some h ↦ elim (if old == new then none else hold_named l.holds new) [
    | some g ↦ err db
    | none ↦ ok (record l { holds = rename_in l.holds old new })
  ]
]

unfoldable pub transfer : ℕ → ℕ → ℕ → ℕ → ℕ → Ledger → Result LedgerError (Bool × Ledger)
unfolding credited insert_entry free_msat account move_balance as_i64
transfer now from to hash amount l = if credited l.entries to hash then ok (false, l) else (do
  let noted = insert_entry now to EntryKind.internal (pos (as_i64 amount)) 0 (some hash) l
  _ ← reject_if (ltb (free_msat (account noted from)) amount) insufficient_balance
  paid ← move_balance from (neg (as_i64 amount)) noted
  done ← move_balance to (pos (as_i64 amount)) paid
  ok (true, insert_entry now from EntryKind.internal (neg (as_i64 amount)) 0 none done))

unfoldable pub total_in : List AccountRow → ℕ
unfolding sum_by
total_in rs = sum_by (λ r. r.balance) rs

unfoldable pub total_custody : Ledger → ℕ
unfolding total_in
total_custody l = total_in l.accounts
