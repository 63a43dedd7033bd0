-- ===== src/Lsp/Ledger/Runs.antt =====
-- crates/fortis-lsp/src/account.rs: any sequence of the ledger's operations.
use fortis.Common.{
  ℕ, refl, inl, inr, List, [], ◌∷◌, Result, ok, err, arith, Option, Bool-cases, lt_cases,
}
use fortis.Lsp.Records.{
  LedgerError, RevenueKind, Reference, RevenueEntry, Ledger, free_msat, balance_in, held_in,
  credited,
}
use fortis.Lsp.Ledger.{
  empty_ledger, account, insert_entry, hold_kind, hold_send, hold_withdrawal, start_conversion,
  settle_hold, settle_send, settle_withdrawal, finish_conversion_by, abandon_conversion,
  rename_hold, credit, transfer, total_custody,
}
use fortis.Lsp.Ledger.Revenue.{
  record_revenue, add_fee_invoice, fee_invoice_paid, import_earlier, import_entry_fees, import_once,
}
use fortis.Lsp.Ledger.Books.{IsBooked, Keeps, earned_in, spent_in, total_earned, total_spent}
use fortis.Lsp.Ledger.Operations.{
  settle_hold-Keeps, settle_send-Keeps, settle_withdrawal-Keeps, finish_conversion_by-Keeps,
  abandon_conversion-Keeps, hold_send-Keeps, hold_withdrawal-Keeps,
}
use fortis.Lsp.Ledger.Transfers.{ledger_of, start_conversion-Keeps, rename_hold-Keeps}
use fortis.Lsp.Ledger.Once.{
  credit-Keeps, transfer_new, transfer_short, transferred-IsBooked, transfer_seen,
}

-- A call that changes the ledger, with its arguments.
pub data Op : Type 0 where
  do_credit : (node hash amount : ℕ) → Op
  do_hold_send : (node id amount reserve : ℕ) → Op
  do_hold_withdrawal : (node id amount : ℕ) → Op
  do_start_conversion : (node id : ℕ) → Op
  do_settle_send : (id fee : ℕ) → Option ℕ → Op
  do_settle_hold : (id spent fee : ℕ) → Option ℕ → Op
  do_settle_withdrawal : (id fee txid : ℕ) → Op
  do_finish_conversion : (id fee : ℕ) → Option ℕ → Op
  do_abandon_conversion : (id : ℕ) → Op
  do_rename_hold : (old new : ℕ) → Op
  do_transfer : (from to hash amount : ℕ) → Op
  do_record_revenue : RevenueKind → ℕ → Option ℕ → Reference → Op
  do_add_fee_invoice : (hash node : ℕ) → Op
  do_fee_invoice_paid : (hash amount : ℕ) → Op
  do_import_earlier : List (ℕ × ℕ × ℕ) → Op
  do_import_entry_fees : Op

unfoldable pub apply : ℕ → Op → Ledger → Result LedgerError Ledger
unfolding credit hold_send hold_withdrawal start_conversion settle_send settle_hold
    settle_withdrawal finish_conversion_by abandon_conversion rename_hold transfer record_revenue
    add_fee_invoice fee_invoice_paid import_earlier import_entry_fees
apply now (do_credit node hash amount) l = ledger_of (credit now node hash amount l)
apply now (do_hold_send node id amount reserve) l = hold_send node id amount reserve l
apply now (do_hold_withdrawal node id amount) l = hold_withdrawal node id amount l
apply now (do_start_conversion node id) l = ledger_of (start_conversion node id l)
apply now (do_settle_send id fee hash) l = settle_send now id fee hash l
apply now (do_settle_hold id spent fee hash) l = settle_hold now id spent fee hash l
apply now (do_settle_withdrawal id fee txid) l = settle_withdrawal now id fee txid l
apply now (do_finish_conversion id fee hash) l = finish_conversion_by now id fee hash l
apply now (do_abandon_conversion id) l = abandon_conversion id l
apply now (do_rename_hold old new) l = rename_hold old new l
apply now (do_transfer from to hash amount) l = ledger_of (transfer now from to hash amount l)
apply now (do_record_revenue kind amount owner reference) l =
    ok (record_revenue now kind amount owner reference l).1
apply now (do_add_fee_invoice hash node) l = ok (add_fee_invoice hash node l)
apply now (do_fee_invoice_paid hash amount) l = ok (fee_invoice_paid now hash amount l).1
apply now (do_import_earlier payments) l = ok (import_earlier now payments l).1
apply now do_import_entry_fees l = ok (import_entry_fees now l).1

-- A transaction that fails is rolled back.
abbrev pub committed : Ledger → Result LedgerError Ledger → Ledger
committed l (ok after) = after
committed l (err e) = l

-- The calls with their times, the first one first.
unfoldable pub run : List (ℕ × Op) → Ledger → Ledger
unfolding apply
run [] l = l
run ((now, op) ∷ ops) l = run ops (committed l (apply now op l))

record_revenue-IsBooked :
    (now : ℕ) (kind : RevenueKind) (amount : ℕ) (owner : Option ℕ) (reference : Reference)
    (l : Ledger)
    → IsBooked l
    → IsBooked (record_revenue now kind amount owner reference l).1
unfolding record_revenue total_custody
record_revenue-IsBooked now kind amount owner reference l b = ground (arith, b)

add_fee_invoice-IsBooked :
    (hash node : ℕ) (l : Ledger) → IsBooked l → IsBooked (add_fee_invoice hash node l)
unfolding add_fee_invoice total_custody
add_fee_invoice-IsBooked hash node l b = ground (arith, b)

fee_invoice_paid-IsBooked :
    (now hash amount : ℕ) (l : Ledger)
    → IsBooked l
    → IsBooked (fee_invoice_paid now hash amount l).1
unfolding fee_invoice_paid total_custody
fee_invoice_paid-IsBooked now hash amount l b = ground (arith, b)

import_once-IsBooked :
    (now : ℕ) (reference : Reference) (rows : List RevenueEntry) (l : Ledger)
    → IsBooked l
    → IsBooked (import_once now reference rows l).1
unfolding import_once total_custody
import_once-IsBooked now reference rows l b = ground (arith, b)

pub transfer-Keeps :
    (now from to hash amount : ℕ) (l : Ledger)
    → IsBooked l
    → Keeps (ledger_of (transfer now from to hash amount l))
transfer-Keeps now from to hash amount l b = elim (Bool-cases (credited l.entries to hash)) [
  | inl e ↦ rw (transfer_seen now from to hash amount l e) b
  | inr e ↦ elim (lt_cases (free_msat (account l from)) amount) [
    | inl short ↦ rw (transfer_short now from to hash amount l e short) tt
    | inr enough ↦
        rw (transfer_new now from to hash amount l e enough)
          (transferred-IsBooked now from to hash amount l e b enough)
  ]
]

apply-Keeps : (now : ℕ) (op : Op) (l : Ledger) → IsBooked l → Keeps (apply now op l)
unfolding apply import_earlier import_entry_fees
apply-Keeps now (do_credit node hash amount) l b = credit-Keeps now node hash amount l b
apply-Keeps now (do_hold_send node id amount reserve) l b =
    hold_send-Keeps node id amount reserve l b
apply-Keeps now (do_hold_withdrawal node id amount) l b = hold_withdrawal-Keeps node id amount l b
apply-Keeps now (do_start_conversion node id) l b = start_conversion-Keeps node id l b
apply-Keeps now (do_settle_send id fee hash) l b = settle_send-Keeps now id fee hash l b
apply-Keeps now (do_settle_hold id spent fee hash) l b = settle_hold-Keeps now id spent fee hash l b
apply-Keeps now (do_settle_withdrawal id fee txid) l b = settle_withdrawal-Keeps now id fee txid l b
apply-Keeps now (do_finish_conversion id fee hash) l b =
    finish_conversion_by-Keeps now id fee hash l b
apply-Keeps now (do_abandon_conversion id) l b = abandon_conversion-Keeps id l b
apply-Keeps now (do_rename_hold old new) l b = rename_hold-Keeps old new l b
apply-Keeps now (do_transfer from to hash amount) l b = transfer-Keeps now from to hash amount l b
apply-Keeps now (do_record_revenue kind amount owner reference) l b =
    record_revenue-IsBooked now kind amount owner reference l b
apply-Keeps now (do_add_fee_invoice hash node) l b = add_fee_invoice-IsBooked hash node l b
apply-Keeps now (do_fee_invoice_paid hash amount) l b =
    fee_invoice_paid-IsBooked now hash amount l b
apply-Keeps now (do_import_earlier payments) l b = import_once-IsBooked now _ _ l b
apply-Keeps now do_import_entry_fees l b = import_once-IsBooked now _ _ l b

committed-IsBooked :
    (l : Ledger) (r : Result LedgerError Ledger) → IsBooked l → Keeps r → IsBooked (committed l r)
committed-IsBooked l (ok after) b k = k
committed-IsBooked l (err e) b k = b

pub run-IsBooked_from : (ops : List (ℕ × Op)) (l : Ledger) → IsBooked l → IsBooked (run ops l)
unfolding run
run-IsBooked_from [] l b = b
run-IsBooked_from ((now, op) ∷ ops) l b =
    run-IsBooked_from ops (committed l (apply now op l))
      (committed-IsBooked l (apply now op l) b (apply-Keeps now op l b))

empty-IsBooked : IsBooked empty_ledger
unfolding total_custody fortis.Lsp.Ledger.total_in total_earned total_spent earned_in spent_in
    balance_in held_in
empty-IsBooked = (tt, λ j. (refl, omega arith), refl)

-- After any sequence of the ledger's operations from an empty ledger, failed ones included, every
-- node's balance is the sum of its entries and covers its open holds, hold ids are distinct and held amounts fit the signed column, and
-- the custody total is the sum of all entries.
pub run-IsBooked : (ops : List (ℕ × Op)) → IsBooked (run ops empty_ledger)
run-IsBooked ops = run-IsBooked_from ops empty_ledger empty-IsBooked
