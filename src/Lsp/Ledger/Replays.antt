-- ===== src/Lsp/Ledger/Replays.antt =====
-- crates/fortis-lsp/src/account.rs: replayed events. A payment hash is credited to an account once,
-- whatever happens in between.
use fortis.Common.{
  ℕ, ◌+◌, ◌<◌, ◌≤◌, ◌≡◌, true, false, some, inl, inr, List, [], ◌∷◌, max, pos, Result, ok, err,
  ◌>>=◌, arith, Option, Bool, Bool-cases, lt_cases, any, sym, ◌∙◌, subst,
}
use fortis.Lsp.Records.{
  LedgerError, insufficient_balance, HoldKind, Entry, EntryKind, RevenueKind, Reference,
  RevenueEntry, Ledger, as_i64, free_msat, balance_in, credited, earlier_import, entry_fee_import,
}
use fortis.Lsp.Ledger.{
  account, insert_entry, hold_kind, hold_send, hold_withdrawal, start_conversion, credit, transfer,
  total_custody,
}
use fortis.Lsp.Ledger.Revenue.{
  record_revenue, add_fee_invoice, fee_invoice_paid, import_earlier, import_entry_fees, import_once,
  earlier_rows, fee_rows,
}
use fortis.Lsp.Ledger.Balances.{if_node, moved}
use fortis.Lsp.Ledger.Transfers.{ledger_of}
use fortis.Lsp.Ledger.Once.{
  credited_ledger, credit_new, credit_seen, transferred, transfer_new, transfer_short,
  total_custody-transferred, balance_in-transferred, transfer_seen,
}
use fortis.Lsp.Ledger.Memory.{
  Remembers, insert_entry-credited, settle_hold-Remembers, settle_send-Remembers,
  settle_withdrawal-Remembers, finish_conversion_by-Remembers, abandon_conversion-Remembers,
  rename_hold-Remembers, hold_kind-Remembers,
}
use fortis.Lsp.Ledger.Runs.{Op, apply, committed, run}

credit-Remembers :
    (now k hash amount : ℕ) (l : Ledger)
    → Remembers l.entries (ledger_of (credit now k hash amount l))
credit-Remembers now k hash amount l = elim (Bool-cases (credited l.entries k hash)) [
  | inl e ↦ rw (credit_seen now k hash amount l e) (λ j g h. h)
  | inr e ↦ rw (credit_new now k hash amount l e) (
      insert_entry-credited now k EntryKind.received (pos (as_i64 amount)) 0 (some hash)
        (record l { accounts = moved l.accounts k (pos (as_i64 amount)) }))
]

transferred-Remembers :
    (now from to hash amount : ℕ) (l : Ledger) (j g : ℕ)
    → credited l.entries j g ≡ true
    → credited (transferred now from to hash amount l).entries j g ≡ true
unfolding insert_entry credited any
transferred-Remembers now from to hash amount l j g h = ground (arith, h)

transfer-Remembers :
    (now from to hash amount : ℕ) (l : Ledger)
    → Remembers l.entries (ledger_of (transfer now from to hash amount l))
transfer-Remembers now from to hash amount l = elim (Bool-cases (credited l.entries to hash)) [
  | inl e ↦ rw (transfer_seen now from to hash amount l e) (λ j g h. h)
  | inr e ↦ elim (lt_cases (free_msat (account l from)) amount) [
    | inl short ↦ rw (transfer_short now from to hash amount l e short) tt
    | inr enough ↦
        rw (transfer_new now from to hash amount l e enough)
          (transferred-Remembers now from to hash amount l)
  ]
]

start_conversion-Remembers :
    (k id : ℕ) (l : Ledger) → Remembers l.entries (ledger_of (start_conversion k id l))
unfolding start_conversion
start_conversion-Remembers k id l =
    go (hold_kind k id free free HoldKind.conversion l)
      (hold_kind-Remembers k id free free HoldKind.conversion l)
  where
    free : ℕ
    free = free_msat (account l k)

    go :
        (r : Result LedgerError Ledger)
        → Remembers l.entries r
        → Remembers l.entries (ledger_of (r >>= λ after. ok (free, after)))
    go (ok a) h = h
    go (err e) h = h

record_revenue-entries :
    (now : ℕ) (kind : RevenueKind) (amount : ℕ) (owner : Option ℕ) (reference : Reference)
    (l : Ledger)
    → (record_revenue now kind amount owner reference l).1.entries ≡ l.entries
unfolding record_revenue
record_revenue-entries now kind amount owner reference l = ground arith

add_fee_invoice-entries :
    (hash node : ℕ) (l : Ledger) → (add_fee_invoice hash node l).entries ≡ l.entries
unfolding add_fee_invoice
add_fee_invoice-entries hash node l = ground arith

fee_invoice_paid-entries :
    (now hash amount : ℕ) (l : Ledger) → (fee_invoice_paid now hash amount l).1.entries ≡ l.entries
unfolding fee_invoice_paid
fee_invoice_paid-entries now hash amount l = ground arith

import_once-entries :
    (now : ℕ) (reference : Reference) (rows : List RevenueEntry) (l : Ledger)
    → (import_once now reference rows l).1.entries ≡ l.entries
unfolding import_once
import_once-entries now reference rows l = ground arith

same_entries :
    {es after : List Entry}
    → after ≡ es
    → (k hash : ℕ) → credited es k hash ≡ true
    → credited after k hash ≡ true
same_entries e j g h = subst (λ es. credited es j g ≡ true) (sym e) h

apply-Remembers : (now : ℕ) (op : Op) (l : Ledger) → Remembers l.entries (apply now op l)
unfolding apply hold_send hold_withdrawal import_earlier import_entry_fees
apply-Remembers now (Op.do_credit node hash amount) l = credit-Remembers now node hash amount l
apply-Remembers now (Op.do_hold_send node id amount reserve) l =
    hold_kind-Remembers node id (max reserve amount) amount HoldKind.send l
apply-Remembers now (Op.do_hold_withdrawal node id amount) l =
    hold_kind-Remembers node id amount amount HoldKind.withdraw l
apply-Remembers now (Op.do_start_conversion node id) l = start_conversion-Remembers node id l
apply-Remembers now (Op.do_settle_send id fee hash) l = settle_send-Remembers now id fee hash l
apply-Remembers now (Op.do_settle_hold id spent fee hash) l =
    settle_hold-Remembers now id spent fee hash l
apply-Remembers now (Op.do_settle_withdrawal id fee txid) l =
    settle_withdrawal-Remembers now id fee txid l
apply-Remembers now (Op.do_finish_conversion id fee hash) l =
    finish_conversion_by-Remembers now id fee hash l
apply-Remembers now (Op.do_abandon_conversion id) l = abandon_conversion-Remembers id l
apply-Remembers now (Op.do_rename_hold old new) l = rename_hold-Remembers old new l
apply-Remembers now (Op.do_transfer from to hash amount) l =
    transfer-Remembers now from to hash amount l
apply-Remembers now (Op.do_record_revenue kind amount owner reference) l =
    same_entries (record_revenue-entries now kind amount owner reference l)
apply-Remembers now (Op.do_add_fee_invoice hash node) l =
    same_entries (add_fee_invoice-entries hash node l)
apply-Remembers now (Op.do_fee_invoice_paid hash amount) l =
    same_entries (fee_invoice_paid-entries now hash amount l)
apply-Remembers now (Op.do_import_earlier payments) l =
    same_entries (import_once-entries now earlier_import (earlier_rows payments) l)
apply-Remembers now Op.do_import_entry_fees l =
    same_entries (import_once-entries now entry_fee_import (fee_rows l.entries []) l)

committed-credited :
    (l : Ledger) (r : Result LedgerError Ledger) (k hash : ℕ)
    → Remembers l.entries r
    → credited l.entries k hash ≡ true
    → credited (committed l r).entries k hash ≡ true
committed-credited l (ok after) k hash m h = m k hash h
committed-credited l (err e) k hash m h = h

run-credited :
    (ops : List (ℕ × Op)) (l : Ledger) (k hash : ℕ)
    → credited l.entries k hash ≡ true
    → credited (run ops l).entries k hash ≡ true
unfolding run
run-credited [] l k hash h = h
run-credited ((now, op) ∷ ops) l k hash h =
    run-credited ops (committed l (apply now op l)) k hash
      (committed-credited l (apply now op l) k hash (apply-Remembers now op l) h)

credited_self :
    (now k hash amount : ℕ) (l : Ledger)
    → credited (credited_ledger now k hash amount l).entries k hash ≡ true
unfolding insert_entry credited any
credited_self now k hash amount l = ground arith

same_ledger :
    (a b : Bool) (l after : Ledger)
    → ◌≡◌ {A = Result LedgerError (Bool × Ledger)} (ok (a, l)) (ok (b, after))
    → l ≡ after
same_ledger a b l after e = cc

credit_marks :
    (now k hash amount : ℕ) (b : Bool) (l after : Ledger)
    → credit now k hash amount l ≡ ok (b, after)
    → credited after.entries k hash ≡ true
credit_marks now k hash amount b l after e = elim (Bool-cases (credited l.entries k hash)) [
  | inl seen ↦
      subst (λ x. credited x.entries k hash ≡ true)
        (same_ledger false b l after (sym (credit_seen now k hash amount l seen) ∙ e)) seen
  | inr new ↦
      subst (λ x. credited x.entries k hash ≡ true)
        (same_ledger true b (credited_ledger now k hash amount l) after
          (sym (credit_new now k hash amount l new) ∙ e))
        (credited_self now k hash amount l)
]

-- Once a payment hash has been credited to an account, then after any further operations, at any
-- time and for any amount, neither crediting it again nor a transfer under the same hash changes
-- anything: both report that nothing was new.
pub credit_once :
    (now k hash amount : ℕ) (b : Bool) (l after : Ledger)
    → credit now k hash amount l ≡ ok (b, after)
    → (ops : List (ℕ × Op)) (later from other : ℕ)
    → (credit later k hash other (run ops after) ≡ ok (false, run ops after))
      × (transfer later from k hash other (run ops after) ≡ ok (false, run ops after))
credit_once now k hash amount b l after e ops later from other =
    let seen = run-credited ops after k hash (credit_marks now k hash amount b l after e) in
    (
      credit_seen later k hash other (run ops after) seen,
      transfer_seen later from k hash other (run ops after) seen,
    )

transferred_self :
    (now from to hash amount : ℕ) (l : Ledger)
    → credited (transferred now from to hash amount l).entries to hash ≡ true
unfolding insert_entry credited any
transferred_self now from to hash amount l = ground arith

-- A transfer under a hash that was already credited to the receiver changes nothing. Otherwise, if
-- the sender's free balance is short, it is refused; and if not, it moves the amount from the one
-- balance to the other, leaves every other balance and the custody total as they were, and its
-- hash counts as credited from then on.
pub transfer_lem :
    (now from to hash amount : ℕ) (l : Ledger)
    → (credited l.entries to hash ≡ true → transfer now from to hash amount l ≡ ok (false, l))
      × (credited l.entries to hash ≡ false
          → free_msat (account l from) < amount
          → transfer now from to hash amount l ≡ err insufficient_balance)
      × (credited l.entries to hash ≡ false
          → amount ≤ free_msat (account l from)
          → (after : Ledger) × (transfer now from to hash amount l ≡ ok (true, after))
            × (total_custody after ≡ total_custody l)
            × ((j : ℕ)
                → balance_in after.accounts j + if_node from j (as_i64 amount)
                  ≡ balance_in l.accounts j + if_node to j (as_i64 amount))
            × (credited after.entries to hash ≡ true))
transfer_lem now from to hash amount l = (
  transfer_seen now from to hash amount l,
  transfer_short now from to hash amount l,
  λ new enough. (
    transferred now from to hash amount l,
    transfer_new now from to hash amount l new enough,
    total_custody-transferred now from to hash amount l new enough,
    λ j. balance_in-transferred now from to hash amount l new j enough,
    transferred_self now from to hash amount l,
  ),
)
