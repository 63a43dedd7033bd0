-- ===== src/Lsp/Ledger/Revenue.antt =====
-- crates/fortis-lsp/src/account.rs: the operator's revenue, each row once per kind and reference.
use fortis.Common.{
  ℕ, ◌+◌, Bool, true, false, ◌&&◌, Option, none, some, List, [], ◌∷◌, if◌then◌else◌, ltb, ◌==◌, leb,
  any, keep, sort_by, find_first, not,
}
use fortis.Lsp.Records.{
  EntryKind, RevenueKind, Reference, of_payment, of_withdrawal, of_conversion, of_conversion_entry,
  of_forward, earlier_import, entry_fee_import, transfer_fee, channel_fee, withdrawal_fee,
  routing_fee, earlier, marker, Entry, RevenueEntry, Ledger, as_i64,
}

abbrev same_option : Option ℕ → Option ℕ → Bool
same_option none none = true
same_option (some a) (some b) = a == b
same_option _ _ = false

unfoldable pub same_reference : Reference → Reference → Bool
same_reference (of_payment a) (of_payment b) = a == b
same_reference (of_withdrawal a) (of_withdrawal b) = same_option a b
same_reference (of_conversion a) (of_conversion b) = a == b
same_reference (of_conversion_entry a) (of_conversion_entry b) = a == b
same_reference (of_forward a) (of_forward b) = a == b
same_reference earlier_import earlier_import = true
same_reference entry_fee_import entry_fee_import = true
same_reference _ _ = false

unfoldable pub same_kind : RevenueKind → RevenueKind → Bool
same_kind transfer_fee transfer_fee = true
same_kind channel_fee channel_fee = true
same_kind withdrawal_fee withdrawal_fee = true
same_kind routing_fee routing_fee = true
same_kind earlier earlier = true
same_kind marker marker = true
same_kind _ _ = false

-- The index `revenue_once` has a row.
unfoldable pub booked : List RevenueEntry → RevenueKind → Reference → Bool
unfolding any same_kind same_reference
booked rs kind reference =
    any (λ r. same_kind r.kind kind && same_reference r.reference reference) rs

-- `INSERT OR IGNORE INTO revenue`.
unfoldable pub insert_row : RevenueEntry → List RevenueEntry → List RevenueEntry
unfolding booked
insert_row r rs = if booked rs r.kind r.reference then rs else r ∷ rs

unfoldable pub insert_revenue :
    ℕ → RevenueKind → ℕ → Option ℕ → Reference → List RevenueEntry → List RevenueEntry
unfolding insert_row as_i64
insert_revenue now kind amount node reference rs =
    insert_row
      (record {
        at_secs = now;
        kind = kind;
        amount = as_i64 amount;
        node = node;
        reference = reference;
      })
      rs

-- `if fee_msat > 0 { insert_revenue(…) }`.
unfoldable pub insert_fee : ℕ → RevenueKind → ℕ → ℕ → Reference → Ledger → Ledger
unfolding insert_revenue
insert_fee now kind fee node reference l =
    if ltb 0 fee
    then record l { revenue = insert_revenue now kind fee (some node) reference l.revenue }
    else l

unfoldable pub record_revenue : ℕ → RevenueKind → ℕ → Option ℕ → Reference → Ledger → Bool × Ledger
unfolding booked insert_revenue
record_revenue now kind amount node reference l = if amount == 0 then (false, l) else (
  not (booked l.revenue kind reference),
  record l { revenue = insert_revenue now kind amount node reference l.revenue },
)

unfoldable pub add_fee_invoice : ℕ → ℕ → Ledger → Ledger
unfolding any
add_fee_invoice hash node l =
    if any (λ f. f.0 == hash) l.fee_invoices
    then l
    else record l { fee_invoices = (hash, node) ∷ l.fee_invoices }

unfoldable pub fee_invoice_paid : ℕ → ℕ → ℕ → Ledger → Bool × Ledger
unfolding find_first insert_revenue
fee_invoice_paid now hash amount l = elim (find_first (λ f. f.0 == hash) l.fee_invoices) [
  | none ↦ (false, l)
  | some f ↦ (
    true,
    record l {
      revenue = insert_revenue now transfer_fee amount (some f.1) (of_payment hash) l.revenue;
    },
  )
]

-- The rows of a batch, one at a time, and how many were new.
unfoldable pub insert_rows : List RevenueEntry → List RevenueEntry → ℕ × List RevenueEntry
unfolding booked insert_row
insert_rows [] rs = (0, rs)
insert_rows (r ∷ more) rs =
    let later = insert_rows more (insert_row r rs) in
    ((if booked rs r.kind r.reference then 0 else 1) + later.0, later.1)

abbrev mark : ℕ → Reference → RevenueEntry
mark now reference = record {
  at_secs = now;
  kind = marker;
  amount = 0;
  node = none;
  reference = reference;
}

-- An import that is done once: the marker says so.
unfoldable pub import_once : ℕ → Reference → List RevenueEntry → Ledger → ℕ × Ledger
unfolding booked insert_rows
import_once now reference rows l =
    let added = insert_rows rows l.revenue in
    if booked l.revenue marker reference
    then (0, l)
    else (added.0, record l { revenue = mark now reference ∷ added.1 })

abbrev pub earlier_rows : List (ℕ × ℕ × ℕ) → List RevenueEntry
unfolding as_i64
earlier_rows [] = []
earlier_rows ((hash, amount, at) ∷ ps) =
    record {
      at_secs = at;
      kind = earlier;
      amount = as_i64 amount;
      node = none;
      reference = of_payment hash;
    }
    ∷ earlier_rows ps

-- The payments are triples: hash, amount, when.
unfoldable pub import_earlier : ℕ → List (ℕ × ℕ × ℕ) → Ledger → ℕ × Ledger
unfolding import_once
import_earlier now payments l = import_once now earlier_import (earlier_rows payments) l

abbrev pub fee_row : Entry → RevenueKind → Reference → RevenueEntry
fee_row e kind reference = record {
  at_secs = e.at_secs;
  kind = kind;
  amount = e.fee;
  node = some e.node;
  reference = reference;
}

-- The revenue row of one entry, in front of the others.
abbrev pub with_fee : Entry → EntryKind → List RevenueEntry → List RevenueEntry
with_fee e EntryKind.converted rs = fee_row e channel_fee (of_conversion_entry e.seq) ∷ rs
with_fee e EntryKind.withdrawn rs = fee_row e withdrawal_fee (of_withdrawal e.payment_hash) ∷ rs
with_fee e _ rs = rs

-- The fees in the entries, oldest first, in front of `rs`.
unfoldable pub fee_rows : List Entry → List RevenueEntry → List RevenueEntry
fee_rows [] rs = rs
fee_rows (e ∷ es) rs = fee_rows es (if ltb 0 e.fee then with_fee e e.kind rs else rs)

unfoldable pub import_entry_fees : ℕ → Ledger → ℕ × Ledger
unfolding import_once fee_rows
import_entry_fees now l = import_once now entry_fee_import (fee_rows l.entries []) l

abbrev earlier_row : RevenueEntry → RevenueEntry → Bool
earlier_row a b = ltb a.at_secs b.at_secs

-- Oldest first, without the markers.
unfoldable pub revenue_since : Ledger → ℕ → List RevenueEntry
unfolding keep sort_by same_kind
revenue_since l since =
    sort_by earlier_row (keep (λ r. leb since r.at_secs && not (same_kind r.kind marker)) l.revenue)
