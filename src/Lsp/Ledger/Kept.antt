-- ===== src/Lsp/Ledger/Kept.antt =====
-- crates/fortis-lsp/src/account.rs: every operation keeps the books.
use fortis.Common.{ℕ, ◌+◌, ◌≤◌, ◌≡◌, refl, some, ℤ, neg, outflow, outflow-neg, ok, arith, Option}
use fortis.Lsp.Records.{Hold, EntryKind, Ledger, as_i64, balance_in, held_in, hold_named, drop_hold}
use fortis.Lsp.Ledger.{
  account, insert_entry, move_balance, take_hold, insert_hold, hold_kind, hold_send,
  hold_withdrawal, start_conversion, debit, pay_from_hold, settle_hold, settle_send,
  settle_withdrawal, finish_conversion_by, abandon_conversion, rename_in, rename_hold, credit,
  transfer,
}
use fortis.Lsp.Ledger.Balances.{
  if_node, moved, add_balance_covered, drop_hold-IsKeyed, held_in-drop_hold,
}
use fortis.Lsp.Ledger.Books.{IsBooked, entered, entered-IsBooked}

pub as_i64_le : (n : ℕ) → as_i64 n ≤ n
unfolding as_i64
as_i64_le n = omega arith

pub move_balance_covered :
    (k : ℕ) (delta : ℤ) (l : Ledger)
    → outflow delta ≤ balance_in l.accounts k
    → move_balance k delta l ≡ ok (record l { accounts = moved l.accounts k delta })
unfolding move_balance
move_balance_covered k delta l h = rw (add_balance_covered l.accounts k delta h) refl

-- A debit that the balance covers goes through.
pub debit_covered :
    (now k : ℕ) (kind : EntryKind) (amount fee : ℕ) (hash : Option ℕ) (l : Ledger)
    → amount ≤ balance_in l.accounts k
    → debit now k kind amount fee hash l
      ≡ ok (entered now k kind (neg (as_i64 amount)) (as_i64 fee) hash l)
unfolding debit
debit_covered now k kind amount fee hash l h =
    rw
      (move_balance_covered k (neg (as_i64 amount)) l
        (omega (arith, h, outflow-neg (as_i64 amount), as_i64_le amount)))
      refl

-- The ledger without a hold, and with what it held free.
pub released_room :
    (id : ℕ) (h : Hold) (l : Ledger)
    → IsBooked l
    → hold_named l.holds id ≡ some h
    → (j : ℕ)
    → held_in (drop_hold l.holds id) j + if_node h.node j h.amount ≤ balance_in l.accounts j
released_room id h l b e j = omega (arith, held_in-drop_hold l.holds id h j b.0 e, (b.1 j).1)

pub released-IsBooked :
    (id : ℕ) (h : Hold) (l : Ledger)
    → IsBooked l
    → hold_named l.holds id ≡ some h
    → IsBooked (record l { holds = drop_hold l.holds id })
unfolding fortis.Lsp.Ledger.total_custody
released-IsBooked id h l b e = (
  drop_hold-IsKeyed l.holds id b.0,
  λ j. ((b.1 j).0, omega (arith, released_room id h l b e j)),
  b.2,
)

-- A debit of at most a released hold.
pub debit_released :
    (now : ℕ) (kind : EntryKind) (amount fee : ℕ) (hash : Option ℕ) (id : ℕ) (h : Hold) (l : Ledger)
    → IsBooked l
    → hold_named l.holds id ≡ some h
    → amount ≤ h.amount
    → let rest = record l { holds = drop_hold l.holds id } in
      let after = entered now h.node kind (neg (as_i64 amount)) (as_i64 fee) hash rest in
      (debit now h.node kind amount fee hash rest ≡ ok after) × IsBooked after
debit_released now kind amount fee hash id h l b e le = (
  debit_covered now h.node kind amount fee hash rest
      (ground (arith, released_room id h l b e h.node, le)),
  entered-IsBooked now h.node kind (neg (as_i64 amount)) (as_i64 fee) hash rest
      (released-IsBooked id h l b e)
      (λ j.
        ground
          (arith, released_room id h l b e j, outflow-neg (as_i64 amount), as_i64_le amount, le)),
)
  where
    rest : Ledger
    rest = record l { holds = drop_hold l.holds id }
