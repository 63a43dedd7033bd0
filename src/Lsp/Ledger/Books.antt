-- ===== src/Lsp/Ledger/Books.antt =====
-- crates/fortis-lsp/src/account.rs: the books balance. What each operation keeps true of the
-- accounts, the holds and the entries.
use fortis.Common.{
  ℕ, ◌+◌, ◌≤◌, ◌≡◌, List, [], ◌∷◌, ℤ, inflow, outflow, Result, ok, err, arith, sum_by, Option,
}
use fortis.Lsp.Records.{LedgerError, Entry, EntryKind, Ledger, as_i64, balance_in, held_in}
use fortis.Lsp.Ledger.{insert_entry, total_custody}
use fortis.Lsp.Ledger.Balances.{if_node, moved, balance_in-moved, total_in-moved, IsKeyed}

-- What the entries of a node brought in, and took out.
unfoldable pub earned_in : List Entry → ℕ → ℕ
unfolding inflow
earned_in [] k = 0
earned_in (e ∷ es) k = if_node e.node k (inflow e.amount) + earned_in es k

unfoldable pub spent_in : List Entry → ℕ → ℕ
unfolding outflow
spent_in [] k = 0
spent_in (e ∷ es) k = if_node e.node k (outflow e.amount) + spent_in es k

unfoldable pub total_earned : List Entry → ℕ
unfolding sum_by inflow
total_earned es = sum_by (λ e. inflow e.amount) es

unfoldable pub total_spent : List Entry → ℕ
unfolding sum_by outflow
total_spent es = sum_by (λ e. outflow e.amount) es

-- A node's balance is what its entries add up to, and it covers the node's holds.
abbrev pub IsBacked : Ledger → ℕ → Type 0
IsBacked l j =
    (balance_in l.accounts j + spent_in l.entries j ≡ earned_in l.entries j)
    × (held_in l.holds j ≤ balance_in l.accounts j)

abbrev pub IsBooked : Ledger → Type 0
IsBooked l =
    IsKeyed l.holds
    × ((j : ℕ) → IsBacked l j)
    × (total_custody l + total_spent l.entries ≡ total_earned l.entries)

-- What an operation leaves: an error leaves the ledger alone.
abbrev pub Keeps : Result LedgerError Ledger → Type 0
Keeps (ok l) = IsBooked l
Keeps (err e) = Unit

as_i64_le : (n : ℕ) → as_i64 n ≤ n
unfolding as_i64
as_i64_le n = omega arith

-- A movement with its entry, after a change that the balance covers.
abbrev pub entered : ℕ → ℕ → EntryKind → ℤ → ℕ → Option ℕ → Ledger → Ledger
entered now k kind delta fee hash l =
    insert_entry now k kind delta fee hash (record l { accounts = moved l.accounts k delta })

pub entered-IsBooked :
    (now k : ℕ) (kind : EntryKind) (delta : ℤ) (fee : ℕ) (hash : Option ℕ) (l : Ledger)
    → IsBooked l
    → ((j : ℕ) → held_in l.holds j + if_node k j (outflow delta) ≤ balance_in l.accounts j)
    → IsBooked (entered now k kind delta fee hash l)
unfolding insert_entry earned_in spent_in total_earned total_spent total_custody sum_by
entered-IsBooked now k kind delta fee hash l (keyed, backed, total) room = (
  keyed,
  λ j. (
    omega (arith, balance_in-moved l.accounts k delta j covered, (backed j).0),
    ground (arith, balance_in-moved l.accounts k delta j covered, room j),
  ),
  omega (arith, total_in-moved l.accounts k delta covered, total),
)
  where
    covered : outflow delta ≤ balance_in l.accounts k
    covered = ground (arith, room k)
