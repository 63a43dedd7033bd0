-- ===== src/Lsp/Held/Delivery.antt =====
-- crates/fortis-lsp/src/held.rs: when a held payment is sent on, kept or returned, and what that
-- does to the custody total.
use fortis.Common.{
  ℕ, ◌+◌, ◌*◌, ◌≤◌, ◌<◌, ◌≡◌, Bool, true, false, ◌∷◌, ok, arith, Bool-cases, inl, inr, ◌⊎◌, pos,
  inflow, outflow,
}
use fortis.Lsp.Records.{Ledger, as_i64, credited}
use fortis.Lsp.Ledger.{credit, total_custody, insert_entry}
use fortis.Lsp.Ledger.Balances.{total_in-moved}
use fortis.Lsp.Ledger.Kept.{as_i64_le}
use fortis.Lsp.Ledger.Once.{credit_new, credit_seen, credited_ledger}
use fortis.Lsp.Held.{
  keysend, claim, fail, wake, Node, Service, safety_blocks, connected_to, room_to, deadline_of,
}
use fortis.Lsp.Held.Table.{Held}

no_outflow : (n b : ℕ) → outflow (pos n) ≤ b
unfolding outflow
no_outflow n b = omega arith

total_credited :
    (now k hash amount : ℕ) (l : Ledger)
    → total_custody (credited_ledger now k hash amount l) ≤ total_custody l + amount
unfolding total_custody insert_entry inflow outflow
total_credited now k hash amount l = omega (
  arith,
  total_in-moved l.accounts k (pos (as_i64 amount)) (no_outflow (as_i64 amount) _),
  as_i64_le amount,
)

-- A credit goes through, and adds at most its amount.
pub credit_adds :
    (now k hash amount : ℕ) (l : Ledger)
    → (b : Bool) × (after : Ledger) × (credit now k hash amount l ≡ ok (b, after))
      × (total_custody after ≤ total_custody l + amount)
credit_adds now k hash amount l = elim (Bool-cases (credited l.entries k hash)) [
  | inl e ↦ (false, l, credit_seen now k hash amount l e, omega arith)
  | inr e ↦ (
    true,
    credited_ledger now k hash amount l,
    credit_new now k hash amount l e,
    total_credited now k hash amount l,
  )
]

-- What one look at a claimable payment may do.
abbrev pub Delivers : Node → Held → ℕ → Service → Service → Type 0
Delivers n h amount s after =
    -- sent on to the phone
    ((after.log ≡ keysend amount h.node ∷ s.log)
      × (connected_to n.peers h.node ≡ true)
      × (amount ≤ room_to n.channels h.node)
      × (n.height + 2 * safety_blocks < deadline_of h)
      × (after.ledger ≡ s.ledger))
    -- claimed for the account
    ⊎ ((after.log ≡ claim h.payment_hash amount ∷ s.log)
        × (deadline_of h ≤ n.height + safety_blocks)
        × (total_custody s.ledger + amount ≤ s.custody_max)
        × (total_custody after.ledger ≤ s.custody_max))
    -- returned to the payer
    ⊎ ((after.log ≡ fail h.payment_hash ∷ s.log)
        × (deadline_of h ≤ n.height + safety_blocks)
        × ((s.custody_max ≡ 0) ⊎ (s.custody_max < total_custody s.ledger + amount))
        × (after.ledger ≡ s.ledger))
    -- the phone is asked to wake, or nothing at all
    ⊎ (((after.log ≡ wake h.node amount ∷ s.log) ⊎ (after.log ≡ s.log))
        × (n.height + safety_blocks < deadline_of h)
        × (after.ledger ≡ s.ledger))
