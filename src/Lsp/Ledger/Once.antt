-- ===== src/Lsp/Ledger/Once.antt =====
-- crates/fortis-lsp/src/account.rs: a credit and a transfer are made once for each payment hash,
-- and keep the books.
use fortis.Common.{
  ℕ, ◌+◌, ◌≤◌, ◌≡◌, refl, true, false, some, none, inl, inr, ltb, pos, neg, inflow, outflow,
  inflow-neg, outflow-neg, ok, err, ◌>>=◌, reject_if, arith, ap, sum_by, Bool-cases, ◌<◌,
}
use fortis.Lsp.Records.{
  insufficient_balance, EntryKind, Ledger, as_i64, free_msat, account_of, balance_in, held_in,
  credited,
}
use fortis.Lsp.Ledger.{
  account, insert_entry, move_balance, credit, transfer, total_custody, total_in,
}
use fortis.Lsp.Ledger.Balances.{if_node, moved, balance_in-moved, total_in-moved}
use fortis.Lsp.Ledger.Books.{
  IsBooked, Keeps, entered, entered-IsBooked, earned_in, spent_in, total_earned, total_spent,
}
use fortis.Lsp.Ledger.Kept.{as_i64_le, move_balance_covered}
use fortis.Lsp.Ledger.Transfers.{ledger_of}

-- The ledger after a credit that is new.
abbrev pub credited_ledger : ℕ → ℕ → ℕ → ℕ → Ledger → Ledger
credited_ledger now k hash amount l =
    entered now k EntryKind.received (pos (as_i64 amount)) 0 (some hash) l

no_outflow : (n b : ℕ) → outflow (pos n) ≤ b
unfolding outflow
no_outflow n b = omega arith

pub credit_new :
    (now k hash amount : ℕ) (l : Ledger)
    → credited l.entries k hash ≡ false
    → credit now k hash amount l ≡ ok (true, credited_ledger now k hash amount l)
unfolding credit insert_entry
credit_new now k hash amount l e =
    rw
      (
        e,
        move_balance_covered k (pos (as_i64 amount))
            (insert_entry now k EntryKind.received (pos (as_i64 amount)) 0 (some hash) l)
            (no_outflow (as_i64 amount) (balance_in l.accounts k)),
      )
      refl

pub credit_seen :
    (now k hash amount : ℕ) (l : Ledger)
    → credited l.entries k hash ≡ true
    → credit now k hash amount l ≡ ok (false, l)
unfolding credit
credit_seen now k hash amount l e = rw e refl

pub credit-Keeps :
    (now k hash amount : ℕ) (l : Ledger)
    → IsBooked l
    → Keeps (ledger_of (credit now k hash amount l))
credit-Keeps now k hash amount l b = elim (Bool-cases (credited l.entries k hash)) [
  | inl e ↦ rw (credit_seen now k hash amount l e) b
  | inr e ↦ rw (credit_new now k hash amount l e) (
      entered-IsBooked now k EntryKind.received (pos (as_i64 amount)) 0 (some hash) l b
        (λ j. ground (arith, (b.1 j).1, no_outflow (as_i64 amount) 0)))
]

pub transfer_seen :
    (now from to hash amount : ℕ) (l : Ledger)
    → credited l.entries to hash ≡ true
    → transfer now from to hash amount l ≡ ok (false, l)
unfolding transfer
transfer_seen now from to hash amount l e = rw e refl

-- The ledger after a transfer that is new.
abbrev pub transferred : ℕ → ℕ → ℕ → ℕ → ℕ → Ledger → Ledger
transferred now from to hash amount l =
    let noted = insert_entry now to EntryKind.internal (pos (as_i64 amount)) 0 (some hash) l in
    insert_entry now from EntryKind.internal (neg (as_i64 amount)) 0 none (record noted {
      accounts = moved (moved l.accounts from (neg (as_i64 amount))) to (pos (as_i64 amount));
    })

module _ (now from to hash amount : ℕ) (l : Ledger)
    (fresh : credited l.entries to hash ≡ false) where
  covered_by :
      amount ≤ free_msat (account l from)
      → outflow (neg (as_i64 amount)) ≤ balance_in l.accounts from
  unfolding free_msat account account_of
  covered_by enough = omega (arith, enough, outflow-neg (as_i64 amount), as_i64_le amount)

  abbrev noted : Ledger
  noted = insert_entry now to EntryKind.internal (pos (as_i64 amount)) 0 (some hash) l

  abbrev paid : Ledger
  paid = record noted { accounts = moved l.accounts from (neg (as_i64 amount)) }

  -- A transfer that is not a repetition.
  steps : transfer now from to hash amount l ≡ (do
    _ ← reject_if (ltb (free_msat (account l from)) amount) insufficient_balance
    out ← move_balance from (neg (as_i64 amount)) noted
    done ← move_balance to (pos (as_i64 amount)) out
    ok (true, insert_entry now from EntryKind.internal (neg (as_i64 amount)) 0 none done))
  unfolding transfer insert_entry account
  steps = rw fresh refl

  moved_out :
      amount ≤ free_msat (account l from) → move_balance from (neg (as_i64 amount)) noted ≡ ok paid
  unfolding insert_entry
  moved_out enough = move_balance_covered from (neg (as_i64 amount)) noted (covered_by enough)

  moved_in :
      move_balance to (pos (as_i64 amount)) paid
      ≡ ok (record paid { accounts = moved paid.accounts to (pos (as_i64 amount)) })
  moved_in =
      move_balance_covered to (pos (as_i64 amount)) paid
        (no_outflow (as_i64 amount) (balance_in paid.accounts to))

  pub transfer_new :
      amount ≤ free_msat (account l from)
      → transfer now from to hash amount l ≡ ok (true, transferred now from to hash amount l)
  transfer_new enough = rw (steps, not_short enough, moved_out enough, moved_in) refl
    where
      not_short :
          amount ≤ free_msat (account l from) → ltb (free_msat (account l from)) amount ≡ false
      not_short enough = ground (arith, enough)

  pub transfer_short :
      free_msat (account l from) < amount
      → transfer now from to hash amount l ≡ err insufficient_balance
  transfer_short short = rw (steps, is_short short) refl
    where
      is_short :
          free_msat (account l from) < amount → ltb (free_msat (account l from)) amount ≡ true
      is_short short = ground (arith, short)

  total_in-transferred :
      amount ≤ free_msat (account l from)
      → total_in (transferred now from to hash amount l).accounts ≡ total_in l.accounts
  unfolding insert_entry inflow outflow
  total_in-transferred enough = omega (
    arith,
    total_in-moved l.accounts from (neg (as_i64 amount)) (covered_by enough),
    total_in-moved paid.accounts to (pos (as_i64 amount)) (no_outflow (as_i64 amount) _),
    inflow-neg (as_i64 amount),
    outflow-neg (as_i64 amount),
  )

  pub total_custody-transferred :
      amount ≤ free_msat (account l from)
      → total_custody (transferred now from to hash amount l) ≡ total_custody l
  unfolding total_custody
  total_custody-transferred enough = total_in-transferred enough

  -- What a node's balance becomes.
  pub balance_in-transferred :
      (j : ℕ)
      → amount ≤ free_msat (account l from)
      → balance_in (transferred now from to hash amount l).accounts j
          + if_node from j (as_i64 amount)
        ≡ balance_in l.accounts j + if_node to j (as_i64 amount)
  unfolding insert_entry inflow outflow
  balance_in-transferred j enough = ground (
    arith,
    balance_in-moved l.accounts from (neg (as_i64 amount)) j (covered_by enough),
    balance_in-moved paid.accounts to (pos (as_i64 amount)) j (no_outflow (as_i64 amount) _),
    inflow-neg (as_i64 amount),
    outflow-neg (as_i64 amount),
  )

  held_room :
      (j : ℕ)
      → IsBooked l
      → amount ≤ free_msat (account l from)
      → held_in l.holds j + if_node from j (as_i64 amount) ≤ balance_in l.accounts j
  unfolding account account_of free_msat
  held_room j b enough = ground (arith, as_i64_le amount, (b.1 j).1, enough)

  pub transferred-IsBooked :
      IsBooked l
      → amount ≤ free_msat (account l from)
      → IsBooked (transferred now from to hash amount l)
  unfolding insert_entry earned_in spent_in inflow outflow total_earned total_spent sum_by
  transferred-IsBooked b enough = (
    b.0,
    λ j. (
      omega (
        arith,
        balance_in-transferred j enough,
        (b.1 j).0,
        inflow_node j,
        outflow_node j,
        none_out j,
      ),
      omega (arith, balance_in-transferred j enough, held_room j b enough),
    ),
    omega (
      arith,
      total_custody-transferred enough,
      b.2,
      inflow-neg (as_i64 amount),
      outflow-neg (as_i64 amount),
    ),
  )
    where
      inflow_node : (j : ℕ) → if_node from j (inflow (neg (as_i64 amount))) ≡ 0
      inflow_node j = ground (arith, inflow-neg (as_i64 amount))

      outflow_node :
          (j : ℕ) → if_node from j (outflow (neg (as_i64 amount))) ≡ if_node from j (as_i64 amount)
      outflow_node j = ap (if_node from j) (outflow-neg (as_i64 amount))

      none_out : (j : ℕ) → if_node to j (outflow (pos (as_i64 amount))) ≡ 0
      none_out j = ground arith
