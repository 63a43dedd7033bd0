-- ===== src/Lsp/Accounts/Holds.antt =====
-- crates/fortis-lsp/src/account_api.rs: a hold that a route places, and closes again.
use fortis.Common.{
  ℕ, ◌+◌, ◌≡◌, refl, some, ◌∷◌, ltb, ok, err, arith, Bool-cases, Option-cases, inl, inr, ◌⊎◌, subst,
  find_first,
}
use fortis.Lsp.Records.{
  Hold, HoldKind, Ledger, LedgerError, insufficient_balance, db, as_i64, balance_in, held_in,
  hold_named, free_msat,
}
use fortis.Lsp.Ledger.{account, hold_kind, insert_hold}
use fortis.Lsp.Ledger.Balances.{if_node}
use fortis.Lsp.Ledger.Books.{IsBooked, Keeps}
use fortis.Lsp.Ledger.Operations.{hold_kind-Keeps}
use fortis.Lsp.Ledger.Settling.{IsClosed}

abbrev pub hold_of : ℕ → ℕ → ℕ → ℕ → HoldKind → Hold
hold_of k id amount base kind = record {
  id = id;
  node = k;
  amount = as_i64 amount;
  base = as_i64 base;
  kind = kind;
}

-- A new hold, in front of the others.
abbrev pub placed : ℕ → ℕ → ℕ → ℕ → HoldKind → Ledger → Ledger
placed k id amount base kind l = record l {
  holds =
      record { id = id; node = k; amount = as_i64 amount; base = as_i64 base; kind = kind }
      ∷ l.holds;
}

pub hold_kind-cases :
    (k id amount base : ℕ) (kind : HoldKind) (l : Ledger)
    → ((e : LedgerError) × (hold_kind k id amount base kind l ≡ err e))
      ⊎ (hold_kind k id amount base kind l ≡ ok (placed k id amount base kind l))
unfolding hold_kind insert_hold
hold_kind-cases k id amount base kind l = elim (Bool-cases (ltb (free_msat (account l k)) amount)) [
  | inl e ↦ inl (insufficient_balance, rw e refl)
  | inr e ↦ elim (Option-cases (hold_named l.holds id)) [
    | inl f ↦ inr (rw (e, f, insert_hold) refl)
    | inr (h, f) ↦ inl (db, rw (e, f, insert_hold) refl)
  ]
]

pub placed-named :
    (k id amount base : ℕ) (kind : HoldKind) (l : Ledger)
    → hold_named (placed k id amount base kind l).holds id
      ≡ some (record { id = id; node = k; amount = as_i64 amount; base = as_i64 base; kind = kind })
unfolding hold_named find_first
placed-named k id amount base kind l = ground arith

pub placed-IsBooked :
    (k id amount base : ℕ) (kind : HoldKind) (l : Ledger)
    → IsBooked l
    → hold_kind k id amount base kind l ≡ ok (placed k id amount base kind l)
    → IsBooked (placed k id amount base kind l)
placed-IsBooked k id amount base kind l b e =
    subst Keeps e (hold_kind-Keeps k id amount base kind l b)

-- A hold that is closed again: what is held is as before it was placed.
pub placed-IsClosed :
    (k id amount base : ℕ) (kind : HoldKind) (l : Ledger) (spent : ℕ) (after : Ledger)
    → IsClosed (placed k id amount base kind l) id (hold_of k id amount base kind) spent after
    → ((j : ℕ) → balance_in after.accounts j + if_node k j spent ≡ balance_in l.accounts j)
      × ((j : ℕ) → held_in after.holds j ≡ held_in l.holds j)
unfolding held_in
placed-IsClosed k id amount base kind l spent after c = (c.1, λ j. ground (arith, c.2 j))
