-- ===== src/Lsp/Ledger/Memory.antt =====
-- crates/fortis-lsp/src/account.rs: no operation forgets that a payment hash was credited.
use fortis.Common.{
  ℕ, ◌≡◌, true, some, none, inl, inr, List, ltb, min, ℤ, neg, Result, ok, err, ◌>>=◌, ok_or, arith,
  Option, Option-cases, Bool-cases, any, sat_add,
}
use fortis.Lsp.Records.{
  LedgerError, AccountRow, Hold, HoldKind, Entry, EntryKind, RevenueKind, Reference, Ledger, as_i64,
  add_balance, hold_named, drop_hold, credited,
}
use fortis.Lsp.Ledger.{
  insert_entry, move_balance, take_hold, insert_hold, hold_kind, debit, pay_from_hold, settle_hold,
  settle_send, settle_withdrawal, finish_conversion_by, abandon_conversion, rename_hold,
}
use fortis.Lsp.Ledger.Revenue.{insert_fee}

-- What is credited in the entries stays credited.
abbrev pub Remembers : List Entry → Result LedgerError Ledger → Type 0
Remembers es (ok l) = (k hash : ℕ) → credited es k hash ≡ true → credited l.entries k hash ≡ true
Remembers es (err e) = Unit

pub insert_entry-credited :
    (now k : ℕ) (kind : EntryKind) (amount : ℤ) (fee : ℕ) (hash : Option ℕ) (l : Ledger) (j g : ℕ)
    → credited l.entries j g ≡ true
    → credited (insert_entry now k kind amount fee hash l).entries j g ≡ true
unfolding credited any insert_entry
insert_entry-credited now k kind amount fee hash l j g h = ground (arith, h)

debit-Remembers :
    (now k : ℕ) (kind : EntryKind) (amount fee : ℕ) (hash : Option ℕ) (l : Ledger)
    → Remembers l.entries (debit now k kind amount fee hash l)
unfolding debit move_balance
debit-Remembers now k kind amount fee hash l = go (add_balance l.accounts k (neg (as_i64 amount)))
  where
    go :
        (r : Result LedgerError (List AccountRow))
        → Remembers l.entries (
            ◌>>=◌ {B = Ledger}
              (◌>>=◌ {B = Ledger} r (λ accounts. ok (record l { accounts = accounts })))
              (λ after. ok (insert_entry now k kind (neg (as_i64 amount)) (as_i64 fee) hash after)))
    go (ok rs) =
        insert_entry-credited now k kind (neg (as_i64 amount)) (as_i64 fee) hash
          (record l { accounts = rs })
    go (err e) = tt

insert_fee-Remembers :
    (es : List Entry) (now : ℕ) (kind : RevenueKind) (fee node : ℕ) (reference : Reference)
    (r : Result LedgerError Ledger)
    → Remembers es r
    → Remembers es (r >>= λ paid. ok (insert_fee now kind fee node reference paid))
unfolding insert_fee
insert_fee-Remembers es now kind fee node reference (err e) h = tt
insert_fee-Remembers es now kind fee node reference (ok l) h = elim (Bool-cases (ltb 0 fee)) [
  | inl p ↦ rw p h
  | inr p ↦ rw p h
]

pay_from_hold-Remembers :
    (now k spent fee : ℕ) (hash : Option ℕ) (l : Ledger)
    → Remembers l.entries (pay_from_hold now k spent fee hash l)
unfolding pay_from_hold
pay_from_hold-Remembers now k spent fee hash l = elim (Bool-cases (ltb 0 spent)) [
  | inl p ↦ rw p (debit-Remembers now k EntryKind.sent spent fee hash l)
  | inr p ↦ rw p (λ j g h. h)
]

pub settle_hold-Remembers :
    (now id spent fee : ℕ) (hash : Option ℕ) (l : Ledger)
    → Remembers l.entries (settle_hold now id spent fee hash l)
unfolding settle_hold take_hold
settle_hold-Remembers now id spent fee hash l = elim (Option-cases (hold_named l.holds id)) [
  | inl e ↦ rw (e, Remembers) tt
  | inr (h, e) ↦
      rw (e, Remembers)
        (pay_from_hold-Remembers now h.node (min spent h.amount) fee hash
          (record l { holds = drop_hold l.holds id }))
]

pub settle_send-Remembers :
    (now id fee : ℕ) (hash : Option ℕ) (l : Ledger)
    → Remembers l.entries (settle_send now id fee hash l)
unfolding settle_send
settle_send-Remembers now id fee hash l = go (hold_named l.holds id)
  where
    go :
        (o : Option Hold)
        → Remembers l.entries (
            ok_or o (LedgerError.unknown_hold id) >>= λ h.
            settle_hold now id (sat_add h.base fee) fee hash l)
    go none = tt
    go (some h) = settle_hold-Remembers now id (sat_add h.base fee) fee hash l

pub settle_withdrawal-Remembers :
    (now id fee txid : ℕ) (l : Ledger) → Remembers l.entries (settle_withdrawal now id fee txid l)
unfolding settle_withdrawal take_hold
settle_withdrawal-Remembers now id fee txid l = elim (Option-cases (hold_named l.holds id)) [
  | inl e ↦ rw (e, Remembers) tt
  | inr (h, e) ↦
      let rest = record l { holds = drop_hold l.holds id } in
      rw (e, Remembers)
        (insert_fee-Remembers l.entries now RevenueKind.withdrawal_fee fee h.node
          (Reference.of_withdrawal (some txid))
          (debit now h.node EntryKind.withdrawn h.amount fee (some txid) rest)
          (debit-Remembers now h.node EntryKind.withdrawn h.amount fee (some txid) rest))
]

pub finish_conversion_by-Remembers :
    (now id fee : ℕ) (hash : Option ℕ) (l : Ledger)
    → Remembers l.entries (finish_conversion_by now id fee hash l)
unfolding finish_conversion_by take_hold
finish_conversion_by-Remembers now id fee hash l = elim (Option-cases (hold_named l.holds id)) [
  | inl e ↦ rw (e, Remembers) tt
  | inr (h, e) ↦
      let rest = record l { holds = drop_hold l.holds id } in
      rw (e, Remembers)
        (insert_fee-Remembers l.entries now RevenueKind.channel_fee fee h.node
          (Reference.of_conversion id) (debit now h.node EntryKind.converted h.amount fee hash rest)
          (debit-Remembers now h.node EntryKind.converted h.amount fee hash rest))
]

pub abandon_conversion-Remembers :
    (id : ℕ) (l : Ledger) → Remembers l.entries (abandon_conversion id l)
unfolding abandon_conversion take_hold
abandon_conversion-Remembers id l = elim (Option-cases (hold_named l.holds id)) [
  | inl e ↦ rw (e, Remembers) tt
  | inr (h, e) ↦ rw (e, Remembers) (λ j g p. p)
]

pub rename_hold-Remembers : (old new : ℕ) (l : Ledger) → Remembers l.entries (rename_hold old new l)
unfolding rename_hold
rename_hold-Remembers old new l = ground arith

pub hold_kind-Remembers :
    (k id amount base : ℕ) (kind : HoldKind) (l : Ledger)
    → Remembers l.entries (hold_kind k id amount base kind l)
unfolding hold_kind insert_hold
hold_kind-Remembers k id amount base kind l = ground arith
