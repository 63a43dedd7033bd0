-- ===== src/Lsp/Ledger/Operations.antt =====
-- crates/fortis-lsp/src/account.rs: every operation keeps the books.
use fortis.Common.{
  ℕ, ◌-◌, ◌≤◌, ◌≡◌, false, some, inl, inr, ltb, min, max, arith, Option, Option-cases, Bool-cases,
  sat_add,
}
use fortis.Lsp.Records.{
  Hold, HoldKind, EntryKind, RevenueKind, Reference, Ledger, free_msat, account_of, balance_in,
  held_in, hold_named, drop_hold,
}
use fortis.Lsp.Ledger.{
  account, insert_entry, move_balance, take_hold, insert_hold, hold_kind, hold_send,
  hold_withdrawal, start_conversion, debit, pay_from_hold, settle_hold, settle_send,
  settle_withdrawal, finish_conversion_by, abandon_conversion, rename_in, rename_hold, credit,
  transfer,
}
use fortis.Lsp.Ledger.Revenue.{insert_fee}
use fortis.Lsp.Ledger.Balances.{hold_named-IsFresh}
use fortis.Lsp.Ledger.Books.{IsBooked, Keeps}
use fortis.Lsp.Ledger.Kept.{as_i64_le, released-IsBooked, debit_released}

insert_fee-IsBooked :
    (now : ℕ) (kind : RevenueKind) (fee node : ℕ) (reference : Reference) (l : Ledger)
    → IsBooked l
    → IsBooked (insert_fee now kind fee node reference l)
unfolding insert_fee fortis.Lsp.Ledger.total_custody
insert_fee-IsBooked now kind fee node reference l b = elim (Bool-cases (ltb 0 fee)) [
  | inl e ↦ rw e b
  | inr e ↦ rw e b
]

pay_from_hold-Keeps :
    (now spent fee : ℕ) (hash : Option ℕ) (id : ℕ) (h : Hold) (l : Ledger)
    → IsBooked l
    → hold_named l.holds id ≡ some h
    → spent ≤ h.amount
    → Keeps (pay_from_hold now h.node spent fee hash (record l { holds = drop_hold l.holds id }))
unfolding pay_from_hold
pay_from_hold-Keeps now spent fee hash id h l b e le =
    let paid = debit_released now EntryKind.sent spent fee hash id h l b e le in
    elim (Bool-cases (ltb 0 spent)) [
      | inl p ↦ rw p (rw paid.0 paid.1)
      | inr p ↦ rw p (released-IsBooked id h l b e)
    ]

pub settle_hold-Keeps :
    (now id spent fee : ℕ) (hash : Option ℕ) (l : Ledger)
    → IsBooked l
    → Keeps (settle_hold now id spent fee hash l)
unfolding settle_hold take_hold
settle_hold-Keeps now id spent fee hash l b = elim (Option-cases (hold_named l.holds id)) [
  | inl e ↦ rw e tt
  | inr (h, e) ↦
      rw e (pay_from_hold-Keeps now (min spent h.amount) fee hash id h l b e (omega arith))
]

pub settle_send-Keeps :
    (now id fee : ℕ) (hash : Option ℕ) (l : Ledger)
    → IsBooked l
    → Keeps (settle_send now id fee hash l)
unfolding settle_send
settle_send-Keeps now id fee hash l b = elim (Option-cases (hold_named l.holds id)) [
  | inl e ↦ rw e tt
  | inr (h, e) ↦ rw e (
      pay_from_hold-Keeps now (min (sat_add h.base fee) h.amount) fee hash id h l b e (omega arith))
]

pub settle_withdrawal-Keeps :
    (now id fee txid : ℕ) (l : Ledger) → IsBooked l → Keeps (settle_withdrawal now id fee txid l)
unfolding settle_withdrawal take_hold
settle_withdrawal-Keeps now id fee txid l b = elim (Option-cases (hold_named l.holds id)) [
  | inl e ↦ rw e tt
  | inr (h, e) ↦
      let paid =
        debit_released now EntryKind.withdrawn h.amount fee (some txid) id h l b e (omega arith) in
      rw e (
        rw paid.0 (
          insert_fee-IsBooked now RevenueKind.withdrawal_fee fee h.node
            (Reference.of_withdrawal (some txid)) _ paid.1))
]

pub finish_conversion_by-Keeps :
    (now id fee : ℕ) (hash : Option ℕ) (l : Ledger)
    → IsBooked l
    → Keeps (finish_conversion_by now id fee hash l)
unfolding finish_conversion_by take_hold
finish_conversion_by-Keeps now id fee hash l b = elim (Option-cases (hold_named l.holds id)) [
  | inl e ↦ rw e tt
  | inr (h, e) ↦
      let paid =
        debit_released now EntryKind.converted h.amount fee hash id h l b e (omega arith) in
      rw e (
        rw paid.0 (
          insert_fee-IsBooked now RevenueKind.channel_fee fee h.node (Reference.of_conversion id) _
            paid.1))
]

pub abandon_conversion-Keeps : (id : ℕ) (l : Ledger) → IsBooked l → Keeps (abandon_conversion id l)
unfolding abandon_conversion take_hold
abandon_conversion-Keeps id l b = elim (Option-cases (hold_named l.holds id)) [
  | inl e ↦ rw e tt
  | inr (h, e) ↦ rw e (released-IsBooked id h l b e)
]

pub hold_kind-Keeps :
    (k id amount base : ℕ) (kind : HoldKind) (l : Ledger)
    → IsBooked l
    → Keeps (hold_kind k id amount base kind l)
unfolding hold_kind insert_hold account account_of free_msat fortis.Lsp.Ledger.total_custody
hold_kind-Keeps k id amount base kind l b =
    elim (Bool-cases (ltb (balance_in l.accounts k - held_in l.holds k) amount)) [
      | inl e ↦ rw e tt
      | inr e ↦ rw e (inserted e)
    ]
  where
    inserted :
        ltb (balance_in l.accounts k - held_in l.holds k) amount ≡ false
        → Keeps (insert_hold k id amount base kind l)
    inserted e = elim (Option-cases (hold_named l.holds id)) [
      | inr (h, f) ↦ rw (f, Keeps) tt
      | inl f ↦
          rw (f, Keeps)
            (
              (hold_named-IsFresh l.holds id f, omega arith, b.0),
              λ j. ((b.1 j).0, ground (arith, e, (b.1 j).1, as_i64_le amount)),
              b.2,
            )
    ]

pub hold_send-Keeps :
    (k id amount reserve : ℕ) (l : Ledger) → IsBooked l → Keeps (hold_send k id amount reserve l)
unfolding hold_send
hold_send-Keeps k id amount reserve l b =
    hold_kind-Keeps k id (max reserve amount) amount HoldKind.send l b

pub hold_withdrawal-Keeps :
    (k id amount : ℕ) (l : Ledger) → IsBooked l → Keeps (hold_withdrawal k id amount l)
unfolding hold_withdrawal
hold_withdrawal-Keeps k id amount l b = hold_kind-Keeps k id amount amount HoldKind.withdraw l b
