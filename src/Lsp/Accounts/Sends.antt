-- ===== src/Lsp/Accounts/Sends.antt =====
-- crates/fortis-lsp/src/account_api.rs: payments out of an account, the history, and the hooks for
-- payments that arrived or were resolved.
use fortis.Common.{
  ℕ, suc, ◌+◌, min, max, Bool, true, false, Option, none, some, if◌then◌else◌, ltb, ◌==◌, Result,
  ok, err, u64,
}
use fortis.Lsp.Records.{Ledger, LedgerError}
use fortis.Lsp.Ledger.{credit, hold_send, hold_owner, settle_hold, settle_send, transfer}
use fortis.Lsp.Ledger.Revenue.{fee_invoice_paid}
use fortis.Lsp.Conversion.{fee_cap_msat}
use fortis.Lsp.Directory.{invoice_owner, offer_owner, history}
use fortis.Lsp.Accounts.{
  HoldIds, NodeAnswers, Accounts, Refusal, bad_invoice, amount_mismatch, amount_required,
  own_invoice, send_failed, refused, paid_inside, paying, entries_are, Outcome, refuse, stored,
  refused_or, max_history,
}

-- The amount to pay, from the invoice and the request.
unfoldable pub amount_to_pay : Option ℕ → Option ℕ → Result Refusal ℕ
amount_to_pay (some a) none = ok a
amount_to_pay (some a) (some b) = if a == b then ok a else err amount_mismatch
amount_to_pay none (some b) = if ltb 0 b then ok b else err amount_required
amount_to_pay none none = err amount_required

abbrev transferred : Accounts → ℕ → Result LedgerError (Bool × Ledger) → Outcome
transferred a hash (ok (fresh, l)) = (record a { ledger = l }, ok (paid_inside hash))
transferred a hash (err e) = refused_or a e

unfoldable pub pay_inside : ℕ → ℕ → ℕ → ℕ → ℕ → Accounts → Outcome
unfolding transfer
pay_inside now node to hash amount a =
    if to == node
    then refuse 400 own_invoice a
    else transferred a hash (transfer now node to hash amount a.ledger)

-- After the hold was asked for; an amount goes along for an invoice without one.
unfoldable pub held_send :
    ℕ → NodeAnswers → ℕ → ℕ → ℕ → Option ℕ → Accounts → Result LedgerError Ledger → Outcome
unfolding settle_hold
held_send now n id invoice hash pay_amount a (err e) = refused_or a e
held_send now n id invoice hash pay_amount a (ok l) =
    if n.send_bolt11 invoice pay_amount
    then (record a { ledger = l }, ok (paying hash))
    else stored (record a { ledger = l }) (refused 502 send_failed) (settle_hold now id 0 0 none l)

unfoldable pub pay_outside :
    HoldIds → ℕ → NodeAnswers → ℕ → ℕ → ℕ → Option ℕ → ℕ → Accounts → Outcome
unfolding held_send hold_send fee_cap_msat
pay_outside ids now n node invoice hash inv_amount amount a =
    held_send now n (ids.send_hold_id hash) invoice hash
      (elim inv_amount [ none ↦ some amount | some x ↦ none ]) a
      (hold_send node (ids.send_hold_id hash) amount (u64 (amount + fee_cap_msat amount)) a.ledger)

unfoldable pub pay_amount :
    HoldIds → ℕ → NodeAnswers → ℕ → ℕ → ℕ → Option ℕ → Result Refusal ℕ → Accounts → Outcome
unfolding pay_inside pay_outside invoice_owner
pay_amount ids now n node invoice hash inv_amount (err r) a = refuse 400 r a
pay_amount ids now n node invoice hash inv_amount (ok amount) a =
    elim (invoice_owner a.directory hash) [
      | some to ↦ pay_inside now node to hash amount a
      | none ↦ pay_outside ids now n node invoice hash inv_amount amount a
    ]

unfoldable pub pay : HoldIds → ℕ → NodeAnswers → ℕ → ℕ → Option ℕ → Accounts → Outcome
unfolding pay_amount amount_to_pay
pay ids now n node invoice asked a = elim (n.invoice_details invoice) [
  | none ↦ refuse 400 bad_invoice a
  | some (inv_amount, hash) ↦
      pay_amount ids now n node invoice hash inv_amount (amount_to_pay inv_amount asked) a
]

abbrev limit_of : Option ℕ → ℕ
limit_of none = 50
limit_of (some limit) = limit

unfoldable pub account_history : ℕ → Option ℕ → Accounts → Outcome
unfolding history
account_history node limit a =
    (a, ok (entries_are (history a.ledger node (min (max (limit_of limit) 1) max_history))))

-- A receipt that is new is announced.
abbrev announced :
    Accounts → Result LedgerError (Bool × Ledger) → Accounts × Result LedgerError Bool
announced a (ok (fresh, l)) =
    (record a { ledger = l; notices = if fresh then suc a.notices else a.notices }, ok true)
announced a (err e) = (a, err e)

unfoldable pub on_payment_received : ℕ → ℕ → ℕ → Accounts → Accounts × Result LedgerError Bool
unfolding invoice_owner credit fee_invoice_paid
on_payment_received now hash amount a = elim (invoice_owner a.directory hash) [
  | some node ↦ announced a (credit now node hash amount a.ledger)
  | none ↦ (record a { ledger = (fee_invoice_paid now hash amount a.ledger).1 }, ok false)
]

unfoldable pub credit_offer : ℕ → ℕ → ℕ → Option ℕ → Accounts → Accounts × Result LedgerError Bool
unfolding credit
credit_offer now hash amount (some node) a = announced a (credit now node hash amount a.ledger)
credit_offer now hash amount none a = (a, ok false)

unfoldable pub on_offer_payment_received :
    ℕ → NodeAnswers → ℕ → ℕ → ℕ → Accounts → Accounts × Result LedgerError Bool
unfolding offer_owner credit_offer
on_offer_payment_received now n payment_id hash amount a = elim (n.paid_offer payment_id) [
  | none ↦ (a, ok false)
  | some offer_id ↦ credit_offer now hash amount (offer_owner a.directory offer_id) a
]

abbrev pub kept : Accounts → Result LedgerError Ledger → Accounts × Result LedgerError (Unit {0})
kept a (ok l) = (record a { ledger = l }, ok tt)
kept a (err e) = (a, err e)

unfoldable pub resolve_send : ℕ → ℕ → ℕ → Option ℕ → Ledger → Result LedgerError Ledger
unfolding settle_send settle_hold
resolve_send now id hash (some fee) l = settle_send now id fee (some hash) l
resolve_send now id hash none l = settle_hold now id 0 0 none l

unfoldable pub on_payment_resolved :
    HoldIds → ℕ → ℕ → Option ℕ → Accounts → Accounts × Result LedgerError (Unit {0})
unfolding hold_owner resolve_send
on_payment_resolved ids now hash fee a = elim (hold_owner a.ledger (ids.send_hold_id hash)) [
  | none ↦ (a, ok tt)
  | some owner ↦ kept a (resolve_send now (ids.send_hold_id hash) hash fee a.ledger)
]
