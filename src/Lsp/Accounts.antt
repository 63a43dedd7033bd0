-- ===== src/Lsp/Accounts.antt =====
-- crates/fortis-lsp/src/account_api.rs: the account routes, and the hooks that the events of the
-- Lightning node call. A request's fields come parsed; the texts of hold ids are numbered by
-- `HoldIds`; the node's answers to a call are `NodeAnswers`.
use fortis.Common.{
  ℕ, suc, ◌+◌, ◌*◌, ◌/◌, ◌%◌, min, max, Bool, true, false, not, ◌&&◌, ◌||◌, Option, none, some,
  List, [], ◌∷◌, if◌then◌else◌, ltb, leb, ◌==◌, Result, ok, err, sat_add, u64,
}
use fortis.Lsp.Records.{
  Account, Entry, Ledger, LedgerError, insufficient_balance, unknown_hold, db, account_of,
}
use fortis.Lsp.Ledger.{
  account, credit, hold_send, hold_withdrawal, hold_owner, settle_hold, settle_send,
  settle_withdrawal, transfer, total_custody,
}
use fortis.Lsp.Ledger.Revenue.{add_fee_invoice, fee_invoice_paid}
use fortis.Lsp.Conversion.{Withdrawal, withdrawal, fee_cap_msat}
use fortis.Lsp.Directory.{
  Directory, pending_invoice, invoice_owner, set_push_token, set_offer, offer_of, offer_owner,
  history,
}
pub mod Sends
pub mod Holds
pub mod Withdrawals
pub mod Payments

pub record HoldIds : Type 0 where
  pub send_hold_id : ℕ → ℕ
  pub withdrawal_hold_id : ℕ → ℕ → ℕ

pub data OnchainSend : Type 0 where
  broadcast : (txid : ℕ) → OnchainSend
  no_address : OnchainSend
  node_error : OnchainSend

pub record NodeAnswers : Type 0 where
  -- The invoice and its payment hash.
  pub receive_invoice : ℕ → Option (ℕ × ℕ)
  -- The amount, if it has one, and the payment hash.
  pub invoice_details : ℕ → Option (Option ℕ × ℕ)
  pub send_bolt11 : ℕ → Option ℕ → Bool
  pub backing_sat : ℕ
  pub send_onchain : ℕ → ℕ → ℕ → OnchainSend
  pub create_offer : Option (ℕ × ℕ)
  pub paid_offer : ℕ → Option ℕ

pub record Accounts : Type 0 where
  pub ledger : Ledger
  pub directory : Directory
  pub account_max_msat : ℕ
  pub custody_max_msat : ℕ
  pub min_channel_receive_sat : ℕ
  pub notices : ℕ

pub data Refusal : Type 0 where
  bad_amount : Refusal
  bad_params : Refusal
  too_small : Refusal
  insufficient : Refusal
  bad_address : Refusal
  node_failed : Refusal
  bad_invoice : Refusal
  amount_mismatch : Refusal
  amount_required : Refusal
  own_invoice : Refusal
  send_failed : Refusal
  bad_token : Refusal

-- The replies; a refusal with its HTTP status.
pub data Reply : Type 0 where
  refused : (status : ℕ) → Refusal → Reply
  custody_full : (min_channel_sat : ℕ) → Reply
  balance_is : (balance held max_msat : ℕ) → Reply
  invoice_is : ℕ → Reply
  withdrawn_as : (txid payout_sat fee_sat : ℕ) → Reply
  paid_inside : (hash : ℕ) → Reply
  paying : (hash : ℕ) → Reply
  entries_are : List Entry → Reply
  offer_is : ℕ → Reply
  registered : Reply

abbrev pub Outcome : Type 0
Outcome = Accounts × Result LedgerError Reply

abbrev invoice_expiry_secs : ℕ
invoice_expiry_secs = 3600

abbrev pub max_history : ℕ
max_history = 200

abbrev max_fee_invoice_msat : ℕ
max_fee_invoice_msat = 50000000

abbrev pub refuse : ℕ → Refusal → Accounts → Outcome
refuse status r a = (a, ok (refused status r))

abbrev full : Accounts → Outcome
full a = (a, ok (custody_full a.min_channel_receive_sat))

unfoldable pub account_balance : ℕ → Accounts → Outcome
unfolding account
account_balance node a =
    let c = account a.ledger node in (a, ok (balance_is c.balance c.held a.account_max_msat))

unfoldable pub issue_invoice : ℕ → NodeAnswers → ℕ → ℕ → Accounts → Outcome
unfolding pending_invoice
issue_invoice now n node amount a = elim (n.receive_invoice amount) [
  | none ↦ refuse 502 node_failed a
  | some (invoice, hash) ↦ (
    record a {
      directory = pending_invoice hash node amount (u64 (now + invoice_expiry_secs)) a.directory;
    },
    ok (invoice_is invoice),
  )
]

unfoldable pub invoice : ℕ → NodeAnswers → ℕ → ℕ → Accounts → Outcome
unfolding issue_invoice total_custody
invoice now n node amount a =
    let after = sat_add (total_custody a.ledger) amount in
    if amount == 0
    then refuse 400 bad_amount a
    else (if a.custody_max_msat == 0
          || ltb a.custody_max_msat after
          || ltb n.backing_sat (after / 1000)
        then full a
        else issue_invoice now n node amount a)

unfoldable pub fee_invoice : NodeAnswers → ℕ → ℕ → Accounts → Outcome
unfolding add_fee_invoice
fee_invoice n node amount a =
    if ltb 0 amount && leb amount max_fee_invoice_msat
    then elim (n.receive_invoice amount) [
      | none ↦ refuse 502 node_failed a
      | some (made, hash) ↦
          (record a { ledger = add_fee_invoice hash node a.ledger }, ok (invoice_is made))
    ]
    else refuse 400 bad_amount a

-- The token has passed the test of its characters, or is none.
unfoldable pub push_register : ℕ → ℕ → Option ℕ → Accounts → Outcome
unfolding set_push_token
push_register now node none a = refuse 400 bad_token a
push_register now node (some token) a =
    (record a { directory = set_push_token node token now a.directory }, ok registered)

unfoldable pub offer : NodeAnswers → ℕ → Accounts → Outcome
unfolding offer_of set_offer
offer n node a = if a.custody_max_msat == 0 then full a else elim (offer_of a.directory node) [
  | some made ↦ (a, ok (offer_is made))
  | none ↦ elim n.create_offer [
    | none ↦ refuse 502 node_failed a
    | some (made, id) ↦
        (record a { directory = set_offer node id made a.directory }, ok (offer_is made))
  ]
]

-- The reply to a result of the ledger.
abbrev pub stored : Accounts → Reply → Result LedgerError Ledger → Outcome
stored a reply (ok l) = (record a { ledger = l }, ok reply)
stored a reply (err e) = (a, err e)

-- A debit or a hold that may be refused for want of money.
abbrev pub refused_or : Accounts → LedgerError → Outcome
refused_or a insufficient_balance = refuse 402 insufficient a
refused_or a e = (a, err e)

unfoldable pub send_withdrawal : ℕ → ℕ → Withdrawal → OnchainSend → Accounts → Outcome
unfolding settle_withdrawal settle_hold
send_withdrawal now id w (broadcast txid) a =
    stored a (withdrawn_as txid w.payout_sat w.fee_sat)
      (settle_withdrawal now id (u64 (w.fee_sat * 1000)) txid a.ledger)
send_withdrawal now id w no_address a =
    stored a (refused 400 bad_address) (settle_hold now id 0 0 none a.ledger)
send_withdrawal now id w node_error a =
    stored a (refused 502 node_failed) (settle_hold now id 0 0 none a.ledger)

-- After the hold was asked for.
unfoldable pub held_withdrawal :
    ℕ → NodeAnswers → ℕ → ℕ → ℕ → Withdrawal → Accounts → Result LedgerError Ledger → Outcome
unfolding send_withdrawal
held_withdrawal now n id address feerate w a (err e) = refused_or a e
held_withdrawal now n id address feerate w a (ok l) =
    send_withdrawal now id w (n.send_onchain address w.payout_sat feerate) (record a { ledger = l })

unfoldable pub priced_withdrawal :
    ℕ → NodeAnswers → ℕ → ℕ → ℕ → ℕ → ℕ → Option Withdrawal → Accounts → Outcome
unfolding held_withdrawal hold_withdrawal
priced_withdrawal now n id node amount address feerate none a = refuse 400 too_small a
priced_withdrawal now n id node amount address feerate (some w) a =
    held_withdrawal now n id address feerate w a (hold_withdrawal node id amount a.ledger)

-- A missing amount or rate is 0.
unfoldable pub withdraw : HoldIds → ℕ → NodeAnswers → ℕ → ℕ → ℕ → Option ℕ → ℕ → Accounts → Outcome
unfolding priced_withdrawal withdrawal
withdraw ids now n node nonce amount none feerate a = refuse 400 bad_params a
withdraw ids now n node nonce amount (some address) feerate a =
    if ltb 0 amount && (amount % 1000 == 0) && leb 1 feerate && leb feerate 500
    then priced_withdrawal now n (ids.withdrawal_hold_id node nonce) node amount address feerate
        (withdrawal (amount / 1000) feerate) a
    else refuse 400 bad_params a
