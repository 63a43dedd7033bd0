-- ===== src/Tests/AccountRuns.antt =====
-- The account routes of crates/fortis-lsp at concrete inputs.
use fortis.Common.{◌+◌, ◌≡◌, refl, true, false, none, some, List, [], ◌∷◌, arith}
use fortis.Lsp.Ledger.{empty_ledger}
use fortis.Lsp.Ledger.Runs.{Op, run, run-IsBooked}
use fortis.Lsp.Auth.{AccountRequest, verify, verify_each, verify_once, accepts, Call}
use fortis.Lsp.Accounts.{HoldIds, NodeAnswers, Accounts, OnchainSend, withdraw}
use fortis.Lsp.Accounts.Sends.{pay_outside}
use fortis.Lsp.Accounts.Withdrawals.{IsWithdrawn, withdraw-IsWithdrawn}
use fortis.Lsp.Accounts.Payments.{IsPaid, pay_outside-IsPaid}
use fortis.Tests.LspRuns.{day}

abbrev hold_ids : HoldIds
hold_ids = record {
  send_hold_id = λ hash. hash + 1000;
  withdrawal_hold_id = λ node nonce. node + nonce + 500000;
}

-- A node that does what it is asked to.
abbrev willing : NodeAnswers
willing = record {
  receive_invoice = λ amount. some (7, 8);
  invoice_details = λ invoice. some (some 20000, 77);
  send_bolt11 = λ invoice amount. true;
  backing_sat = 1000000;
  send_onchain = λ address amount feerate. OnchainSend.broadcast 900;
  create_offer = some (5, 6);
  paid_offer = λ id. none;
}

abbrev accounts : Accounts
accounts = record {
  ledger = run ((1, Op.do_credit 1 70 9000000) ∷ day) empty_ledger;
  directory = record { invoices = []; push_tokens = []; offers = []; nonces = [] };
  account_max_msat = 50000000;
  custody_max_msat = 900000000;
  min_channel_receive_sat = 20000;
  notices = 0;
}

withdraw-IsWithdrawn_example :
    IsWithdrawn willing
      (some 4)
      2
      accounts
      1
      6000000
      (withdraw hold_ids 30 willing 1 3 6000000 (some 4) 2 accounts)
withdraw-IsWithdrawn_example =
    withdraw-IsWithdrawn hold_ids 30 willing 1 3 6000000 (some 4) 2 accounts
      (run-IsBooked ((1, Op.do_credit 1 70 9000000) ∷ day)) (omega arith)

pay_outside-IsPaid_example :
    IsPaid hold_ids accounts 1 20000 77
      (pay_outside hold_ids 30 willing 1 9 77 (some 20000) 20000 accounts)
pay_outside-IsPaid_example =
    pay_outside-IsPaid hold_ids 30 willing 1 9 77 20000 (some 20000) accounts (omega arith)
      (run-IsBooked ((1, Op.do_credit 1 70 9000000) ∷ day))

abbrev request : AccountRequest
request = record { node_id = 1; nonce = 55; expires_at = 400 }

abbrev calls : List Call
calls =
    ((150, 151), true, some (record { node_id = 2; nonce = 55; expires_at = 420 }))
    ∷ ((160, 160), true, some request)
    ∷ ((390, 391), false, none)
    ∷ []

verify_once_example :
    accepts
      (verify 400 400 true
        (some request)
        (verify_each calls (verify 100 101 true (some request) []).1)).0
    ≡ false
unfolding verify
verify_once_example =
    verify_once [] 100 101 true request refl calls 400 400 true (omega arith)
      (omega arith, (omega arith, (omega arith, tt)))

-- When the ledger's clock has gone on by a second since the request was checked, its nonce is
-- pruned before it is looked up.
late_clock :
    accepts (verify 400 401 true (some request) (verify 100 100 true (some request) []).1).0 ≡ true
unfolding verify
late_clock = refl
