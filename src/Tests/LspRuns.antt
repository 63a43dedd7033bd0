-- ===== src/Tests/LspRuns.antt =====
-- The accounts of crates/fortis-lsp at concrete inputs.
use fortis.Common.{
  neg, ℕ, ◌+◌, ◌≤◌, ◌<◌, ◌≡◌, refl, true, false, none, some, List, [], ◌∷◌, ok, err, min,
}
use fortis.Lsp.Records.{
  Ledger, insufficient_balance, Hold, HoldKind, hold_named, as_i64, free_msat, credited, balance_in,
}
use fortis.Lsp.Ledger.{empty_ledger, credit, transfer, settle_hold, account, total_custody}
use fortis.Lsp.Ledger.Balances.{if_node}
use fortis.Lsp.Ledger.Books.{IsBooked}
use fortis.Lsp.Ledger.Runs.{Op, run, run-IsBooked}
use fortis.Lsp.Ledger.Replays.{credit_once, transfer_lem}
use fortis.Lsp.Ledger.Settling.{IsClosed, settle_hold_lem}
use fortis.Lsp.Conversion.{Plan, plan}
use fortis.Lsp.Held.{Node, Service, deliver, is_claimable, is_unpaid}
use fortis.Lsp.Held.Table.{with_claimable, Held, claimable, forwarding, held_get}
use fortis.Lsp.Held.Rows.{IsRow}
use fortis.Lsp.Held.Events.{
  Event, invoiced, payment_claimable, looked, forward_resolved, follow, follow-IsRow,
}
use fortis.Lsp.Held.Custody.{IsBounded, follow-IsBounded}

-- A receipt that is seen twice, a send that is held, and a withdrawal.
abbrev pub day : List (ℕ × Op)
day =
    (10, Op.do_credit 1 70 100000)
    ∷ (11, Op.do_credit 1 70 100000)
    ∷ (12, Op.do_transfer 1 2 71 20000)
    ∷ (13, Op.do_hold_send 1 5 30000 31000)
    ∷ (14, Op.do_hold_withdrawal 2 6 15000)
    ∷ (15, Op.do_hold_send 2 7 9000 9000)
    ∷ []

abbrev first_hold : Hold
first_hold = record { id = 5; node = 1; amount = 31000; base = 30000; kind = HoldKind.send }

abbrev withdrawal_hold : Hold
withdrawal_hold = record {
  id = 6;
  node = 2;
  amount = 15000;
  base = 15000;
  kind = HoldKind.withdraw;
}

run-IsBooked_example : IsBooked (run day empty_ledger)
run-IsBooked_example = run-IsBooked day

after_day : free_msat (account (run day empty_ledger) 1) ≡ 49000
unfolding run neg
after_day = refl

settle_hold_lem_example :
    (after : Ledger) × (settle_hold 20 5 30200 200 (some 72) (run day empty_ledger) ≡ ok after)
    × IsClosed (run day empty_ledger) 5 first_hold (min 30200 31000) after
unfolding run hold_named neg
settle_hold_lem_example = settle_hold_lem day 20 5 30200 200 (some 72) first_hold refl

abbrev one_credit : Ledger
one_credit = run ((10, Op.do_credit 1 70 100000) ∷ []) empty_ledger

credit_once_example :
    (credit 30 1 70 5 (run day one_credit) ≡ ok (false, run day one_credit))
    × (transfer 30 2 1 70 5 (run day one_credit) ≡ ok (false, run day one_credit))
unfolding run credit
credit_once_example = credit_once 10 1 70 100000 true empty_ledger one_credit refl day 30 2 5

transfer_lem_example :
    (credited one_credit.entries 2 71 ≡ true
      → transfer 31 1 2 71 200 one_credit ≡ ok (false, one_credit))
    × (credited one_credit.entries 2 71 ≡ false
        → free_msat (account one_credit 1) < 200
        → transfer 31 1 2 71 200 one_credit ≡ err insufficient_balance)
    × (credited one_credit.entries 2 71 ≡ false
        → 200 ≤ free_msat (account one_credit 1)
        → (after : Ledger) × (transfer 31 1 2 71 200 one_credit ≡ ok (true, after))
          × (total_custody after ≡ total_custody one_credit)
          × ((j : ℕ)
              → balance_in after.accounts j + if_node 1 j (as_i64 200)
                ≡ balance_in one_credit.accounts j + if_node 2 j (as_i64 200))
          × (credited after.entries 2 71 ≡ true))
transfer_lem_example = transfer_lem 31 1 2 71 200 one_credit

planned : plan 55000000 50000000 true 0 false 20000 ≡ Plan.open_channel 108000 54000000
unfolding plan
planned = refl

-- A connected phone with a channel, and a payment for it.
abbrev phone : Node
phone = record {
  height = 100;
  peers = record { node_id = 1; is_connected = true } ∷ [];
  channels = record { counterparty = 1; is_usable = true; outbound_limit = 9000 } ∷ [];
  keysend_id = λ log amount node. some 40;
  claims = λ log hash amount. true;
}

abbrev waiting : Held
waiting = record {
  payment_hash = 80;
  node = 1;
  preimage = 81;
  amount_msat = 5000;
  claimable_msat = some 5000;
  deadline = some 140;
  forward_id = none;
  state = claimable;
}

abbrev under_way : Held
under_way = record waiting { state = forwarding; forward_id = some 40 }

abbrev service : List Held → Service
service rows = record {
  ledger = empty_ledger;
  held = rows;
  woken = [];
  custody_max = 1000000;
  log = [];
}

abbrev night : List (ℕ × Node × Event)
night =
    (30, phone, invoiced 90 2 91 700)
    ∷ (31, phone, payment_claimable 90 700 (some 103))
    ∷ (32, phone, payment_claimable 80 5000 (some 140))
    ∷ (33, phone, looked)
    ∷ (34, phone, forward_resolved 41 false)
    ∷ []

sent_on : (deliver 20 phone waiting (service (waiting ∷ []))).0.held ≡ under_way ∷ []
unfolding deliver with_claimable
sent_on = refl

follow-IsRow_example : IsRow 80 under_way (follow night (service (under_way ∷ []))).held
unfolding held_get is_claimable is_unpaid
follow-IsRow_example =
    follow-IsRow 80 under_way night (service (under_way ∷ [])) (refl, refl) (refl, tt)
      (refl, (λ e. refl, tt))

follow-IsBounded_example :
    IsBounded (service (waiting ∷ [])) (follow night (service (waiting ∷ [])))
follow-IsBounded_example = follow-IsBounded night (service (waiting ∷ []))
