-- ===== src/Tests/MessageRuns.antt =====
-- Messages on a match of crates/fortis-edge/src/swap/mod.rs, as its tests send them: an accepted match
-- with all keys and the hashlock, and a match that was cancelled at the participant's deadline.
use text.Mathlib.Text.{◌==◌ as str_eq}
use fortis.Common.{
  keep, any, ℕ, ◌+◌, ◌≡◌, refl, true, false, Option, none, some, [], ◌∷◌, ok, if◌then◌else◌, ◌==◌,
  Bool-cases, inl, inr, ap, sym, ◌∙◌, ==_iff,
}
use fortis.Terms.{SwapTerms, network_params, initiator}
use fortis.Htlc.{Crate, try_build, script_of}
use fortis.Edge.Table.{assoc_table}
use fortis.Edge.Records.{Match, accepted, cancelled}
use fortis.Edge.Store.{Db, get_match, strikes, put_match, remove_strike, remove_one}
use fortis.Edge.Messages.{
  Relay, pushed, refused, Decoder, Msg, compressed_hex, under_lock, keys_step,
}
use fortis.Edge.Messages.Chained.{ChainReader, done, leg_paid_on_chain, leg_witness_script}
use fortis.Edge.Messages.Reinstating.{eligible_match, reinstate_if_funded_in_time}
use fortis.Edge.Messages.Posts.{
  role_in, parse_chain, funding_shown, funded_step, post_message, post_funding,
}
use fortis.Edge.Messages.Kept.{IsKeyed}
use fortis.Edge.Messages.Lasting.{Lasts, still}
use fortis.Edge.Messages.Interleaved.{Calls, next, no_more, run_calls, run_calls-Lasts}
use fortis.Edge.Messages.Shown.{IfPushed}
use fortis.Edge.Messages.Relayed.{IsRelayed, post_funding-IsRelayed}
use fortis.Edge.Messages.Timely.{Ends, reinstate-Ends}

abbrev pub db : Db
db = record {
  offers = assoc_table;
  matches = assoc_table;
  strikes = assoc_table;
  tags = assoc_table;
}

abbrev pub crate : Crate
crate = record {
  pubkey_hash = λ k. k + 1_000;
  p2wsh = λ ops. 77;
  guard_script = 5;
  zero_script = 6;
  minimal_non_dust = λ s. 294;
  vsize = λ s. 150;
}

-- Every key is a point.
abbrev pub point : ℕ → Option ℕ
point k = some k

-- The initiator's funding pays the script, and the participant's is mined at 1,000.
abbrev pub chain_reader : ChainReader
chain_reader = record {
  created_output = λ c f. some (some (record { value_sat = 500_000; script_pubkey = 77 }));
  tx_block_time = λ c txid. some (if txid == 8 then some 1_000 else none);
}

abbrev pub decoder : Decoder
decoder = record {
  hex = λ t. some (32, 9);
  public_key = λ t. some (record { compressed = str_eq t "02ab"; encoded = 31 });
  txid = λ t. some 7;
  deserialize = λ b. none;
}

abbrev terms : SwapTerms
terms = record {
  match_id = 1;
  network = "bitcoin";
  xbt_sat = 500_000;
  btc_sat = 500_000;
  price_sat_per_xbt = 100_000_000;
  fee_bps = 50;
  fee_address = "bc1qfee";
  matched_at = 100;
  xbt_locktime = 90_000;
  btc_locktime = 50_000;
  xbt_confs = 6;
  btc_confs = 2;
  accept_by = 220;
  initiator_fund_by = 2_000;
  contract_version = 2;
}

abbrev pub ready : Match
ready = record {
  id = 1;
  terms = terms;
  initiator_offer = 1;
  participant_offer = 2;
  initiator_token = 11;
  participant_token = 22;
  initiator_secret_hash = 111;
  participant_secret_hash = 222;
  accepted = (true, true);
  status = accepted;
  xbt_funding = none;
  btc_funding = none;
  participant_fund_by = none;
  pre_match_amounts = (500_000, 500_000);
  closed_at = none;
  keys = (some (31, 32), some (41, 42));
  hashlock = some 9;
  missed_participant_deadline = false;
  release_txs = none;
  release_sigs = none;
}

abbrev missed : Match
missed = record ready {
  status = cancelled;
  xbt_funding = some (7, 0);
  btc_funding = some (8, 1);
  participant_fund_by = some 1_000;
  closed_at = some 1_200;
  missed_participant_deadline = true;
}

abbrev pub with_match : Match → Relay db
with_match m = record {
  store = record { offers = []; matches = (1, m) ∷ []; strikes = (22, 1_200 ∷ []) ∷ []; tags = [] };
  mail = λ j. [];
}

abbrev pub alone : ℕ → Relay db → Relay db
alone i r = r

ready-IsKeyed : IsKeyed (with_match ready).store
unfolding get_match
ready-IsKeyed j m e = elim (Bool-cases (1 == j)) [
  | inl h ↦ ap (λ x. x.id) (sym (same_some ready m (rw h at e))) ∙ (==_iff 1 j).0 h
  | inr h ↦ absurd (rw h at e)
]
  where
    same_some : (a b : Match) → some a ≡ some b → a ≡ b
    same_some a b g = cc

    absurd : ◌≡◌ {A = Option Match} none (some m) → m.id ≡ j
    absurd g = cc

keys_refused :
    (post_message crate point
      (some chain_reader)
      alone
      decoder
      150
      1
      (some 222)
      (ok (Msg.keys "02ab" "02ab"))
      (with_match ready)).1
    ≡ refused 409
unfolding post_message get_match role_in compressed_hex under_lock keys_step
keys_refused = refl

funding_relayed :
    (post_message crate point
      (some chain_reader)
      alone
      decoder
      150
      1
      (some 111)
      (ok (Msg.funded "xbt" "07" 0))
      (with_match ready)).1
    ≡ pushed 1
unfolding post_message get_match role_in parse_chain funding_shown leg_paid_on_chain
    leg_witness_script under_lock funded_step network_params try_build script_of
funding_relayed = refl

-- The strike goes with it.
comes_back :
    (reinstate_if_funded_in_time alone (some chain_reader) 1 (with_match missed)).1 ≡ ok done
unfolding reinstate_if_funded_in_time eligible_match get_match
comes_back = refl

strike_lifted :
    strikes db
      (reinstate_if_funded_in_time alone (some chain_reader) 1 (with_match missed)).0.store
      22
      1_300
    ≡ 0
unfolding reinstate_if_funded_in_time eligible_match get_match strikes keep put_match remove_strike
    any remove_one
strike_lifted = refl

-- The initiator's funding, while the participant's keys come in, which are recorded already.
abbrev calls : Calls
calls =
    next
      (record {
        chain = some chain_reader;
        now = 150;
        id = 1;
        presented = some 111;
        body = ok (Msg.funded "xbt" "07" 0);
      })
      (λ i.
        next
          (record {
            chain = none;
            now = 151;
            id = 1;
            presented = some 222;
            body = ok (Msg.keys "02ab" "02ab");
          })
          (λ j. no_more) no_more)
      no_more

run_calls-Lasts_example :
    Lasts (with_match ready) (run_calls crate point decoder calls (with_match ready))
run_calls-Lasts_example = run_calls-Lasts crate point decoder calls (with_match ready)

post_funding-IsRelayed_example :
    IfPushed
      (post_funding crate point
        (some chain_reader)
        alone
        1
        initiator
        (7, 0)
        ready
        (with_match ready)).1
      (IsRelayed crate point
        (some chain_reader)
        alone
        1
        initiator
        (7, 0)
        ready
        (post_funding crate point
          (some chain_reader)
          alone
          1
          initiator
          (7, 0)
          ready
          (with_match ready)).0.store)
post_funding-IsRelayed_example =
    post_funding-IsRelayed crate point (some chain_reader) alone (λ i r. still r) 1 initiator (7, 0)
      ready (with_match ready) (unfold get_match in refl) ready-IsKeyed

reinstate-Ends_example :
    Ends alone
      (some chain_reader)
      1
      (with_match missed)
      (reinstate_if_funded_in_time alone (some chain_reader) 1 (with_match missed))
reinstate-Ends_example = reinstate-Ends alone (some chain_reader) 1 (with_match missed)
