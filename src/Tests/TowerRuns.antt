-- ===== src/Tests/TowerRuns.antt =====
-- One pass of crates/fortis-edge/src/swap/watchtower.rs over a refund of the initiator's XBT, as its
-- tests build it.
use mathlib.Core.List.{Memᴰ}
use mathlib.Core.List.Memᴰ.{head}
use fortis.Common.{
  ℕ, ◌*◌, ◌-◌, ◌≡◌, refl, true, false, none, some, [], ◌∷◌, Result, ok, arith, keep, sum_by,
}
use fortis.Chain.{xbt}
use fortis.Terms.{network_params}
use fortis.Htlc.{try_build, script_of}
use fortis.Edge.Table.{assoc_table}
use fortis.Edge.Records.{Match, initiator_funded, closed, WatchJob, refund}
use fortis.Edge.Store.{get_match}
use fortis.Edge.Messages.Chained.{record_leg_funding, leg_paid_on_chain, leg_witness_script}
use fortis.Edge.Messages.Posts.{role_in, parse_chain}
use fortis.Edge.Watchtower.{
  Tx, Unspent, Codec, decode_all, fee, min_by_key, max_by_key, best_by, pick_variant,
}
use fortis.Edge.Watchtower.Jobs.{
  Reader, Tower, watch_jobs, watch_key, put_watch, txs_by_kind, run_job,
}
use fortis.Edge.Watchtower.Retention.{purge}
use fortis.Edge.Watchtower.Handing.{WatchReq, watch}
use fortis.Edge.Watchtower.Passes.{run_jobs}
use fortis.Edge.Watchtower.Variants.{IsPicked, pick_variant-IsPicked}
use fortis.Edge.Watchtower.Sending.{IsSent, run_jobs-IsSent}
use fortis.Edge.Watchtower.Retaining.{Retains, purge-Retains}
use fortis.Tests.MessageRuns.{db, crate, point, ready, with_match, chain_reader, decoder, alone}

-- A refund that pays a fee of 1,000 for each step of `rest`.
abbrev spend : ℕ → Tx
spend n = record {
  input = record { previous_output = (7, 0); witness = [] } ∷ [];
  output = record { value = 500_000 - 1_000 * n; script_pubkey = 3 } ∷ [];
  rest = n;
}

-- The text of a transaction is its number.
abbrev codec : Codec
codec = record {
  hex = λ text. some (100, text);
  deserialize = λ b. some (spend b.1);
  public_key = λ b. none;
  instructions = λ b. [];
  sha256 = λ p. p;
  vsize = λ tx. 100;
  split_last = λ i. none;
  sighash_all = λ tx out ops v. none;
  verifies = λ message der key. false;
}

abbrev out : Unspent
out = record { value_sat = 500_000; script_pubkey = 77; confirmations = 6 }

-- Nothing is spent, and a fee of 15 sat/vB is asked.
abbrev reader : Reader
reader = record {
  txout = λ c f. some (some out);
  spending_tx_hex = λ c f. some none;
  spend_confirmed = λ c f. some false;
  feerate = λ c. some 15;
  broadcast = λ c tx. true;
}

abbrev job : WatchJob
job = record {
  match_id = 1;
  chain = xbt;
  kind = refund;
  htlc = (7, 0);
  not_before = 90_000;
  variants = 1 ∷ 2 ∷ 3 ∷ [];
  done = false;
  sent_prevout = none;
}

abbrev funded_match : Match
funded_match = record ready { status = initiator_funded; xbt_funding = some (7, 0) }

abbrev over : Match
over = record funded_match { status = closed; closed_at = some 10 }

abbrev tower : Match → Tower db assoc_table
tower m = record { relay = with_match m; jobs = (10, job) ∷ []; sent = [] }

picked_two : pick_variant codec (spend 1 ∷ spend 2 ∷ spend 3 ∷ []) 500_000 15 ≡ some (spend 2)
unfolding pick_variant keep min_by_key max_by_key best_by fee sum_by
picked_two = refl

pick_variant-IsPicked_example :
    (v : Tx) × (pick_variant codec (spend 1 ∷ spend 2 ∷ spend 3 ∷ []) 500_000 15 ≡ some v)
    × IsPicked codec 500_000 15 (spend 1 ∷ spend 2 ∷ spend 3 ∷ []) v
pick_variant-IsPicked_example =
    pick_variant-IsPicked codec 500_000 15 (spend 1) (spend 2 ∷ spend 3 ∷ [])

decodes : decode_all codec (1 ∷ 2 ∷ 3 ∷ []) ≡ ok (spend 1 ∷ spend 2 ∷ spend 3 ∷ [])
unfolding decode_all
decodes = refl

handed : Memᴰ job (watch_jobs (tower funded_match))
unfolding watch_jobs
handed = head refl

run_jobs-IsSent_example :
    IsSent xbt
      (spend 1 ∷ spend 2 ∷ spend 3 ∷ [])
      (run_jobs codec crate point (λ i. reader) 90_000 (λ i t. t) (tower funded_match)).sent
run_jobs-IsSent_example =
    run_jobs-IsSent codec crate point 90_000 (λ i. reader) (λ i t. t) (λ i t x h. h) job (spend 1)
      (spend 2 ∷ spend 3 ∷ []) (λ i. out) refl (omega arith) decodes (λ i. refl)
      (tower funded_match) handed refl

stored : assoc_table.get (tower over).jobs (watch_key job) ≡ some job
unfolding watch_key
stored = refl

purge-Retains_example :
    Retains 1 (tower over) (purge 1_000_000_000 (tower over))
    × (assoc_table.get (purge 1_000_000_000 (tower over)).jobs (watch_key job) ≡ some job)
purge-Retains_example = purge-Retains 1_000_000_000 (tower over) job stored refl

-- New variants, handed over after the pass read the job, are overwritten.
abbrev newer : WatchJob
newer = record job { variants = 4 ∷ 5 ∷ [] }

variants_lost :
    assoc_table.get
      (run_job codec crate point reader (put_watch newer) 90_000 job (tower funded_match)).0.jobs
      (watch_key job)
    ≡ some (record job { sent_prevout = some (500_000, 77) })
unfolding run_job txs_by_kind decode_all pick_variant keep min_by_key max_by_key best_by fee sum_by
    watch_key
variants_lost = refl

-- The initiator hands over the refund before its funding was relayed.
abbrev request : WatchReq
request = record {
  chain = "xbt";
  kind = "refund";
  txid = "07";
  vout = 0;
  not_before = 90_000;
  variants = 1 ∷ 2 ∷ 3 ∷ [];
  sigs = none;
  pubkey = none;
  witness_script = none;
}

abbrev watched : Tower db assoc_table × Result ℕ (Unit {0})
watched =
    watch crate point (some chain_reader) alone codec decoder 1 (some 111) request (tower ready)

watch_taken : watched.1 ≡ ok tt
unfolding watch get_match role_in parse_chain record_leg_funding leg_paid_on_chain
    leg_witness_script network_params try_build script_of
watch_taken = refl
