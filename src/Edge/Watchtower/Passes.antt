-- ===== src/Edge/Watchtower/Passes.antt =====
-- crates/fortis-edge/src/swap/watchtower.rs, `run_once`, and `Store::purge` of store.rs: one pass over
-- the jobs, the matches and what is old. A pass reads the chain anew at each turn, and what others do
-- in the store before a turn, and within it before it writes, is a function of the state.
use fortis.Common.{ℕ, suc, not, ◌&&◌, Option, List, [], ◌∷◌, keep, if◌then◌else◌}
use fortis.Htlc.{Crate}
use fortis.Edge.Table.{Table}
use fortis.Edge.Records.{Match, WatchJob}
use fortis.Edge.Store.{Db, all_matches}
use fortis.Edge.Matcher.{Config}
use fortis.Edge.Matcher.Closing.{tick, is_none}
use fortis.Edge.Matcher.Rematch.{rematch}
use fortis.Edge.Messages.{Relay}
use fortis.Edge.Watchtower.{Codec}
use fortis.Edge.Watchtower.Jobs.{Reader, Tower, watch_jobs, run_job}
use fortis.Edge.Watchtower.Matches.{start_participant_clock, close_if_spent, is_initiator_funded}
use fortis.Edge.Watchtower.Retention.{purge}

module _ {db : Db} (B : Crate) (point : ℕ → Option ℕ) (view : ℕ → Reader) (now : ℕ)
    (between : ℕ → Relay db → Relay db) where
  clock_each : ℕ → List Match → Relay db → Relay db
  clock_each i [] r = r
  clock_each i (m ∷ ms) r = clock_each (suc i) ms (
      if is_initiator_funded m.status && is_none m.participant_fund_by
      then (start_participant_clock B point (view i) (between i) now m r).0
      else r)

  close_each : ℕ → List Match → Relay db → Relay db
  close_each i [] r = r
  close_each i (m ∷ ms) r =
      close_each (suc i) ms (close_if_spent B point (view i) (between i) now m r).0

module _ {db : Db} {T : Table WatchJob} (C : Codec) (B : Crate) (point : ℕ → Option ℕ)
    (view : ℕ → Reader) (now : ℕ) where
  -- An error is logged, and the next job has its turn.
  unfoldable pub run_each :
      (ℕ → Tower db T → Tower db T) → ℕ → List WatchJob → Tower db T → Tower db T
  run_each others i [] t = t
  run_each others i (j ∷ js) t =
      run_each others (suc (suc i)) js
        (run_job C B point (view i) (others (suc i)) now j (others i t)).0

  unfoldable pub run_jobs : (ℕ → Tower db T → Tower db T) → Tower db T → Tower db T
  unfolding run_each
  run_jobs others t = run_each others 0 (keep (λ j. not j.done) (watch_jobs t)) t

  -- The jobs and the matches each with the chain as it is then.
  unfoldable pub run_once :
      Config
      → (ℕ → Option ℕ)
      → (ℕ → Tower db T → Tower db T)
      → (ℕ → Relay db → Relay db)
      → Tower db T
      → Tower db T
  unfolding run_jobs clock_each close_each purge
  run_once config fresh others between t =
      let t1 = run_jobs others t in
      let s2 = rematch db config fresh now (tick db now t1.relay.store) in
      let r2 = record t1.relay { store = s2 } in
      let r3 = clock_each B point view now between 0 (all_matches db r2.store) r2 in
      let r4 = close_each B point view now between 0 (all_matches db r3.store) r3 in
      purge now (record t1 { relay = r4 })
