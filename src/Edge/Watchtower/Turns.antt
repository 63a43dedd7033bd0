-- ===== src/Edge/Watchtower/Turns.antt =====
-- crates/fortis-edge/src/swap/watchtower.rs, `run_job`: all that one turn of a job comes to.
use fortis.Common.{
  ℕ, ◌≡◌, refl, Bool, true, false, Option, none, some, List, [], ◌∷◌, ◌++◌, Result, ok, err,
  u64_max, if◌then◌else◌,
}
use fortis.Htlc.{Crate}
use fortis.Edge.Table.{Table}
use fortis.Edge.Records.{WatchJob}
use fortis.Edge.Store.{Db, get_match}
use fortis.Edge.Watchtower.{Tx, Unspent, Codec, TowerError, refused, pick_variant}
use fortis.Edge.Watchtower.Jobs.{
  Reader, Tower, Turn, Ready, put_watch, watch_key, note_sent, phone_sent_redeem, txs_by_kind,
  unwrap_or, send, send_ready, work, adopt, stalled, spent, run_seen, run_job,
}
use fortis.Edge.Watchtower.Variants.{IsPicked, IsChosen, pick_variant-IsChosen}
use fortis.Edge.Watchtower.Due.{IsDue, txs_by_kind-IsDue}

module _ {db : Db} {T : Table WatchJob} (C : Codec) (B : Crate) (point : ℕ → Option ℕ)
    (reader : Reader) (others : Tower db T → Tower db T) (now : ℕ) (job : WatchJob)
    (t : Tower db T) where
  -- The tower with a job written, and with a transaction handed to a chain.
  abbrev pub stored : WatchJob → Tower db T → Tower db T
  stored j from = record from { jobs = T.put from.jobs (watch_key j) j }

  abbrev pub logged : WatchJob → Tx → Tower db T → Tower db T
  logged j tx from = record from { sent = from.sent ++ (j.chain, tx) ∷ [] }

  -- A job that has the output that it spends, and is as it was otherwise.
  abbrev pub sent_for : Unspent → WatchJob → WatchJob
  sent_for out j = record {
    match_id = j.match_id;
    chain = j.chain;
    kind = j.kind;
    htlc = j.htlc;
    not_before = j.not_before;
    variants = j.variants;
    done = j.done;
    sent_prevout = some (out.value_sat, out.script_pubkey);
  }

  -- What is to be spent: the output that the chain shows unspent, or, spent only in the mempool, the
  -- one that the job sent a spend of before, or that the phone's own redeem revealed.
  pub data Basis : WatchJob → Unspent → Bool → Tower db T → Type 0 where
    unspent :
        (out : Unspent) → reader.txout job.chain job.htlc ≡ some (some out) → Basis job out false t
    resent :
        (value spk : ℕ)
        → reader.txout job.chain job.htlc ≡ some none
        → reader.spend_confirmed job.chain job.htlc ≡ some false
        → job.sent_prevout ≡ some (value, spk)
        → Basis job (record { value_sat = value; script_pubkey = spk; confirmations = 0 }) true t
    adopted :
        (out : Unspent)
        → reader.txout job.chain job.htlc ≡ some none
        → reader.spend_confirmed job.chain job.htlc ≡ some false
        → job.sent_prevout ≡ none
        → phone_sent_redeem C B point reader job (get_match db t.relay.store job.match_id)
          ≡ ok (some out)
        → Basis (sent_for out job) out true (stored (sent_for out job) (others t))

  abbrev pub feerate_of : WatchJob → ℕ
  feerate_of j = unwrap_or (reader.feerate j.chain) u64_max

  -- What a sent transaction leaves: where the chain refuses it, only the log; else the job has, from
  -- its first time on, the output that it spends.
  pub data Sent (j : WatchJob) (out : Unspent) (tx : Tx) (from : Tower db T)
      : Turn db T → Type 0 where
    turned_down :
        reader.broadcast j.chain tx ≡ false → Sent j out tx from (logged j tx from, err refused)
    again :
        (p : ℕ × ℕ)
        → reader.broadcast j.chain tx ≡ true
        → j.sent_prevout ≡ some p
        → Sent j out tx from (logged j tx from, ok tt)
    first :
        reader.broadcast j.chain tx ≡ true
        → j.sent_prevout ≡ none
        → Sent j out tx from (stored (sent_for out j) (others (logged j tx from)), ok tt)

  pub data Turned : Turn db T → Type 0 where
    rests :
        (j : WatchJob) (out : Unspent) (resend : Bool) (from : Tower db T)
        (e : Result TowerError (Unit {0}))
        → Basis j out resend from
        → Turned (from, e)
    idles : (e : Result TowerError (Unit {0})) → Turned (t, e)
    confirms :
        reader.txout job.chain job.htlc ≡ some none
        → reader.spend_confirmed job.chain job.htlc ≡ some true
        → Turned (stored (record job { done = true }) (others t), ok tt)
    sends :
        (j : WatchJob) (out : Unspent) (resend : Bool) (from : Tower db T) (txs : List Tx) (tx : Tx)
        (after : Turn db T)
        → Basis j out resend from
        → IsDue C B point reader now j out resend (get_match db from.relay.store j.match_id) txs
        → IsPicked C out.value_sat (feerate_of j) txs tx
        → Sent j out tx from after
        → Turned after

  noted-Sent :
      (j : WatchJob) (out : Unspent) (tx : Tx) (from : Tower db T) (x : Option (ℕ × ℕ))
      → reader.broadcast j.chain tx ≡ true
      → j.sent_prevout ≡ x
      → Sent j out tx from (note_sent C B point reader others now j out x (logged j tx from), ok tt)
  unfolding note_sent put_watch
  noted-Sent j out tx from none h e = first h e
  noted-Sent j out tx from (some p) h e = again p h e

  send-Sent :
      (j : WatchJob) (out : Unspent) (tx : Tx) (from : Tower db T)
      → Sent j out tx from (send C B point reader others now j out (some tx) from)
  unfolding send
  send-Sent j out tx from = go (reader.broadcast j.chain tx) refl
    where
      go :
          (b : Bool)
          → reader.broadcast j.chain tx ≡ b
          → Sent j out tx from (
              if b
              then (
                note_sent C B point reader others now j out j.sent_prevout (logged j tx from),
                ok tt,
              )
              else (logged j tx from, err refused))
      go true h = noted-Sent j out tx from j.sent_prevout h refl
      go false h = turned_down h

  picked_turns :
      (j : WatchJob) (out : Unspent) (resend : Bool) (from : Tower db T) (txs : List Tx)
      (x : Option Tx)
      → Basis j out resend from
      → IsDue C B point reader now j out resend (get_match db from.relay.store j.match_id) txs
      → IsChosen C out.value_sat (feerate_of j) txs x
      → Turned (send C B point reader others now j out x from)
  unfolding send
  picked_turns j out resend from txs none b d h = rests j out resend from _ b
  picked_turns j out resend from txs (some tx) b d h =
      sends j out resend from txs tx _ b d h (send-Sent j out tx from)

  ready_turns :
      (j : WatchJob) (out : Unspent) (resend : Bool) (from : Tower db T) (x : Ready)
      → Basis j out resend from
      → txs_by_kind C B point reader j.kind now j out resend
          (get_match db from.relay.store j.match_id)
        ≡ x
      → Turned (send_ready C B point reader others now j out x from)
  unfolding send_ready
  ready_turns j out resend from (err e) b h = rests j out resend from (err e) b
  ready_turns j out resend from (ok none) b h = rests j out resend from (ok tt) b
  ready_turns j out resend from (ok (some txs)) b h =
      picked_turns j out resend from txs (pick_variant C txs out.value_sat (feerate_of j)) b
        (txs_by_kind-IsDue C B point reader now j out resend
          (get_match db from.relay.store j.match_id) txs h)
        (pick_variant-IsChosen C out.value_sat (feerate_of j) txs)

  work_turns :
      (j : WatchJob) (out : Unspent) (resend : Bool) (from : Tower db T)
      → Basis j out resend from
      → Turned (work C B point reader others now j out resend from)
  unfolding work
  work_turns j out resend from b = ready_turns j out resend from _ b refl

  adopt_turns :
      (x : Result TowerError (Option Unspent))
      → reader.txout job.chain job.htlc ≡ some none
      → reader.spend_confirmed job.chain job.htlc ≡ some false
      → job.sent_prevout ≡ none
      → phone_sent_redeem C B point reader job (get_match db t.relay.store job.match_id) ≡ x
      → Turned (adopt C B point reader others now job x t)
  unfolding adopt put_watch
  adopt_turns (err e) a b c d = idles (err e)
  adopt_turns (ok none) a b c d = idles (ok tt)
  adopt_turns (ok (some out)) a b c d =
      work_turns (sent_for out job) out true (stored (sent_for out job) (others t))
        (adopted out a b c d)

  stalled_turns :
      (x : Option (ℕ × ℕ))
      → reader.txout job.chain job.htlc ≡ some none
      → reader.spend_confirmed job.chain job.htlc ≡ some false
      → job.sent_prevout ≡ x
      → Turned (stalled C B point reader others now job x t)
  unfolding stalled
  stalled_turns (some (value, spk)) a b c = work_turns job _ true t (resent value spk a b c)
  stalled_turns none a b c = adopt_turns _ a b c refl

  spent_turns :
      (x : Option Bool)
      → reader.txout job.chain job.htlc ≡ some none
      → reader.spend_confirmed job.chain job.htlc ≡ x
      → Turned (spent C B point reader others now job x t)
  unfolding spent put_watch
  spent_turns none a b = idles _
  spent_turns (some true) a b = confirms a b
  spent_turns (some false) a b = stalled_turns job.sent_prevout a b refl

  seen_turns :
      (x : Option (Option Unspent))
      → reader.txout job.chain job.htlc ≡ x
      → Turned (run_seen C B point reader others now job x t)
  unfolding run_seen
  seen_turns none a = idles _
  seen_turns (some none) a = spent_turns (reader.spend_confirmed job.chain job.htlc) a refl
  seen_turns (some (some out)) a = work_turns job out false t (unspent out a)

  pub run_job-Turned : Turned (run_job C B point reader others now job t)
  unfolding run_job
  run_job-Turned = seen_turns (reader.txout job.chain job.htlc) refl
