-- ===== src/Edge/Watchtower/Jobs.antt =====
-- crates/fortis-edge/src/swap/watchtower.rs: the watch jobs, and one turn of each in a pass.

use fortis.Common.{
  ℕ, ◌+◌, ◌*◌, Bool, true, false, not, ◌&&◌, Option, none, some, List, [], ◌∷◌, ◌++◌, map, keep,
  length, ltb, ◌==◌, if◌then◌else◌, Result, ok, err, ◌>>=◌, ◌>>◌, ok_or, reject_if, u64_max,
}
use fortis.Chain.{ChainParams, Chain, btc, xbt, sighash_variant}
use fortis.Terms.{network_params, SwapTerms}
use fortis.Htlc.{Crate, Op, Item}
use fortis.Edge.Table.{Table}
use fortis.Edge.Records.{Match, Funding, WatchJob, WatchKind, refund, redeem, waiting_redeem}
use fortis.Edge.Store.{Db, get_match}
use fortis.Edge.Messages.{Relay}
use fortis.Edge.Messages.Chained.{Unpaid, slot, leg_witness_script, params_on}
use fortis.Edge.Watchtower.{
  Tx, Unspent, Codec, TowerError, read_failed, unknown_network, wrong_sigs, no_valid, refused,
  panicked, decode, decode_all, some_txs, pick_variant, preimage_in, finish_all, signature_covers,
}

-- `ChainReader`, as it answers during one turn; the outer `none`, or `false`, is a failure.
pub record Reader : Type 0 where
  pub txout : Chain → Funding → Option (Option Unspent)
  pub spending_tx_hex : Chain → Funding → Option (Option ℕ)
  pub spend_confirmed : Chain → Funding → Option Bool
  pub feerate : Chain → Option ℕ
  pub broadcast : Chain → Tx → Bool

-- The swap service with its watch jobs, and all that was given to a chain to broadcast.
pub record Tower (db : Db) (T : Table WatchJob) : Type 0 where
  pub relay : Relay db
  pub jobs : T.Rows
  pub sent : List (Chain × Tx)

abbrev pub chain_index : Chain → ℕ
chain_index btc = 0
chain_index xbt = 1

abbrev pub key_tag : WatchKind → ℕ
key_tag redeem = 0
key_tag refund = 1
key_tag (waiting_redeem _ _ _) = 2

-- `{match}/{chain}/{kind}`, in the order of these texts.
unfoldable pub watch_key : WatchJob → ℕ
watch_key j = j.match_id * 6 + (chain_index j.chain * 3 + key_tag j.kind)

abbrev pub other_chain : Chain → Chain
other_chain btc = xbt
other_chain xbt = btc

abbrev pub confs_on : Chain → SwapTerms → ℕ
confs_on btc t = t.btc_confs
confs_on xbt t = t.xbt_confs

abbrev pub unwrap_or : Option ℕ → ℕ → ℕ
unwrap_or none d = d
unwrap_or (some n) d = n

-- The transactions that may be sent now, `none` to wait.
abbrev pub Ready : Type 0
Ready = Result TowerError (Option (List Tx))

abbrev pub ready : Result TowerError (List Tx) → Ready
ready (ok txs) = ok (some txs)
ready (err e) = err e

module _ (C : Codec) (B : Crate) (point : ℕ → Option ℕ) (reader : Reader) where
  -- What the phone's own redeem is taken to have spent.
  unfoldable pub spender_reveals :
      Match → Funding → ℕ → ℕ → Option ℕ → Result TowerError (Option Unspent)
  unfolding decode preimage_in
  spender_reveals m op hashlock spk none = ok none
  spender_reveals m op hashlock spk (some text) = do
    tx ← decode C text
    ok (elim (preimage_in C op hashlock tx.input) [
      | none ↦ none
      | some _ ↦
          some (record { value_sat = m.terms.btc_sat; script_pubkey = spk; confirmations = 0 })
    ])

  redeem_of_phone :
      Match → Funding → Option ℕ → Result Unpaid (List Op) → Result TowerError (Option Unspent)
  unfolding spender_reveals
  redeem_of_phone m op (some hashlock) (ok ws) = do
    text ← ok_or (reader.spending_tx_hex btc op) read_failed
    spender_reveals m op hashlock (B.p2wsh ws) text
  redeem_of_phone m op _ _ = ok none

  sent_by_phone : WatchKind → Chain → Funding → Option Match → Result TowerError (Option Unspent)
  unfolding redeem_of_phone
  sent_by_phone redeem btc op (some m) =
      redeem_of_phone m op m.hashlock (leg_witness_script B point btc m)
  sent_by_phone _ _ op m = ok none

  unfoldable pub phone_sent_redeem : WatchJob → Option Match → Result TowerError (Option Unspent)
  unfolding sent_by_phone
  phone_sent_redeem job m = sent_by_phone job.kind job.chain job.htlc m

  unfoldable pub redeem_txs : WatchJob → Unspent → Bool → Option Match → Ready
  redeem_txs job out resend none = ok none
  redeem_txs job out resend (some m) =
      if not resend && ltb out.confirmations (confs_on job.chain m.terms)
      then ok none
      else ready (decode_all C job.variants)

  abbrev pub or_unknown : {E A : Type 0} → Result E A → Result TowerError A
  or_unknown (ok a) = ok a
  or_unknown (err _) = err unknown_network

  -- With the preimage: the variants that it finishes and whose signatures are good.
  unfoldable pub finished_under :
      WatchJob
      → (pubkey_hex witness_script_hex : ℕ) → List ℕ
      → Unspent
      → Item
      → ChainParams × ChainParams
      → Result TowerError (List Tx)
  finished_under job key ws sigs out preimage params = do
    reject_if (not (length sigs == length job.variants)) wrong_sigs
    some_txs C no_valid (
        keep (signature_covers C out (sighash_variant (params_on job.chain params)))
          (finish_all C job.variants sigs key ws preimage))

  unfoldable pub finished_txs :
      WatchJob → (pubkey_hex witness_script_hex : ℕ) → List ℕ → Unspent → Match → Item → Ready
  unfolding finished_under
  finished_txs job key ws sigs out m preimage =
      ready (
        or_unknown (network_params m.terms.network) >>= finished_under job key ws sigs out preimage)

  unfoldable pub preimage_then : (Item → Ready) → Option Item → Ready
  preimage_then k none = ok none
  preimage_then k (some preimage) = k preimage

  -- The spend of the other leg, and the hashlock that its preimage opens.
  unfoldable pub opened_by : (Item → Ready) → Funding → Option ℕ → Option ℕ → Ready
  unfolding preimage_then
  opened_by k op (some text) (some hashlock) = do
    tx ← decode C text
    preimage_then k (preimage_in C op hashlock tx.input)
  opened_by k op (some text) none = do _ ← decode C text; ok none
  opened_by k op none hashlock = ok none

  unfoldable pub opened_at : (Item → Ready) → Chain → Option Funding → Option ℕ → Ready
  unfolding opened_by
  opened_at k c none hashlock = ok none
  opened_at k c (some op) hashlock = do
    text ← ok_or (reader.spending_tx_hex c op) read_failed
    opened_by k op text hashlock

  unfoldable pub waiting_txs :
      WatchJob → (pubkey_hex witness_script_hex : ℕ) → List ℕ → Unspent → Option Match → Ready
  unfolding opened_at finished_txs
  waiting_txs job key ws sigs out none = ok none
  waiting_txs job key ws sigs out (some m) =
      opened_at (finished_txs job key ws sigs out m) (other_chain job.chain)
        (slot (other_chain job.chain) m) m.hashlock

  unfoldable pub txs_by_kind : WatchKind → ℕ → WatchJob → Unspent → Bool → Option Match → Ready
  unfolding redeem_txs waiting_txs
  txs_by_kind refund now job out resend m =
      if ltb now job.not_before then ok none else ready (decode_all C job.variants)
  txs_by_kind redeem now job out resend m = redeem_txs job out resend m
  txs_by_kind (waiting_redeem key ws sigs) now job out resend m = waiting_txs job key ws sigs out m

abbrev pub with_prevout : Unspent → WatchJob → WatchJob
with_prevout out job = record job { sent_prevout = some (out.value_sat, out.script_pubkey) }

abbrev pub Turn : (db : Db) → Table WatchJob → Type 0
Turn db T = Tower db T × Result TowerError (Unit {0})

module _ {db : Db} {T : Table WatchJob} where
  unfoldable pub put_watch : WatchJob → Tower db T → Tower db T
  unfolding watch_key
  put_watch job t = record t { jobs = T.put t.jobs (watch_key job) job }

  unfoldable pub watch_jobs : Tower db T → List WatchJob
  watch_jobs t = map (λ e. e.1) (T.entries t.jobs)

  -- The reader as one turn meets it, and what others do before the job is written back.
  module _ (C : Codec) (B : Crate) (point : ℕ → Option ℕ) (reader : Reader)
      (others : Tower db T → Tower db T) (now : ℕ) where
    unfoldable pub note_sent : WatchJob → Unspent → Option (ℕ × ℕ) → Tower db T → Tower db T
    unfolding put_watch
    note_sent job out none t = put_watch (with_prevout out job) (others t)
    note_sent job out (some _) t = t

    unfoldable pub send : WatchJob → Unspent → Option Tx → Tower db T → Turn db T
    unfolding note_sent
    send job out none t = (t, err panicked)
    send job out (some tx) t =
        let t' = record t { sent = t.sent ++ (job.chain, tx) ∷ [] } in
        if reader.broadcast job.chain tx
        then (note_sent job out job.sent_prevout t', ok tt)
        else (t', err refused)

    unfoldable pub send_ready : WatchJob → Unspent → Ready → Tower db T → Turn db T
    unfolding send
    send_ready job out (err e) t = (t, err e)
    send_ready job out (ok none) t = (t, ok tt)
    send_ready job out (ok (some txs)) t =
        send job out
          (pick_variant C txs out.value_sat (unwrap_or (reader.feerate job.chain) u64_max)) t

    unfoldable pub work : WatchJob → Unspent → Bool → Tower db T → Turn db T
    unfolding send_ready
    work job out resend t =
        send_ready job out
          (txs_by_kind C B point reader job.kind now job out resend
            (get_match db t.relay.store job.match_id))
          t

    unfoldable pub adopt : WatchJob → Result TowerError (Option Unspent) → Tower db T → Turn db T
    unfolding put_watch work
    adopt job (err e) t = (t, err e)
    adopt job (ok none) t = (t, ok tt)
    adopt job (ok (some prevout)) t =
        work (with_prevout prevout job) prevout true
          (put_watch (with_prevout prevout job) (others t))

    -- Spent in the mempool.
    unfoldable pub stalled : WatchJob → Option (ℕ × ℕ) → Tower db T → Turn db T
    unfolding adopt
    stalled job (some (value, spk)) t =
        work job (record { value_sat = value; script_pubkey = spk; confirmations = 0 }) true t
    stalled job none t =
        adopt job (phone_sent_redeem C B point reader job (get_match db t.relay.store job.match_id))
          t

    unfoldable pub spent : WatchJob → Option Bool → Tower db T → Turn db T
    unfolding stalled put_watch
    spent job none t = (t, err read_failed)
    spent job (some true) t = (put_watch (record job { done = true }) (others t), ok tt)
    spent job (some false) t = stalled job job.sent_prevout t

    unfoldable pub run_seen : WatchJob → Option (Option Unspent) → Tower db T → Turn db T
    unfolding spent work
    run_seen job none t = (t, err read_failed)
    run_seen job (some none) t = spent job (reader.spend_confirmed job.chain job.htlc) t
    run_seen job (some (some out)) t = work job out false t

    unfoldable pub run_job : WatchJob → Tower db T → Turn db T
    unfolding run_seen
    run_job job t = run_seen job (reader.txout job.chain job.htlc) t
