-- ===== src/Edge/Messages/Chained.antt =====
-- crates/fortis-edge/src/swap/mod.rs: fundings, which are recorded only as the chain shows them, and
-- the match that a late report of a timely funding brings back. The chain is read without the
-- matching lock: what other requests do before the next time it is taken is a function of the state.
use fortis.Common.{
  ℕ, Bool, false, not, ◌||◌, Option, none, some, List, if◌then◌else◌, ◌==◌, Result, ok, err, ◌>>=◌,
  ◌>>◌, ok_or, reject_if,
}
use fortis.Chain.{Chain, btc, xbt}
use fortis.Terms.{SwapTerms, network_params}
use fortis.Htlc.{Op, Crate, try_build}
use fortis.Edge.Records.{Match, Funding, KeysHex}
use fortis.Edge.Store.{Db, put_match, get_match}
use fortis.Edge.Messages.{Relay, same_pair}

pub record TxOutInfo : Type 0 where
  pub value_sat : ℕ
  pub script_pubkey : ℕ

-- watchtower.rs, `ChainReader`: what the chain shows while one request is handled. The outer
-- `none` is a failed read.
pub record ChainReader : Type 0 where
  pub created_output : Chain → Funding → Option (Option TxOutInfo)
  pub tx_block_time : Chain → ℕ → Option (Option ℕ)

pub data Unpaid : Type 0 where
  no_script no_reader not_seen mismatch read_failed : Unpaid

pub data Reinstate : Type 0 where
  done not_mined mined_late not_eligible : Reinstate

abbrev pub slot : Chain → Match → Option Funding
slot xbt m = m.xbt_funding
slot btc m = m.btc_funding

abbrev pub set_slot : Chain → Funding → Match → Match
set_slot xbt f m = record m { xbt_funding = some f }
set_slot btc f m = record m { btc_funding = some f }

abbrev pub leg_amount : Chain → SwapTerms → ℕ
leg_amount xbt t = t.xbt_sat
leg_amount btc t = t.btc_sat

abbrev pub is_recorded : Funding → Option Funding → Bool
is_recorded f none = false
is_recorded f (some g) = same_pair g f

-- `.ok()?` where `None` becomes `NoScript`.
abbrev or_no_script : {E A : Type 0} → Result E A → Result Unpaid A
or_no_script (ok a) = ok a
or_no_script (err _) = err no_script

abbrev pub params_on : {P : Type 0} → Chain → P × P → P
params_on btc (b, x) = b
params_on xbt (b, x) = x

-- Who redeems, who refunds, and from when.
abbrev leg_of : Chain → KeysHex → KeysHex → SwapTerms → ℕ × ℕ × ℕ
leg_of xbt i p t = (p.0, i.0, t.xbt_locktime)
leg_of btc i p t = (i.1, p.1, t.btc_locktime)

-- `point`: the point of a recorded key, where it is one.
module _ (B : Crate) (point : ℕ → Option ℕ) where
  build_leg : Chain → SwapTerms → ℕ → ℕ × ℕ × ℕ → Result Unpaid (List Op)
  build_leg c t h (redeem_key, refund_key, locktime) = do
    params ← or_no_script (network_params t.network)
    redeem ← ok_or (point redeem_key) no_script
    refund ← ok_or (point refund_key) no_script
    leg ← or_no_script (
        try_build B (params_on c params) t.contract_version h redeem refund locktime
          (leg_amount c t))
    ok leg.witness_script

  unfoldable pub script_with :
      Chain → SwapTerms → Option KeysHex → Option KeysHex → Option ℕ → Result Unpaid (List Op)
  unfolding build_leg
  script_with c t (some i) (some p) (some h) = build_leg c t h (leg_of c i p t)
  script_with c t _ _ _ = err no_script

  -- `None` is `NoScript`.
  unfoldable pub leg_witness_script : Chain → Match → Result Unpaid (List Op)
  unfolding script_with
  leg_witness_script c m = script_with c m.terms m.keys.0 m.keys.1 m.hashlock

  module _ (chain : Option ChainReader) where
    unfoldable pub paid_to :
        Chain → Funding → SwapTerms → Result Unpaid (List Op) → Result Unpaid (Unit {0})
    paid_to c htlc t script = do
      ws ← script
      reader ← ok_or chain no_reader
      seen ← ok_or (reader.created_output c htlc) read_failed
      out ← ok_or seen not_seen
      reject_if (not (out.script_pubkey == B.p2wsh ws) || not (out.value_sat == leg_amount c t))
          mismatch
      ok tt

    unfoldable pub leg_paid_on_chain : Chain → Funding → Match → Result Unpaid (Unit {0})
    unfolding paid_to
    leg_paid_on_chain c htlc m = paid_to c htlc m.terms (leg_witness_script c m)

    -- The status of each refusal of a refund watch.
    watch_code : Unpaid → ℕ
    watch_code read_failed = 502
    watch_code _ = 409

    -- What is done under the lock once the funding was found on chain.
    unfoldable pub record_slot :
        {db : Db}
        → Chain
        → Funding
        → Match
        → Option Funding
        → Relay db
        → Relay db × Result ℕ (Unit {0})
    record_slot c htlc cur none r =
        (record r { store = (put_match _ (set_slot c htlc cur) r.store).0 }, ok tt)
    record_slot c htlc cur (some f) r = if same_pair f htlc then (r, ok tt) else (r, err 409)

    unfoldable pub record_in :
        {db : Db} → Chain → Funding → Option Match → Relay db → Relay db × Result ℕ (Unit {0})
    unfolding record_slot
    record_in c htlc none r = (r, err 404)
    record_in c htlc (some cur) r = record_slot c htlc cur (slot c cur) r

    module _ {db : Db} (others : ℕ → Relay db → Relay db) where
      unfoldable pub record_shown :
          Match
          → Chain
          → Funding
          → Result Unpaid (Unit {0})
          → Relay db
          → Relay db × Result ℕ (Unit {0})
      unfolding record_in watch_code
      record_shown m c htlc (err why) r = (r, err (watch_code why))
      record_shown m c htlc (ok _) r =
          let r' = others 0 r in record_in c htlc (get_match db r'.store m.id) r'

      unfoldable pub record_at :
          Match
          → Chain
          → Funding
          → Bool
          → Option Funding
          → Relay db
          → Relay db × Result ℕ (Unit {0})
      unfolding record_shown
      record_at m c htlc by_owner (some f) r = if same_pair f htlc then (r, ok tt) else (r, err 409)
      record_at m c htlc by_owner none r =
          if not by_owner
          then (r, err 409)
          else record_shown m c htlc (leg_paid_on_chain c htlc m) r

      unfoldable pub record_leg_funding :
          Match → Chain → Funding → Bool → Relay db → Relay db × Result ℕ (Unit {0})
      unfolding record_at
      record_leg_funding m c htlc by_owner r = record_at m c htlc by_owner (slot c m) r
