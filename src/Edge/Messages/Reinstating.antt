-- ===== src/Edge/Messages/Reinstating.antt =====
-- crates/fortis-edge/src/swap/mod.rs: a match that was cancelled at the participant's deadline comes
-- back when its funding turns out to be mined in time.
use fortis.Common.{
  ℕ, Bool, false, not, ◌&&◌, Option, none, some, ltb, if◌then◌else◌, ◌==◌, Result, ok, err,
}
use fortis.Chain.{btc}
use fortis.Edge.Records.{Match, participant_funded, is_cancelled, Funding}
use fortis.Edge.Store.{Db, Store, put_match, get_match, remove_strike}
use fortis.Edge.Messages.{Relay, is_some}
use fortis.Edge.Messages.Chained.{
  ChainReader, Unpaid, read_failed, Reinstate, done, not_mined, mined_late, not_eligible,
}

abbrev pub eligible : Match → Bool
eligible m = m.missed_participant_deadline && is_cancelled m.status && not (is_some m.release_sigs)

-- The match back as it was funded, and open again.
abbrev pub reinstated : Match → Match
reinstated m = record m {
  status = participant_funded;
  missed_participant_deadline = false;
  closed_at = none;
}

abbrev pub is_funded_by : ℕ → Option Funding → Bool
is_funded_by txid none = false
is_funded_by txid (some f) = f.0 == txid

abbrev pub if_eligible : Option Match → Option Match
if_eligible none = none
if_eligible (some m) = if eligible m then some m else none

module _ {db : Db} where
  unfoldable pub eligible_match : ℕ → Relay db → Option Match
  eligible_match id r = if_eligible (get_match db r.store id)

  abbrev pub lift_strike : Option ℕ → ℕ → Store db → Store db
  lift_strike none token s = s
  lift_strike (some at) token s = (remove_strike db token at s).0

  -- The strike first, then the match.
  abbrev pub write_reinstated : Match → Relay db → Relay db
  write_reinstated cur r = record r {
    store =
        (put_match db (reinstated cur) (lift_strike cur.closed_at cur.participant_token r.store)).0;
  }

  -- What is done under the lock once the funding is known to be mined in time.
  unfoldable pub reinstate_locked : ℕ → Option Match → Relay db → Relay db × Result Unpaid Reinstate
  reinstate_locked txid none r = (r, ok not_eligible)
  reinstate_locked txid (some cur) r =
      if is_funded_by txid cur.btc_funding
      then (write_reinstated cur r, ok done)
      else (r, ok not_eligible)

  module _ (others : ℕ → Relay db → Relay db) where
    unfoldable pub reinstate_mined :
        ℕ → ℕ → ℕ → Relay db → Option (Option ℕ) → Relay db × Result Unpaid Reinstate
    unfolding reinstate_locked
    reinstate_mined id txid fund_by r none = (r, err read_failed)
    reinstate_mined id txid fund_by r (some none) = (r, ok not_mined)
    reinstate_mined id txid fund_by r (some (some mined)) =
        if ltb fund_by mined
        then (r, ok mined_late)
        else let r' = others 2 r in reinstate_locked txid (eligible_match id r') r'

    unfoldable pub reinstate_funded :
        ℕ
        → Option Funding
        → Option ℕ
        → Option ChainReader
        → Relay db
        → Relay db × Result Unpaid Reinstate
    unfolding reinstate_mined
    reinstate_funded id (some f) (some fund_by) (some reader) r =
        reinstate_mined id f.0 fund_by r (reader.tx_block_time btc f.0)
    reinstate_funded id _ _ _ r = (r, ok not_eligible)

    unfoldable pub reinstate_read :
        Option ChainReader → ℕ → Option Match → Relay db → Relay db × Result Unpaid Reinstate
    unfolding reinstate_funded
    reinstate_read chain id none r = (r, ok not_eligible)
    reinstate_read chain id (some m) r =
        reinstate_funded id m.btc_funding m.participant_fund_by chain r

    unfoldable pub reinstate_if_funded_in_time :
        Option ChainReader → ℕ → Relay db → Relay db × Result Unpaid Reinstate
    unfolding reinstate_read
    reinstate_if_funded_in_time chain id r = reinstate_read chain id (eligible_match id r) r
