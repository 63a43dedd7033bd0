-- ===== src/Edge/Watchtower/Clocks.antt =====
-- crates/fortis-edge/src/swap/watchtower.rs, `start_participant_clock` and `close_if_spent`: when the
-- participant's clock starts and when a match is closed.
use fortis.Common.{ℕ, ◌+◌, ◌≡◌, ◌≤◌, true, Option, some, List, Result, ok}
use fortis.Chain.{xbt}
use fortis.Terms.{participant_fund_latest}
use fortis.Htlc.{Crate, Op}
use fortis.Edge.Records.{Match, Funding}
use fortis.Edge.Store.{Db, get_match}
use fortis.Edge.Matcher.Closing.{is_none}
use fortis.Edge.Messages.{Relay}
use fortis.Edge.Messages.Chained.{leg_witness_script}
use fortis.Edge.Watchtower.{Unspent, TowerError}
use fortis.Edge.Watchtower.Jobs.{Reader}
use fortis.Edge.Watchtower.Matches.{
  participant_fund_secs, is_initiator_funded, same_funding, set_clock,
}

module _ {db : Db} (B : Crate) (point : ℕ → Option ℕ) (reader : Reader)
    (others : Relay db → Relay db) (now : ℕ) (m : Match) (r : Relay db) where
  -- The match under the lock, and what the chain showed of its funding.
  pub record MayStart (cur : Match) (fund_by : ℕ) : Type 0 where
    pub funding : Funding
    pub script : List Op
    pub out : Unspent
    pub funded : m.xbt_funding ≡ some funding
    pub known : leg_witness_script B point xbt m ≡ ok script
    pub seen : reader.txout xbt funding ≡ some (some out)
    pub pays : out.script_pubkey ≡ B.p2wsh script
    pub amount : out.value_sat ≡ m.terms.xbt_sat
    pub deep : m.terms.xbt_confs ≤ out.confirmations
    pub current : get_match db (others r).store m.id ≡ some cur
    pub in_turn : is_initiator_funded cur.status ≡ true
    pub unset : is_none cur.participant_fund_by ≡ true
    pub same : same_funding cur.xbt_funding m.xbt_funding ≡ true
    pub soon : fund_by ≤ now + participant_fund_secs
    pub in_time : fund_by ≤ participant_fund_latest m.terms

  pub data Clocked : Relay db × Result TowerError (Unit {0}) → Type 0 where
    untouched : (e : Result TowerError (Unit {0})) → Clocked (r, e)
    overtaken : Clocked (others r, ok tt)
    started :
        (cur : Match) (fund_by : ℕ)
        → MayStart cur fund_by
        → Clocked (set_clock B point reader others now m.id fund_by cur (others r), ok tt)
