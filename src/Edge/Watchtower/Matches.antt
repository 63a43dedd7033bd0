-- ===== src/Edge/Watchtower/Matches.antt =====
-- crates/fortis-edge/src/swap/watchtower.rs: the participant's clock, which runs from the moment that
-- the initiator's funding is confirmed, and the matches that are closed once their legs are spent. The
-- chain is read without the lock: what others do before it is taken is a function of the state.
use fortis.Common.{
  ℕ, ◌+◌, min, Bool, true, false, ◌&&◌, Option, none, some, List, [], ◌∷◌, ◌++◌, leb, ◌==◌,
  if◌then◌else◌, Result, ok, err, u32,
}
use fortis.Chain.{Chain, btc, xbt}
use fortis.Terms.{participant_fund_latest}
use fortis.Htlc.{Crate, Op}
use fortis.Edge.Records.{Match, MatchStatus, initiator_funded, participant_funded, closed, Funding}
use fortis.Edge.Store.{Db, get_match, put_match}
use fortis.Edge.Matcher.Closing.{is_none}
use fortis.Edge.Messages.{Relay, Sender, Body, same_pair}
use fortis.Edge.Messages.Chained.{Unpaid, leg_witness_script}
use fortis.Edge.Watchtower.{Unspent, TowerError, read_failed}
use fortis.Edge.Watchtower.Jobs.{Reader}

abbrev pub participant_fund_secs : ℕ
participant_fund_secs = 7_200

abbrev pub is_initiator_funded : MatchStatus → Bool
is_initiator_funded initiator_funded = true
is_initiator_funded _ = false

abbrev pub same_funding : Option Funding → Option Funding → Bool
same_funding none none = true
same_funding (some f) (some g) = same_pair f g
same_funding _ _ = false

-- The statuses of a match that may be closed, and that they are the same.
abbrev pub same_funded : MatchStatus → MatchStatus → Bool
same_funded initiator_funded initiator_funded = true
same_funded participant_funded participant_funded = true
same_funded _ _ = false

module _ {db : Db} (B : Crate) (point : ℕ → Option ℕ) (reader : Reader)
    (others : Relay db → Relay db) (now : ℕ) where
  unfoldable pub fund_by_of : Match → ℕ
  fund_by_of m = u32 (min (now + participant_fund_secs) (participant_fund_latest m.terms))

  -- The `deadline` message is the edge's own.
  unfoldable pub set_clock : ℕ → ℕ → Match → Relay db → Relay db
  set_clock id fund_by cur r = record r {
    store = (put_match db (record cur { participant_fund_by = some fund_by }) r.store).0;
    mail =
        (λ j. if id == j then r.mail j ++ (Sender.edge, Body.deadline fund_by) ∷ [] else r.mail j);
  }

  unfoldable pub clock_locked : Match → Option Match → Relay db → Relay db
  unfolding set_clock fund_by_of
  clock_locked m none r = r
  clock_locked m (some cur) r =
      if is_initiator_funded cur.status
        && is_none cur.participant_fund_by
        && same_funding cur.xbt_funding m.xbt_funding
      then set_clock m.id (fund_by_of m) cur r
      else r

  unfoldable pub is_confirmed : List Op → Match → Unspent → Bool
  is_confirmed ws m out =
      (out.script_pubkey == B.p2wsh ws)
      && (out.value_sat == m.terms.xbt_sat)
      && leb m.terms.xbt_confs out.confirmations

  unfoldable pub clock_seen :
      Match → List Op → Option (Option Unspent) → Relay db → Relay db × Result TowerError (Unit {0})
  unfolding clock_locked is_confirmed
  clock_seen m ws none r = (r, err read_failed)
  clock_seen m ws (some none) r = (r, ok tt)
  clock_seen m ws (some (some out)) r =
      if is_confirmed ws m out
      then (let r' = others r in clock_locked m (get_match db r'.store m.id) r', ok tt)
      else (r, ok tt)

  unfoldable pub clock_on :
      Match
      → Option Funding
      → Result Unpaid (List Op)
      → Relay db
      → Relay db × Result TowerError (Unit {0})
  unfolding clock_seen
  clock_on m (some f) (ok ws) r = clock_seen m ws (reader.txout xbt f) r
  clock_on m _ _ r = (r, ok tt)

  unfoldable pub start_participant_clock :
      Match → Relay db → Relay db × Result TowerError (Unit {0})
  unfolding clock_on
  start_participant_clock m r = clock_on m m.xbt_funding (leg_witness_script B point xbt m) r

  abbrev pub leg : Chain → Option Funding → List (Chain × Funding)
  leg c none = []
  leg c (some f) = (c, f) ∷ []

  -- Whether every leg is spent or gone, read until one is not.
  unfoldable pub all_spent : List (Chain × Funding) → Result TowerError Bool
  all_spent [] = ok true
  all_spent ((c, f) ∷ legs) = elim (reader.txout c f) [
    | none ↦ err read_failed
    | some (some _) ↦ ok false
    | some none ↦ all_spent legs
  ]

  unfoldable pub close_locked : Match → Option Match → Relay db → Relay db
  close_locked m none r = r
  close_locked m (some cur) r =
      if same_funded cur.status m.status
        && same_funding cur.xbt_funding m.xbt_funding
        && same_funding cur.btc_funding m.btc_funding
      then record r {
        store = (put_match db (record cur { status = closed; closed_at = some now }) r.store).0;
      }
      else r

  unfoldable pub close_spent :
      Match → Result TowerError Bool → Relay db → Relay db × Result TowerError (Unit {0})
  unfolding close_locked
  close_spent m (err e) r = (r, err e)
  close_spent m (ok false) r = (r, ok tt)
  close_spent m (ok true) r =
      (let r' = others r in close_locked m (get_match db r'.store m.id) r', ok tt)

  -- A match with no funded leg stays as it is.
  unfoldable pub close_legs :
      Match → List (Chain × Funding) → Relay db → Relay db × Result TowerError (Unit {0})
  unfolding close_spent
  close_legs m [] r = (r, ok tt)
  close_legs m (l ∷ ls) r = close_spent m (all_spent (l ∷ ls)) r

  unfoldable pub close_if_spent : Match → Relay db → Relay db × Result TowerError (Unit {0})
  unfolding close_legs
  close_if_spent m r =
      if same_funded m.status m.status
      then close_legs m (leg xbt m.xbt_funding ++ leg btc m.btc_funding) r
      else (r, ok tt)
