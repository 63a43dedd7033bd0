-- ===== src/Edge/Messages/Requests.antt =====
-- crates/fortis-edge/src/swap/mod.rs, `post_message`: what a match records stays over every message
-- of either party.
use fortis.Common.{
  ℕ, refl, Bool, true, Option, none, some, List, Result, ok, err, leb, length, not, ◌&&◌,
}
use fortis.Chain.{Chain, btc}
use fortis.Terms.{SwapRole, initiator, participant}
use fortis.Htlc.{Crate}
use fortis.Edge.Records.{Match, Funding}
use fortis.Edge.Store.{Db, Store, EdgeError, get_match}
use fortis.Edge.Messages.{
  Relay, Decoder, Step, under_lock, keys_step, accept_step, hashlock_step, Msg, push,
  max_messages_per_match, hex32, compressed_hex, same_pair,
}
use fortis.Edge.Messages.Releases.{release_sig, collect, release_request_step, release_step}
use fortis.Edge.Messages.Chained.{
  ChainReader, Unpaid, Reinstate, done, not_mined, mined_late, not_eligible, slot, is_recorded,
  leg_paid_on_chain, record_shown, record_at, record_leg_funding,
}
use fortis.Edge.Messages.Reinstating.{eligible_match, reinstate_if_funded_in_time}
use fortis.Edge.Messages.Posts.{
  sends_on, parse_chain, is_participant_funded, is_released_to, funded_step, late_again,
  late_answer, late_recorded, late_participant_funded, once_shown, funding_shown, funded_in_turn,
  post_funding, post_outpoint, post_funded, declined, post_keys, read_nonce, post_hashlock,
  post_release, handle, post_as, post_to, post_message, role_in,
}
use fortis.Edge.Messages.Kept.{Grows}
use fortis.Edge.Messages.Steps.{
  IsSafe, keys_step-IsSafe, accept_step-IsSafe, hashlock_step-IsSafe, release_request_step-IsSafe,
  release_step-IsSafe, funded_step-IsSafe,
}
use fortis.Edge.Messages.Growing.{on_decline-Grows}
use fortis.Edge.Messages.Lasting.{
  Lasts, lasting, grows, still, then_lasts, if_lasts, locked_lasts, reinstate_read-Lasts,
  record_in-Lasts,
}

module _ {db : Db} (B : Crate) (point : ℕ → Option ℕ) (chain : Option ChainReader)
    (others : ℕ → Relay db → Relay db) (quiet : (i : ℕ) (r : Relay db) → Lasts r (others i r)) where
  record_shown-Lasts :
      (m : Match) (c : Chain) (htlc : Funding) (x : Result Unpaid (Unit {0})) (r : Relay db)
      → Lasts r (record_shown B point chain others m c htlc x r).0
  unfolding record_shown
  record_shown-Lasts m c htlc (err _) r = still r
  record_shown-Lasts m c htlc (ok _) r = then_lasts r (others 0 r) _ (quiet 0 r) (
      record_in-Lasts others quiet B point chain m.id c htlc (get_match db (others 0 r).store m.id)
        (others 0 r) refl)

  record_at-Lasts :
      (m : Match) (c : Chain) (htlc : Funding) (by_owner : Bool) (x : Option Funding) (r : Relay db)
      → Lasts r (record_at B point chain others m c htlc by_owner x r).0
  unfolding record_at
  record_at-Lasts m c htlc by_owner (some f) r =
      if_lasts r (same_pair f htlc) _ _ (still r) (still r)
  record_at-Lasts m c htlc by_owner none r =
      if_lasts r (not by_owner) _ _ (still r)
        (record_shown-Lasts m c htlc (leg_paid_on_chain B point chain c htlc m) r)

  late_again-Lasts :
      (htlc : Funding) (x : Option Match) (r : Relay db)
      → Lasts r (late_again B point chain others htlc x r).0
  unfolding late_again
  late_again-Lasts htlc none r = still r
  late_again-Lasts htlc (some m) r =
      if_lasts r (is_participant_funded m.status && is_recorded htlc m.btc_funding) _ _ (still r)
        (still r)

  late_answer-Lasts :
      (id : ℕ) (htlc : Funding) (x : Relay db × Result Unpaid Reinstate)
      → Lasts x.0 (late_answer B point chain others id htlc x).0
  unfolding late_answer push
  late_answer-Lasts id htlc (r, ok done) = lasting _ (grows (still r))
  late_answer-Lasts id htlc (r, ok mined_late) = still r
  late_answer-Lasts id htlc (r, ok not_mined) = still r
  late_answer-Lasts id htlc (r, ok not_eligible) =
      then_lasts r (others 3 r) _ (quiet 3 r)
        (late_again-Lasts htlc (get_match db (others 3 r).store id) (others 3 r))
  late_answer-Lasts id htlc (r, err _) = still r

  late_recorded-Lasts :
      (id : ℕ) (htlc : Funding) (x : Relay db × Result ℕ (Unit {0}))
      → Lasts x.0 (late_recorded B point chain others id htlc x).0
  unfolding late_recorded reinstate_if_funded_in_time
  late_recorded-Lasts id htlc (r, err _) = still r
  late_recorded-Lasts id htlc (r, ok _) = then_lasts r (others 1 r) _ (quiet 1 r) (
      then_lasts (others 1 r) (reinstate_if_funded_in_time others chain id (others 1 r)).0 _
        (reinstate_read-Lasts others quiet chain id (eligible_match id (others 1 r)) (others 1 r))
        (late_answer-Lasts id htlc (reinstate_if_funded_in_time others chain id (others 1 r))))

  late_funded-Lasts :
      (m : Match) (htlc : Funding) (r : Relay db)
      → Lasts r (late_participant_funded B point chain others m htlc r).0
  unfolding late_participant_funded record_leg_funding
  late_funded-Lasts m htlc r =
      then_lasts r (record_leg_funding B point chain others m btc htlc true r).0 _
        (record_at-Lasts m btc htlc true (slot btc m) r)
        (late_recorded-Lasts m.id htlc (record_leg_funding B point chain others m btc htlc true r))

  pub once_shown-Lasts :
      (id : ℕ) (role : SwapRole) (out : Funding) (x : Result ℕ (Unit {0})) (r : Relay db)
      → Lasts r (once_shown B point chain others id role out x r).0
  unfolding once_shown
  once_shown-Lasts id role out (err _) r = still r
  once_shown-Lasts id role out (ok _) r = then_lasts r (others 0 r) _ (quiet 0 r) (
      locked_lasts id role (funded_step role out) (others 0 r) (λ m. funded_step-IsSafe m role out))

  post_funding-Lasts :
      (id : ℕ) (role : SwapRole) (out : Funding) (m : Match) (r : Relay db)
      → Lasts r (post_funding B point chain others id role out m r).0
  unfolding post_funding funded_in_turn
  post_funding-Lasts id initiator out m r =
      once_shown-Lasts id initiator out (funding_shown B point chain others initiator out m) r
  post_funding-Lasts id participant out m r =
      if_lasts r m.missed_participant_deadline _ _ (late_funded-Lasts m out r) (
        once_shown-Lasts id participant out (funding_shown B point chain others participant out m)
          r)

  post_outpoint-Lasts :
      (id : ℕ) (role : SwapRole) (t : Option ℕ) (vout : ℕ) (m : Match) (r : Relay db)
      → Lasts r (post_outpoint B point chain others id role t vout m r).0
  unfolding post_outpoint
  post_outpoint-Lasts id role none vout m r = still r
  post_outpoint-Lasts id role (some t) vout m r = post_funding-Lasts id role (t, vout) m r

  locked_by :
      (id : ℕ) (role : SwapRole) (f : Match → Step) (r : Relay db)
      → ((m : Match) → IsSafe m (f m))
      → Lasts r (under_lock id role f (others 0 r)).0
  locked_by id role f r h =
      then_lasts r (others 0 r) _ (quiet 0 r) (locked_lasts id role f (others 0 r) h)

  post_keys-Lasts :
      (id : ℕ) (role : SwapRole) (x b : Option ℕ) (r : Relay db)
      → Lasts r (post_keys B point chain others id role x b r).0
  unfolding post_keys
  post_keys-Lasts id role (some x) (some b) r =
      locked_by id role (keys_step role (x, b)) r (λ m. keys_step-IsSafe m role (x, b))
  post_keys-Lasts id role (some x) none r = still r
  post_keys-Lasts id role none b r = still r

  post_hashlock-Lasts :
      (id : ℕ) (h : Option ℕ) (nonce : Option (Option ℕ)) (r : Relay db)
      → Lasts r (post_hashlock B point chain others id h nonce r).0
  unfolding post_hashlock
  post_hashlock-Lasts id (some h) (some n) r =
      locked_by id initiator (hashlock_step h n) r (λ m. hashlock_step-IsSafe m h n)
  post_hashlock-Lasts id (some h) none r = still r
  post_hashlock-Lasts id none n r = still r

  post_release-Lasts :
      (id : ℕ) (sigs : Option (List ℕ)) (r : Relay db)
      → Lasts r (post_release B point chain others id sigs r).0
  unfolding post_release
  post_release-Lasts id none r = still r
  post_release-Lasts id (some sigs) r =
      locked_by id participant (release_step sigs) r (λ m. release_step-IsSafe m sigs)

  declined-Lasts :
      (id : ℕ) (role : SwapRole) (r : Relay db) (x : Store db × Result EdgeError (Unit {0}))
      → Grows r.store x.0
      → Lasts r (declined B point chain others id role r x).0
  unfolding declined push
  declined-Lasts id role r (s, ok _) g = lasting _ g
  declined-Lasts id role r (s, err _) g = lasting _ g

  handle-Lasts :
      (D : Decoder) (now id : ℕ) (role : SwapRole) (m : Match) (msg : Msg) (r : Relay db)
      → Lasts r (handle B point chain others D now id role m msg r).0
  unfolding handle post_funded
  handle-Lasts D now id role m Msg.decline r =
      then_lasts r (others 0 r) _ (quiet 0 r)
        (declined-Lasts id role (others 0 r) _ (on_decline-Grows db id role now (others 0 r).store))
  handle-Lasts D now id role m Msg.accept r =
      locked_by id role (accept_step role now) r (λ m. accept_step-IsSafe m role now)
  handle-Lasts D now id role m (Msg.keys x b) r =
      post_keys-Lasts id role (compressed_hex D x) (compressed_hex D b) r
  handle-Lasts D now id participant m (Msg.hashlock hex salt) r = still r
  handle-Lasts D now id initiator m (Msg.hashlock hex salt) r =
      post_hashlock-Lasts id (hex32 D hex) (read_nonce D salt) r
  handle-Lasts D now id participant m (Msg.release_request txs) r = still r
  handle-Lasts D now id initiator m (Msg.release_request txs) r =
      locked_by id initiator (release_request_step D txs) r
        (λ m. release_request_step-IsSafe m D txs)
  handle-Lasts D now id initiator m (Msg.release sigs) r = still r
  handle-Lasts D now id participant m (Msg.release sigs) r =
      post_release-Lasts id (collect (release_sig D) sigs) r
  handle-Lasts D now id role m (Msg.funded c txid vout) r =
      if_lasts r (is_released_to role m) _ _ (still r) (
        if_lasts r (not (sends_on role (parse_chain c))) _ _ (still r)
          (post_outpoint-Lasts id role (D.txid txid) vout m r))

  post_as-Lasts :
      (D : Decoder) (now id : ℕ) (m : Match) (role : Option SwapRole) (body : Result ℕ Msg)
      (r : Relay db)
      → Lasts r (post_as B point chain others D now id m role body r).0
  unfolding post_as
  post_as-Lasts D now id m none body r = still r
  post_as-Lasts D now id m (some role) (err _) r = still r
  post_as-Lasts D now id m (some role) (ok msg) r =
      if_lasts r (leb max_messages_per_match (length (r.mail id))) _ _ (still r)
        (handle-Lasts D now id role m msg r)

  post_to-Lasts :
      (D : Decoder) (now id : ℕ) (presented : Option ℕ) (x : Option Match) (body : Result ℕ Msg)
      (r : Relay db)
      → Lasts r (post_to B point chain others D now id presented x body r).0
  unfolding post_to
  post_to-Lasts D now id presented none body r = still r
  post_to-Lasts D now id presented (some m) body r =
      post_as-Lasts D now id m (role_in presented m) body r

  -- Over one message of either party, whatever other requests do meanwhile that keeps what is
  -- recorded: a store that holds each match under its id still does, and each match keeps its terms,
  -- and the keys, the hashlock, the fundings and the release that it had recorded.
  pub post_message-Lasts :
      (D : Decoder) (now id : ℕ) (presented : Option ℕ) (body : Result ℕ Msg) (r : Relay db)
      → Lasts r (post_message B point chain others D now id presented body r).0
  unfolding post_message
  post_message-Lasts D now id presented body r =
      post_to-Lasts D now id presented (get_match db r.store id) body r
