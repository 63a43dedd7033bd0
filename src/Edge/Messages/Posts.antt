-- ===== src/Edge/Messages/Posts.antt =====
-- crates/fortis-edge/src/swap/mod.rs, `post_message`: a party's message, from the request to the
-- match as it is stored and the body as it is relayed. All that is read before the matching lock is
-- taken is of one state, and what other requests do before each time it is taken is a function.
use Prim.Native.String.{String}
use text.Mathlib.Text.{◌==◌ as str_eq}
use fortis.Common.{
  ℕ, Bool, true, false, not, ◌&&◌, Option, none, some, List, length, leb, if◌then◌else◌, ◌==◌,
  Result, ok, err,
}
use fortis.Chain.{Chain, btc, xbt}
use fortis.Terms.{SwapRole, initiator, participant}
use fortis.Htlc.{Crate}
use fortis.Edge.Records.{
  Match, MatchStatus, accepted, initiator_funded, participant_funded, Funding,
}
use fortis.Edge.Store.{Db, Store, EdgeError, get_match}
use fortis.Edge.Matcher.Closing.{on_decline}
use fortis.Edge.Messages.{
  max_messages_per_match, Decoder, Msg, Body, Reply, unrelayed, refused, Relay, Step, refuse, idle,
  write, push, under_lock, is_some, same_pair, accept_step, keys_step, hashlock_step, hex32,
  compressed_hex,
}
use fortis.Edge.Messages.Releases.{release_sig, collect, release_request_step, release_step}
use fortis.Edge.Messages.Chained.{
  ChainReader, Unpaid, no_script, mismatch, read_failed, Reinstate, done, not_mined, mined_late,
  not_eligible, slot, set_slot, is_recorded, leg_paid_on_chain, record_leg_funding,
}
use fortis.Edge.Messages.Reinstating.{reinstate_if_funded_in_time}

-- `Role::send_chain`
abbrev pub send_chain : SwapRole → Chain
send_chain initiator = xbt
send_chain participant = btc

unfoldable pub parse_chain : String → Option Chain
parse_chain s = if str_eq s "btc" then some btc else if str_eq s "xbt" then some xbt else none

abbrev pub sends_on : SwapRole → Option Chain → Bool
sends_on initiator (some xbt) = true
sends_on participant (some btc) = true
sends_on _ _ = false

-- The party that a hash of the request's secret names.
unfoldable pub role_in : Option ℕ → Match → Option SwapRole
role_in none m = none
role_in (some h) m =
    if h == m.initiator_secret_hash
    then some initiator
    else if h == m.participant_secret_hash
    then some participant
    else none

-- Whether it is the party's turn to fund, and what follows.
abbrev pub is_turn : SwapRole → MatchStatus → Bool
is_turn initiator accepted = true
is_turn participant initiator_funded = true
is_turn _ _ = false

abbrev pub funded_next : SwapRole → MatchStatus
funded_next initiator = initiator_funded
funded_next participant = participant_funded

unfoldable pub move_on : SwapRole → Funding → Match → Step
move_on role out m =
    if is_turn role m.status
    then write (record (set_slot (send_chain role) out m) { status = funded_next role })
        (Body.funded (send_chain role) out)
    else refuse 409

-- A refund watch may have recorded the funding first.
unfoldable pub funded_slot : Option Funding → SwapRole → Funding → Match → Step
unfolding move_on
funded_slot none role out m = move_on role out m
funded_slot (some f) role out m =
    if same_pair f out
    then if is_turn role m.status then move_on role out m else idle
    else refuse 409

unfoldable pub funded_step : SwapRole → Funding → Match → Step
unfolding funded_slot
funded_step role out m = funded_slot (slot (send_chain role) m) role out m

abbrev unpaid_code : Unpaid → ℕ
unpaid_code no_script = 409
unpaid_code mismatch = 409
unpaid_code read_failed = 502
unpaid_code _ = 503

-- The nonce, 16 bytes where there is one.
unfoldable pub read_nonce : Decoder → Option String → Option (Option ℕ)
read_nonce D none = some none
read_nonce D (some t) = elim (D.hex t) [
  | none ↦ none
  | some b ↦ if b.0 == 16 then some (some b.1) else none
]

unfoldable pub is_released_to : SwapRole → Match → Bool
is_released_to participant m = is_some m.release_sigs
is_released_to initiator m = false

abbrev pub or_code : Result Unpaid (Unit {0}) → Result ℕ (Unit {0})
or_code (ok _) = ok tt
or_code (err why) = err (unpaid_code why)

abbrev pub is_participant_funded : MatchStatus → Bool
is_participant_funded participant_funded = true
is_participant_funded _ = false

module _ {db : Db} (B : Crate) (point : ℕ → Option ℕ) (chain : Option ChainReader)
    (others : ℕ → Relay db → Relay db) where
  -- A repeat of what another request reinstated meanwhile is answered.
  unfoldable pub late_again : Funding → Option Match → Relay db → Relay db × Reply
  late_again htlc none r = (r, refused 409)
  late_again htlc (some m) r =
      if is_participant_funded m.status && is_recorded htlc m.btc_funding
      then (r, unrelayed)
      else (r, refused 409)

  unfoldable pub late_answer : ℕ → Funding → Relay db × Result Unpaid Reinstate → Relay db × Reply
  unfolding late_again
  late_answer id htlc (r, ok done) = push id participant (Body.funded btc htlc) r
  late_answer id htlc (r, ok mined_late) = (r, refused 410)
  late_answer id htlc (r, ok not_mined) = (r, refused 409)
  late_answer id htlc (r, ok not_eligible) =
      let r' = others 3 r in late_again htlc (get_match db r'.store id) r'
  late_answer id htlc (r, err _) = (r, refused 502)

  unfoldable pub late_recorded : ℕ → Funding → Relay db × Result ℕ (Unit {0}) → Relay db × Reply
  unfolding late_answer
  late_recorded id htlc (r, err code) = (r, refused code)
  late_recorded id htlc (r, ok _) =
      late_answer id htlc (reinstate_if_funded_in_time others chain id (others 1 r))

  unfoldable pub late_participant_funded : Match → Funding → Relay db → Relay db × Reply
  unfolding late_recorded
  late_participant_funded m htlc r =
      late_recorded m.id htlc (record_leg_funding B point chain others m btc htlc true r)

  -- Read without the lock: the funding that is recorded already was checked before.
  unfoldable pub funding_shown : SwapRole → Funding → Match → Result ℕ (Unit {0})
  funding_shown role out m =
      if is_recorded out (slot (send_chain role) m)
      then ok tt
      else if not (is_turn role m.status)
      then err 409
      else or_code (leg_paid_on_chain B point chain (send_chain role) out m)

  unfoldable pub once_shown :
      ℕ → SwapRole → Funding → Result ℕ (Unit {0}) → Relay db → Relay db × Reply
  once_shown id role out (err code) r = (r, refused code)
  once_shown id role out (ok _) r = under_lock id role (funded_step role out) (others 0 r)

  unfoldable pub funded_in_turn : ℕ → SwapRole → Funding → Match → Relay db → Relay db × Reply
  unfolding funding_shown once_shown
  funded_in_turn id role out m r = once_shown id role out (funding_shown role out m) r

  unfoldable pub post_funding : ℕ → SwapRole → Funding → Match → Relay db → Relay db × Reply
  unfolding late_participant_funded funded_in_turn
  post_funding id participant out m r =
      if m.missed_participant_deadline
      then late_participant_funded m out r
      else funded_in_turn id participant out m r
  post_funding id initiator out m r = funded_in_turn id initiator out m r

  unfoldable pub post_outpoint : ℕ → SwapRole → Option ℕ → ℕ → Match → Relay db → Relay db × Reply
  unfolding post_funding
  post_outpoint id role none vout m r = (r, refused 400)
  post_outpoint id role (some txid) vout m r = post_funding id role (txid, vout) m r

  unfoldable pub post_funded :
      Decoder → ℕ → SwapRole → String → String → ℕ → Match → Relay db → Relay db × Reply
  unfolding post_outpoint is_released_to
  post_funded D id role chain_name txid vout m r =
      if is_released_to role m
      then (r, refused 409)
      else if not (sends_on role (parse_chain chain_name))
      then (r, refused 400)
      else post_outpoint id role (D.txid txid) vout m r

  -- 409 also for an unknown match.
  unfoldable pub declined :
      ℕ → SwapRole → Relay db → Store db × Result EdgeError (Unit {0}) → Relay db × Reply
  declined id role r (s, ok _) = push id role Body.decline (record r { store = s })
  declined id role r (s, err _) = (record r { store = s }, refused 409)

  unfoldable pub post_keys : ℕ → SwapRole → Option ℕ → Option ℕ → Relay db → Relay db × Reply
  post_keys id role (some x) (some b) r = under_lock id role (keys_step role (x, b)) (others 0 r)
  post_keys id role _ _ r = (r, refused 400)

  unfoldable pub post_hashlock : ℕ → Option ℕ → Option (Option ℕ) → Relay db → Relay db × Reply
  post_hashlock id (some h) (some nonce) r =
      under_lock id initiator (hashlock_step h nonce) (others 0 r)
  post_hashlock id _ _ r = (r, refused 400)

  unfoldable pub post_release : ℕ → Option (List ℕ) → Relay db → Relay db × Reply
  post_release id none r = (r, refused 400)
  post_release id (some sigs) r = under_lock id participant (release_step sigs) (others 0 r)

  unfoldable pub handle : Decoder → ℕ → ℕ → SwapRole → Match → Msg → Relay db → Relay db × Reply
  unfolding declined post_keys read_nonce post_hashlock post_release post_funded
  handle D now id role m Msg.decline r =
      declined id role (others 0 r) (on_decline db id role now (others 0 r).store)
  handle D now id role m Msg.accept r = under_lock id role (accept_step role now) (others 0 r)
  handle D now id role m (Msg.keys x b) r =
      post_keys id role (compressed_hex D x) (compressed_hex D b) r
  handle D now id participant m (Msg.hashlock hex salt) r = (r, refused 403)
  handle D now id initiator m (Msg.hashlock hex salt) r =
      post_hashlock id (hex32 D hex) (read_nonce D salt) r
  handle D now id participant m (Msg.release_request txs) r = (r, refused 403)
  handle D now id initiator m (Msg.release_request txs) r =
      under_lock id initiator (release_request_step D txs) (others 0 r)
  handle D now id initiator m (Msg.release sigs) r = (r, refused 403)
  handle D now id participant m (Msg.release sigs) r =
      post_release id (collect (release_sig D) sigs) r
  handle D now id role m (Msg.funded c txid vout) r = post_funded D id role c txid vout m r

  -- The body of the request, or the status that refuses it as it is read.
  unfoldable pub post_as :
      Decoder → ℕ → ℕ → Match → Option SwapRole → Result ℕ Msg → Relay db → Relay db × Reply
  unfolding handle
  post_as D now id m none body r = (r, refused 403)
  post_as D now id m (some role) (err code) r = (r, refused code)
  post_as D now id m (some role) (ok msg) r =
      if leb max_messages_per_match (length (r.mail id))
      then (r, refused 429)
      else handle D now id role m msg r

  unfoldable pub post_to :
      Decoder → ℕ → ℕ → Option ℕ → Option Match → Result ℕ Msg → Relay db → Relay db × Reply
  unfolding post_as
  post_to D now id presented none body r = (r, refused 404)
  post_to D now id presented (some m) body r = post_as D now id m (role_in presented m) body r

  unfoldable pub post_message :
      Decoder → ℕ → ℕ → Option ℕ → Result ℕ Msg → Relay db → Relay db × Reply
  unfolding post_to
  post_message D now id presented body r =
      post_to D now id presented (get_match db r.store id) body r
