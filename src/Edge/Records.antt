-- ===== src/Edge/Records.antt =====
-- crates/fortis-edge/src/swap/store.rs: the records of the swap store. An id, a token, a hash, a key
-- and a share code are text that the code compares and never takes apart, and here the number that
-- their hexadecimal digits write (ids have 32 digits, so their order is that of the texts).
use fortis.Common.{ℕ, Bool, Option, List}
use fortis.Chain.{Chain}
use fortis.Terms.{SwapTerms}

pub data Direction : Type 0 where
  xbt_to_btc btc_to_xbt : Direction

unfoldable pub opposite : Direction → Direction
opposite xbt_to_btc = btc_to_xbt
opposite btc_to_xbt = xbt_to_btc

abbrev pub same_direction : Direction → Direction → Bool
same_direction xbt_to_btc xbt_to_btc = Bool.true
same_direction btc_to_xbt btc_to_xbt = Bool.true
same_direction _ _ = Bool.false

pub data OfferStatus : Type 0 where
  opened matched cancelled expired filled : OfferStatus

abbrev pub is_open : OfferStatus → Bool
is_open opened = Bool.true
is_open _ = Bool.false

pub record Offer : Type 0 where
  pub id : ℕ
  pub token : ℕ
  pub secret_hash : ℕ
  pub direction : Direction
  pub amount_sat : ℕ
  pub price_sat_per_xbt : ℕ
  pub created_at : ℕ
  pub expires_at : ℕ
  pub private : Bool
  pub share_code : Option ℕ
  pub status : OfferStatus
  pub match_id : Option ℕ
  pub client_id : Option ℕ
  pub recovery_tag : Option ℕ

pub data MatchStatus : Type 0 where
  proposed accepted initiator_funded participant_funded closed cancelled : MatchStatus

abbrev pub is_cancelled : MatchStatus → Bool
is_cancelled cancelled = Bool.true
is_cancelled _ = Bool.false

-- A transaction id and an output index.
abbrev pub Funding : Type 0
Funding = ℕ × ℕ

-- A party's swap keys, `(xbt, btc)`.
abbrev pub KeysHex : Type 0
KeysHex = ℕ × ℕ

-- Pairs stand in the order (initiator, participant).
pub record Match : Type 0 where
  pub id : ℕ
  pub terms : SwapTerms
  pub initiator_offer : ℕ
  pub participant_offer : ℕ
  pub initiator_token : ℕ
  pub participant_token : ℕ
  pub initiator_secret_hash : ℕ
  pub participant_secret_hash : ℕ
  pub accepted : Bool × Bool
  pub status : MatchStatus
  pub xbt_funding : Option Funding
  pub btc_funding : Option Funding
  pub participant_fund_by : Option ℕ
  pub pre_match_amounts : ℕ × ℕ
  pub closed_at : Option ℕ
  pub keys : Option KeysHex × Option KeysHex
  pub hashlock : Option ℕ
  pub missed_participant_deadline : Bool
  pub release_txs : Option (List ℕ)
  pub release_sigs : Option (List ℕ)

pub data WatchKind : Type 0 where
  refund redeem : WatchKind
  waiting_redeem : (pubkey_hex witness_script_hex : ℕ) → (sigs_hex : List ℕ) → WatchKind

pub record WatchJob : Type 0 where
  pub match_id : ℕ
  pub chain : Chain
  pub kind : WatchKind
  pub htlc : Funding
  pub not_before : ℕ
  pub variants : List ℕ
  pub done : Bool
  pub sent_prevout : Option (ℕ × ℕ)
