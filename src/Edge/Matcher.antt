-- ===== src/Edge/Matcher.antt =====
-- crates/fortis-edge/src/swap/matcher.rs: pairing opposite offers, the accept and funding deadlines,
-- and what a cancelled match gives back. Every operation runs under the store's matching lock, so
-- it is one step. Random ids and the clock are arguments.
pub mod Pairing
pub mod Closing
pub mod Fills
pub mod Agreed
pub mod Picks
pub mod Restore
pub mod Rematch
use Prim.Native.String.{String}
use fortis.Common.{
  ℕ, ◌+◌, ◌-◌, ◌*◌, ◌/◌, Bool, false, ◌&&◌, Option, none, some, ltb, leb, if◌then◌else◌, Result, ok,
  err, min, u32, u64, u64_mod, u64_max,
}
use fortis.Chain.{ChainParams}
use fortis.Terms.{
  SwapTerms, btc_for_xbt, swap_timelocks, sat_per_coin, min_btc_leg_sat, swap_fee_bps,
  xbt_confs_required, btc_confs_required, accept_secs, initiator_fund_secs, contract_v2,
}
use fortis.Edge.Records.{
  Direction, xbt_to_btc, btc_to_xbt, Offer, OfferStatus, opened, filled, is_open, Match, proposed,
}
use fortis.Edge.Store.{EdgeError, unknown_network, csprng}

-- A price of 0 is refused before this is called.
unfoldable pub xbt_for_btc : ℕ → ℕ → ℕ
xbt_for_btc btc_sat price = min (btc_sat * sat_per_coin / price) u64_max

unfoldable pub btc_leg_value : Direction → ℕ → ℕ → ℕ
btc_leg_value xbt_to_btc amount price = btc_for_xbt amount price
btc_leg_value btc_to_xbt amount price = amount

unfoldable pub matchable : Offer → ℕ → Bool
matchable o now = is_open o.status && ltb now o.expires_at

unfoldable pub crosses : ℕ → ℕ → Bool
crosses seller_price buyer_price = leb seller_price buyer_price

unfoldable pub offers_cross : Offer → Offer → Bool
unfolding crosses
offers_cross a b = elim a.direction [
  | xbt_to_btc ↦ crosses a.price_sat_per_xbt b.price_sat_per_xbt
  | btc_to_xbt ↦ crosses b.price_sat_per_xbt a.price_sat_per_xbt
]

-- `u64` subtraction, with the wrap of an optimised build.
abbrev pub wrapping_sub : ℕ → ℕ → ℕ
wrapping_sub a b = u64 (a + u64_mod - b)

unfoldable pub settle : Offer → ℕ → Bool → ℕ → Offer
unfolding btc_leg_value
settle o consumed limiting match_id =
    let rest = wrapping_sub o.amount_sat consumed in
    if leb min_btc_leg_sat (btc_leg_value o.direction rest o.price_sat_per_xbt)
    then record o { amount_sat = rest; status = opened; match_id = none }
    else record o {
      amount_sat = rest;
      status = (if limiting then OfferStatus.matched else filled);
      match_id = some match_id;
    }

-- What the service is configured with.
pub record Config : Type 0 where
  pub max_btc_sat : ℕ
  pub network : String
  pub fee_address : String

unfoldable pub fill_xbt : Config → Offer → Offer → ℕ → ℕ
unfolding xbt_for_btc
fill_xbt c init part price =
    min (min init.amount_sat (xbt_for_btc part.amount_sat price)) (xbt_for_btc c.max_btc_sat price)

-- `htlc::CURRENT_CONTRACT` is version 2.
unfoldable pub terms_for : Config → ℕ → ℕ → ℕ → ℕ → ChainParams × ChainParams → SwapTerms
terms_for c id xbt_sat price now params =
    let tl = swap_timelocks params.0 params.1 in
    let accept_by = u32 (now + accept_secs) in
    record {
      match_id = id;
      network = c.network;
      xbt_sat = xbt_sat;
      btc_sat = btc_for_xbt xbt_sat price;
      price_sat_per_xbt = price;
      fee_bps = swap_fee_bps;
      fee_address = c.fee_address;
      matched_at = now;
      xbt_locktime = u32 (now + tl.xbt_leg_secs);
      btc_locktime = u32 (now + tl.btc_leg_secs);
      xbt_confs = xbt_confs_required;
      btc_confs = btc_confs_required;
      accept_by = accept_by;
      initiator_fund_by = u32 (accept_by + initiator_fund_secs);
      contract_version = contract_v2;
    }

unfoldable pub match_for : ℕ → SwapTerms → Offer → Offer → Match
match_for id terms init part = record {
  id = id;
  terms = terms;
  initiator_offer = init.id;
  participant_offer = part.id;
  initiator_token = init.token;
  participant_token = part.token;
  initiator_secret_hash = init.secret_hash;
  participant_secret_hash = part.secret_hash;
  accepted = (false, false);
  status = proposed;
  xbt_funding = none;
  btc_funding = none;
  participant_fund_by = none;
  pre_match_amounts = (init.amount_sat, part.amount_sat);
  closed_at = none;
  keys = (none, none);
  hashlock = none;
  missed_participant_deadline = false;
  release_txs = none;
  release_sigs = none;
}

abbrev pub or_bad_network {ℓ} : {E A : Type ℓ} → Result E A → Result EdgeError A
or_bad_network (ok a) = ok a
or_bad_network (err e) = err unknown_network

abbrev pub or_csprng : Option ℕ → Result EdgeError ℕ
or_csprng none = err csprng
or_csprng (some id) = ok id

-- The initiator's offer, then the participant's.
unfoldable pub ordered : Offer → Offer → Offer × Offer
ordered a b = elim a.direction [ xbt_to_btc ↦ (a, b) | btc_to_xbt ↦ (b, a) ]
