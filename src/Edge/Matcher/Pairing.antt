-- ===== src/Edge/Matcher/Pairing.antt =====
-- crates/fortis-edge/src/swap/matcher.rs: `pair`, `match_offer`, `take_private` and `take_public`.
-- `fresh` is the id that `new_id` draws, `none` where the random source fails.
use fortis.Common.{
  ℕ, Bool, not, ◌&&◌, ◌||◌, Option, none, some, List, [], ◌∷◌, keep, any, sort_by, ltb, leb, ◌==◌,
  if◌then◌else◌, Result, ok, err, u32_mod,
}
use fortis.Terms.{btc_for_xbt, network_params, min_btc_leg_sat}
use fortis.Edge.Records.{Direction, xbt_to_btc, btc_to_xbt, opposite, same_direction, Offer, Match}
use fortis.Edge.Store.{
  Db, Store, M, ◌>>=◌, ◌>>◌, return, fail, bail_if, reads, put_offer, offer, open_offers,
  offer_by_code, put_match, EdgeError, zero_price, not_opposite, clock_out_of_range,
  unknown_share_code, not_available, same_way, own_offer, below_minimum, is_private, no_offer,
  price_changed,
}
use fortis.Edge.Matcher.{
  Config, matchable, offers_cross, settle, fill_xbt, xbt_for_btc, terms_for, match_for, ordered,
  or_bad_network, or_csprng,
}

abbrev pub or_error : {A : Type 0} → Option A → EdgeError → Result EdgeError A
or_error none e = err e
or_error (some a) e = ok a

-- The price of whichever offer rested first, the candidate's on a tie.
unfoldable pub resting_price : Offer → Offer → ℕ
resting_price incoming cand =
    if ltb incoming.created_at cand.created_at
    then incoming.price_sat_per_xbt
    else cand.price_sat_per_xbt

unfoldable pub eligible : Offer → List ℕ → ℕ → Offer → Bool
eligible incoming barred now cand =
    not cand.private
    && (matchable cand now
        && (not (cand.token == incoming.token)
            && (not (any (λ id. id == cand.id) barred) && offers_cross incoming cand)))

-- A seller wants the highest bid, a buyer the lowest ask; then the oldest.
unfoldable pub better : Direction → Offer → Offer → Bool
better d x y =
    if x.price_sat_per_xbt == y.price_sat_per_xbt then leb x.created_at y.created_at else elim d [
      | xbt_to_btc ↦ ltb y.price_sat_per_xbt x.price_sat_per_xbt
      | btc_to_xbt ↦ ltb x.price_sat_per_xbt y.price_sat_per_xbt
    ]

module _ (db : Db) where
  -- The match is stored first, then both offers with what the match took off.
  unfoldable pub store_pair : Match → Offer → Offer → ℕ → M db (Option Match)
  store_pair m init part price = do
    put_match db m
    put_offer db (settle init m.terms.xbt_sat (m.terms.xbt_sat == init.amount_sat) m.id)
    put_offer db
        (settle part m.terms.btc_sat (m.terms.xbt_sat == xbt_for_btc part.amount_sat price) m.id)
    return (some m)

  unfoldable pub candidates : Store db → Offer → List ℕ → ℕ → List Offer
  unfolding eligible better
  candidates s incoming barred now =
      sort_by (better incoming.direction)
        (keep (eligible incoming barred now) (open_offers db s (opposite incoming.direction)))

  -- The stored offer, if it still stands there.
  unfoldable pub current : Store db → Offer → Offer
  current s o = elim (offer db s o.id) [ none ↦ o | some p ↦ p ]

module _ (db : Db) (c : Config) where
  -- A fill of at least the minimum size.
  unfoldable pub fill : Option ℕ → Offer → Offer → (xbt_sat price now : ℕ) → M db (Option Match)
  unfolding store_pair
  fill fresh init part xbt_sat price now = do
    params ← reads (λ _. or_bad_network (network_params c.network))
    bail_if (leb u32_mod now) clock_out_of_range
    id ← reads (λ _. or_csprng fresh)
    store_pair db (match_for id (terms_for c id xbt_sat price now params) init part) init part price

  unfoldable pub pair_ordered : Option ℕ → Offer → Offer → (price now : ℕ) → M db (Option Match)
  pair_ordered fresh init part price now =
      let xbt_sat = fill_xbt c init part price in
      if ltb (btc_for_xbt xbt_sat price) min_btc_leg_sat
      then return none
      else fill fresh init part xbt_sat price now

  unfoldable pub pair : Option ℕ → Offer → Offer → (price now : ℕ) → M db (Option Match)
  pair fresh a b price now = do
    let init = (ordered a b).0
    let part = (ordered a b).1
    bail_if (price == 0) zero_price
    bail_if
        (not (same_direction init.direction xbt_to_btc)
          || not (same_direction part.direction btc_to_xbt))
        not_opposite
    pair_ordered fresh init part price now

  -- The loop over the candidates: the first that gives a match ends it.
  unfoldable pub try_candidates : Option ℕ → Offer → ℕ → List Offer → M db (Option Match)
  try_candidates fresh incoming now [] = return none
  try_candidates fresh incoming now (cand ∷ cands) =
      let rest = try_candidates fresh incoming now cands in
      do
        r ← pair fresh incoming cand (resting_price incoming cand) now
        elim r [ some m ↦ return (some m) | none ↦ rest ]

  unfoldable pub match_current : Option ℕ → Offer → List ℕ → ℕ → M db (Option Match)
  match_current fresh o barred now s =
      if not (matchable o now)
      then (s, ok none)
      else try_candidates fresh o now (candidates db s o barred now) s

  unfoldable pub match_locked : Option ℕ → Offer → List ℕ → ℕ → M db (Option Match)
  match_locked fresh incoming barred now s =
      match_current fresh (current db s incoming) barred now s

  unfoldable pub match_offer : Option ℕ → Offer → ℕ → M db (Option Match)
  match_offer fresh incoming now = match_locked fresh incoming [] now

  or_below_minimum : Option Match → M db Match
  or_below_minimum none = fail below_minimum
  or_below_minimum (some m) = return m

  unfoldable pub take_private : Option ℕ → (code : ℕ) → Offer → ℕ → M db Match
  unfolding or_below_minimum
  take_private fresh code taker now = do
    maker ← reads (λ s. or_error (offer_by_code db s code) unknown_share_code)
    bail_if (not (matchable maker now)) not_available
    bail_if (same_direction maker.direction taker.direction) same_way
    bail_if (maker.token == taker.token) own_offer
    r ← pair fresh taker maker maker.price_sat_per_xbt now
    or_below_minimum r

  unfoldable pub take_public : Option ℕ → (offer_id : ℕ) → Offer → ℕ → M db Match
  unfolding or_below_minimum
  take_public fresh offer_id taker now = do
    maker ← reads (λ s. or_error (offer db s offer_id) no_offer)
    bail_if maker.private is_private
    bail_if (not (matchable maker now)) not_available
    bail_if (same_direction maker.direction taker.direction) same_way
    bail_if (maker.token == taker.token) own_offer
    bail_if (not (maker.price_sat_per_xbt == taker.price_sat_per_xbt)) price_changed
    r ← pair fresh taker maker maker.price_sat_per_xbt now
    or_below_minimum r
