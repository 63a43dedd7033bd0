-- ===== src/Edge/Matcher/Rematch.antt =====
-- crates/fortis-edge/src/swap/matcher.rs: `rematch`, which tries the offers left open together.
use fortis.Common.{
  ℕ, suc, ◌≤◌, Bool, false, not, ◌&&◌, Option, none, some, List, [], ◌∷◌, ltb, leb, ◌==◌,
  if◌then◌else◌, keep, sort_by,
}
use fortis.Edge.Records.{
  Direction, xbt_to_btc, btc_to_xbt, opposite, same_direction, is_open, is_cancelled, Offer, Match,
}
use fortis.Edge.Store.{Db, Store, all_offers, all_matches}
use fortis.Edge.Matcher.{Config, matchable, offers_cross}
use fortis.Edge.Matcher.Pairing.{match_locked}

-- The best price so far of a direction: the highest bid or the lowest ask, the first on a tie.
unfoldable pub or_better : Direction → Option Offer → Offer → Option Offer
or_better d none c = some c
or_better btc_to_xbt (some b) c =
    if leb c.price_sat_per_xbt b.price_sat_per_xbt then some b else some c
or_better xbt_to_btc (some b) c =
    if leb b.price_sat_per_xbt c.price_sat_per_xbt then some b else some c

abbrev pub counts : Direction → ℕ → Offer → Bool
counts d now c = same_direction c.direction d && matchable c now

unfoldable pub best_from : Direction → ℕ → Option Offer → List Offer → Option Offer
best_from d now acc [] = acc
best_from d now acc (c ∷ cs) =
    best_from d now (if counts d now c then or_better d acc c else acc) cs

-- Whether an offer crosses the best opposite one.
unfoldable pub could_cross : ℕ → List Offer → Offer → Bool
could_cross now book o = elim (best_from (opposite o.direction) now none book) [
  | none ↦ false
  | some c ↦ offers_cross o c
]

-- An offer of a direction is no better than the best found.
abbrev NoBetter : Direction → Option Offer → Offer → Type 0
NoBetter d none c = ⊥
NoBetter btc_to_xbt (some b) c = c.price_sat_per_xbt ≤ b.price_sat_per_xbt
NoBetter xbt_to_btc (some b) c = b.price_sat_per_xbt ≤ c.price_sat_per_xbt

-- The offers that were cancelled together with an offer.
unfoldable pub barred_for : List Match → Offer → List ℕ
barred_for [] o = []
barred_for (m ∷ ms) o =
    let rest = barred_for ms o in
    if m.initiator_offer == o.id
    then m.participant_offer ∷ rest
    else if m.participant_offer == o.id
    then m.initiator_offer ∷ rest
    else rest

unfoldable pub older : Offer → Offer → Bool
older a b = if a.created_at == b.created_at then leb a.id b.id else ltb a.created_at b.created_at

module _ (db : Db) (c : Config) (fresh : ℕ → Option ℕ) (now : ℕ) where
  -- Each offer in turn, with the id that is drawn for it; an error is logged and the store kept
  -- as it was left.
  rematch_each : ℕ → List Match → List Offer → Store db → Store db
  rematch_each i cancelled [] s = s
  rematch_each i cancelled (o ∷ os) s =
      rematch_each (suc i) cancelled os
        (match_locked db c (fresh i) o (barred_for cancelled o) now s).0

  unfoldable pub rematch : Store db → Store db
  unfolding rematch_each older
  rematch s =
      let open_public =
        sort_by older (keep (λ o. is_open o.status && not o.private) (all_offers db s)) in
      rematch_each 0 (keep (λ m. is_cancelled m.status) (all_matches db s))
        (keep (could_cross now open_public) open_public) s
