-- ===== src/Tests/EdgeRuns.antt =====
-- A book of two offers, as the tests of crates/fortis-edge/src/swap/matcher.rs build them: 20,000,000
-- XBT sats asked against a bid of 500,000 BTC sats at 0.01 BTC for one XBT.
use fortis.Common.{
  ℕ, ◌+◌, ◌-◌, ◌≡◌, refl, ◌≢◌, inl, inr, false, none, some, [], ◌∷◌, ok, arith, any, keep, sort_by,
  Bool-cases, ◌==◌,
}
use fortis.Chain.{bitcoin, blake2b}
use fortis.Terms.{btc_for_xbt, network_params}
use fortis.Edge.Table.{assoc_table}
use fortis.Edge.Records.{Offer, opened, xbt_to_btc, btc_to_xbt, Match, opposite}
use fortis.Edge.Store.{Db, Store, put_offer, offer, all_offers, open_offers, put_match, get_match}
use fortis.Edge.Store.Offers.{IsConsistent, put_offer-IsConsistent}
use fortis.Edge.Matcher.{
  Config, settle, fill_xbt, xbt_for_btc, terms_for, match_for, ordered, matchable, offers_cross,
}
use fortis.Edge.Matcher.Pairing.{
  pair, pair_ordered, fill, store_pair, match_offer, match_locked, match_current, try_candidates,
  candidates, resting_price, current,
}
use fortis.Edge.Matcher.Closing.{cancel_match, reopen, closed_match}
use fortis.Edge.Matcher.Agreed.{Fits, pair-Fits}
use fortis.Edge.Matcher.Picks.{UnderIds, IsStored, AreNamed, IsFair, match_locked-IsFair}
use fortis.Edge.Matcher.Restore.{cancel-pair}

abbrev db : Db
db = record {
  offers = assoc_table;
  matches = assoc_table;
  strikes = assoc_table;
  tags = assoc_table;
}

abbrev empty : Store db
empty = record { offers = []; matches = []; strikes = []; tags = [] }

abbrev config : Config
config = record { max_btc_sat = 1_000_000; network = "bitcoin"; fee_address = "bc1qfee" }

abbrev now : ℕ
now = 1_800_000_000

abbrev ask : Offer
ask = record {
  id = 1;
  token = 11;
  secret_hash = 111;
  direction = xbt_to_btc;
  amount_sat = 20_000_000;
  price_sat_per_xbt = 1_000_000;
  created_at = now - 100;
  expires_at = now + 86_400;
  private = false;
  share_code = none;
  status = opened;
  match_id = none;
  client_id = none;
  recovery_tag = none;
}

abbrev bid : Offer
bid = record ask {
  id = 2;
  token = 22;
  direction = btc_to_xbt;
  amount_sat = 500_000;
  created_at = now - 50;
  recovery_tag = some 7;
}

abbrev book : Store db
book = record empty { offers = (1, ask) ∷ (2, bid) ∷ []; tags = (7, 2) ∷ [] }

abbrev made : Match
made = match_for 99 (terms_for config 99 20_000_000 1_000_000 now (bitcoin, blake2b)) ask bid

pair_makes : (pair db config (some 99) ask bid 1_000_000 now book).1 ≡ ok (some made)
unfolding pair pair_ordered fill store_pair ordered fill_xbt xbt_for_btc btc_for_xbt network_params
    put_offer put_match settle match_for terms_for
pair_makes = refl

match_offer_makes : (match_offer db config (some 99) bid now book).1 ≡ ok (some made)
unfolding match_offer match_locked match_current try_candidates candidates current matchable
    offers_cross offer all_offers open_offers resting_price opposite any keep sort_by pair
    pair_ordered fill store_pair ordered fill_xbt xbt_for_btc btc_for_xbt network_params put_offer
    put_match settle match_for terms_for
match_offer_makes = refl

pair-Fits_example : Fits config ask bid made
unfolding ordered
pair-Fits_example = pair-Fits db config (some 99) ask bid 1_000_000 now book made pair_makes

book-UnderIds : UnderIds db book
unfolding offer
book-UnderIds k o h = elim (Bool-cases (1 == k)) [
  | inl e ↦ ground (arith, e, h)
  | inr e ↦ elim (Bool-cases (2 == k)) [
    | inl f ↦ ground (arith, e, f, h)
    | inr f ↦ absurd (ground (arith, e, f, h))
  ]
]

match_locked-IsFair_example :
    (cand : Offer) × IsStored db book cand
    × AreNamed (current db book bid) cand made
    × IsFair config (some 99) (current db book bid) cand [] now made
match_locked-IsFair_example =
    match_locked-IsFair db config (some 99) bid [] now book made book-UnderIds
      (unfold match_offer in match_offer_makes)

cancel-pair_example :
    let (t, r) =
      cancel_match db made
        (now + 121)
        reopen
        reopen
        (pair db config (some 99) ask bid 1_000_000 now book).0 in
    (r ≡ ok tt)
    × (offer db t 1 ≡ some ask)
    × (offer db t 2 ≡ some bid)
    × ((k : ℕ) → k ≢ 1 → k ≢ 2 → offer db t k ≡ offer db book k)
    × (get_match db t 99 ≡ some (closed_match made (now + 121)))
unfolding ordered match_for
cancel-pair_example =
    cancel-pair db config (some 99) ask bid 1_000_000 now (now + 121) book made pair_makes
      (record { on_book = refl; unmatched = refl; fits = omega arith; tagged = inl refl })
      (record {
        on_book = refl;
        unmatched = refl;
        fits = omega arith;
        tagged = inr (7, refl, refl);
      })
      (omega arith)

empty-IsConsistent : IsConsistent db empty
unfolding offer
empty-IsConsistent = record { under_id = λ k o e. cc; holds_tag = λ k o t e f. cc }

put_offer-IsConsistent_example : IsConsistent db (put_offer db bid empty).0
put_offer-IsConsistent_example = put_offer-IsConsistent db bid empty empty-IsConsistent
