-- ===== src/Tests/RematchRuns.antt =====
-- A book where no ask meets a bid, as a test of crates/fortis-edge/src/swap/matcher.rs builds it.
use fortis.Common.{ℕ, ◌+◌, ◌-◌, ◌≡◌, refl, true, false, none, List, [], ◌∷◌}
use fortis.Edge.Records.{Offer, opened, xbt_to_btc, btc_to_xbt, opposite}
use fortis.Edge.Matcher.{matchable, offers_cross, crosses}
use fortis.Edge.Matcher.Rematch.{best_from, or_better, could_cross}

abbrev now : ℕ
now = 1_800_000_000

abbrev offer_at : ℕ → ℕ → Offer
offer_at id price = record {
  id = id;
  token = id;
  secret_hash = id;
  direction = xbt_to_btc;
  amount_sat = 20_000_000;
  price_sat_per_xbt = price;
  created_at = now - 100 + id;
  expires_at = now + 86_400;
  private = false;
  share_code = none;
  status = opened;
  match_id = none;
  client_id = none;
  recovery_tag = none;
}

abbrev bid_at : ℕ → ℕ → Offer
bid_at id price = record (offer_at id price) { direction = btc_to_xbt }

abbrev apart : List Offer
apart = offer_at 1 2_000_000 ∷ bid_at 2 1_000_000 ∷ offer_at 3 2_000_001 ∷ bid_at 4 999_999 ∷ []

tried : could_cross now (bid_at 5 2_000_000 ∷ apart) (offer_at 1 2_000_000) ≡ true
unfolding could_cross best_from or_better matchable offers_cross crosses opposite
tried = refl
