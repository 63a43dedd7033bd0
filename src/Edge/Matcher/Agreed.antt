-- ===== src/Edge/Matcher/Agreed.antt =====
-- crates/fortis-edge/src/swap/matcher.rs against crates/wallet-core/src/swap_terms.rs: the terms that
-- the edge proposes are terms that the wallets accept.
use fortis.Common.{
  ℕ, ◌+◌, ◌*◌, ◌≤◌, ◌<◌, ◌≡◌, refl, ◌⊎◌, inl, inr, Option, some, ok, arith, u32_mod,
}
use fortis.Chain.{ChainParams}
use fortis.Terms.{
  SwapRole, initiator, participant, btc_for_xbt, validate_terms_on, max_price_sat_per_xbt,
  max_clock_skew_secs, accept_secs, network_params, swap_timelocks, min_btc_leg_sat,
}
use fortis.Terms.Accepted.{IsAcceptable, KeepsLimit, validate_terms_on_iff, network_cases, HasLegs}
use fortis.Terms.Amounts.{btc_for_xbt_mono}
use fortis.Edge.Records.{Offer, Match}
use fortis.Edge.Store.{Db, Store}
use fortis.Edge.Matcher.{Config, ordered, terms_for, match_for, fill_xbt, xbt_for_btc}
use fortis.Edge.Matcher.Pairing.{pair}
use fortis.Edge.Matcher.Fills.{IsFill, pair-IsFill, btc_for_xbt-xbt_for_btc}

-- What the two sides give up under a match.
pub record Fits (c : Config) (init part : Offer) (m : Match) : Type 0 where
  pub initiator_has : m.terms.xbt_sat ≤ init.amount_sat
  pub participant_has : m.terms.btc_sat ≤ part.amount_sat
  pub capped : m.terms.btc_sat ≤ c.max_btc_sat
  pub large_enough : min_btc_leg_sat ≤ m.terms.btc_sat
  pub at_price : m.terms.btc_sat ≡ btc_for_xbt m.terms.xbt_sat m.terms.price_sat_per_xbt
  pub remembers : m.pre_match_amounts ≡ (init.amount_sat, part.amount_sat)

module _ (c : Config) (id x price now : ℕ) (params : ChainParams × ChainParams) where
  -- No deadline of the terms wraps in the `u32`, so they carry the legs of their network.
  terms_legs :
      network_params c.network ≡ ok params
      → now + 48 * 3600 < u32_mod
      → let t = terms_for c id x price now params in
        (c.network ≡ "bitcoin") × HasLegs t (48 * 3600) (24 * 3600)
        ⊎ (c.network ≡ "regtest") × HasLegs t 1800 600
  unfolding terms_for swap_timelocks
  terms_legs e h = elim (network_cases c.network) [
    | inl (n, p) ↦ inl (n, ground (arith, p, e))
    | inr (inl (n, p)) ↦ inr (n, ground (arith, p, e))
    | inr (inr (_, _, p)) ↦ absurd (ground (arith, p, e))
  ]

  terms_IsAcceptable :
      (limit : ℕ) (role : SwapRole) (clock : ℕ)
      → network_params c.network ≡ ok params
      → now + 48 * 3600 < u32_mod
      → min_btc_leg_sat ≤ btc_for_xbt x price
      → 0 < price
      → price ≤ max_price_sat_per_xbt
      → 0 < limit
      → KeepsLimit role price limit
      → now ≤ clock + max_clock_skew_secs
      → clock ≤ now + accept_secs
      → IsAcceptable (terms_for c id x price now params) limit role clock
  unfolding terms_for
  terms_IsAcceptable limit role clock e h large p cap l k skew due = record {
    legs = terms_legs e h;
    version = inr refl;
    dated = skew;
    has_limit = l;
    has_price = p;
    price_capped = cap;
    keeps_limit = k;
    amount = refl;
    large_enough = large;
    fee = refl;
    xbt_depth = refl;
    btc_depth = refl;
    accept_deadline = omega arith;
    fund_deadline = omega arith;
    in_time = omega arith;
  }

module _ {c : Config} {fresh : Option ℕ} {init part : Offer} {price now : ℕ} {m : Match} where
  fill_Fits : IsFill c fresh init part price now m → Fits c init part m
  unfolding terms_for match_for fill_xbt
  fill_Fits f = rw f.made (record {
    initiator_has = omega arith;
    participant_has = omega (
      arith,
      btc_for_xbt-xbt_for_btc part.amount_sat price,
      btc_for_xbt_mono {x = fill_xbt c init part price} {y = xbt_for_btc part.amount_sat price}
          {p = price} {q = price} (omega arith) (omega arith),
    );
    capped = omega (
      arith,
      btc_for_xbt-xbt_for_btc c.max_btc_sat price,
      btc_for_xbt_mono {x = fill_xbt c init part price} {y = xbt_for_btc c.max_btc_sat price}
          {p = price} {q = price} (omega arith) (omega arith),
    );
    large_enough = f.large_enough;
    at_price = refl;
    remembers = refl;
  })

  pub fill_terms_on :
      (limit : ℕ) (role : SwapRole) (clock : ℕ)
      → IsFill c fresh init part price now m
      → now + 48 * 3600 < u32_mod
      → price ≤ max_price_sat_per_xbt
      → 0 < limit
      → KeepsLimit role price limit
      → now ≤ clock + max_clock_skew_secs
      → clock ≤ now + accept_secs
      → validate_terms_on m.terms c.network limit role clock ≡ ok tt
  unfolding match_for
  fill_terms_on limit role clock f h cap l k skew due = rw f.made (
      (validate_terms_on_iff _ c.network limit role clock).1 (
        unfold terms_for in refl,
        terms_IsAcceptable c f.id (fill_xbt c init part price) price now f.params limit role clock
            f.on_network h f.large_enough f.has_price cap l k skew due,
      ))

module _ (db : Db) (c : Config) (fresh : Option ℕ) (a b : Offer) (price now : ℕ) (s : Store db)
    (m : Match) where
  -- A match takes from each side no more than its offer holds, stays within the configured maximum
  -- and above the minimum, converts at its price, and remembers the amounts before it.
  pub pair-Fits :
      (pair db c fresh a b price now s).1 ≡ ok (some m) → Fits c (ordered a b).0 (ordered a b).1 m
  pair-Fits h = fill_Fits (pair-IsFill db c fresh price now a b s m h)

  -- The terms of a match made at a price that respects both limits pass the check of both wallets,
  -- each at its own limit, from its own network, while its clock is at most the tolerance behind
  -- the edge and the accept deadline has not passed. (The clock of the edge is below 2^32 by two
  -- days, and the price below the highest one that terms may carry.)
  pair_accepted :
      (clock : ℕ)
      → (pair db c fresh a b price now s).1 ≡ ok (some m)
      → now + 48 * 3600 < u32_mod
      → price ≤ max_price_sat_per_xbt
      → 0 < (ordered a b).0.price_sat_per_xbt
      → (ordered a b).0.price_sat_per_xbt ≤ price
      → price ≤ (ordered a b).1.price_sat_per_xbt
      → now ≤ clock + max_clock_skew_secs
      → clock ≤ now + accept_secs
      → (validate_terms_on m.terms c.network (ordered a b).0.price_sat_per_xbt initiator clock
          ≡ ok tt)
        × (validate_terms_on m.terms c.network (ordered a b).1.price_sat_per_xbt participant clock
            ≡ ok tt)
  pair_accepted clock h wrap cap pos low high skew due =
      let f = pair-IsFill db c fresh price now a b s m h in
      (
        fill_terms_on (ordered a b).0.price_sat_per_xbt initiator clock f wrap cap pos low skew due,
        fill_terms_on (ordered a b).1.price_sat_per_xbt participant clock f wrap cap (omega arith)
            high skew due,
      )
