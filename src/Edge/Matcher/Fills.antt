-- ===== src/Edge/Matcher/Fills.antt =====
-- crates/fortis-edge/src/swap/matcher.rs: the amounts and the terms of a match.
use native.Mathlib.Nat.{div-mul-le_self, mul-le-mul_right}
use fortis.Common.{
  ℕ, ◌*◌, ◌/◌, ◌≤◌, ◌<◌, ◌≡◌, refl, Option, none, some, Result, ok, err, arith, u32_mod,
}
use fortis.Chain.{ChainParams}
use fortis.Terms.{btc_for_xbt, network_params, min_btc_leg_sat, sat_per_coin}
use fortis.Error.{WalletError}
use fortis.Edge.Records.{xbt_to_btc, btc_to_xbt, Offer, Match}
use fortis.Edge.Store.{Db, Store}
use fortis.Edge.Matcher.{Config, fill_xbt, xbt_for_btc, terms_for, match_for, ordered}
use fortis.Edge.Matcher.Pairing.{store_pair, fill, pair_ordered, pair}

-- Selling back what an amount of BTC buys never costs more than that amount.
pub btc_for_xbt-xbt_for_btc : (b p : ℕ) → btc_for_xbt (xbt_for_btc b p) p ≤ b
unfolding btc_for_xbt xbt_for_btc
btc_for_xbt-xbt_for_btc b p =
    omega (arith, mul-le-mul_right p (low b p), div-mul-le_self (b * sat_per_coin) p)
  where
    low : (b p : ℕ) → xbt_for_btc b p ≤ b * sat_per_coin / p
    low b p = omega arith

module _ (db : Db) where
  store_pair_returns :
      (m : Match) (init part : Offer) (price : ℕ) (s : Store db) (n : Match)
      → (store_pair db m init part price s).1 ≡ ok (some n)
      → n ≡ m
  unfolding store_pair
  store_pair_returns m init part price s n h = ground arith

-- What a match that `pair` returns is made of.
pub record IsFill (c : Config) (fresh : Option ℕ) (init part : Offer) (price now : ℕ) (m : Match)
    : Type 0 where
  pub id : ℕ
  pub params : ChainParams × ChainParams
  pub drawn : fresh ≡ some id
  pub on_network : network_params c.network ≡ ok params
  pub in_range : now < u32_mod
  pub made :
      m ≡ match_for id (terms_for c id (fill_xbt c init part price) price now params) init part
  pub large_enough : min_btc_leg_sat ≤ btc_for_xbt (fill_xbt c init part price) price
  pub has_price : 0 < price
  pub sells : init.direction ≡ xbt_to_btc
  pub buys : part.direction ≡ btc_to_xbt

module _ (db : Db) (c : Config) (fresh : Option ℕ) (price now : ℕ) where
  fill-IsFill :
      (init part : Offer) (s : Store db) (m : Match)
      → (fill db c fresh init part (fill_xbt c init part price) price now s).1 ≡ ok (some m)
      → min_btc_leg_sat ≤ btc_for_xbt (fill_xbt c init part price) price
      → 0 < price
      → init.direction ≡ xbt_to_btc
      → part.direction ≡ btc_to_xbt
      → IsFill c fresh init part price now m
  unfolding fill
  fill-IsFill init part s m h large p d e = go (network_params c.network) refl fresh refl
    where
      go :
          (r : Result WalletError (ChainParams × ChainParams))
          → network_params c.network ≡ r
          → (f : Option ℕ) → fresh ≡ f
          → IsFill c fresh init part price now m
      go (err x) nh f fh = ground (arith, nh)
      go (ok params) nh none fh = ground (arith, nh)
      go (ok params) nh (some id) fh = record {
        id = id;
        params = params;
        drawn = fh;
        on_network = nh;
        in_range = ground (arith, nh, fh);
        made = ground (
          arith,
          nh,
          fh,
          store_pair_returns db
              (match_for id (terms_for c id (fill_xbt c init part price) price now params) init
                part)
              init part price s m,
        );
        large_enough = large;
        has_price = p;
        sells = d;
        buys = e;
      }

  pair_ordered-IsFill :
      (init part : Offer) (s : Store db) (m : Match)
      → (pair_ordered db c fresh init part price now s).1 ≡ ok (some m)
      → 0 < price
      → init.direction ≡ xbt_to_btc
      → part.direction ≡ btc_to_xbt
      → IsFill c fresh init part price now m
  unfolding pair_ordered
  pair_ordered-IsFill init part s m h = fill-IsFill init part s m (ground arith) (ground arith)

  pub pair-IsFill :
      (a b : Offer) (s : Store db) (m : Match)
      → (pair db c fresh a b price now s).1 ≡ ok (some m)
      → IsFill c fresh (ordered a b).0 (ordered a b).1 price now m
  unfolding pair
  pair-IsFill a b s m h =
      pair_ordered-IsFill (ordered a b).0 (ordered a b).1 s m (ground arith) (ground arith)
        (ground arith) (ground arith)

  fill_stored :
      (init part : Offer) (s : Store db) (m : Match)
      → (fill db c fresh init part (fill_xbt c init part price) price now s).1 ≡ ok (some m)
      → fill db c fresh init part (fill_xbt c init part price) price now s
        ≡ store_pair db m init part price s
  unfolding fill
  fill_stored init part s m h = go (network_params c.network) refl fresh refl
    where
      go :
          (r : Result WalletError (ChainParams × ChainParams))
          → network_params c.network ≡ r
          → (f : Option ℕ) → fresh ≡ f
          → fill db c fresh init part (fill_xbt c init part price) price now s
            ≡ store_pair db m init part price s
      go (err x) nh f fh = ground (arith, nh)
      go (ok params) nh none fh = ground (arith, nh)
      go (ok params) nh (some id) fh =
          let k =
            match_for id (terms_for c id (fill_xbt c init part price) price now params) init part in
          ground (arith, nh, fh, store_pair_returns db k init part price s m)

  -- A match that `pair` returns is stored, with the two offers less what it took.
  pub pair_stored :
      (a b : Offer) (s : Store db) (m : Match)
      → (pair db c fresh a b price now s).1 ≡ ok (some m)
      → pair db c fresh a b price now s ≡ store_pair db m (ordered a b).0 (ordered a b).1 price s
  unfolding pair pair_ordered
  pair_stored a b s m h = ground (arith, fill_stored (ordered a b).0 (ordered a b).1 s m)
