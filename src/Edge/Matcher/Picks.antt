-- ===== src/Edge/Matcher/Picks.antt =====
-- crates/fortis-edge/src/swap/matcher.rs: which offers `match_locked` pairs, and at what price.
use fortis.Common.{
  ℕ, ◌≤◌, ◌≡◌, refl, ◌≢◌, true, false, Option, none, some, List, [], ◌∷◌, All, Result, ok, err,
  arith, any, ◌==◌, ◌∙◌, sym, ap, subst, Bool-cases, All-keep, keep-All, All-sort_by, All-zip,
  map-All, All-impl, inl, inr, ◌<◌,
}
use fortis.Terms.{max_price_sat_per_xbt}
use fortis.Edge.Records.{Direction, xbt_to_btc, btc_to_xbt, Offer, Match}
use fortis.Edge.Store.{Db, Store, after, EdgeError, all_offers, open_offers, offer}
use fortis.Edge.Matcher.{Config, matchable, offers_cross, ordered, crosses, terms_for, match_for}
use fortis.Edge.Matcher.Pairing.{
  pair, try_candidates, candidates, eligible, resting_price, current, match_current, match_locked,
}
use fortis.Edge.Matcher.Fills.{IsFill, pair-IsFill}

-- A candidate with a property that all candidates have, and the fill of the two.
pub record IsPick (c : Config) (fresh : Option ℕ) (o : Offer) (now : ℕ) (P : Offer → Type 0)
    (m : Match) : Type 0 where
  pub cand : Offer
  pub holds : P cand
  pub paired : IsFill c fresh (ordered o cand).0 (ordered o cand).1 (resting_price o cand) now m

-- Every offer stands under its own id.
abbrev pub UnderIds : (db : Db) → Store db → Type 0
UnderIds db s = (k : ℕ) (x : Offer) → offer db s k ≡ some x → x.id ≡ k

-- An offer of the book, as it is stored.
abbrev pub IsStored : (db : Db) → Store db → Offer → Type 0
IsStored db s x = offer db s x.id ≡ some x

all_offers-IsStored :
    (db : Db) (s : Store db) → UnderIds db s → All (IsStored db s) (all_offers db s)
unfolding all_offers offer
all_offers-IsStored db s ids =
    map-All (IsStored db s) (λ e. e.1) (db.offers.entries s.offers)
      (All-impl (λ e. db.offers.get s.offers e.0 ≡ some e.1) (λ e. IsStored db s e.1) _
        (λ e h. subst (λ k. db.offers.get s.offers k ≡ some e.1) (sym (ids e.0 e.1 h)) h)
        (db.offers.entries_stored s.offers))

-- The candidates are eligible, and have what every stored offer has.
candidates_hold :
    (db : Db) (s : Store db) (o : Offer) (barred : List ℕ) (now : ℕ) (P : Offer → Type 0)
    → All P (all_offers db s)
    → All (λ x. (eligible o barred now x ≡ true) × P x) (candidates db s o barred now)
unfolding candidates open_offers
candidates_hold db s o barred now P h =
    All-sort_by (λ x. (eligible o barred now x ≡ true) × P x) _ _
      (All-zip (λ x. eligible o barred now x ≡ true) P _ (keep-All (eligible o barred now) _)
        (All-keep P _ _ (All-sort_by P _ _ (All-keep P _ _ h))))

module _ (db : Db) (c : Config) (fresh : Option ℕ) (o : Offer) (now : ℕ) (P : Offer → Type 0) where
  try_candidates-IsPick :
      (cands : List Offer) (s : Store db) (m : Match)
      → All P cands
      → (try_candidates db c fresh o now cands s).1 ≡ ok (some m)
      → IsPick c fresh o now P m
  unfolding try_candidates
  try_candidates-IsPick [] s m e h = cc
  try_candidates-IsPick (x ∷ xs) s m e h =
      go (pair db c fresh o x (resting_price o x) now s) refl h (try_candidates-IsPick xs)
    where
      go :
          (r : Store db × Result EdgeError (Option Match))
          → pair db c fresh o x (resting_price o x) now s ≡ r
          → (after
              (λ q. elim q [
                | some k ↦ λ t. (t, ok (some k))
                | none ↦ try_candidates db c fresh o now xs
              ])
              r).1
            ≡ ok (some m)
          → ((t : Store db) (k : Match)
              → All P xs
              → (try_candidates db c fresh o now xs t).1 ≡ ok (some k)
              → IsPick c fresh o now P k)
          → IsPick c fresh o now P m
      go (t, err x') p g rec = cc
      go (t, ok none) p g rec = rec t m e.1 g
      go (t, ok (some k)) p g rec = record {
        cand = x;
        holds = e.0;
        paired = pair-IsFill db c fresh (resting_price o x) now o x s m (ap (λ q. q.1) p ∙ g);
      }

module _ (db : Db) (c : Config) (fresh : Option ℕ) (o : Offer) (barred : List ℕ) (now : ℕ) where
  match_current-IsPick :
      (P : Offer → Type 0) (s : Store db) (m : Match)
      → All P (all_offers db s)
      → (match_current db c fresh o barred now s).1 ≡ ok (some m)
      → (matchable o now ≡ true)
        × IsPick c fresh o now (λ x. (eligible o barred now x ≡ true) × P x) m
  unfolding match_current
  match_current-IsPick P s m a h = elim (Bool-cases (matchable o now)) [
    | inl p ↦ (
      p,
      try_candidates-IsPick db c fresh o now (λ x. (eligible o barred now x ≡ true) × P x)
          (candidates db s o barred now) s m (candidates_hold db s o barred now P a)
          (ground (arith, p)),
    )
    | inr p ↦ absurd (ground (arith, p))
  ]

-- What a pick keeps: each side's own limit, and that the two offers are of different tokens, both
-- on the book, public on the candidate's side, and not barred from one another.
pub record IsFair (c : Config) (fresh : Option ℕ) (o cand : Offer) (barred : List ℕ) (now : ℕ)
    (m : Match) : Type 0 where
  pub public : cand.private ≡ false
  pub on_book : matchable o now ≡ true
  pub cand_on_book : matchable cand now ≡ true
  pub other_token : cand.token ≢ o.token
  pub not_barred : any (λ id. id == cand.id) barred ≡ false
  pub seller_limit : (ordered o cand).0.price_sat_per_xbt ≤ m.terms.price_sat_per_xbt
  pub buyer_limit : m.terms.price_sat_per_xbt ≤ (ordered o cand).1.price_sat_per_xbt
  pub paired : IsFill c fresh (ordered o cand).0 (ordered o cand).1 m.terms.price_sat_per_xbt now m

fill_price :
    {c : Config} {fresh : Option ℕ} {init part : Offer} {price now : ℕ} {m : Match}
    → IsFill c fresh init part price now m
    → m.terms.price_sat_per_xbt ≡ price
unfolding terms_for match_for
fill_price f = ap (λ k. k.terms.price_sat_per_xbt) f.made

-- The match names its two offers.
abbrev pub AreNamed : Offer → Offer → Match → Type 0
AreNamed o cand m =
    (m.initiator_offer ≡ (ordered o cand).0.id) × (m.participant_offer ≡ (ordered o cand).1.id)

fill-AreNamed :
    {c : Config} {fresh : Option ℕ} {price now : ℕ} {m : Match} (o cand : Offer)
    → IsFill c fresh (ordered o cand).0 (ordered o cand).1 price now m
    → AreNamed o cand m
unfolding match_for
fill-AreNamed o cand f = (ap (λ k. k.initiator_offer) f.made, ap (λ k. k.participant_offer) f.made)

resting_limits :
    (o cand : Offer)
    → offers_cross o cand ≡ true
    → ((ordered o cand).0.price_sat_per_xbt ≤ resting_price o cand)
      × (resting_price o cand ≤ (ordered o cand).1.price_sat_per_xbt)
unfolding offers_cross ordered resting_price crosses
resting_limits o cand h = go o.direction refl
  where
    go :
        (d : Direction)
        → o.direction ≡ d
        → ((ordered o cand).0.price_sat_per_xbt ≤ resting_price o cand)
          × (resting_price o cand ≤ (ordered o cand).1.price_sat_per_xbt)
    go xbt_to_btc e = ground (arith, e)
    go btc_to_xbt e = ground (arith, e)

eligible_parts :
    (o : Offer) (barred : List ℕ) (now : ℕ) (x : Offer)
    → eligible o barred now x ≡ true
    → (x.private ≡ false)
      × (matchable x now ≡ true)
      × (x.token ≢ o.token)
      × (any (λ id. id == x.id) barred ≡ false)
      × (offers_cross o x ≡ true)
unfolding eligible
eligible_parts o barred now x h = ground arith

pick-IsFair :
    {c : Config} {fresh : Option ℕ} {o : Offer} {barred : List ℕ} {now : ℕ} {m : Match}
    {P : Offer → Type 0}
    → matchable o now ≡ true
    → (k : IsPick c fresh o now (λ x. (eligible o barred now x ≡ true) × P x) m)
    → IsFair c fresh o k.cand barred now m
pick-IsFair {c} {fresh} {o} {barred} {now} {m} p k =
    let e = eligible_parts o barred now k.cand k.holds.0 in
    let price = fill_price k.paired in
    record {
      public = e.0;
      on_book = p;
      cand_on_book = e.1;
      other_token = e.2;
      not_barred = e.3;
      seller_limit = rw price (resting_limits o k.cand e.4).0;
      buyer_limit = rw price (resting_limits o k.cand e.4).1;
      paired =
          subst (λ x. IsFill c fresh (ordered o k.cand).0 (ordered o k.cand).1 x now m) (sym price)
            k.paired;
    }

-- A match that `match_locked` makes, in a book that holds each offer under its id, pairs the incoming
-- offer, as it is stored, with an offer of the book, as it is stored, that it may take, at a price
-- within the limits of both: the match names the two by their ids.
pub match_locked-IsFair :
    (db : Db) (c : Config) (fresh : Option ℕ) (incoming : Offer) (barred : List ℕ) (now : ℕ)
    (s : Store db) (m : Match)
    → UnderIds db s
    → (match_locked db c fresh incoming barred now s).1 ≡ ok (some m)
    → (cand : Offer) × IsStored db s cand
      × AreNamed (current db s incoming) cand m
      × IsFair c fresh (current db s incoming) cand barred now m
unfolding match_locked
match_locked-IsFair db c fresh incoming barred now s m ids h =
    let o = current db s incoming in
    let (p, k) =
      match_current-IsPick db c fresh o barred now (IsStored db s) s m
        (all_offers-IsStored db s ids) h in
    (k.cand, k.holds.1, fill-AreNamed o k.cand k.paired, pick-IsFair p k)

abbrev pub IsPriced : Offer → Type 0
IsPriced o = (0 < o.price_sat_per_xbt) × (o.price_sat_per_xbt ≤ max_price_sat_per_xbt)
