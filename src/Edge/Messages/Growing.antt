-- ===== src/Edge/Messages/Growing.antt =====
-- crates/fortis-edge/src/swap/mod.rs: over `post_message`, with whatever other requests do meanwhile,
-- a match keeps what it records.
use fortis.Common.{
  ℕ, ◌≡◌, refl, ap, ◌∙◌, inl, inr, not, ◌||◌, Option, none, some, Result, ok, err, Bool-cases,
  Option-cases,
}
use fortis.Terms.{SwapRole}
use fortis.Edge.Records.{Match, Offer}
use fortis.Edge.Store.{Db, Store, M, EdgeError, put_offer, offer, get_match, put_match, after}
use fortis.Edge.Store.Offers.{put_offer_cases, refused, held, claimed}
use fortis.Edge.Matcher.Closing.{
  on_decline, cancel_match, release, write_released, Release, closed_match, is_proposed, on_side,
  is_none,
}
use fortis.Edge.Messages.Kept.{Kept, Grows, Grows-refl, Grows-trans, same-Grows, put_match-Grows}
use fortis.Edge.Messages.Steps.{slots-Kept, same, both}

module _ (db : Db) where
  put_offer-matches : (o : Offer) (s : Store db) → (put_offer db o s).0.matches ≡ s.matches
  put_offer-matches o s = elim (put_offer_cases db o s) [
    | refused t k e f n g ↦ ap (λ r. r.0.matches) g
    | held h g ↦ ap (λ r. r.0.matches) g
    | claimed t e f g ↦ ap (λ r. r.0.matches) g
  ]

  write_released-matches :
      (x : Option Offer) (s : Store db) → (write_released db x s).0.matches ≡ s.matches
  unfolding write_released
  write_released-matches none s = refl
  write_released-matches (some o) s = put_offer-matches o s

  release-matches :
      (m : Match) (id pre consumed : ℕ) (how : Release) (s : Store db)
      → (release db m id pre consumed how s).0.matches ≡ s.matches
  unfolding release
  release-matches m id pre consumed how s = elim (Option-cases (offer db s id)) [
    | inl e ↦ rw (e, release) refl
    | inr (o, e) ↦ rw (e, release) (write_released-matches _ s)
  ]

  after-matches :
      (x : Store db × Result EdgeError (Unit {0})) (k : Unit {0} → M db (Unit {0}))
      → ((u : Unit {0}) (s : Store db) → (k u s).0.matches ≡ s.matches)
      → (after k x).0.matches ≡ x.0.matches
  after-matches (s, ok u) k h = h u s
  after-matches (s, err e) k h = refl

  closed_match-Kept : (m : Match) (now : ℕ) → Kept m (closed_match m now)
  closed_match-Kept m now =
      slots-Kept m _ refl refl (both m.keys.0 m.keys.1) (same m.hashlock)
        (both m.xbt_funding m.btc_funding) (both m.release_txs m.release_sigs)

  cancel_match-Grows :
      (m : Match) (now : ℕ) (a b : Release) (s : Store db) (id : ℕ)
      → get_match db s id ≡ some m
      → Grows s (cancel_match db m now a b s).0
  unfolding cancel_match put_match
  cancel_match-Grows m now a b s id e =
      let c = closed_match m now in
      let s1 = (put_match db c s).0 in
      Grows-trans s s1 _ (put_match-Grows s id m c e (closed_match-Kept m now)) (
        same-Grows s1 _ (
          after-matches (release db c m.initiator_offer m.pre_match_amounts.0 m.terms.xbt_sat a s1)
            (λ _. release db c m.participant_offer m.pre_match_amounts.1 m.terms.btc_sat b)
            (λ _ x. release-matches c m.participant_offer m.pre_match_amounts.1 m.terms.btc_sat b x)
          ∙ release-matches c m.initiator_offer m.pre_match_amounts.0 m.terms.xbt_sat a s1))

  pub on_decline-Grows :
      (id : ℕ) (role : SwapRole) (now : ℕ) (s : Store db) → Grows s (on_decline db id role now s).0
  unfolding on_decline
  on_decline-Grows id role now s = elim (Option-cases (get_match db s id)) [
    | inl e ↦ rw (e, on_decline) (Grows-refl s)
    | inr (m, e) ↦
        elim (Bool-cases (not (is_proposed db m.status) || not (is_none m.xbt_funding))) [
          | inl h ↦ rw (e, h, on_decline) (Grows-refl s)
          | inr h ↦
              rw (e, h, on_decline)
                (cancel_match-Grows m now (on_side db role).0 (on_side db role).1 s id e)
        ]
  ]
