-- ===== src/Edge/Matcher/Restore.antt =====
-- crates/fortis-edge/src/swap/matcher.rs: a match that is cancelled gives the offers back.
use fortis.Common.{
  ℕ, ◌≤◌, ◌<◌, ◌≡◌, refl, ◌≢◌, Bool, Option, none, some, ok, arith, u64_mod, ◌==◌, if◌then◌else◌,
  ap, ◌∙◌, inl, inr,
}
use fortis.Edge.Records.{Offer, opened, Match}
use fortis.Edge.Store.{Db, Store, put_offer, offer, put_match, get_match}
use fortis.Edge.Store.Offers.{HoldsTag, saved, put_offer_held, offer-saved}
use fortis.Edge.Matcher.{Config, settle, xbt_for_btc, ordered, match_for}
use fortis.Edge.Matcher.Pairing.{store_pair, pair}
use fortis.Edge.Matcher.Fills.{pair_stored, pair-IsFill}
use fortis.Edge.Matcher.Agreed.{pair-Fits}
use fortis.Edge.Matcher.Closing.{
  released, reopen, release, cancel_match, closed_match, write_released,
}

-- Letting a settled offer go gives the offer from before the match.
released-settle :
    (o : Offer) (m : Match) (consumed : ℕ) (limiting : Bool)
    → o.status ≡ opened
    → o.match_id ≡ none
    → o.amount_sat < u64_mod
    → consumed ≤ o.amount_sat
    → released m o.amount_sat consumed reopen (settle o consumed limiting m.id) ≡ some o
unfolding released settle
released-settle o m consumed limiting st mi lt le = ground arith

-- An offer on the book as `match_offer` finds it.
pub record IsListed (db : Db) (s : Store db) (o : Offer) : Type 0 where
  pub on_book : o.status ≡ opened
  pub unmatched : o.match_id ≡ none
  pub fits : o.amount_sat < u64_mod
  pub tagged : HoldsTag s o

settle_id : (o : Offer) (n : ℕ) (b : Bool) (k : ℕ) → (settle o n b k).id ≡ o.id
unfolding settle
settle_id o n b k = ground arith

settle_tag : (o : Offer) (n : ℕ) (b : Bool) (k : ℕ) → (settle o n b k).recovery_tag ≡ o.recovery_tag
unfolding settle
settle_tag o n b k = ground arith

module _ (db : Db) where
  same_tags : (s t : Store db) (o : Offer) → HoldsTag s o → t.tags ≡ s.tags → HoldsTag t o
  same_tags s t o (inl g) e = inl g
  same_tags s t o (inr (u, g, f)) e = inr (u, g, rw e f)

  -- A write of an offer that holds its tag, in a store with the same tags.
  put_settled :
      (s t : Store db) (o : Offer) (n : ℕ) (b : Bool) (k : ℕ)
      → HoldsTag s o
      → t.tags ≡ s.tags
      → put_offer db (settle o n b k) t ≡ (saved t (settle o n b k), ok tt)
  put_settled s t o n b k h e = put_offer_held db (settle o n b k) t (holds h)
    where
      holds : HoldsTag s o → HoldsTag t (settle o n b k)
      holds (inl g) = inl (settle_tag o n b k ∙ g)
      holds (inr (u, g, f)) = inr (u, settle_tag o n b k ∙ g, rw (e, settle_id o n b k) f)

  -- The offers and the store after a match.
  module _ (s : Store db) (m : Match) (init part : Offer) (price : ℕ) where
    abbrev init' : Offer
    init' = settle init m.terms.xbt_sat (m.terms.xbt_sat == init.amount_sat) m.id

    abbrev part' : Offer
    part' = settle part m.terms.btc_sat (m.terms.xbt_sat == xbt_for_btc part.amount_sat price) m.id

    abbrev with_match : Store db
    with_match = record s { matches = db.matches.put s.matches m.id m }

    abbrev after_match : Store db
    after_match = saved (saved with_match init') part'

    store_pair_lem :
        HoldsTag s init
        → HoldsTag s part
        → store_pair db m init part price s ≡ (after_match, ok (some m))
    unfolding store_pair put_match
    store_pair_lem h k =
        rw
          (put_settled s with_match init m.terms.xbt_sat (m.terms.xbt_sat == init.amount_sat) m.id h
            refl)
          (rw
            (put_settled s (saved with_match init') part m.terms.btc_sat
              (m.terms.xbt_sat == xbt_for_btc part.amount_sat price) m.id k refl)
            refl)

    offer-after_match :
        (k : ℕ)
        → offer db after_match k
          ≡ (if part.id == k then some part' else if init.id == k then some init' else offer db s k)
    unfolding offer
    offer-after_match k = ground (
      arith,
      offer-saved db part' (saved with_match init') k,
      offer-saved db init' with_match k,
      settle_id init m.terms.xbt_sat (m.terms.xbt_sat == init.amount_sat) m.id,
      settle_id part m.terms.btc_sat (m.terms.xbt_sat == xbt_for_btc part.amount_sat price) m.id,
    )

  offer_of_offers : (s t : Store db) (k : ℕ) → t.offers ≡ s.offers → offer db t k ≡ offer db s k
  unfolding offer
  offer_of_offers s t k e = ap (λ r. db.offers.get r k) e

  get_match-put :
      (t : Store db) (r : db.matches.Rows) (k : ℕ) (m : Match)
      → t.matches ≡ db.matches.put r k m
      → get_match db t k ≡ some m
  unfolding get_match
  get_match-put t r k m e =
      ap (λ x. db.matches.get x k) e ∙ db.matches.get-put r k m k ∙ ground arith

  -- An offer that is let go is written back as `o`.
  release_back :
      (s t : Store db) (m : Match) (o o' : Offer) (consumed : ℕ)
      → offer db t o.id ≡ some o'
      → released m o.amount_sat consumed reopen o' ≡ some o
      → HoldsTag s o
      → t.tags ≡ s.tags
      → release db m o.id o.amount_sat consumed reopen t ≡ (saved t o, ok tt)
  unfolding release write_released
  release_back s t m o o' consumed e f h g =
      rw (e, release) (rw (f, write_released) (put_offer_held db o t (same_tags s t o h g)))

  module _ (s u : Store db) (m : Match) (init part : Offer) (price : ℕ)
      (n : init.id ≢ part.id) where
    held_init :
        u.offers ≡ (after_match s m init part price).offers
        → offer db u init.id ≡ some (init' s m init part price)
    held_init e =
        offer_of_offers (after_match s m init part price) u init.id e
        ∙ offer-after_match s m init part price init.id
        ∙ ground (arith, n)

    -- Also when the initiator's offer has been written back.
    held_part :
        u.offers ≡ (after_match s m init part price).offers
        → offer db (saved u init) part.id ≡ some (part' s m init part price)
    held_part e = ground (
      arith,
      n,
      offer-saved db init u part.id,
      offer_of_offers (after_match s m init part price) u part.id e,
      offer-after_match s m init part price part.id,
    )

  -- The offers once both are written back.
  offer-restored :
      (s u : Store db) (m : Match) (init part : Offer) (price : ℕ)
      → u.offers ≡ (after_match s m init part price).offers
      → (k : ℕ)
      → offer db (saved (saved u init) part) k
        ≡ (if part.id == k then some part else if init.id == k then some init else offer db s k)
  offer-restored s u m init part price e k = ground (
    arith,
    offer-saved db part (saved u init) k,
    offer-saved db init u k,
    offer_of_offers (after_match s m init part price) u k e,
    offer-after_match s m init part price k,
  )

  -- A match of two listed offers, undone by a cancel that reopens both, leaves both offers as they
  -- were, and every other offer too; the match stays, cancelled.
  pub cancel-store_pair :
      (s : Store db) (m : Match) (init part : Offer) (price now : ℕ)
      → IsListed db s init
      → IsListed db s part
      → init.id ≢ part.id
      → m.initiator_offer ≡ init.id
      → m.participant_offer ≡ part.id
      → m.pre_match_amounts ≡ (init.amount_sat, part.amount_sat)
      → m.terms.xbt_sat ≤ init.amount_sat
      → m.terms.btc_sat ≤ part.amount_sat
      → cancel_match db m now reopen reopen (store_pair db m init part price s).0 ≡ (
        saved
            (saved
              (record (after_match s m init part price) {
                matches =
                    db.matches.put
                      (after_match s m init part price).matches
                      m.id
                      (closed_match m now);
              })
              init)
            part,
        ok tt,
      )
  unfolding cancel_match put_match
  cancel-store_pair s m init part price now i p n mi mp pre fx fb =
      let t = after_match s m init part price in
      let k = closed_match m now in
      let u = record t { matches = db.matches.put t.matches m.id k } in
      let back_init =
        release_back s u k init (init' s m init part price) m.terms.xbt_sat
          (held_init s u m init part price n refl)
          (released-settle init k m.terms.xbt_sat (m.terms.xbt_sat == init.amount_sat) i.on_book
            i.unmatched i.fits fx)
          i.tagged refl in
      let back_part =
        release_back s (saved u init) k part (part' s m init part price) m.terms.btc_sat
          (held_part s u m init part price n refl)
          (released-settle part k m.terms.btc_sat
            (m.terms.xbt_sat == xbt_for_btc part.amount_sat price) p.on_book p.unmatched p.fits fb)
          p.tagged refl in
      rw (store_pair_lem s m init part price i.tagged p.tagged) (
        rw ((λ j. release db k (mi j) ((pre j).0) m.terms.xbt_sat reopen u) ∙ back_init) (
          (λ j. release db k (mp j) ((pre j).1) m.terms.btc_sat reopen (saved u init)) ∙ back_part))

module _ (db : Db) (c : Config) (fresh : Option ℕ) (a b : Offer) (price now later : ℕ)
    (s : Store db) (m : Match) where
  -- What is stored of the offers after `pair` and a cancel that reopens both is what was stored
  -- before, or would be had the two offers been stored, and the match is kept as cancelled.
  pub cancel-pair :
      (pair db c fresh a b price now s).1 ≡ ok (some m)
      → IsListed db s (ordered a b).0
      → IsListed db s (ordered a b).1
      → (ordered a b).0.id ≢ (ordered a b).1.id
      → let (t, r) = cancel_match db m later reopen reopen (pair db c fresh a b price now s).0 in
        (r ≡ ok tt)
        × (offer db t (ordered a b).0.id ≡ some (ordered a b).0)
        × (offer db t (ordered a b).1.id ≡ some (ordered a b).1)
        × ((k : ℕ) → k ≢ (ordered a b).0.id → k ≢ (ordered a b).1.id → offer db t k ≡ offer db s k)
        × (get_match db t m.id ≡ some (closed_match m later))
  cancel-pair h i p n =
      let init = (ordered a b).0 in
      let part = (ordered a b).1 in
      let e = pair_stored db c fresh price now a b s m h in
      let f = pair-IsFill db c fresh price now a b s m h in
      let fits = pair-Fits db c fresh a b price now s m h in
      let t = after_match db s m init part price in
      let u : Store db = record t {
        matches = db.matches.put t.matches m.id (closed_match m later);
      } in
      let back = offer-restored db s u m init part price refl in
      rw e (
        rw
          (cancel-store_pair db s m init part price later i p n
            (unfold match_for in ap (λ k. k.initiator_offer) f.made)
            (unfold match_for in ap (λ k. k.participant_offer) f.made) fits.remembers
            fits.initiator_has fits.participant_has)
          (
            refl,
            back init.id ∙ ground (arith, n),
            back part.id ∙ ground (arith, n),
            λ k ni np. back k ∙ ground (arith, ni, np),
            get_match-put db (saved (saved u init) part) t.matches m.id (closed_match m later) refl,
          ))
