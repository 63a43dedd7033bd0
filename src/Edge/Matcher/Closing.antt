-- ===== src/Edge/Matcher/Closing.antt =====
-- crates/fortis-edge/src/swap/matcher.rs: what ends a match or takes an offer off the book: the
-- deadlines (`tick`), a decline, and the restore of the offers.
use fortis.Common.{
  ℕ, ◌+◌, Bool, true, false, not, ◌&&◌, ◌||◌, Option, none, some, List, [], ◌∷◌, ltb, leb,
  if◌then◌else◌, ok, u64,
}
use fortis.Terms.{SwapRole, initiator, participant}
use fortis.Edge.Records.{
  Offer, OfferStatus, opened, expired, is_open, Match, MatchStatus, proposed, initiator_funded,
}
use fortis.Edge.Store.{
  Db, Store, M, ◌>>=◌, ◌>>◌, return, bail_if, reads, put_offer, offer, all_offers, put_match,
  get_match, all_matches, add_strike, is_some_of, unknown_match, cannot_decline,
}
use fortis.Edge.Matcher.Pairing.{or_error}

pub data Release : Type 0 where
  reopen cancel : Release

abbrev pub is_none : {A : Type 0} → Option A → Bool
is_none none = true
is_none (some _) = false

-- The offer after it is let go, `none` where it is left alone.
unfoldable pub released : Match → ℕ → ℕ → Release → Offer → Option Offer
released m pre consumed how o =
    if is_some_of m.id o.match_id
    then elim how [
      | reopen ↦ some (record o { match_id = none; amount_sat = pre; status = opened })
      | cancel ↦ some (record o { match_id = none; status = OfferStatus.cancelled })
    ]
    else if is_open o.status
    then elim how [
      | reopen ↦ some (record o { amount_sat = u64 (o.amount_sat + consumed) })
      | cancel ↦ some (record o { status = OfferStatus.cancelled })
    ]
    else none

-- The match as it is stored when it is cancelled.
abbrev pub closed_match : Match → ℕ → Match
closed_match m now = record m { status = MatchStatus.cancelled; closed_at = some now }

abbrev pub is_past : Option ℕ → ℕ → Bool
is_past none now = false
is_past (some t) now = ltb t now

module _ (db : Db) where
  unfoldable pub write_released : Option Offer → M db (Unit {0})
  write_released none = return tt
  write_released (some o) = put_offer db o

  unfoldable pub release : Match → ℕ → ℕ → ℕ → Release → M db (Unit {0})
  unfolding write_released
  release m offer_id pre consumed how s = elim (offer db s offer_id) [
    | none ↦ (s, ok tt)
    | some o ↦ write_released (released m pre consumed how o) s
  ]

  unfoldable pub cancel_match : Match → ℕ → Release → Release → M db (Unit {0})
  cancel_match m now of_initiator of_participant = do
    put_match db (closed_match m now)
    release (closed_match m now) m.initiator_offer m.pre_match_amounts.0 m.terms.xbt_sat
        of_initiator
    release (closed_match m now) m.participant_offer m.pre_match_amounts.1 m.terms.btc_sat
        of_participant

  tick_by : MatchStatus → Match → ℕ → M db (Unit {0})
  tick_by proposed m now =
      if ltb m.terms.accept_by now then cancel_match m now reopen reopen else return tt
  tick_by MatchStatus.accepted m now =
      if is_none m.xbt_funding && ltb m.terms.initiator_fund_by now
      then (do add_strike db m.initiator_token now; cancel_match m now cancel reopen)
      else return tt
  tick_by initiator_funded m now =
      if is_none m.btc_funding && is_past m.participant_fund_by now
      then (do
        add_strike db m.participant_token now
        cancel_match (record m { missed_participant_deadline = true }) now cancel cancel)
      else return tt
  tick_by _ m now = return tt

  unfoldable pub tick_match : Match → ℕ → M db (Unit {0})
  unfolding tick_by
  tick_match m now = tick_by m.status m now

  -- An error is logged, and the loop goes on with what was written.
  unfoldable pub tick_matches : ℕ → List Match → Store db → Store db
  tick_matches now [] s = s
  tick_matches now (m ∷ ms) s = tick_matches now ms (tick_match m now s).0

  unfoldable pub expire_offers : ℕ → List Offer → Store db → Store db
  expire_offers now [] s = s
  expire_offers now (o ∷ os) s = expire_offers now os (
      if is_open o.status && leb o.expires_at now
      then (put_offer db (record o { status = expired }) s).0
      else s)

  unfoldable pub tick : ℕ → Store db → Store db
  unfolding tick_matches expire_offers
  tick now s =
      let s' = tick_matches now (all_matches db s) s in expire_offers now (all_offers db s') s'

  abbrev pub is_proposed : MatchStatus → Bool
  is_proposed proposed = true
  is_proposed _ = false

  abbrev pub on_side : SwapRole → Release × Release
  on_side initiator = (cancel, reopen)
  on_side participant = (reopen, cancel)

  unfoldable pub on_decline : (match_id : ℕ) → SwapRole → (now : ℕ) → M db (Unit {0})
  on_decline match_id by now = do
    m ← reads (λ s. or_error (get_match db s match_id) unknown_match)
    bail_if (not (is_proposed m.status) || not (is_none m.xbt_funding)) cannot_decline
    cancel_match m now (on_side by).0 (on_side by).1
