-- ===== src/Edge/Messages/Recorded.antt =====
-- crates/fortis-edge/src/swap/mod.rs, `record_leg_funding`: an outpoint that passes is the funding of
-- a leg of the match.
use fortis.Common.{
  ℕ, ◌≡◌, refl, ap, ◌∙◌, Bool, true, false, Option, none, some, Result, ok, err, if◌then◌else◌,
}
use fortis.Chain.{Chain}
use fortis.Htlc.{Crate}
use fortis.Edge.Records.{Match, Funding}
use fortis.Edge.Store.{Db, get_match, put_match}
use fortis.Edge.Messages.{Relay, same_pair}
use fortis.Edge.Messages.Chained.{
  ChainReader, Unpaid, slot, set_slot, record_slot, record_in, record_shown, record_at,
  record_leg_funding, leg_paid_on_chain,
}
use fortis.Edge.Messages.Steps.{same_pair_lem}

module _ {db : Db} (B : Crate) (point : ℕ → Option ℕ) (chain : Option ChainReader)
    (others : ℕ → Relay db → Relay db) where
  module _ (m : Match) (c : Chain) (htlc : Funding) (by_owner : Bool) (r : Relay db) where
    -- Why an outpoint is the funding of a leg, and the state that it is found in.
    pub data Funded : Relay db → Type 0 where
      recorded : slot c m ≡ some htlc → Funded r
      found :
          (cur : Match)
          → by_owner ≡ true
          → leg_paid_on_chain B point chain c htlc m ≡ ok tt
          → get_match db (others 0 r).store m.id ≡ some cur
          → slot c cur ≡ some htlc
          → Funded (others 0 r)
      filed :
          (cur : Match)
          → by_owner ≡ true
          → leg_paid_on_chain B point chain c htlc m ≡ ok tt
          → get_match db (others 0 r).store m.id ≡ some cur
          → slot c cur ≡ none
          → Funded (record (others 0 r) {
            store = (put_match _ (set_slot c htlc cur) (others 0 r).store).0;
          })

    pub data Backed : Relay db × Result ℕ (Unit {0}) → Type 0 where
      turned_down : (r' : Relay db) (code : ℕ) → Backed (r', err code)
      backed : (r' : Relay db) → Funded r' → Backed (r', ok tt)

    compared-Backed :
        (f : Funding) (r' : Relay db)
        → (f ≡ htlc → Funded r')
        → Backed (if same_pair f htlc then (r', ok tt) else (r', err 409))
    compared-Backed f r' h = go (same_pair f htlc) refl
      where
        go : (b : Bool) → same_pair f htlc ≡ b → Backed (if b then (r', ok tt) else (r', err 409))
        go true e = backed r' (h (same_pair_lem f htlc e))
        go false e = turned_down r' 409

    module _ (own : by_owner ≡ true) (paid : leg_paid_on_chain B point chain c htlc m ≡ ok tt) where
      slot-Backed :
          (cur : Match) (f : Option Funding)
          → get_match db (others 0 r).store m.id ≡ some cur
          → slot c cur ≡ f
          → Backed (record_slot B point chain c htlc cur f (others 0 r))
      unfolding record_slot
      slot-Backed cur none g e = backed _ (filed cur own paid g e)
      slot-Backed cur (some f) g e =
          compared-Backed f (others 0 r) (λ q. found cur own paid g (e ∙ ap some q))

      in-Backed :
          (cur : Option Match)
          → get_match db (others 0 r).store m.id ≡ cur
          → Backed (record_in B point chain c htlc cur (others 0 r))
      unfolding record_in
      in-Backed none g = turned_down (others 0 r) 404
      in-Backed (some cur) g = slot-Backed cur (slot c cur) g refl

    shown-Backed :
        (x : Result Unpaid (Unit {0}))
        → by_owner ≡ true
        → leg_paid_on_chain B point chain c htlc m ≡ x
        → Backed (record_shown B point chain others m c htlc x r)
    unfolding record_shown
    shown-Backed (err why) own e = turned_down r _
    shown-Backed (ok _) own e = in-Backed own e (get_match db (others 0 r).store m.id) refl

    at-Backed :
        (f : Option Funding) (b : Bool)
        → slot c m ≡ f
        → by_owner ≡ b
        → Backed (record_at B point chain others m c htlc b f r)
    unfolding record_at
    at-Backed (some f) b e o = compared-Backed f r (λ q. recorded (e ∙ ap some q))
    at-Backed none false e o = turned_down r 409
    at-Backed none true e o = shown-Backed (leg_paid_on_chain B point chain c htlc m) o refl

    pub record_leg-Backed : Backed (record_leg_funding B point chain others m c htlc by_owner r)
    unfolding record_leg_funding
    record_leg-Backed = at-Backed (slot c m) by_owner refl refl
