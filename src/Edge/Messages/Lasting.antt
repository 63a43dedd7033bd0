-- ===== src/Edge/Messages/Lasting.antt =====
-- crates/fortis-edge/src/swap/mod.rs: `post_message` over each of its ways, with whatever other
-- requests do meanwhile.
use fortis.Common.{
  ℕ, ◌≡◌, refl, ap, ◌∙◌, Bool, true, false, inl, inr, Option, none, some, if◌then◌else◌, Bool-cases,
  ltb,
}
use fortis.Chain.{Chain, btc, xbt}
use fortis.Terms.{SwapRole}
use fortis.Htlc.{Crate}
use fortis.Edge.Records.{Match, Funding}
use fortis.Edge.Store.{Db, Store, get_match, remove_strike}
use fortis.Edge.Messages.{Relay, Step, under_lock, same_pair}
use fortis.Edge.Messages.Chained.{ChainReader, slot, set_slot, record_slot, record_in}
use fortis.Edge.Messages.Reinstating.{
  reinstated, if_eligible, eligible, eligible_match, lift_strike, write_reinstated, is_funded_by,
  reinstate_locked, reinstate_mined, reinstate_funded, reinstate_read,
}
use fortis.Edge.Messages.Kept.{Kept, Grows, Grows-refl, Grows-trans, same-Grows, put_match-Grows}
use fortis.Edge.Messages.Steps.{IsSafe, slots-Kept, same, both, fresh, under_lock-Grows}

set_slot-Kept :
    (c : Chain) (htlc : Funding) (m : Match) → slot c m ≡ none → Kept m (set_slot c htlc m)
set_slot-Kept xbt htlc m e =
    slots-Kept m _ refl refl (both m.keys.0 m.keys.1) (same m.hashlock)
      (fresh m.xbt_funding (some htlc) e, same m.btc_funding) (both m.release_txs m.release_sigs)
set_slot-Kept btc htlc m e =
    slots-Kept m _ refl refl (both m.keys.0 m.keys.1) (same m.hashlock)
      (same m.xbt_funding, fresh m.btc_funding (some htlc) e) (both m.release_txs m.release_sigs)

reinstated-Kept : (m : Match) → Kept m (reinstated m)
reinstated-Kept m =
    slots-Kept m _ refl refl (both m.keys.0 m.keys.1) (same m.hashlock)
      (both m.xbt_funding m.btc_funding) (both m.release_txs m.release_sigs)

module _ {db : Db} where
  -- The relay's store grows. The store is made explicit, so that a result shows which.
  pub data Lasts (r : Relay db) : Relay db → Type 0 where
    lasting : (r' : Relay db) → Grows r.store r'.store → Lasts r r'

  pub grows : {r r' : Relay db} → Lasts r r' → Grows r.store r'.store
  grows (lasting _ g) = g

  pub still : (r : Relay db) → Lasts r r
  still r = lasting r (Grows-refl r.store)

  pub then_lasts : (a b c : Relay db) → Lasts a b → Lasts b c → Lasts a c
  then_lasts a b c f g = lasting c (Grows-trans a.store b.store c.store (grows f) (grows g))

  pub if_lasts :
      {A : Type 0} (r : Relay db) (b : Bool) (x y : Relay db × A)
      → Lasts r x.0
      → Lasts r y.0
      → Lasts r (if b then x else y).0
  if_lasts r true x y h k = h
  if_lasts r false x y h k = k

  pub locked_lasts :
      (id : ℕ) (from : SwapRole) (f : Match → Step) (r : Relay db)
      → ((m : Match) → IsSafe m (f m))
      → Lasts r (under_lock id from f r).0
  locked_lasts id from f r h = lasting _ (under_lock-Grows id from f r h)

  pub lift_strike-matches :
      (at : Option ℕ) (token : ℕ) (s : Store db) → (lift_strike at token s).matches ≡ s.matches
  unfolding remove_strike
  lift_strike-matches none token s = refl
  lift_strike-matches (some at) token s = refl

  reinstate_locked-Lasts :
      (id txid : ℕ) (x : Option Match) (r : Relay db)
      → get_match db r.store id ≡ x
      → Lasts r (reinstate_locked txid (if_eligible x) r).0
  unfolding reinstate_locked get_match
  reinstate_locked-Lasts id txid none r e = still r
  reinstate_locked-Lasts id txid (some cur) r e = elim (Bool-cases (eligible cur)) [
    | inr h ↦ rw h (still r)
    | inl h ↦ rw h (
        if_lasts r (is_funded_by txid cur.btc_funding) _ _
          (lasting _ (
            Grows-trans r.store (lift_strike cur.closed_at cur.participant_token r.store)
              (write_reinstated cur r).store
              (same-Grows r.store (lift_strike cur.closed_at cur.participant_token r.store)
                (lift_strike-matches cur.closed_at cur.participant_token r.store))
              (put_match-Grows (lift_strike cur.closed_at cur.participant_token r.store) id cur
                (reinstated cur)
                (ap (λ t. db.matches.get t id)
                    (lift_strike-matches cur.closed_at cur.participant_token r.store)
                  ∙ e)
                (reinstated-Kept cur))))
          (still r))
  ]

  module _ (others : ℕ → Relay db → Relay db)
      (quiet : (i : ℕ) (r : Relay db) → Lasts r (others i r)) where
    reinstate_mined-Lasts :
        (id txid fund_by : ℕ) (r : Relay db) (t : Option (Option ℕ))
        → Lasts r (reinstate_mined others id txid fund_by r t).0
    unfolding reinstate_mined eligible_match
    reinstate_mined-Lasts id txid fund_by r none = still r
    reinstate_mined-Lasts id txid fund_by r (some none) = still r
    reinstate_mined-Lasts id txid fund_by r (some (some mined)) =
        if_lasts r (ltb fund_by mined) _ _ (still r) (
          then_lasts r (others 2 r) _ (quiet 2 r)
            (reinstate_locked-Lasts id txid (get_match db (others 2 r).store id) (others 2 r) refl))

    pub reinstate_read-Lasts :
        (chain : Option ChainReader) (id : ℕ) (x : Option Match) (r : Relay db)
        → Lasts r (reinstate_read others chain id x r).0
    unfolding reinstate_read reinstate_funded
    reinstate_read-Lasts chain id none r = still r
    reinstate_read-Lasts chain id (some m) r = by_parts m.btc_funding m.participant_fund_by chain
      where
        by_parts :
            (f : Option Funding) (t : Option ℕ) (c : Option ChainReader)
            → Lasts r (reinstate_funded others id f t c r).0
        by_parts none t c = still r
        by_parts (some f) none c = still r
        by_parts (some f) (some t) none = still r
        by_parts (some f) (some t) (some reader) =
            reinstate_mined-Lasts id f.0 t r (reader.tx_block_time btc f.0)

    pub record_in-Lasts :
        (B : Crate) (point : ℕ → Option ℕ) (chain : Option ChainReader) (id : ℕ) (c : Chain)
        (htlc : Funding) (x : Option Match) (r : Relay db)
        → get_match db r.store id ≡ x
        → Lasts r (record_in B point chain c htlc x r).0
    unfolding record_in record_slot
    record_in-Lasts B point chain id c htlc none r e = still r
    record_in-Lasts B point chain id c htlc (some cur) r e = by_slot (slot c cur) refl
      where
        by_slot :
            (f : Option Funding)
            → slot c cur ≡ f
            → Lasts r (record_slot B point chain c htlc cur f r).0
        by_slot none g =
            lasting _
              (put_match-Grows r.store id cur (set_slot c htlc cur) e (set_slot-Kept c htlc cur g))
        by_slot (some f) g = if_lasts r (same_pair f htlc) _ _ (still r) (still r)
