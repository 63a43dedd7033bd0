-- ===== src/Edge/Messages/Relayed.antt =====
-- crates/fortis-edge/src/swap/mod.rs, the `funded` message of `post_message`: what is relayed, in its
-- turn or late.
use fortis.Common.{
  ℕ, ◌≡◌, refl, Bool, true, false, inl, inr, Option, some, Result, ok, if◌then◌else◌,
}
use fortis.Chain.{btc}
use fortis.Terms.{SwapRole, initiator, participant}
use fortis.Htlc.{Crate}
use fortis.Edge.Records.{Match, Funding}
use fortis.Edge.Store.{Db, Store, get_match}
use fortis.Edge.Messages.{Relay, Reply, pushed, unrelayed, refused}
use fortis.Edge.Messages.Chained.{ChainReader}
use fortis.Edge.Messages.Posts.{
  funded_in_turn, late_recorded, late_participant_funded, post_funding,
}
use fortis.Edge.Messages.Kept.{IsKeyed}
use fortis.Edge.Messages.Lasting.{Lasts}
use fortis.Edge.Messages.Recorded.{
  Backed, turned_down, backed, Funded, recorded, found, filed, record_leg-Backed,
}
use fortis.Edge.Messages.Shown.{
  IfPushed, if_pushed, IsFunded, IsShown, shown_leg-IsPaid, funded_in_turn-IsShown,
}

if_any : {P : Type 0} (r : Reply) → P → IfPushed r P
if_any (pushed _) p = p
if_any unrelayed p = tt
if_any (refused _) p = tt

module _ {db : Db} (B : Crate) (point : ℕ → Option ℕ) (chain : Option ChainReader)
    (others : ℕ → Relay db → Relay db) (id : ℕ) (role : SwapRole) (out : Funding) (m : Match) where
  -- Why a `funded` is relayed, and the store after it.
  pub data IsRelayed (s : Store db) : Type 0 where
    in_turn :
        (m' : Match)
        → IsFunded db id role out s m'
        → IsShown B point chain role out m m'
        → IsRelayed s
    late :
        role ≡ participant
        → m.missed_participant_deadline ≡ true
        → IsShown B point chain role out m m
        → IsRelayed s

module _ {db : Db} (B : Crate) (point : ℕ → Option ℕ) (chain : Option ChainReader)
    (others : ℕ → Relay db → Relay db) (id : ℕ) (out : Funding) (m : Match) (r : Relay db) where
  Funded-IsShown :
      (r' : Relay db)
      → Funded B point chain others m btc out true r r'
      → IsShown B point chain participant out m m
  Funded-IsShown r' (recorded e) = inl e
  Funded-IsShown _ (found _ _ paid _ _) = inr (shown_leg-IsPaid B point chain btc out m paid)
  Funded-IsShown _ (filed _ _ paid _ _) = inr (shown_leg-IsPaid B point chain btc out m paid)

  late-IsRelayed :
      (x : Relay db × Result ℕ (Unit {0}))
      → m.missed_participant_deadline ≡ true
      → Backed B point chain others m btc out true r x
      → IfPushed (late_recorded B point chain others m.id out x).1 (
          IsRelayed B point chain others id participant out m
            (late_recorded B point chain others m.id out x).0.store)
  unfolding late_recorded
  late-IsRelayed _ missed (turned_down r' code) = tt
  late-IsRelayed _ missed (backed r' f) =
      if_any (late_recorded B point chain others m.id out (r', ok tt)).1
        (late refl missed (Funded-IsShown r' f))

module _ {db : Db} (B : Crate) (point : ℕ → Option ℕ) (chain : Option ChainReader)
    (others : ℕ → Relay db → Relay db) (quiet : (i : ℕ) (r : Relay db) → Lasts r (others i r))
    (id : ℕ) (role : SwapRole) (out : Funding) (m : Match) (r : Relay db) where
  turn-IsRelayed :
      get_match db r.store id ≡ some m
      → IsKeyed r.store
      → IfPushed (funded_in_turn B point chain others id role out m r).1 (
          IsRelayed B point chain others id role out m
            (funded_in_turn B point chain others id role out m r).0.store)
  turn-IsRelayed e k =
      if_pushed (funded_in_turn B point chain others id role out m r).1 (λ p. in_turn p.0 p.1 p.2)
        (funded_in_turn-IsShown B point chain others quiet id role out m r e k)

-- A `funded` of a party on a match, in a store that holds each match under its id, while other
-- requests keep what matches record. Where it is relayed, either the match had recorded that funding
-- when it was read, or the chain shows the output, with the script of the leg's contract and the
-- amount of the terms; and the match is stored with that funding and in the next status, which is
-- left open only for a participant whose deadline had been missed.
pub post_funding-IsRelayed :
    {db : Db} (B : Crate) (point : ℕ → Option ℕ) (chain : Option ChainReader)
    (others : ℕ → Relay db → Relay db) (quiet : (i : ℕ) (r : Relay db) → Lasts r (others i r))
    (id : ℕ) (role : SwapRole) (out : Funding) (m : Match) (r : Relay db)
    → get_match db r.store id ≡ some m
    → IsKeyed r.store
    → IfPushed (post_funding B point chain others id role out m r).1 (
        IsRelayed B point chain others id role out m
          (post_funding B point chain others id role out m r).0.store)
unfolding post_funding late_participant_funded
post_funding-IsRelayed B point chain others quiet id initiator out m r e k =
    turn-IsRelayed B point chain others quiet id initiator out m r e k
post_funding-IsRelayed {db} B point chain others quiet id participant out m r e k =
    go m.missed_participant_deadline refl
  where
    go :
        (b : Bool)
        → m.missed_participant_deadline ≡ b
        → (let x =
              (if b
                then late_participant_funded B point chain others m out r
                else funded_in_turn B point chain others id participant out m r) in
            IfPushed x.1 (IsRelayed B point chain others id participant out m x.0.store))
    go true h =
        late-IsRelayed B point chain others id out m r _ h
          (record_leg-Backed B point chain others m btc out true r)
    go false h = turn-IsRelayed B point chain others quiet id participant out m r e k
