-- ===== src/Edge/Store.antt =====
-- crates/fortis-edge/src/swap/store.rs: the durable state of the swap service over a database.
-- A method takes the store and returns it with its result, and what it wrote stays also when it
-- fails. Reads and writes of the database itself do not fail here.
pub mod Offers
pub mod Strikes
use fortis.Common.{
  ℕ, ◌+◌, ◌-◌, ◌*◌, ◌≡◌, Bool, true, false, not, ◌&&◌, Option, none, some, List, [], ◌∷◌, ◌++◌, map,
  length, u32, keep, find_first, any, sort_by, ltb, leb, ◌==◌, if◌then◌else◌, Result, ok, err,
}
use fortis.Edge.Table.{Table}
use fortis.Edge.Records.{Offer, Match, Direction, same_direction, is_open}

abbrev pub strike_window_secs : ℕ
strike_window_secs = 24 * 3600

-- The column families.
pub record Db : Type 1 where
  pub offers : Table Offer
  pub matches : Table Match
  pub strikes : Table (List ℕ)
  pub tags : Table ℕ

pub record Store (db : Db) : Type 0 where
  pub offers : db.offers.Rows
  pub matches : db.matches.Rows
  pub strikes : db.strikes.Rows
  pub tags : db.tags.Rows

-- The errors of the swap service.
pub data EdgeError : Type 0 where
  tag_used no_offer zero_price not_opposite unknown_network clock_out_of_range csprng : EdgeError
  unknown_share_code not_available same_way own_offer below_minimum is_private : EdgeError
  price_changed unknown_match cannot_decline : EdgeError

abbrev pub M : Db → Type 0 → Type 0
M db A = Store db → Store db × Result EdgeError A

module _ {db : Db} where
  abbrev pub after :
      {A B : Type 0} → (A → M db B) → Store db × Result EdgeError A → Store db × Result EdgeError B
  after f (s, ok a) = f a s
  after f (s, err e) = (s, err e)

  infixl 5 ◌>>=◌ ◌>>◌
  abbrev pub ◌>>=◌ : {A B : Type 0} → M db A → (A → M db B) → M db B
  ◌>>=◌ m f s = after f (m s)

  abbrev pub ◌>>◌ : {B : Type 0} → M db (Unit {0}) → M db B → M db B
  ◌>>◌ m k s = after (λ _. k) (m s)

  abbrev pub return : {A : Type 0} → A → M db A
  return a s = (s, ok a)

  abbrev pub fail : {A : Type 0} → EdgeError → M db A
  fail e s = (s, err e)

  -- `if c { bail!(e) }`.
  abbrev pub bail_if : Bool → EdgeError → M db (Unit {0})
  bail_if c e s = if c then (s, err e) else (s, ok tt)

  -- A read, or a step that fails without touching the store.
  abbrev pub reads : {A : Type 0} → (Store db → Result EdgeError A) → M db A
  reads f s = (s, f s)

-- `o.as_deref() == Some(k)`.
abbrev pub is_some_of : ℕ → Option ℕ → Bool
is_some_of k none = false
is_some_of k (some c) = c == k

module _ (db : Db) where
  write_offer : Offer → M db (Unit {0})
  write_offer o s = (record s { offers = db.offers.put s.offers o.id o }, ok tt)

  -- The holder of the offer's tag, as read from the tag column family.
  claim_tag : Offer → ℕ → Option ℕ → M db (Unit {0})
  unfolding write_offer
  claim_tag o tag (some id) s = if id == o.id then write_offer o s else (s, err tag_used)
  claim_tag o tag none s = write_offer o (record s { tags = db.tags.put s.tags tag o.id })

  put_tagged : Offer → Option ℕ → M db (Unit {0})
  unfolding claim_tag write_offer
  put_tagged o none s = write_offer o s
  put_tagged o (some tag) s = claim_tag o tag (db.tags.get s.tags tag) s

  unfoldable pub put_offer : Offer → M db (Unit {0})
  unfolding put_tagged
  put_offer o s = put_tagged o o.recovery_tag s

  unfoldable pub offer : Store db → ℕ → Option Offer
  offer s id = db.offers.get s.offers id

  unfoldable pub all_offers : Store db → List Offer
  all_offers s = map (λ e. e.1) (db.offers.entries s.offers)

  -- Oldest first, then by id.
  older : Offer → Offer → Bool
  older a b = if a.created_at == b.created_at then leb a.id b.id else ltb a.created_at b.created_at

  unfoldable pub open_offers : Store db → Direction → List Offer
  unfolding all_offers older
  open_offers s d =
      sort_by older (keep (λ o. is_open o.status && same_direction o.direction d) (all_offers s))

  unfoldable pub offer_by_code : Store db → ℕ → Option Offer
  unfolding all_offers
  offer_by_code s code = find_first (λ o. is_some_of code o.share_code) (all_offers s)

  unfoldable pub tag_used_before : Store db → ℕ → Bool
  tag_used_before s hash = elim (db.tags.get s.tags hash) [ none ↦ false | some _ ↦ true ]

  unfoldable pub offer_by_tag : Store db → ℕ → Option Offer
  unfolding offer
  offer_by_tag s hash = elim (db.tags.get s.tags hash) [ none ↦ none | some id ↦ offer s id ]

  unfoldable pub set_secret_hash : ℕ → ℕ → M db (Unit {0})
  unfolding offer put_offer
  set_secret_hash id hash s = elim (offer s id) [
    | none ↦ (s, err no_offer)
    | some o ↦ put_offer (record o { secret_hash = hash }) s
  ]

  unfoldable pub put_match : Match → M db (Unit {0})
  put_match m s = (record s { matches = db.matches.put s.matches m.id m }, ok tt)

  unfoldable pub get_match : Store db → ℕ → Option Match
  get_match s id = db.matches.get s.matches id

  unfoldable pub all_matches : Store db → List Match
  all_matches s = map (λ e. e.1) (db.matches.entries s.matches)

-- Anti-griefing strikes.
unfoldable pub in_window : ℕ → ℕ → Bool
in_window t now = leb t now && ltb (now - t) strike_window_secs

-- `position` and `remove`: the first entry with that value goes.
unfoldable pub remove_one : ℕ → List ℕ → List ℕ
remove_one at [] = []
remove_one at (t ∷ ts) = if t == at then ts else t ∷ remove_one at ts

module _ (db : Db) where
  unfoldable pub strike_times : Store db → ℕ → List ℕ
  strike_times s token = elim (db.strikes.get s.strikes token) [ none ↦ [] | some ts ↦ ts ]

  unfoldable pub add_strike : ℕ → ℕ → M db (Unit {0})
  unfolding strike_times
  add_strike token now s = (
    record s {
      strikes =
          db.strikes.put s.strikes token
            (keep (λ t. in_window t now) (strike_times s token) ++ now ∷ []);
    },
    ok tt,
  )

  -- Nothing is written where no entry has that time.
  unfoldable pub remove_strike : ℕ → ℕ → M db (Unit {0})
  unfolding strike_times
  remove_strike token at s = (
    record s {
      strikes =
          (if any (λ t. t == at) (strike_times s token)
            then db.strikes.put s.strikes token (remove_one at (strike_times s token))
            else s.strikes);
    },
    ok tt,
  )

  unfoldable pub strikes : Store db → ℕ → ℕ → ℕ
  unfolding strike_times
  strikes s token now = u32 (length (keep (λ t. in_window t now) (strike_times s token)))
