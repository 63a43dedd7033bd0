-- ===== src/Edge/Messages/Timely.antt =====
-- crates/fortis-edge/src/swap/mod.rs, `reinstate_if_funded_in_time`: which matches come back.
use fortis.Common.{
  ℕ, ◌≡◌, ◌≤◌, ◌≢◌, refl, true, false, inl, inr, Option, none, some, Result, ok, err, arith,
  Bool-cases, ltb, ap, ◌∙◌, List, not, if◌then◌else◌, ◌==◌,
}
use fortis.Chain.{btc}
use fortis.Edge.Records.{
  Match, Funding, MatchStatus, proposed, accepted, initiator_funded, participant_funded, closed,
  cancelled, is_cancelled,
}
use fortis.Edge.Store.{Db, Store, get_match, put_match}
use fortis.Edge.Messages.{Relay, is_some}
use fortis.Edge.Messages.Lasting.{lift_strike-matches}
use fortis.Edge.Messages.Chained.{
  ChainReader, Unpaid, read_failed, Reinstate, done, not_mined, mined_late, not_eligible,
}
use fortis.Edge.Messages.Reinstating.{
  eligible, reinstated, lift_strike, if_eligible, eligible_match, is_funded_by, write_reinstated,
  reinstate_locked, reinstate_mined, reinstate_funded, reinstate_read, reinstate_if_funded_in_time,
}

-- Cancelled at the participant's deadline, and not released.
pub record IsMissed (m : Match) : Type 0 where
  pub missed : m.missed_participant_deadline ≡ true
  pub of_status : m.status ≡ cancelled
  pub unreleased : m.release_sigs ≡ none

eligible-IsMissed : (m : Match) → eligible m ≡ true → IsMissed m
eligible-IsMissed m h = record {
  missed = ground (arith, h);
  of_status = by_status m.status (ground (arith, h));
  unreleased = by_sigs m.release_sigs (ground (arith, h));
}
  where
    by_status : (s : MatchStatus) → is_cancelled s ≡ true → s ≡ cancelled
    by_status cancelled e = refl
    by_status proposed e = cc
    by_status accepted e = cc
    by_status initiator_funded e = cc
    by_status participant_funded e = cc
    by_status closed e = cc

    by_sigs : (o : Option (List ℕ)) → not (is_some o) ≡ true → o ≡ none
    by_sigs none e = refl
    by_sigs (some x) e = cc

funded_by_lem :
    (txid : ℕ) (o : Option Funding)
    → is_funded_by txid o ≡ true
    → (f : Funding) × (o ≡ some f) × (f.0 ≡ txid)
funded_by_lem txid none h = cc
funded_by_lem txid (some f) h = (f, refl, ground (arith, h))

-- The match that comes back: funded by the participant, open, and as it was otherwise. It is stored
-- under its id, and under no other id a match changes.
pub record IsBack {db : Db} (cur : Match) (r r' : Relay db) : Type 0 where
  pub stored :
      get_match db r'.store cur.id
      ≡ some (record cur {
        status = participant_funded;
        missed_participant_deadline = false;
        closed_at = none;
      })
  pub others : (k : ℕ) → k ≢ cur.id → get_match db r'.store k ≡ get_match db r.store k
  pub mail : r'.mail ≡ r.mail

write_reinstated-IsBack :
    {db : Db} (cur : Match) (r : Relay db) → IsBack cur r (write_reinstated cur r)
unfolding get_match put_match
write_reinstated-IsBack {db} cur r = record {
  stored = db.matches.get-put lifted.matches cur.id (reinstated cur) cur.id ∙ own;
  others = λ k d.
      (db.matches.get-put lifted.matches cur.id (reinstated cur) k
        ∙ other k d
        ∙ ap (λ t. db.matches.get t k)
            (lift_strike-matches cur.closed_at cur.participant_token r.store));
  mail = refl;
}
  where
    lifted : Store db
    lifted = lift_strike cur.closed_at cur.participant_token r.store

    own :
        (if cur.id == cur.id then some (reinstated cur) else db.matches.get lifted.matches cur.id)
        ≡ some (reinstated cur)
    own = ground arith

    other :
        (k : ℕ)
        → k ≢ cur.id
        → (if cur.id == k then some (reinstated cur) else db.matches.get lifted.matches k)
          ≡ db.matches.get lifted.matches k
    other k d = ground (arith, d)

module _ {db : Db} (others : ℕ → Relay db → Relay db) (chain : Option ChainReader) (id : ℕ)
    (r : Relay db) where
  -- Its funding, the one that it had when it was read, is mined by its deadline.
  pub record InTime (cur : Match) : Type 0 where
    pub before : Match
    pub funding : Funding
    pub reader : ChainReader
    pub fund_by : ℕ
    pub mined : ℕ
    pub was : get_match db r.store id ≡ some before
    pub was_missed : IsMissed before
    pub was_funded : before.btc_funding ≡ some funding
    pub deadline : before.participant_fund_by ≡ some fund_by
    pub reads : chain ≡ some reader
    pub at : reader.tx_block_time btc funding.0 ≡ some (some mined)
    pub in_time : mined ≤ fund_by
    pub current : get_match db (others 2 r).store id ≡ some cur
    pub is_missed : IsMissed cur
    pub is_funded : (f : Funding) × (cur.btc_funding ≡ some f) × (f.0 ≡ funding.0)

  -- The ways that it ends: nothing is written, or the match in question comes back.
  pub data Ends : Relay db × Result Unpaid Reinstate → Type 0 where
    untouched : (x : Result Unpaid Reinstate) → x ≢ ok done → Ends (r, x)
    overtaken : Ends (others 2 r, ok not_eligible)
    back :
        (cur : Match) (r' : Relay db) → InTime cur → IsBack cur (others 2 r) r' → Ends (r', ok done)

  module _ (m : Match) (f : Funding) (fund_by : ℕ) (reader : ChainReader)
      (was : get_match db r.store id ≡ some m) (was_missed : IsMissed m)
      (was_funded : m.btc_funding ≡ some f) (deadline : m.participant_fund_by ≡ some fund_by)
      (reads : chain ≡ some reader) where
    locked-Ends :
        (mined : ℕ) (x : Option Match)
        → reader.tx_block_time btc f.0 ≡ some (some mined)
        → mined ≤ fund_by
        → get_match db (others 2 r).store id ≡ x
        → Ends (reinstate_locked f.0 (if_eligible x) (others 2 r))
    unfolding reinstate_locked
    locked-Ends mined none at t e = overtaken
    locked-Ends mined (some cur) at t e = elim (Bool-cases (eligible cur)) [
      | inr h ↦ rw h overtaken
      | inl h ↦ rw h (elim (Bool-cases (is_funded_by f.0 cur.btc_funding)) [
        | inr g ↦ rw g overtaken
        | inl g ↦ rw g (
            back cur _
              (record {
                before = m;
                funding = f;
                reader = reader;
                fund_by = fund_by;
                mined = mined;
                was = was;
                was_missed = was_missed;
                was_funded = was_funded;
                deadline = deadline;
                reads = reads;
                at = at;
                in_time = t;
                current = e;
                is_missed = eligible-IsMissed cur h;
                is_funded = funded_by_lem f.0 cur.btc_funding g;
              })
              (write_reinstated-IsBack cur (others 2 r)))
      ])
    ]

    mined-Ends :
        (x : Option (Option ℕ))
        → reader.tx_block_time btc f.0 ≡ x
        → Ends (reinstate_mined others id f.0 fund_by r x)
    unfolding reinstate_mined eligible_match
    mined-Ends none e = untouched (err read_failed) (λ q. cc)
    mined-Ends (some none) e = untouched (ok not_mined) (λ q. cc)
    mined-Ends (some (some mined)) e = elim (Bool-cases (ltb fund_by mined)) [
      | inl h ↦ rw h (untouched (ok mined_late) (λ q. cc))
      | inr h ↦
          rw h (locked-Ends mined (get_match db (others 2 r).store id) e (ground (arith, h)) refl)
    ]

  funded-Ends :
      (m : Match) (f : Option Funding) (t : Option ℕ) (c : Option ChainReader)
      → get_match db r.store id ≡ some m
      → IsMissed m
      → m.btc_funding ≡ f
      → m.participant_fund_by ≡ t
      → chain ≡ c
      → Ends (reinstate_funded others id f t c r)
  unfolding reinstate_funded
  funded-Ends m none t c a b d e g = untouched (ok not_eligible) (λ q. cc)
  funded-Ends m (some f) none c a b d e g = untouched (ok not_eligible) (λ q. cc)
  funded-Ends m (some f) (some t) none a b d e g = untouched (ok not_eligible) (λ q. cc)
  funded-Ends m (some f) (some t) (some reader) a b d e g =
      mined-Ends m f t reader a b d e g (reader.tx_block_time btc f.0) refl

  read-Ends :
      (x : Option Match)
      → get_match db r.store id ≡ x
      → Ends (reinstate_read others chain id (if_eligible x) r)
  unfolding reinstate_read
  read-Ends none e = untouched (ok not_eligible) (λ q. cc)
  read-Ends (some m) e = elim (Bool-cases (eligible m)) [
    | inr h ↦ rw h (untouched (ok not_eligible) (λ q. cc))
    | inl h ↦ rw h (
        funded-Ends m m.btc_funding m.participant_fund_by chain e (eligible-IsMissed m h) refl refl
          refl)
  ]

  -- Either nothing is written and the answer is not that the match came back, or the match comes
  -- back: then it was cancelled for the participant's deadline and never released, both when it was
  -- read and under the lock, and the funding that it had then and has now was mined, as the chain
  -- shows, no later than that deadline. It is stored under its id as it was, but funded by the
  -- participant, not closed and no longer missed, and no match under another id changes.
  pub reinstate-Ends : Ends (reinstate_if_funded_in_time others chain id r)
  unfolding reinstate_if_funded_in_time eligible_match
  reinstate-Ends = read-Ends (get_match db r.store id) refl
