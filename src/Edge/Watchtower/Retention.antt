-- ===== src/Edge/Watchtower/Retention.antt =====
-- crates/fortis-edge/src/swap/store.rs, `purge`: what is dropped once it is old.
use fortis.Common.{
  ℕ, ◌-◌, ◌*◌, ◌/◌, Bool, true, false, not, ◌&&◌, Option, none, some, List, [], ◌∷◌, map, keep, any,
  ltb, ◌==◌, if◌then◌else◌,
}
use fortis.Edge.Table.{Table}
use fortis.Edge.Records.{Offer, opened, matched, Match, closed, WatchJob}
use fortis.Edge.Store.{Db, Store, get_match, all_matches, all_offers, in_window}
use fortis.Edge.Messages.{is_terminal}
use fortis.Edge.Watchtower.Jobs.{Tower, watch_jobs}

abbrev pub purge_after_secs : ℕ
purge_after_secs = 7 * 24 * 3600

-- `Store::purge`.
unfoldable pub is_old : ℕ → ℕ → Bool
is_old now t = ltb purge_after_secs (now - t)

abbrev pub closed_long_ago : ℕ → Option ℕ → Bool
closed_long_ago now none = false
closed_long_ago now (some t) = is_old now t

unfoldable pub is_purged : ℕ → List ℕ → Match → Bool
is_purged now pending m =
    is_terminal m.status && closed_long_ago now m.closed_at && not (any (λ id. id == m.id) pending)

module _ (T : Table WatchJob) where
  -- The jobs under the prefix of the match's id.
  unfoldable pub delete_jobs : ℕ → List (ℕ × WatchJob) → T.Rows → T.Rows
  delete_jobs id [] rows = rows
  delete_jobs id ((k, _) ∷ es) rows =
      delete_jobs id es (if k / 6 == id then T.delete rows k else rows)

abbrev pub is_gone_or_closed : Option Match → Bool
is_gone_or_closed none = true
is_gone_or_closed (some m) = elim m.status [ closed ↦ true | _ ↦ false ]

abbrev pub offers_of : List Match → List ℕ
offers_of [] = []
offers_of (m ∷ ms) = m.initiator_offer ∷ m.participant_offer ∷ offers_of ms

module _ {db : Db} where
  abbrev pub match_over : Store db → Option ℕ → Bool
  match_over s none = true
  match_over s (some id) = is_gone_or_closed (get_match db s id)

  abbrev pub is_droppable : Store db → Offer → Bool
  is_droppable s o = elim o.status [ opened ↦ false | matched ↦ match_over s o.match_id | _ ↦ true ]

  unfoldable pub purge_offers : ℕ → List ℕ → List Offer → Store db → Store db
  purge_offers now in_matches [] s = s
  purge_offers now in_matches (o ∷ os) s = purge_offers now in_matches os (
      if not (any (λ id. id == o.id) in_matches) && is_droppable s o && is_old now o.expires_at
      then record s { offers = db.offers.delete s.offers o.id }
      else s)

  unfoldable pub purge_strikes : ℕ → List (ℕ × List ℕ) → Store db → Store db
  purge_strikes now [] s = s
  purge_strikes now ((token, times) ∷ es) s = purge_strikes now es (
      if any (λ t. in_window t now) times
      then s
      else record s { strikes = db.strikes.delete s.strikes token })

  unfoldable pub purge_rest : ℕ → Store db → Store db
  unfolding purge_offers purge_strikes
  purge_rest now s =
      let s' = purge_offers now (offers_of (all_matches db s)) (all_offers db s) s in
      purge_strikes now (db.strikes.entries s'.strikes) s'

module _ {db : Db} {T : Table WatchJob} where
  unfoldable pub purge_match : Match → Tower db T → Tower db T
  unfolding delete_jobs
  purge_match m t = record t {
    relay = record t.relay {
      store = record t.relay.store { matches = db.matches.delete t.relay.store.matches m.id };
      mail = (λ j. if m.id == j then [] else t.relay.mail j);
    };
    jobs = delete_jobs T m.id (T.entries t.jobs) t.jobs;
  }

  unfoldable pub purge_matches : ℕ → List ℕ → List Match → Tower db T → Tower db T
  unfolding purge_match
  purge_matches now pending [] t = t
  purge_matches now pending (m ∷ ms) t =
      purge_matches now pending ms (if is_purged now pending m then purge_match m t else t)

  abbrev pub pending_of : Tower db T → List ℕ
  pending_of t = map (λ j. j.match_id) (keep (λ j. not j.done) (watch_jobs t))

  unfoldable pub purge : ℕ → Tower db T → Tower db T
  unfolding purge_matches purge_rest
  purge now t =
      let t' = purge_matches now (pending_of t) (all_matches db t.relay.store) t in
      record t' { relay = record t'.relay { store = purge_rest now t'.relay.store } }
