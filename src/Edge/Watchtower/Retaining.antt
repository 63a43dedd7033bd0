-- ===== src/Edge/Watchtower/Retaining.antt =====
-- crates/fortis-edge/src/swap/store.rs, `purge`: what it never drops.
use mathlib.Core.List.{Memᴰ}
use mathlib.Core.List.Memᴰ.{head, tail, cases_cons}
use fortis.Common.{
  ℕ, ◌+◌, ◌*◌, ◌/◌, ◌≡◌, refl, sym, ap, subst, ◌∙◌, Bool, true, false, not, ◌&&◌, some, List, [],
  ◌∷◌, All, map, any, ◌==◌, ==_iff, if◌then◌else◌, arith, Bool-cases, inl, inr,
}
use fortis.Edge.Table.{Table, lookup}
use fortis.Edge.Records.{Offer, Match, WatchJob, WatchKind, redeem, refund, waiting_redeem}
use fortis.Chain.{Chain, btc, xbt}
use fortis.Edge.Store.{Db, Store, get_match, all_matches, all_offers, in_window}
use fortis.Edge.Watchtower.Jobs.{Tower, watch_jobs, watch_key, chain_index, key_tag}
use fortis.Edge.Watchtower.Retention.{
  is_old, is_purged, delete_jobs, purge_match, purge_matches, purge_offers, purge_strikes,
  purge_rest, pending_of, purge, is_droppable, offers_of,
}
use fortis.Edge.Watchtower.Sending.{keep-Memᴰ}

module _ (T : Table WatchJob) where
  delete_jobs-get :
      (id k : ℕ) (es : List (ℕ × WatchJob)) (rows : T.Rows)
      → (k / 6 == id) ≡ false
      → T.get (delete_jobs T id es rows) k ≡ T.get rows k
  unfolding delete_jobs
  delete_jobs-get id k [] rows h = refl
  delete_jobs-get id k ((i, j) ∷ es) rows h = elim (Bool-cases (i / 6 == id)) [
    | inr e ↦ rw e (delete_jobs-get id k es rows h)
    | inl e ↦
        rw e
          (delete_jobs-get id k es (T.delete rows i) h ∙ T.get-delete rows i k ∙ rw (other e) refl)
  ]
    where
      other : (i / 6 == id) ≡ true → (i == k) ≡ false
      other e = elim (Bool-cases (i == k)) [
        | inr g ↦ g
        | inl g ↦ absurd_key (subst (λ x. (x / 6 == id) ≡ true) ((==_iff i k).0 g) e)
      ]
        where
          absurd_key : (k / 6 == id) ≡ true → (i == k) ≡ false
          absurd_key q = cc

-- The matches of an id, if any, are not among those that are purged.
abbrev Spares : ℕ → ℕ → List ℕ → List Match → Type 0
Spares j now pending ms = All (λ m. (m.id == j) ≡ true → is_purged now pending m ≡ false) ms

module _ {db : Db} {T : Table WatchJob} (j : ℕ) where
  -- The match, its messages and its jobs are as they were.
  pub record Retains (t t' : Tower db T) : Type 0 where
    pub matches : get_match db t'.relay.store j ≡ get_match db t.relay.store j
    pub mail : t'.relay.mail j ≡ t.relay.mail j
    pub jobs : (k : ℕ) → (k / 6 == j) ≡ true → T.get t'.jobs k ≡ T.get t.jobs k

  Retains-trans : (a b c : Tower db T) → Retains a b → Retains b c → Retains a c
  Retains-trans a b c f g = record {
    matches = g.matches ∙ f.matches;
    mail = g.mail ∙ f.mail;
    jobs = λ k h. g.jobs k h ∙ f.jobs k h;
  }

  purge_match-Retains :
      (m : Match) (t : Tower db T) → (m.id == j) ≡ false → Retains t (purge_match m t)
  unfolding purge_match get_match
  purge_match-Retains m t h = record {
    matches = db.matches.get-delete t.relay.store.matches m.id j ∙ rw h refl;
    mail = rw h refl;
    jobs = λ k e. delete_jobs-get T m.id k (T.entries t.jobs) t.jobs (apart k e);
  }
    where
      apart : (k : ℕ) → (k / 6 == j) ≡ true → (k / 6 == m.id) ≡ false
      apart k e = ground (arith, h, e)

  purge_matches-Retains :
      (now : ℕ) (pending : List ℕ) (ms : List Match) (t : Tower db T)
      → Spares j now pending ms
      → Retains t (purge_matches now pending ms t)
  unfolding purge_matches
  purge_matches-Retains now pending [] t h = record {
    matches = refl;
    mail = refl;
    jobs = λ k e. refl;
  }
  purge_matches-Retains now pending (m ∷ ms) t h = elim (Bool-cases (is_purged now pending m)) [
    | inr e ↦ rw e (purge_matches-Retains now pending ms t h.1)
    | inl e ↦ rw e (
        Retains-trans t (purge_match m t) _ (purge_match-Retains m t (other e))
          (purge_matches-Retains now pending ms (purge_match m t) h.1))
  ]
    where
      other : is_purged now pending m ≡ true → (m.id == j) ≡ false
      other e = elim (Bool-cases (m.id == j)) [ inr g ↦ g | inl g ↦ absurd_purge (h.0 g) ]
        where
          absurd_purge : is_purged now pending m ≡ false → (m.id == j) ≡ false
          absurd_purge q = cc

module _ (db : Db) where
  purge_offers-matches :
      (now : ℕ) (ids : List ℕ) (os : List Offer) (s : Store db)
      → (purge_offers now ids os s).matches ≡ s.matches
  unfolding purge_offers
  purge_offers-matches now ids [] s = refl
  purge_offers-matches now ids (o ∷ os) s =
      purge_offers-matches now ids os _
      ∙ if_matches (not (any (λ id. id == o.id) ids) && is_droppable s o && is_old now o.expires_at)
    where
      if_matches :
          (b : Bool)
          → (if b then record s { offers = db.offers.delete s.offers o.id } else s).matches
            ≡ s.matches
      if_matches true = refl
      if_matches false = refl

  purge_strikes-matches :
      (now : ℕ) (es : List (ℕ × List ℕ)) (s : Store db)
      → (purge_strikes now es s).matches ≡ s.matches
  unfolding purge_strikes
  purge_strikes-matches now [] s = refl
  purge_strikes-matches now ((token, times) ∷ es) s =
      purge_strikes-matches now es _ ∙ if_matches (any (λ t. in_window t now) times)
    where
      if_matches :
          (b : Bool)
          → (if b then s else record s { strikes = db.strikes.delete s.strikes token }).matches
            ≡ s.matches
      if_matches true = refl
      if_matches false = refl

  purge_rest-matches : (now : ℕ) (s : Store db) → (purge_rest now s).matches ≡ s.matches
  unfolding purge_rest
  purge_rest-matches now s =
      let kept = offers_of (all_matches db s) in
      let s' = purge_offers now kept (all_offers db s) s in
      purge_strikes-matches now (db.strikes.entries s'.strikes) s'
      ∙ purge_offers-matches now kept (all_offers db s) s

module _ {V : Type 0} where
  lookup-Memᴰ :
      (es : List (ℕ × V)) (k : ℕ) (v : V) → lookup es k ≡ some v → Memᴰ v (map (λ e. e.1) es)
  lookup-Memᴰ [] k v h = cc
  lookup-Memᴰ ((i, w) ∷ es) k v h = elim (Bool-cases (i == k)) [
    | inl e ↦ head (sym (same_some (rw e at h)))
    | inr e ↦ tail (lookup-Memᴰ es k v (rw e at h))
  ]
    where
      same_some : some w ≡ some v → w ≡ v
      same_some g = cc

Memᴰ-map : {A B : Type 0} (f : A → B) (x : A) (xs : List A) → Memᴰ x xs → Memᴰ (f x) (map f xs)
Memᴰ-map f x [] h = elim h [ ]
Memᴰ-map f x (y ∷ xs) h = elim (cases_cons h) [
  | inl e ↦ head (ap f e)
  | inr m ↦ tail (Memᴰ-map f x xs m)
]

any-Memᴰ : (x : ℕ) (xs : List ℕ) → Memᴰ x xs → any (λ y. y == x) xs ≡ true
unfolding any
any-Memᴰ x [] h = elim h [ ]
any-Memᴰ x (y ∷ xs) h = elim (cases_cons h) [
  | inl e ↦ rw ((==_iff y x).1 (sym e)) refl
  | inr m ↦ ground (arith, any-Memᴰ x xs m)
]

-- A job's key tells its match.
watch_key-match : (job : WatchJob) → (watch_key job / 6 == job.match_id) ≡ true
unfolding watch_key
watch_key-match job = by_parts job.chain job.kind
  where
    by_parts :
        (c : Chain) (kind : WatchKind)
        → ((job.match_id * 6 + (chain_index c * 3 + key_tag kind)) / 6 == job.match_id) ≡ true
    by_parts btc redeem = ground arith
    by_parts btc refund = ground arith
    by_parts btc (waiting_redeem _ _ _) = ground arith
    by_parts xbt redeem = ground arith
    by_parts xbt refund = ground arith
    by_parts xbt (waiting_redeem _ _ _) = ground arith

module _ {db : Db} {T : Table WatchJob} (now : ℕ) (t : Tower db T) (job : WatchJob) where
  all-Spares :
      (ms : List Match)
      → any (λ y. y == job.match_id) (pending_of t) ≡ true
      → Spares job.match_id now (pending_of t) ms
  unfolding is_purged
  all-Spares [] h = tt
  all-Spares (m ∷ ms) h = ((λ e. spared e), all-Spares ms h)
    where
      spared : (m.id == job.match_id) ≡ true → is_purged now (pending_of t) m ≡ false
      spared e = ground (arith, still e)
        where
          still : (m.id == job.match_id) ≡ true → any (λ y. y == m.id) (pending_of t) ≡ true
          still e =
              subst (λ x. any (λ y. y == x) (pending_of t) ≡ true)
                (sym ((==_iff m.id job.match_id).0 e)) h

  pending_job :
      T.get t.jobs (watch_key job) ≡ some job → job.done ≡ false → Memᴰ job.match_id (pending_of t)
  unfolding watch_jobs
  pending_job h d =
      Memᴰ-map (λ j. j.match_id) job _
        (keep-Memᴰ (λ j. not j.done) job (watch_jobs t)
          (lookup-Memᴰ (T.entries t.jobs) (watch_key job) job
            (T.lookup-entries t.jobs (watch_key job) ∙ h))
          (rw d refl))

  -- Where the watchtower still has work to do for a match, the purge leaves the match, its messages
  -- and all its jobs as they are, however old they are; in particular that job.
  pub purge-Retains :
      T.get t.jobs (watch_key job) ≡ some job
      → job.done ≡ false
      → Retains job.match_id t (purge now t) × (T.get (purge now t).jobs (watch_key job) ≡ some job)
  unfolding purge get_match
  purge-Retains h d = (
    record { matches = of_rest ∙ kept.matches; mail = kept.mail; jobs = kept.jobs },
    kept.jobs (watch_key job) (watch_key-match job) ∙ h,
  )
    where
      ms : List Match
      ms = all_matches db t.relay.store

      is_pending : any (λ y. y == job.match_id) (pending_of t) ≡ true
      is_pending = any-Memᴰ job.match_id (pending_of t) (pending_job h d)

      kept : Retains job.match_id t (purge_matches now (pending_of t) ms t)
      kept = purge_matches-Retains job.match_id now (pending_of t) ms t (all-Spares ms is_pending)

      of_rest :
          db.matches.get
            (purge_rest now (purge_matches now (pending_of t) ms t).relay.store).matches
            job.match_id
          ≡ db.matches.get (purge_matches now (pending_of t) ms t).relay.store.matches job.match_id
      of_rest =
          ap (λ r. db.matches.get r job.match_id)
            (purge_rest-matches db now (purge_matches now (pending_of t) ms t).relay.store)
