-- ===== src/Edge/Watchtower/Handed.antt =====
-- crates/fortis-edge/src/swap/mod.rs, `watch`: what a job that the watchtower was handed satisfies.
use fortis.Common.{
  ok_of_bind, passed, ℕ, ◌≡◌, ◌≤◌, refl, ap, subst, Bool, true, false, not, ◌||◌, Option, none,
  some, List, [], ◌∷◌, All, length, ltb, ◌==◌, Result, ok, err, ok_or, arith,
}
use fortis.Chain.{Chain}
use fortis.Terms.{SwapRole}
use fortis.Edge.Records.{Funding, WatchJob, WatchKind, refund, redeem, waiting_redeem}
use fortis.Edge.Messages.{Decoder}
use fortis.Edge.Messages.Steps.{same_pair_lem}
use fortis.Edge.Messages.Posts.{parse_chain, sends_on}
use fortis.Edge.Messages.Releases.{spends_only}
use fortis.Edge.Watchtower.{Codec, Tx, TowerError, collect_txs, decode, decode_all}
use fortis.Edge.Watchtower.Handing.{
  WatchReq, job_of, is_refund, same_bool, all, outpoints, presigned, plain, kind_of, tx_spends,
  spends_htlc, watch_job, max_variants,
}

true_of_not : (b : Bool) → not b ≡ false → b ≡ true
true_of_not true h = refl
true_of_not false h = cc

-- One signature for each variant, where there are signatures.
abbrev pub IsSigned : WatchKind → ℕ → Type 0
IsSigned refund n = Unit
IsSigned redeem n = Unit
IsSigned (waiting_redeem _ _ sigs) n = length sigs ≡ n

module _ (htlc : Funding) where
  abbrev pub Spends : Tx → Type 0
  Spends tx = outpoints tx.input ≡ htlc ∷ []

  spends_only_lem : (fs : List Funding) → spends_only htlc fs ≡ true → fs ≡ htlc ∷ []
  unfolding spends_only
  spends_only_lem [] h = cc
  spends_only_lem (f ∷ []) h = ap (λ x. x ∷ []) (same_pair_lem f htlc h)
  spends_only_lem (_ ∷ _ ∷ _) h = cc

  tx_spends-Spends :
      (C : Codec) (x : Result TowerError Tx)
      → tx_spends C htlc x ≡ true
      → (tx : Tx) × (x ≡ ok tx) × Spends tx
  tx_spends-Spends C (ok tx) h = (tx, refl, spends_only_lem (outpoints tx.input) h)
  tx_spends-Spends C (err e) h = cc

  -- Texts that are all transactions, each with the outpoint as its only input.
  pub record AreSpends (x : Result TowerError (List Tx)) : Type 0 where
    pub txs : List Tx
    pub decoded : x ≡ ok txs
    pub spending : All Spends txs

  module _ (C : Codec) where
    collected-AreSpends :
        (vs : List ℕ) → all (spends_htlc C htlc) vs ≡ true → AreSpends (collect_txs C vs)
    unfolding collect_txs spends_htlc
    collected-AreSpends [] h = record { txs = []; decoded = refl; spending = tt }
    collected-AreSpends (v ∷ vs) h =
        let d = tx_spends-Spends C (decode C v) (ground (arith, h)) in
        let r = collected-AreSpends vs (ground (arith, h)) in
        record { txs = d.0 ∷ r.txs; decoded = cc; spending = (d.2, r.spending) }

    decoded-AreSpends :
        (vs : List ℕ)
        → 1 ≤ length vs
        → all (spends_htlc C htlc) vs ≡ true
        → AreSpends (decode_all C vs)
    unfolding decode_all collect_txs spends_htlc
    decoded-AreSpends [] n h = absurd (omega (arith, n))
    decoded-AreSpends (v ∷ vs) n h =
        let d = tx_spends-Spends C (decode C v) (ground (arith, h)) in
        let r = collected-AreSpends vs (ground (arith, h)) in
        record { txs = d.0 ∷ r.txs; decoded = cc; spending = (d.2, r.spending) }

module _ (C : Codec) (w : WatchReq) where
  plain-IsSigned : (kind : WatchKind) → plain C w ≡ ok kind → IsSigned kind (length w.variants)
  unfolding plain
  plain-IsSigned refund h = tt
  plain-IsSigned redeem h = tt
  plain-IsSigned (waiting_redeem key ws sigs) h = absurd (ground (arith, h))

  presigned-IsSigned :
      (sigs : List ℕ) (key ws : ℕ) (kind : WatchKind)
      → presigned C w sigs key ws ≡ ok kind
      → IsSigned kind (length w.variants)
  unfolding presigned
  presigned-IsSigned sigs key ws refund h = tt
  presigned-IsSigned sigs key ws redeem h = tt
  presigned-IsSigned sigs key ws (waiting_redeem k s sigs') h = ground (arith, h)

  kind-IsSigned :
      (sigs : Option (List ℕ)) (key ws : Option ℕ) (kind : WatchKind)
      → kind_of C w sigs key ws ≡ ok kind
      → IsSigned kind (length w.variants)
  unfolding kind_of
  kind-IsSigned none none none kind h = plain-IsSigned kind h
  kind-IsSigned (some sigs) (some key) (some ws) kind h = presigned-IsSigned sigs key ws kind h
  kind-IsSigned none (some _) ws kind h = cc
  kind-IsSigned none none (some _) kind h = cc
  kind-IsSigned (some sigs) none ws kind h = cc
  kind-IsSigned (some sigs) (some key) none kind h = cc

module _ (C : Codec) (D : Decoder) (role : SwapRole) (match_id : ℕ) (w : WatchReq) where
  -- A job that passes the checks of the route.
  pub record IsSound (job : WatchJob) : Type 0 where
    pub of_match : job.match_id ≡ match_id
    pub own : same_bool (sends_on role (some job.chain)) (is_refund job.kind) ≡ true
    pub few_variants : (1 ≤ length job.variants) × (length job.variants ≤ max_variants)
    pub spending : AreSpends job.htlc (decode_all C job.variants)
    pub signed : IsSigned job.kind (length job.variants)
    pub undone : job.done ≡ false

  made-IsSound :
      (chain : Chain) (kind : WatchKind) (txid : ℕ)
      → IsSigned kind (length w.variants)
      → same_bool (sends_on role (some chain)) (is_refund kind) ≡ true
      → (length w.variants == 0 || ltb max_variants (length w.variants)) ≡ false
      → all (spends_htlc C (txid, w.vout)) w.variants ≡ true
      → IsSound (job_of match_id chain kind (txid, w.vout) w)
  made-IsSound chain kind txid k o n s = record {
    of_match = refl;
    own = o;
    few_variants = (ground (arith, n), ground (arith, n));
    spending = decoded-AreSpends (txid, w.vout) C w.variants (ground (arith, n)) s;
    signed = k;
    undone = refl;
  }

  pub watch_job-IsSound : (job : WatchJob) → watch_job C D role match_id w ≡ ok job → IsSound job
  unfolding watch_job
  watch_job-IsSound job h =
      let (chain, c, h1) = ok_of_bind (ok_or (parse_chain w.chain) 400) _ job h in
      let (kind, k, h2) = ok_of_bind (kind_of C w w.sigs w.pubkey w.witness_script) _ job h1 in
      let (o, h3) = passed _ 403 _ job h2 in
      let (txid, t, h4) = ok_of_bind (ok_or (D.txid w.txid) 400) _ job h3 in
      let (n, h5) = passed _ 400 _ job h4 in
      let (s, h6) = passed _ 400 _ job h5 in
      is_made (job_of match_id chain kind (txid, w.vout) w) job h6 (
        made-IsSound chain kind txid (kind-IsSigned C w _ _ _ kind k) (true_of_not _ o) n
          (true_of_not _ s))
    where
      is_made : (a b : WatchJob) → ◌≡◌ {A = Result ℕ WatchJob} (ok a) (ok b) → IsSound a → IsSound b
      is_made a b e s = subst IsSound (cc e) s
