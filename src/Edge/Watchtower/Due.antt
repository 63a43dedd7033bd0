-- ===== src/Edge/Watchtower/Due.antt =====
-- crates/fortis-edge/src/swap/watchtower.rs: when a job's transactions may be sent, and which they are.
use fortis.Common.{
  ok_of_bind, passed, ℕ, ◌≡◌, ◌≤◌, ◌⊎◌, refl, sym, Bool, true, not, ◌&&◌, Option, none, some, List,
  [], ◌∷◌, keep, length, ltb, ◌==◌, Result, ok, err, arith, Bool-cases, Option-cases, inl, inr,
}
use fortis.Chain.{Chain, SighashVariant, sighash_variant}
use fortis.Terms.{network_params}
use fortis.Htlc.{Crate, Item}
use fortis.Edge.Records.{Match, Funding, WatchJob, WatchKind, refund, redeem, waiting_redeem}
use fortis.Edge.Messages.Chained.{slot, params_on}
use fortis.Edge.Watchtower.{
  Tx, Unspent, Codec, TowerError, read_failed, wrong_sigs, no_valid, decode, decode_all, some_txs,
  preimage_in, finish_all, signature_covers,
}
use fortis.Edge.Watchtower.Jobs.{
  Reader, Ready, ready, confs_on, other_chain, redeem_txs, finished_txs, finished_under, or_unknown,
  preimage_then, opened_by, opened_at, waiting_txs, txs_by_kind,
}

ready-some :
    (x : Result TowerError (List Tx)) (txs : List Tx) → ready x ≡ ok (some txs) → x ≡ ok txs
ready-some (ok a) txs h = cc
ready-some (err e) txs h = cc

some_txs_lem : (C : Codec) (e : TowerError) (xs txs : List Tx) → some_txs C e xs ≡ ok txs → xs ≡ txs
some_txs_lem C e [] txs h = cc
some_txs_lem C e (x ∷ xs) txs h = cc

module _ (C : Codec) (B : Crate) (point : ℕ → Option ℕ) (reader : Reader) (now : ℕ) (job : WatchJob)
    (out : Unspent) (resend : Bool) where
  -- Why a transaction may be among those that are sent.
  pub data IsDue (m : Option Match) (txs : List Tx) : Type 0 where
    refund_due :
        job.kind ≡ refund → job.not_before ≤ now → decode_all C job.variants ≡ ok txs → IsDue m txs
    redeem_due :
        (k : Match)
        → job.kind ≡ redeem
        → m ≡ some k
        → (resend ≡ true) ⊎ (confs_on job.chain k.terms ≤ out.confirmations)
        → decode_all C job.variants ≡ ok txs
        → IsDue m txs
    opened_due :
        (k : Match) (op : Funding) (h text key ws : ℕ) (sigs : List ℕ) (spender : Tx)
        (preimage : Item) (variant : SighashVariant)
        → job.kind ≡ waiting_redeem key ws sigs
        → m ≡ some k
        → slot (other_chain job.chain) k ≡ some op
        → k.hashlock ≡ some h
        → reader.spending_tx_hex (other_chain job.chain) op ≡ some (some text)
        → decode C text ≡ ok spender
        → preimage_in C op h spender.input ≡ some preimage
        → txs
          ≡ keep (signature_covers C out variant) (finish_all C job.variants sigs key ws preimage)
        → IsDue m txs

  redeem-IsDue :
      (m : Option Match) (txs : List Tx)
      → job.kind ≡ redeem
      → redeem_txs C B point reader job out resend m ≡ ok (some txs)
      → IsDue m txs
  unfolding redeem_txs
  redeem-IsDue none txs k h = cc
  redeem-IsDue (some m) txs k h =
      elim (Bool-cases (not resend && ltb out.confirmations (confs_on job.chain m.terms))) [
        | inl e ↦ cc_of (rw e at h)
        | inr e ↦ redeem_due m k refl (ground (arith, e)) (ready-some _ txs (rw e at h))
      ]
    where
      cc_of : ◌≡◌ {A = Ready} (ok none) (ok (some txs)) → IsDue (some m) txs
      cc_of h = cc

  -- The preimage that the spend of the other leg reveals, and where it is read.
  record Opened (c : Chain) (f : Option Funding) (hashlock : Option ℕ) : Type 0 where
    op : Funding
    h : ℕ
    text : ℕ
    spender : Tx
    preimage : Item
    funded : f ≡ some op
    locked : hashlock ≡ some h
    spent : reader.spending_tx_hex c op ≡ some (some text)
    decoded : decode C text ≡ ok spender
    reveals : preimage_in C op h spender.input ≡ some preimage

  opened_by-Opened :
      (k : Item → Ready) (c : Chain) (op : Funding) (text : Option ℕ) (hl : Option ℕ)
      (txs : List Tx)
      → reader.spending_tx_hex c op ≡ some text
      → opened_by C B point reader k op text hl ≡ ok (some txs)
      → (o : Opened c (some op) hl) × (k o.preimage ≡ ok (some txs))
  unfolding opened_by preimage_then
  opened_by-Opened k c op none hl txs e h = cc
  opened_by-Opened k c op (some text) none txs e h =
      let d = ok_of_bind (decode C text) (λ tx. ok none) (some txs) h in none_read d.2
    where
      none_read :
          ◌≡◌ {A = Ready} (ok none) (ok (some txs))
          → (o : Opened c (some op) none) × (k o.preimage ≡ ok (some txs))
      none_read q = cc
  opened_by-Opened k c op (some text) (some hl) txs e h =
      let d =
        ok_of_bind (decode C text)
          (λ tx. preimage_then C B point reader k (preimage_in C op hl tx.input)) (some txs) h in
      reveal d.0 d.1 (preimage_in C op hl d.0.input) refl d.2
    where
      reveal :
          (spender : Tx)
          → decode C text ≡ ok spender
          → (p : Option Item) → preimage_in C op hl spender.input ≡ p
          → preimage_then C B point reader k p ≡ ok (some txs)
          → (o : Opened c (some op) (some hl)) × (k o.preimage ≡ ok (some txs))
      reveal spender d none g q = cc
      reveal spender d (some p) g q = (
        record {
          op = op;
          h = hl;
          text = text;
          spender = spender;
          preimage = p;
          funded = refl;
          locked = refl;
          spent = e;
          decoded = d;
          reveals = g;
        },
        q,
      )

  opened_at-Opened :
      (k : Item → Ready) (c : Chain) (f : Option Funding) (hl : Option ℕ) (txs : List Tx)
      → opened_at C B point reader k c f hl ≡ ok (some txs)
      → (o : Opened c f hl) × (k o.preimage ≡ ok (some txs))
  unfolding opened_at
  opened_at-Opened k c none hl txs h = cc
  opened_at-Opened k c (some op) hl txs h = elim (Option-cases (reader.spending_tx_hex c op)) [
    | inl e ↦ none_read (rw e at h)
    | inr (text, e) ↦ opened_by-Opened k c op text hl txs e (rw e at h)
  ]
    where
      none_read :
          ◌≡◌ {A = Ready} (err read_failed) (ok (some txs))
          → (o : Opened c (some op) hl) × (k o.preimage ≡ ok (some txs))
      none_read q = cc

  finished_lem :
      (key ws : ℕ) (sigs : List ℕ) (m : Match) (p : Item) (txs : List Tx)
      → finished_txs C B point reader job key ws sigs out m p ≡ ok (some txs)
      → (variant : SighashVariant) × (txs
          ≡ keep (signature_covers C out variant) (finish_all C job.variants sigs key ws p))
  unfolding finished_txs finished_under
  finished_lem key ws sigs m p txs h =
      let (params, _, q) =
        ok_of_bind (or_unknown C B point reader (network_params m.terms.network))
          (finished_under C B point reader job key ws sigs out p) txs (ready-some _ txs h) in
      (
        sighash_variant (params_on job.chain params),
        sym (
            some_txs_lem C no_valid _ txs
              (passed (not (length sigs == length job.variants)) wrong_sigs _ txs q).1),
      )

  waiting-IsDue :
      (key ws : ℕ) (sigs : List ℕ) (m : Option Match) (txs : List Tx)
      → job.kind ≡ waiting_redeem key ws sigs
      → waiting_txs C B point reader job key ws sigs out m ≡ ok (some txs)
      → IsDue m txs
  unfolding waiting_txs
  waiting-IsDue key ws sigs none txs k h = cc
  waiting-IsDue key ws sigs (some m) txs k h =
      let (o, q) =
        opened_at-Opened (finished_txs C B point reader job key ws sigs out m)
          (other_chain job.chain) (slot (other_chain job.chain) m) m.hashlock txs h in
      let (v, g) = finished_lem key ws sigs m o.preimage txs q in
      opened_due m o.op o.h o.text key ws sigs o.spender o.preimage v k refl o.funded o.locked
        o.spent o.decoded o.reveals g

  kind-IsDue :
      (kind : WatchKind) (m : Option Match) (txs : List Tx)
      → job.kind ≡ kind
      → txs_by_kind C B point reader kind now job out resend m ≡ ok (some txs)
      → IsDue m txs
  unfolding txs_by_kind
  kind-IsDue refund m txs k h = elim (Bool-cases (ltb now job.not_before)) [
    | inl e ↦ none_due (rw e at h)
    | inr e ↦ refund_due k (ground (arith, e)) (ready-some _ txs (rw e at h))
  ]
    where
      none_due : ◌≡◌ {A = Ready} (ok none) (ok (some txs)) → IsDue m txs
      none_due q = cc
  kind-IsDue redeem m txs k h = redeem-IsDue m txs k h
  kind-IsDue (waiting_redeem key ws sigs) m txs k h = waiting-IsDue key ws sigs m txs k h

  pub txs_by_kind-IsDue :
      (m : Option Match) (txs : List Tx)
      → txs_by_kind C B point reader job.kind now job out resend m ≡ ok (some txs)
      → IsDue m txs
  txs_by_kind-IsDue m txs h = kind-IsDue job.kind m txs refl h
