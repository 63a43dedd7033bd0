-- ===== src/Edge/Watchtower/Sending.antt =====
-- crates/fortis-edge/src/swap/watchtower.rs, `run_jobs`: a refund that is due goes out in the pass.
use mathlib.Core.List.{Memᴰ}
use mathlib.Core.List.Memᴰ.{head, tail, cases_cons, append_left, append_right}
use fortis.Common.{
  ℕ, suc, ◌≡◌, ◌≤◌, refl, sym, ap, subst, ◌∙◌, Bool, true, false, not, Option, none, some, List, [],
  ◌∷◌, ◌++◌, keep, ltb, ok, arith, Bool-cases, inl, inr, u64_max,
}
use fortis.Chain.{Chain}
use fortis.Htlc.{Crate}
use fortis.Edge.Table.{Table}
use fortis.Edge.Records.{Match, WatchJob, refund}
use fortis.Edge.Store.{Db, get_match}
use fortis.Edge.Watchtower.{Tx, Unspent, Codec, decode_all, pick_variant}
use fortis.Edge.Watchtower.Jobs.{
  Reader, Tower, Turn, put_watch, watch_jobs, txs_by_kind, unwrap_or, note_sent, send, send_ready,
  work, run_seen, run_job,
}
use fortis.Edge.Watchtower.Variants.{IsPicked, cheapest, dearest, pick_variant-IsPicked}
use fortis.Edge.Watchtower.Turns.{
  Turned, rests, idles, confirms, sends, Basis, unspent, resent, adopted, Sent, turned_down, again,
  first, run_job-Turned,
}
use fortis.Edge.Watchtower.Passes.{run_each, run_jobs}

pub keep-Memᴰ :
    {A : Type 0} (p : A → Bool) (x : A) (xs : List A) → Memᴰ x xs → p x ≡ true → Memᴰ x (keep p xs)
unfolding keep
keep-Memᴰ p x [] h e = elim h [ ]
keep-Memᴰ p x (y ∷ xs) h e = elim (cases_cons h) [
  | inl q ↦ rw (ap p (sym q) ∙ e) (head q)
  | inr m ↦ elim (Bool-cases (p y)) [
    | inl g ↦ rw g (tail (keep-Memᴰ p x xs m e))
    | inr g ↦ rw g (keep-Memᴰ p x xs m e)
  ]
]

IsPicked-Memᴰ : (C : Codec) (v f : ℕ) (ts : List Tx) (t : Tx) → IsPicked C v f ts t → Memᴰ t ts
IsPicked-Memᴰ C v f ts t (cheapest m _ _) = m
IsPicked-Memᴰ C v f ts t (dearest m _ _) = m

module _ (C : Codec) (B : Crate) (point : ℕ → Option ℕ) (reader : Reader) (now : ℕ) (job : WatchJob)
    (out : Unspent) (m : Option Match) (txs : List Tx) where
  of_refund :
      job.not_before ≤ now
      → decode_all C job.variants ≡ ok txs
      → txs_by_kind C B point reader refund now job out false m ≡ ok (some txs)
  unfolding txs_by_kind
  of_refund due decodes = rw (early, decodes) refl
    where
      early : ltb now job.not_before ≡ false
      early = ground (arith, due)

  -- A refund that is due is ready.
  refund_ready :
      job.kind ≡ refund
      → job.not_before ≤ now
      → decode_all C job.variants ≡ ok txs
      → txs_by_kind C B point reader job.kind now job out false m ≡ ok (some txs)
  refund_ready is_refund due decodes =
      subst (λ k. txs_by_kind C B point reader k now job out false m ≡ ok (some txs))
        (sym is_refund) (of_refund due decodes)

-- One of the transactions is in the log, for its chain.
abbrev pub IsSent : Chain → List Tx → List (Chain × Tx) → Type 0
IsSent c txs log = (tx : Tx) × Memᴰ tx txs × Memᴰ (c, tx) log

module _ {db : Db} {T : Table WatchJob} (C : Codec) (B : Crate) (point : ℕ → Option ℕ)
    (now : ℕ) where
  -- Nothing that was sent leaves the log.
  abbrev pub KeepsSent : (Tower db T → Tower db T) → Type 0
  KeepsSent f = (t : Tower db T) (x : Chain × Tx) → Memᴰ x t.sent → Memᴰ x (f t).sent

  module _ (reader : Reader) (others : Tower db T → Tower db T) (quiet : KeepsSent others)
      (x : Chain × Tx) where
    note_sent-Memᴰ :
        (j : WatchJob) (out : Unspent) (p : Option (ℕ × ℕ)) (t : Tower db T)
        → Memᴰ x t.sent
        → Memᴰ x (note_sent C B point reader others now j out p t).sent
    unfolding note_sent put_watch
    note_sent-Memᴰ j out none t h = quiet t x h
    note_sent-Memᴰ j out (some _) t h = h

    send-Memᴰ :
        (j : WatchJob) (out : Unspent) (tx : Tx) (t : Tower db T)
        → Memᴰ x (t.sent ++ (j.chain, tx) ∷ [])
        → Memᴰ x (send C B point reader others now j out (some tx) t).0.sent
    unfolding send
    send-Memᴰ j out tx t h = elim (Bool-cases (reader.broadcast j.chain tx)) [
      | inl e ↦ rw e (note_sent-Memᴰ j out j.sent_prevout _ h)
      | inr e ↦ rw e h
    ]

    basis-Memᴰ :
        (job j : WatchJob) (t from : Tower db T) (out : Unspent) (resend : Bool)
        → Basis C B point reader others now job t j out resend from
        → Memᴰ x t.sent
        → Memᴰ x from.sent
    basis-Memᴰ job j t from out resend (unspent _ _) h = h
    basis-Memᴰ job j t from out resend (resent _ _ _ _ _) h = h
    basis-Memᴰ job j t from out resend (adopted _ _ _ _ _) h = quiet t x h

    sent-Memᴰ :
        (job : WatchJob) (t : Tower db T) (j : WatchJob) (out : Unspent) (tx : Tx)
        (from : Tower db T) (after : Turn db T)
        → Sent C B point reader others now job t j out tx from after
        → Memᴰ x (from.sent ++ (j.chain, tx) ∷ [])
        → Memᴰ x after.0.sent
    sent-Memᴰ job t j out tx from _ (turned_down _) h = h
    sent-Memᴰ job t j out tx from _ (again _ _ _) h = h
    sent-Memᴰ job t j out tx from _ (first _ _) h = quiet _ x h

    turned-Memᴰ :
        (job : WatchJob) (t : Tower db T) (r : Turn db T)
        → Turned C B point reader others now job t r
        → Memᴰ x t.sent
        → Memᴰ x r.0.sent
    turned-Memᴰ job t r (rests j out resend from e b) h = basis-Memᴰ job j t from out resend b h
    turned-Memᴰ job t r (idles e) h = h
    turned-Memᴰ job t r (confirms _ _) h = quiet t x h
    turned-Memᴰ job t r (sends j out resend from txs tx after b _ _ s) h =
        sent-Memᴰ job t j out tx from after s
          (append_left ((j.chain, tx) ∷ []) (basis-Memᴰ job j t from out resend b h))

  module _ (job : WatchJob) (t0 : Tx) (ts : List Tx) (is_refund : job.kind ≡ refund)
      (due : job.not_before ≤ now) (decodes : decode_all C job.variants ≡ ok (t0 ∷ ts)) where
    refund_sent :
        (reader : Reader) (others : Tower db T → Tower db T) (quiet : KeepsSent others)
        (t : Tower db T) (out : Unspent)
        → reader.txout job.chain job.htlc ≡ some (some out)
        → IsSent job.chain (t0 ∷ ts) (run_job C B point reader others now job t).0.sent
    unfolding run_job run_seen work send_ready
    refund_sent reader others quiet t out e =
        let (tx, p, k) =
          pick_variant-IsPicked C out.value_sat (unwrap_or (reader.feerate job.chain) u64_max) t0
            ts in
        (
          tx,
          IsPicked-Memᴰ C _ _ _ tx k,
          subst (λ r. Memᴰ (job.chain, tx) r.0.sent) (sym (steps tx p))
              (send-Memᴰ reader others quiet (job.chain, tx) job out tx t
                (append_right t.sent (head refl))),
        )
      where
        steps :
            (tx : Tx)
            → pick_variant C (t0 ∷ ts) out.value_sat (unwrap_or (reader.feerate job.chain) u64_max)
              ≡ some tx
            → run_seen C B point reader others now job (reader.txout job.chain job.htlc) t
              ≡ send C B point reader others now job out (some tx) t
        steps tx p =
            ap (λ x. run_seen C B point reader others now job x t) e
            ∙ ap (λ x. send_ready C B point reader others now job out x t)
                (refund_ready C B point reader now job out (get_match db t.relay.store job.match_id)
                  (t0 ∷ ts) is_refund due decodes)
            ∙ ap (λ x. send C B point reader others now job out x t) p

  module _ (view : ℕ → Reader) (others : ℕ → Tower db T → Tower db T)
      (quiet : (i : ℕ) → KeepsSent (others i)) where
    run_each-Memᴰ :
        (x : Chain × Tx) (i : ℕ) (js : List WatchJob) (t : Tower db T)
        → Memᴰ x t.sent
        → Memᴰ x (run_each C B point view now others i js t).sent
    unfolding run_each
    run_each-Memᴰ x i [] t h = h
    run_each-Memᴰ x i (j ∷ js) t h = run_each-Memᴰ x (suc (suc i)) js _ (
        turned-Memᴰ (view i) (others (suc i)) (quiet (suc i)) x j (others i t) _
          (run_job-Turned C B point (view i) (others (suc i)) now j (others i t)) (quiet i t x h))

    module _ (job : WatchJob) (t0 : Tx) (ts : List Tx) (out : ℕ → Unspent)
        (is_refund : job.kind ≡ refund) (due : job.not_before ≤ now)
        (decodes : decode_all C job.variants ≡ ok (t0 ∷ ts))
        (unspent_still : (i : ℕ) → (view i).txout job.chain job.htlc ≡ some (some (out i))) where
      run_each-IsSent :
          (i : ℕ) (js : List WatchJob) (t : Tower db T)
          → Memᴰ job js
          → IsSent job.chain (t0 ∷ ts) (run_each C B point view now others i js t).sent
      unfolding run_each
      run_each-IsSent i [] t h = elim h [ ]
      run_each-IsSent i (j ∷ js) t h = elim (cases_cons h) [
        | inr m ↦ run_each-IsSent (suc (suc i)) js _ m
        | inl e ↦
            let r =
              refund_sent job t0 ts is_refund due decodes (view i) (others (suc i)) (quiet (suc i))
                (others i t) (out i) (unspent_still i) in
            (
              r.0,
              r.1,
              run_each-Memᴰ (job.chain, r.0) (suc (suc i)) js _
                  (subst
                    (λ k.
                      Memᴰ (job.chain, r.0)
                        (run_job C B point (view i) (others (suc i)) now k (others i t)).0.sent)
                    e r.2),
            )
      ]

      -- A refund that was handed to the watchtower, whose transactions decode and whose time has come,
      -- is given to its chain within the pass, one of its transactions at least, while its HTLC is
      -- unspent: whatever becomes of the other jobs, and whatever others do meanwhile that leaves the
      -- log of what was sent.
      pub run_jobs-IsSent :
          (t : Tower db T)
          → Memᴰ job (watch_jobs t)
          → job.done ≡ false
          → IsSent job.chain (t0 ∷ ts) (run_jobs C B point view now others t).sent
      unfolding run_jobs
      run_jobs-IsSent t h d =
          run_each-IsSent 0 (keep (λ j. not j.done) (watch_jobs t)) t
            (keep-Memᴰ (λ j. not j.done) job (watch_jobs t) h (rw d refl))
