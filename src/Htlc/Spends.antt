-- ===== src/Htlc/Spends.antt =====
-- crates/wallet-core/src/htlc.rs: what a contract commits to, and what its spends pay.
use fortis.Common.{
  ℕ, ◌+◌, ◌≡◌, ◌≤◌, ◌-◌, refl, subst, ap, List, [], ◌∷◌, some, Result, ok, err, ◌>>=◌, arith,
  sum_by,
}
use fortis.Chain.{ChainParams, segwit_v0, unified, SighashVariant, sighash_variant}
use fortis.Error.{WalletError}
use fortis.Htlc.{
  Op, Crate, HtlcContract, HtlcPath, redeem, refund, release, Spend, script_hashlock,
  contract_script, contract_script_v2, script_of, try_build, spend_outputs, guard_of,
  spend_skeleton, redeem_tx, refund_tx, release_tx, spend_on,
}

module _ (B : Crate) where
  v1-hashlock : (h r f l : ℕ) → script_hashlock (contract_script B h r f l) ≡ some h
  unfolding contract_script script_hashlock
  v1-hashlock h r f l = refl

  v2-hashlock : (h r f l : ℕ) → script_hashlock (contract_script_v2 B h r f l) ≡ some h
  unfolding contract_script_v2 script_hashlock
  v2-hashlock h r f l = refl

  script_of-hashlock :
      (version h r f l : ℕ) (ws : List Op)
      → script_of B version h r f l ≡ ok ws
      → script_hashlock ws ≡ some h
  unfolding script_of
  script_of-hashlock version h r f l ws e =
      ground (arith, e, v1-hashlock h r f l, v2-hashlock h r f l)

  -- The contract of a built script.
  built :
      (chain : ChainParams) (version h r f l v : ℕ) (c : HtlcContract)
      → try_build B chain version h r f l v ≡ ok c
      → (script_of B version h r f l ≡ ok c.witness_script)
        × (c.script_pubkey ≡ B.p2wsh c.witness_script)
        × (c.hashlock ≡ h)
        × (c.locktime ≡ l)
        × (c.value ≡ v)
  unfolding try_build
  built chain version h r f l v c e = go (script_of B version h r f l) refl e
    where
      same :
          (s : List Op) (c : HtlcContract)
          → record {
            version = version;
            witness_script = s;
            script_pubkey = B.p2wsh s;
            value = v;
            hashlock = h;
            locktime = l;
            sighash_variant = sighash_variant chain;
          }
            ≡ c
          → (s ≡ c.witness_script)
            × (c.script_pubkey ≡ B.p2wsh c.witness_script)
            × (c.hashlock ≡ h)
            × (c.locktime ≡ l)
            × (c.value ≡ v)
      same s c q =
          subst
            (λ d.
              (s ≡ d.witness_script)
              × (d.script_pubkey ≡ B.p2wsh d.witness_script)
              × (d.hashlock ≡ h)
              × (d.locktime ≡ l)
              × (d.value ≡ v))
            q (refl, refl, refl, refl, refl)

      go :
          (ws : Result WalletError (List Op))
          → script_of B version h r f l ≡ ws
          → (ws >>= λ s. ok (record {
            version = version;
            witness_script = s;
            script_pubkey = B.p2wsh s;
            value = v;
            hashlock = h;
            locktime = l;
            sighash_variant = sighash_variant chain;
          }))
            ≡ ok c
          → (ws ≡ ok c.witness_script)
            × (c.script_pubkey ≡ B.p2wsh c.witness_script)
            × (c.hashlock ≡ h)
            × (c.locktime ≡ l)
            × (c.value ≡ v)
      go (err x) q e = absurd (cc e)
      go (ok s) q e = let (a, b, x, y, z) = same s c (cc e) in (ap (λ w. ok w) a, b, x, y, z)

  guard_free : (v : SighashVariant) → sum_by (λ o. o.value) (guard_of B v) ≡ 0
  unfolding guard_of sum_by
  guard_free segwit_v0 = refl
  guard_free unified = refl

  -- The lock time that a path needs: only the refund waits.
  abbrev pub lock_of : HtlcContract → HtlcPath → ℕ
  lock_of c refund = c.locktime
  lock_of c redeem = 0
  lock_of c release = 0

  -- One input, the contract's, whose value is paid to one script, a fee aside.
  pub record SpendsAll (c : HtlcContract) (prevout : ℕ × ℕ) (to fee lock_time : ℕ) (tx : Spend)
      : Type 0 where
    pub spends : tx.previous_output ≡ prevout
    pub locked : tx.lock_time ≡ lock_time
    pub payout : ℕ
    pub pays :
        tx.output ≡ record { value = payout; script_pubkey = to } ∷ guard_of B c.sighash_variant
    pub kept : payout + fee ≡ c.value
    pub total : sum_by (λ o. o.value) tx.output + fee ≡ c.value

  skeleton_parts :
      (c : HtlcContract) (prevout : ℕ × ℕ) (to fee lock_time : ℕ) (tx : Spend)
      → spend_skeleton B c prevout to fee lock_time ≡ ok tx
      → (fee ≤ c.value)
        × (record {
          lock_time = lock_time;
          previous_output = prevout;
          witness = [];
          output = spend_outputs B c (c.value - fee) to;
        }
            ≡ tx)
  unfolding spend_skeleton
  skeleton_parts c prevout to fee lock_time tx h = ground arith

  skeleton-SpendsAll :
      (c : HtlcContract) (prevout : ℕ × ℕ) (to fee lock_time : ℕ) (tx : Spend)
      → spend_skeleton B c prevout to fee lock_time ≡ ok tx
      → SpendsAll c prevout to fee lock_time tx
  unfolding spend_outputs sum_by
  skeleton-SpendsAll c prevout to fee lock_time tx h =
      let p = skeleton_parts c prevout to fee lock_time tx h in
      subst (λ t. SpendsAll c prevout to fee lock_time t) p.1
        (record {
          spends = refl;
          locked = refl;
          payout = c.value - fee;
          pays = refl;
          kept = omega (arith, p.0);
          total = omega (arith, p.0, guard_free c.sighash_variant);
        })

  -- A contract is spent with one input, its own, whose whole value goes to one script but for the
  -- fee. A refund waits for the contract's lock time, and the other paths for nothing.
  pub spend_on-SpendsAll :
      (c : HtlcContract) (path : HtlcPath) (prevout : ℕ × ℕ) (to fee : ℕ) (tx : Spend)
      → spend_on B c path prevout to fee ≡ ok tx
      → SpendsAll c prevout to fee (lock_of c path) tx
  unfolding spend_on redeem_tx refund_tx release_tx
  spend_on-SpendsAll c redeem prevout to fee tx h = skeleton-SpendsAll c prevout to fee 0 tx h
  spend_on-SpendsAll c refund prevout to fee tx h =
      skeleton-SpendsAll c prevout to fee c.locktime tx h
  spend_on-SpendsAll c release prevout to fee tx h =
      skeleton-SpendsAll c prevout to fee 0 tx (ground (arith, h))

  -- The hashlock that a contract was built with is found in the script that its address commits
  -- to, and in its own record.
  pub try_build-script_hashlock :
      (chain : ChainParams) (version h r f l v : ℕ) (c : HtlcContract)
      → try_build B chain version h r f l v ≡ ok c
      → (script_hashlock c.witness_script ≡ some h)
        × (c.hashlock ≡ h)
        × (c.script_pubkey ≡ B.p2wsh c.witness_script)
  try_build-script_hashlock chain version h r f l v c e =
      let b = built chain version h r f l v c e in
      (script_of-hashlock version h r f l c.witness_script b.0, b.2, b.1)
