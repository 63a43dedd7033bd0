-- ===== src/Wallet/Destination.antt =====
-- crates/wallet-core/src/wallet.rs: the one destination of a fee-inclusive payment, and the size of
-- what is paid to it.
use fortis.Common.{
  ℕ, ◌≤◌, ◌<◌, ◌≡◌, refl, subst, ap, Bool, true, false, none, some, Option, List, [], ◌∷◌, ◌++◌, ok,
  length, arith, u64_mod, sat_add, All, not, keep, if◌then◌else◌,
}
use fortis.Wallet.{Scripts, TxOut, outputs_vb}
use fortis.Wallet.View.{vb_of, to_list, single_dest, split_dest}

module _ (S : Scripts) where
  abbrev pub IsData : TxOut S → Type 0
  IsData o = S.is_op_return o.script_pubkey ≡ true

  -- The one output of a list that is no data.
  pub record IsOnly (outputs before : List (TxOut S)) (dest : TxOut S) (after : List (TxOut S))
      : Type 0 where
    pub split : outputs ≡ before ++ dest ∷ after
    pub data_before : All IsData before
    pub spendable : S.is_op_return dest.script_pubkey ≡ false
    pub data_after : All IsData after

  none_kept :
      (os : List (TxOut S))
      → length (keep (λ o. not (S.is_op_return o.script_pubkey)) os) ≤ 0
      → All IsData os
  unfolding keep
  none_kept [] h = tt
  none_kept (o ∷ os) h = ground (arith, none_kept os)

  -- The parts of a split at the first output that is no data.
  abbrev IsSplit : List (TxOut S) → List (TxOut S) × TxOut S × List (TxOut S) → Type 0
  IsSplit os (before, dest, after) =
      (os ≡ before ++ dest ∷ after)
      × All IsData before
      × (S.is_op_return dest.script_pubkey ≡ false)

  moved-IsSplit :
      (os : List (TxOut S)) (t u : List (TxOut S) × TxOut S × List (TxOut S))
      → some t ≡ some u
      → IsSplit os t
      → IsSplit os u
  moved-IsSplit os t u h s = subst (λ x. IsSplit os x) (some_same t u h) s
    where
      some_same : (t u : List (TxOut S) × TxOut S × List (TxOut S)) → some t ≡ some u → t ≡ u
      some_same t u h = cc h

  split_dest-IsSplit :
      (os : List (TxOut S)) (t : List (TxOut S) × TxOut S × List (TxOut S))
      → split_dest S os ≡ some t
      → IsSplit os t
  unfolding split_dest
  split_dest-IsSplit [] t h = absurd (ground (arith, h))
  split_dest-IsSplit (o ∷ os) t h =
      at_rest (split_dest-IsSplit os) (S.is_op_return o.script_pubkey) refl (split_dest S os) refl h
    where
      at_rest :
          ((t : List (TxOut S) × TxOut S × List (TxOut S))
            → split_dest S os ≡ some t
            → IsSplit os t)
          → (b : Bool) → S.is_op_return o.script_pubkey ≡ b
          → (r : Option (List (TxOut S) × TxOut S × List (TxOut S))) → split_dest S os ≡ r
          → (if b
              then elim r [ none ↦ none | some (b, d, a) ↦ some (o ∷ b, d, a) ]
              else some ([], o, os))
            ≡ some t
          → IsSplit (o ∷ os) t
      at_rest IH true e none er h = absurd (cc h)
      at_rest IH true e (some (b, d, a)) er h =
          let (p, q, f) = IH (b, d, a) er in
          moved-IsSplit (o ∷ os) (o ∷ b, d, a) t h (ap (λ l. o ∷ l) p, (e, q), f)
      at_rest IH false e r er h = moved-IsSplit (o ∷ os) ([], o, os) t h (refl, tt, e)

  pub single_dest-IsOnly :
      (os before after : List (TxOut S)) (dest : TxOut S)
      → single_dest S os ≡ ok (before, dest, after)
      → IsOnly os before dest after
  unfolding single_dest
  single_dest-IsOnly os before after dest h = record {
    split = (split_dest-IsSplit os (before, dest, after) (ground (arith, h))).0;
    data_before = (split_dest-IsSplit os (before, dest, after) (ground (arith, h))).1;
    spendable = (split_dest-IsSplit os (before, dest, after) (ground (arith, h))).2;
    data_after = none_kept after (ground (arith, h));
  }

  -- The size of the outputs that are paid is that of the requested ones and the service fee's.
  outputs_vb_fits : (os : List (TxOut S)) → outputs_vb S os < u64_mod
  unfolding outputs_vb
  outputs_vb_fits [] = omega arith
  outputs_vb_fits (o ∷ os) = omega arith

  outputs_vb-append :
      (xs ys : List (TxOut S))
      → outputs_vb S (xs ++ ys) ≡ sat_add (outputs_vb S xs) (outputs_vb S ys)
  unfolding outputs_vb
  outputs_vb-append [] ys = omega (arith, outputs_vb_fits ys)
  outputs_vb-append (x ∷ xs) ys = omega (arith, outputs_vb-append xs ys)

  pub paid_vb :
      (b a : List (TxOut S)) (d : TxOut S) (r : ℕ) (sf : Option (TxOut S))
      → outputs_vb S
          ((b ++ record { value = r; script_pubkey = d.script_pubkey } ∷ a) ++ to_list S sf)
        ≡ sat_add (outputs_vb S (b ++ d ∷ a)) (vb_of S sf)
  unfolding outputs_vb
  paid_vb b a d r none = omega (
    arith,
    outputs_vb-append (b ++ record { value = r; script_pubkey = d.script_pubkey } ∷ a) [],
    outputs_vb-append b (record { value = r; script_pubkey = d.script_pubkey } ∷ a),
    outputs_vb-append b (d ∷ a),
  )
  paid_vb b a d r (some o) = omega (
    arith,
    outputs_vb-append (b ++ record { value = r; script_pubkey = d.script_pubkey } ∷ a) (o ∷ []),
    outputs_vb-append b (record { value = r; script_pubkey = d.script_pubkey } ∷ a),
    outputs_vb-append b (d ∷ a),
  )
