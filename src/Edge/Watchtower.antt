-- ===== src/Edge/Watchtower.antt =====
-- crates/fortis-edge/src/swap/watchtower.rs: transactions as the watchtower reads them, the choice of
-- a variant, and a presigned redeem (crates/wallet-core/src/swap.rs) that the preimage finishes.
pub mod Jobs
pub mod Matches
pub mod Retention
pub mod Passes
pub mod Variants
pub mod Due
pub mod Turns
pub mod Sending
pub mod Retaining
pub mod Clocks
pub mod Handing
pub mod Handed
pub mod Backed
use fortis.Common.{
  ℕ, ◌+◌, ◌-◌, ◌/◌, max, Bool, true, false, not, ◌&&◌, Option, none, some, List, [], ◌∷◌, keep,
  find_first, sum_by, ltb, leb, ◌==◌, if◌then◌else◌, Result, ok, err, ◌>>=◌, ◌>>◌, ok_or, reject_if,
  u64,
}
use fortis.Chain.{Chain, SighashVariant}
use fortis.Htlc.{Op, Item, Output, redeem_witness, script_hashlock}
use fortis.Edge.Records.{Funding}
use fortis.Edge.Messages.{Bytes, same_pair}

pub record TxIn : Type 0 where
  pub previous_output : Funding
  pub witness : List Item

-- What the code never looks at is `rest`.
pub record Tx : Type 0 where
  pub input : List TxIn
  pub output : List Output
  pub rest : ℕ

-- An output, as `GET /txout` reports it.
pub record Unspent : Type 0 where
  pub value_sat : ℕ
  pub script_pubkey : ℕ
  pub confirmations : ℕ

-- What of a signature the flag byte is, and what the rest.
pub record Signature : Type 0 where
  pub flag : ℕ
  pub der : ℕ

pub record Sighash : Type 0 where
  pub flag : ℕ
  pub message : ℕ

-- The hex, bitcoin and secp256k1 crates, and `sighash_all` of crates/wallet-core/src/sighash.rs.
pub record Codec : Type 0 where
  pub hex : ℕ → Option Bytes
  pub deserialize : Bytes → Option Tx
  pub public_key : Bytes → Option Item
  pub instructions : Bytes → List Op
  pub sha256 : ℕ → ℕ
  pub vsize : Tx → ℕ
  pub split_last : Item → Option Signature
  pub sighash_all : Tx → Unspent → List Op → SighashVariant → Option Sighash
  pub verifies : (message der : ℕ) → Item → Bool

pub data TowerError : Type 0 where
  read_failed bad_tx no_variants unknown_network wrong_sigs no_valid refused panicked : TowerError

unfoldable pub fee : ℕ → Tx → ℕ
fee prevout_value tx = prevout_value - u64 (sum_by (λ o. o.value) tx.output)

-- The first that no other goes before.
unfoldable pub choose : (Tx → Tx → Bool) → Tx → Option Tx → Option Tx
choose before t none = some t
choose before t (some s) = if before t s then some t else some s

unfoldable pub best_by : (Tx → Tx → Bool) → List Tx → Option Tx
unfolding choose
best_by before [] = none
best_by before (t ∷ ts) = choose before t (best_by before ts)

-- The first of the least, and the last of the greatest.
unfoldable pub min_by_key : (Tx → ℕ) → List Tx → Option Tx
unfolding best_by
min_by_key key = best_by (λ a b. leb (key a) (key b))

unfoldable pub max_by_key : (Tx → ℕ) → List Tx → Option Tx
unfolding best_by
max_by_key key = best_by (λ a b. ltb (key b) (key a))

module _ (C : Codec) where
  unfoldable pub decode : ℕ → Result TowerError Tx
  decode text = do bytes ← ok_or (C.hex text) bad_tx; ok_or (C.deserialize bytes) bad_tx

  unfoldable pub collect_txs : List ℕ → Result TowerError (List Tx)
  unfolding decode
  collect_txs [] = ok []
  collect_txs (v ∷ vs) = do tx ← decode v; txs ← collect_txs vs; ok (tx ∷ txs)

  abbrev pub some_txs : TowerError → List Tx → Result TowerError (List Tx)
  some_txs e [] = err e
  some_txs e (t ∷ ts) = ok (t ∷ ts)

  unfoldable pub decode_all : List ℕ → Result TowerError (List Tx)
  unfolding collect_txs
  decode_all variants = collect_txs variants >>= some_txs no_variants

  unfoldable pub meets : ℕ → ℕ → Tx → Bool
  meets prevout_value feerate tx = leb feerate (fee prevout_value tx / max (C.vsize tx) 1)

  abbrev pub or_else : Option Tx → Option Tx → Option Tx
  or_else none b = b
  or_else (some a) b = some a

  -- `none` where the code panics.
  unfoldable pub pick_variant : List Tx → ℕ → ℕ → Option Tx
  unfolding meets
  pick_variant variants prevout_value feerate =
      or_else (min_by_key (fee prevout_value) (keep (meets prevout_value feerate) variants))
        (max_by_key (fee prevout_value) variants)

  -- An item of 32 bytes whose hash is the hashlock.
  abbrev pub opens : ℕ → Item → Bool
  opens hashlock (Item.bytes len content) = (len == 32) && (C.sha256 content == hashlock)
  opens hashlock (Item.script _) = false

  unfoldable pub preimage_from_witness : ℕ → List Item → Option Item
  preimage_from_witness hashlock witness = find_first (opens hashlock) witness

  -- What the spend of an outpoint reveals.
  unfoldable pub preimage_in : Funding → ℕ → List TxIn → Option Item
  unfolding preimage_from_witness
  preimage_in op hashlock inputs = elim (find_first (λ i. same_pair i.previous_output op) inputs) [
    | none ↦ none
    | some i ↦ preimage_from_witness hashlock i.witness
  ]

  abbrev pub hash_of : Item → Option ℕ
  hash_of (Item.bytes len content) = some (C.sha256 content)
  hash_of (Item.script _) = none

  abbrev pub same_hash : Option ℕ → Option ℕ → Bool
  same_hash (some a) (some b) = a == b
  same_hash _ _ = false

  abbrev pub with_witness : List Item → Tx → List TxIn → Result TowerError Tx
  with_witness w tx (i ∷ []) = ok (record tx { input = record i { witness = w } ∷ [] })
  with_witness w tx _ = err bad_tx

  -- The texts of one variant and its signature, a key and the script.
  unfoldable pub finish_presigned_redeem :
      (tx_hex sig_hex pubkey_hex witness_script_hex : ℕ) → Item → Result TowerError Tx
  unfolding decode
  finish_presigned_redeem tx_hex sig_hex pubkey_hex witness_script_hex preimage = do
    tx ← decode tx_hex
    sig ← ok_or (C.hex sig_hex) bad_tx
    key_bytes ← ok_or (C.hex pubkey_hex) bad_tx
    pubkey ← ok_or (C.public_key key_bytes) bad_tx
    ws ← ok_or (C.hex witness_script_hex) bad_tx
    let ops = C.instructions ws
    done ← with_witness (redeem_witness (Item.bytes sig.0 sig.1) pubkey preimage ops) tx tx.input
    reject_if (not (same_hash (script_hashlock ops) (hash_of preimage))) bad_tx
    ok done

  -- A finished redeem carries its script itself.
  covers : Tx → Unspent → SighashVariant → List Item → Option Bool
  covers tx prevout variant (sig ∷ pk ∷ _ ∷ _ ∷ Item.script ws ∷ _) = elim (C.split_last sig) [
    | none ↦ none
    | some s ↦ elim (C.sighash_all tx prevout ws variant) [
      | none ↦ none
      | some h ↦ if s.flag == h.flag then some (C.verifies h.message s.der pk) else some false
    ]
  ]
  covers tx prevout variant _ = none

  abbrev pub is_true : Option Bool → Bool
  is_true (some true) = true
  is_true _ = false

  abbrev pub first_witness : List TxIn → List Item
  first_witness [] = []
  first_witness (i ∷ _) = i.witness

  unfoldable pub signature_covers : Unspent → SighashVariant → Tx → Bool
  unfolding covers
  signature_covers prevout variant tx = is_true (covers tx prevout variant (first_witness tx.input))

  abbrev pub kept_ok : Result TowerError Tx → List Tx → List Tx
  kept_ok (ok tx) txs = tx ∷ txs
  kept_ok (err _) txs = txs

  -- The variants that the preimage finishes, in order.
  unfoldable pub finish_all : List ℕ → List ℕ → ℕ → ℕ → Item → List Tx
  unfolding finish_presigned_redeem
  finish_all (v ∷ vs) (sig ∷ sigs) key ws preimage =
      kept_ok (finish_presigned_redeem v sig key ws preimage) (finish_all vs sigs key ws preimage)
  finish_all _ _ key ws preimage = []
