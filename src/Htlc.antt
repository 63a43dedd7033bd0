-- ===== src/Htlc.antt =====
-- crates/wallet-core/src/htlc.rs: the contract of a swap leg, its script and its spends.
-- Hashing, address encoding and sizes belong to the bitcoin crate, and are a parameter.
pub mod Spends
use fortis.Common.{
  ℕ, suc, ◌^◌, ◌-◌, Bool, not, ◌&&◌, Option, none, some, List, [], ◌∷◌, Result, ok, err, ◌>>=◌,
  ◌>>◌, reject_if, ok_or, if◌then◌else◌, leb, ◌==◌, checked_sub, sat_mul,
}
use fortis.Chain.{ChainParams, SighashVariant, segwit_v0, unified, sighash_variant}
use fortis.Error.{WalletError, invalid_swap_params, insufficient_funds, panicked}
use fortis.Error

abbrev pub contract_v1 : ℕ
contract_v1 = 1

abbrev pub contract_v2 : ℕ
contract_v2 = 2

-- What a script is made of: the opcodes that the contracts use, integers, and pushed data.
pub data Op : Type 0 where
  op_if op_else op_endif op_size op_equalverify op_sha256 op_dup op_hash160 : Op
  op_cltv op_drop op_checksig op_checksigverify : Op
  int : ℕ → Op
  push : ℕ → Op

-- An item of a witness: bytes with their length, or the witness script.
pub data Item : Type 0 where
  bytes : (len content : ℕ) → Item
  script : List Op → Item

pub data HtlcPath : Type 0 where
  redeem refund release : HtlcPath

pub record Output : Type 0 where
  pub value : ℕ
  pub script_pubkey : ℕ

-- A transaction with one input, and `ENABLE_RBF_NO_LOCKTIME` as its sequence.
pub record Spend : Type 0 where
  pub lock_time : ℕ
  pub previous_output : ℕ × ℕ
  pub witness : List Item
  pub output : List Output

-- The bitcoin crate: the hash of a key, the script of a P2WSH address, an OP_RETURN script of the
-- guard's bytes, the script of 34 zero bytes, a script's dust limit, the size of a transaction.
pub record Crate : Type 0 where
  pub pubkey_hash : ℕ → ℕ
  pub p2wsh : List Op → ℕ
  pub guard_script : ℕ
  pub zero_script : ℕ
  pub minimal_non_dust : ℕ → ℕ
  pub vsize : Spend → ℕ

pub record HtlcContract : Type 0 where
  pub version : ℕ
  pub witness_script : List Op
  pub script_pubkey : ℕ
  pub value : ℕ
  pub hashlock : ℕ
  pub locktime : ℕ
  pub sighash_variant : SighashVariant

unfoldable pub has_release : HtlcContract → Bool
has_release c = leb contract_v2 c.version

unfoldable pub funding_output : HtlcContract → Output
funding_output c = record { value = c.value; script_pubkey = c.script_pubkey }

-- `position`, from an index.
unfoldable pub position_from : HtlcContract → ℕ → ℕ → List Output → Option ℕ
position_from c value i [] = none
position_from c value i (o ∷ os) =
    let rest = position_from c value (suc i) os in
    if o.script_pubkey == c.script_pubkey && o.value == value then some i else rest

unfoldable pub find_exact_output : HtlcContract → List Output → ℕ → Option ℕ
unfolding position_from
find_exact_output c outputs value = position_from c value 0 outputs

abbrev pub empty_item : Item
empty_item = bytes 0 0

abbrev pub true_item : Item
true_item = bytes 1 1

unfoldable pub refund_witness : ℕ → (sig pubkey : Item) → List Op → List Item
refund_witness version sig pubkey ws =
    if leb contract_v2 version
    then sig ∷ pubkey ∷ true_item ∷ empty_item ∷ script ws ∷ []
    else sig ∷ pubkey ∷ empty_item ∷ script ws ∷ []

unfoldable pub release_witness : (redeem_sig refund_sig : Item) → List Op → List Item
release_witness redeem_sig refund_sig ws =
    redeem_sig ∷ refund_sig ∷ empty_item ∷ empty_item ∷ script ws ∷ []

unfoldable pub redeem_witness : (sig pubkey preimage : Item) → List Op → List Item
redeem_witness sig pubkey preimage ws = sig ∷ pubkey ∷ preimage ∷ true_item ∷ script ws ∷ []

-- The push after the first OP_SHA256. The scripts in question push only data there.
unfoldable pub script_hashlock : List Op → Option ℕ
script_hashlock [] = none
script_hashlock (op_sha256 ∷ push h ∷ ops) = some h
script_hashlock (op_sha256 ∷ ops) = none
script_hashlock (o ∷ ops) = script_hashlock ops

-- The path that a fee is sized for.
unfoldable pub sized_path : HtlcContract → HtlcPath → HtlcPath
sized_path c release = if has_release c then release else refund
sized_path c p = p

-- The witness with a signature of 72 bytes and a key of 33.
unfoldable pub sized_witness : HtlcContract → HtlcPath → List Item
sized_witness c redeem = redeem_witness (bytes 72 0) (bytes 33 0) (bytes 32 0) c.witness_script
sized_witness c refund = refund_witness c.version (bytes 72 0) (bytes 33 0) c.witness_script
sized_witness c release = release_witness (bytes 72 0) (bytes 72 0) c.witness_script

-- `expect`: a spend with no fee is always there.
unfoldable pub sized_spend :
    HtlcContract → HtlcPath → Result WalletError Spend → Result WalletError Spend
sized_spend c path (ok tx) = ok (record tx { witness = sized_witness c path })
sized_spend c path (err e) = err panicked

module _ (B : Crate) where
  unfoldable pub contract_script : (hashlock redeem_pubkey refund_pubkey locktime : ℕ) → List Op
  contract_script hashlock redeem_pubkey refund_pubkey locktime =
      op_if
      ∷ op_size
      ∷ int 32
      ∷ op_equalverify
      ∷ op_sha256
      ∷ push hashlock
      ∷ op_equalverify
      ∷ op_dup
      ∷ op_hash160
      ∷ push (B.pubkey_hash redeem_pubkey)
      ∷ op_else
      ∷ int locktime
      ∷ op_cltv
      ∷ op_drop
      ∷ op_dup
      ∷ op_hash160
      ∷ push (B.pubkey_hash refund_pubkey)
      ∷ op_endif
      ∷ op_equalverify
      ∷ op_checksig
      ∷ []

  unfoldable pub contract_script_v2 : (hashlock redeem_pubkey refund_pubkey locktime : ℕ) → List Op
  contract_script_v2 hashlock redeem_pubkey refund_pubkey locktime =
      op_if
      ∷ op_size
      ∷ int 32
      ∷ op_equalverify
      ∷ op_sha256
      ∷ push hashlock
      ∷ op_equalverify
      ∷ op_dup
      ∷ op_hash160
      ∷ push (B.pubkey_hash redeem_pubkey)
      ∷ op_equalverify
      ∷ op_checksig
      ∷ op_else
      ∷ op_if
      ∷ int locktime
      ∷ op_cltv
      ∷ op_drop
      ∷ op_dup
      ∷ op_hash160
      ∷ push (B.pubkey_hash refund_pubkey)
      ∷ op_equalverify
      ∷ op_checksig
      ∷ op_else
      ∷ push refund_pubkey
      ∷ op_checksigverify
      ∷ push redeem_pubkey
      ∷ op_checksig
      ∷ op_endif
      ∷ op_endif
      ∷ []

  unfoldable pub script_of :
      (version hashlock redeem_pubkey refund_pubkey locktime : ℕ) → Result WalletError (List Op)
  script_of version hashlock redeem_pubkey refund_pubkey locktime =
      if version == contract_v1
      then ok (contract_script hashlock redeem_pubkey refund_pubkey locktime)
      else if version == contract_v2
      then ok (contract_script_v2 hashlock redeem_pubkey refund_pubkey locktime)
      else err (invalid_swap_params (Error.unknown_contract_version version))

  unfoldable pub try_build :
      ChainParams
      → (version hashlock redeem_pubkey refund_pubkey locktime value : ℕ)
      → Result WalletError HtlcContract
  try_build params version hashlock redeem_pubkey refund_pubkey locktime value = do
    ws ← script_of version hashlock redeem_pubkey refund_pubkey locktime
    ok (record {
      version = version;
      witness_script = ws;
      script_pubkey = B.p2wsh ws;
      value = value;
      hashlock = hashlock;
      locktime = locktime;
      sighash_variant = sighash_variant params;
    })

  unfoldable pub guard_of : SighashVariant → List Output
  guard_of segwit_v0 = record { value = 0; script_pubkey = B.guard_script } ∷ []
  guard_of unified = []

  unfoldable pub spend_outputs : HtlcContract → ℕ → ℕ → List Output
  unfolding guard_of
  spend_outputs c value to =
      record { value = value; script_pubkey = to } ∷ guard_of c.sighash_variant

  unfoldable pub spend_skeleton :
      HtlcContract → ℕ × ℕ → (to fee lock_time : ℕ) → Result WalletError Spend
  spend_skeleton c prevout to fee lock_time = do
    value ← ok_or (checked_sub c.value fee) (insufficient_funds fee c.value)
    ok (record {
      lock_time = lock_time;
      previous_output = prevout;
      witness = [];
      output = spend_outputs c value to;
    })

  unfoldable pub redeem_tx : HtlcContract → ℕ × ℕ → (to fee : ℕ) → Result WalletError Spend
  redeem_tx c prevout to fee = spend_skeleton c prevout to fee 0

  unfoldable pub refund_tx : HtlcContract → ℕ × ℕ → (to fee : ℕ) → Result WalletError Spend
  refund_tx c prevout to fee = spend_skeleton c prevout to fee c.locktime

  unfoldable pub release_tx : HtlcContract → ℕ × ℕ → (to fee : ℕ) → Result WalletError Spend
  release_tx c prevout to fee = do
    reject_if (not (has_release c)) (invalid_swap_params Error.no_release)
    spend_skeleton c prevout to fee 0

  unfoldable pub spend_on :
      HtlcContract → HtlcPath → ℕ × ℕ → (to fee : ℕ) → Result WalletError Spend
  spend_on c redeem prevout to fee = redeem_tx c prevout to fee
  spend_on c refund prevout to fee = refund_tx c prevout to fee
  spend_on c release prevout to fee = release_tx c prevout to fee

  -- `OutPoint::null` is the outpoint that the sizes are taken at.
  unfoldable pub htlc_spend_fee : HtlcContract → HtlcPath → ℕ → Result WalletError ℕ
  htlc_spend_fee c path feerate = do
    let p = sized_path c path
    tx ← sized_spend c p (spend_on c p (0, 2 ^ 32 - 1) B.zero_script 0)
    ok (sat_mul (B.vsize tx) feerate)
