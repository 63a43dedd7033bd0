-- ===== src/Chain.antt =====
-- crates/wallet-core/src/chain.rs: the two chains and their parameters.
use Prim.Native.String.{String}
use text.Mathlib.Text.{◌==◌ as str_eq}
use fortis.Common.{ℕ, ◌*◌, Bool, true, false, Option, none, some, if◌then◌else◌, ◌||◌}

pub data Chain : Type 0 where
  btc xbt : Chain

pub data Network : Type 0 where
  mainnet regtest : Network

-- sighash.rs: how a spend is signed.
pub data SighashVariant : Type 0 where
  segwit_v0 unified : SighashVariant

pub record ChainParams : Type 0 where
  pub chain : Chain
  pub network : Network
  pub bip44_coin_type : ℕ
  pub htlc_participant_locktime_secs : ℕ
  pub htlc_initiator_locktime_secs : ℕ
  pub require_unified_sighash : Bool

abbrev pub bitcoin : ChainParams
bitcoin = record {
  chain = btc;
  network = mainnet;
  bip44_coin_type = 0;
  htlc_participant_locktime_secs = 24 * 3600;
  htlc_initiator_locktime_secs = 48 * 3600;
  require_unified_sighash = false;
}

abbrev pub blake2b : ChainParams
blake2b = record {
  chain = xbt;
  network = mainnet;
  bip44_coin_type = 0;
  htlc_participant_locktime_secs = 72 * 3600;
  htlc_initiator_locktime_secs = 48 * 3600;
  require_unified_sighash = true;
}

abbrev pub bitcoin_regtest : ChainParams
bitcoin_regtest = record bitcoin {
  network = regtest;
  bip44_coin_type = 1;
  htlc_participant_locktime_secs = 600;
  htlc_initiator_locktime_secs = 1200;
}

abbrev pub blake2b_regtest : ChainParams
blake2b_regtest = record blake2b {
  network = regtest;
  bip44_coin_type = 1;
  htlc_participant_locktime_secs = 900;
  htlc_initiator_locktime_secs = 1800;
}

unfoldable pub for_chain : Chain → ChainParams
for_chain btc = bitcoin
for_chain xbt = blake2b

unfoldable pub resolve : Chain → String → Option ChainParams
resolve btc name =
    if str_eq name "mainnet" || str_eq name "bitcoin"
    then some bitcoin
    else if str_eq name "regtest" || str_eq name "regtest-legacy"
    then some bitcoin_regtest
    else none
resolve xbt name =
    if str_eq name "mainnet" || str_eq name "bitcoin"
    then some blake2b
    else if str_eq name "regtest"
    then some blake2b_regtest
    else if str_eq name "regtest-legacy"
    then some (record blake2b_regtest { require_unified_sighash = false })
    else none

unfoldable pub sighash_variant : ChainParams → SighashVariant
sighash_variant p = if p.require_unified_sighash then unified else segwit_v0
