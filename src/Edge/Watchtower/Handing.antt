-- ===== src/Edge/Watchtower/Handing.antt =====
-- crates/fortis-edge/src/swap/mod.rs, `watch`: a party hands the watchtower signed spends of an HTLC.
use Prim.Native.String.{String}
use text.Mathlib.Text.{◌==◌ as str_eq}
use fortis.Common.{
  ℕ, Bool, true, false, not, ◌&&◌, ◌||◌, Option, none, some, List, [], ◌∷◌, length, ltb, ◌==◌,
  if◌then◌else◌, Result, ok, err, ◌>>=◌, ◌>>◌, ok_or, reject_if,
}
use fortis.Chain.{Chain, btc, xbt}
use fortis.Terms.{SwapRole}
use fortis.Htlc.{Crate}
use fortis.Edge.Table.{Table}
use fortis.Edge.Records.{Match, Funding, WatchJob, WatchKind, refund, redeem, waiting_redeem}
use fortis.Edge.Store.{Db, get_match}
use fortis.Edge.Messages.{Relay, Decoder}
use fortis.Edge.Messages.Chained.{ChainReader, record_leg_funding}
use fortis.Edge.Messages.Reinstating.{reinstate_if_funded_in_time}
use fortis.Edge.Messages.Posts.{parse_chain, sends_on, role_in}
use fortis.Edge.Messages.Releases.{spends_only}
use fortis.Edge.Watchtower.{Codec, Tx, TxIn, TowerError, decode}
use fortis.Edge.Watchtower.Jobs.{Tower, put_watch}

abbrev pub max_variants : ℕ
max_variants = 16

-- The texts in hex are the numbers of their digits.
pub record WatchReq : Type 0 where
  pub chain : String
  pub kind : String
  pub txid : String
  pub vout : ℕ
  pub not_before : ℕ
  pub variants : List ℕ
  pub sigs : Option (List ℕ)
  pub pubkey : Option ℕ
  pub witness_script : Option ℕ

abbrev pub is_refund : WatchKind → Bool
is_refund refund = true
is_refund _ = false

abbrev pub same_bool : Bool → Bool → Bool
same_bool true b = b
same_bool false b = not b

abbrev pub is_btc : Chain → Bool
is_btc btc = true
is_btc xbt = false

abbrev pub all : {A : Type 0} → (A → Bool) → List A → Bool
all p [] = true
all p (x ∷ xs) = p x && all p xs

abbrev pub outpoints : List TxIn → List Funding
outpoints [] = []
outpoints (i ∷ is) = i.previous_output ∷ outpoints is

abbrev pub job_of : ℕ → Chain → WatchKind → Funding → WatchReq → WatchJob
job_of match_id chain kind htlc w = record {
  match_id = match_id;
  chain = chain;
  kind = kind;
  htlc = htlc;
  not_before = w.not_before;
  variants = w.variants;
  done = false;
  sent_prevout = none;
}

module _ (C : Codec) where
  is_hex : ℕ → Bool
  is_hex h = elim (C.hex h) [ none ↦ false | some b ↦ not (b.0 == 0) ]

  unfoldable pub presigned : WatchReq → List ℕ → ℕ → ℕ → Result ℕ WatchKind
  unfolding is_hex
  presigned w sigs key ws =
      if not (str_eq w.kind "redeem" && is_hex key && is_hex ws && all is_hex sigs)
      then err 400
      else if not (length sigs == length w.variants)
      then err 400
      else ok (waiting_redeem key ws sigs)

  unfoldable pub plain : WatchReq → Result ℕ WatchKind
  plain w =
      if str_eq w.kind "refund"
      then ok refund
      else if str_eq w.kind "redeem"
      then ok redeem
      else err 400

  unfoldable pub kind_of : WatchReq → Option (List ℕ) → Option ℕ → Option ℕ → Result ℕ WatchKind
  unfolding presigned plain
  kind_of w none none none = plain w
  kind_of w (some sigs) (some key) (some ws) = presigned w sigs key ws
  kind_of w _ _ _ = err 400

  abbrev pub tx_spends : Funding → Result TowerError Tx → Bool
  tx_spends htlc (ok tx) = spends_only htlc (outpoints tx.input)
  tx_spends htlc (err _) = false

  unfoldable pub spends_htlc : Funding → ℕ → Bool
  unfolding decode spends_only
  spends_htlc htlc v = tx_spends htlc (decode C v)

  -- What is checked of a request before anything is read or written.
  unfoldable pub watch_job : Decoder → SwapRole → ℕ → WatchReq → Result ℕ WatchJob
  unfolding kind_of spends_htlc
  watch_job D role match_id w = do
    chain ← ok_or (parse_chain w.chain) 400
    kind ← kind_of w w.sigs w.pubkey w.witness_script
    reject_if (not (same_bool (sends_on role (some chain)) (is_refund kind))) 403
    txid ← ok_or (D.txid w.txid) 400
    reject_if (length w.variants == 0 || ltb max_variants (length w.variants)) 400
    reject_if (not (all (spends_htlc (txid, w.vout)) w.variants)) 400
    ok (job_of match_id chain kind (txid, w.vout) w)

abbrev pub authed_as : Match → Option SwapRole → Result ℕ (Match × SwapRole)
authed_as m none = err 403
authed_as m (some role) = ok (m, role)

-- `authed_match`.
abbrev pub authed : Option ℕ → Option Match → Result ℕ (Match × SwapRole)
authed presented none = err 404
authed presented (some m) = authed_as m (role_in presented m)

module _ {db : Db} (chain : Option ChainReader) (others : ℕ → Relay db → Relay db) where
  -- The participant's own funding may undo a deadline's cancel; a failure of that is logged.
  abbrev pub may_reinstate : WatchJob → ℕ → Relay db → Relay db
  may_reinstate job id r =
      if is_btc job.chain && is_refund job.kind
      then (reinstate_if_funded_in_time others chain id (others 1 r)).0
      else r

module _ {db : Db} {T : Table WatchJob} (B : Crate) (point : ℕ → Option ℕ)
    (chain : Option ChainReader) (others : ℕ → Relay db → Relay db) where
  unfoldable pub hand :
      WatchJob → Tower db T → Relay db × Result ℕ (Unit {0}) → Tower db T × Result ℕ (Unit {0})
  unfolding put_watch
  hand job t (r, err code) = (record t { relay = r }, err code)
  hand job t (r, ok _) =
      (put_watch job (record t { relay = may_reinstate chain others job job.match_id r }), ok tt)

  unfoldable pub hand_checked :
      Match → Result ℕ WatchJob → Tower db T → Tower db T × Result ℕ (Unit {0})
  unfolding hand
  hand_checked m (err code) t = (t, err code)
  hand_checked m (ok job) t =
      hand job t
        (record_leg_funding B point chain others m job.chain job.htlc (is_refund job.kind) t.relay)

  unfoldable pub watch_as :
      Codec
      → Decoder
      → WatchReq
      → Result ℕ (Match × SwapRole)
      → Tower db T
      → Tower db T × Result ℕ (Unit {0})
  unfolding hand_checked watch_job
  watch_as C D w (err code) t = (t, err code)
  watch_as C D w (ok (m, role)) t = hand_checked m (watch_job C D role m.id w) t

  unfoldable pub watch :
      Codec → Decoder → ℕ → Option ℕ → WatchReq → Tower db T → Tower db T × Result ℕ (Unit {0})
  unfolding watch_as
  watch C D id presented w t = watch_as C D w (authed presented (get_match db t.relay.store id)) t
