-- ===== src/Edge/Messages/Releases.antt =====
-- crates/fortis-edge/src/swap/mod.rs: how the participant of a cancelled match gives the initiator's
-- XBT back: the initiator's request, checked to spend only that funding, and the signatures on it.
use Prim.Native.String.{String}
use fortis.Common.{
  ℕ, Bool, false, not, ◌&&◌, ◌||◌, Option, none, some, List, [], ◌∷◌, length, ltb, leb,
  if◌then◌else◌, ◌==◌,
}
use fortis.Terms.{contract_v2}
use fortis.Edge.Records.{Match, is_cancelled, Funding}
use fortis.Edge.Messages.{
  max_release_txs, Bytes, Transaction, Decoder, release_request, release, Step, refuse, write,
  is_some, same_pair, same_list, set_once,
}

unfoldable pub releasable : Match → Bool
releasable m =
    leb contract_v2 m.terms.contract_version
    && is_cancelled m.status
    && is_some m.xbt_funding
    && not (is_some m.btc_funding)

-- The only input spends the funding.
unfoldable pub spends_only : Funding → List Funding → Bool
spends_only f [] = false
spends_only f (i ∷ []) = same_pair i f
spends_only f (_ ∷ _ ∷ _) = false

-- `collect`: all of them, or none.
unfoldable pub collect : (String → Option ℕ) → List String → Option (List ℕ)
collect f [] = some []
collect f (t ∷ ts) = elim (f t) [
  | none ↦ none
  | some a ↦ elim (collect f ts) [ none ↦ none | some rest ↦ some (a ∷ rest) ]
]

module _ (D : Decoder) where
  unfoldable pub release_sig : String → Option ℕ
  release_sig t = elim (D.hex t) [
    | none ↦ none
    | some b ↦ if leb 9 b.0 && leb b.0 73 then some b.1 else none
  ]

  deserialize_small : Bytes → Option Transaction
  deserialize_small b = if leb b.0 1_000 then D.deserialize b else none

  unfoldable pub release_tx_of : Funding → String → Option ℕ
  unfolding deserialize_small spends_only
  release_tx_of f t = elim (D.hex t) [
    | none ↦ none
    | some b ↦ elim (deserialize_small b) [
      | none ↦ none
      | some tx ↦ if spends_only f tx.input then some tx.encoded else none
    ]
  ]

  unfoldable pub release_txs : List String → Funding → Option (List ℕ)
  unfolding collect release_tx_of
  release_txs txs f =
      if length txs == 0 || ltb max_release_txs (length txs)
      then none
      else collect (release_tx_of f) txs

  unfoldable pub request_of : Match → Option (List ℕ) → Step
  request_of m none = refuse 400
  request_of m (some txs) =
      set_once same_list m.release_txs txs
        (write (record m { release_txs = some txs }) (release_request txs))

  -- `expect`: a match without the funding is not releasable.
  unfoldable pub request_spending : List String → Match → Option Funding → Step
  unfolding releasable release_txs request_of
  request_spending txs m none = refuse 409
  request_spending txs m (some f) =
      if releasable m then request_of m (release_txs txs f) else refuse 409

  unfoldable pub release_request_step : List String → Match → Step
  unfolding request_spending
  release_request_step txs m = request_spending txs m m.xbt_funding

unfoldable pub release_of : List ℕ → Match → Option (List ℕ) → Step
release_of sigs m none = refuse 409
release_of sigs m (some txs) =
    if not (length sigs == length txs)
    then refuse 400
    else set_once same_list m.release_sigs sigs
        (write (record m { release_sigs = some sigs }) (release sigs))

unfoldable pub release_step : List ℕ → Match → Step
unfolding releasable release_of
release_step sigs m = if releasable m then release_of sigs m m.release_txs else refuse 409
