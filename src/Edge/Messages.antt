-- ===== src/Edge/Messages.antt =====
-- crates/fortis-edge/src/swap/mod.rs: the messages that the two parties of a match leave for each
-- other (`POST /swap/matches/{id}/messages`), and what each changes of the match. Bytes are their
-- number with a code that tells them from other bytes.
pub mod Releases
pub mod Chained
pub mod Reinstating
pub mod Posts
pub mod Kept
pub mod Steps
pub mod Growing
pub mod Lasting
pub mod Requests
pub mod Recorded
pub mod Shown
pub mod Relayed
pub mod Interleaved
pub mod Timely
use Prim.Native.String.{String}
use fortis.Common.{
  ℕ, suc, Bool, true, false, not, ◌&&◌, ◌||◌, Option, none, some, List, [], ◌∷◌, ◌++◌, length, ltb,
  leb, if◌then◌else◌, ◌==◌, Result, ok, err, ◌>>=◌, ok_or,
}
use fortis.Chain.{Chain, btc, xbt}
use fortis.Terms.{SwapRole, initiator, participant}
use fortis.Edge.Records.{
  Match, MatchStatus, proposed, accepted, cancelled, closed, Funding, KeysHex,
}
use fortis.Edge.Store.{Db, Store, put_match, get_match}

abbrev pub max_messages_per_match : ℕ
max_messages_per_match = 200

abbrev pub max_release_txs : ℕ
max_release_txs = 4

abbrev pub Bytes : Type 0
Bytes = ℕ × ℕ

pub record PublicKey : Type 0 where
  pub compressed : Bool
  pub encoded : ℕ

pub record Transaction : Type 0 where
  pub input : List Funding
  pub encoded : ℕ

-- The hex and bitcoin crates: what a text reads as.
pub record Decoder : Type 0 where
  pub hex : String → Option Bytes
  pub public_key : String → Option PublicKey
  pub txid : String → Option ℕ
  pub deserialize : Bytes → Option Transaction

-- A message as it arrives.
pub data Msg : Type 0 where
  accept decline : Msg
  keys : (xbt btc : String) → Msg
  hashlock : (hex : String) → (nonce : Option String) → Msg
  funded : (chain txid : String) → (vout : ℕ) → Msg
  release_request : (txs : List String) → Msg
  release : (sigs : List String) → Msg

-- A message as it is relayed.
pub data Body : Type 0 where
  accept decline : Body
  keys : KeysHex → Body
  hashlock : ℕ → Option ℕ → Body
  funded : Chain → Funding → Body
  release_request release : List ℕ → Body
  deadline : ℕ → Body

pub data Sender : Type 0 where
  party : SwapRole → Sender
  edge : Sender

-- The reply: the sequence number of what was relayed, `null` for a repeat, or an error's status.
pub data Reply : Type 0 where
  pushed : ℕ → Reply
  unrelayed : Reply
  refused : ℕ → Reply

-- The store with the mailbox of each match, in order of the sequence numbers 1, 2, …
pub record Relay (db : Db) : Type 0 where
  pub store : Store db
  pub mail : ℕ → List (Sender × Body)

-- What a handler does with the match that it reads under the matching lock.
pub data Step : Type 0 where
  refuse : ℕ → Step
  idle : Step
  write : Match → Body → Step

module _ {db : Db} where
  unfoldable pub push : ℕ → SwapRole → Body → Relay db → Relay db × Reply
  push id from body r = (
    record r { mail = (λ j. if id == j then r.mail j ++ (party from, body) ∷ [] else r.mail j) },
    pushed (suc (length (r.mail id))),
  )

  unfoldable pub commit : ℕ → SwapRole → Step → Relay db → Relay db × Reply
  unfolding push
  commit id from (refuse code) r = (r, refused code)
  commit id from idle r = (r, unrelayed)
  commit id from (write m body) r =
      push id from body (record r { store = (put_match db m r.store).0 })

  unfoldable pub locked : ℕ → SwapRole → (Match → Step) → Option Match → Relay db → Relay db × Reply
  unfolding commit
  locked id from f none r = (r, refused 404)
  locked id from f (some m) r = commit id from (f m) r

  unfoldable pub under_lock : ℕ → SwapRole → (Match → Step) → Relay db → Relay db × Reply
  unfolding locked
  under_lock id from f r = locked id from f (get_match db r.store id) r

abbrev pub is_some : {A : Type 0} → Option A → Bool
is_some none = false
is_some (some _) = true

abbrev pub is_terminal : MatchStatus → Bool
is_terminal cancelled = true
is_terminal closed = true
is_terminal _ = false

abbrev pub same_pair : ℕ × ℕ → ℕ × ℕ → Bool
same_pair (a, b) (c, d) = (a == c) && (b == d)

abbrev pub same_list : List ℕ → List ℕ → Bool
same_list [] [] = true
same_list (x ∷ xs) (y ∷ ys) = (x == y) && same_list xs ys
same_list _ _ = false

abbrev pub mine : {A : Type 0} → SwapRole → A × A → A
mine initiator (i, p) = i
mine participant (i, p) = p

abbrev pub set_mine : {A : Type 0} → SwapRole → A → A × A → A × A
set_mine initiator a (i, p) = (a, p)
set_mine participant a (i, p) = (i, a)

-- A slot that is set once: a repeat is answered, another value is a conflict.
abbrev pub set_once : {A : Type 0} → (A → A → Bool) → Option A → A → Step → Step
set_once same none a new = new
set_once same (some e) a new = if same e a then idle else refuse 409

abbrev accept_ends : Match → Bool × Bool → Match
accept_ends m (true, true) = record m { accepted = (true, true); status = MatchStatus.accepted }
accept_ends m both = record m { accepted = both }

accept_proposed : SwapRole → ℕ → Match → Step
accept_proposed role now m =
    if mine role m.accepted
    then idle
    else if ltb m.terms.accept_by now
    then refuse 409
    else write (accept_ends m (set_mine role true m.accepted)) accept

accept_by_status : MatchStatus → SwapRole → ℕ → Match → Step
unfolding accept_proposed
accept_by_status proposed role now m = accept_proposed role now m
accept_by_status accepted role now m = idle
accept_by_status _ role now m = refuse 409

unfoldable pub accept_step : SwapRole → ℕ → Match → Step
unfolding accept_by_status
accept_step role now m = accept_by_status m.status role now m

unfoldable pub keys_step : SwapRole → KeysHex → Match → Step
keys_step role k m =
    if is_terminal m.status
    then refuse 409
    else set_once same_pair (mine role m.keys) k
        (write (record m { keys = set_mine role (some k) m.keys }) (keys k))

unfoldable pub hashlock_step : ℕ → Option ℕ → Match → Step
hashlock_step h nonce m =
    if is_terminal m.status
    then refuse 409
    else set_once (λ e h. e == h) m.hashlock h
        (write (record m { hashlock = some h }) (hashlock h nonce))

module _ (D : Decoder) where
  -- hex32
  unfoldable pub hex32 : String → Option ℕ
  hex32 t = elim (D.hex t) [ none ↦ none | some b ↦ if b.0 == 32 then some b.1 else none ]

  -- A key in its compressed form only.
  unfoldable pub compressed_hex : String → Option ℕ
  compressed_hex t = elim (D.public_key t) [
    | none ↦ none
    | some k ↦ if k.compressed then some k.encoded else none
  ]
