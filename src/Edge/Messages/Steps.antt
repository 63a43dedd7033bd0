-- ===== src/Edge/Messages/Steps.antt =====
-- crates/fortis-edge/src/swap/mod.rs: each message under the lock, and what the match keeps over it.
use Prim.Native.String.{String}
use fortis.Common.{
  ℕ, ◌≡◌, refl, sym, ap, ◌∙◌, Bool, true, false, inl, inr, Bool-cases, Option, none, some, List,
  arith, if◌then◌else◌,
}
use fortis.Terms.{SwapRole, initiator, participant}
use fortis.Edge.Records.{
  Match, MatchStatus, proposed, accepted, initiator_funded, participant_funded, closed, cancelled,
  Funding, KeysHex,
}
use fortis.Edge.Store.{Db, get_match}
use fortis.Edge.Messages.{
  Relay, Decoder, Step, refuse, idle, write, Body, commit, locked, under_lock, accept_step,
  keys_step, hashlock_step, set_once, accept_by_status, accept_ends, set_mine, same_pair,
}
use fortis.Edge.Messages.Releases.{
  release_request_step, release_step, release_txs, request_of, request_spending, release_of,
}
use fortis.Edge.Messages.Posts.{funded_step, funded_slot, move_on, send_chain}
use fortis.Edge.Messages.Chained.{slot}
use fortis.Edge.Messages.Kept.{IsKept, Kept, Grows, Grows-refl, put_match-Grows}

pub data IsSafe (m : Match) : Step → Type 0 where
  refusing : (code : ℕ) → IsSafe m (refuse code)
  idling : IsSafe m idle
  writing : (m' : Match) (body : Body) → Kept m m' → IsSafe m (write m' body)

if_IsSafe :
    (m : Match) (b : Bool) (x y : Step) → IsSafe m x → IsSafe m y → IsSafe m (if b then x else y)
if_IsSafe m true x y h k = h
if_IsSafe m false x y h k = k

pub fresh : {A : Type 0} (old new : Option A) → old ≡ none → IsKept old new
fresh old new e v f = cc

set_once-IsSafe :
    {A : Type 0} (m : Match) (same : A → A → Bool) (old : Option A) (a : A) (new : Step)
    → (old ≡ none → IsSafe m new)
    → IsSafe m (set_once same old a new)
set_once-IsSafe m same none a new h = h refl
set_once-IsSafe m same (some e) a new h =
    if_IsSafe m (same e a) idle (refuse 409) idling (refusing 409)

-- A match with its terms and id as they were.
pub slots-Kept :
    (m m' : Match)
    → m'.id ≡ m.id
    → m'.terms ≡ m.terms
    → IsKept m.keys.0 m'.keys.0 × IsKept m.keys.1 m'.keys.1
    → IsKept m.hashlock m'.hashlock
    → IsKept m.xbt_funding m'.xbt_funding × IsKept m.btc_funding m'.btc_funding
    → IsKept m.release_txs m'.release_txs × IsKept m.release_sigs m'.release_sigs
    → Kept m m'
slots-Kept m m' i t k h f r = record {
  id = i;
  terms = t;
  initiator_keys = k.0;
  participant_keys = k.1;
  hashlock = h;
  xbt_funding = f.0;
  btc_funding = f.1;
  release_txs = r.0;
  release_sigs = r.1;
}

-- Equal as the test finds.
pub same_pair_lem : (a b : Funding) → same_pair a b ≡ true → a ≡ b
same_pair_lem (a, b) (c, d) h = ground (arith, h)

pub same : {A : Type 0} (o : Option A) → IsKept o o
same o v e = e

pub both : {A B : Type 0} (o : Option A) (p : Option B) → IsKept o o × IsKept p p
both o p = (same o, same p)

module _ (m : Match) where
  pub hashlock_step-IsSafe : (h : ℕ) (salt : Option ℕ) → IsSafe m (hashlock_step h salt m)
  unfolding hashlock_step
  hashlock_step-IsSafe h salt = if_IsSafe m _ _ _ (refusing 409) (
      set_once-IsSafe m _ m.hashlock h _ (λ e. writing _ _ (
        slots-Kept m _ refl refl (both m.keys.0 m.keys.1) (fresh m.hashlock (some h) e)
          (both m.xbt_funding m.btc_funding) (both m.release_txs m.release_sigs))))

  pub keys_step-IsSafe : (role : SwapRole) (k : KeysHex) → IsSafe m (keys_step role k m)
  unfolding keys_step
  keys_step-IsSafe initiator k = if_IsSafe m _ _ _ (refusing 409) (
      set_once-IsSafe m _ m.keys.0 k _ (λ e. writing _ _ (
        slots-Kept m _ refl refl (fresh m.keys.0 (some k) e, same m.keys.1) (same m.hashlock)
          (both m.xbt_funding m.btc_funding) (both m.release_txs m.release_sigs))))
  keys_step-IsSafe participant k = if_IsSafe m _ _ _ (refusing 409) (
      set_once-IsSafe m _ m.keys.1 k _ (λ e. writing _ _ (
        slots-Kept m _ refl refl (same m.keys.0, fresh m.keys.1 (some k) e) (same m.hashlock)
          (both m.xbt_funding m.btc_funding) (both m.release_txs m.release_sigs))))

  ends-IsSafe : (a : Bool × Bool) (body : Body) → IsSafe m (write (accept_ends m a) body)
  ends-IsSafe (true, true) body = writing _ _ (
      slots-Kept m _ refl refl (both m.keys.0 m.keys.1) (same m.hashlock)
        (both m.xbt_funding m.btc_funding) (both m.release_txs m.release_sigs))
  ends-IsSafe (true, false) body = writing _ _ (
      slots-Kept m _ refl refl (both m.keys.0 m.keys.1) (same m.hashlock)
        (both m.xbt_funding m.btc_funding) (both m.release_txs m.release_sigs))
  ends-IsSafe (false, b) body = writing _ _ (
      slots-Kept m _ refl refl (both m.keys.0 m.keys.1) (same m.hashlock)
        (both m.xbt_funding m.btc_funding) (both m.release_txs m.release_sigs))

  by_status-IsSafe :
      (s : MatchStatus) (role : SwapRole) (now : ℕ) → IsSafe m (accept_by_status s role now m)
  unfolding accept_by_status
  by_status-IsSafe proposed role now =
      if_IsSafe m _ _ _ idling
        (if_IsSafe m _ _ _ (refusing 409) (ends-IsSafe (set_mine role true m.accepted) Body.accept))
  by_status-IsSafe accepted role now = idling
  by_status-IsSafe initiator_funded role now = refusing 409
  by_status-IsSafe participant_funded role now = refusing 409
  by_status-IsSafe closed role now = refusing 409
  by_status-IsSafe cancelled role now = refusing 409

  pub accept_step-IsSafe : (role : SwapRole) (now : ℕ) → IsSafe m (accept_step role now m)
  unfolding accept_step
  accept_step-IsSafe role now = by_status-IsSafe m.status role now

  request_of-IsSafe : (D : Decoder) (txs : Option (List ℕ)) → IsSafe m (request_of D m txs)
  unfolding request_of
  request_of-IsSafe D none = refusing 400
  request_of-IsSafe D (some txs) = set_once-IsSafe m _ m.release_txs txs _ (λ e. writing _ _ (
      slots-Kept m _ refl refl (both m.keys.0 m.keys.1) (same m.hashlock)
        (both m.xbt_funding m.btc_funding) (fresh m.release_txs (some txs) e, same m.release_sigs)))

  request_spending-IsSafe :
      (D : Decoder) (txs : List String) (f : Option Funding) → IsSafe m (request_spending D txs m f)
  unfolding request_spending
  request_spending-IsSafe D txs none = refusing 409
  request_spending-IsSafe D txs (some f) =
      if_IsSafe m _ _ _ (request_of-IsSafe D (release_txs D txs f)) (refusing 409)

  pub release_request_step-IsSafe :
      (D : Decoder) (txs : List String) → IsSafe m (release_request_step D txs m)
  unfolding release_request_step
  release_request_step-IsSafe D txs = request_spending-IsSafe D txs m.xbt_funding

  release_of-IsSafe : (sigs : List ℕ) (txs : Option (List ℕ)) → IsSafe m (release_of sigs m txs)
  unfolding release_of
  release_of-IsSafe sigs none = refusing 409
  release_of-IsSafe sigs (some txs) = if_IsSafe m _ _ _ (refusing 400) (
      set_once-IsSafe m _ m.release_sigs sigs _ (λ e. writing _ _ (
        slots-Kept m _ refl refl (both m.keys.0 m.keys.1) (same m.hashlock)
          (both m.xbt_funding m.btc_funding)
          (same m.release_txs, fresh m.release_sigs (some sigs) e))))

  pub release_step-IsSafe : (sigs : List ℕ) → IsSafe m (release_step sigs m)
  unfolding release_step
  release_step-IsSafe sigs = if_IsSafe m _ _ _ (release_of-IsSafe sigs m.release_txs) (refusing 409)

  move_on-IsSafe :
      (role : SwapRole) (out : Funding)
      → IsKept (slot (send_chain role) m) (some out)
      → IsSafe m (move_on role out m)
  unfolding move_on
  move_on-IsSafe initiator out k =
      if_IsSafe m _ _ _
        (writing _ _ (
          slots-Kept m _ refl refl (both m.keys.0 m.keys.1) (same m.hashlock)
            (k, same m.btc_funding) (both m.release_txs m.release_sigs)))
        (refusing 409)
  move_on-IsSafe participant out k =
      if_IsSafe m _ _ _
        (writing _ _ (
          slots-Kept m _ refl refl (both m.keys.0 m.keys.1) (same m.hashlock)
            (same m.xbt_funding, k) (both m.release_txs m.release_sigs)))
        (refusing 409)

  funded_slot-IsSafe :
      (s : Option Funding) (role : SwapRole) (out : Funding)
      → slot (send_chain role) m ≡ s
      → IsSafe m (funded_slot s role out m)
  unfolding funded_slot
  funded_slot-IsSafe none role out e = move_on-IsSafe role out (fresh _ (some out) e)
  funded_slot-IsSafe (some f) role out e = elim (Bool-cases (same_pair f out)) [
    | inl h ↦ rw h (
        if_IsSafe m _ _ _
          (move_on-IsSafe role out (λ v g. sym (ap some (same_pair_lem f out h)) ∙ sym e ∙ g))
          idling)
    | inr h ↦ rw h (refusing 409)
  ]

  pub funded_step-IsSafe : (role : SwapRole) (out : Funding) → IsSafe m (funded_step role out m)
  unfolding funded_step
  funded_step-IsSafe role out = funded_slot-IsSafe (slot (send_chain role) m) role out refl

module _ {db : Db} (id : ℕ) (from : SwapRole) where
  commit-Grows :
      (m : Match) (step : Step) (r : Relay db)
      → get_match db r.store id ≡ some m
      → IsSafe m step
      → Grows r.store (commit id from step r).0.store
  unfolding commit
  commit-Grows m (refuse code) r e (refusing _) = Grows-refl r.store
  commit-Grows m idle r e idling = Grows-refl r.store
  commit-Grows m (write m' body) r e (writing _ _ k) = put_match-Grows r.store id m m' e k

  locked-Grows :
      (f : Match → Step) (x : Option Match) (r : Relay db)
      → get_match db r.store id ≡ x
      → ((m : Match) → IsSafe m (f m))
      → Grows r.store (locked id from f x r).0.store
  unfolding locked
  locked-Grows f none r e h = Grows-refl r.store
  locked-Grows f (some m) r e h = commit-Grows m (f m) r e (h m)

  pub under_lock-Grows :
      (f : Match → Step) (r : Relay db)
      → ((m : Match) → IsSafe m (f m))
      → Grows r.store (under_lock id from f r).0.store
  unfolding under_lock
  under_lock-Grows f r h = locked-Grows f (get_match db r.store id) r refl h
