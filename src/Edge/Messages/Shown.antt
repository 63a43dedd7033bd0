-- ===== src/Edge/Messages/Shown.antt =====
-- crates/fortis-edge/src/swap/mod.rs: what a funding that is relayed shows of the chain, and what a
-- match that comes back shows of its deadline.
use fortis.Common.{
  ℕ, ◌≡◌, ◌⊎◌, refl, sym, subst, ◌∙◌, Bool, true, false, inl, inr, Option, none, some, Result, ok,
  err, if◌then◌else◌, Bool-cases, not, ==_iff, ap, List, ◌||◌, ◌==◌, ok_or, ok_of_bind, passed,
  some_of_ok, arith,
}
use fortis.Chain.{Chain, btc, xbt}
use fortis.Terms.{SwapRole, SwapTerms, initiator, participant}
use fortis.Htlc.{Crate, Op}
use fortis.Edge.Records.{Match, Funding, KeysHex}
use fortis.Edge.Store.{Db, Store, get_match, put_match}
use fortis.Edge.Messages.{
  Relay, Reply, pushed, unrelayed, refused, Body, Step, refuse, idle, write, push, commit, locked,
  under_lock,
}
use fortis.Edge.Messages.Chained.{
  ChainReader, TxOutInfo, Unpaid, no_reader, read_failed, not_seen, mismatch, leg_amount, slot,
  is_recorded, script_with, leg_witness_script, paid_to, leg_paid_on_chain,
}
use fortis.Edge.Messages.Posts.{
  send_chain, is_turn, funded_next, move_on, funded_slot, funded_step, funding_shown, once_shown,
  funded_in_turn, or_code,
}
use fortis.Edge.Messages.Steps.{same_pair_lem}
use fortis.Edge.Messages.Kept.{IsKept, Kept, IsKeyed}
use fortis.Edge.Messages.Lasting.{Lasts, grows}
use fortis.Edge.Messages.Requests.{once_shown-Lasts}

-- What the terms say of a leg.
abbrev pub amount_on : Chain → SwapTerms → ℕ
amount_on xbt t = t.xbt_sat
amount_on btc t = t.btc_sat

leg_amount_lem : (c : Chain) (t : SwapTerms) → leg_amount c t ≡ amount_on c t
leg_amount_lem xbt t = refl
leg_amount_lem btc t = refl

module _ (B : Crate) (point : ℕ → Option ℕ) (chain : Option ChainReader) (c : Chain)
    (out : Funding) where
  -- The script is of the keys, the hashlock and the terms, once all are known.
  paid_with :
      (t : SwapTerms) (i p i' p' : Option KeysHex) (h h' : Option ℕ)
      → IsKept i i'
      → IsKept p p'
      → IsKept h h'
      → paid_to B point chain c out t (script_with B point c t i p h) ≡ ok tt
      → paid_to B point chain c out t (script_with B point c t i' p' h') ≡ ok tt
  unfolding script_with paid_to
  paid_with t (some i) (some p) i' p' (some h) h' f g k e = rw (f i refl, g p refl, k h refl) e
  paid_with t (some i) (some p) i' p' none h' f g k e = cc
  paid_with t (some i) none i' p' h h' f g k e = cc
  paid_with t none p i' p' h h' f g k e = cc

  -- A leg that the chain showed as paid is still so shown when more is recorded of its match.
  pub leg_paid-Kept :
      (m m' : Match)
      → Kept m m'
      → leg_paid_on_chain B point chain c out m ≡ ok tt
      → leg_paid_on_chain B point chain c out m' ≡ ok tt
  unfolding leg_paid_on_chain leg_witness_script
  leg_paid-Kept m m' k e = rw k.terms (
      paid_with m.terms m.keys.0 m.keys.1 m'.keys.0 m'.keys.1 m.hashlock m'.hashlock
        k.initiator_keys k.participant_keys k.hashlock e)

-- What the chain shows of a leg that is paid: the output, with the script of the leg's contract and
-- the amount of the terms.
pub record IsPaid (B : Crate) (point : ℕ → Option ℕ) (chain : Option ChainReader) (c : Chain)
    (out : Funding) (m : Match) : Type 0 where
  pub reader : ChainReader
  pub script : List Op
  pub output : TxOutInfo
  pub reads : chain ≡ some reader
  pub known : leg_witness_script B point c m ≡ ok script
  pub seen : reader.created_output c out ≡ some (some output)
  pub pays : output.script_pubkey ≡ B.p2wsh script
  pub amount : output.value_sat ≡ amount_on c m.terms

pub shown_leg-IsPaid :
    (B : Crate) (point : ℕ → Option ℕ) (chain : Option ChainReader) (c : Chain) (out : Funding)
    (m : Match)
    → leg_paid_on_chain B point chain c out m ≡ ok tt
    → IsPaid B point chain c out m
unfolding leg_paid_on_chain paid_to
shown_leg-IsPaid B point chain c out m h =
    let (ws, known, h1) = ok_of_bind (leg_witness_script B point c m) _ tt h in
    let (reader, reads, h2) = ok_of_bind (ok_or chain no_reader) _ tt h1 in
    let (got, read, h3) = ok_of_bind (ok_or (reader.created_output c out) read_failed) _ tt h2 in
    let (output, seen, h4) = ok_of_bind (ok_or got not_seen) _ tt h3 in
    let (same, _) = passed _ mismatch (ok tt) tt h4 in
    record {
      reader = reader;
      script = ws;
      output = output;
      reads = some_of_ok chain no_reader reader reads;
      known = known;
      seen =
          some_of_ok (reader.created_output c out) read_failed got read
          ∙ ap some (some_of_ok got not_seen output seen);
      pays =
          (alike output.script_pubkey (B.p2wsh ws) output.value_sat (leg_amount c m.terms) same).0;
      amount =
          (alike output.script_pubkey (B.p2wsh ws) output.value_sat (leg_amount c m.terms) same).1
          ∙ leg_amount_lem c m.terms;
    }
  where
    alike : (a b x y : ℕ) → (not (a == b) || not (x == y)) ≡ false → (a ≡ b) × (x ≡ y)
    alike a b x y e = (ground (arith, e), ground (arith, e))

-- What a step of a party's `funded` writes.
data IsMoved (role : SwapRole) (out : Funding) (m : Match) : Step → Type 0 where
  refusing : (code : ℕ) → IsMoved role out m (refuse code)
  idling : IsMoved role out m idle
  moving :
      (m' : Match) (body : Body)
      → m'.id ≡ m.id
      → slot (send_chain role) m' ≡ some out
      → m'.status ≡ funded_next role
      → IsMoved role out m (write m' body)

if_IsMoved :
    (role : SwapRole) (out : Funding) (m : Match) (b : Bool) (x y : Step)
    → IsMoved role out m x
    → IsMoved role out m y
    → IsMoved role out m (if b then x else y)
if_IsMoved role out m true x y h k = h
if_IsMoved role out m false x y h k = k

move_on-IsMoved :
    (role : SwapRole) (out : Funding) (m : Match) → IsMoved role out m (move_on role out m)
unfolding move_on
move_on-IsMoved initiator out m =
    if_IsMoved initiator out m _ _ _ (moving _ _ refl refl refl) (refusing 409)
move_on-IsMoved participant out m =
    if_IsMoved participant out m _ _ _ (moving _ _ refl refl refl) (refusing 409)

funded_slot-IsMoved :
    (f : Option Funding) (role : SwapRole) (out : Funding) (m : Match)
    → IsMoved role out m (funded_slot f role out m)
unfolding funded_slot
funded_slot-IsMoved none role out m = move_on-IsMoved role out m
funded_slot-IsMoved (some f) role out m =
    if_IsMoved role out m _ _ _ (if_IsMoved role out m _ _ _ (move_on-IsMoved role out m) idling)
      (refusing 409)

-- The match as it is after a reply that relayed: with the funding, and in the next status.
pub record IsFunded (db : Db) (id : ℕ) (role : SwapRole) (out : Funding) (s : Store db) (m : Match)
    : Type 0 where
  pub stored : get_match db s id ≡ some m
  pub recorded : slot (send_chain role) m ≡ some out
  pub moved : m.status ≡ funded_next role

-- What holds where the reply is that the message was relayed.
abbrev pub IfPushed : Reply → Type 0 → Type 0
IfPushed (pushed _) P = P
IfPushed _ P = Unit

module _ {db : Db} (id : ℕ) (role : SwapRole) (out : Funding) where
  commit-IsFunded :
      (m : Match) (step : Step) (r : Relay db)
      → m.id ≡ id
      → IsMoved role out m step
      → IfPushed
          (commit id role step r).1
          ((m' : Match) × IsFunded db id role out (commit id role step r).0.store m')
  unfolding commit push get_match put_match
  commit-IsFunded m (refuse code) r e (refusing _) = tt
  commit-IsFunded m idle r e idling = tt
  commit-IsFunded m (write m' body) r e (moving _ _ i f g) = (
    m',
    record {
      stored =
          db.matches.get-put r.store.matches m'.id m' id ∙ rw ((==_iff m'.id id).1 (i ∙ e)) refl;
      recorded = f;
      moved = g;
    },
  )

  locked-IsFunded :
      (x : Option Match) (r : Relay db)
      → get_match db r.store id ≡ x
      → IsKeyed r.store
      → IfPushed (locked id role (funded_step role out) x r).1 (
          (m' : Match) × IsFunded db id role out
            (locked id role (funded_step role out) x r).0.store
            m')
  unfolding locked funded_step
  locked-IsFunded none r e k = tt
  locked-IsFunded (some m) r e k =
      commit-IsFunded m (funded_step role out m) r (k id m e)
        (funded_slot-IsMoved (slot (send_chain role) m) role out m)

paid_of_code : (x : Result Unpaid (Unit {0})) → or_code x ≡ ok tt → x ≡ ok tt
paid_of_code (ok tt) e = refl
paid_of_code (err why) e = cc

pub if_pushed : {P Q : Type 0} (r : Reply) → (P → Q) → IfPushed r P → IfPushed r Q
if_pushed (pushed _) f p = f p
if_pushed unrelayed f p = tt
if_pushed (refused _) f p = tt

module _ (B : Crate) (point : ℕ → Option ℕ) (chain : Option ChainReader) (role : SwapRole)
    (out : Funding) (m : Match) where
  -- The funding was recorded before, or the chain shows that it pays this leg.
  abbrev pub IsShown : Match → Type 0
  IsShown m' = (slot (send_chain role) m ≡ some out) ⊎ IsPaid B point chain (send_chain role) out m'

  abbrev Passes : Match → Type 0
  Passes m' =
      (is_recorded out (slot (send_chain role) m) ≡ true)
      ⊎ (leg_paid_on_chain B point chain (send_chain role) out m' ≡ ok tt)

  pub Passes-IsShown : (m' : Match) → Passes m' → IsShown m'
  Passes-IsShown m' (inl h) = inl (recorded_lem (slot (send_chain role) m) h)
    where
      recorded_lem : (o : Option Funding) → is_recorded out o ≡ true → o ≡ some out
      recorded_lem none e = cc
      recorded_lem (some g) e = ap some (same_pair_lem g out e)
  Passes-IsShown m' (inr h) = inr (shown_leg-IsPaid B point chain (send_chain role) out m' h)

module _ {db : Db} (B : Crate) (point : ℕ → Option ℕ) (chain : Option ChainReader)
    (others : ℕ → Relay db → Relay db) (quiet : (i : ℕ) (r : Relay db) → Lasts r (others i r))
    (id : ℕ) (role : SwapRole) (out : Funding) (m : Match) (r : Relay db) where
  pub funding_shown-Passes :
      funding_shown B point chain others role out m ≡ ok tt → Passes B point chain role out m m
  unfolding funding_shown
  funding_shown-Passes e = elim (Bool-cases (is_recorded out (slot (send_chain role) m))) [
    | inl h ↦ inl h
    | inr h ↦ elim (Bool-cases (not (is_turn role m.status))) [
      | inl g ↦ absurd_code (rw (h, g) at e)
      | inr g ↦ inr (paid_of_code _ (rw (h, g) at e))
    ]
  ]
    where
      absurd_code :
          ◌≡◌ {A = Result ℕ (Unit {0})} (err 409) (ok tt) → Passes B point chain role out m m
      absurd_code f = cc

  Kept-Passes :
      (m' : Match)
      → Kept m m'
      → Passes B point chain role out m m
      → Passes B point chain role out m m'
  Kept-Passes m' k (inl h) = inl h
  Kept-Passes m' k (inr h) = inr (leg_paid-Kept B point chain (send_chain role) out m m' k h)

  -- The stored match is the one that the matches grew into.
  final-IsShown :
      (x : Result ℕ (Unit {0})) (m' : Match)
      → get_match db r.store id ≡ some m
      → IsKeyed r.store
      → Passes B point chain role out m m
      → IsFunded db id role out (once_shown B point chain others id role out x r).0.store m'
      → IsShown B point chain role out m m'
  final-IsShown x m' e k h f =
      let kept = (grows (once_shown-Lasts B point chain others quiet id role out x r) k).1 id m e in
      Passes-IsShown B point chain role out m m'
        (Kept-Passes m' (subst (λ y. Kept m y) (same_some _ _ (sym kept.1 ∙ f.stored)) kept.2) h)
    where
      same_some : (a b : Match) → some a ≡ some b → a ≡ b
      same_some a b g = cc

  once_shown-IsShown :
      (x : Result ℕ (Unit {0}))
      → funding_shown B point chain others role out m ≡ x
      → get_match db r.store id ≡ some m
      → IsKeyed r.store
      → IfPushed (once_shown B point chain others id role out x r).1 (
          (m' : Match) × IsFunded db id role out
            (once_shown B point chain others id role out x r).0.store
            m'
          × IsShown B point chain role out m m')
  unfolding once_shown under_lock
  once_shown-IsShown (err code) e g k = tt
  once_shown-IsShown (ok tt) e g k =
      if_pushed (once_shown B point chain others id role out (ok tt) r).1
        (λ p. (p.0, p.1, final-IsShown (ok tt) p.0 g k (funding_shown-Passes e) p.1))
        (locked-IsFunded id role out (get_match db (others 0 r).store id) (others 0 r) refl
          (grows (quiet 0 r) k).0)

  -- A party's `funded` on a match that keeps its step, in a store that holds each match under its
  -- id, while other requests keep what is recorded: where it is relayed, the match is stored with
  -- that funding and in the next status, and either the match had recorded that funding when it was
  -- read, or the chain shows the output, with the script of the leg's contract as the stored match
  -- has it and the amount of its terms. (The late `funded` of a participant whose deadline passed
  -- does not go this way.)
  pub funded_in_turn-IsShown :
      get_match db r.store id ≡ some m
      → IsKeyed r.store
      → IfPushed (funded_in_turn B point chain others id role out m r).1 (
          (m' : Match) × IsFunded db id role out
            (funded_in_turn B point chain others id role out m r).0.store
            m'
          × IsShown B point chain role out m m')
  unfolding funded_in_turn
  funded_in_turn-IsShown e k =
      once_shown-IsShown (funding_shown B point chain others role out m) refl e k
