-- ===== src/Lsp/Held.antt =====
-- crates/fortis-lsp/src/held.rs: payments into a user's own channel, held until the phone can take
-- them. What is sent to the node and to the phones is a log; the node's answers may depend on all of
-- it.
use fortis.Common.{
  ℕ, ◌+◌, ◌-◌, ◌*◌, min, max, Bool, true, false, ◌&&◌, Option, none, some, List, [], ◌∷◌,
  if◌then◌else◌, ltb, leb, ◌==◌, keep, any, find_first, Result, ok, err, u32_mod, map,
}
use fortis.Lsp.Records.{Ledger, LedgerError, db, has_hash, as_i64}
use fortis.Lsp.Ledger.{credit, total_custody}
use fortis.Lsp.Held.Table.{
  Held, HeldState, claimable, done, failed, forwarding, held_by_forward, held_claimable, held_get,
  held_insert, held_update, is_pending, kept, unpaid, updated, with_claimable, with_forward,
}
pub mod Table
pub mod Delivery
pub mod Rows
pub mod Events
pub mod Custody

pub data Action : Type 0 where
  keysend : (amount node : ℕ) → Action
  claim : (hash amount : ℕ) → Action
  fail : (hash : ℕ) → Action
  wake : (node amount : ℕ) → Action

pub record Peer : Type 0 where
  pub node_id : ℕ
  pub is_connected : Bool

pub record Channel : Type 0 where
  pub counterparty : ℕ
  pub is_usable : Bool
  pub outbound_limit : ℕ

-- The Lightning node as a call of this code meets it. A keysend gives the id of its payment.
pub record Node : Type 0 where
  pub height : ℕ
  pub peers : List Peer
  pub channels : List Channel
  pub keysend_id : List Action → ℕ → ℕ → Option ℕ
  pub claims : List Action → ℕ → ℕ → Bool

pub record Service : Type 0 where
  pub ledger : Ledger
  pub held : List Held
  pub woken : List ℕ
  pub custody_max : ℕ
  -- Newest first.
  pub log : List Action

abbrev pub safety_blocks : ℕ
safety_blocks = 6

abbrev pub u32_max : ℕ
u32_max = u32_mod - 1

-- `held_update` on the service.
unfoldable pub mark : ℕ → HeldState → Option (ℕ × Option ℕ) → Option (Option ℕ) → Service → Service
unfolding held_update
mark hash state payment forward s = record s {
  held = held_update hash state payment forward s.held;
}

abbrev pub logged : Action → Service → Service
logged a s = record s { log = a ∷ s.log }

unfoldable pub connected_to : List Peer → ℕ → Bool
unfolding any
connected_to peers node = any (λ p. p.node_id == node && p.is_connected) peers

-- The largest limit of a usable channel with the node.
unfoldable pub room_to : List Channel → ℕ → ℕ
room_to [] node = 0
room_to (c ∷ cs) node =
    let rest = room_to cs node in
    if c.counterparty == node && c.is_usable then max c.outbound_limit rest else rest

-- The end of `settle_into_account` once the payment has been claimed.
unfoldable pub keep_credited :
    Held → Service → Result LedgerError (Bool × Ledger) → Service × Result LedgerError (Unit {0})
unfolding mark
keep_credited h s (ok (fresh, after)) =
    (mark h.payment_hash kept none none (record s { ledger = after }), ok tt)
keep_credited h s (err e) = (s, err e)

unfoldable pub settle_into_account :
    ℕ → Node → Held → ℕ → Service → Service × Result LedgerError (Unit {0})
unfolding keep_credited mark total_custody credit
settle_into_account now n h amount s =
    let claimed = logged (claim h.payment_hash amount) s in
    if ltb 0 s.custody_max && leb amount (s.custody_max - total_custody s.ledger)
    then (if n.claims s.log h.payment_hash amount
        then keep_credited h claimed (credit now h.node h.payment_hash amount s.ledger)
        else (claimed, ok tt))
    else (mark h.payment_hash failed none none (logged (fail h.payment_hash) s), ok tt)

-- A keysend that the node accepted, or not.
unfoldable pub forward : Held → Service → Option ℕ → Service
unfolding mark
forward h s (some id) = mark h.payment_hash forwarding none (some (some id)) s
forward h s none = s

unfoldable pub wake_once : Held → ℕ → Service → Service
unfolding any
wake_once h amount s =
    if any (λ w. w == h.payment_hash) s.woken
    then s
    else logged (wake h.node amount) (record s { woken = h.payment_hash ∷ s.woken })

unfoldable pub deadline_of : Held → ℕ
deadline_of h = elim h.deadline [ none ↦ u32_max | some d ↦ d ]

-- The rest of `deliver` for a claimable payment that is not nearly due.
unfoldable pub deliver_to_phone : Node → Held → ℕ → Service → Service
unfolding connected_to room_to forward wake_once deadline_of
deliver_to_phone n h amount s =
    let connected = connected_to n.peers h.node in
    if connected
      && leb amount (room_to n.channels h.node)
      && ltb (min (n.height + 2 * safety_blocks) u32_max) (deadline_of h)
    then forward h (logged (keysend amount h.node) s) (n.keysend_id s.log amount h.node)
    else (if connected then s else wake_once h amount s)

unfoldable pub is_claimable : HeldState → Bool
is_claimable claimable = true
is_claimable _ = false

unfoldable pub deliver_amount :
    ℕ → Node → Held → ℕ → Service → Service × Result LedgerError (Unit {0})
unfolding settle_into_account deliver_to_phone deadline_of is_claimable
deliver_amount now n h amount s =
    if is_claimable h.state
    then (if leb (deadline_of h) (min (n.height + safety_blocks) u32_max)
        then settle_into_account now n h amount s
        else (deliver_to_phone n h amount s, ok tt))
    else (s, ok tt)

unfoldable pub deliver : ℕ → Node → Held → Service → Service × Result LedgerError (Unit {0})
unfolding deliver_amount
deliver now n h s = elim h.claimable_msat [
  | none ↦ (s, ok tt)
  | some amount ↦ deliver_amount now n h amount s
]

-- `tick`: the rows as they were read; an error is logged, and the next row is looked at.
unfoldable pub deliver_each : ℕ → Node → List Held → Service → Service
unfolding deliver
deliver_each now n [] s = s
deliver_each now n (h ∷ hs) s = deliver_each now n hs (deliver now n h s).0

unfoldable pub tick_held : ℕ → Node → Service → Service
unfolding deliver_each held_claimable
tick_held now n s = deliver_each now n (held_claimable s.held) s

unfoldable pub is_unpaid : HeldState → Bool
is_unpaid unpaid = true
is_unpaid _ = false

-- The row is read again before it is delivered.
unfoldable pub deliver_stored : ℕ → Node → ℕ → Service → Service × Result LedgerError (Unit {0})
unfolding deliver held_get
deliver_stored now n hash s = elim (held_get s.held hash) [
  | none ↦ (s, ok tt)
  | some h ↦ deliver now n h s
]

abbrev pub then_true : Service × Result LedgerError (Unit {0}) → Service × Result LedgerError Bool
then_true (s, ok u) = (s, ok true)
then_true (s, err e) = (s, err e)

-- `false`: not a held invoice.
unfoldable pub on_claimable :
    ℕ → Node → ℕ → ℕ → Option ℕ → Service → Service × Result LedgerError Bool
unfolding held_get mark deliver_stored is_unpaid
on_claimable now n hash amount deadline s = elim (held_get s.held hash) [
  | none ↦ (s, ok false)
  | some h ↦
      if is_unpaid h.state
      then then_true
          (deliver_stored now n hash (mark hash claimable (some (amount, deadline)) none s))
      else (s, ok true)
]

unfoldable pub claimed_amount : Held → ℕ
claimed_amount h = elim h.claimable_msat [ none ↦ h.amount_msat | some a ↦ a ]

unfoldable pub settle_forward : Node → Held → Bool → Service → Service
unfolding mark claimed_amount
settle_forward n h false s = mark h.payment_hash claimable none (some none) s
settle_forward n h true s =
    let claimed = logged (claim h.payment_hash (claimed_amount h)) s in
    if n.claims s.log h.payment_hash (claimed_amount h)
    then mark h.payment_hash done none none claimed
    else claimed

unfoldable pub on_forward_result : Node → ℕ → Bool → Service → Service
unfolding held_by_forward settle_forward
on_forward_result n id succeeded s = elim (held_by_forward s.held id) [
  | none ↦ s
  | some h ↦ settle_forward n h succeeded s
]

-- The row of a new invoice (`channel_invoice`).
unfoldable pub channel_invoice : ℕ → ℕ → ℕ → ℕ → Service → Service
unfolding held_insert
channel_invoice hash node preimage amount s = elim (held_insert hash node preimage amount s.held) [
  | err e ↦ s
  | ok held ↦ record s { held = held }
]
