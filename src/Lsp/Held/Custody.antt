-- ===== src/Lsp/Held/Custody.antt =====
-- crates/fortis-lsp/src/held.rs: the custody limit under any sequence of events.
use fortis.Common.{
  ℕ, ◌≡◌, ◌≤◌, max, refl, Bool, true, false, Option, none, some, List, [], ◌∷◌, if◌then◌else◌, ◌==◌,
  Result, ok, err, arith, Bool-cases, Option-cases, inl, inr, subst, sym, ◌∙◌, leb, ltb, min, ◌&&◌,
  ◌+◌, ◌-◌, ◌*◌, any,
}
use fortis.Lsp.Records.{LedgerError}
use fortis.Lsp.Ledger.{credit, total_custody}
use fortis.Lsp.Held.{
  Action, keysend, claim, wake, Node, Service, safety_blocks, u32_max, mark, logged, keep_credited,
  settle_into_account, forward, wake_once, deadline_of, deliver_to_phone, deliver_amount, deliver,
  is_claimable, is_unpaid, deliver_each, tick_held, deliver_stored, on_claimable, settle_forward,
  on_forward_result, channel_invoice, then_true, claimed_amount, connected_to, room_to,
}
use fortis.Lsp.Held.Table.{
  claimable, done, Held, held_get, held_claimable, held_by_forward, held_insert,
}
use fortis.Lsp.Held.Rows.{if_either}
use fortis.Lsp.Held.Delivery.{credit_adds}
use fortis.Lsp.Held.Events.{
  then_true-state, Event, invoiced, payment_claimable, looked, forward_resolved, happen, follow,
}

-- The limit is the same, and the custody total is below it or has not grown.
abbrev pub IsBounded : Service → Service → Type 0
IsBounded s after =
    (after.custody_max ≡ s.custody_max)
    × (total_custody after.ledger ≤ max (total_custody s.ledger) s.custody_max)

IsBounded-trans : (s t u : Service) → IsBounded s t → IsBounded t u → IsBounded s u
IsBounded-trans s t u (m, a) (k, b) = (k ∙ m, omega (arith, m, a, b))

IsBounded-refl : (s : Service) → IsBounded s s
IsBounded-refl s = (refl, omega arith)

forward-IsBounded :
    (h : Held) (a : Action) (s : Service) (o : Option ℕ) → IsBounded s (forward h (logged a s) o)
unfolding forward mark
forward-IsBounded h a s none = IsBounded-refl s
forward-IsBounded h a s (some id) = IsBounded-refl s

module _ (now : ℕ) (n : Node) (h : Held) (amount : ℕ) (s : Service) where
  abbrev connected : Bool
  connected = connected_to n.peers h.node

  abbrev sent_on : Service
  sent_on = forward h (logged (keysend amount h.node) s) (n.keysend_id s.log amount h.node)

  abbrev in_account : Service × Result LedgerError (Unit {0})
  in_account =
      keep_credited h (logged (claim h.payment_hash amount) s)
        (credit now h.node h.payment_hash amount s.ledger)

  abbrev Bounded : Service × Result LedgerError (Unit {0}) → Type 0
  Bounded x = IsBounded s x.0

  wake_once-IsBounded : IsBounded s (wake_once h amount s)
  unfolding wake_once
  wake_once-IsBounded =
      if_either (IsBounded s) (any (λ w. w == h.payment_hash) s.woken) s
        (logged (wake h.node amount) (record s { woken = h.payment_hash ∷ s.woken }))
        (IsBounded-refl s) (IsBounded-refl s)

  to_phone-IsBounded : IsBounded s (deliver_to_phone n h amount s)
  unfolding deliver_to_phone
  to_phone-IsBounded =
      if_either (IsBounded s)
        (connected
          && leb amount (room_to n.channels h.node)
          && ltb (min (n.height + 2 * safety_blocks) u32_max) (deadline_of h))
        sent_on (if connected then s else wake_once h amount s)
        (forward-IsBounded h (keysend amount h.node) s (n.keysend_id s.log amount h.node))
        (if_either (IsBounded s) connected s (wake_once h amount s) (IsBounded-refl s)
          wake_once-IsBounded)

  in_account-IsBounded :
      leb amount (s.custody_max - total_custody s.ledger) ≡ true → Bounded in_account
  unfolding keep_credited mark
  in_account-IsBounded room =
      let (b, after, e, adds) = credit_adds now h.node h.payment_hash amount s.ledger in
      subst (λ r. Bounded (keep_credited h (logged (claim h.payment_hash amount) s) r)) (sym e)
        (refl, ground (arith, adds, room))

  to_account-IsBounded : Bounded (settle_into_account now n h amount s)
  unfolding settle_into_account mark
  to_account-IsBounded = elim (Bool-cases (ltb 0 s.custody_max)) [
    | inr z ↦ rw z (IsBounded-refl s)
    | inl z ↦ elim (Bool-cases (leb amount (s.custody_max - total_custody s.ledger))) [
      | inr f ↦ rw (z, f) (IsBounded-refl s)
      | inl f ↦
          rw (z, f)
            (if_either Bounded (n.claims s.log h.payment_hash amount) in_account
              (logged (claim h.payment_hash amount) s, ok tt) (in_account-IsBounded f)
              (IsBounded-refl s))
    ]
  ]

  deliver_amount-IsBounded : Bounded (deliver_amount now n h amount s)
  unfolding deliver_amount
  deliver_amount-IsBounded =
      if_either Bounded (is_claimable h.state)
        (if leb (deadline_of h) (min (n.height + safety_blocks) u32_max)
          then settle_into_account now n h amount s
          else (deliver_to_phone n h amount s, ok tt))
        (s, ok tt)
        (if_either Bounded (leb (deadline_of h) (min (n.height + safety_blocks) u32_max))
          (settle_into_account now n h amount s) (deliver_to_phone n h amount s, ok tt)
          to_account-IsBounded to_phone-IsBounded)
        (IsBounded-refl s)

deliver-IsBounded :
    (now : ℕ) (n : Node) (h : Held) (s : Service) → IsBounded s (deliver now n h s).0
unfolding deliver
deliver-IsBounded now n h s = elim (Option-cases h.claimable_msat) [
  | inl e ↦ rw (e, deliver) (IsBounded-refl s)
  | inr (amount, e) ↦ rw (e, deliver) (deliver_amount-IsBounded now n h amount s)
]

deliver_each-IsBounded :
    (now : ℕ) (n : Node) (hs : List Held) (s : Service) → IsBounded s (deliver_each now n hs s)
unfolding deliver_each
deliver_each-IsBounded now n [] s = IsBounded-refl s
deliver_each-IsBounded now n (h ∷ hs) s =
    IsBounded-trans s (deliver now n h s).0 (deliver_each now n hs (deliver now n h s).0)
      (deliver-IsBounded now n h s) (deliver_each-IsBounded now n hs (deliver now n h s).0)

deliver_stored-IsBounded :
    (now : ℕ) (n : Node) (hash : ℕ) (s : Service) → IsBounded s (deliver_stored now n hash s).0
unfolding deliver_stored
deliver_stored-IsBounded now n hash s = elim (Option-cases (held_get s.held hash)) [
  | inl e ↦ rw (e, deliver_stored) (IsBounded-refl s)
  | inr (h, e) ↦ rw (e, deliver_stored) (deliver-IsBounded now n h s)
]

on_claimable-IsBounded :
    (now : ℕ) (n : Node) (hash amount : ℕ) (deadline : Option ℕ) (s : Service)
    → IsBounded s (on_claimable now n hash amount deadline s).0
unfolding on_claimable mark
on_claimable-IsBounded now n hash amount deadline s = elim (Option-cases (held_get s.held hash)) [
  | inl e ↦ rw (e, on_claimable) (IsBounded-refl s)
  | inr (r, e) ↦
      let marked = mark hash claimable (some (amount, deadline)) none s in
      rw (e, on_claimable)
        (if_either (λ x. IsBounded s x.0) (is_unpaid r.state)
          (then_true (deliver_stored now n hash marked)) (s, ok true)
          (subst (IsBounded s) (sym (then_true-state (deliver_stored now n hash marked)))
            (deliver_stored-IsBounded now n hash marked))
          (IsBounded-refl s))
]

channel_invoice-IsBounded :
    (hash node preimage amount : ℕ) (s : Service)
    → IsBounded s (channel_invoice hash node preimage amount s)
unfolding channel_invoice
channel_invoice-IsBounded hash node preimage amount s =
    go (held_insert hash node preimage amount s.held)
  where
    go :
        (r : Result LedgerError (List Held))
        → IsBounded s (elim r [ err e ↦ s | ok held ↦ record s { held = held } ])
    go (err e) = IsBounded-refl s
    go (ok held) = IsBounded-refl s

settle_forward-IsBounded :
    (n : Node) (h : Held) (b : Bool) (s : Service) → IsBounded s (settle_forward n h b s)
unfolding settle_forward mark
settle_forward-IsBounded n h false s = IsBounded-refl s
settle_forward-IsBounded n h true s =
    if_either (IsBounded s) (n.claims s.log h.payment_hash (claimed_amount h))
      (mark h.payment_hash done none none (logged (claim h.payment_hash (claimed_amount h)) s))
      (logged (claim h.payment_hash (claimed_amount h)) s) (IsBounded-refl s) (IsBounded-refl s)

on_forward_result-IsBounded :
    (n : Node) (id : ℕ) (b : Bool) (s : Service) → IsBounded s (on_forward_result n id b s)
unfolding on_forward_result
on_forward_result-IsBounded n id b s = elim (Option-cases (held_by_forward s.held id)) [
  | inl e ↦ rw (e, on_forward_result) (IsBounded-refl s)
  | inr (h, e) ↦ rw (e, on_forward_result) (settle_forward-IsBounded n h b s)
]

happen-IsBounded : (now : ℕ) (n : Node) (e : Event) (s : Service) → IsBounded s (happen now n e s)
unfolding happen tick_held
happen-IsBounded now n (invoiced hash node preimage amount) s =
    channel_invoice-IsBounded hash node preimage amount s
happen-IsBounded now n (payment_claimable hash amount deadline) s =
    on_claimable-IsBounded now n hash amount deadline s
happen-IsBounded now n looked s = deliver_each-IsBounded now n (held_claimable s.held) s
happen-IsBounded now n (forward_resolved id succeeded) s =
    on_forward_result-IsBounded n id succeeded s

-- Whatever happens to held payments, the custody total never grows past the limit: it stays within
-- the larger of the limit and what it was.
pub follow-IsBounded : (es : List (ℕ × Node × Event)) (s : Service) → IsBounded s (follow es s)
unfolding follow
follow-IsBounded [] s = IsBounded-refl s
follow-IsBounded ((now, n, e) ∷ es) s =
    IsBounded-trans s (happen now n e s) (follow es (happen now n e s)) (happen-IsBounded now n e s)
      (follow-IsBounded es (happen now n e s))
