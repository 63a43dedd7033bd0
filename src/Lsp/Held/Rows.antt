-- ===== src/Lsp/Held/Rows.antt =====
-- crates/fortis-lsp/src/held.rs: a look at a held payment updates no row but its own.
use fortis.Common.{
  ℕ, ◌≡◌, refl, Bool, true, false, Option, none, some, List, [], ◌∷◌, if◌then◌else◌, ◌==◌, All,
  find_first, Result, ok, err, arith, Bool-cases, Option-cases, inl, inr, ◌⊎◌, subst, sym, ◌∙◌, leb,
  ltb, min, ◌&&◌, ◌+◌, ◌-◌, ◌*◌, any, ap,
}
use fortis.Lsp.Records.{Ledger, LedgerError}
use fortis.Lsp.Ledger.{credit, total_custody}
use fortis.Lsp.Held.{
  Action, keysend, claim, fail, wake, Node, Service, safety_blocks, u32_max, mark, logged,
  keep_credited, settle_into_account, forward, wake_once, deadline_of, deliver_to_phone,
  deliver_amount, deliver, is_claimable, is_unpaid, deliver_each, tick_held, deliver_stored,
  on_claimable, settle_forward, on_forward_result, channel_invoice, then_true, connected_to,
  room_to,
}
use fortis.Lsp.Held.Table.{
  HeldState, claimable, unpaid, kept, failed, forwarding, done, Held, held_get, held_update,
  updated, held_claimable, held_by_forward, held_insert,
}

-- The one row of a payment hash.
abbrev pub IsRow : ℕ → Held → List Held → Type 0
IsRow g h hs = (held_get hs g ≡ some h) × All (λ r. (r.payment_hash == g) ≡ true → r ≡ h) hs

updated-hash :
    (state : HeldState) (payment : Option (ℕ × Option ℕ)) (forwarded : Option (Option ℕ)) (h : Held)
    → (updated state payment forwarded h).payment_hash ≡ h.payment_hash
unfolding updated fortis.Lsp.Held.Table.with_claimable
updated-hash state none none h = refl
updated-hash state none (some f) h = refl
updated-hash state (some p) none h = refl
updated-hash state (some p) (some f) h = refl

-- Two rows under one hash, which are the same if it is the one looked for.
first_of :
    (g : ℕ) (c r : Held) (x y : Option Held)
    → c.payment_hash ≡ r.payment_hash
    → ((r.payment_hash == g) ≡ true → c ≡ r)
    → x ≡ y
    → (if c.payment_hash == g then some c else x) ≡ (if r.payment_hash == g then some r else y)
first_of g c r x y e f q =
    subst (λ k. (if k == g then some c else x) ≡ (if r.payment_hash == g then some r else y))
      (sym e)
      (elim (Bool-cases (r.payment_hash == g)) [ inl p ↦ rw p (ap some (f p)) | inr p ↦ rw p q ])

module _ (g : ℕ) (h : Held) (hash : ℕ) (state : HeldState) (payment : Option (ℕ × Option ℕ))
    (forwarded : Option (Option ℕ)) (n : (hash == g) ≡ false) where
  changed : Held → Held
  changed r = if r.payment_hash == hash then updated state payment forwarded r else r

  changed-hash : (r : Held) → (changed r).payment_hash ≡ r.payment_hash
  unfolding changed
  changed-hash r = elim (Bool-cases (r.payment_hash == hash)) [
    | inl e ↦ rw e (updated-hash state payment forwarded r)
    | inr e ↦ rw e refl
  ]

  changed_at : (r : Held) → (r.payment_hash == g) ≡ true → changed r ≡ r
  unfolding changed
  changed_at r e = ground (arith, e, n)

  on_hash : (r : Held) → ((changed r).payment_hash == g) ≡ true → (r.payment_hash == g) ≡ true
  on_hash r e = subst (λ k. (k == g) ≡ true) (changed-hash r) e

  held_get-held_update :
      (hs : List Held) → held_get (held_update hash state payment forwarded hs) g ≡ held_get hs g
  unfolding held_update held_get find_first changed
  held_get-held_update [] = refl
  held_get-held_update (r ∷ hs) =
      first_of g (changed r) r _ _ (changed-hash r) (changed_at r) (held_get-held_update hs)

  held_update-rows :
      (hs : List Held)
      → All (λ r. (r.payment_hash == g) ≡ true → r ≡ h) hs
      → All
          (λ r. (r.payment_hash == g) ≡ true → r ≡ h)
          (held_update hash state payment forwarded hs)
  unfolding held_update changed
  held_update-rows [] a = tt
  held_update-rows (r ∷ hs) a =
      (λ e. changed_at r (on_hash r e) ∙ a.0 (on_hash r e), held_update-rows hs a.1)

  pub held_update-IsRow :
      (hs : List Held) → IsRow g h hs → IsRow g h (held_update hash state payment forwarded hs)
  held_update-IsRow hs row = (held_get-held_update hs ∙ row.0, held_update-rows hs row.1)

-- At most the row of one hash is updated.
abbrev pub Updates : ℕ → Service → Service → Type 0
Updates hash s after =
    (after.held ≡ s.held)
    ⊎ ((state : HeldState) × (payment : Option (ℕ × Option ℕ)) × (forwarded : Option (Option ℕ))
        × (after.held ≡ held_update hash state payment forwarded s.held))

pub Updates-IsRow :
    (g : ℕ) (h : Held) (hash : ℕ) (s after : Service)
    → (hash == g) ≡ false
    → Updates hash s after
    → IsRow g h s.held
    → IsRow g h after.held
Updates-IsRow g h hash s after n (inl e) row = subst (IsRow g h) (sym e) row
Updates-IsRow g h hash s after n (inr (state, payment, forwarded, e)) row =
    subst (IsRow g h) (sym e) (held_update-IsRow g h hash state payment forwarded n s.held row)

-- Both branches will do.
pub if_either {ℓ κ} :
    {A : Type ℓ} (P : A → Type κ) (b : Bool) (x y : A) → P x → P y → P (if b then x else y)
if_either P true x y h k = h
if_either P false x y h k = k

forward-Updates :
    (h : Held) (a : Action) (s : Service) (o : Option ℕ)
    → Updates h.payment_hash s (forward h (logged a s) o)
unfolding forward mark
forward-Updates h a s none = inl refl
forward-Updates h a s (some id) = inr (forwarding, none, some (some id), refl)

keep_credited-Updates :
    (h : Held) (a : Action) (s : Service) (r : Result LedgerError (Bool × Ledger))
    → Updates h.payment_hash s (keep_credited h (logged a s) r).0
unfolding keep_credited mark
keep_credited-Updates h a s (ok x) = inr (kept, none, none, refl)
keep_credited-Updates h a s (err e) = inl refl

wake_once-Updates :
    (h : Held) (amount : ℕ) (s : Service) → Updates h.payment_hash s (wake_once h amount s)
unfolding wake_once
wake_once-Updates h amount s =
    if_either (Updates h.payment_hash s) (any (λ w. w == h.payment_hash) s.woken) s
      (logged (wake h.node amount) (record s { woken = h.payment_hash ∷ s.woken })) (inl refl)
      (inl refl)

module _ (now : ℕ) (n : Node) (h : Held) (amount : ℕ) (s : Service) where
  abbrev connected : Bool
  connected = connected_to n.peers h.node

  abbrev sent_on : Service
  sent_on = forward h (logged (keysend amount h.node) s) (n.keysend_id s.log amount h.node)

  abbrev in_account : Service × Result LedgerError (Unit {0})
  in_account =
      keep_credited h (logged (claim h.payment_hash amount) s)
        (credit now h.node h.payment_hash amount s.ledger)

  abbrev Own : Service × Result LedgerError (Unit {0}) → Type 0
  Own x = Updates h.payment_hash s x.0

  to_phone-Updates : Updates h.payment_hash s (deliver_to_phone n h amount s)
  unfolding deliver_to_phone
  to_phone-Updates =
      if_either (Updates h.payment_hash s)
        (connected
          && leb amount (room_to n.channels h.node)
          && ltb (min (n.height + 2 * safety_blocks) u32_max) (deadline_of h))
        sent_on (if connected then s else wake_once h amount s)
        (forward-Updates h (keysend amount h.node) s (n.keysend_id s.log amount h.node))
        (if_either (Updates h.payment_hash s) connected s (wake_once h amount s) (inl refl)
          (wake_once-Updates h amount s))

  to_account-Updates : Own (settle_into_account now n h amount s)
  unfolding settle_into_account mark
  to_account-Updates =
      if_either Own (ltb 0 s.custody_max && leb amount (s.custody_max - total_custody s.ledger))
        (if n.claims s.log h.payment_hash amount
          then in_account
          else (logged (claim h.payment_hash amount) s, ok tt))
        (mark h.payment_hash failed none none (logged (fail h.payment_hash) s), ok tt)
        (if_either Own (n.claims s.log h.payment_hash amount) in_account
          (logged (claim h.payment_hash amount) s, ok tt)
          (keep_credited-Updates h (claim h.payment_hash amount) s
            (credit now h.node h.payment_hash amount s.ledger))
          (inl refl))
        (inr (failed, none, none, refl))

  deliver_amount-Updates : Own (deliver_amount now n h amount s)
  unfolding deliver_amount
  deliver_amount-Updates =
      if_either Own (is_claimable h.state)
        (if leb (deadline_of h) (min (n.height + safety_blocks) u32_max)
          then settle_into_account now n h amount s
          else (deliver_to_phone n h amount s, ok tt))
        (s, ok tt)
        (if_either Own (leb (deadline_of h) (min (n.height + safety_blocks) u32_max))
          (settle_into_account now n h amount s) (deliver_to_phone n h amount s, ok tt)
          to_account-Updates to_phone-Updates)
        (inl refl)

pub deliver-Updates :
    (now : ℕ) (n : Node) (h : Held) (s : Service) → Updates h.payment_hash s (deliver now n h s).0
unfolding deliver
deliver-Updates now n h s = elim (Option-cases h.claimable_msat) [
  | inl e ↦ rw (e, deliver) (inl refl)
  | inr (amount, e) ↦ rw (e, deliver) (deliver_amount-Updates now n h amount s)
]

pub idle_deliver :
    (now : ℕ) (n : Node) (h : Held) (s : Service)
    → is_claimable h.state ≡ false
    → (deliver now n h s).0 ≡ s
unfolding deliver deliver_amount
idle_deliver now n h s idle = elim (Option-cases h.claimable_msat) [
  | inl e ↦ rw (e, deliver) refl
  | inr (amount, e) ↦ rw (e, idle) refl
]
