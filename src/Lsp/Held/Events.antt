-- ===== src/Lsp/Held/Events.antt =====
-- crates/fortis-lsp/src/held.rs: any sequence of its events. A payment that is on its way to the
-- phone, or settled, is left alone by everything but the result of its own forward.
use fortis.Common.{
  ℕ, ◌≡◌, refl, Bool, true, false, Option, none, some, List, [], ◌∷◌, ◌==◌, All, All-keep,
  All-trivial, find_first, Result, ok, err, arith, Bool-cases, Option-cases, inl, inr, ◌⊎◌, subst,
  sym, ◌∙◌, ==_iff,
}
use fortis.Common.Lists.{All-impl}
use fortis.Lsp.Records.{LedgerError, has_hash}
use fortis.Lsp.Held.{
  claim, Node, Service, mark, logged, deliver, is_claimable, is_unpaid, deliver_each, tick_held,
  deliver_stored, on_claimable, settle_forward, on_forward_result, channel_invoice, then_true,
  claimed_amount,
}
use fortis.Lsp.Held.Table.{
  claimable, done, Held, held_get, held_claimable, held_by_forward, held_insert, is_pending,
}
use fortis.Lsp.Held.Rows.{
  IsRow, Updates, Updates-IsRow, deliver-Updates, idle_deliver, held_update-IsRow, if_either,
}

-- What calls into this code, each with the time and the state of the node.
pub data Event : Type 0 where
  invoiced : (hash node preimage amount : ℕ) → Event
  payment_claimable : (hash amount : ℕ) → Option ℕ → Event
  looked : Event
  forward_resolved : (id : ℕ) → Bool → Event

unfoldable pub happen : ℕ → Node → Event → Service → Service
unfolding channel_invoice on_claimable tick_held on_forward_result
happen now n (invoiced hash node preimage amount) s = channel_invoice hash node preimage amount s
happen now n (payment_claimable hash amount deadline) s =
    (on_claimable now n hash amount deadline s).0
happen now n looked s = tick_held now n s
happen now n (forward_resolved id succeeded) s = on_forward_result n id succeeded s

unfoldable pub follow : List (ℕ × Node × Event) → Service → Service
unfolding happen
follow [] s = s
follow ((now, n, e) ∷ es) s = follow es (happen now n e s)

some_eq {ℓ} : {A : Type ℓ} (x y : A) → some x ≡ some y → x ≡ y
some_eq x y e = cc

All-find_first {ℓ κ} :
    {A : Type ℓ} (P : A → Type κ) (p : A → Bool) (xs : List A) (x : A)
    → All P xs
    → find_first p xs ≡ some x
    → P x × (p x ≡ true)
unfolding find_first
All-find_first P p [] x h e = absurd (cc e)
All-find_first P p (y ∷ ys) x h e = elim (Bool-cases (p y)) [
  | inl t ↦ let q = some_eq y x (rw t at e) in (subst P q h.0, subst (λ z. p z ≡ true) q t)
  | inr f ↦ All-find_first P p ys x h.1 (rw f at e)
]

held_get-hash :
    (hs : List Held) (hash : ℕ) (r : Held)
    → held_get hs hash ≡ some r
    → (r.payment_hash == hash) ≡ true
unfolding held_get
held_get-hash hs hash r e =
    (All-find_first (λ _. Unit {0}) (λ h. h.payment_hash == hash) hs r (All-trivial hs) e).1

held_get-other :
    (hs : List Held) (hash g : ℕ) (r : Held)
    → (hash == g) ≡ false
    → held_get hs hash ≡ some r
    → (r.payment_hash == g) ≡ false
held_get-other hs hash g r n e = ground (arith, n, held_get-hash hs hash r e)

pub then_true-state : (x : Service × Result LedgerError (Unit {0})) → (then_true x).0 ≡ x.0
then_true-state (s, ok u) = refl
then_true-state (s, err e) = refl

settle_forward-Updates :
    (n : Node) (h : Held) (b : Bool) (s : Service)
    → Updates h.payment_hash s (settle_forward n h b s)
unfolding settle_forward mark
settle_forward-Updates n h false s = inr (claimable, none, some none, refl)
settle_forward-Updates n h true s =
    if_either (Updates h.payment_hash s) (n.claims s.log h.payment_hash (claimed_amount h))
      (mark h.payment_hash done none none (logged (claim h.payment_hash (claimed_amount h)) s))
      (logged (claim h.payment_hash (claimed_amount h)) s) (inr (done, none, none, refl)) (inl refl)

module _ (g : ℕ) (h : Held) (idle : is_claimable h.state ≡ false) where
  -- The rows of a list that is worked through: another's, or not claimable.
  Harmless : Held → Type 0
  Harmless r = ((r.payment_hash == g) ≡ false) ⊎ (is_claimable r.state ≡ false)

  other_or_idle : (r : Held) → ((r.payment_hash == g) ≡ true → r ≡ h) → Harmless r
  unfolding Harmless
  other_or_idle r f = elim (Bool-cases (r.payment_hash == g)) [
    | inl e ↦ inr (subst (λ x. is_claimable x.state ≡ false) (sym (f e)) idle)
    | inr e ↦ inl e
  ]

  deliver-IsRow :
      (now : ℕ) (n : Node) (r : Held) (s : Service)
      → Harmless r
      → IsRow g h s.held
      → IsRow g h (deliver now n r s).0.held
  unfolding Harmless
  deliver-IsRow now n r s (inl other) row =
      Updates-IsRow g h r.payment_hash s (deliver now n r s).0 other (deliver-Updates now n r s) row
  deliver-IsRow now n r s (inr quiet) row =
      subst (λ x. IsRow g h x.held) (sym (idle_deliver now n r s quiet)) row

  deliver_each-IsRow :
      (now : ℕ) (n : Node) (hs : List Held) (s : Service)
      → All Harmless hs
      → IsRow g h s.held
      → IsRow g h (deliver_each now n hs s).held
  unfolding deliver_each
  deliver_each-IsRow now n [] s all row = row
  deliver_each-IsRow now n (r ∷ hs) s all row =
      deliver_each-IsRow now n hs (deliver now n r s).0 all.1 (deliver-IsRow now n r s all.0 row)

  tick_held-IsRow :
      (now : ℕ) (n : Node) (s : Service) → IsRow g h s.held → IsRow g h (tick_held now n s).held
  unfolding tick_held held_claimable
  tick_held-IsRow now n s row =
      deliver_each-IsRow now n (held_claimable s.held) s
        (All-keep Harmless (λ r. is_pending r.state) s.held
          (All-impl (λ r. (r.payment_hash == g) ≡ true → r ≡ h) Harmless s.held other_or_idle
            row.1))
        row

  deliver_stored-IsRow :
      (now : ℕ) (n : Node) (hash : ℕ) (s : Service)
      → (hash == g) ≡ false
      → IsRow g h s.held
      → IsRow g h (deliver_stored now n hash s).0.held
  unfolding deliver_stored Harmless
  deliver_stored-IsRow now n hash s other row = elim (Option-cases (held_get s.held hash)) [
    | inl e ↦ rw (e, deliver_stored) row
    | inr (r, e) ↦
        rw (e, deliver_stored)
          (deliver-IsRow now n r s (inl (held_get-other s.held hash g r other e)) row)
  ]

  module _ (paid : is_unpaid h.state ≡ false) where
    quiet :
        (hash : ℕ) (r : Held) (s : Service)
        → IsRow g h s.held
        → held_get s.held hash ≡ some r
        → (hash == g) ≡ true
        → is_unpaid r.state ≡ false
    quiet hash r s row e same =
        let at_g = subst (λ k. held_get s.held k ≡ some r) ((==_iff hash g).0 same) e in
        subst (λ x. is_unpaid x.state ≡ false) (some_eq h r (sym row.0 ∙ at_g)) paid

    on_claimable-IsRow :
        (now : ℕ) (n : Node) (hash amount : ℕ) (deadline : Option ℕ) (s : Service)
        → IsRow g h s.held
        → IsRow g h (on_claimable now n hash amount deadline s).0.held
    unfolding on_claimable mark
    on_claimable-IsRow now n hash amount deadline s row =
        elim (Option-cases (held_get s.held hash)) [
          | inl e ↦ rw (e, on_claimable) row
          | inr (r, e) ↦
              rw (e, on_claimable)
                (elim (Bool-cases (hash == g)) [
                  | inl same ↦ rw (quiet hash r s row e same) row
                  | inr other ↦
                      if_either (λ x. IsRow g h x.0.held) (is_unpaid r.state)
                        (then_true (
                          deliver_stored now n hash
                            (mark hash claimable (some (amount, deadline)) none s)))
                        (s, ok true)
                        (subst (λ x. IsRow g h x.held)
                          (sym (
                            then_true-state (
                              deliver_stored now n hash
                                (mark hash claimable (some (amount, deadline)) none s))))
                          (deliver_stored-IsRow now n hash
                            (mark hash claimable (some (amount, deadline)) none s) other
                            (held_update-IsRow g h hash claimable (some (amount, deadline)) none
                              other s.held row)))
                        row
                ])
        ]

    taken :
        (hash : ℕ) (s : Service)
        → IsRow g h s.held
        → held_get s.held hash ≡ none
        → ¬ ((hash == g) ≡ true)
    taken hash s row e same =
        let at_g = subst (λ k. held_get s.held k ≡ none) ((==_iff hash g).0 same) e in
        cc (sym row.0 ∙ at_g)

    channel_invoice-IsRow :
        (hash node preimage amount : ℕ) (s : Service)
        → IsRow g h s.held
        → IsRow g h (channel_invoice hash node preimage amount s).held
    unfolding channel_invoice held_insert
    channel_invoice-IsRow hash node preimage amount s row =
        elim (Option-cases (held_get s.held hash)) [
          | inr (r, e) ↦ rw (e, channel_invoice) row
          | inl e ↦
              rw (e, channel_invoice)
                (elim (Bool-cases (hash == g)) [
                  | inl same ↦ absurd (taken hash s row e same)
                  | inr other ↦ (rw other row.0, (λ p. absurd (cc (sym p ∙ other)), row.1))
                ])
        ]

    on_forward_result-IsRow :
        (n : Node) (id : ℕ) (b : Bool) (s : Service)
        → has_hash h.forward_id id ≡ false
        → IsRow g h s.held
        → IsRow g h (on_forward_result n id b s).held
    unfolding on_forward_result held_by_forward
    on_forward_result-IsRow n id b s other row = elim (Option-cases (held_by_forward s.held id)) [
      | inl e ↦ rw (e, on_forward_result) row
      | inr (r, e) ↦
          let found =
            All-find_first (λ r. (r.payment_hash == g) ≡ true → r ≡ h)
              (λ r. has_hash r.forward_id id) s.held r row.1 e in
          rw (e, on_forward_result)
            (elim (Bool-cases (r.payment_hash == g)) [
              | inl same ↦ absurd (
                  cc (
                    sym (subst (λ x. has_hash x.forward_id id ≡ true) (found.0 same) found.1)
                    ∙ other))
              | inr apart ↦
                  Updates-IsRow g h r.payment_hash s (settle_forward n r b s) apart
                    (settle_forward-Updates n r b s) row
            ])
    ]

-- No event reports the result of a forward of the row.
abbrev pub Unrelated : Held → List (ℕ × Node × Event) → Type 0
Unrelated h [] = Unit
Unrelated h ((now, n, forward_resolved id succeeded) ∷ es) =
    (has_hash h.forward_id id ≡ false) × Unrelated h es
Unrelated h ((now, n, e) ∷ es) = Unrelated h es

-- A row that is not open to a payment or to a look: on its way, delivered, credited or returned.
abbrev pub IsFixed : Held → Type 0
IsFixed h = (is_claimable h.state ≡ false) × (is_unpaid h.state ≡ false)

-- A held payment that has been sent on to the phone, delivered, credited or returned, stays exactly
-- as it is through any invoices, payments, looks and results of other forwards, at any heights and
-- for any answers of the node: only the result of its own forward can change it.
pub follow-IsRow :
    (g : ℕ) (h : Held) (es : List (ℕ × Node × Event)) (s : Service)
    → IsFixed h
    → Unrelated h es
    → IsRow g h s.held
    → IsRow g h (follow es s).held
unfolding follow happen
follow-IsRow g h [] s fixed other row = row
follow-IsRow g h ((now, n, invoiced hash node preimage amount) ∷ es) s fixed other row =
    follow-IsRow g h es (channel_invoice hash node preimage amount s) fixed other
      (channel_invoice-IsRow g h fixed.0 fixed.1 hash node preimage amount s row)
follow-IsRow g h ((now, n, payment_claimable hash amount deadline) ∷ es) s fixed other row =
    follow-IsRow g h es (on_claimable now n hash amount deadline s).0 fixed other
      (on_claimable-IsRow g h fixed.0 fixed.1 now n hash amount deadline s row)
follow-IsRow g h ((now, n, looked) ∷ es) s fixed other row =
    follow-IsRow g h es (tick_held now n s) fixed other (tick_held-IsRow g h fixed.0 now n s row)
follow-IsRow g h ((now, n, forward_resolved id succeeded) ∷ es) s fixed other row =
    follow-IsRow g h es (on_forward_result n id succeeded s) fixed other.1
      (on_forward_result-IsRow g h fixed.0 fixed.1 n id succeeded s other.0 row)
