-- ===== src/Swap/Runs.antt =====
-- crates/wallet-core/src/swap.rs: what a run of `on_event` must have seen.
use fortis.Common.{ℕ, ◌≤◌, ◌≡◌, ◌∙◌, refl, sym, ap, ◌⊎◌, inl, inr, List, [], ◌∷◌, ◌++◌, arith}
use fortis.Swap.{
  SwapParams, SwapState, negotiated, our_funding_broadcast, counterparty_funding_confirmed,
  redeemed, settled, refunded, failed, SwapEvent, funding_broadcast, counterparty_funded,
  counterparty_redeemed, our_output_confirmed, timelock_expired, SwapMachine, new_machine,
  next_state, on_event,
}

-- The machine after events.
abbrev pub run : SwapMachine → List SwapEvent → SwapMachine
run m [] = m
run m (e ∷ es) = run (on_event e m) es

abbrev states : ℕ → SwapState → List SwapEvent → SwapState
states confs s [] = s
states confs s (e ∷ es) = states confs (next_state confs s e) es

run-states :
    (m : SwapMachine) (es : List SwapEvent)
    → (run m es).state ≡ states m.params.required_incoming_confs m.state es
unfolding on_event
run-states m [] = refl
run-states m (e ∷ es) = run-states (on_event e m) es

-- The steps into a state from another.
into_settled :
    (confs : ℕ) (s : SwapState) (e : SwapEvent)
    → next_state confs s e ≡ settled
    → (s ≡ settled)
      ⊎ ((n : ℕ) × (p : ℕ) × (e ≡ our_output_confirmed n) × (s ≡ redeemed p) × (confs ≤ n))
unfolding next_state
into_settled confs s (funding_broadcast t) h = ground (arith, h)
into_settled confs s (counterparty_funded n) h = ground (arith, h)
into_settled confs s (counterparty_redeemed p) h = absurd (ground (arith, h))
into_settled confs (redeemed p) (our_output_confirmed n) h =
    inr (n, p, refl, refl, ground (arith, h))
into_settled confs negotiated (our_output_confirmed n) h = absurd (ground (arith, h))
into_settled confs (our_funding_broadcast t) (our_output_confirmed n) h = absurd (ground (arith, h))
into_settled confs counterparty_funding_confirmed (our_output_confirmed n) h =
    absurd (ground (arith, h))
into_settled confs settled (our_output_confirmed n) h = inl refl
into_settled confs refunded (our_output_confirmed n) h = absurd (ground (arith, h))
into_settled confs (failed r) (our_output_confirmed n) h = absurd (ground (arith, h))
into_settled confs s timelock_expired h = ground (arith, h)

into_redeemed :
    (confs : ℕ) (s : SwapState) (e : SwapEvent) (p : ℕ)
    → next_state confs s e ≡ redeemed p
    → (s ≡ redeemed p) ⊎ (e ≡ counterparty_redeemed p)
unfolding next_state
into_redeemed confs s (funding_broadcast t) p h = ground (arith, h)
into_redeemed confs s (counterparty_funded n) p h = ground (arith, h)
into_redeemed confs s (counterparty_redeemed q) p h = inr (ground (arith, h))
into_redeemed confs s (our_output_confirmed n) p h = ground (arith, h)
into_redeemed confs s timelock_expired p h = ground (arith, h)

into_refunded :
    (confs : ℕ) (s : SwapState) (e : SwapEvent)
    → next_state confs s e ≡ refunded
    → (s ≡ refunded) ⊎ ((e ≡ timelock_expired) × ((t : ℕ) × (s ≡ our_funding_broadcast t)))
unfolding next_state
into_refunded confs s (funding_broadcast t) h = ground (arith, h)
into_refunded confs s (counterparty_funded n) h = ground (arith, h)
into_refunded confs s (counterparty_redeemed q) h = absurd (ground (arith, h))
into_refunded confs s (our_output_confirmed n) h = ground (arith, h)
into_refunded confs (our_funding_broadcast t) timelock_expired h = inr (refl, (t, refl))
into_refunded confs negotiated timelock_expired h = absurd (ground (arith, h))
into_refunded confs (redeemed p) timelock_expired h = absurd (ground (arith, h))
into_refunded confs counterparty_funding_confirmed timelock_expired h = absurd (ground (arith, h))
into_refunded confs settled timelock_expired h = absurd (ground (arith, h))
into_refunded confs refunded timelock_expired h = inl refl
into_refunded confs (failed r) timelock_expired h = absurd (ground (arith, h))

into_broadcast :
    (confs : ℕ) (s : SwapState) (e : SwapEvent) (t : ℕ)
    → next_state confs s e ≡ our_funding_broadcast t
    → (s ≡ our_funding_broadcast t) ⊎ ((e ≡ funding_broadcast t) × (s ≡ negotiated))
unfolding next_state
into_broadcast confs negotiated (funding_broadcast u) t h = inr (ground (arith, h), refl)
into_broadcast confs (our_funding_broadcast v) (funding_broadcast u) t h = inl h
into_broadcast confs (redeemed p) (funding_broadcast u) t h = absurd (ground (arith, h))
into_broadcast confs counterparty_funding_confirmed (funding_broadcast u) t h =
    absurd (ground (arith, h))
into_broadcast confs settled (funding_broadcast u) t h = absurd (ground (arith, h))
into_broadcast confs refunded (funding_broadcast u) t h = absurd (ground (arith, h))
into_broadcast confs (failed r) (funding_broadcast u) t h = absurd (ground (arith, h))
into_broadcast confs s (counterparty_funded n) t h = ground (arith, h)
into_broadcast confs s (counterparty_redeemed q) t h = absurd (ground (arith, h))
into_broadcast confs s (our_output_confirmed n) t h = ground (arith, h)
into_broadcast confs s timelock_expired t h = ground (arith, h)

-- A run that ends in one of some states began in one, or has a step into them.
module _ (confs : ℕ) (P : SwapState → Type 0) (Q : SwapState → SwapEvent → Type 0)
    (into : (s : SwapState) (e : SwapEvent) → P (next_state confs s e) → P s ⊎ Q s e) where
  abbrev Entered : SwapState → List SwapEvent → Type 0
  Entered s es =
      (before : List SwapEvent) × (e : SwapEvent) × (after : List SwapEvent) × (es
        ≡ before ++ e ∷ after)
      × Q (states confs s before) e

  later-Entered :
      (s : SwapState) (e : SwapEvent) (es : List SwapEvent)
      → Entered (next_state confs s e) es
      → Entered s (e ∷ es)
  later-Entered s e es (b, x, a, q, r) = (e ∷ b, x, a, ap (λ l. e ∷ l) q, r)

  first-Entered :
      (s : SwapState) (e : SwapEvent) (es : List SwapEvent) → P s ⊎ Q s e → P s ⊎ Entered s (e ∷ es)
  first-Entered s e es (inl p) = inl p
  first-Entered s e es (inr q) = inr ([], e, es, refl, q)

  entered : (s : SwapState) (es : List SwapEvent) → P (states confs s es) → P s ⊎ Entered s es
  entered s [] h = inl h
  entered s (e ∷ es) h = elim (entered (next_state confs s e) es h) [
    | inl p ↦ first-Entered s e es (into s e p)
    | inr f ↦ inr (later-Entered s e es f)
  ]

-- What a settled swap saw: the redeem of our contract with its preimage, then our output with the
-- confirmations that are required.
pub record SawRedeem (confs : ℕ) (es : List SwapEvent) : Type 0 where
  pub first : List SwapEvent
  pub preimage : ℕ
  pub between : List SwapEvent
  pub confirmations : ℕ
  pub rest : List SwapEvent
  pub enough : confs ≤ confirmations
  pub events :
      es
      ≡ (first ++ counterparty_redeemed preimage ∷ between)
        ++ our_output_confirmed confirmations ∷ rest

-- What a refunded swap saw: our funding, then the end of the timelock.
pub record SawTimeout (es : List SwapEvent) : Type 0 where
  pub first : List SwapEvent
  pub txid : ℕ
  pub between : List SwapEvent
  pub rest : List SwapEvent
  pub events : es ≡ (first ++ funding_broadcast txid ∷ between) ++ timelock_expired ∷ rest

settled_states :
    (confs : ℕ) (es : List SwapEvent) → states confs negotiated es ≡ settled → SawRedeem confs es
settled_states confs es h =
    elim (entered confs (λ s. s ≡ settled)
      (λ s e. (n : ℕ) × (p : ℕ) × (e ≡ our_output_confirmed n) × (s ≡ redeemed p) × (confs ≤ n))
      (into_settled confs) negotiated es h) [
        | inl c ↦ absurd (cc c)
        | inr (b, e, a, q, (n, p, ee, se, le)) ↦
            elim (entered confs (λ s. s ≡ redeemed p) (λ s e. e ≡ counterparty_redeemed p)
              (λ s e. into_redeemed confs s e p) negotiated b se) [
                | inl c ↦ absurd (cc c)
                | inr (b', e', a', q', ee') ↦ record {
                  first = b';
                  preimage = p;
                  between = a';
                  confirmations = n;
                  rest = a;
                  enough = le;
                  events = cc (q, ee, q', ee');
                }
              ]
      ]

refunded_states :
    (confs : ℕ) (es : List SwapEvent) → states confs negotiated es ≡ refunded → SawTimeout es
refunded_states confs es h =
    elim (entered confs (λ s. s ≡ refunded)
      (λ s e. (e ≡ timelock_expired) × ((t : ℕ) × (s ≡ our_funding_broadcast t)))
      (into_refunded confs) negotiated es h) [
        | inl c ↦ absurd (cc c)
        | inr (b, e, a, q, (ee, (t, se))) ↦
            elim (entered confs (λ s. s ≡ our_funding_broadcast t)
              (λ s e. (e ≡ funding_broadcast t) × (s ≡ negotiated))
              (λ s e. into_broadcast confs s e t) negotiated b se) [
                | inl c ↦ absurd (cc c)
                | inr (b', e', a', q', (ee', z)) ↦ record {
                  first = b';
                  txid = t;
                  between = a';
                  rest = a;
                  events = cc (q, ee, q', ee');
                }
              ]
      ]

-- A new machine that is settled after some events saw the redeem of our contract and then our own
-- output with the confirmations that the terms require.
pub run-SawRedeem :
    (p : SwapParams) (es : List SwapEvent)
    → (run (new_machine p) es).state ≡ settled
    → SawRedeem p.required_incoming_confs es
run-SawRedeem p es h =
    settled_states p.required_incoming_confs es (sym (run-states (new_machine p) es) ∙ h)

-- A new machine that is refunded after some events saw our funding and then the end of the
-- timelock.
pub run-SawTimeout :
    (p : SwapParams) (es : List SwapEvent)
    → (run (new_machine p) es).state ≡ refunded
    → SawTimeout es
run-SawTimeout p es h =
    refunded_states p.required_incoming_confs es (sym (run-states (new_machine p) es) ∙ h)
