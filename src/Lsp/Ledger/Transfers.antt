-- ===== src/Lsp/Ledger/Transfers.antt =====
-- crates/fortis-lsp/src/account.rs: renamed holds and conversions keep the books.
use fortis.Common.{
  ℕ, ◌≡◌, refl, false, inl, inr, List, [], ◌∷◌, ◌==◌, Result, ok, err, ◌>>=◌, arith, Option-cases,
  Bool-cases, subst, ==_iff,
}
use fortis.Lsp.Records.{LedgerError, Hold, HoldKind, Ledger, free_msat, held_in, hold_named}
use fortis.Lsp.Ledger.{account, hold_kind, start_conversion, rename_in, rename_hold, total_custody}
use fortis.Lsp.Ledger.Balances.{IsFresh, IsKeyed, hold_named-IsFresh}
use fortis.Lsp.Ledger.Books.{IsBooked, Keeps}
use fortis.Lsp.Ledger.Operations.{hold_kind-Keeps}

-- The ledger of an operation that also returns a value.
abbrev pub ledger_of {ℓ} :
    {A : Type ℓ} → Result LedgerError (A × Ledger) → Result LedgerError Ledger
ledger_of (ok x) = ok x.1
ledger_of (err e) = err e

pub start_conversion-Keeps :
    (k id : ℕ) (l : Ledger) → IsBooked l → Keeps (ledger_of (start_conversion k id l))
unfolding start_conversion
start_conversion-Keeps k id l b =
    go (hold_kind k id free free HoldKind.conversion l)
      (hold_kind-Keeps k id free free HoldKind.conversion l b)
  where
    free : ℕ
    free = free_msat (account l k)

    go :
        (r : Result LedgerError Ledger)
        → Keeps r
        → Keeps (ledger_of (r >>= λ after. ok (free, after)))
    go (ok a) h = h
    go (err e) h = h

rename_in-IsFresh :
    (hs : List Hold) (old new id : ℕ)
    → IsFresh hs id
    → (new == id) ≡ false
    → IsFresh (rename_in hs old new) id
unfolding rename_in
rename_in-IsFresh [] old new id f n = tt
rename_in-IsFresh (h ∷ hs) old new id f n =
    ground (arith, f.0, n, rename_in-IsFresh hs old new id f.1 n)

rename_in_absent : (hs : List Hold) (old new : ℕ) → IsFresh hs old → rename_in hs old new ≡ hs
unfolding rename_in
rename_in_absent [] old new f = refl
rename_in_absent (h ∷ hs) old new f = ground (arith, f.0, rename_in_absent hs old new f.1)

rename_in_same : (hs : List Hold) (id : ℕ) → rename_in hs id id ≡ hs
unfolding rename_in
rename_in_same [] id = refl
rename_in_same (h ∷ hs) id = ground (arith, rename_in_same hs id)

rename_in-IsKeyed :
    (hs : List Hold) (old new : ℕ) → IsKeyed hs → IsFresh hs new → IsKeyed (rename_in hs old new)
unfolding rename_in
rename_in-IsKeyed [] old new f g = tt
rename_in-IsKeyed (h ∷ hs) old new f g = elim (Bool-cases (h.id == old)) [
  | inl e ↦ rw e (
    rw (rename_in_absent hs old new (subst (λ i. IsFresh hs i) ((==_iff h.id old).0 e) f.0)) g.1,
    f.1,
    rename_in-IsKeyed hs old new f.2 g.1,
  )
  | inr e ↦ rw e (
    rename_in-IsFresh hs old new h.id f.0 (ground (arith, g.0)),
    f.1,
    rename_in-IsKeyed hs old new f.2 g.1,
  )
]

held_in-rename_in :
    (hs : List Hold) (old new j : ℕ) → held_in (rename_in hs old new) j ≡ held_in hs j
unfolding rename_in held_in
held_in-rename_in [] old new j = refl
held_in-rename_in (h ∷ hs) old new j = ground (arith, held_in-rename_in hs old new j)

renamed-IsBooked :
    (old new : ℕ) (l : Ledger)
    → IsBooked l
    → IsKeyed (rename_in l.holds old new)
    → IsBooked (record l { holds = rename_in l.holds old new })
unfolding total_custody
renamed-IsBooked old new l b keyed =
    (keyed, λ j. ((b.1 j).0, rw (held_in-rename_in l.holds old new j) (b.1 j).1), b.2)

pub rename_hold-Keeps : (old new : ℕ) (l : Ledger) → IsBooked l → Keeps (rename_hold old new l)
unfolding rename_hold
rename_hold-Keeps old new l b = elim (Option-cases (hold_named l.holds old)) [
  | inl e ↦ rw (e, Keeps) tt
  | inr (h, e) ↦
      rw (e, Keeps)
        (elim (Bool-cases (old == new)) [
          | inl f ↦
              rw (f, Keeps)
                (renamed-IsBooked old new l b (
                  subst (λ i. IsKeyed (rename_in l.holds old i)) ((==_iff old new).0 f)
                    (rw (rename_in_same l.holds old) b.0)))
          | inr f ↦
              rw (f, Keeps)
                (elim (Option-cases (hold_named l.holds new)) [
                  | inr (g, q) ↦ rw (q, Keeps) tt
                  | inl q ↦
                      rw (q, Keeps)
                        (renamed-IsBooked old new l b (
                          rename_in-IsKeyed l.holds old new b.0 (hold_named-IsFresh l.holds new q)))
                ])
        ])
]
