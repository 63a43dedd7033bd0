-- ===== src/Lsp/Ledger/Balances.antt =====
-- crates/fortis-lsp/src/account.rs: what `add_balance` and `take_hold` do to the sums.
use fortis.Common.{
  ℕ, ◌+◌, ◌-◌, ◌≤◌, ◌≡◌, refl, false, some, none, List, [], ◌∷◌, if◌then◌else◌, ◌==◌, ℤ, inflow,
  outflow, ok, arith, find_first, sum_by, All,
}
use fortis.Lsp.Records.{
  AccountRow, Hold, add_balance, change_balance, set_balance, keep_row, balance_in, held_in,
  hold_named, drop_hold, i64_max,
}
use fortis.Lsp.Ledger.{total_in}

-- The amount if it is the node's.
abbrev pub if_node : ℕ → ℕ → ℕ → ℕ
if_node k j n = if k == j then n else 0

-- The rows after a change that the balance covers.
abbrev pub moved : List AccountRow → ℕ → ℤ → List AccountRow
moved [] k delta = record { node = k; balance = inflow delta } ∷ []
moved (r ∷ rs) k delta =
    let rest = moved rs k delta in
    if r.node == k
    then record r { balance = r.balance + inflow delta - outflow delta } ∷ rs
    else r ∷ rest

pub add_balance_covered :
    (rs : List AccountRow) (k : ℕ) (delta : ℤ)
    → outflow delta ≤ balance_in rs k
    → add_balance rs k delta ≡ ok (moved rs k delta)
unfolding add_balance change_balance set_balance keep_row balance_in
add_balance_covered [] k delta h = refl
add_balance_covered (r ∷ rs) k delta h = ground (arith, add_balance_covered rs k delta)

pub balance_in-moved :
    (rs : List AccountRow) (k : ℕ) (delta : ℤ) (j : ℕ)
    → outflow delta ≤ balance_in rs k
    → balance_in (moved rs k delta) j + if_node k j (outflow delta)
      ≡ balance_in rs j + if_node k j (inflow delta)
unfolding balance_in
balance_in-moved [] k delta j h = ground (arith, h)
balance_in-moved (r ∷ rs) k delta j h = ground (arith, h, balance_in-moved rs k delta j)

pub total_in-moved :
    (rs : List AccountRow) (k : ℕ) (delta : ℤ)
    → outflow delta ≤ balance_in rs k
    → total_in (moved rs k delta) + outflow delta ≡ total_in rs + inflow delta
unfolding balance_in total_in sum_by
total_in-moved [] k delta h = ground (arith, h)
total_in-moved (r ∷ rs) k delta h = ground (arith, h, total_in-moved rs k delta)

-- No hold has the id.
abbrev pub IsFresh : List Hold → ℕ → Type 0
IsFresh hs id = All (λ h. (h.id == id) ≡ false) hs

-- The primary key of the holds, whose amounts are not negative as signed words.
abbrev pub IsKeyed : List Hold → Type 0
IsKeyed [] = Unit
IsKeyed (h ∷ hs) = IsFresh hs h.id × (h.amount ≤ i64_max) × IsKeyed hs

pub hold_named-IsFresh : (hs : List Hold) (id : ℕ) → hold_named hs id ≡ none → IsFresh hs id
unfolding hold_named find_first
hold_named-IsFresh [] id e = tt
hold_named-IsFresh (h ∷ hs) id e = ground (arith, e, hold_named-IsFresh hs id)

drop_fresh : (hs : List Hold) (id : ℕ) → IsFresh hs id → drop_hold hs id ≡ hs
unfolding drop_hold
drop_fresh [] id f = refl
drop_fresh (h ∷ hs) id f = ground (arith, f.0, drop_fresh hs id f.1)

drop_hold-IsFresh :
    (hs : List Hold) (id other : ℕ) → IsFresh hs other → IsFresh (drop_hold hs id) other
unfolding drop_hold
drop_hold-IsFresh [] id other f = tt
drop_hold-IsFresh (h ∷ hs) id other f = ground (arith, f.0, drop_hold-IsFresh hs id other f.1)

pub drop_hold-IsKeyed : (hs : List Hold) (id : ℕ) → IsKeyed hs → IsKeyed (drop_hold hs id)
unfolding drop_hold
drop_hold-IsKeyed [] id f = tt
drop_hold-IsKeyed (h ∷ hs) id f =
    ground (arith, f.1, drop_hold-IsFresh hs id h.id f.0, drop_hold-IsKeyed hs id f.2)

-- A hold that is taken no longer counts for its node; no other node's holds change.
pub held_in-drop_hold :
    (hs : List Hold) (id : ℕ) (h : Hold) (j : ℕ)
    → IsKeyed hs
    → hold_named hs id ≡ some h
    → held_in (drop_hold hs id) j + if_node h.node j h.amount ≡ held_in hs j
unfolding hold_named find_first drop_hold held_in
held_in-drop_hold [] id h j f e = absurd (cc e)
held_in-drop_hold (g ∷ hs) id h j f e =
    ground (arith, e, f.0, drop_fresh hs g.id f.0, held_in-drop_hold hs id h j f.2)

pub hold_named_fits :
    (hs : List Hold) (id : ℕ) (h : Hold)
    → IsKeyed hs
    → hold_named hs id ≡ some h
    → h.amount ≤ i64_max
unfolding hold_named find_first
hold_named_fits [] id h f e = absurd (cc e)
hold_named_fits (g ∷ hs) id h f e = ground (arith, e, f.1, hold_named_fits hs id h f.2)
