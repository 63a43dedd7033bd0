-- ===== src/Lsp/Held/Table.antt =====
-- crates/fortis-lsp/src/account.rs: the table `held`, one row for each payment hash.
use fortis.Common.{
  ℕ, Bool, true, false, Option, none, some, List, [], ◌∷◌, if◌then◌else◌, ◌==◌, keep, find_first,
  Result, ok, err,
}
use fortis.Lsp.Records.{LedgerError, db, has_hash, as_i64}

pub data HeldState : Type 0 where
  unpaid : HeldState
  claimable : HeldState
  forwarding : HeldState
  done : HeldState
  kept : HeldState
  failed : HeldState

pub record Held : Type 0 where
  pub payment_hash : ℕ
  pub node : ℕ
  pub preimage : ℕ
  pub amount_msat : ℕ
  pub claimable_msat : Option ℕ
  pub deadline : Option ℕ
  pub forward_id : Option ℕ
  pub state : HeldState

unfoldable pub held_get : List Held → ℕ → Option Held
unfolding find_first
held_get hs hash = find_first (λ h. h.payment_hash == hash) hs

unfoldable pub held_insert : ℕ → ℕ → ℕ → ℕ → List Held → Result LedgerError (List Held)
unfolding held_get as_i64
held_insert hash node preimage amount hs = elim (held_get hs hash) [
  | some h ↦ err db
  | none ↦ ok (
      record {
        payment_hash = hash;
        node = node;
        preimage = preimage;
        amount_msat = as_i64 amount;
        claimable_msat = none;
        deadline = none;
        forward_id = none;
        state = unpaid;
      }
      ∷ hs)
]

unfoldable pub is_pending : HeldState → Bool
is_pending claimable = true
is_pending forwarding = true
is_pending _ = false

unfoldable pub held_claimable : List Held → List Held
unfolding keep is_pending
held_claimable hs = keep (λ h. is_pending h.state) hs

unfoldable pub held_by_forward : List Held → ℕ → Option Held
unfolding find_first
held_by_forward hs id = find_first (λ h. has_hash h.forward_id id) hs

-- What an update records of the payer's payment, and of the forward.
unfoldable pub with_claimable : Option (ℕ × Option ℕ) → Held → Held
unfolding as_i64
with_claimable none h = h
with_claimable (some (amount, deadline)) h = record h {
  claimable_msat = some (as_i64 amount);
  deadline = deadline;
}

abbrev pub with_forward : Option (Option ℕ) → Held → Held
with_forward none h = h
with_forward (some id) h = record h { forward_id = id }

unfoldable pub updated : HeldState → Option (ℕ × Option ℕ) → Option (Option ℕ) → Held → Held
updated state payment forward h =
    with_forward forward (with_claimable payment (record h { state = state }))

unfoldable pub held_update :
    ℕ → HeldState → Option (ℕ × Option ℕ) → Option (Option ℕ) → List Held → List Held
unfolding updated
held_update hash state payment forward [] = []
held_update hash state payment forward (h ∷ hs) =
    (if h.payment_hash == hash then updated state payment forward h else h)
    ∷ held_update hash state payment forward hs
