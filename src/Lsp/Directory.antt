-- ===== src/Lsp/Directory.antt =====
-- crates/fortis-lsp/src/account.rs: the tables of the ledger file that hold no money: invoices,
-- push tokens, offers and nonces; and the reads of accounts, holds and entries.
use fortis.Common.{
  ℕ, Bool, true, false, ◌&&◌, ◌||◌, not, Option, none, some, List, [], ◌∷◌, if◌then◌else◌, ltb, leb,
  ◌==◌, keep, any, find_first, map, suc, zero,
}
use fortis.Lsp.Records.{Account, HoldKind, conversion, Entry, Ledger, as_i64, account_of, has_hash}
use fortis.Lsp.Held.Table.{Held}

pub record Invoice : Type 0 where
  pub payment_hash : ℕ
  pub node : ℕ
  pub amount : ℕ
  pub expires_at : ℕ

pub record PushToken : Type 0 where
  pub node : ℕ
  pub token : ℕ
  pub updated_at : ℕ

pub record Offer : Type 0 where
  pub offer_id : ℕ
  pub node : ℕ
  pub offer : ℕ

pub record Nonce : Type 0 where
  pub node : ℕ
  pub nonce : ℕ
  pub expires_at : ℕ

pub record Directory : Type 0 where
  pub invoices : List Invoice
  pub push_tokens : List PushToken
  pub offers : List Offer
  pub nonces : List Nonce

-- `INSERT OR REPLACE`: rows with the same key go.
unfoldable pub pending_invoice : ℕ → ℕ → ℕ → ℕ → Directory → Directory
unfolding keep as_i64
pending_invoice hash node amount expires_at d = record d {
  invoices =
      record { payment_hash = hash; node = node; amount = as_i64 amount; expires_at = expires_at }
      ∷ keep (λ i. not (i.payment_hash == hash)) d.invoices;
}

unfoldable pub invoice_owner : Directory → ℕ → Option ℕ
unfolding find_first
invoice_owner d hash = elim (find_first (λ i. i.payment_hash == hash) d.invoices) [
  | none ↦ none
  | some i ↦ some i.node
]

unfoldable pub set_push_token : ℕ → ℕ → ℕ → Directory → Directory
unfolding keep
set_push_token node token now d = record d {
  push_tokens =
      record { node = node; token = token; updated_at = now }
      ∷ keep (λ t. not (t.node == node)) d.push_tokens;
}

unfoldable pub push_token : Directory → ℕ → Option ℕ
unfolding find_first
push_token d node = elim (find_first (λ t. t.node == node) d.push_tokens) [
  | none ↦ none
  | some t ↦ some t.token
]

unfoldable pub drop_push_token : ℕ → ℕ → Directory → Directory
unfolding keep
drop_push_token node token d = record d {
  push_tokens = keep (λ t. not (t.node == node && t.token == token)) d.push_tokens;
}

-- The id and the node are both unique.
unfoldable pub set_offer : ℕ → ℕ → ℕ → Directory → Directory
unfolding keep
set_offer node offer_id offer d = record d {
  offers =
      record { offer_id = offer_id; node = node; offer = offer }
      ∷ keep (λ o. not (o.offer_id == offer_id || o.node == node)) d.offers;
}

unfoldable pub offer_of : Directory → ℕ → Option ℕ
unfolding find_first
offer_of d node = elim (find_first (λ o. o.node == node) d.offers) [
  | none ↦ none
  | some o ↦ some o.offer
]

unfoldable pub offer_owner : Directory → ℕ → Option ℕ
unfolding find_first
offer_owner d id = elim (find_first (λ o. o.offer_id == id) d.offers) [
  | none ↦ none
  | some o ↦ some o.node
]

unfoldable pub unexpired : ℕ → List Nonce → List Nonce
unfolding keep
unexpired clock rows = keep (λ r. leb clock r.expires_at) rows

unfoldable pub nonce_used : List Nonce → ℕ → ℕ → Bool
unfolding any
nonce_used rows node nonce = any (λ r. r.node == node && r.nonce == nonce) rows

unfoldable pub use_nonce : ℕ → ℕ → ℕ → ℕ → List Nonce → Bool × List Nonce
unfolding unexpired nonce_used
use_nonce clock node nonce expires_at rows =
    let live = unexpired clock rows in
    if nonce_used live node nonce
    then (false, live)
    else (true, record { node = node; nonce = nonce; expires_at = expires_at } ∷ live)

-- Open holds of conversions: the id and the node.
unfoldable pub conversions : Ledger → List (ℕ × ℕ)
unfolding keep
conversions l = map (λ h. (h.id, h.node)) (keep (λ h. is_conversion h.kind) l.holds)
  where
    is_conversion : HoldKind → Bool
    is_conversion conversion = true
    is_conversion _ = false

unfoldable pub over_cap : Ledger → ℕ → List (ℕ × Account)
unfolding keep account_of as_i64
over_cap l cap_msat =
    map (λ r. (r.node, account_of l.accounts l.holds r.node))
      (keep (λ r. ltb (as_i64 cap_msat) r.balance) l.accounts)

-- `LIMIT`.
unfoldable pub first_rows : ℕ → List Entry → List Entry
first_rows zero es = []
first_rows (suc n) [] = []
first_rows (suc n) (e ∷ es) = e ∷ first_rows n es

-- Newest first.
unfoldable pub history : Ledger → ℕ → ℕ → List Entry
unfolding first_rows keep
history l node limit = first_rows limit (keep (λ e. e.node == node) l.entries)

unfoldable pub knows_payment : Directory → List Held → Ledger → ℕ → Bool
unfolding any
knows_payment d held l hash =
    any (λ i. i.payment_hash == hash) d.invoices
    || any (λ h. h.payment_hash == hash) held
    || any (λ f. f.0 == hash) l.fee_invoices
    || any (λ e. has_hash e.payment_hash hash) l.entries
