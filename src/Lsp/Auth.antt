-- ===== src/Lsp/Auth.antt =====
-- crates/fortis-lsp/src/account_auth.rs: signed requests. The check of a signature, which is the
-- Lightning library's, is given by its answer. A request comes parsed, or is none.
use fortis.Common.{
  ℕ, ◌+◌, ◌≤◌, ◌≡◌, refl, Bool, true, false, ◌&&◌, not, Option, none, some, List, [], ◌∷◌,
  if◌then◌else◌, ltb, leb, ◌==◌, keep, any, Result, ok, err, All, arith, u64, ◌<◌, lt_cases,
  Bool-cases, inl, inr,
}
use fortis.Lsp.Directory.{Nonce, unexpired, nonce_used, use_nonce}

pub record AccountRequest : Type 0 where
  pub node_id : ℕ
  pub nonce : ℕ
  pub expires_at : ℕ

pub data AuthError : Type 0 where
  malformed : AuthError
  bad_signature : AuthError
  expired : AuthError
  too_far_ahead : AuthError
  replayed : AuthError

abbrev max_ahead_secs : ℕ
max_ahead_secs = 300

unfoldable pub spend_nonce :
    ℕ → AccountRequest → List Nonce → Result AuthError AccountRequest × List Nonce
unfolding use_nonce
spend_nonce clock req rows =
    let used = use_nonce clock req.node_id req.nonce req.expires_at rows in
    ((if used.0 then ok req else err replayed), used.1)

unfoldable pub verify_request :
    ℕ → ℕ → Bool → AccountRequest → List Nonce → Result AuthError AccountRequest × List Nonce
unfolding spend_nonce
verify_request now clock signed req rows =
    if not signed
    then (err bad_signature, rows)
    else (if ltb req.expires_at now
        then (err expired, rows)
        else (if ltb (u64 (now + max_ahead_secs)) req.expires_at
            then (err too_far_ahead, rows)
            else spend_nonce clock req rows))

-- `now` is the caller's clock, and `clock` the ledger's.
unfoldable pub verify :
    ℕ → ℕ → Bool → Option AccountRequest → List Nonce → Result AuthError AccountRequest × List Nonce
unfolding verify_request
verify now clock signed none rows = (err malformed, rows)
verify now clock signed (some req) rows = verify_request now clock signed req rows

abbrev pub Call : Type 0
Call = (ℕ × ℕ) × Bool × Option AccountRequest

-- Calls one after another, each with the caller's clock and the ledger's.
unfoldable pub verify_each : List Call → List Nonce → List Nonce
unfolding verify
verify_each [] rows = rows
verify_each (((now, clock), signed, req) ∷ calls) rows =
    verify_each calls (verify now clock signed req rows).1

abbrev pub accepts : Result AuthError AccountRequest → Bool
accepts (ok r) = true
accepts (err e) = false

-- A row for the nonce that lasts until `t`.
lasting : List Nonce → ℕ → ℕ → ℕ → Bool
unfolding any
lasting rows node nonce t =
    any (λ r. (r.node == node && r.nonce == nonce) && leb t r.expires_at) rows

lasting-unexpired :
    (rows : List Nonce) (node nonce t clock : ℕ)
    → clock ≤ t
    → lasting rows node nonce t ≡ true
    → lasting (unexpired clock rows) node nonce t ≡ true
unfolding lasting unexpired any keep
lasting-unexpired [] node nonce t clock le h = h
lasting-unexpired (r ∷ rows) node nonce t clock le h =
    ground (arith, h, lasting-unexpired rows node nonce t clock le)

lasting_used :
    (rows : List Nonce) (node nonce t : ℕ)
    → lasting rows node nonce t ≡ true
    → nonce_used rows node nonce ≡ true
unfolding lasting nonce_used any
lasting_used [] node nonce t h = h
lasting_used (r ∷ rows) node nonce t h = ground (arith, h, lasting_used rows node nonce t)

lasting_cons :
    (row : Nonce) (live : List Nonce) (node nonce t : ℕ)
    → lasting live node nonce t ≡ true
    → lasting (row ∷ live) node nonce t ≡ true
unfolding lasting any
lasting_cons row live node nonce t k = ground (arith, k)

lasting_own :
    (live : List Nonce) (node nonce t expires : ℕ)
    → t ≤ expires
    → lasting (record { node = node; nonce = nonce; expires_at = expires } ∷ live) node nonce t
      ≡ true
unfolding lasting any
lasting_own live node nonce t expires le = ground (arith, le)

use_nonce-lasting :
    (rows : List Nonce) (node nonce t clock other given expires : ℕ)
    → clock ≤ t
    → lasting rows node nonce t ≡ true
    → lasting (use_nonce clock other given expires rows).1 node nonce t ≡ true
unfolding use_nonce
use_nonce-lasting rows node nonce t clock other given expires le h =
    let kept = lasting-unexpired rows node nonce t clock le h in
    elim (Bool-cases (nonce_used (unexpired clock rows) other given)) [
      | inl e ↦ rw e kept
      | inr e ↦ rw e (
          lasting_cons (record { node = other; nonce = given; expires_at = expires })
            (unexpired clock rows) node nonce t kept)
    ]

verify-lasting :
    (rows : List Nonce) (node nonce t now clock : ℕ) (signed : Bool) (req : Option AccountRequest)
    → clock ≤ t
    → lasting rows node nonce t ≡ true
    → lasting (verify now clock signed req rows).1 node nonce t ≡ true
unfolding verify verify_request spend_nonce
verify-lasting rows node nonce t now clock signed none le h = h
verify-lasting rows node nonce t now clock false (some req) le h = h
verify-lasting rows node nonce t now clock true (some req) le h =
    elim (Bool-cases (ltb req.expires_at now)) [
      | inl e ↦ rw e h
      | inr e ↦ elim (Bool-cases (ltb (u64 (now + max_ahead_secs)) req.expires_at)) [
        | inl f ↦ rw (e, f) h
        | inr f ↦
            rw (e, f)
              (use_nonce-lasting rows node nonce t clock req.node_id req.nonce req.expires_at le h)
      ]
    ]

verify_each-lasting :
    (calls : List Call) (rows : List Nonce) (node nonce t : ℕ)
    → All (λ c. c.0.1 ≤ t) calls
    → lasting rows node nonce t ≡ true
    → lasting (verify_each calls rows) node nonce t ≡ true
unfolding verify_each
verify_each-lasting [] rows node nonce t le h = h
verify_each-lasting (((now, clock), signed, req) ∷ calls) rows node nonce t le h =
    verify_each-lasting calls (verify now clock signed req rows).1 node nonce t le.1
      (verify-lasting rows node nonce t now clock signed req le.0 h)

-- An accepted request leaves a row for its nonce that lasts as long as the request.
verify_accepted :
    (rows : List Nonce) (t now clock : ℕ) (signed : Bool) (req : AccountRequest)
    → t ≤ req.expires_at
    → accepts (verify now clock signed (some req) rows).0 ≡ true
    → lasting (verify now clock signed (some req) rows).1 req.node_id req.nonce t ≡ true
unfolding verify verify_request spend_nonce use_nonce
verify_accepted rows t now clock false req le a = absurd (cc a)
verify_accepted rows t now clock true req le a = elim (Bool-cases (ltb req.expires_at now)) [
  | inl e ↦ absurd (cc (rw e at a))
  | inr e ↦ elim (Bool-cases (ltb (u64 (now + max_ahead_secs)) req.expires_at)) [
    | inl f ↦ absurd (cc (rw (e, f) at a))
    | inr f ↦ elim (Bool-cases (nonce_used (unexpired clock rows) req.node_id req.nonce)) [
      | inl g ↦ absurd (cc (rw (e, f, g) at a))
      | inr g ↦
          rw (e, f, g)
            (lasting_own (unexpired clock rows) req.node_id req.nonce t req.expires_at le)
    ]
  ]
]

verify_again :
    (rows : List Nonce) (now clock : ℕ) (signed : Bool) (req : AccountRequest)
    → clock ≤ now
    → lasting rows req.node_id req.nonce now ≡ true
    → accepts (verify now clock signed (some req) rows).0 ≡ false
unfolding verify verify_request spend_nonce use_nonce
verify_again rows now clock false req le h = refl
verify_again rows now clock true req le h =
    let used =
      lasting_used (unexpired clock rows) req.node_id req.nonce now
        (lasting-unexpired rows req.node_id req.nonce now clock le h) in
    elim (Bool-cases (ltb req.expires_at now)) [
      | inl e ↦ rw e refl
      | inr e ↦ elim (Bool-cases (ltb (u64 (now + max_ahead_secs)) req.expires_at)) [
        | inl f ↦ rw (e, f) refl
        | inr f ↦ rw (e, f, used) refl
      ]
    ]

verify_expired :
    (rows : List Nonce) (now clock : ℕ) (signed : Bool) (req : AccountRequest)
    → req.expires_at < now
    → accepts (verify now clock signed (some req) rows).0 ≡ false
unfolding verify verify_request
verify_expired rows now clock false req h = refl
verify_expired rows now clock true req h = rw (is_past req.expires_at now h) refl
  where
    is_past : (a b : ℕ) → a < b → ltb a b ≡ true
    is_past a b h = ground arith

-- A signed request that was accepted is not accepted again, whatever calls come in between, if the
-- ledger's clock is then, and was in each of those calls, at most the clock that the request is
-- checked with the second time. (The two are read one after the other, and the ledger's may be ahead.)
pub verify_once :
    (rows : List Nonce) (now clock : ℕ) (signed : Bool) (req : AccountRequest)
    → accepts (verify now clock signed (some req) rows).0 ≡ true
    → (calls : List Call) (later at : ℕ) (again : Bool) → at ≤ later
    → All (λ c. c.0.1 ≤ later) calls
    → accepts
        (verify later at again
          (some req)
          (verify_each calls (verify now clock signed (some req) rows).1)).0
      ≡ false
verify_once rows now clock signed req a calls later at again due le =
    elim (lt_cases req.expires_at later) [
      | inl past ↦ verify_expired _ later at again req past
      | inr live ↦ verify_again _ later at again req due (
          verify_each-lasting calls (verify now clock signed (some req) rows).1 req.node_id
            req.nonce later le (verify_accepted rows later now clock signed req live a))
    ]
