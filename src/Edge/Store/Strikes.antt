-- ===== src/Edge/Store/Strikes.antt =====
-- crates/fortis-edge/src/swap/store.rs: the strikes against a token.
use fortis.Common.{
  ℕ, ◌+◌, ◌≤◌, ◌≡◌, refl, ◌≢◌, true, List, [], ◌∷◌, ◌++◌, u32, length, All, arith, keep, any, ◌==◌,
}
use fortis.Edge.Store.{
  Db, Store, strike_times, add_strike, remove_strike, strikes, in_window, remove_one,
}

-- How many of the times are in the window.
abbrev live : ℕ → List ℕ → ℕ
live now ts = length (keep (λ t. in_window t now) ts)

live-append : (now : ℕ) (xs ys : List ℕ) → live now (xs ++ ys) ≡ live now xs + live now ys
unfolding keep
live-append now [] ys = omega arith
live-append now (x ∷ xs) ys = ground (arith, live-append now xs ys)

-- What an earlier clean-up dropped is not in a later window either.
live-keep :
    (now later : ℕ) (ts : List ℕ)
    → now ≤ later
    → All (λ t. t ≤ now) ts
    → live later (keep (λ t. in_window t now) ts) ≡ live later ts
unfolding keep in_window
live-keep now later [] h past = refl
live-keep now later (t ∷ ts) h past = ground (arith, live-keep now later ts h past.1)

live-keep_self : (now : ℕ) (ts : List ℕ) → live now (keep (λ t. in_window t now) ts) ≡ live now ts
unfolding keep
live-keep_self now [] = refl
live-keep_self now (t ∷ ts) = ground (arith, live-keep_self now ts)

live_now : (now : ℕ) → live now (now ∷ []) ≡ 1
unfolding keep in_window
live_now now = ground arith

live-remove_one :
    (now at : ℕ) (ts : List ℕ) → live now (remove_one at (ts ++ at ∷ [])) ≡ live now ts
unfolding keep remove_one
live-remove_one now at [] = ground arith
live-remove_one now at (t ∷ ts) =
    ground (arith, live-remove_one now at ts, live-append now ts (at ∷ []))

any-append_self : (at : ℕ) (ts : List ℕ) → any (λ t. t == at) (ts ++ at ∷ []) ≡ true
unfolding any
any-append_self at [] = ground arith
any-append_self at (t ∷ ts) = ground (arith, any-append_self at ts)

module _ (db : Db) (s : Store db) (token now : ℕ) where
  abbrev recent : List ℕ
  recent = keep (λ t. in_window t now) (strike_times db s token)

  strike_times-add : strike_times db (add_strike db token now s).0 token ≡ recent ++ now ∷ []
  unfolding strike_times add_strike
  strike_times-add = ground (arith, db.strikes.get-put s.strikes token (recent ++ now ∷ []) token)

  strike_times-add_other :
      (other : ℕ)
      → other ≢ token
      → strike_times db (add_strike db token now s).0 other ≡ strike_times db s other
  unfolding strike_times add_strike
  strike_times-add_other other n =
      ground (arith, db.strikes.get-put s.strikes token (recent ++ now ∷ []) other)

  strike_times-lift :
      strike_times db (remove_strike db token now (add_strike db token now s).0).0 token
      ≡ remove_one now (recent ++ now ∷ [])
  unfolding strike_times add_strike remove_strike
  strike_times-lift = ground (
    arith,
    any-append_self now recent,
    db.strikes.get-put s.strikes token (recent ++ now ∷ []) token,
    db.strikes.get-put (add_strike db token now s).0.strikes token
        (remove_one now (recent ++ now ∷ [])) token,
  )

  live-strike :
      live now (strike_times db (add_strike db token now s).0 token)
      ≡ live now (strike_times db s token) + 1
  unfolding keep in_window
  live-strike = rw strike_times-add (
      omega (
        arith,
        live-append now recent (now ∷ []),
        live-keep_self now (strike_times db s token),
        live_now now,
      ))

  -- A strike adds one to the count of its token at that time, and leaves the count of every other
  -- token, at every time, as it was.
  pub strikes-add_strike :
      (strikes db (add_strike db token now s).0 token now ≡ u32 (strikes db s token now + 1))
      × ((other later : ℕ)
          → other ≢ token
          → strikes db (add_strike db token now s).0 other later ≡ strikes db s other later)
  unfolding strikes
  strikes-add_strike =
      (omega (arith, live-strike), λ other later n. rw (strike_times-add_other other n) refl)

  -- A strike that is lifted again leaves the count of its token as it was, now and later, if no
  -- recorded strike lies in the future.
  pub strikes-remove_strike-add_strike :
      (later : ℕ)
      → now ≤ later
      → All (λ t. t ≤ now) (strike_times db s token)
      → strikes db (remove_strike db token now (add_strike db token now s).0).0 token later
        ≡ strikes db s token later
  unfolding strikes
  strikes-remove_strike-add_strike later h past = rw strike_times-lift (
      rw (live-remove_one later now recent)
        (rw (live-keep now later (strike_times db s token) h past) refl))
