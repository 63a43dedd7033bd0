-- ===== src/Edge/Watchtower/Variants.antt =====
-- crates/fortis-edge/src/swap/watchtower.rs, `pick_variant`: the variant that is sent.
use mathlib.Core.List.{Memᴰ}
use mathlib.Core.List.Memᴰ.{head, tail, cases_cons}
use fortis.Common.{
  ℕ, ◌≡◌, ◌≤◌, refl, ap, ◌∙◌, Bool, true, false, Option, none, some, List, [], ◌∷◌, All, keep, leb,
  ltb, arith, Bool-cases, inl, inr, leb→le,
}
use fortis.Edge.Watchtower.{
  Tx, Codec, fee, choose, best_by, min_by_key, max_by_key, meets, pick_variant, or_else,
}

-- One of the list that goes before all of it; none of an empty list.
abbrev pub IsBest : (Tx → Tx → Type 0) → List Tx → Option Tx → Type 0
IsBest R ts none = ts ≡ []
IsBest R ts (some t) = Memᴰ t ts × All (λ v. R t v) ts

-- An order on transactions, and the test for it.
module _ (R : Tx → Tx → Type 0) (before : Tx → Tx → Bool)
    (yes : (a b : Tx) → before a b ≡ true → R a b) (no : (a b : Tx) → before a b ≡ false → R b a)
    (R_refl : (a : Tx) → R a a) (R_trans : (a b c : Tx) → R a b → R b c → R a c) where
  All-R : (a b : Tx) (ts : List Tx) → R a b → All (λ v. R b v) ts → All (λ v. R a v) ts
  All-R a b [] h k = tt
  All-R a b (t ∷ ts) h k = (R_trans a b t h k.0, All-R a b ts h k.1)

  choose-IsBest :
      (t : Tx) (ts : List Tx) (x : Option Tx)
      → IsBest R ts x
      → IsBest R (t ∷ ts) (choose before t x)
  unfolding choose
  choose-IsBest t ts none h = rw h (head refl, (R_refl t, tt))
  choose-IsBest t ts (some s) h = elim (Bool-cases (before t s)) [
    | inl e ↦ rw e (head refl, (R_refl t, All-R t s ts (yes t s e) h.1))
    | inr e ↦ rw e (tail h.0, (no t s e, h.1))
  ]

  best_by-IsBest : (ts : List Tx) → IsBest R ts (best_by before ts)
  unfolding best_by
  best_by-IsBest [] = refl
  best_by-IsBest (t ∷ ts) = choose-IsBest t ts (best_by before ts) (best_by-IsBest ts)

module _ (key : Tx → ℕ) where
  min_by_key-IsBest : (ts : List Tx) → IsBest (λ a b. key a ≤ key b) ts (min_by_key key ts)
  unfolding min_by_key
  min_by_key-IsBest ts =
      best_by-IsBest (λ a b. key a ≤ key b) (λ a b. leb (key a) (key b))
        (λ a b e. leb→le (key a) (key b) e) (λ a b e. ground (arith, e)) (λ a. omega arith)
        (λ a b c p q. omega (arith, p, q)) ts

  max_by_key-IsBest : (ts : List Tx) → IsBest (λ a b. key b ≤ key a) ts (max_by_key key ts)
  unfolding max_by_key
  max_by_key-IsBest ts =
      best_by-IsBest (λ a b. key b ≤ key a) (λ a b. ltb (key b) (key a))
        (λ a b e. ground (arith, e)) (λ a b e. ground (arith, e)) (λ a. omega arith)
        (λ a b c p q. omega (arith, p, q)) ts

-- A list and what a test keeps of it.
module _ (p : Tx → Bool) where
  in_tail : (t x : Tx) (xs : List Tx) → Memᴰ t xs × (p t ≡ true) → Memᴰ t (x ∷ xs) × (p t ≡ true)
  in_tail t x xs (m, e) = (tail m, e)

  pub Memᴰ-keep : (t : Tx) (ts : List Tx) → Memᴰ t (keep p ts) → Memᴰ t ts × (p t ≡ true)
  unfolding keep
  Memᴰ-keep t [] h = elim h [ ]
  Memᴰ-keep t (x ∷ xs) h = elim (Bool-cases (p x)) [
    | inr e ↦ in_tail t x xs (Memᴰ-keep t xs (rw e at h))
    | inl e ↦ elim (cases_cons (rw e at h)) [
      | inl q ↦ (head q, ap p q ∙ e)
      | inr m ↦ in_tail t x xs (Memᴰ-keep t xs m)
    ]
  ]

  All-keep-if :
      (P : Tx → Type 0) (ts : List Tx) → All P (keep p ts) → All (λ v. p v ≡ true → P v) ts
  unfolding keep
  All-keep-if P [] h = tt
  All-keep-if P (t ∷ ts) h = elim (Bool-cases (p t)) [
    | inl e ↦ let k = (rw e at h) in ((λ q. k.0), All-keep-if P ts k.1)
    | inr e ↦ ((λ q. cc), All-keep-if P ts (rw e at h))
  ]

  none_kept : (ts : List Tx) → keep p ts ≡ [] → All (λ v. p v ≡ false) ts
  unfolding keep
  none_kept [] h = tt
  none_kept (t ∷ ts) h = elim (Bool-cases (p t)) [
    | inl e ↦ cc
    | inr e ↦ (e, none_kept ts (rw e at h))
  ]

module _ (C : Codec) (prevout_value feerate : ℕ) where
  -- The variant that is right to send.
  pub data IsPicked (ts : List Tx) (t : Tx) : Type 0 where
    cheapest :
        Memᴰ t ts
        → meets C prevout_value feerate t ≡ true
        → All
            (λ v.
              meets C prevout_value feerate v ≡ true → fee prevout_value t ≤ fee prevout_value v)
            ts
        → IsPicked ts t
    dearest :
        Memᴰ t ts
        → All (λ v. meets C prevout_value feerate v ≡ false) ts
        → All (λ v. fee prevout_value v ≤ fee prevout_value t) ts
        → IsPicked ts t

  abbrev pub IsChosen : List Tx → Option Tx → Type 0
  IsChosen ts none = ts ≡ []
  IsChosen ts (some t) = IsPicked ts t

  or_else-IsChosen :
      (ts : List Tx) (a b : Option Tx)
      → IsBest
          (λ a b. fee prevout_value a ≤ fee prevout_value b)
          (keep (meets C prevout_value feerate) ts)
          a
      → IsBest (λ a b. fee prevout_value b ≤ fee prevout_value a) ts b
      → IsChosen ts (or_else C a b)
  or_else-IsChosen ts (some t) b h k =
      let m = Memᴰ-keep (meets C prevout_value feerate) t ts h.0 in
      cheapest m.0 m.1 (All-keep-if (meets C prevout_value feerate) _ ts h.1)
  or_else-IsChosen ts none none h k = k
  or_else-IsChosen ts none (some t) h k =
      dearest k.0 (none_kept (meets C prevout_value feerate) ts h) k.1

  pub pick_variant-IsChosen : (ts : List Tx) → IsChosen ts (pick_variant C ts prevout_value feerate)
  unfolding pick_variant
  pick_variant-IsChosen ts =
      or_else-IsChosen ts (min_by_key (fee prevout_value) (keep (meets C prevout_value feerate) ts))
        (max_by_key (fee prevout_value) ts)
        (min_by_key-IsBest (fee prevout_value) (keep (meets C prevout_value feerate) ts))
        (max_by_key-IsBest (fee prevout_value) ts)

  -- Of one variant or more one is sent: the one with the least fee among those that meet the
  -- feerate, or, where none does, the one with the greatest fee.
  pub pick_variant-IsPicked :
      (t : Tx) (ts : List Tx)
      → (v : Tx) × (pick_variant C (t ∷ ts) prevout_value feerate ≡ some v) × IsPicked (t ∷ ts) v
  pick_variant-IsPicked t ts =
      of_some (pick_variant C (t ∷ ts) prevout_value feerate) (pick_variant-IsChosen (t ∷ ts))
    where
      of_some :
          (x : Option Tx) → IsChosen (t ∷ ts) x → (v : Tx) × (x ≡ some v) × IsPicked (t ∷ ts) v
      of_some none h = cc
      of_some (some v) h = (v, refl, h)
