-- ===== src/Common/Sorting.antt =====
-- What insertion sort keeps and what it gives.
use mathlib.Core.Path.{◌≡◌, refl}
use mathlib.Core.Bool.{Bool, true, false}
use mathlib.Core.List.{List, [], ◌∷◌}
use Prim.Native.Nat.{ℕ, ◌+◌}
use native.Mathlib.Omega.{arith}
use fortis.Common.Tests.{if◌then◌else◌}
use fortis.Common.Lists.{All, All-impl, All-insert_by, IsSortedBy, insert_by, sort_by, sum_by}

module _ {ℓ} {A : Type ℓ} where
  -- Sorting keeps every sum over the elements.
  sum_by-insert_by :
      (f : A → ℕ) (before : A → A → Bool) (x : A) (xs : List A)
      → sum_by f (insert_by before x xs) ≡ f x + sum_by f xs
  unfolding insert_by sum_by
  sum_by-insert_by f before x [] = refl
  sum_by-insert_by f before x (y ∷ ys) = ground (arith, sum_by-insert_by f before x ys)

  pub sum_by-sort_by :
      (f : A → ℕ) (before : A → A → Bool) (xs : List A) → sum_by f (sort_by before xs) ≡ sum_by f xs
  unfolding sort_by sum_by
  sum_by-sort_by f before [] = refl
  sum_by-sort_by f before (x ∷ xs) =
      omega (arith, sum_by-insert_by f before x (sort_by before xs), sum_by-sort_by f before xs)

  module _ (before : A → A → Bool) (total : (x y : A) → before x y ≡ false → before y x ≡ true)
      (trans : (x y z : A) → before x y ≡ true → before y z ≡ true → before x z ≡ true) where
    sorted_insert :
        (x y : A) (ys : List A) (b : Bool)
        → before x y ≡ b
        → All (λ z. before y z ≡ true) ys
        → IsSortedBy before ys
        → IsSortedBy before (insert_by before x ys)
        → IsSortedBy before (if b then x ∷ y ∷ ys else y ∷ insert_by before x ys)
    sorted_insert x y ys true e a s i = (
      (e, All-impl (λ z. before y z ≡ true) (λ z. before x z ≡ true) ys (λ z. trans x y z e) a),
      (a, s),
    )
    sorted_insert x y ys false e a s i =
        (All-insert_by (λ z. before y z ≡ true) before x ys (total x y e) a, i)

    insert_by-IsSortedBy :
        (x : A) (ys : List A) → IsSortedBy before ys → IsSortedBy before (insert_by before x ys)
    unfolding insert_by
    insert_by-IsSortedBy x [] s = (tt, tt)
    insert_by-IsSortedBy x (y ∷ ys) s =
        sorted_insert x y ys (before x y) refl s.0 s.1 (insert_by-IsSortedBy x ys s.1)

    -- Sorting by a total order gives a sorted list.
    pub sort_by-IsSortedBy : (xs : List A) → IsSortedBy before (sort_by before xs)
    unfolding sort_by
    sort_by-IsSortedBy [] = tt
    sort_by-IsSortedBy (x ∷ xs) = insert_by-IsSortedBy x (sort_by before xs) (sort_by-IsSortedBy xs)
