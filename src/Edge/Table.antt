-- ===== src/Edge/Table.antt =====
-- The key-value database under the swap store (RocksDB column families of JSON records), which is
-- not part of the repository: an interface with the laws that the store relies on.
use fortis.Common.{
  ℕ, ◌≡◌, refl, Option, none, some, List, [], ◌∷◌, All, arith, ◌==◌, if◌then◌else◌, inl, inr, subst,
  Bool-cases, true,
}

-- Association lists, which a scan returns.
module _ {V : Type 0} where
  abbrev pub lookup : List (ℕ × V) → ℕ → Option V
  lookup [] j = none
  lookup ((k, v) ∷ r) j = if k == j then some v else lookup r j

  abbrev pub remove : List (ℕ × V) → ℕ → List (ℕ × V)
  remove [] j = []
  remove ((k, v) ∷ r) j = if k == j then remove r j else (k, v) ∷ remove r j

  pub lookup-All {κ} :
      (P : V → Type κ) (es : List (ℕ × V)) (k : ℕ) (v : V)
      → All (λ e. P e.1) es
      → lookup es k ≡ some v
      → P v
  lookup-All P [] k v h e = cc
  lookup-All P ((j, w) ∷ es) k v h e = elim (Bool-cases (j == k)) [
    | inl p ↦ subst P (hit p e) h.0
    | inr p ↦ lookup-All P es k v h.1 (rw p at e)
  ]
    where
      hit : (j == k) ≡ true → lookup ((j, w) ∷ es) k ≡ some v → w ≡ v
      hit p e = ground (arith, p, e)

-- One column family: a write is read back under its key and disturbs no other, and a scan lists
-- exactly what is stored.
pub record Table (V : Type 0) : Type 1 where
  pub Rows : Type 0
  pub get : Rows → ℕ → Option V
  pub put : Rows → ℕ → V → Rows
  pub delete : Rows → ℕ → Rows
  pub entries : Rows → List (ℕ × V)
  pub get-put :
      (r : Rows) (k : ℕ) (v : V) (j : ℕ) → get (put r k v) j ≡ (if k == j then some v else get r j)
  pub get-delete : (r : Rows) (k j : ℕ) → get (delete r k) j ≡ (if k == j then none else get r j)
  pub entries_stored : (r : Rows) → All (λ e. get r e.0 ≡ some e.1) (entries r)
  pub lookup-entries : (r : Rows) (k : ℕ) → lookup (entries r) k ≡ get r k

module _ {V : Type 0} where
  -- A scan of an association list: the first entry of each key.
  abbrev pub distinct : List (ℕ × V) → List (ℕ × V)
  distinct [] = []
  distinct ((k, v) ∷ r) = (k, v) ∷ remove (distinct r) k

  pub lookup-remove :
      (r : List (ℕ × V)) (k j : ℕ) → lookup (remove r k) j ≡ (if k == j then none else lookup r j)
  lookup-remove [] k j = ground arith
  lookup-remove ((i, v) ∷ r) k j = ground (arith, lookup-remove r k j)

  pub lookup-distinct : (r : List (ℕ × V)) (j : ℕ) → lookup (distinct r) j ≡ lookup r j
  lookup-distinct [] j = refl
  lookup-distinct ((k, v) ∷ r) j =
      ground (arith, lookup-remove (distinct r) k j, lookup-distinct r j)

  abbrev pub Stored : List (ℕ × V) → List (ℕ × V) → Type 0
  Stored r es = All (λ e. lookup r e.0 ≡ some e.1) es

  Stored-remove :
      (k : ℕ) (v : V) (r es : List (ℕ × V)) → Stored r es → Stored ((k, v) ∷ r) (remove es k)
  Stored-remove k v r [] h = tt
  Stored-remove k v r ((j, w) ∷ es) h = ground (arith, h.0, Stored-remove k v r es h.1)

  pub distinct-Stored : (r : List (ℕ × V)) → Stored r (distinct r)
  distinct-Stored [] = tt
  distinct-Stored ((k, v) ∷ r) =
      (ground arith, Stored-remove k v r (distinct r) (distinct-Stored r))

  -- Association lists meet the interface.
  abbrev pub assoc_table : Table V
  assoc_table = record {
    Rows = List (ℕ × V);
    get = lookup;
    put = λ r k v. (k, v) ∷ r;
    delete = remove;
    entries = distinct;
    get-put = λ r k v j. refl;
    get-delete = lookup-remove;
    entries_stored = distinct-Stored;
    lookup-entries = lookup-distinct;
  }
