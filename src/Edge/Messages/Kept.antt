-- ===== src/Edge/Messages/Kept.antt =====
-- crates/fortis-edge/src/swap/mod.rs: what a message never takes back. A match keeps its terms, its
-- keys, its hashlock, its fundings and its release once they are recorded.
use fortis.Common.{
  ℕ, ◌≡◌, refl, sym, ap, subst, ◌∙◌, true, inl, inr, Bool-cases, Option, some, ◌==◌, ==_iff, arith,
  if◌then◌else◌,
}
use fortis.Edge.Records.{Match}
use fortis.Edge.Store.{Db, Store, put_match, get_match}

-- What was recorded is recorded still.
abbrev pub IsKept : {A : Type 0} → Option A → Option A → Type 0
IsKept {A} old new = (v : A) → old ≡ some v → new ≡ some v

pub record Kept (m m' : Match) : Type 0 where
  pub id : m'.id ≡ m.id
  pub terms : m'.terms ≡ m.terms
  pub initiator_keys : IsKept m.keys.0 m'.keys.0
  pub participant_keys : IsKept m.keys.1 m'.keys.1
  pub hashlock : IsKept m.hashlock m'.hashlock
  pub xbt_funding : IsKept m.xbt_funding m'.xbt_funding
  pub btc_funding : IsKept m.btc_funding m'.btc_funding
  pub release_txs : IsKept m.release_txs m'.release_txs
  pub release_sigs : IsKept m.release_sigs m'.release_sigs

pub Kept-refl : (m : Match) → Kept m m
Kept-refl m = record {
  id = refl;
  terms = refl;
  initiator_keys = λ v e. e;
  participant_keys = λ v e. e;
  hashlock = λ v e. e;
  xbt_funding = λ v e. e;
  btc_funding = λ v e. e;
  release_txs = λ v e. e;
  release_sigs = λ v e. e;
}

pub Kept-trans : {a b c : Match} → Kept a b → Kept b c → Kept a c
Kept-trans f g = record {
  id = g.id ∙ f.id;
  terms = g.terms ∙ f.terms;
  initiator_keys = λ v e. g.initiator_keys v (f.initiator_keys v e);
  participant_keys = λ v e. g.participant_keys v (f.participant_keys v e);
  hashlock = λ v e. g.hashlock v (f.hashlock v e);
  xbt_funding = λ v e. g.xbt_funding v (f.xbt_funding v e);
  btc_funding = λ v e. g.btc_funding v (f.btc_funding v e);
  release_txs = λ v e. g.release_txs v (f.release_txs v e);
  release_sigs = λ v e. g.release_sigs v (f.release_sigs v e);
}

module _ {db : Db} where
  -- Each match is stored under its id.
  abbrev pub IsKeyed : Store db → Type 0
  IsKeyed s = (j : ℕ) (m : Match) → get_match db s j ≡ some m → m.id ≡ j

  abbrev pub Keeps : Store db → Store db → Type 0
  Keeps s s' =
      (j : ℕ) (m : Match)
      → get_match db s j ≡ some m
      → (m' : Match) × (get_match db s' j ≡ some m') × Kept m m'

  -- A keyed store stays keyed, and keeps its matches.
  abbrev pub Grows : Store db → Store db → Type 0
  Grows s s' = IsKeyed s → IsKeyed s' × Keeps s s'

  pub Grows-refl : (s : Store db) → Grows s s
  Grows-refl s k = (k, λ j m e. (m, e, Kept-refl m))

  pub Grows-trans : (a b c : Store db) → Grows a b → Grows b c → Grows a c
  Grows-trans a b c f g k =
      let p = f k in
      let q = g p.0 in
      (q.0, λ j m e. let x = p.1 j m e in let y = q.1 j x.0 x.1 in (y.0, y.1, Kept-trans x.2 y.2))

  -- A step that leaves the matches alone.
  pub same-Grows : (s s' : Store db) → s'.matches ≡ s.matches → Grows s s'
  unfolding get_match
  same-Grows s s' e k = (
    λ j m g. k j m (ap (λ r. db.matches.get r j) (sym e) ∙ g),
    λ j m g. (m, ap (λ r. db.matches.get r j) e ∙ g, Kept-refl m),
  )

  pub put_match-Grows :
      (s : Store db) (id : ℕ) (m m' : Match)
      → get_match db s id ≡ some m
      → Kept m m'
      → Grows s (put_match db m' s).0
  unfolding get_match put_match
  put_match-Grows s id m m' e kept k = (
    λ j a g. elim (Bool-cases (m'.id == j)) [
      | inl h ↦ hit j a h (sym (read j) ∙ g)
      | inr h ↦ k j a (ground (arith, g, h, read j))
    ],
    λ j a g. elim (Bool-cases (m'.id == j)) [
      | inl h ↦
          (m', read j ∙ rw h refl, subst (λ x. Kept x m') (ground (arith, same j h, e, g)) kept)
      | inr h ↦ (a, read j ∙ rw h g, Kept-refl a)
    ],
  )
    where
      read :
          (j : ℕ)
          → db.matches.get (db.matches.put s.matches m'.id m') j
            ≡ (if m'.id == j then some m' else db.matches.get s.matches j)
      read j = db.matches.get-put s.matches m'.id m' j

      same : (j : ℕ) → (m'.id == j) ≡ true → id ≡ j
      same j h = sym (k id m e) ∙ sym kept.id ∙ (==_iff m'.id j).0 h

      hit :
          (j : ℕ) (a : Match)
          → (m'.id == j) ≡ true
          → (if m'.id == j then some m' else db.matches.get s.matches j) ≡ some a
          → a.id ≡ j
      hit j a h g = ground (arith, g, h)
