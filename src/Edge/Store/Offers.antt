-- ===== src/Edge/Store/Offers.antt =====
-- crates/fortis-edge/src/swap/store.rs: what `put_offer` keeps true of offers and recovery tags.
use fortis.Common.{
  ℕ, ◌≡◌, refl, ◌⊎◌, inl, inr, ◌≢◌, Option, none, some, ok, err, arith, ◌==◌, if◌then◌else◌,
  Option-cases, ==_iff, Bool-cases, ap, ◌∙◌, Result,
}
use fortis.Edge.Records.{Offer}
use fortis.Edge.Store.{Db, Store, put_offer, offer, EdgeError, tag_used, put_tagged, claim_tag}

-- Every stored offer stands under its own id, and holds its tag.
pub record IsConsistent (db : Db) (s : Store db) : Type 0 where
  pub under_id : (k : ℕ) (o : Offer) → offer db s k ≡ some o → o.id ≡ k
  pub holds_tag :
      (k : ℕ) (o : Offer) (t : ℕ)
      → offer db s k ≡ some o
      → o.recovery_tag ≡ some t
      → db.tags.get s.tags t ≡ some o.id

module _ {db : Db} where
  -- The offer's tag, if any, is its own already.
  abbrev pub HoldsTag : Store db → Offer → Type 0
  HoldsTag s o =
      (o.recovery_tag ≡ none)
      ⊎ ((t : ℕ) × (o.recovery_tag ≡ some t) × (db.tags.get s.tags t ≡ some o.id))

  -- The store with the offer written.
  abbrev pub saved : Store db → Offer → Store db
  saved s o = record s { offers = db.offers.put s.offers o.id o }

-- The three ways that a write goes: refused with nothing changed, written with the tag table as it
-- was, or written with the tag claimed.
pub data Written (db : Db) (o : Offer) (s : Store db) (r : Store db × Result EdgeError (Unit {0}))
    : Type 0 where
  refused :
      (t k : ℕ)
      → o.recovery_tag ≡ some t
      → db.tags.get s.tags t ≡ some k
      → k ≢ o.id
      → r ≡ (s, err tag_used)
      → Written db o s r
  held : HoldsTag s o → r ≡ (saved s o, ok tt) → Written db o s r
  claimed :
      (t : ℕ)
      → o.recovery_tag ≡ some t
      → db.tags.get s.tags t ≡ none
      → r ≡ (record (saved s o) { tags = db.tags.put s.tags t o.id }, ok tt)
      → Written db o s r

module _ (db : Db) (o : Offer) (s : Store db) where
  pub put_offer_cases : Written db o s (put_offer db o s)
  unfolding put_offer
  put_offer_cases = elim (Option-cases o.recovery_tag) [
    | inl e ↦ held (inl e) (ap (λ x. put_tagged db o x s) e)
    | inr (t, e) ↦ tagged t e (db.tags.get s.tags t) refl (ap (λ x. put_tagged db o x s) e)
  ]
    where
      tagged :
          (t : ℕ)
          → o.recovery_tag ≡ some t
          → (h : Option ℕ) → db.tags.get s.tags t ≡ h
          → put_tagged db o o.recovery_tag s ≡ claim_tag db o t h s
          → Written db o s (put_offer db o s)
      tagged t e none f p = claimed t e f p
      tagged t e (some k) f p = elim (Bool-cases (k == o.id)) [
        | inl g ↦ held (inr (t, e, f ∙ ap some ((==_iff k o.id).0 g))) (p ∙ rw g refl)
        | inr g ↦ refused t k e f (ground (arith, g)) (p ∙ rw g refl)
      ]

  pub offer-saved : (k : ℕ) → offer db (saved s o) k ≡ (if o.id == k then some o else offer db s k)
  unfolding offer
  offer-saved k = db.offers.get-put s.offers o.id o k

  -- An offer that holds its tag is written as it stands.
  pub put_offer_held : HoldsTag s o → put_offer db o s ≡ (saved s o, ok tt)
  put_offer_held h = elim put_offer_cases [
    | refused t k e f n _ ↦ ground (arith, h)
    | held _ e ↦ e
    | claimed t e f _ ↦ ground (arith, h)
  ]

  saved-IsConsistent : HoldsTag s o → IsConsistent db s → IsConsistent db (saved s o)
  unfolding offer
  saved-IsConsistent h c = record {
    under_id = λ k p e. ground (arith, offer-saved k, c.under_id k p);
    holds_tag = λ k p t e g. ground (arith, h, offer-saved k, c.holds_tag k p t);
  }

  claimed-IsConsistent :
      (t : ℕ)
      → o.recovery_tag ≡ some t
      → db.tags.get s.tags t ≡ none
      → IsConsistent db s
      → IsConsistent db (record (saved s o) { tags = db.tags.put s.tags t o.id })
  unfolding offer
  claimed-IsConsistent t e f c = record {
    under_id = λ k p e. ground (arith, offer-saved k, c.under_id k p);
    holds_tag = λ k p u g h.
        ground (arith, offer-saved k, c.holds_tag k p u, db.tags.get-put s.tags t o.id u);
  }

  -- Every write, refused ones included, keeps the store consistent: offers stand under their ids
  -- and hold their tags.
  pub put_offer-IsConsistent : IsConsistent db s → IsConsistent db (put_offer db o s).0
  put_offer-IsConsistent c = elim put_offer_cases [
    | refused t k e f n g ↦ rw g c
    | held h g ↦ rw g (saved-IsConsistent h c)
    | claimed t e f g ↦ rw g (claimed-IsConsistent t e f c)
  ]

  -- A write that succeeds is read back, under no other id anything changes, and no tag that was
  -- held changes hands.
  pub put_offer_reads :
      put_offer db o s ≡ ((put_offer db o s).0, ok tt)
      → ((k : ℕ) → offer db (put_offer db o s).0 k ≡ (if o.id == k then some o else offer db s k))
        × ((t k : ℕ)
            → db.tags.get s.tags t ≡ some k
            → db.tags.get (put_offer db o s).0.tags t ≡ some k)
  unfolding offer
  put_offer_reads h = elim put_offer_cases [
    | refused t k e f n g ↦ absurd (ground (arith, g, h))
    | held _ g ↦ rw g (λ k. offer-saved k, λ t k e. e)
    | claimed t e f g ↦
        rw g (λ k. offer-saved k, λ u k e. ground (arith, db.tags.get-put s.tags t o.id u))
  ]

-- In a consistent store no two offers share a recovery tag.
pub tag_unique :
    (db : Db) (s : Store db) (j k : ℕ) (o p : Offer) (t : ℕ)
    → IsConsistent db s
    → offer db s j ≡ some o
    → offer db s k ≡ some p
    → o.recovery_tag ≡ some t
    → p.recovery_tag ≡ some t
    → j ≡ k
tag_unique db s j k o p t c e f g h =
    ground (arith, c.under_id j o e, c.under_id k p f, c.holds_tag j o t e g, c.holds_tag k p t f h)
