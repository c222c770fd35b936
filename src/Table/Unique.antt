-- ===== src/Table/Unique.antt =====
-- A table of src/accounts/mod.rs with two unique columns, such as `users` with its id and its GitHub uid.
use smrt.Base.{
  ◌≡◌, refl, sym, ap, ◌∙◌, inl, inr, none, some, List, [], ◌∷◌, arith, Eq, ◌==◌, ℕ-Eq, Bool-cases,
  Text-Eq, ℤ-Eq,
}
use mathlib.Core.Path.{subst}
use mathlib.Core.Option.{some_inj}
use smrt.Table.{select, upsert, HasPrimaryKey}

module _ {ℓ μ} {A : Type ℓ} {I : Type μ} ⦃i : Eq I⦄ (id : A → I) where
  select-head : (x : A) (xs : List A) → select id (id x) (x ∷ xs) ≡ some x
  unfolding select
  select-head x xs = ground (arith, i.same_iff (id x) (id x))

  select-skip :
      (x u : A) (xs : List A)
      → select id (id x) xs ≡ none
      → select id (id u) xs ≡ some u
      → select id (id u) (x ∷ xs) ≡ some u
  unfolding select
  select-skip x u xs p h = ground (arith, i.same_iff (id x) (id u))

  pub select-cons_none :
      (j : I) (x : A) (xs : List A)
      → select id j (x ∷ xs) ≡ none
      → (¬ (id x ≡ j)) × (select id j xs ≡ none)
  unfolding select
  select-cons_none j x xs h = ground (arith, i.same_iff (id x) j)

module _ {ℓ κ μ} {A : Type ℓ} {K : Type κ} {I : Type μ} ⦃e : Eq K⦄ ⦃i : Eq I⦄ (key : A → K)
    (id : A → I) where
  -- a row that is found by one column is the row that the other column finds
  pub select-of_select :
      (xs : List A) (k : K) (u : A)
      → HasPrimaryKey id xs
      → select key k xs ≡ some u
      → select id (id u) xs ≡ some u
  unfolding select
  select-of_select [] k u p h = cc
  select-of_select (x ∷ xs) k u p h = elim (Bool-cases (key x == k)) [
    | inl q ↦
        subst (λ y. select id (id y) (x ∷ xs) ≡ some y) (some_inj.0 (rw q at h))
          (select-head id x xs)
    | inr q ↦ select-skip id x u xs p.0 (select-of_select xs k u p.1 (rw q at h))
  ]

  select-upsert-none :
      (fresh : A) (change : A → A) (xs : List A) (j : I)
      → ((x : A) → id (change x) ≡ id x)
      → ¬ (id fresh ≡ j)
      → select id j xs ≡ none
      → select id j (upsert key fresh change xs) ≡ none
  unfolding select upsert
  select-upsert-none fresh change [] j h ne s = ground (arith, i.same_iff (id fresh) j)
  select-upsert-none fresh change (x ∷ xs) j h ne s =
      ground (arith, select-upsert-none fresh change xs j h ne, h x, i.same_iff (id x) j)

  -- an upsert by one column keeps the other unique when the new row's value of it is new
  pub upsert-HasPrimaryKey_other :
      (fresh : A) (change : A → A) (xs : List A)
      → ((x : A) → id (change x) ≡ id x)
      → select id (id fresh) xs ≡ none
      → HasPrimaryKey id xs
      → HasPrimaryKey id (upsert key fresh change xs)
  unfolding select upsert
  upsert-HasPrimaryKey_other fresh change [] h s p = (refl, p)
  upsert-HasPrimaryKey_other fresh change (x ∷ xs) h s p = elim (Bool-cases (key x == key fresh)) [
    | inl q ↦ rw q (ap (λ k. select id k xs) (h x) ∙ p.0, p.1)
    | inr q ↦
        let (ne, new) = select-cons_none id (id fresh) x xs s in
        rw q (
          select-upsert-none fresh change xs (id x) h (λ r. ne (sym r)) p.0,
          upsert-HasPrimaryKey_other fresh change xs h new p.1,
        )
  ]
