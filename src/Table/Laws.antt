-- ===== src/Table/Laws.antt =====
-- What the statements of src/accounts/mod.rs do to a table: what a later `SELECT` finds, and that they
-- keep the primary key.
use smrt.Base.{
  ◌≡◌, refl, sym, ap, ◌∙◌, ◌↔◌, ◌⊎◌, inl, inr, Bool, true, false, ◌&&◌, Option, none, some, List,
  [], ◌∷◌, ◌++◌, arith, if◌then◌else◌, Eq, ◌==◌, ℕ-Eq, Bool-cases, Option-cases, ◌>>=◌, Text-Eq,
  ℤ-Eq,
}
use mathlib.Core.Option.{some_inj}
use smrt.Table.{select, upsert, update, reaches, delete, HasPrimaryKey}

module _ {ℓ κ} {A : Type ℓ} {K : Type κ} ⦃e : Eq K⦄ (key : A → K) where
  -- what the row of the key becomes
  abbrev pub changed : A → (A → A) → Option A → A
  changed fresh change none = fresh
  changed fresh change (some x) = change x

  -- what holds of the new row and of every changed one
  pub changed_all {μ} :
      (P : A → Type μ) (fresh : A) (change : A → A) (o : Option A)
      → P fresh
      → ((x : A) → P (change x))
      → P (changed fresh change o)
  changed_all P fresh change none h k = h
  changed_all P fresh change (some x) h k = k x

  pub select-upsert_same :
      (fresh : A) (change : A → A) (xs : List A)
      → ((x : A) → key (change x) ≡ key x)
      → select key (key fresh) (upsert key fresh change xs)
        ≡ some (changed fresh change (select key (key fresh) xs))
  unfolding select upsert
  select-upsert_same fresh change [] h = ground (arith, e.same_iff (key fresh) (key fresh))
  select-upsert_same fresh change (x ∷ xs) h =
      ground (arith, select-upsert_same fresh change xs h, h x)

  pub select-upsert_other :
      (fresh : A) (change : A → A) (xs : List A) (k : K)
      → ((x : A) → key (change x) ≡ key x)
      → ¬ (k ≡ key fresh)
      → select key k (upsert key fresh change xs) ≡ select key k xs
  unfolding select upsert
  select-upsert_other fresh change [] k h ne = ground (arith, e.same_iff (key fresh) k)
  select-upsert_other fresh change (x ∷ xs) k h ne = ground (
    arith,
    select-upsert_other fresh change xs k h ne,
    h x,
    e.same_iff (key x) k,
    e.same_iff (key x) (key fresh),
  )

  -- the row that a key finds has the key
  pub select-key : (xs : List A) (k : K) (x : A) → select key k xs ≡ some x → key x ≡ k
  unfolding select
  select-key [] k x h = cc
  select-key (y ∷ xs) k x h = elim (Bool-cases (key y == k)) [
    | inl q ↦ ap key (some_inj.0 (sym (rw q at h))) ∙ (e.same_iff (key y) k).0 q
    | inr q ↦ select-key xs k x (rw q at h)
  ]

  pub select-append_none :
      (xs ys : List A) (k : K) → select key k xs ≡ none → select key k (xs ++ ys) ≡ select key k ys
  unfolding select
  select-append_none [] ys k h = refl
  select-append_none (x ∷ xs) ys k h = ground (arith, select-append_none xs ys k)

  pub select-append_some :
      (xs ys : List A) (k : K) (x : A) → select key k xs ≡ some x → select key k (xs ++ ys) ≡ some x
  unfolding select
  select-append_some [] ys k x h = cc
  select-append_some (y ∷ xs) ys k x h = ground (arith, select-append_some xs ys k x)

  -- what an `UPDATE` makes of a row
  abbrev pub updated : K → (A → Bool) → (A → A) → A → A
  updated k condition change x = if (key x == k) && condition x then change x else x

  pub select-update :
      (xs : List A) (k l : K) (condition : A → Bool) (change : A → A) (x : A)
      → ((y : A) → key (change y) ≡ key y)
      → select key k xs ≡ some x
      → select key k (update key l condition change xs) ≡ some (updated l condition change x)
  unfolding select update
  select-update [] k l condition change x h s = cc
  select-update (y ∷ xs) k l condition change x h s =
      let keeps : key (updated l condition change y) ≡ key y = ground (arith, h y) in
      elim (Bool-cases (key y == k)) [
        | inl q ↦
            rw (keeps, q) (ap (λ z. some (updated l condition change z)) (some_inj.0 (rw q at s)))
        | inr q ↦ rw (keeps, q) (select-update xs k l condition change x h (rw q at s))
      ]

  select-update-none :
      (xs : List A) (k l : K) (condition : A → Bool) (change : A → A)
      → ((y : A) → key (change y) ≡ key y)
      → select key k xs ≡ none
      → select key k (update key l condition change xs) ≡ none
  unfolding select update
  select-update-none [] k l condition change h s = refl
  select-update-none (y ∷ xs) k l condition change h s =
      let keeps : key (updated l condition change y) ≡ key y = ground (arith, h y) in
      elim (Bool-cases (key y == k)) [
        | inl q ↦ cc (rw q at s)
        | inr q ↦ rw (keeps, q) (select-update-none xs k l condition change h (rw q at s))
      ]

  pub select-update_map :
      (xs : List A) (k l : K) (condition : A → Bool) (change : A → A)
      → ((y : A) → key (change y) ≡ key y)
      → select key k (update key l condition change xs)
        ≡ (select key k xs >>= λ x. some (updated l condition change x))
  select-update_map xs k l condition change h = elim (Option-cases (select key k xs)) [
    | inl e ↦ select-update-none xs k l condition change h e ∙ rw e refl
    | inr (x, e) ↦ select-update xs k l condition change x h e ∙ rw e refl
  ]

  pub updated_cases :
      (l : K) (condition : A → Bool) (change : A → A) (x : A)
      → (updated l condition change x ≡ x)
        ⊎ ((condition x ≡ true) × (updated l condition change x ≡ change x))
  updated_cases l condition change x = elim (Bool-cases ((key x == l) && condition x)) [
    | inl q ↦ inr (ground arith, rw q refl)
    | inr q ↦ inl (rw q refl)
  ]

  pub update-unreached :
      (xs : List A) (k : K) (condition : A → Bool) (change : A → A)
      → reaches key k condition xs ≡ false
      → update key k condition change xs ≡ xs
  unfolding update reaches
  update-unreached [] k condition change h = refl
  update-unreached (x ∷ xs) k condition change h =
      ground (arith, update-unreached xs k condition change)

  pub reaches-update :
      (xs : List A) (k : K) (condition : A → Bool) (change : A → A)
      → ((y : A) → condition (change y) ≡ false)
      → reaches key k condition (update key k condition change xs) ≡ false
  unfolding update reaches
  reaches-update [] k condition change h = refl
  reaches-update (x ∷ xs) k condition change h =
      ground (arith, reaches-update xs k condition change h, h x)

  pub select-delete_other :
      (xs : List A) (k l : K) → ¬ (k ≡ l) → select key k (delete key l xs) ≡ select key k xs
  unfolding select delete
  select-delete_other [] k l ne = refl
  select-delete_other (x ∷ xs) k l ne =
      ground (arith, select-delete_other xs k l ne, e.same_iff (key x) k, e.same_iff (key x) l)

  pub select-delete_same : (xs : List A) (k : K) → select key k (delete key k xs) ≡ none
  unfolding select delete
  select-delete_same [] k = refl
  select-delete_same (x ∷ xs) k = ground (arith, select-delete_same xs k)

  pub reaches_iff :
      (xs : List A) (k : K) → (reaches key k (λ x. true) xs ≡ false) ↔ (select key k xs ≡ none)
  unfolding select reaches
  reaches_iff [] k = ground arith
  reaches_iff (x ∷ xs) k = ground (arith, reaches_iff xs k)

  pub upsert-HasPrimaryKey :
      (fresh : A) (change : A → A) (xs : List A)
      → ((x : A) → key (change x) ≡ key x)
      → HasPrimaryKey key xs
      → HasPrimaryKey key (upsert key fresh change xs)
  unfolding select upsert
  upsert-HasPrimaryKey fresh change [] h p = (refl, p)
  upsert-HasPrimaryKey fresh change (x ∷ xs) h p = elim (Bool-cases (key x == key fresh)) [
    | inl q ↦ rw q (ap (λ k. select key k xs) (h x) ∙ p.0, p.1)
    | inr q ↦ rw q (
      select-upsert_other fresh change xs (key x) h
            (λ r. cc (q, (e.same_iff (key x) (key fresh)).1 r))
          ∙ p.0,
      upsert-HasPrimaryKey fresh change xs h p.1,
    )
  ]

  pub delete-HasPrimaryKey :
      (xs : List A) (k : K) → HasPrimaryKey key xs → HasPrimaryKey key (delete key k xs)
  unfolding select delete
  delete-HasPrimaryKey [] k p = p
  delete-HasPrimaryKey (x ∷ xs) k p = elim (Bool-cases (key x == k)) [
    | inl q ↦ rw q (delete-HasPrimaryKey xs k p.1)
    | inr q ↦ rw q (
      select-delete_other xs (key x) k (λ r. cc (q, (e.same_iff (key x) k).1 r)) ∙ p.0,
      delete-HasPrimaryKey xs k p.1,
    )
  ]

  pub update-HasPrimaryKey :
      (xs : List A) (k : K) (condition : A → Bool) (change : A → A)
      → ((y : A) → key (change y) ≡ key y)
      → HasPrimaryKey key xs
      → HasPrimaryKey key (update key k condition change xs)
  unfolding update
  update-HasPrimaryKey [] k condition change h p = p
  update-HasPrimaryKey (x ∷ xs) k condition change h p =
      let keeps : key (updated k condition change x) ≡ key x = ground (arith, h x) in
      (
        ap (λ l. select key l (update key k condition change xs)) keeps
            ∙ select-update-none xs (key x) k condition change h p.0,
        update-HasPrimaryKey xs k condition change h p.1,
      )
