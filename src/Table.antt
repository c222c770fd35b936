-- ===== src/Table.antt =====
-- Tables with a primary key (src/accounts/mod.rs) and hash maps (src/authoring/packstream.rs): the rows in the
-- order in which they were inserted, and the statements that are run on them.
pub mod Laws
pub mod Unique
use smrt.Base.{
  ◌-◌, ◌/◌, ◌≡◌, ◌↔◌, Bool, true, false, ◌&&◌, ◌||◌, Option, none, some, List, [], ◌∷◌, arith,
  if◌then◌else◌, Eq, ◌==◌, ℕ-Eq, any, Text-Eq, ℤ-Eq,
}

-- a key of two columns
pub pair_eq_iff {ℓ κ} :
    {A : Type ℓ} {B : Type κ} ⦃a : Eq A⦄ ⦃b : Eq B⦄ (x y : A × B)
    → (((x.0 == y.0) && (x.1 == y.1)) ≡ true) ↔ (x ≡ y)
pair_eq_iff ⦃a⦄ ⦃b⦄ (x, u) (y, v) = ground (arith, a.same_iff x y, b.same_iff u v)

instance abbrev pub Pair-Eq {ℓ κ} : {A : Type ℓ} {B : Type κ} ⦃a : Eq A⦄ ⦃b : Eq B⦄ → Eq (A × B)
Pair-Eq = record { same = λ x y. (x.0 == y.0) && (x.1 == y.1); same_iff = pair_eq_iff }

module _ {ℓ κ} {A : Type ℓ} {K : Type κ} ⦃e : Eq K⦄ (key : A → K) where
  -- `SELECT ... WHERE key = k`, for at most one row
  unfoldable pub select : K → List A → Option A
  select k [] = none
  select k (x ∷ xs) = let rest = select k xs in if key x == k then some x else rest

  -- `INSERT INTO ... ON CONFLICT(key) DO UPDATE SET ...`
  unfoldable pub upsert : A → (A → A) → List A → List A
  upsert fresh change [] = fresh ∷ []
  upsert fresh change (x ∷ xs) =
      let rest = upsert fresh change xs in if key x == key fresh then change x ∷ xs else x ∷ rest

  -- `UPDATE ... WHERE key = k AND condition`
  unfoldable pub update : K → (A → Bool) → (A → A) → List A → List A
  update k condition change [] = []
  update k condition change (x ∷ xs) =
      (if (key x == k) && condition x then change x else x) ∷ update k condition change xs

  -- how many rows an `UPDATE` or a `DELETE` with this condition reaches, as far as `n > 0` tells
  unfoldable pub reaches : K → (A → Bool) → List A → Bool
  reaches k condition [] = false
  reaches k condition (x ∷ xs) = ((key x == k) && condition x) || reaches k condition xs

  -- `DELETE FROM ... WHERE key = k`
  unfoldable pub delete : K → List A → List A
  delete k [] = []
  delete k (x ∷ xs) = let rest = delete k xs in if key x == k then rest else x ∷ rest

  -- The primary key: no two rows have one key.
  abbrev pub HasPrimaryKey : List A → Type ℓ
  HasPrimaryKey [] = Unit
  HasPrimaryKey (x ∷ xs) = (select (key x) xs ≡ none) × HasPrimaryKey xs
