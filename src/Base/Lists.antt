-- ===== src/Base/Lists.antt =====
-- Lists measured by native numbers, filtered by tests, and searched.
use Prim.Native.Nat.{ℕ, zero, suc, ◌+◌, ◌≤◌}
use mathlib.Core.Path.{◌≡◌, refl, ap, sym, ◌∙◌}
use mathlib.Core.Logic.{◌↔◌, ◌⊎◌, inl, inr, ⊎_elim}
use mathlib.Core.Bool.{Bool, true, false, ◌&&◌, ◌||◌}
use mathlib.Core.List.{
  List, [], ◌∷◌, ◌++◌, map, filter_map, filter_map-cons-none, filter_map-cons-some, Memᴰ,
}
use mathlib.Core.List.Memᴰ
use mathlib.Core.Option.{Option, none, some, some_inj}
use native.Mathlib.Omega.{arith}
use smrt.Base.Tests.{if◌then◌else◌, Bool-cases, Option-cases, Eq, ◌==◌}

module _ {ℓ} {A : Type ℓ} where
  abbrev pub length : List A → ℕ
  length [] = 0
  length (x ∷ xs) = suc (length xs)

  abbrev pub get_elem? : List A → ℕ → Option A
  get_elem? [] i = none
  get_elem? (x ∷ xs) zero = some x
  get_elem? (x ∷ xs) (suc i) = get_elem? xs i

  abbrev pub get_or : List A → ℕ → A → A
  get_or [] i d = d
  get_or (x ∷ xs) zero d = x
  get_or (x ∷ xs) (suc i) d = get_or xs i d

  abbrev pub drop : ℕ → List A → List A
  drop zero xs = xs
  drop (suc n) [] = []
  drop (suc n) (x ∷ xs) = drop n xs

  abbrev pub take : ℕ → List A → List A
  take zero xs = []
  take (suc n) [] = []
  take (suc n) (x ∷ xs) = x ∷ take n xs

  abbrev pub replicate : ℕ → A → List A
  replicate zero a = []
  replicate (suc n) a = a ∷ replicate n a

  -- `Vec::retain`, and `Iterator::filter`.
  abbrev pub retain : (A → Bool) → List A → List A
  retain p [] = []
  retain p (x ∷ xs) = let rest = retain p xs in if p x then x ∷ rest else rest

  abbrev pub any : (A → Bool) → List A → Bool
  any p [] = false
  any p (x ∷ xs) = p x || any p xs

  abbrev pub all : (A → Bool) → List A → Bool
  all p [] = true
  all p (x ∷ xs) = p x && all p xs

  abbrev pub find : (A → Bool) → List A → Option A
  find p [] = none
  find p (x ∷ xs) = let rest = find p xs in if p x then some x else rest

  pub length-append : (xs ys : List A) → length (xs ++ ys) ≡ length xs + length ys
  length-append [] ys = omega arith
  length-append (x ∷ xs) ys = omega (arith, length-append xs ys)

  pub length-retain-le : (p : A → Bool) (xs : List A) → length (retain p xs) ≤ length xs
  length-retain-le p [] = omega arith
  length-retain-le p (x ∷ xs) = ground (arith, length-retain-le p xs)

  pub List-cases : (xs : List A) → (xs ≡ []) ⊎ ((x : A) × (rest : List A) × (xs ≡ x ∷ rest))
  List-cases [] = inl refl
  List-cases (x ∷ xs) = inr (x, xs, refl)

  pub Memᴰ-cons : (a x : A) (xs : List A) → Memᴰ a (x ∷ xs) ↔ ((a ≡ x) ⊎ Memᴰ a xs)
  Memᴰ-cons a x xs = (Memᴰ.cases_cons, ⊎_elim Memᴰ.head Memᴰ.tail)

  pub Memᴰ-append : (a : A) (xs ys : List A) → Memᴰ a (xs ++ ys) ↔ (Memᴰ a xs ⊎ Memᴰ a ys)
  Memᴰ-append a xs ys = (Memᴰ.append_cases xs, ⊎_elim (Memᴰ.append_left ys) (Memᴰ.append_right xs))

  -- what a filter keeps
  pub Memᴰ-retain :
      (p : A → Bool) (a : A) (xs : List A) → Memᴰ a (retain p xs) ↔ (Memᴰ a xs × (p a ≡ true))
  Memᴰ-retain p a [] = (λ m. absurd (Memᴰ.not-nil m), λ m. m.0)
  Memᴰ-retain p a (x ∷ xs) = elim (Bool-cases (p x)) [
    | inl e ↦ rw e (
      λ m.
          ⊎_elim (λ q. (Memᴰ.head q, ap p q ∙ e))
            (λ r. (Memᴰ.tail ((Memᴰ-retain p a xs).0 r).0, ((Memᴰ-retain p a xs).0 r).1))
            (Memᴰ.cases_cons m),
      λ (m, h).
          ⊎_elim (λ q. Memᴰ.head q) (λ r. Memᴰ.tail ((Memᴰ-retain p a xs).1 (r, h)))
            (Memᴰ.cases_cons m),
    )
    | inr e ↦ rw e (
      λ m. (Memᴰ.tail ((Memᴰ-retain p a xs).0 m).0, ((Memᴰ-retain p a xs).0 m).1),
      λ (m, h).
          ⊎_elim (λ q. absurd (cc (ap p q))) (λ r. (Memᴰ-retain p a xs).1 (r, h))
            (Memᴰ.cases_cons m),
    )
  ]

module _ {ℓ} {A : Type ℓ} ⦃e : Eq A⦄ where
  abbrev pub contains : List A → A → Bool
  contains [] a = false
  contains (x ∷ xs) a = (x == a) || contains xs a

  pub contains_iff : (xs : List A) (a : A) → (contains xs a ≡ true) ↔ Memᴰ a xs
  contains_iff [] a = (λ h. cc, λ m. absurd (Memᴰ.not-nil m))
  contains_iff (x ∷ xs) a = ground (arith, contains_iff xs a, Memᴰ-cons a x xs, e.same_iff x a)

pub length-map {ℓ κ} :
    {A : Type ℓ} {B : Type κ} (xs : List A) (f : A → B) → length (map f xs) ≡ length xs
length-map [] f = refl
length-map (x ∷ xs) f = ap suc (length-map xs f)

module _ {ℓ κ} {A : Type ℓ} {B : Type κ} (f : A → Option B) where
  pub filter_map-mem :
      (x : A) (y : B) (xs : List A) → Memᴰ x xs → f x ≡ some y → Memᴰ y (filter_map f xs)
  filter_map-mem x y [] m h = absurd (Memᴰ.not-nil m)
  filter_map-mem x y (a ∷ xs) m h = elim (Option-cases (f a)) [
    | inl e ↦ rw (filter_map-cons-none f a xs e) (elim (Memᴰ.cases_cons m) [
      | inl first ↦ cc (e, ap f first)
      | inr rest ↦ filter_map-mem x y xs rest h
    ])
    | inr (b, e) ↦ rw (filter_map-cons-some f a xs e) (elim (Memᴰ.cases_cons m) [
      | inl first ↦ Memᴰ.head (some_inj.0 (sym h ∙ ap f first ∙ e))
      | inr rest ↦ Memᴰ.tail (filter_map-mem x y xs rest h)
    ])
  ]

  filter_map-nil : filter_map f [] ≡ []
  unfolding filter_map
  filter_map-nil = refl

  pub mem-of_filter_map :
      (y : B) (xs : List A) → Memᴰ y (filter_map f xs) → (x : A) × Memᴰ x xs × (f x ≡ some y)
  mem-of_filter_map y [] m = absurd (Memᴰ.not-nil (rw filter_map-nil at m))
  mem-of_filter_map y (a ∷ xs) m = elim (Option-cases (f a)) [
    | inl e ↦
        let (x, k, h) = mem-of_filter_map y xs (rw (filter_map-cons-none f a xs e) at m) in
        (x, Memᴰ.tail k, h)
    | inr (b, e) ↦ elim (Memᴰ.cases_cons (rw (filter_map-cons-some f a xs e) at m)) [
      | inl first ↦ (a, Memᴰ.head refl, e ∙ ap {B = Option B} some (sym first))
      | inr rest ↦ let (x, k, h) = mem-of_filter_map y xs rest in (x, Memᴰ.tail k, h)
    ]
  ]
