-- ===== src/Http/Page/Cut.antt =====
-- A page cut off a listing in src/http/page.rs, and what is left of the listing.
use mathlib.Core.List.Memᴰ
use mathlib.Core.Option.{some_inj}
use mathlib.Core.Logic.{⊎_elim}
use smrt.Http.Page.{last}
use smrt.Base.{
  ℕ, zero, suc, ◌-◌, ◌<◌, ◌≡◌, refl, sym, ap, true, false, some, List, [], ◌∷◌, ◌++◌, arith, ltb,
  ℕ-Eq, length, drop, take, Memᴰ,
}

module _ {ℓ} {A : Type ℓ} where
  pub take-take : (n : ℕ) (xs : List A) → take n (take (suc n) xs) ≡ take n xs
  take-take zero xs = refl
  take-take (suc n) [] = refl
  take-take (suc n) (x ∷ xs) = ap (λ l. x ∷ l) (take-take n xs)

  -- one row past the page tells whether there is more
  pub length-take : (n : ℕ) (xs : List A) → ltb n (length (take (suc n) xs)) ≡ ltb n (length xs)
  length-take zero [] = refl
  length-take zero (x ∷ xs) = ground arith
  length-take (suc n) [] = refl
  length-take (suc n) (x ∷ xs) = ground (arith, length-take n xs)

  pub take_all : (n : ℕ) (xs : List A) → ltb n (length xs) ≡ false → take n xs ≡ xs
  take_all zero [] h = refl
  take_all zero (x ∷ xs) h = ground arith
  take_all (suc n) [] h = refl
  take_all (suc n) (x ∷ xs) h = ap (λ l. x ∷ l) (take_all n xs (ground arith))

  pub take-drop : (n : ℕ) (xs : List A) → take n xs ++ drop n xs ≡ xs
  take-drop zero xs = refl
  take-drop (suc n) [] = refl
  take-drop (suc n) (x ∷ xs) = ap (λ l. x ∷ l) (take-drop n xs)

  pub length-drop : (n : ℕ) (xs : List A) → length (drop n xs) ≡ length xs - n
  length-drop zero xs = omega arith
  length-drop (suc n) [] = omega arith
  length-drop (suc n) (x ∷ xs) = omega (arith, length-drop n xs)

  pub last-take : (n : ℕ) (x : A) (xs : List A) → (y : A) × (last (take (suc n) (x ∷ xs)) ≡ some y)
  last-take zero x xs = (x, refl)
  last-take (suc n) x [] = (x, refl)
  last-take (suc n) x (z ∷ xs) = last-take n z xs

  pub last_of :
      (n : ℕ) (xs : List A)
      → 0 < n
      → ltb n (length xs) ≡ true
      → (y : A) × (last (take n xs) ≡ some y)
  last_of zero xs h k = absurd (omega (arith, h))
  last_of (suc n) [] h k = ground arith
  last_of (suc n) (x ∷ xs) h k = last-take n x xs

  pub last-mem : (x y : A) (xs : List A) → last (x ∷ xs) ≡ some y → Memᴰ y (x ∷ xs)
  last-mem x y [] h = Memᴰ.head (sym (some_inj.0 h))
  last-mem x y (z ∷ xs) h = Memᴰ.tail (last-mem z y xs h)

  pub mem-take : (n : ℕ) (y : A) (xs : List A) → Memᴰ y (take n xs) → Memᴰ y xs
  mem-take zero y xs m = absurd (Memᴰ.not-nil m)
  mem-take (suc n) y [] m = absurd (Memᴰ.not-nil m)
  mem-take (suc n) y (x ∷ xs) m =
      ⊎_elim Memᴰ.head (λ k. Memᴰ.tail (mem-take n y xs k)) (Memᴰ.cases_cons m)
