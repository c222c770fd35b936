-- ===== src/Keyed.antt =====
-- Lists as maps with text keys, where a later entry replaces an earlier one of its key.
use smrt.Base.{
  ◌≡◌, refl, sym, ap, ◌∙◌, ◌↔◌, inl, inr, false, Option, none, some, List, [], ◌∷◌, map, Memᴰ,
  arith, if◌then◌else◌, ◌==◌, ℕ-Eq, Bool-cases, Option-cases, contains, Text, text_eq_iff, Text-Eq,
}
use mathlib.Core.List.Memᴰ
use mathlib.Core.Path.{subst}
use mathlib.Core.Option.{some_inj}

-- `HashMap::get` in the map of a list by a key: the last entry that has the key
unfoldable pub last_with {ℓ} : {A : Type ℓ} → (A → Text) → Text → List A → Option A
last_with key k [] = none
last_with key k (x ∷ xs) = elim (last_with key k xs) [
  | some y ↦ some y
  | none ↦ if key x == k then some x else none
]

-- No two entries of the list have one key.
abbrev pub HasKeys {ℓ} : {A : Type ℓ} → (A → Text) → List A → Type ℓ
HasKeys key [] = Unit
HasKeys key (x ∷ xs) = ((y : _) → Memᴰ y xs → ¬ (key y ≡ key x)) × HasKeys key xs

module _ {ℓ} {A : Type ℓ} (key : A → Text) where
  pub last_with-none :
      (k : Text) (xs : List A) → (last_with key k xs ≡ none) ↔ (contains (map key xs) k ≡ false)
  unfolding last_with
  last_with-none k [] = ground arith
  last_with-none k (x ∷ xs) = ground (arith, last_with-none k xs)

  -- what the lookup finds is an entry of the list that has the key
  pub last_with-mem :
      (k : Text) (xs : List A) (x : A) → last_with key k xs ≡ some x → Memᴰ x xs × (key x ≡ k)
  unfolding last_with
  last_with-mem k [] x h = cc
  last_with-mem k (y ∷ xs) x h = elim (Option-cases (last_with key k xs)) [
    | inl e ↦ here (rw (e) at h)
    | inr (z, e) ↦ let (m, q) = last_with-mem k xs x (e ∙ rw (e) at h) in (Memᴰ.tail m, q)
  ]
    where
      here : (if key y == k then some y else none) ≡ some x → Memᴰ x (y ∷ xs) × (key x ≡ k)
      here q = elim (Bool-cases (key y == k)) [
        | inl e ↦ (
          Memᴰ.head (some_inj.0 (sym (rw e at q))),
          ap key (some_inj.0 (sym (rw e at q))) ∙ (text_eq_iff (key y) k).0 e,
        )
        | inr e ↦ cc (e, q)
      ]

  pub last_with-other :
      (k : Text) (xs : List A) → ((y : A) → Memᴰ y xs → ¬ (key y ≡ k)) → last_with key k xs ≡ none
  unfolding last_with
  last_with-other k [] h = refl
  last_with-other k (x ∷ xs) h =
      let out = h x (Memᴰ.head refl) in
      let rest = last_with-other k xs (λ y m. h y (Memᴰ.tail m)) in
      ground (arith, out, rest, text_eq_iff (key x) k)

  pub last_with-own :
      (x : A) (xs : List A) → HasKeys key xs → Memᴰ x xs → last_with key (key x) xs ≡ some x
  unfolding last_with
  last_with-own x [] h m = absurd (Memᴰ.not-nil m)
  last_with-own x (y ∷ xs) h m = elim (Memᴰ.cases_cons m) [
    | inl e ↦ subst (λ z. last_with key (key z) (y ∷ xs) ≡ some z) (sym e) own
    | inr r ↦ rw (last_with-own x xs h.1 r, last_with) refl
  ]
    where
      own : last_with key (key y) (y ∷ xs) ≡ some y
      own = ground (arith, last_with-other (key y) xs h.0, text_eq_iff (key y) (key y))
