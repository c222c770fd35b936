-- ===== src/Build/Version/Next.antt =====
-- The build number of src/authoring/build.rs is above every number published for its base.
use smrt.Base.{
  ℕ, ◌+◌, ◌≤◌, ◌<◌, max, ◌≡◌, refl, ◌⊎◌, inl, inr, none, some, List, [], ◌∷◌, ◌++◌, filter_map,
  Memᴰ, arith, ℕ-Eq, filter_map-mem, mem-of_filter_map, Text, txt, Text-Eq, strip_prefix, u64_mod,
  show,
}
use mathlib.Core.List.Memᴰ
use native.Mathlib.Decide.{dec_le}
use smrt.Base.Numerals.{parse_u64-show}
use smrt.Build.Version.{counter, max_of, next_counter, next_auto_version}

pub strip_prefix-append : (p s : Text) → strip_prefix p (p ++ s) ≡ some s
unfolding strip_prefix
strip_prefix-append [] s = refl
strip_prefix-append (c ∷ p) s = ground (arith, strip_prefix-append p s)

counter-next :
    (base : Text) (existing : List Text)
    → next_counter base existing < u64_mod
    → counter base (next_auto_version base existing) ≡ some (next_counter base existing)
unfolding counter next_auto_version
counter-next base existing h =
    rw
      (
        strip_prefix-append base (txt "." ++ show (next_counter base existing)),
        strip_prefix-append (txt ".") (show (next_counter base existing)),
      )
      (parse_u64-show (next_counter base existing) h)

max_of_cases :
    (ns : List ℕ)
    → ((ns ≡ []) × (max_of ns ≡ none))
      ⊎ ((m : ℕ) × (max_of ns ≡ some m) × Memᴰ m ns × ((n : ℕ) → Memᴰ n ns → n ≤ m))
unfolding max_of
max_of_cases [] = inl (refl, refl)
max_of_cases (n ∷ ns) = elim (max_of_cases ns) [
  | inl (e, none_of) ↦ inr (n, rw none_of, Memᴰ.head refl, λ k h. only k (rw e at h))
  | inr (m, e, at, above) ↦
      inr (max n m, rw e, largest m at, λ k h. below k m above (Memᴰ.cases_cons h))
]
  where
    only : (k : ℕ) → Memᴰ k (n ∷ []) → k ≤ n
    only k h = omega (arith, Memᴰ.eq_of_singleton h)

    largest : (m : ℕ) → Memᴰ m ns → Memᴰ (max n m) (n ∷ ns)
    largest m at = elim (dec_le n m) [
      | yes p ↦ Memᴰ.tail (Memᴰ.cast (omega arith) at)
      | no p ↦ Memᴰ.head (omega arith)
    ]

    below : (k m : ℕ) → ((i : ℕ) → Memᴰ i ns → i ≤ m) → (k ≡ n) ⊎ Memᴰ k ns → k ≤ max n m
    below k m above (inl e) = omega arith
    below k m above (inr h) = omega (arith, above k h)

-- no published counter is the last 64-bit number
abbrev pub HasRoom : Text → List Text → Type 0
HasRoom base existing =
    (v : Text) (n : ℕ) → Memᴰ v existing → counter base v ≡ some n → n + 1 < u64_mod

next_counter-none :
    (base : Text) (existing : List Text)
    → max_of (filter_map (counter base) existing) ≡ none
    → next_counter base existing ≡ 0
unfolding next_counter
next_counter-none base existing h = rw (h, next_counter)

next_counter-some :
    (base : Text) (existing : List Text) (m : ℕ)
    → max_of (filter_map (counter base) existing) ≡ some m
    → m + 1 < u64_mod
    → next_counter base existing ≡ m + 1
unfolding next_counter
next_counter-some base existing m h lt = rw (h, next_counter) (omega arith)

next_counter_room :
    (base : Text) (existing : List Text)
    → HasRoom base existing
    → (next_counter base existing < u64_mod)
      × ((v : Text) (n : ℕ)
          → Memᴰ v existing
          → counter base v ≡ some n
          → n < next_counter base existing)
next_counter_room base existing room = elim (max_of_cases (filter_map (counter base) existing)) [
  | inl (e, none_of) ↦ rw (next_counter-none base existing none_of) (
    omega arith,
    λ v n m h. absurd (Memᴰ.not-nil (rw e at (filter_map-mem (counter base) v n existing m h))),
  )
  | inr (m, e, at, above) ↦
      let (v, k, h) = mem-of_filter_map (counter base) m existing at in
      let small : m + 1 < u64_mod = room v m k h in
      rw (next_counter-some base existing m e small) (
        omega arith,
        λ w n l p. omega (arith, above n (filter_map-mem (counter base) w n existing l p)),
      )
]

-- While no published counter of the base is the last 64-bit number, the next version has a counter
-- of that base that is above each of them.
pub next_auto_version_above :
    (base : Text) (existing : List Text)
    → HasRoom base existing
    → (k : ℕ) × (counter base (next_auto_version base existing) ≡ some k)
      × ((v : Text) (n : ℕ) → Memᴰ v existing → counter base v ≡ some n → n < k)
next_auto_version_above base existing room =
    let (small, above) = next_counter_room base existing room in
    (next_counter base existing, counter-next base existing small, above)

-- A version that was ever published and is still listed is not issued again.
pub next_auto_version_fresh :
    (base : Text) (existing : List Text)
    → HasRoom base existing
    → ¬ Memᴰ (next_auto_version base existing) existing
next_auto_version_fresh base existing room m =
    let (k, e, above) = next_auto_version_above base existing room in
    absurd (omega (arith, above (next_auto_version base existing) k m e))
