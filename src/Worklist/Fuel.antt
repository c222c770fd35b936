-- ===== src/Worklist/Fuel.antt =====
-- The worklist loop ends: each round takes an entry off the queue, and an entry adds its edges once.
use smrt.Base.{
  ℕ, zero, suc, ◌+◌, ◌≤◌, ◌≡◌, refl, ap, ◌⊎◌, inl, inr, true, false, some, List, [], ◌∷◌, arith, Eq,
  ℕ-Eq, Bool-cases, length, contains, Text-Eq,
}
use smrt.Worklist.{push_all, drain, load}

length-push_all {ℓ} :
    {A : Type ℓ} (ds queue : List A) → length (push_all ds queue) ≡ length ds + length queue
length-push_all [] queue = omega arith
length-push_all (d ∷ ds) queue = omega (arith, length-push_all ds (d ∷ queue))

module _ {ℓ} {A : Type ℓ} ⦃e : Eq A⦄ (deps : A → List A) where
  load_mono : (x : A) (set ks : List A) → load deps (x ∷ set) ks ≤ load deps set ks
  load_mono x set [] = omega arith
  load_mono x set (k ∷ ks) = ground (arith, load_mono x set ks)

  load_drop :
      (x : A) (set ks : List A)
      → contains set x ≡ false
      → contains ks x ≡ true
      → load deps (x ∷ set) ks + length (deps x) ≤ load deps set ks
  load_drop x set [] out at = cc
  load_drop x set (k ∷ ks) out at =
      ground (arith, load_mono x set ks, load_drop x set ks, e.same_iff x k, e.same_iff k x)

  -- Where all edges start in `ks`, fuel for the queue and the edges left is enough.
  pub drain_ends :
      (ks : List A)
      → ((x : A) → contains ks x ≡ false → deps x ≡ [])
      → (fuel : ℕ) (set queue : List A) → length queue + load deps set ks ≤ fuel
      → (r : List A) × (drain deps fuel set queue ≡ some r)
  unfolding drain
  drain_ends ks closed zero set [] h = (set, refl)
  drain_ends ks closed zero set (x ∷ queue) h = absurd (omega arith)
  drain_ends ks closed (suc fuel) set [] h = (set, refl)
  drain_ends ks closed (suc fuel) set (x ∷ queue) h = elim (Bool-cases (contains set x)) [
    | inl old ↦ rw (old, drain) (drain_ends ks closed fuel set queue (omega arith))
    | inr new ↦
        rw (new, drain)
          (drain_ends ks closed fuel (x ∷ set) (push_all (deps x) queue)
            (enough (Bool-cases (contains ks x)) new))
  ]
    where
      enough :
          (contains ks x ≡ true) ⊎ (contains ks x ≡ false)
          → contains set x ≡ false
          → length (push_all (deps x) queue) + load deps (x ∷ set) ks ≤ fuel
      enough (inl at) new = omega (arith, length-push_all (deps x) queue, load_drop x set ks new at)
      enough (inr off) new = omega (
        arith,
        length-push_all (deps x) queue,
        load_mono x set ks,
        ap (λ (l : List A). length l) (closed x off),
      )
