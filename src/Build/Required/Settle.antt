-- ===== src/Build/Required/Settle.antt =====
-- The loop of `derive_required` (src/authoring/build.rs) that takes indices off the required set
-- or refuses the build.
use smrt.Base.{
  ℕ, ◌+◌, ◌<◌, ◌≡◌, refl, sym, ap, ◌∙◌, ◌≢◌, ◌↔◌, ◌⊎◌, inl, inr, true, false, List, [], ◌∷◌, arith,
  ℕ-Eq, contains, Text, Text-Eq,
}
use native.Mathlib.Decide.{ℕ_discrete}
use smrt.Base.Results.{ok, err}
use smrt.Domain.Manifest.{ModEntry}
use smrt.Build.Required.{Classes, remove, excluded, hard_client, locked_message, settle}
use smrt.Build.Required.Walk.{IsAt, IsAt-head, IsAt-tail, IsAt-cases}

contains-remove_self : (i : ℕ) (set : List ℕ) → contains (remove i set) i ≡ false
unfolding remove
contains-remove_self i [] = refl
contains-remove_self i (x ∷ set) = ground (arith, contains-remove_self i set)

contains-remove_ne : (i j : ℕ) (set : List ℕ) → j ≢ i → contains (remove i set) j ≡ contains set j
unfolding remove
contains-remove_ne i j [] h = refl
contains-remove_ne i j (x ∷ set) h = ground (arith, contains-remove_ne i j set h)

module _ (classes : Classes) where
  -- an index below the loop's is not touched
  settle_below :
      (i j : ℕ) (ms : List ModEntry) (set out : List ℕ)
      → j < i
      → settle classes i ms set ≡ ok out
      → contains out j ≡ contains set j
  unfolding settle
  settle_below i j [] set out h e = ground arith
  settle_below i j (m ∷ ms) set out h e = ground (
    arith,
    settle_below (i + 1) j ms set out (omega arith),
    settle_below (i + 1) j ms (remove i set) out (omega arith),
    contains-remove_ne i j set (omega arith),
  )

  -- what an entry's turn makes of its own index
  pub record Settled (set out : List ℕ) (j : ℕ) (m : ModEntry) : Type 0 where
    pub kept : (contains out j ≡ true) ↔ ((contains set j ≡ true) × (excluded classes m ≡ false))
    pub allowed : contains out j ≡ true → hard_client classes m ≡ false

  settle_head :
      (i : ℕ) (m : ModEntry) (ms : List ModEntry) (set out : List ℕ)
      → settle classes i (m ∷ ms) set ≡ ok out
      → Settled set out i m
  unfolding settle
  settle_head i m ms set out e = ground (
    arith,
    settle_below (i + 1) i ms set out (omega arith),
    settle_below (i + 1) i ms (remove i set) out (omega arith),
    contains-remove_self i set,
  )

  -- the set with which the loop goes on behind an entry
  settle_next :
      (i : ℕ) (m : ModEntry) (ms : List ModEntry) (set out : List ℕ)
      → settle classes i (m ∷ ms) set ≡ ok out
      → (settle classes (i + 1) ms set ≡ ok out)
        ⊎ (settle classes (i + 1) ms (remove i set) ≡ ok out)
  unfolding settle
  settle_next i m ms set out e = ground arith

  pub settle_at :
      (i : ℕ) (ms : List ModEntry) (set out : List ℕ) (j : ℕ) (m : ModEntry)
      → settle classes i ms set ≡ ok out
      → IsAt i ms j m
      → Settled set out j m
  settle_at i [] set out j m e a = cc (a.entry)
  settle_at i (n ∷ ms) set out j m e a = elim (IsAt-cases i n ms j m a) [
    | inl (p, q) ↦ rw (p, ← q) (settle_head i n ms set out e)
    | inr later ↦ elim (settle_next i n ms set out e) [
      | inl same ↦ settle_at (i + 1) ms set out j m same later
      | inr removed ↦
          let s = settle_at (i + 1) ms (remove i set) out j m removed later in
          ground (arith, s.kept, s.allowed, later.index, contains-remove_ne i j set)
    ]
  ]

  -- an entry for which the loop refuses
  pub record IsRefused (set : List ℕ) (j : ℕ) (m : ModEntry) (e : Text) : Type 0 where
    pub locked : contains set j ≡ true
    pub included : excluded classes m ≡ false
    pub hard : hard_client classes m ≡ true
    pub message : e ≡ locked_message m

  settle_err_cases :
      (i : ℕ) (m : ModEntry) (ms : List ModEntry) (set : List ℕ) (e : Text)
      → settle classes i (m ∷ ms) set ≡ err e
      → IsRefused set i m e
        ⊎ (settle classes (i + 1) ms set ≡ err e)
        ⊎ (settle classes (i + 1) ms (remove i set) ≡ err e)
  unfolding settle
  settle_err_cases i m ms set e h = ground arith

  contains-of_remove :
      (i j : ℕ) (set : List ℕ) → contains (remove i set) j ≡ true → contains set j ≡ true
  contains-of_remove i j set h = elim (ℕ_discrete j i) [
    | yes p ↦ cc (contains-remove_self i set, ap (contains (remove i set)) p)
    | no ne ↦ sym (contains-remove_ne i j set ne) ∙ h
  ]

  pub settle_err :
      (i : ℕ) (ms : List ModEntry) (set : List ℕ) (e : Text)
      → settle classes i ms set ≡ err e
      → (j : ℕ) × (m : ModEntry) × IsAt i ms j m × IsRefused set j m e
  unfolding settle
  settle_err i [] set e h = cc
  settle_err i (m ∷ ms) set e h = elim (settle_err_cases i m ms set e h) [
    | inl here ↦ (i, m, IsAt-head i m ms, here)
    | inr (inl same) ↦
        let (j, n, a, r) = settle_err (i + 1) ms set e same in (j, n, IsAt-tail i m ms j n a, r)
    | inr (inr removed) ↦
        let (j, n, a, r) = settle_err (i + 1) ms (remove i set) e removed in
        (
          j,
          n,
          IsAt-tail i m ms j n a,
          record {
            locked = contains-of_remove i j set r.locked;
            included = r.included;
            hard = r.hard;
            message = r.message;
          },
        )
  ]
