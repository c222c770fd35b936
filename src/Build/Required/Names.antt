-- ===== src/Build/Required/Names.antt =====
-- The index of `derive_required` (src/authoring/build.rs), from the filename of a mod to its place.
use smrt.Base.{
  ℕ, zero, suc, ◌+◌, ◌≤◌, ◌≡◌, refl, ap, ◌∙◌, ◌≢◌, ◌↔◌, inl, inr, false, none, some, List, [], ◌∷◌,
  arith, ◌==◌, ℕ-Eq, Bool-cases, Option-cases, get_elem?, Text, text_eq_iff, Text-Eq,
}
use mathlib.Core.Option.{some_inj}
use mathlib.Core.Path.{subst}
use smrt.Domain.Manifest.{ModEntry}
use smrt.Build.Required.{index_from}

-- the last mod of the filename stands there
abbrev pub IsNamed : List ModEntry → Text → ℕ → Type 0
IsNamed mods f i =
    ((m : ModEntry) × (get_elem? mods i ≡ some m) × (m.filename ≡ f))
    × ((j : ℕ) (n : ModEntry) → get_elem? mods j ≡ some n → n.filename ≡ f → j ≤ i)

-- the place of the name in the list of one more
IsNamed-tail :
    (m : ModEntry) (ms : List ModEntry) (f : Text) (i : ℕ)
    → IsNamed ms f i
    → IsNamed (m ∷ ms) f (suc i)
IsNamed-tail m ms f i (found, last) = (found, latest)
  where
    latest : (j : ℕ) (n : ModEntry) → get_elem? (m ∷ ms) j ≡ some n → n.filename ≡ f → j ≤ suc i
    latest zero n at e = omega arith
    latest (suc j) n at e = let below = last j n at e in omega (arith, below)

IsNamed-head :
    (m : ModEntry) (ms : List ModEntry) (f : Text)
    → m.filename ≡ f
    → ((j : ℕ) (n : ModEntry) → get_elem? ms j ≡ some n → n.filename ≢ f)
    → IsNamed (m ∷ ms) f 0
IsNamed-head m ms f here none_behind = ((m, refl, here), latest)
  where
    latest : (j : ℕ) (n : ModEntry) → get_elem? (m ∷ ms) j ≡ some n → n.filename ≡ f → j ≤ 0
    latest zero n at e = omega arith
    latest (suc j) n at e = absurd (none_behind j n at e)

index_from-none :
    (i : ℕ) (mods : List ModEntry) (f : Text) (j : ℕ) (n : ModEntry)
    → index_from i mods f ≡ none
    → get_elem? mods j ≡ some n
    → n.filename ≢ f
unfolding index_from
index_from-none i [] f j n h at e = cc
index_from-none i (m ∷ ms) f j n h at e = elim (Option-cases (index_from (i + 1) ms f)) [
  | inr (k, r) ↦ cc (rw r at h)
  | inl r ↦ elim (Bool-cases (m.filename == f)) [
    | inl q ↦ cc (rw (r, q) at h)
    | inr q ↦ place j q at (λ k there. index_from-none (i + 1) ms f k n r there e)
  ]
]
  where
    place :
        (j : ℕ)
        → (m.filename == f) ≡ false
        → get_elem? (m ∷ ms) j ≡ some n
        → ((k : ℕ) → get_elem? ms k ≡ some n → ⊥)
        → ⊥
    place zero q at not_behind =
        let named : m.filename ≡ f = ap (λ (x : ModEntry). x.filename) (some_inj.0 at) ∙ e in
        cc (q, (text_eq_iff m.filename f).1 named)
    place (suc j) q at not_behind = not_behind j at

index_from-some :
    (i : ℕ) (mods : List ModEntry) (f : Text) (j : ℕ)
    → index_from i mods f ≡ some j
    → (k : ℕ) × (j ≡ i + k) × IsNamed mods f k
unfolding index_from
index_from-some i [] f j h = cc
index_from-some i (m ∷ ms) f j h = elim (Option-cases (index_from (i + 1) ms f)) [
  | inr (k, r) ↦
      let (o, p, named) = index_from-some (i + 1) ms f k r in
      let same : k ≡ j = some_inj.0 (rw r at h) in
      (suc o, omega (arith, same, p), IsNamed-tail m ms f o named)
  | inl r ↦ elim (Bool-cases (m.filename == f)) [
    | inr q ↦ cc (rw (r, q) at h)
    | inl q ↦
        let same : i ≡ j = some_inj.0 (rw (r, q) at h) in
        (
          0,
          omega (arith, same),
          IsNamed-head m ms f ((text_eq_iff m.filename f).0 q)
              (λ j n. index_from-none (i + 1) ms f j n r),
        )
  ]
]

IsNamed-unique :
    (mods : List ModEntry) (f : Text) (i j : ℕ) → IsNamed mods f i → IsNamed mods f j → i ≡ j
IsNamed-unique mods f i j ((m, at, named), last) ((n, there, same), latest) =
    omega (arith, last j n there same, latest i m at named)

pub index_from_iff :
    (mods : List ModEntry) (f : Text) (i : ℕ) → (index_from 0 mods f ≡ some i) ↔ IsNamed mods f i
index_from_iff mods f i = (forth, back)
  where
    forth : {j : ℕ} → index_from 0 mods f ≡ some j → IsNamed mods f j
    forth {j} h =
        let (k, p, named) = index_from-some 0 mods f j h in
        subst (IsNamed mods f) (omega (arith, p)) named

    back : IsNamed mods f i → index_from 0 mods f ≡ some i
    back ((m, at, named), last) = elim (Option-cases (index_from 0 mods f)) [
      | inl e ↦ absurd (index_from-none 0 mods f i m e at named)
      | inr (j, e) ↦ e ∙ ap some (IsNamed-unique mods f j i (forth e) ((m, at, named), last))
    ]
