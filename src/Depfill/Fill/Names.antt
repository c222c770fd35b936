-- ===== src/Depfill/Fill/Names.antt =====
-- `fill_dependencies` (src/authoring/depfill.rs): what it keeps of the config that it fills.
use smrt.Base.{
  ℕ, zero, suc, ◌+◌, ◌≡◌, refl, sym, ap, ◌∙◌, ◌⊎◌, inl, inr, Bool, true, false, Option, some, List,
  [], ◌∷◌, ◌++◌, map, Memᴰ, arith, nat_eq, if◌then◌else◌, ◌==◌, ℕ-Eq, Bool-cases, Option-cases,
  retain, any, Memᴰ-retain, Text, text_eq_iff, Text-Eq,
}
use mathlib.Core.List.Memᴰ
use mathlib.Core.Path.{subst}
use mathlib.Core.Option.{some_inj}
use smrt.Keyed.{HasKeys}
use smrt.Domain.Pack.{DeclaredMod, PackConfig}
use smrt.Depfill.{
  filename_of, MissingTarget, DepFillPlan, with_requires, already_present, apply_requires,
  prune_orphaned_pulled,
}
use smrt.Depfill.Fill.{fill_target, fill_targets, passes, fill_dependencies, max_passes, push}

any-false {ℓ} :
    {A : Type ℓ} (p : A → Bool) (x : A) (xs : List A) → any p xs ≡ false → Memᴰ x xs → p x ≡ false
any-false p x [] h m = absurd (Memᴰ.not-nil m)
any-false p x (y ∷ ys) h m = elim (Memᴰ.cases_cons m) [
  | inl e ↦ ap p e ∙ ground arith
  | inr r ↦ any-false p x ys (ground arith) r
]

name_new :
    (cfg : PackConfig) (decl m : DeclaredMod)
    → already_present cfg decl ≡ false
    → Memᴰ m cfg.mods
    → ¬ (m.filename ≡ decl.filename)
unfolding already_present
name_new cfg decl m h k e =
    let free =
      any-false (λ (n : DeclaredMod). n.filename == decl.filename) m cfg.mods (ground arith) k in
    cc (free, (text_eq_iff m.filename decl.filename).1 e)

HasKeys-push {ℓ} :
    {A : Type ℓ} (key : A → Text) (xs : List A) (x : A)
    → HasKeys key xs
    → ((y : A) → Memᴰ y xs → ¬ (key y ≡ key x))
    → HasKeys key (xs ++ (x ∷ []))
HasKeys-push key [] x h new = (λ y m. absurd (Memᴰ.not-nil m), tt)
HasKeys-push key (y ∷ ys) x h new = (
  λ z m. elim (Memᴰ.append_cases ys m) [
    | inl a ↦ h.0 z a
    | inr b ↦ λ e. new y (Memᴰ.head refl) (sym e ∙ ap key (Memᴰ.eq_of_singleton b))
  ],
  HasKeys-push key ys x h.1 (λ z m. new z (Memᴰ.tail m)),
)

pub HasKeys-retain {ℓ} :
    {A : Type ℓ} (key : A → Text) (p : A → Bool) (xs : List A)
    → HasKeys key xs
    → HasKeys key (retain p xs)
HasKeys-retain key p [] h = tt
HasKeys-retain key p (x ∷ xs) h = elim (Bool-cases (p x)) [
  | inl e ↦ rw e (λ y m. h.0 y ((Memᴰ-retain p y xs).0 m).0, HasKeys-retain key p xs h.1)
  | inr e ↦ rw e (HasKeys-retain key p xs h.1)
]

-- the config grows at its end, and its filenames stay distinct
pub record Grows (a b : PackConfig) : Type 0 where
  pub keeps : (m : DeclaredMod) → Memᴰ m a.mods → Memᴰ m b.mods
  pub distinct : HasKeys filename_of a.mods → HasKeys filename_of b.mods

Grows-refl : (a : PackConfig) → Grows a a
Grows-refl a = record { keeps = λ m k. k; distinct = λ h. h }

Grows-trans : (a b c : PackConfig) → Grows a b → Grows b c → Grows a c
Grows-trans a b c f g = record {
  keeps = λ m k. g.keeps m (f.keeps m k);
  distinct = λ h. g.distinct (f.distinct h);
}

with_requires-filename :
    (edges : List (Text × Text)) (m : DeclaredMod) → (with_requires edges m).filename ≡ m.filename
unfolding with_requires
with_requires-filename edges m = refl

pub HasKeys-with_requires :
    (edges : List (Text × Text)) (ms : List DeclaredMod)
    → HasKeys filename_of ms
    → HasKeys filename_of (map (with_requires edges) ms)
HasKeys-with_requires edges [] h = tt
HasKeys-with_requires edges (m ∷ ms) h = (
  λ y k.
      let (n, a, e) = Memᴰ.of_map (with_requires edges) ms k in
      λ same. h.0 n a (
        sym (with_requires-filename edges n)
        ∙ ap filename_of e
        ∙ same
        ∙ with_requires-filename edges m),
  HasKeys-with_requires edges ms h.1,
)

Grows-cast : (a b c : PackConfig) → b ≡ c → Grows a b → Grows a c
Grows-cast a b c e g = subst (λ d. Grows a d) e g

Grows-push :
    (cfg : PackConfig) (decl : DeclaredMod)
    → already_present cfg decl ≡ false
    → Grows cfg (push cfg decl)
Grows-push cfg decl h = record {
  keeps = λ m k. Memᴰ.append_left (decl ∷ []) k;
  distinct = λ d. HasKeys-push filename_of cfg.mods decl d (λ m k. name_new cfg decl m h k);
}

module _ (resolve_target : PackConfig → MissingTarget → Option DeclaredMod) where
  fill_target-Grows :
      (cfg : PackConfig) (t : MissingTarget) → Grows cfg (fill_target resolve_target cfg t).0
  unfolding fill_target
  fill_target-Grows cfg t = elim (Option-cases (resolve_target cfg t)) [
    | inl e ↦ rw (e, fill_target) (Grows-refl cfg)
    | inr (decl, e) ↦ elim (Bool-cases (already_present cfg decl)) [
      | inl old ↦ rw (e, fill_target) (rw old (Grows-refl cfg))
      | inr new ↦ rw (e, fill_target) (rw new (Grows-push cfg decl new))
    ]
  ]

  fill_targets-Grows :
      (cfg : PackConfig) (ts : List MissingTarget)
      → Grows cfg (fill_targets resolve_target cfg ts).0
  unfolding fill_targets
  fill_targets-Grows cfg [] = Grows-refl cfg
  fill_targets-Grows cfg (t ∷ ts) =
      let next = (fill_target resolve_target cfg t).0 in
      Grows-trans cfg next (fill_targets resolve_target next ts).0 (fill_target-Grows cfg t)
        (fill_targets-Grows next ts)

module _ (plan : PackConfig → Option DepFillPlan)
    (resolve_target : PackConfig → MissingTarget → Option DeclaredMod) where
  passes-Grows :
      (left : ℕ) (cfg : PackConfig) (total : ℕ) (after : PackConfig) (n : ℕ)
      → passes plan resolve_target left cfg total ≡ some (after, n)
      → Grows cfg after
  unfolding passes
  passes-Grows zero cfg total after n h =
      Grows-cast cfg cfg after (ap (λ r. r.0) (some_inj.0 h)) (Grows-refl cfg)
  passes-Grows (suc left) cfg total after n h = elim (Option-cases (plan cfg)) [
    | inl e ↦ cc (rw (e, passes) at h)
    | inr (p, e) ↦
        go p (λ next t q. passes-Grows left next t after n q) (rw (e, passes) at h)
          (Bool-cases (nat_eq (fill_targets resolve_target cfg p.missing).1 0))
  ]
    where
      go :
          (p : DepFillPlan)
          → ((next : PackConfig) (t : ℕ)
              → passes plan resolve_target left next t ≡ some (after, n)
              → Grows next after)
          → (if nat_eq (fill_targets resolve_target cfg p.missing).1 0
              then some ((fill_targets resolve_target cfg p.missing).0, total)
              else passes plan resolve_target left
                  (fill_targets resolve_target cfg p.missing).0
                  (total + (fill_targets resolve_target cfg p.missing).1))
            ≡ some (after, n)
          → (nat_eq (fill_targets resolve_target cfg p.missing).1 0 ≡ true)
            ⊎ (nat_eq (fill_targets resolve_target cfg p.missing).1 0 ≡ false)
          → Grows cfg after
      go p again h' (inl e) =
          let next = (fill_targets resolve_target cfg p.missing).0 in
          Grows-cast cfg next after (ap (λ r. r.0) (some_inj.0 (rw e at h')))
            (fill_targets-Grows resolve_target cfg p.missing)
      go p again h' (inr e) =
          let next = (fill_targets resolve_target cfg p.missing).0 in
          Grows-trans cfg next after (fill_targets-Grows resolve_target cfg p.missing)
            (again next _ (rw e at h'))

  -- a config whose filenames are distinct, and a chain of three results
  pub steps :
      (cfg r : PackConfig) (n : ℕ)
      → fill_dependencies plan resolve_target cfg ≡ some (r, n)
      → (filled : PackConfig) × (p : DepFillPlan) × Grows cfg filled
        × (prune_orphaned_pulled (apply_requires filled p.requires) ≡ some r)
  unfolding fill_dependencies
  steps cfg r n h = elim (Option-cases (passes plan resolve_target max_passes cfg 0)) [
    | inl e ↦ cc (rw e at h)
    | inr (a, e) ↦ elim (Option-cases (plan a.0)) [
      | inl f ↦ cc (rw f at (rw e at h))
      | inr (p, f) ↦ elim (Option-cases (prune_orphaned_pulled (apply_requires a.0 p.requires))) [
        | inl g ↦ cc (rw g at (rw f at (rw e at h)))
        | inr (q, g) ↦ (
          a.0,
          p,
          passes-Grows max_passes cfg 0 a.0 a.1 e,
          g
              ∙ ap {B = Option PackConfig} some
                  (ap (λ t. t.0) (some_inj.0 (rw g at (rw f at (rw e at h))))),
        )
      ]
    ]
  ]
