-- ===== src/Depfill/Fill/Keeps.antt =====
-- `fill_dependencies` (src/authoring/depfill.rs) from end to end.
use smrt.Base.{
  ℕ, zero, suc, ◌+◌, ◌≡◌, refl, sym, ◌∙◌, inl, inr, false, not, ◌||◌, Option, none, some, List, [],
  ◌∷◌, Memᴰ, nat_eq, ℕ-Eq, Bool-cases, Option-cases, contains, Text, Text-Eq,
}
use mathlib.Core.List.Memᴰ
use mathlib.Core.Path.{subst}
use mathlib.Core.Option.{some_inj}
use smrt.Keyed.{HasKeys}
use smrt.Domain.Manifest.{Display, default_display}
use smrt.Domain.Pack.{DeclaredMod, PackConfig}
use smrt.Depfill.{
  filename_of, MissingTarget, DepFillPlan, with_requires, set_requires, apply_requires, reachable,
  prune_orphaned_pulled,
}
use smrt.Depfill.Prune.{prune_orphaned_pulled_mem}
use smrt.Depfill.Fill.{fill_targets, passes, fill_dependencies, max_passes}
use smrt.Depfill.Fill.Names.{HasKeys-retain, HasKeys-with_requires, steps}

prune-HasKeys :
    (c r : PackConfig)
    → prune_orphaned_pulled c ≡ some r
    → HasKeys filename_of c.mods
    → HasKeys filename_of r.mods
unfolding prune_orphaned_pulled
prune-HasKeys c r h d = elim (Option-cases (reachable c.mods)) [
  | inl e ↦ cc (rw (e, prune_orphaned_pulled) at h)
  | inr (set, e) ↦
      subst (λ (x : PackConfig). HasKeys filename_of x.mods)
        (some_inj.0 (rw (e, prune_orphaned_pulled) at h))
        (HasKeys-retain filename_of (λ m. not m.pulled || contains set m.filename) c.mods d)
]

prune-declared :
    (c r : PackConfig) (m : DeclaredMod)
    → prune_orphaned_pulled c ≡ some r
    → Memᴰ m c.mods
    → m.pulled ≡ false
    → Memᴰ m r.mods
prune-declared c r m h k off =
    let (q, e, exact) = prune_orphaned_pulled_mem c in
    subst (λ (x : PackConfig). Memᴰ m x.mods) (some_inj.0 (sym e ∙ h)) ((exact m).1 (k, inl off))

with_requires-pulled :
    (edges : List (Text × Text)) (m : DeclaredMod) → (with_requires edges m).pulled ≡ m.pulled
unfolding with_requires
with_requires-pulled edges m = refl

mem-apply_requires :
    (c : PackConfig) (edges : List (Text × Text)) (m : DeclaredMod)
    → Memᴰ m c.mods
    → Memᴰ (with_requires edges m) (apply_requires c edges).mods
unfolding apply_requires
mem-apply_requires c edges m k = Memᴰ.map (with_requires edges) k

apply_requires-HasKeys :
    (c : PackConfig) (edges : List (Text × Text))
    → HasKeys filename_of c.mods
    → HasKeys filename_of (apply_requires c edges).mods
unfolding apply_requires
apply_requires-HasKeys c edges h = HasKeys-with_requires edges c.mods h

-- what a curator writes of how a mod is shown: all but its requirements
abbrev pub curated : Option Display → Display
curated none = default_display
curated (some d) = record d { requires = [] }

-- The same declaration, whatever it requires.
abbrev pub IsRewritten : DeclaredMod → DeclaredMod → Type 0
IsRewritten m m' =
    (m'.filename ≡ m.filename)
    × (m'.default_enabled ≡ m.default_enabled)
    × (m'.source ≡ m.source)
    × (m'.slug ≡ m.slug)
    × (m'.pulled ≡ m.pulled)
    × (curated m'.display ≡ curated m.display)

curated-set_requires :
    (names : List Text) (display : Option Display)
    → curated (set_requires names display) ≡ curated display
unfolding set_requires
curated-set_requires [] none = refl
curated-set_requires [] (some d) = refl
curated-set_requires (f ∷ fs) none = refl
curated-set_requires (f ∷ fs) (some d) = refl

with_requires-IsRewritten :
    (edges : List (Text × Text)) (m : DeclaredMod) → IsRewritten m (with_requires edges m)
unfolding with_requires
with_requires-IsRewritten edges m = (refl, refl, refl, refl, refl, curated-set_requires _ m.display)

-- A fill that succeeds keeps every mod that the config declares itself, under its filename, source and
-- slug, enabled or not as it was, and with all that a curator wrote of it but its requirements.
pub fill_dependencies_keeps :
    (plan : PackConfig → Option DepFillPlan)
    (resolve_target : PackConfig → MissingTarget → Option DeclaredMod) (cfg filled : PackConfig)
    (added : ℕ) (m : DeclaredMod)
    → fill_dependencies plan resolve_target cfg ≡ some (filled, added)
    → Memᴰ m cfg.mods
    → m.pulled ≡ false
    → (m' : DeclaredMod) × Memᴰ m' filled.mods × IsRewritten m m'
fill_dependencies_keeps plan resolve_target cfg filled added m h k off =
    let (c, p, g, e) = steps plan resolve_target cfg filled added h in
    (
      with_requires p.requires m,
      prune-declared (apply_requires c p.requires) filled (with_requires p.requires m) e
          (mem-apply_requires c p.requires m (g.keeps m k))
          (with_requires-pulled p.requires m ∙ off),
      with_requires-IsRewritten p.requires m,
    )

-- A fill of a config whose mods have distinct filenames ends, where it succeeds, in one whose mods
-- have distinct filenames.
pub fill_dependencies_distinct :
    (plan : PackConfig → Option DepFillPlan)
    (resolve_target : PackConfig → MissingTarget → Option DeclaredMod) (cfg filled : PackConfig)
    (added : ℕ)
    → fill_dependencies plan resolve_target cfg ≡ some (filled, added)
    → HasKeys filename_of cfg.mods
    → HasKeys filename_of filled.mods
fill_dependencies_distinct plan resolve_target cfg filled added h d =
    let (c, p, g, e) = steps plan resolve_target cfg filled added h in
    prune-HasKeys (apply_requires c p.requires) filled e
      (apply_requires-HasKeys c p.requires (g.distinct d))

module _ (plan : PackConfig → Option DepFillPlan)
    (resolve_target : PackConfig → MissingTarget → Option DeclaredMod)
    (answers : (c : PackConfig) → (p : DepFillPlan) × (plan c ≡ some p)) where
  passes_return :
      (left : ℕ) (cfg : PackConfig) (total : ℕ)
      → (r : PackConfig × ℕ) × (passes plan resolve_target left cfg total ≡ some r)
  unfolding passes
  passes_return zero cfg total = ((cfg, total), refl)
  passes_return (suc left) cfg total =
      let (p, e) = answers cfg in
      let (after, added) = fill_targets resolve_target cfg p.missing in
      let rest = passes_return left after (total + added) in
      elim (Bool-cases (nat_eq added 0)) [
        | inl z ↦ ((after, total), rw (e, passes) (rw z refl))
        | inr z ↦ (rest.0, rw (e, passes) (rw z rest.1))
      ]

  -- Where the plan never fails, the fill succeeds.
  pub fill_dependencies_returns :
      (cfg : PackConfig)
      → (r : PackConfig × ℕ) × (fill_dependencies plan resolve_target cfg ≡ some r)
  unfolding fill_dependencies
  fill_dependencies_returns cfg =
      let (a, e) = passes_return max_passes cfg 0 in
      let (p, f) = answers a.0 in
      let (q, g, _) = prune_orphaned_pulled_mem (apply_requires a.0 p.requires) in
      ((q, a.1), rw e (rw f (rw g refl)))
