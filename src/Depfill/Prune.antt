-- ===== src/Depfill/Prune.antt =====
-- `prune_orphaned_pulled` (src/authoring/depfill.rs): it ends, and it keeps what a declared mod
-- reaches.
use smrt.Base.{
  ◌≡◌, refl, sym, ap, ◌∙◌, ◌↔◌, ◌⊎◌, inl, inr, true, false, not, ◌||◌, Option, none, some, List, [],
  map, Memᴰ, arith, ℕ-Eq, Bool-cases, Option-cases, retain, Memᴰ-retain, contains, contains_iff,
  Text, Text-Eq,
}
use mathlib.Core.Logic.{⊎_elim}
use mathlib.Core.List.Memᴰ
use mathlib.Core.Path.{subst}
use mathlib.Core.Option.{some_inj}
use smrt.Keyed.{last_with, last_with-none}
use smrt.Worklist.{push_all}
use smrt.Worklist.Fuel.{drain_ends}
use smrt.Worklist.Reach.{Memᴰ-push_all, Reached, begin, follow, drain_mem}
use smrt.Domain.Pack.{DeclaredMod, PackConfig}
use smrt.Domain.Manifest.{Requirement, Display}
use smrt.Depfill.{
  filename_of, hard_edges, hard_of, is_hard, name_of, declared, roots, prune_fuel, reachable,
  prune_orphaned_pulled,
}

-- A declared mod has the filename, or the mod of a needed filename requires it and not optionally;
-- of two mods that share a filename, the later one speaks for it.
pub data IsNeeded (mods : List DeclaredMod) : Text → Type 0 where
  by_pack : (m : DeclaredMod) → Memᴰ m mods → m.pulled ≡ false → IsNeeded mods m.filename
  by_mod :
      (f : Text) (m : DeclaredMod) (d : Display) (r : Requirement)
      → IsNeeded mods f
      → last_with filename_of f mods ≡ some m
      → m.display ≡ some d
      → Memᴰ r d.requires
      → r.optional ≡ false
      → IsNeeded mods r.filename

-- an edge, by the requirement that makes it
abbrev IsEdge : List DeclaredMod → Text → Text → Type 0
IsEdge mods f g =
    (m : DeclaredMod) × (d : Display) × (r : Requirement) × (last_with filename_of f mods ≡ some m)
    × (m.display ≡ some d)
    × Memᴰ r d.requires
    × (r.optional ≡ false)
    × (r.filename ≡ g)

mem-hard_of :
    (o : Option Display) (g : Text)
    → Memᴰ g (hard_of o) ↔ (
        (d : Display) × (r : Requirement) × (o ≡ some d)
        × Memᴰ r d.requires
        × (r.optional ≡ false)
        × (r.filename ≡ g))
mem-hard_of none g = (λ m. absurd (Memᴰ.not-nil m), λ (d, r, e, _, _, _). cc)
mem-hard_of (some d) g = (
  λ m.
      let (r, k, e) = Memᴰ.of_map name_of (retain is_hard d.requires) m in
      let (a, h) = (Memᴰ-retain is_hard r d.requires).0 k in (d, r, refl, a, ground arith, e),
  λ (d', r, e, k, off, q).
      subst (λ t. Memᴰ t (hard_of (some d))) q
        (Memᴰ.map name_of (
          (Memᴰ-retain is_hard r d.requires).1
            (subst (λ (x : Display). Memᴰ r x.requires) (sym (some_inj.0 e)) k, ground arith))),
)

mem-hard_edges :
    (mods : List DeclaredMod) (f g : Text) → Memᴰ g (hard_edges mods f) ↔ IsEdge mods f g
unfolding hard_edges
mem-hard_edges mods f g = elim (Option-cases (last_with filename_of f mods)) [
  | inl e ↦ rw (e) (λ m. absurd (Memᴰ.not-nil m), λ (m, d, r, q, _, _, _, _). cc)
  | inr (n, e) ↦ rw (e) (
    λ h. let (d, r, a, b, c, q) = (mem-hard_of n.display g).0 h in (n, d, r, refl, a, b, c, q),
    λ (m, d, r, q, a, b, c, z).
        (mem-hard_of n.display g).1
          (d, r, ap (λ (x : DeclaredMod). x.display) (some_inj.0 q) ∙ a, b, c, z),
  )
]

mem-roots :
    (mods : List DeclaredMod) (f : Text)
    → Memᴰ f (roots mods)
      ↔ ((m : DeclaredMod) × Memᴰ m mods × (m.pulled ≡ false) × (m.filename ≡ f))
unfolding roots
mem-roots mods f = (
  λ h.
      let (m, k, e) = Memᴰ.of_map filename_of (retain declared mods) h in
      let (a, d) = (Memᴰ-retain declared m mods).0 k in (m, a, ground arith, e),
  λ (m, k, off, e).
      subst (λ t. Memᴰ t (map filename_of (retain declared mods))) e
        (Memᴰ.map filename_of ((Memᴰ-retain declared m mods).1 (k, ground arith))),
)

IsNeeded-of_Reached :
    (mods : List DeclaredMod) (f : Text)
    → Reached (hard_edges mods) (push_all (roots mods) []) f
    → IsNeeded mods f
IsNeeded-of_Reached mods f (begin h) =
    let start =
      ⊎_elim (λ k. k) (λ k. absurd (Memᴰ.not-nil k)) ((Memᴰ-push_all f (roots mods) []).0 h) in
    let (m, k, off, e) = (mem-roots mods f).0 start in subst (IsNeeded mods) e (by_pack m k off)
IsNeeded-of_Reached mods f (follow {y} w h) =
    let (m, d, r, q, a, b, c, e) = (mem-hard_edges mods y f).0 h in
    subst (IsNeeded mods) e (by_mod y m d r (IsNeeded-of_Reached mods y w) q a b c)

Reached-of_IsNeeded :
    (mods : List DeclaredMod) (f : Text)
    → IsNeeded mods f
    → Reached (hard_edges mods) (push_all (roots mods) []) f
Reached-of_IsNeeded mods f (by_pack m k off) = begin (
    (Memᴰ-push_all m.filename (roots mods) []).1
      (inl ((mem-roots mods m.filename).1 (m, k, off, refl))))
Reached-of_IsNeeded mods f (by_mod g m d r w q a b c) =
    follow (Reached-of_IsNeeded mods g w)
      ((mem-hard_edges mods g r.filename).1 (m, d, r, q, a, b, c, refl))

no_edges :
    (mods : List DeclaredMod) (f : Text)
    → contains (map filename_of mods) f ≡ false
    → hard_edges mods f ≡ []
unfolding hard_edges
no_edges mods f h = rw ((last_with-none filename_of f mods).1 h) refl

reachable_ends : (mods : List DeclaredMod) → (r : List Text) × (reachable mods ≡ some r)
unfolding reachable prune_fuel
reachable_ends mods =
    drain_ends (hard_edges mods) (map filename_of mods) (no_edges mods) (prune_fuel mods) []
      (push_all (roots mods) []) (omega arith)

reachable_mem :
    (mods : List DeclaredMod) (r : List Text)
    → reachable mods ≡ some r
    → (f : Text) → Memᴰ f r ↔ Reached (hard_edges mods) (push_all (roots mods) []) f
unfolding reachable
reachable_mem mods r h f =
    let m =
      drain_mem (hard_edges mods) (prune_fuel mods) [] (push_all (roots mods) []) r
        (λ y x k w. absurd (Memᴰ.not-nil k)) h f in
    (λ k. ⊎_elim (λ n. absurd (Memᴰ.not-nil n)) (λ w. w) (m.0 k), λ w. m.1 (inr w))

kept_iff :
    (mods : List DeclaredMod) (r : List Text) (m : DeclaredMod)
    → reachable mods ≡ some r
    → ((not m.pulled || contains r m.filename) ≡ true)
      ↔ ((m.pulled ≡ false) ⊎ IsNeeded mods m.filename)
kept_iff mods r m h = (
  λ e. elim (Bool-cases (m.pulled)) [
    | inr off ↦ inl off
    | inl on ↦ inr (needed.0 ((contains_iff r m.filename).0 (pulled_in on e)))
  ],
  ⊎_elim (λ off. ground arith) (λ w. at_least ((contains_iff r m.filename).1 (needed.1 w))),
)
  where
    needed : Memᴰ m.filename r ↔ IsNeeded mods m.filename
    needed =
        let n = reachable_mem mods r h m.filename in
        (
          λ k. IsNeeded-of_Reached mods m.filename (n.0 k),
          λ w. n.1 (Reached-of_IsNeeded mods m.filename w),
        )

    pulled_in :
        m.pulled ≡ true
        → (not m.pulled || contains r m.filename) ≡ true
        → contains r m.filename ≡ true
    pulled_in on e = ground arith

    at_least : contains r m.filename ≡ true → (not m.pulled || contains r m.filename) ≡ true
    at_least e = ground arith

-- Pruning ends with a config that keeps the declared mods, and of the pulled ones exactly those
-- whose filename a chain of hard requirements reaches from a declared mod.
pub prune_orphaned_pulled_mem :
    (cfg : PackConfig)
    → (pruned : PackConfig) × (prune_orphaned_pulled cfg ≡ some pruned)
      × ((m : DeclaredMod)
          → Memᴰ m pruned.mods
            ↔ (Memᴰ m cfg.mods × ((m.pulled ≡ false) ⊎ IsNeeded cfg.mods m.filename)))
unfolding prune_orphaned_pulled
prune_orphaned_pulled_mem cfg =
    let (r, h) = reachable_ends cfg.mods in
    let keep = λ (m : DeclaredMod). not m.pulled || contains r m.filename in
    (
      record cfg { mods = retain keep cfg.mods },
      rw (h, prune_orphaned_pulled) refl,
      λ m. (
        λ k. let (a, e) = (Memᴰ-retain keep m cfg.mods).0 k in (a, (kept_iff cfg.mods r m h).0 e),
        λ (a, w). (Memᴰ-retain keep m cfg.mods).1 (a, (kept_iff cfg.mods r m h).1 w),
      ),
    )
