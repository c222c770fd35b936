-- ===== src/Depfill/Fill.antt =====
-- `fill_dependencies` of src/authoring/depfill.rs. What it asks of the rest of the program is a
-- parameter: the plan (`none` is an error of the registry, on which the save fails), with the
-- dependencies read from the wire folded in, and the resolution of a target (`none` is a target that
-- no source provides or that could not be resolved; both are skipped).
pub mod Names
pub mod Keeps
use smrt.Base.{
  ℕ, zero, suc, ◌+◌, ◌-◌, ◌/◌, max, ap, not, Option, none, some, List, [], ◌∷◌, ◌++◌, map, nat_eq,
  if◌then◌else◌, ℕ-Eq, ◌>>=◌, find, contains, Text, txt, Text-Eq,
}
use smrt.Domain.Pack.{modrinth, DeclaredMod, PackConfig}
use smrt.Depfill.{
  MissingTarget, DepFillPlan, has_project, already_present, apply_requires, prune_orphaned_pulled,
}

pub record WireDep : Type 0 where
  pub requirer : Text
  pub project_id : Text
  pub version_id : Option Text

abbrev selector_of : MissingTarget → Text
selector_of t = t.selector

abbrev pub wire_target : WireDep → MissingTarget
wire_target d = record {
  selector = txt "modrinth:" ++ d.project_id;
  version_range = none;
  pinned_version = d.version_id;
}

-- the loop of `merge_wire_deps`: the edges it adds, and the targets it adds, in order
unfoldable pub merge_wire :
    PackConfig → List Text → List WireDep → List (Text × Text) × List MissingTarget
merge_wire cfg seen [] = ([], [])
merge_wire cfg seen (d ∷ ds) =
    let same = merge_wire cfg seen ds in
    let more = merge_wire cfg ((wire_target d).selector ∷ seen) ds in
    elim (find (λ (m : DeclaredMod). has_project d.project_id m.source) cfg.mods) [
      | some present ↦ ((d.requirer, present.filename) ∷ same.0, same.1)
      | none ↦
          if contains seen (wire_target d).selector then same else (more.0, wire_target d ∷ more.1)
    ]

unfoldable pub merge_wire_deps : PackConfig → List WireDep → DepFillPlan → DepFillPlan
merge_wire_deps cfg deps plan =
    let (edges, extra) = merge_wire cfg (map selector_of plan.missing) deps in
    record plan { missing = plan.missing ++ extra; requires = plan.requires ++ edges }

abbrev pub max_passes : ℕ
max_passes = 8

abbrev pub push : PackConfig → DeclaredMod → PackConfig
push cfg decl = record cfg { mods = cfg.mods ++ (decl ∷ []) }

module _ (resolve_target : PackConfig → MissingTarget → Option DeclaredMod) where
  -- what becomes of the config with one target, and whether a mod was added
  unfoldable pub fill_target : PackConfig → MissingTarget → PackConfig × ℕ
  fill_target cfg target = elim (resolve_target cfg target) [
    | none ↦ (cfg, 0)
    | some decl ↦ if already_present cfg decl then (cfg, 0) else (push cfg decl, 1)
  ]

  -- one pass over the targets, with the number of the mods added
  unfoldable pub fill_targets : PackConfig → List MissingTarget → PackConfig × ℕ
  fill_targets cfg [] = (cfg, 0)
  fill_targets cfg (target ∷ targets) =
      let (after, n) = fill_target cfg target in
      let (final, k) = fill_targets after targets in (final, n + k)

module _ (plan : PackConfig → Option DepFillPlan)
    (resolve_target : PackConfig → MissingTarget → Option DeclaredMod) where
  unfoldable pub passes : ℕ → PackConfig → ℕ → Option (PackConfig × ℕ)
  passes zero cfg total = some (cfg, total)
  passes (suc left) cfg total = elim (plan cfg) [
    | none ↦ none
    | some p ↦
        let (after, added) = fill_targets resolve_target cfg p.missing in
        let rest = passes left after (total + added) in
        if nat_eq added 0 then some (after, total) else rest
  ]

  unfoldable pub fill_dependencies : PackConfig → Option (PackConfig × ℕ)
  fill_dependencies cfg = do
    (filled, added) ← passes max_passes cfg 0
    p ← plan filled
    pruned ← prune_orphaned_pulled (apply_requires filled p.requires)
    some (pruned, added)
