-- ===== src/Depfill/Tests.antt =====
-- The theorems on src/authoring/depfill.rs at a pack of two mods, one of which a save pulled in.
use smrt.Base.{
  ℕ, ◌≡◌, refl, ◌↔◌, ◌⊎◌, true, false, Option, none, some, List, [], ◌∷◌, Memᴰ, ℕ-Eq, txt, text_eq,
  Text-Eq, text_lt,
}
use mathlib.Core.List.Memᴰ
use smrt.Keyed.{HasKeys, last_with}
use smrt.Worklist.{drain}
use smrt.Domain.Pack.{modrinth, smrt_cache, DeclaredMod, PackConfig, official, published}
use smrt.Depfill.{
  filename_of, MissingTarget, DepFillPlan, with_requires, set_requires, sort, insert_sorted, dedup,
  dedup_after, deps_from, already_present, apply_requires, hard_edges, roots, prune_fuel, reachable,
  prune_orphaned_pulled, merge_pulled,
}
use smrt.Depfill.Merge.{IsCovered, merge_pulled_mem}
use smrt.Depfill.Prune.{IsNeeded, prune_orphaned_pulled_mem}
use smrt.Depfill.Fill.{fill_target, fill_targets, passes, fill_dependencies}
use smrt.Depfill.Fill.Keeps.{
  IsRewritten, fill_dependencies_keeps, fill_dependencies_distinct, fill_dependencies_returns,
}

abbrev app : DeclaredMod
app = record {
  filename = txt "app.jar";
  default_enabled = true;
  source = modrinth (txt "app") (txt "v1");
  display = none;
  slug = none;
  pulled = false;
}

abbrev lib : DeclaredMod
lib = record {
  filename = txt "lib.jar";
  default_enabled = true;
  source = smrt_cache (txt "ab");
  display = none;
  slug = none;
  pulled = true;
}

abbrev pack_of : List DeclaredMod → PackConfig
pack_of mods = record {
  pack_id = txt "p";
  display_name = txt "P";
  tagline = [];
  minecraft_version = txt "1.21.1";
  loader = record { name = txt "fabric"; version = [] };
  java_major = 21;
  version = none;
  tags = [];
  featured = false;
  mods = mods;
  assets = [];
  auth = none;
  pack_meta = record {
    icon_url = none;
    banner_url = none;
    gallery_urls = [];
    description_md = none;
  };
  owner = 0;
  tier = official;
  visibility = published;
  fork_of = none;
}

abbrev target : MissingTarget
target = record { selector = txt "lib"; version_range = none; pinned_version = none }

-- the registry asks for the library until the pack holds two mods
abbrev plan_of : List DeclaredMod → DepFillPlan
plan_of (a ∷ []) = record { missing = target ∷ []; requires = []; suggested = [] }
plan_of _ = record { missing = []; requires = (txt "app.jar", txt "lib.jar") ∷ []; suggested = [] }

abbrev plan : PackConfig → Option DepFillPlan
plan cfg = some (plan_of cfg.mods)

abbrev resolve_target : PackConfig → MissingTarget → Option DeclaredMod
resolve_target cfg t = some lib

merge_pulled_mem_example :
    Memᴰ lib (merge_pulled (pack_of (app ∷ lib ∷ [])) (pack_of (app ∷ []))).mods ↔ (
      Memᴰ lib (app ∷ [])
      ⊎ (Memᴰ lib (app ∷ lib ∷ []) × (true ≡ true) × (¬ IsCovered (app ∷ []) lib)))
merge_pulled_mem_example = merge_pulled_mem (pack_of (app ∷ lib ∷ [])) (pack_of (app ∷ [])) lib

prune_orphaned_pulled_mem_example :
    (pruned : PackConfig) × (prune_orphaned_pulled (pack_of (app ∷ lib ∷ [])) ≡ some pruned)
    × ((m : DeclaredMod)
        → Memᴰ m pruned.mods
          ↔ (Memᴰ m (app ∷ lib ∷ []) × ((m.pulled ≡ false) ⊎ IsNeeded (app ∷ lib ∷ []) m.filename)))
prune_orphaned_pulled_mem_example = prune_orphaned_pulled_mem (pack_of (app ∷ lib ∷ []))

abbrev filled : PackConfig
filled = pack_of (
    with_requires ((txt "app.jar", txt "lib.jar") ∷ []) app
    ∷ with_requires ((txt "app.jar", txt "lib.jar") ∷ []) lib
    ∷ [])

fill_dependencies_keeps_example : (m' : DeclaredMod) × Memᴰ m' filled.mods × IsRewritten app m'
unfolding fill_dependencies passes fill_targets fill_target already_present apply_requires
    prune_orphaned_pulled reachable prune_fuel roots hard_edges drain last_with with_requires
    set_requires sort insert_sorted dedup dedup_after deps_from txt text_eq text_lt
fill_dependencies_keeps_example =
    fill_dependencies_keeps plan resolve_target (pack_of (app ∷ [])) filled 1 app refl
      (Memᴰ.head refl) refl

fill_dependencies_distinct_example : HasKeys filename_of filled.mods
unfolding fill_dependencies passes fill_targets fill_target already_present apply_requires
    prune_orphaned_pulled reachable prune_fuel roots hard_edges drain last_with with_requires
    set_requires sort insert_sorted dedup dedup_after deps_from txt text_eq text_lt
fill_dependencies_distinct_example =
    fill_dependencies_distinct plan resolve_target (pack_of (app ∷ [])) filled 1 refl
      (λ y m. absurd (Memᴰ.not-nil m), tt)

fill_dependencies_returns_example :
    (r : PackConfig × ℕ) × (fill_dependencies plan resolve_target (pack_of (app ∷ [])) ≡ some r)
fill_dependencies_returns_example =
    fill_dependencies_returns plan resolve_target (λ c. (plan_of c.mods, refl)) (pack_of (app ∷ []))
