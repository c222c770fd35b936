-- ===== src/Build/Tests.antt =====
-- The theorems on src/authoring/build.rs at a pack of two mods and at concrete versions.
use smrt.Base.{
  ℕ, ◌+◌, ◌<◌, ◌≡◌, refl, sym, ap, ◌∙◌, ◌≢◌, ◌↔◌, inl, inr, true, false, Option, none, some, List,
  [], ◌∷◌, ◌++◌, map, Memᴰ, arith, if◌then◌else◌, ◌==◌, ℕ-Eq, get_elem?, Text, txt, text_eq,
  Text-Eq, strip_prefix, is_digit, u64_mod, parse_digits, parse_u64, parse_digits,
}
use mathlib.Core.List.Memᴰ
use mathlib.Core.Option.{some_inj}
use mathlib.Core.List.{filter_map}
use Prim.Native.String.{String}
use smrt.Base.Results.{Result}
use smrt.Worklist.{drain}
use smrt.Domain.Side.{SideClass, client, server, both, MatchPolicy, must_match}
use smrt.Domain.Manifest.{Display, default_display, ModEntry, Source}
use smrt.Domain.Pack.{PackConfig, official, published}
use smrt.Registry.Classify.{
  modrinth_env, Classification, is_non_mod, non_mod_kind, client_verdict_is_soft,
}
use smrt.Build.Required.{
  Classes, side, non_mod, opt_out, index_from, lockable, hard_deps, is_seed, indices, seeds,
  queue_from, start_queue, deps_at, walk_fuel, walk, remove, excluded, hard_client, locked_message,
  settle, finish, finish_all, derive_required,
}
use smrt.Build.Required.Walk.{Locked}
use smrt.Build.Required.Outcome.{
  derive_required_returns, derive_required_exact, required_IsAllowed, derive_required_refuses,
}
use smrt.Build.Version.{
  counter, next_auto_version, validate_pack_version, version, base_of, resolve_auto_version,
}
use smrt.Build.Version.Next.{HasRoom, next_auto_version_above}
use smrt.Build.Version.Check.{resolve_auto_version_valid}

abbrev entry : String → Option Display → ModEntry
entry name display = record {
  filename = txt name;
  sha1 = [];
  size_bytes = 0;
  required = false;
  default_enabled = true;
  source = Source.smrt_cache [];
  display = display;
  slug = none;
}

abbrev needs_lib : Display
needs_lib = record default_display {
  requires = record { filename = txt "lib.jar"; version_range = none; optional = false } ∷ [];
}

abbrev app : ModEntry
app = entry "app.jar" (some needs_lib)

abbrev lib : ModEntry
lib = entry "lib.jar" none

abbrev mods : List ModEntry
mods = app ∷ lib ∷ []

abbrev verdict : SideClass → MatchPolicy → Classification
verdict s p = record {
  side = some s;
  policy = some p;
  kind = none;
  provenance = modrinth_env;
  bytecode_side = none;
  bytecode_policy = none;
  side_confidence = some (txt "high");
  optional_both = false;
}

-- the application belongs to both sides
abbrev classes : Classes
classes f = if f == txt "app.jar" then some (verdict both must_match) else none

-- a library of the client that has no jar class: nothing locks it
abbrev client_app : Classes
client_app f = if f == txt "app.jar" then some (verdict client must_match) else none

abbrev out : List ModEntry
out = finish classes true app ∷ finish classes true lib ∷ []

derive_required_returns_example :
    (r : Result (List ModEntry)) × (derive_required classes mods ≡ some r)
derive_required_returns_example = derive_required_returns classes mods

derive_required_exact_example :
    (m' : ModEntry) × (get_elem? out 1 ≡ some m')
    × ((m'.required ≡ true) ↔ (
        Locked classes (map (opt_out classes) mods) 1
        × (side classes lib ≢ some server)
        × (non_mod classes lib ≡ false)))
unfolding derive_required walk drain walk_fuel start_queue queue_from seeds indices is_seed deps_at
    hard_deps lockable index_from opt_out side non_mod settle remove excluded hard_client finish
    finish_all is_non_mod non_mod_kind client_verdict_is_soft locked_message txt text_eq filter_map
derive_required_exact_example = derive_required_exact classes mods out 1 lib refl refl

required_IsAllowed_example :
    (m' : ModEntry) × (get_elem? out 0 ≡ some m')
    × (m'.required ≡ true
        → (side classes app ≢ some server)
          × (non_mod classes app ≡ false)
          × (side classes app ≡ some client
              → (c : Classification) × (classes app.filename ≡ some c)
                × (client_verdict_is_soft c ≡ true)))
unfolding derive_required walk drain walk_fuel start_queue queue_from seeds indices is_seed deps_at
    hard_deps lockable index_from opt_out side non_mod settle remove excluded hard_client finish
    finish_all is_non_mod non_mod_kind client_verdict_is_soft locked_message txt text_eq filter_map
required_IsAllowed_example = required_IsAllowed classes mods out 0 app refl refl

derive_required_refuses_example :
    (j : ℕ) × (m : ModEntry) × (get_elem? (map (opt_out client_app) mods) j ≡ some m)
    × Locked client_app (map (opt_out client_app) mods) j
    × (non_mod client_app m ≡ false)
    × (side client_app m ≡ some client)
    × ((c : Classification) → client_app m.filename ≡ some c → client_verdict_is_soft c ≡ false)
    × (locked_message app
        ≡ txt "client-side mod "
          ++ (m.filename
              ++ txt
                  " would be locked required -- a client mod is never force-installed; fix the mod's classification"))
unfolding derive_required walk drain walk_fuel start_queue queue_from seeds indices is_seed deps_at
    hard_deps lockable index_from opt_out side non_mod settle remove excluded hard_client finish
    finish_all is_non_mod non_mod_kind client_verdict_is_soft locked_message txt text_eq filter_map
derive_required_refuses_example = derive_required_refuses client_app mods (locked_message app) refl

abbrev published_versions : List Text
published_versions = txt "0.1.9" ∷ txt "0.1.10" ∷ txt "0.2.0" ∷ []

room : HasRoom (txt "0.1") published_versions
unfolding counter strip_prefix parse_u64 parse_digits is_digit txt
room v n m h = elim (Memᴰ.cases_cons m) [
  | inl e ↦ below 9 (omega arith) (sym (ap (counter (txt "0.1")) e) ∙ h)
  | inr r ↦ elim (Memᴰ.cases_cons r) [
    | inl e ↦ below 10 (omega arith) (sym (ap (counter (txt "0.1")) e) ∙ h)
    | inr q ↦ elim (Memᴰ.cases_cons q) [
      | inl e ↦ cc (sym (ap (counter (txt "0.1")) e) ∙ h)
      | inr p ↦ absurd (Memᴰ.not-nil p)
    ]
  ]
]
  where
    below : (k : ℕ) → k + 1 < u64_mod → some k ≡ some n → n + 1 < u64_mod
    below k small e = omega (arith, small, some_inj.0 e)

next_auto_version_above_example :
    (k : ℕ) × (counter (txt "0.1") (next_auto_version (txt "0.1") published_versions) ≡ some k)
    × ((v : Text) (n : ℕ) → Memᴰ v published_versions → counter (txt "0.1") v ≡ some n → n < k)
next_auto_version_above_example = next_auto_version_above (txt "0.1") published_versions room

abbrev files : List Text
files = txt "0.1.9.json" ∷ txt "latest.json" ∷ txt "notes" ∷ []

abbrev config : PackConfig
config = record {
  pack_id = txt "p";
  display_name = txt "P";
  tagline = [];
  minecraft_version = txt "1.21.1";
  loader = record { name = txt "fabric"; version = [] };
  java_major = 21;
  version = some (txt "0.1");
  tags = [];
  featured = false;
  mods = [];
  assets = [];
  auth = none;
  pack_meta = record {
    icon_url = none;
    banner_url = none;
    gallery_urls = [];
    description_md = none;
  };
  owner = 0;
  tier = official;
  visibility = published;
  fork_of = none;
}

resolve_auto_version_valid_example :
    ((resolve_auto_version config published_versions
        ≡ version (next_auto_version (base_of config.version) published_versions))
      ↔ (validate_pack_version (base_of config.version) ≡ none))
    × (config.version ≡ none → validate_pack_version (base_of config.version) ≡ none)
resolve_auto_version_valid_example = resolve_auto_version_valid config published_versions
