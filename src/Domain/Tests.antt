-- ===== src/Domain/Tests.antt =====
-- The theorems on src/domain at concrete versions, flags, configs and manifests.
use smrt.Base.{
  Ordering, ◌≡◌, refl, ◌↔◌, true, false, none, List, [], ◌∷◌, ℕ-Eq, txt, Text-Eq, is_whitespace,
  trim_start, trim, strip_prefix, split_once, split, is_digit, parse_digits, parse_u64,
  parse_digits,
}
use Prim.Native.String.{String}
use smrt.Semver.{cmp, cmp_parts, cmp_from, parse, drop_v, collect}
use smrt.Domain.Version.{compare_pack_versions}
use smrt.Domain.Version.Order.{compare-eq-cmp}
use smrt.Domain.Manifest.{ModEntry, PackManifest, Source}
use smrt.Domain.Pack.{modrinth, DeclaredMod, PackConfig, official, published, duplicate_declaration}
use smrt.Domain.Pack.Distinct.{IsDistinct, HasNewDests, duplicate_declaration_iff}
use smrt.Domain.Diff.{diff_manifests}
use smrt.Domain.Diff.Mirror.{diff_manifests-swap}

compare-eq-cmp_example : compare_pack_versions (txt "0.9") (txt "0.10") ≡ Ordering.lt
unfolding cmp cmp_parts cmp_from parse drop_v collect txt trim trim_start split_once split parse_u64
    parse_digits strip_prefix is_digit is_whitespace
compare-eq-cmp_example =
    compare-eq-cmp (txt "0.9") (txt "0.10") Ordering.lt
      (record { no_space = refl; no_v = refl; no_build = refl })
      (record { no_space = refl; no_v = refl; no_build = refl }) refl

abbrev declared_mod : String → DeclaredMod
declared_mod name = record {
  filename = txt name;
  default_enabled = true;
  source = modrinth (txt name) (txt "v1");
  display = none;
  slug = none;
  pulled = false;
}

abbrev config : PackConfig
config = record {
  pack_id = txt "p";
  display_name = txt "P";
  tagline = [];
  minecraft_version = txt "1.21.1";
  loader = record { name = txt "fabric"; version = [] };
  java_major = 21;
  version = none;
  tags = [];
  featured = false;
  mods = declared_mod "a.jar" ∷ declared_mod "b.jar" ∷ declared_mod "a.jar" ∷ [];
  assets = [];
  auth = none;
  pack_meta = record {
    icon_url = none;
    banner_url = none;
    gallery_urls = [];
    description_md = none;
  };
  owner = 0;
  tier = official;
  visibility = published;
  fork_of = none;
}

duplicate_declaration_iff_example :
    (duplicate_declaration config ≡ none) ↔ (IsDistinct config.mods × HasNewDests [] config.assets)
duplicate_declaration_iff_example = duplicate_declaration_iff config

abbrev mod_of : String → String → ModEntry
mod_of name sha1 = record {
  filename = txt name;
  sha1 = txt sha1;
  size_bytes = 1;
  required = false;
  default_enabled = true;
  source = Source.modrinth (txt name) (txt "v1");
  display = none;
  slug = none;
}

abbrev manifest_of : List ModEntry → PackManifest
manifest_of mods = record {
  schema_version = 2;
  pack_id = txt "p";
  pack_version = txt "0.1";
  channel = none;
  changelog = none;
  changelog_i18n = none;
  generated_at = [];
  fingerprint = none;
  checks = none;
  built_from = none;
  minecraft = record { version = txt "1.21.1" };
  loader = record { name = txt "fabric"; version = txt "0.16" };
  java = record { major = 21 };
  auth = none;
  mods = mods;
  assets = [];
}

abbrev before : PackManifest
before = manifest_of (mod_of "a.jar" "1" ∷ [])

abbrev after : PackManifest
after = manifest_of (mod_of "b.jar" "2" ∷ [])

diff_manifests-swap_example :
    ((diff_manifests before after).mods_added ≡ (diff_manifests after before).mods_removed)
    × ((diff_manifests before after).mods_removed ≡ (diff_manifests after before).mods_added)
    × ((diff_manifests before after).assets_added ≡ (diff_manifests after before).assets_removed)
    × ((diff_manifests before after).assets_removed ≡ (diff_manifests after before).assets_added)
diff_manifests-swap_example = diff_manifests-swap before after
