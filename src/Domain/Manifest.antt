-- ===== src/Domain/Manifest.antt =====
-- src/domain/manifest.rs: the manifest that a launcher downloads, and its parts. A map of texts is
-- the list of its entries.
use smrt.Base.{ℕ, Bool, true, false, ◌&&◌, Option, none, List, [], ◌∷◌, ℕ-Eq, Text, Text-Eq}
use smrt.Domain.Side.{PresenceClass}
use smrt.Domain.Version.{VersionChannel}

abbrev pub schema_version : ℕ
schema_version = 2

pub record BuildChecks : Type 0 where
  pub blocking : List Text
  pub advisory : List Text
  pub overridden : Bool

abbrev none_listed : List Text → Bool
none_listed [] = true
none_listed (x ∷ xs) = false

-- `BuildChecks::is_empty`
unfoldable pub checks_is_empty : BuildChecks → Bool
checks_is_empty c = none_listed c.blocking && none_listed c.advisory

pub record AuthSpec : Type 0 where
  pub kind : Text
  pub server_id : Option Text

pub record MinecraftSpec : Type 0 where
  pub version : Text

pub record LoaderSpec : Type 0 where
  pub name : Text
  pub version : Text

pub record JavaSpec : Type 0 where
  pub major : ℕ

pub record Requirement : Type 0 where
  pub filename : Text
  pub version_range : Option Text
  pub optional : Bool

pub data Source : Type 0 where
  modrinth : (project_id version_id : Text) → Source
  smrt_cache : (url : Text) → Source
  smrt_static : (url : Text) → Source

pub record Display : Type 0 where
  pub name : Option Text
  pub description : Option Text
  pub category : Option Text
  pub incompatible_with : List Text
  pub license : Option Text
  pub url : Option Text
  pub icon_url : Option Text
  pub requires : List Requirement
  pub presence : Option PresenceClass

-- `Display::default`
abbrev pub default_display : Display
default_display = record {
  name = none;
  description = none;
  category = none;
  incompatible_with = [];
  license = none;
  url = none;
  icon_url = none;
  requires = [];
  presence = none;
}

pub record ModEntry : Type 0 where
  pub filename : Text
  pub sha1 : Text
  pub size_bytes : ℕ
  pub required : Bool
  pub default_enabled : Bool
  pub source : Source
  pub display : Option Display
  pub slug : Option Text

pub record AssetEntry : Type 0 where
  pub dest : Text
  pub sha1 : Text
  pub size_bytes : ℕ
  pub required : Bool
  pub source : Source
  pub display : Option Display

pub record PackManifest : Type 0 where
  pub schema_version : ℕ
  pub pack_id : Text
  pub pack_version : Text
  pub channel : Option VersionChannel
  pub changelog : Option Text
  pub changelog_i18n : Option (List (Text × Text))
  pub generated_at : Text
  pub fingerprint : Option Text
  pub checks : Option BuildChecks
  pub built_from : Option Text
  pub minecraft : MinecraftSpec
  pub loader : LoaderSpec
  pub java : JavaSpec
  pub auth : Option AuthSpec
  pub mods : List ModEntry
  pub assets : List AssetEntry
