-- ===== src/Domain/Pack.antt =====
-- src/domain/pack.rs: the summary card of a pack and the config that a curator writes.
pub mod Distinct
use smrt.Base.{
  ℕ, ◌+◌, ◌-◌, ◌/◌, min, Bool, not, Option, none, some, List, [], ◌∷◌, ◌++◌, if◌then◌else◌, ℕ-Eq,
  retain, all, contains, Text, txt, Text-Eq,
}
use smrt.Domain.Manifest.{AuthSpec, Display, LoaderSpec}
use smrt.Domain.Version.{VersionChannel}

pub data PackTier : Type 0 where
  official community : PackTier

pub data Visibility : Type 0 where
  draft unlisted published : Visibility

pub record PackSummary : Type 0 where
  pub pack_id : Text
  pub display_name : Text
  pub tagline : Text
  pub minecraft_version : Text
  pub latest_pack_version : Text
  pub tags : List Text
  pub featured : Bool
  pub icon_url : Option Text
  pub banner_url : Option Text
  pub gallery_urls : List Text
  pub description_md : Option Text
  pub owner : ℕ
  pub tier : PackTier
  pub visibility : Visibility
  pub fork_of : Option Text
  pub latest_built_at : Option Text
  pub latest_channel : Option VersionChannel

pub data SourceDecl : Type 0 where
  modrinth : (project_id version_id : Text) → SourceDecl
  smrt_cache : (sha1 : Text) → SourceDecl
  smrt_static : (rel_path : Text) → SourceDecl

pub record PackMeta : Type 0 where
  pub icon_url : Option Text
  pub banner_url : Option Text
  pub gallery_urls : List Text
  pub description_md : Option Text

pub record DeclaredMod : Type 0 where
  pub filename : Text
  pub default_enabled : Bool
  pub source : SourceDecl
  pub display : Option Display
  pub slug : Option Text
  pub pulled : Bool

pub record DeclaredAsset : Type 0 where
  pub dest : Text
  pub required : Bool
  pub source : SourceDecl
  pub display : Option Display

pub record PackConfig : Type 0 where
  pub pack_id : Text
  pub display_name : Text
  pub tagline : Text
  pub minecraft_version : Text
  pub loader : LoaderSpec
  pub java_major : ℕ
  pub version : Option Text
  pub tags : List Text
  pub featured : Bool
  pub mods : List DeclaredMod
  pub assets : List DeclaredAsset
  pub auth : Option AuthSpec
  pub pack_meta : PackMeta
  pub owner : ℕ
  pub tier : PackTier
  pub visibility : Visibility
  pub fork_of : Option Text

-- `with_authored_from`: the content of another config under this pack's own standing.
unfoldable pub with_authored_from : PackConfig → PackConfig → PackConfig
with_authored_from own other = record other {
  pack_id = own.pack_id;
  owner = own.owner;
  tier = own.tier;
  visibility = own.visibility;
  fork_of = own.fork_of;
}

abbrev pub not_pulled : DeclaredMod → Bool
not_pulled m = not m.pulled

-- what `edit_rev` hashes: the config without what the server owns
unfoldable pub projected : PackConfig → PackConfig
projected cfg = record cfg {
  owner = 0;
  tier = official;
  visibility = published;
  fork_of = none;
  mods = retain not_pulled cfg.mods;
}

-- the wording of `duplicate_declaration`, with the filename left unquoted
unfoldable pub declared_identity : SourceDecl → Text
declared_identity (modrinth project_id _) = txt "modrinth project " ++ project_id
declared_identity (smrt_cache sha1) = txt "cache jar " ++ sha1
declared_identity (smrt_static rel_path) = txt "static file " ++ rel_path

pub data Duplicate : Type 0 where
  identity : (name filename : Text) → Duplicate
  filename : (name : Text) → Duplicate
  dest : (name : Text) → Duplicate

-- the loop over the mods, with the two sets of what was inserted
unfoldable pub duplicate_mod : List Text → List Text → List DeclaredMod → Option Duplicate
duplicate_mod identities filenames [] = none
duplicate_mod identities filenames (m ∷ ms) =
    let id = declared_identity m.source in
    let rest = duplicate_mod (id ∷ identities) (m.filename ∷ filenames) ms in
    if contains identities id
    then some (identity id m.filename)
    else if contains filenames m.filename
    then some (filename m.filename)
    else rest

unfoldable pub duplicate_asset : List Text → List DeclaredAsset → Option Duplicate
duplicate_asset dests [] = none
duplicate_asset dests (a ∷ rest) =
    let later = duplicate_asset (a.dest ∷ dests) rest in
    if contains dests a.dest then some (dest a.dest) else later

unfoldable pub duplicate_declaration : PackConfig → Option Duplicate
duplicate_declaration cfg = elim (duplicate_mod [] [] cfg.mods) [
  | some d ↦ some d
  | none ↦ duplicate_asset [] cfg.assets
]
