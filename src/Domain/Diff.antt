-- ===== src/Domain/Diff.antt =====
-- src/domain/diff.rs: what changed between two builds of a pack. A map built from a list is the
-- list of its entries, searched from the end, since a later key replaces an earlier one.

pub mod Mirror
pub mod Same
use smrt.Base.{
  ℕ, ◌+◌, ◌-◌, ◌/◌, min, compare, ap, Bool, true, false, not, Option, none, some, List, [], ◌∷◌,
  ◌++◌, map, if◌then◌else◌, ◌==◌, ℕ-Eq, retain, contains, Text, txt, Text-Eq, show,
}
use smrt.Keyed.{last_with}
use smrt.Domain.Manifest.{schema_version, Source, ModEntry, AssetEntry, PackManifest}

pub record FieldChange : Type 0 where
  pub from : Text
  pub to : Text

pub record DiffEntry : Type 0 where
  pub filename : Text
  pub version : Option Text

pub record DiffUpdate : Type 0 where
  pub filename : Text
  pub version_from : Option Text
  pub version_to : Option Text
  pub sha1_from : Text
  pub sha1_to : Text

pub record DiffToggle : Type 0 where
  pub filename : Text
  pub default_enabled_from : Bool
  pub default_enabled_to : Bool

pub record PackDiff : Type 0 where
  pub schema_version : ℕ
  pub pack_id : Text
  pub from : Text
  pub to : Text
  pub content_changed : Bool
  pub loader : Option FieldChange
  pub minecraft : Option FieldChange
  pub java : Option FieldChange
  pub mods_added : List DiffEntry
  pub mods_removed : List DiffEntry
  pub mods_updated : List DiffUpdate
  pub mods_toggled : List DiffToggle
  pub assets_added : List DiffEntry
  pub assets_removed : List DiffEntry
  pub assets_updated : List DiffUpdate

abbrev named : Option Text → Text → Text
named (some slug) filename = txt "s:" ++ slug
named none filename = txt "f:" ++ filename

-- `identity`
unfoldable pub identity : ModEntry → Text
identity m = elim m.source [
  | Source.modrinth project_id _ ↦ txt "m:" ++ project_id
  | Source.smrt_cache _ ↦ named m.slug m.filename
  | Source.smrt_static _ ↦ named m.slug m.filename
]

abbrev pub entry : Text → DiffEntry
entry f = record { filename = f; version = none }

abbrev pub mod_update : ModEntry → ModEntry → DiffUpdate
mod_update old m = record {
  filename = m.filename;
  version_from = none;
  version_to = none;
  sha1_from = old.sha1;
  sha1_to = m.sha1;
}

abbrev pub mod_toggle : ModEntry → ModEntry → DiffToggle
mod_toggle old m = record {
  filename = m.filename;
  default_enabled_from = old.default_enabled;
  default_enabled_to = m.default_enabled;
}

-- what the loop does with one mod of `to`
pub data ModChange : Type 0 where
  into_added : DiffEntry → ModChange
  into_updated : DiffUpdate → ModChange
  into_toggled : DiffToggle → ModChange
  unchanged : ModChange

unfoldable pub same_bool : Bool → Bool → Bool
same_bool true b = b
same_bool false b = not b

unfoldable pub compare_mod : Option ModEntry → ModEntry → ModChange
compare_mod none m = into_added (entry m.filename)
compare_mod (some old) m =
    if not (old.sha1 == m.sha1)
    then into_updated (mod_update old m)
    else if not (same_bool old.default_enabled m.default_enabled)
    then into_toggled (mod_toggle old m)
    else unchanged

unfoldable pub mod_change : List ModEntry → ModEntry → ModChange
mod_change from m = compare_mod (last_with identity (identity m) from) m

-- the three vectors that the loop pushes to
unfoldable pub mod_buckets :
    List ModEntry → List ModEntry → List DiffEntry × List DiffUpdate × List DiffToggle
mod_buckets from [] = ([], [], [])
mod_buckets from (m ∷ ms) =
    let (a, u, t) = mod_buckets from ms in
    elim (mod_change from m) [
      | into_added e ↦ (e ∷ a, u, t)
      | into_updated e ↦ (a, e ∷ u, t)
      | into_toggled e ↦ (a, u, e ∷ t)
      | unchanged ↦ (a, u, t)
    ]

abbrev pub mod_entry : ModEntry → DiffEntry
mod_entry m = entry m.filename

-- the entries whose key is not in the other list, as `DiffEntry`s
unfoldable pub gone {ℓ} : {A : Type ℓ} → (A → Text) → (A → Text) → List A → List A → List DiffEntry
gone key label from to =
    map (λ a. entry (label a)) (retain (λ a. not (contains (map key to) (key a))) from)

abbrev pub dest_of : AssetEntry → Text
dest_of a = a.dest

abbrev filename_of : ModEntry → Text
filename_of m = m.filename

-- the two vectors that the loop over the assets pushes to
unfoldable pub asset_buckets : List AssetEntry → List AssetEntry → List DiffEntry × List DiffUpdate
asset_buckets from [] = ([], [])
asset_buckets from (a ∷ rest) =
    let (added, updated) = asset_buckets from rest in
    elim (last_with dest_of a.dest from) [
      | none ↦ (entry a.dest ∷ added, updated)
      | some old ↦
          if not (old.sha1 == a.sha1)
          then (
            added,
            record {
              filename = a.dest;
              version_from = none;
              version_to = none;
              sha1_from = old.sha1;
              sha1_to = a.sha1;
            }
                ∷ updated,
          )
          else (added, updated)
    ]

unfoldable pub field : Text → Text → Option FieldChange
field a b = if a == b then none else some (record { from = a; to = b })

abbrev with_names : Text → Text → Option FieldChange → Option FieldChange
with_names a b none = none
with_names a b (some c) = some (record { from = a ++ (32 ∷ c.from); to = b ++ (32 ∷ c.to) })

unfoldable pub fingerprint_changed : Option Text → Option Text → Bool
fingerprint_changed (some a) (some b) = not (a == b)
fingerprint_changed _ _ = true

unfoldable pub diff_manifests : PackManifest → PackManifest → PackDiff
diff_manifests from to =
    let (added, updated, toggled) = mod_buckets from.mods to.mods in
    let (new, changed) = asset_buckets from.assets to.assets in
    record {
      schema_version = schema_version;
      pack_id = to.pack_id;
      from = from.pack_version;
      to = to.pack_version;
      content_changed = fingerprint_changed from.fingerprint to.fingerprint;
      loader =
          with_names from.loader.name to.loader.name (field from.loader.version to.loader.version);
      minecraft = field from.minecraft.version to.minecraft.version;
      java = field (show from.java.major) (show to.java.major);
      mods_added = added;
      mods_removed = gone identity filename_of from.mods to.mods;
      mods_updated = updated;
      mods_toggled = toggled;
      assets_added = new;
      assets_removed = gone dest_of dest_of from.assets to.assets;
      assets_updated = changed;
    }
