-- ===== src/Domain/Diff/Same.antt =====
-- `diff_manifests` (src/domain/diff.rs) of a build against itself.
use smrt.Base.{
  ◌≡◌, refl, ap, ◌↔◌, Bool, true, false, Option, none, some, List, [], ◌∷◌, map, Memᴰ, ℕ-Eq,
  contains_iff, Text, text_eq_iff, Text-Eq, show,
}
use mathlib.Core.List.Memᴰ
use smrt.Keyed.{HasKeys, last_with, last_with-own}
use smrt.Domain.Manifest.{ModEntry, AssetEntry, PackManifest}
use smrt.Domain.Diff.{
  identity, mod_buckets, mod_change, compare_mod, same_bool, dest_of, filename_of, gone,
  asset_buckets, field, fingerprint_changed, diff_manifests,
}

module _ {ℓ} {A : Type ℓ} (key : A → Text) where
  gone-same :
      (label : A → Text) (xs to : List A)
      → ((x : A) → Memᴰ x xs → Memᴰ x to)
      → gone key label xs to ≡ []
  unfolding gone
  gone-same label [] to h = refl
  gone-same label (x ∷ xs) to h =
      rw ((contains_iff (map key to) (key x)).1 (Memᴰ.map key (h x (Memᴰ.head refl))))
        (gone-same label xs to (λ y m. h y (Memᴰ.tail m)))

same_bool_self : (b : Bool) → same_bool b b ≡ true
unfolding same_bool
same_bool_self true = refl
same_bool_self false = refl

mod_buckets-same :
    (from ms : List ModEntry)
    → ((m : ModEntry) → Memᴰ m ms → last_with identity (identity m) from ≡ some m)
    → mod_buckets from ms ≡ ([], [], [])
unfolding mod_buckets mod_change compare_mod same_bool
mod_buckets-same from [] h = refl
mod_buckets-same from (m ∷ ms) h =
    rw (h m (Memᴰ.head refl), mod_buckets, mod_change)
      (rw ((text_eq_iff m.sha1 m.sha1).1 refl, same_bool_self m.default_enabled)
        (mod_buckets-same from ms (λ n k. h n (Memᴰ.tail k))))

asset_buckets-same :
    (from rest : List AssetEntry)
    → ((a : AssetEntry) → Memᴰ a rest → last_with dest_of a.dest from ≡ some a)
    → asset_buckets from rest ≡ ([], [])
unfolding asset_buckets
asset_buckets-same from [] h = refl
asset_buckets-same from (m ∷ ms) h =
    rw (h m (Memᴰ.head refl), asset_buckets)
      (rw ((text_eq_iff m.sha1 m.sha1).1 refl)
        (asset_buckets-same from ms (λ n k. h n (Memᴰ.tail k))))

field-same : (t : Text) → field t t ≡ none
unfolding field
field-same t = rw ((text_eq_iff t t).1 refl) refl

fingerprint-same : (f : Option Text) → (fingerprint_changed f f ≡ true) ↔ (f ≡ none)
unfolding fingerprint_changed
fingerprint-same none = (λ h. refl, λ h. refl)
fingerprint-same (some t) = rw ((text_eq_iff t t).1 refl) (λ h. cc, λ h. cc)

-- A build whose mods have different identities and whose assets have different destinations
-- differs from itself in nothing, and in content only where it has no fingerprint.
pub diff_manifests-same :
    (p : PackManifest)
    → HasKeys identity p.mods
    → HasKeys dest_of p.assets
    → let d = diff_manifests p p in
      ((d.mods_added ≡ []) × (d.mods_updated ≡ []) × (d.mods_toggled ≡ []) × (d.mods_removed ≡ []))
      × ((d.assets_added ≡ []) × (d.assets_updated ≡ []) × (d.assets_removed ≡ []))
      × ((d.loader ≡ none) × (d.minecraft ≡ none) × (d.java ≡ none))
      × ((d.content_changed ≡ true) ↔ (p.fingerprint ≡ none))
unfolding diff_manifests
diff_manifests-same p ids dests =
    let ms = mod_buckets-same p.mods p.mods (λ m k. last_with-own identity m p.mods ids k) in
    let assets =
      asset_buckets-same p.assets p.assets (λ a k. last_with-own dest_of a p.assets dests k) in
    (
      (
        ap (λ t. t.0) ms,
        ap (λ t. t.1) ms,
        ap (λ t. t.2) ms,
        gone-same identity filename_of p.mods p.mods (λ x k. k),
      ),
      (
        ap (λ t. t.0) assets,
        ap (λ t. t.1) assets,
        gone-same dest_of dest_of p.assets p.assets (λ x k. k),
      ),
      (
        rw (field-same p.loader.version) refl,
        field-same p.minecraft.version,
        field-same (show p.java.major),
      ),
      fingerprint-same p.fingerprint,
    )
