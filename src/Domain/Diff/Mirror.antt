-- ===== src/Domain/Diff/Mirror.antt =====
-- The buckets of `diff_manifests` (src/domain/diff.rs), and the diff read backwards.
use smrt.Base.{
  ◌≡◌, refl, sym, ap, ◌∙◌, inl, inr, true, false, Option, none, some, List, [], ◌∷◌, map, arith,
  ℕ-Eq, Option-cases, contains, Text, Text-Eq,
}
use smrt.Keyed.{last_with, last_with-none}
use smrt.Domain.Manifest.{ModEntry, AssetEntry, PackManifest}
use smrt.Domain.Diff.{
  identity, entry, compare_mod, mod_change, mod_buckets, dest_of, filename_of, gone, asset_buckets,
  diff_manifests,
}

module _ {ℓ} {A : Type ℓ} (key label : A → Text) (x : A) (xs to : List A) where
  gone-in : contains (map key to) (key x) ≡ true → gone key label (x ∷ xs) to ≡ gone key label xs to
  unfolding gone
  gone-in h = rw h refl

  gone-out :
      contains (map key to) (key x) ≡ false
      → gone key label (x ∷ xs) to ≡ entry (label x) ∷ gone key label xs to
  unfolding gone
  gone-out h = rw h refl

-- the first bucket, after the lookup
added_of :
    (o : Option ModEntry) (from : List ModEntry) (m : ModEntry) (ms : List ModEntry)
    → last_with identity (identity m) from ≡ o
    → (mod_buckets from (m ∷ ms)).0 ≡ (elim o [
      | none ↦ entry m.filename ∷ (mod_buckets from ms).0
      | some _ ↦ (mod_buckets from ms).0
    ])
unfolding mod_buckets mod_change compare_mod
added_of none from m ms h = rw (h, mod_buckets, mod_change) refl
added_of (some old) from m ms h = ground arith

mods_added-gone :
    (from to : List ModEntry) → (mod_buckets from to).0 ≡ gone identity filename_of to from
unfolding mod_buckets mod_change compare_mod gone
mods_added-gone from [] = refl
mods_added-gone from (m ∷ ms) = elim (Option-cases (last_with identity (identity m) from)) [
  | inl e ↦
      added_of none from m ms e
      ∙ ap (λ t. entry m.filename ∷ t) (mods_added-gone from ms)
      ∙ sym (
          gone-out identity filename_of m ms from ((last_with-none identity (identity m) from).0 e))
  | inr (old, e) ↦
      added_of (some old) from m ms e
      ∙ mods_added-gone from ms
      ∙ sym (gone-in identity filename_of m ms from (found e))
]
  where
    found :
        {old : ModEntry}
        → last_with identity (identity m) from ≡ some old
        → contains (map identity from) (identity m) ≡ true
    found e = ground (arith, last_with-none identity (identity m) from)

assets_added-gone :
    (from to : List AssetEntry) → (asset_buckets from to).0 ≡ gone dest_of dest_of to from
unfolding asset_buckets gone
assets_added-gone from [] = refl
assets_added-gone from (m ∷ ms) = ground (
  arith,
  assets_added-gone from ms,
  last_with-none dest_of m.dest from,
  gone-in dest_of dest_of m ms from,
  gone-out dest_of dest_of m ms from,
)

-- Read backwards, a diff removes what it adds, mods and assets, and adds what it removes.
pub diff_manifests-swap :
    (a b : PackManifest)
    → ((diff_manifests a b).mods_added ≡ (diff_manifests b a).mods_removed)
      × ((diff_manifests a b).mods_removed ≡ (diff_manifests b a).mods_added)
      × ((diff_manifests a b).assets_added ≡ (diff_manifests b a).assets_removed)
      × ((diff_manifests a b).assets_removed ≡ (diff_manifests b a).assets_added)
unfolding diff_manifests
diff_manifests-swap a b = (
  mods_added-gone a.mods b.mods,
  sym (mods_added-gone b.mods a.mods),
  assets_added-gone a.assets b.assets,
  sym (assets_added-gone b.assets a.assets),
)
