-- ===== src/Depfill/Revision.antt =====
-- `merge_pulled` (src/authoring/depfill.rs) against what `edit_rev` (src/domain/pack.rs) hashes.
use smrt.Base.{
  ◌≡◌, refl, ap, ◌∙◌, Bool, true, false, List, [], ◌∷◌, ◌++◌, arith, ℕ-Eq, retain, Memᴰ-retain,
  Text, Text-Eq,
}
use mathlib.Core.List.{append-nil}
use smrt.Domain.Pack.{DeclaredMod, PackConfig, not_pulled, projected}
use smrt.Depfill.{present_keys, is_missing, is_pulled, merge_pulled}
use smrt.Depfill.Merge.{retain-none}

retain-append {ℓ} :
    {A : Type ℓ} (p : A → Bool) (xs ys : List A) → retain p (xs ++ ys) ≡ retain p xs ++ retain p ys
retain-append p [] ys = refl
retain-append p (x ∷ xs) ys = ground (arith, retain-append p xs ys)

declared_part :
    (saved : List DeclaredMod) (keys : List Text) (ms : List DeclaredMod)
    → retain not_pulled (ms ++ retain (is_missing keys) (retain is_pulled saved))
      ≡ retain not_pulled ms
declared_part saved keys ms =
    let carried = retain (is_missing keys) (retain is_pulled saved) in
    retain-append not_pulled ms carried
    ∙ ap (λ (rest : List DeclaredMod). retain not_pulled ms ++ rest)
        (retain-none not_pulled carried (λ m k.
          let old = ((Memᴰ-retain (is_missing keys) m (retain is_pulled saved)).0 k).0 in
          let on = ((Memᴰ-retain is_pulled m saved).0 old).1 in off m on))
    ∙ append-nil (retain not_pulled ms)
  where
    off : (m : DeclaredMod) → m.pulled ≡ true → not_pulled m ≡ false
    off m on = ground arith

-- The merge of pulled entries leaves what the edit revision is computed from as it was.
pub projected-merge_pulled :
    (saved incoming : PackConfig) → projected (merge_pulled saved incoming) ≡ projected incoming
unfolding projected merge_pulled
projected-merge_pulled saved incoming =
    ap (λ (ms : List DeclaredMod). record (projected incoming) { mods = ms })
      (declared_part saved.mods (present_keys incoming.mods) incoming.mods)
