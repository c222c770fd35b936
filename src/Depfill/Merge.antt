-- ===== src/Depfill/Merge.antt =====
-- `merge_pulled` (src/authoring/depfill.rs): what it carries over, and that once is enough.
use smrt.Base.{
  ◌≡◌, refl, sym, ap, ◌∙◌, ◌↔◌, ◌⊎◌, inl, inr, Bool, true, false, List, [], ◌∷◌, ◌++◌, Memᴰ, arith,
  ℕ-Eq, Bool-cases, retain, Memᴰ-append, Memᴰ-retain, contains, contains_iff, Text, txt, Text-Eq,
  append-cancel, code_ne,
}
use mathlib.Core.Logic.{⊎_elim}
use mathlib.Core.List.{append-nil}
use mathlib.Core.List.Memᴰ
use smrt.Domain.Pack.{SourceDecl, modrinth, smrt_cache, smrt_static, DeclaredMod, PackConfig}
use smrt.Domain.Pack.Distinct.{SameSource, Clash}
use smrt.Depfill.{source_identity, file_key, present_keys, is_missing, is_pulled, merge_pulled}

pub source_identity_iff :
    (a b : SourceDecl) → (source_identity a ≡ source_identity b) ↔ SameSource a b
unfolding source_identity txt
source_identity_iff (modrinth p v) (modrinth q w) =
    (append-cancel (txt "m:") p q, ap (λ (t : Text). txt "m:" ++ t))
source_identity_iff (smrt_cache s) (smrt_cache t) =
    (append-cancel (txt "c:") s t, ap (λ (u : Text). txt "c:" ++ u))
source_identity_iff (smrt_static s) (smrt_static t) =
    (append-cancel (txt "s:") s t, ap (λ (u : Text). txt "s:" ++ u))
source_identity_iff (modrinth p v) (smrt_cache t) =
    (λ h. absurd (code_ne 109 99 _ _ refl h), absurd)
source_identity_iff (modrinth p v) (smrt_static t) =
    (λ h. absurd (code_ne 109 115 _ _ refl h), absurd)
source_identity_iff (smrt_cache s) (modrinth q w) =
    (λ h. absurd (code_ne 99 109 _ _ refl h), absurd)
source_identity_iff (smrt_cache s) (smrt_static t) =
    (λ h. absurd (code_ne 99 115 _ _ refl h), absurd)
source_identity_iff (smrt_static s) (modrinth q w) =
    (λ h. absurd (code_ne 115 109 _ _ refl h), absurd)
source_identity_iff (smrt_static s) (smrt_cache t) =
    (λ h. absurd (code_ne 115 99 _ _ refl h), absurd)

source_identity-ne-file_key :
    (s : SourceDecl) (m : DeclaredMod) → ¬ (source_identity s ≡ file_key m)
unfolding source_identity txt
source_identity-ne-file_key (modrinth p v) m h = code_ne 109 102 _ _ refl h
source_identity-ne-file_key (smrt_cache s) m h = code_ne 99 102 _ _ refl h
source_identity-ne-file_key (smrt_static s) m h = code_ne 115 102 _ _ refl h

file_key_iff : (a b : DeclaredMod) → (file_key a ≡ file_key b) ↔ (a.filename ≡ b.filename)
file_key_iff a b =
    (append-cancel (txt "f:") a.filename b.filename, ap (λ (t : Text). txt "f:" ++ t))

mem-present_keys :
    (k : Text) (ms : List DeclaredMod)
    → Memᴰ k (present_keys ms)
      ↔ ((m : DeclaredMod) × Memᴰ m ms × ((k ≡ source_identity m.source) ⊎ (k ≡ file_key m)))
unfolding present_keys
mem-present_keys k [] = (λ m. absurd (Memᴰ.not-nil m), λ (m, a, _). absurd (Memᴰ.not-nil a))
mem-present_keys k (n ∷ ms) = (
  λ h. elim (Memᴰ.cases_cons h) [
    | inl e ↦ (n, Memᴰ.head refl, inl e)
    | inr r ↦ elim (Memᴰ.cases_cons r) [
      | inl e ↦ (n, Memᴰ.head refl, inr e)
      | inr q ↦ let (m, a, w) = (mem-present_keys k ms).0 q in (m, Memᴰ.tail a, w)
    ]
  ],
  λ (m, a, w). elim (Memᴰ.cases_cons a) [
    | inl e ↦ elim w [
      | inl s ↦ Memᴰ.head (s ∙ ap (λ (d : DeclaredMod). source_identity d.source) e)
      | inr f ↦ Memᴰ.tail (Memᴰ.head (f ∙ ap file_key e))
    ]
    | inr r ↦ Memᴰ.tail (Memᴰ.tail ((mem-present_keys k ms).1 (m, r, w)))
  ],
)

-- A mod of the list comes from the source of the given one or carries its filename.
abbrev pub IsCovered : List DeclaredMod → DeclaredMod → Type 0
IsCovered ms d = (m : DeclaredMod) × Memᴰ m ms × Clash d m

source-present :
    (d : DeclaredMod) (ms : List DeclaredMod)
    → Memᴰ (source_identity d.source) (present_keys ms)
      ↔ ((m : DeclaredMod) × Memᴰ m ms × SameSource d.source m.source)
source-present d ms = (
  λ h.
      let (m, a, w) = (mem-present_keys (source_identity d.source) ms).0 h in
      (
        m,
        a,
        ⊎_elim ((source_identity_iff d.source m.source).0)
            (λ e. absurd (source_identity-ne-file_key d.source m e)) w,
      ),
  λ (m, a, s).
      (mem-present_keys (source_identity d.source) ms).1
        (m, a, inl ((source_identity_iff d.source m.source).1 s)),
)

file-present :
    (d : DeclaredMod) (ms : List DeclaredMod)
    → Memᴰ (file_key d) (present_keys ms)
      ↔ ((m : DeclaredMod) × Memᴰ m ms × (d.filename ≡ m.filename))
file-present d ms = (
  λ h.
      let (m, a, w) = (mem-present_keys (file_key d) ms).0 h in
      (
        m,
        a,
        ⊎_elim (λ e. absurd (source_identity-ne-file_key m.source d (sym e))) ((file_key_iff d m).0)
            w,
      ),
  λ (m, a, s). (mem-present_keys (file_key d) ms).1 (m, a, inr ((file_key_iff d m).1 s)),
)

is_missing_iff :
    (ms : List DeclaredMod) (d : DeclaredMod)
    → (is_missing (present_keys ms) d ≡ true) ↔ (¬ IsCovered ms d)
unfolding is_missing
is_missing_iff ms d = (
  λ h (m, a, c).
      ⊎_elim
        (λ s. cc (
          h,
          (contains_iff (present_keys ms) (source_identity d.source)).1
              ((source-present d ms).1 (m, a, s)),
        ))
        (λ f.
          at_file h
            ((contains_iff (present_keys ms) (file_key d)).1 ((file-present d ms).1 (m, a, f))))
        c,
  λ free.
      both (Bool-cases (contains (present_keys ms) (source_identity d.source)))
        (Bool-cases (contains (present_keys ms) (file_key d))) free,
)
  where
    at_file :
        is_missing (present_keys ms) d ≡ true → contains (present_keys ms) (file_key d) ≡ true → ⊥
    at_file h e = ground arith

    both :
        (contains (present_keys ms) (source_identity d.source) ≡ true)
          ⊎ (contains (present_keys ms) (source_identity d.source) ≡ false)
        → (contains (present_keys ms) (file_key d) ≡ true)
          ⊎ (contains (present_keys ms) (file_key d) ≡ false)
        → ¬ IsCovered ms d
        → is_missing (present_keys ms) d ≡ true
    both (inl e) f free =
        let (m, a, s) =
          (source-present d ms).0
            ((contains_iff (present_keys ms) (source_identity d.source)).0 e) in
        absurd (free (m, a, inl s))
    both (inr e) (inl f) free =
        let (m, a, s) = (file-present d ms).0 ((contains_iff (present_keys ms) (file_key d)).0 f) in
        absurd (free (m, a, inr s))
    both (inr e) (inr f) free = ground arith

-- A merged config holds the incoming mods, and of the saved ones those that were pulled in and that
-- no incoming mod covers by its source or its filename; none else.
pub merge_pulled_mem :
    (saved incoming : PackConfig) (d : DeclaredMod)
    → Memᴰ d (merge_pulled saved incoming).mods ↔ (
        Memᴰ d incoming.mods
        ⊎ (Memᴰ d saved.mods × (d.pulled ≡ true) × (¬ IsCovered incoming.mods d)))
unfolding merge_pulled
merge_pulled_mem saved incoming d =
    let old = retain is_pulled saved.mods in
    let carried = retain (is_missing (present_keys incoming.mods)) old in
    let split = Memᴰ-append d incoming.mods carried in
    let kept = Memᴰ-retain (is_missing (present_keys incoming.mods)) d old in
    let pulled = Memᴰ-retain is_pulled d saved.mods in
    let covers = is_missing_iff incoming.mods d in
    (
      λ h.
          ⊎_elim inl
            (λ k. let (o, m) = kept.0 k in inr ((pulled.0 o).0, (pulled.0 o).1, covers.0 m))
            (split.0 h),
      ⊎_elim (λ a. split.1 (inl a))
          (λ (a, p, n). split.1 (inr (kept.1 (pulled.1 (a, p), covers.1 n)))),
    )

pub retain-none {ℓ} :
    {A : Type ℓ} (p : A → Bool) (xs : List A)
    → ((x : A) → Memᴰ x xs → p x ≡ false)
    → retain p xs ≡ []
retain-none p [] h = refl
retain-none p (x ∷ xs) h = rw (h x (Memᴰ.head refl)) (retain-none p xs (λ y m. h y (Memᴰ.tail m)))

nothing_missing :
    (saved incoming : PackConfig) (d : DeclaredMod)
    → Memᴰ d (retain is_pulled saved.mods)
    → is_missing (present_keys (merge_pulled saved incoming).mods) d ≡ false
nothing_missing saved incoming d m =
    let merged = (merge_pulled saved incoming).mods in
    let pulled = (Memᴰ-retain is_pulled d saved.mods).0 m in
    elim (Bool-cases (is_missing (present_keys merged) d)) [
      | inr e ↦ e
      | inl e ↦
          let free = (is_missing_iff merged d).0 e in
          absurd (
            free (
              d,
              (merge_pulled_mem saved incoming d).1 (
                  inr (
                    pulled.0,
                    pulled.1,
                    λ (c, k, w). free (c, (merge_pulled_mem saved incoming c).1 (inl k), w),
                  )),
              inr refl,
            ))
    ]

merge_pulled-none :
    (saved c : PackConfig)
    → retain (is_missing (present_keys c.mods)) (retain is_pulled saved.mods) ≡ []
    → merge_pulled saved c ≡ c
unfolding merge_pulled
merge_pulled-none saved c e =
    ap (λ (ms : List DeclaredMod). record c { mods = ms })
      (ap (λ (ms : List DeclaredMod). c.mods ++ ms) e ∙ append-nil c.mods)

-- A second merge of the same saved config adds nothing.
pub merge_pulled-merge_pulled :
    (saved incoming : PackConfig)
    → merge_pulled saved (merge_pulled saved incoming) ≡ merge_pulled saved incoming
merge_pulled-merge_pulled saved incoming =
    let merged = merge_pulled saved incoming in
    merge_pulled-none saved merged (
      retain-none (is_missing (present_keys merged.mods)) (retain is_pulled saved.mods)
        (nothing_missing saved incoming))
