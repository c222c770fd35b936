-- ===== src/Domain/Pack/Distinct.antt =====
-- What `duplicate_declaration` (src/domain/pack.rs) refuses.
use smrt.Base.{
  ◌≡◌, refl, sym, ap, ◌↔◌, ◌⊎◌, inl, inr, false, none, List, [], ◌∷◌, ◌++◌, Memᴰ, arith, ℕ-Eq,
  Bool-cases, Option-cases, contains, contains_iff, Text, txt, Text-Eq, append-cancel, code_ne,
}
use mathlib.Core.Logic.{⊎_elim}
use mathlib.Core.List.Memᴰ
use smrt.Domain.Pack.{
  SourceDecl, modrinth, smrt_cache, smrt_static, DeclaredMod, DeclaredAsset, PackConfig,
  declared_identity, duplicate_mod, duplicate_asset, duplicate_declaration,
}

-- Two sources are one: the same project at any version, the same jar, the same file.
abbrev pub SameSource : SourceDecl → SourceDecl → Type 0
SameSource (modrinth p _) (modrinth q _) = p ≡ q
SameSource (smrt_cache a) (smrt_cache b) = a ≡ b
SameSource (smrt_static a) (smrt_static b) = a ≡ b
SameSource _ _ = ⊥

-- Two declarations that a pack must not hold together.
abbrev pub Clash : DeclaredMod → DeclaredMod → Type 0
Clash a b = SameSource a.source b.source ⊎ (a.filename ≡ b.filename)

abbrev pub IsDistinct : List DeclaredMod → Type 0
IsDistinct [] = Unit
IsDistinct (m ∷ ms) = ((d : DeclaredMod) → Memᴰ d ms → ¬ Clash m d) × IsDistinct ms

pub declared_identity_iff :
    (a b : SourceDecl) → (declared_identity a ≡ declared_identity b) ↔ SameSource a b
unfolding declared_identity txt
declared_identity_iff (modrinth p v) (modrinth q w) =
    (append-cancel (txt "modrinth project ") p q, ap (λ (t : Text). txt "modrinth project " ++ t))
declared_identity_iff (smrt_cache s) (smrt_cache t) =
    (append-cancel (txt "cache jar ") s t, ap (λ (u : Text). txt "cache jar " ++ u))
declared_identity_iff (smrt_static s) (smrt_static t) =
    (append-cancel (txt "static file ") s t, ap (λ (u : Text). txt "static file " ++ u))
declared_identity_iff (modrinth p v) (smrt_cache t) =
    (λ h. absurd (code_ne 109 99 _ _ refl h), absurd)
declared_identity_iff (modrinth p v) (smrt_static t) =
    (λ h. absurd (code_ne 109 115 _ _ refl h), absurd)
declared_identity_iff (smrt_cache s) (modrinth q w) =
    (λ h. absurd (code_ne 99 109 _ _ refl h), absurd)
declared_identity_iff (smrt_cache s) (smrt_static t) =
    (λ h. absurd (code_ne 99 115 _ _ refl h), absurd)
declared_identity_iff (smrt_static s) (modrinth q w) =
    (λ h. absurd (code_ne 115 109 _ _ refl h), absurd)
declared_identity_iff (smrt_static s) (smrt_cache t) =
    (λ h. absurd (code_ne 115 99 _ _ refl h), absurd)

not_contained_iff : (xs : List Text) (x : Text) → (contains xs x ≡ false) ↔ (¬ Memᴰ x xs)
not_contained_iff xs x = elim (Bool-cases (contains xs x)) [
  | inl e ↦ (λ h. absurd (cc (e, h)), λ h. absurd (h ((contains_iff xs x).0 e)))
  | inr e ↦ (λ h m. absurd (cc (e, (contains_iff xs x).1 m)), λ h. e)
]

-- no mod of the list has its identity or its name among those already inserted
abbrev AreNew : List Text → List Text → List DeclaredMod → Type 0
AreNew ids names ms =
    (d : DeclaredMod)
    → Memᴰ d ms
    → (¬ Memᴰ (declared_identity d.source) ids) × (¬ Memᴰ d.filename names)

AreNew-cons :
    (ids names : List Text) (m : DeclaredMod) (ms : List DeclaredMod)
    → (AreNew ids names (m ∷ ms) × IsDistinct (m ∷ ms)) ↔ (
        (¬ Memᴰ (declared_identity m.source) ids)
        × (¬ Memᴰ m.filename names)
        × AreNew (declared_identity m.source ∷ ids) (m.filename ∷ names) ms
        × IsDistinct ms)
AreNew-cons ids names m ms = (to, from)
  where
    to :
        AreNew ids names (m ∷ ms) × IsDistinct (m ∷ ms)
        → (¬ Memᴰ (declared_identity m.source) ids)
          × (¬ Memᴰ m.filename names)
          × AreNew (declared_identity m.source ∷ ids) (m.filename ∷ names) ms
          × IsDistinct ms
    to (new, rest) = (
      (new m (Memᴰ.head refl)).0,
      (new m (Memᴰ.head refl)).1,
      λ d k. (
        λ q.
            ⊎_elim (λ e. rest.0 d k (inl ((declared_identity_iff m.source d.source).0 (sym e))))
              (new d (Memᴰ.tail k)).0 (Memᴰ.cases_cons q),
        λ q. ⊎_elim (λ e. rest.0 d k (inr (sym e))) (new d (Memᴰ.tail k)).1 (Memᴰ.cases_cons q),
      ),
      rest.1,
    )

    from :
        (¬ Memᴰ (declared_identity m.source) ids)
          × (¬ Memᴰ m.filename names)
          × AreNew (declared_identity m.source ∷ ids) (m.filename ∷ names) ms
          × IsDistinct ms
        → AreNew ids names (m ∷ ms) × IsDistinct (m ∷ ms)
    from (id, name, new, distinct) = (
      λ d k. elim (Memᴰ.cases_cons k) [
        | inl e ↦ rw e (id, name)
        | inr r ↦ (λ q. (new d r).0 (Memᴰ.tail q), λ q. (new d r).1 (Memᴰ.tail q))
      ],
      (
        λ d k clash.
            ⊎_elim
              (λ e. (new d k).0 (Memᴰ.head (sym ((declared_identity_iff m.source d.source).1 e))))
              (λ e. (new d k).1 (Memᴰ.head (sym e))) clash,
        distinct,
      ),
    )

duplicate_mod-cons :
    (ids names : List Text) (m : DeclaredMod) (ms : List DeclaredMod)
    → (duplicate_mod ids names (m ∷ ms) ≡ none) ↔ (
        (contains ids (declared_identity m.source) ≡ false)
        × (contains names m.filename ≡ false)
        × (duplicate_mod (declared_identity m.source ∷ ids) (m.filename ∷ names) ms ≡ none))
unfolding duplicate_mod
duplicate_mod-cons ids names m ms = ground arith

duplicate_mod_iff :
    (ids names : List Text) (ms : List DeclaredMod)
    → (duplicate_mod ids names ms ≡ none) ↔ (AreNew ids names ms × IsDistinct ms)
unfolding duplicate_mod
duplicate_mod_iff ids names [] = (λ h. (λ d m. absurd (Memᴰ.not-nil m), tt), λ h. refl)
duplicate_mod_iff ids names (m ∷ ms) =
    let id = declared_identity m.source in
    let step = duplicate_mod-cons ids names m ms in
    let rest = duplicate_mod_iff (id ∷ ids) (m.filename ∷ names) ms in
    let a = not_contained_iff ids id in
    let b = not_contained_iff names m.filename in
    let c = AreNew-cons ids names m ms in
    (
      λ h. let (x, y, r) = step.0 h in c.1 (a.0 x, b.0 y, (rest.0 r).0, (rest.0 r).1),
      λ h. let (x, y, r, d) = c.0 h in step.1 (a.1 x, b.1 y, rest.1 (r, d)),
    )

-- No two assets share a destination, and none has one of the list's.
abbrev pub HasNewDests : List Text → List DeclaredAsset → Type 0
HasNewDests dests [] = Unit
HasNewDests dests (a ∷ rest) = (¬ Memᴰ a.dest dests) × HasNewDests (a.dest ∷ dests) rest

duplicate_asset_iff :
    (dests : List Text) (assets : List DeclaredAsset)
    → (duplicate_asset dests assets ≡ none) ↔ HasNewDests dests assets
unfolding duplicate_asset
duplicate_asset_iff dests [] = (λ h. tt, λ h. refl)
duplicate_asset_iff dests (a ∷ rest) =
    let ih = duplicate_asset_iff (a.dest ∷ dests) rest in
    let n = not_contained_iff dests a.dest in
    (λ h. (n.0 (ground arith), ih.0 (ground arith)), λ (x, y). step (n.1 x) (ih.1 y))
  where
    step :
        contains dests a.dest ≡ false
        → duplicate_asset (a.dest ∷ dests) rest ≡ none
        → duplicate_asset dests (a ∷ rest) ≡ none
    step x y = ground arith

-- A config is free of duplicates, by the test of the code, exactly when no two of its mods come
-- from one source or carry one filename, and no two of its assets land on one destination.
pub duplicate_declaration_iff :
    (cfg : PackConfig)
    → (duplicate_declaration cfg ≡ none) ↔ (IsDistinct cfg.mods × HasNewDests [] cfg.assets)
unfolding duplicate_declaration
duplicate_declaration_iff cfg = elim (Option-cases (duplicate_mod [] [] cfg.mods)) [
  | inl e ↦
      rw (e, duplicate_declaration)
        (
          λ h.
              (((duplicate_mod_iff [] [] cfg.mods).0 e).1, (duplicate_asset_iff [] cfg.assets).0 h),
          λ h. (duplicate_asset_iff [] cfg.assets).1 h.1,
        )
  | inr (d, e) ↦
      rw (e, duplicate_declaration)
        (
          λ h. absurd (cc h),
          λ h. absurd (
              cc (
                e,
                (duplicate_mod_iff [] [] cfg.mods).1 (λ d m. (Memᴰ.not-nil, Memᴰ.not-nil), h.0),
              )),
        )
]
