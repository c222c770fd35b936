-- ===== src/Gate/Verdict.antt =====
-- What stops a publish (src/authoring/gate.rs), and that no finding is lost.
use smrt.Base.{
  ◌+◌, min, ◌≡◌, refl, ap, ◌∙◌, ◌↔◌, ◌⊎◌, inl, inr, Bool, false, List, [], ◌∷◌, ◌++◌, map, Memᴰ,
  arith, ℕ-Eq, Bool-cases, length, retain, length-append, length-map, Text, txt, text_eq_iff,
  Text-Eq,
}
use mathlib.Core.Logic.{⊎_elim}
use mathlib.Core.List.Memᴰ
use smrt.Gate.{
  MissingDep, ResolveReport, declared, unresolved_lines, check, is_declared, is_inferred,
  missing_line, mismatch_line, mixin_line, version_line, loader_line,
}

append-eq_nil {ℓ} : {A : Type ℓ} (xs ys : List A) → ((xs ++ ys) ≡ []) ↔ ((xs ≡ []) × (ys ≡ []))
append-eq_nil [] ys = ground arith
append-eq_nil (x ∷ xs) ys = ground arith

map-eq_nil {ℓ κ} : {A : Type ℓ} {B : Type κ} (f : A → B) (xs : List A) → (map f xs ≡ []) ↔ (xs ≡ [])
map-eq_nil f [] = ground arith
map-eq_nil f (x ∷ xs) = ground arith

retain-eq_nil {ℓ} :
    {A : Type ℓ} (p : A → Bool) (xs : List A)
    → (retain p xs ≡ []) ↔ ((x : A) → Memᴰ x xs → p x ≡ false)
retain-eq_nil p [] = (λ h x m. absurd (Memᴰ.not-nil m), λ h. refl)
retain-eq_nil p (x ∷ xs) = elim (Bool-cases (p x)) [
  | inl e ↦ rw e (λ h. cc, λ h. cc (e, h x (Memᴰ.head refl)))
  | inr e ↦ rw e (
    λ h y m. ⊎_elim (λ q. ap p q ∙ e) ((retain-eq_nil p xs).0 h y) (Memᴰ.cases_cons m),
    λ h. (retain-eq_nil p xs).1 (λ y m. h y (Memᴰ.tail m)),
  )
]

all_nil :
    (a b c d e : List Text)
    → ((a ++ (b ++ (c ++ (d ++ e)))) ≡ []) ↔ ((a ≡ []) × (b ≡ []) × (c ≡ []) × (d ≡ []) × (e ≡ []))
all_nil a b c d e = ground (
  arith,
  append-eq_nil a (b ++ (c ++ (d ++ e))),
  append-eq_nil b (c ++ (d ++ e)),
  append-eq_nil c (d ++ e),
  append-eq_nil d e,
)

-- The mirror derived the edge itself.
abbrev pub IsDerived : MissingDep → Type 0
IsDerived m = (m.source ≡ txt "inferred") ⊎ (m.source ≡ txt "harvested")

declared_iff : (m : MissingDep) → (declared m.source ≡ false) ↔ IsDerived m
unfolding declared
declared_iff m =
    ground (arith, text_eq_iff m.source (txt "inferred"), text_eq_iff m.source (txt "harvested"))

nothing_declared :
    (ms : List MissingDep)
    → (retain is_declared ms ≡ []) ↔ ((m : MissingDep) → Memᴰ m ms → IsDerived m)
nothing_declared ms =
    let n = retain-eq_nil is_declared ms in
    (λ h m k. (declared_iff m).0 (n.0 h m k), λ h. n.1 (λ m k. (declared_iff m).1 (h m k)))

-- The verdict is clear exactly when every missing dependency is one that the mirror derived, no artifact is for another
-- loader with nothing to bridge it, no required mixin misses its target, no dependency is outside
-- the window declared on it, and the pinned loader is in every window declared on it. Conflicts,
-- inferred dependencies, forced client edges and unidentified jars never block.
pub check_clear_iff :
    (r : ResolveReport)
    → ((check r).blocking ≡ []) ↔ (
        ((m : MissingDep) → Memᴰ m r.missing → IsDerived m)
        × (r.loader_mismatch ≡ [])
        × (r.mixin_gaps ≡ [])
        × (r.version_issues ≡ [])
        × (r.loader_version_issues ≡ []))
unfolding check
check_clear_iff r =
    let lines =
      all_nil (map missing_line (retain is_declared r.missing))
        (map mismatch_line r.loader_mismatch) (map mixin_line r.mixin_gaps)
        (map version_line r.version_issues) (map loader_line r.loader_version_issues) in
    let missing = map-eq_nil missing_line (retain is_declared r.missing) in
    let mismatch = map-eq_nil mismatch_line r.loader_mismatch in
    let mixin = map-eq_nil mixin_line r.mixin_gaps in
    let window = map-eq_nil version_line r.version_issues in
    let loader = map-eq_nil loader_line r.loader_version_issues in
    let none_declared = nothing_declared r.missing in
    (
      λ h.
          let (a, b, c, d, e) = lines.0 h in
          (none_declared.0 (missing.0 a), mismatch.0 b, mixin.0 c, window.0 d, loader.0 e),
      λ (a, b, c, d, e).
          lines.1 (missing.1 (none_declared.1 a), mismatch.1 b, mixin.1 c, window.1 d, loader.1 e),
    )

length-retain_split :
    (ms : List MissingDep)
    → length (retain is_declared ms) + length (retain is_inferred ms) ≡ length ms
length-retain_split [] = omega arith
length-retain_split (m ∷ ms) = ground (arith, length-retain_split ms)

length-unresolved_lines : (fs : List Text) → length (unresolved_lines fs) ≡ min 1 (length fs)
unfolding unresolved_lines
length-unresolved_lines [] = refl
length-unresolved_lines (f ∷ fs) = omega arith

-- Each finding is one line of the record, blocking or advisory; the unidentified jars share one.
pub check_records_all :
    (r : ResolveReport)
    → length (check r).blocking + length (check r).advisory
      ≡ length r.missing
        + length r.loader_mismatch
        + length r.mixin_gaps
        + length r.version_issues
        + length r.loader_version_issues
        + length r.conflicts
        + length r.optional_conflicts
        + length r.forced_client_attempts
        + min 1 (length r.unresolved)
unfolding check
check_records_all r = omega (
  arith,
  length-append {0},
  length-map {0, 0},
  length-unresolved_lines,
  length-retain_split r.missing,
)
