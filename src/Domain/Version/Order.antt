-- ===== src/Domain/Version/Order.antt =====
-- The order of pack versions (src/domain/version.rs) and that of src/registry/semver.rs are one.
use smrt.Base.{
  ℕ, zero, suc, max, Ordering, ◌≡◌, refl, sym, ap, ◌∙◌, inl, inr, Option, none, some, List, [], ◌∷◌,
  map, arith, ℕ-Eq, Option-cases, length, get_or, drop, Text, Text-Eq, trim, split_once, split,
}
use native.Mathlib.Numerals.{add-one}
use smrt.Semver.{cmp_from, cmp_parts, cmp, parse, drop_v, collect}
use smrt.Semver.Order.{swap, cmp_parts-swap, cmp_parts_trans}
use smrt.Domain.Version.{
  segment, pack_version_tuple, resize, vec_cmp, compare_tuples, compare_pack_versions, is_dot,
}

-- the first of the resized components is the one that the other comparator reads
resize-drop :
    (n i : ℕ) (a : List ℕ)
    → resize (suc n) 0 (drop i a) ≡ get_or a i 0 ∷ resize n 0 (drop (suc i) a)
unfolding resize
resize-drop n zero [] = refl
resize-drop n (suc i) [] = refl
resize-drop n zero (x ∷ a) = refl
resize-drop n (suc i) (x ∷ a) = resize-drop n i a

resize-zero : (a : List ℕ) → resize 0 0 a ≡ []
unfolding resize
resize-zero a = refl

vec_cmp-resize :
    (n i : ℕ) (a b : List ℕ)
    → vec_cmp (resize n 0 (drop i a)) (resize n 0 (drop i b)) ≡ cmp_from n i a b
unfolding cmp_from vec_cmp
vec_cmp-resize zero i a b = rw (resize-zero (drop i a), resize-zero (drop i b))
vec_cmp-resize (suc n) i a b =
    rw (resize-drop n i a, resize-drop n i b)
      (ground (arith, add-one i, vec_cmp-resize n (suc i) a b))

pub compare_tuples-eq-cmp_parts : (a b : List ℕ) → compare_tuples a b ≡ cmp_parts a b
unfolding compare_tuples cmp_parts
compare_tuples-eq-cmp_parts a b = vec_cmp-resize (max (length a) (length b)) 0 a b

-- Swapping the arguments reverses the order of two pack versions.
pub compare_pack_versions-swap :
    (a b : Text) → compare_pack_versions b a ≡ swap (compare_pack_versions a b)
unfolding compare_pack_versions
compare_pack_versions-swap a b =
    simp compare_tuples-eq-cmp_parts (cmp_parts-swap (pack_version_tuple a) (pack_version_tuple b))

-- The order of pack versions is transitive, for each of its three answers.
pub compare_pack_versions_trans :
    (a b c : Text) (o : Ordering)
    → compare_pack_versions a b ≡ o
    → compare_pack_versions b c ≡ o
    → compare_pack_versions a c ≡ o
unfolding compare_pack_versions
compare_pack_versions_trans a b c o h k =
    compare_tuples-eq-cmp_parts _ _
    ∙ cmp_parts_trans _ (pack_version_tuple b) _ o (sym (compare_tuples-eq-cmp_parts _ _) ∙ h)
        (sym (compare_tuples-eq-cmp_parts _ _) ∙ k)

map-segment : (segs : List Text) (ns : List ℕ) → collect segs ≡ some ns → map segment segs ≡ ns
unfolding collect segment
map-segment [] ns h = cc
map-segment (seg ∷ segs) ns h = elim (Option-cases (collect segs)) [
  | inl e ↦ ground arith
  | inr (ms, e) ↦ ground (arith, map-segment segs ms e)
]

-- A text that the strict comparator reads as it stands: no white space round it, no leading `v`
-- and no `+`.
pub record IsBare (s : Text) : Type 0 where
  pub no_space : trim s ≡ s
  pub no_v : drop_v s ≡ s
  pub no_build : split_once b'+' s ≡ (s, none)

tuple_of_parse : (s : Text) (p : List ℕ) → IsBare s → parse s ≡ some p → pack_version_tuple s ≡ p
unfolding parse pack_version_tuple
tuple_of_parse s p b h =
    map-segment (split is_dot s) p
      (ground (arith, b.no_space, b.no_v, ap (λ (q : Text × Option Text). q.0) b.no_build))

-- Where the strict comparator of the registry answers for two bare versions, the lenient one of
-- pack versions gives the same answer.
pub compare-eq-cmp :
    (a b : Text) (o : Ordering)
    → IsBare a
    → IsBare b
    → cmp a b ≡ some o
    → compare_pack_versions a b ≡ o
unfolding cmp compare_pack_versions
compare-eq-cmp a b o ha hb h = elim (Option-cases (parse a)) [
  | inl e ↦ ground arith
  | inr (pa, ea) ↦ elim (Option-cases (parse b)) [
    | inl e ↦ ground arith
    | inr (pb, eb) ↦
        rw (tuple_of_parse a pa ha ea, tuple_of_parse b pb hb eb)
          (compare_tuples-eq-cmp_parts pa pb ∙ ground arith)
  ]
]
