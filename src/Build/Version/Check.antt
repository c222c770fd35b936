-- ===== src/Build/Version/Check.antt =====
-- The version check of src/authoring/build.rs and the automatic build number agree.
use smrt.Base.{
  ℕ, ◌≡◌, refl, sym, ap, ◌∙◌, ◌≢◌, ◌↔◌, inl, inr, Bool, true, false, not, ◌||◌, Option, none, some,
  List, [], ◌∷◌, ◌++◌, Memᴰ, arith, nat_eq, nat_eq_iff, if◌then◌else◌, ℕ-Eq, Bool-cases, all,
  contains, contains_iff, Text, txt, Text-Eq, strip_prefix, prepend, split, is_digit, show,
}
use mathlib.Core.List.Memᴰ
use smrt.Base.Numerals.{show-digits}
use smrt.Domain.Pack.{PackConfig}
use smrt.Build.Version.{
  next_counter, next_auto_version, is_separator, is_nil, check_segments, body_from, body_of,
  validate_pack_version, version, base_of, resolve_auto_version,
}

-- a text without a separator behind one
split-append :
    (sep : ℕ → Bool) (s t : Text) (c : ℕ)
    → sep c ≡ true
    → ((d : ℕ) → Memᴰ d t → sep d ≡ false)
    → split sep (s ++ c ∷ t) ≡ split sep s ++ (t ∷ [])
unfolding split
split-append sep [] t c h plain = rw h (ap (λ (l : List Text). [] ∷ l) (split-plain t plain))
  where
    split-plain : (u : Text) → ((d : ℕ) → Memᴰ d u → sep d ≡ false) → split sep u ≡ u ∷ []
    split-plain [] q = refl
    split-plain (d ∷ u) q = rw (q d (Memᴰ.head refl), split-plain u (λ e m. q e (Memᴰ.tail m)))
split-append sep (d ∷ s) t c h plain =
    rw (split-append sep s t c h plain) (pieces (split sep s) (split_ne_nil s) (sep d))
  where
    split_ne_nil : (u : Text) → split sep u ≢ []
    split_ne_nil [] e = cc
    split_ne_nil (a ∷ u) e = either (sep a) (split sep u) e
      where
        either : (b : Bool) (l : List Text) → (if b then [] ∷ l else prepend a l) ≢ []
        either true l q = cc
        either false [] q = cc
        either false (x ∷ l) q = cc

    pieces :
        (l : List Text)
        → l ≢ []
        → (b : Bool)
        → (if b then [] ∷ (l ++ (t ∷ [])) else prepend d (l ++ (t ∷ [])))
          ≡ (if b then [] ∷ l else prepend d l) ++ (t ∷ [])
    pieces [] ne b = absurd (ne refl)
    pieces (x ∷ l) ne true = refl
    pieces (x ∷ l) ne false = refl

-- the check of the segments, with a good one behind them
check_segments-append :
    (segs : List Text) (seg : Text)
    → (is_nil seg || not (all is_digit seg)) ≡ false
    → check_segments (segs ++ (seg ∷ [])) ≡ check_segments segs
unfolding check_segments
check_segments-append [] seg h = rw h
check_segments-append (s ∷ segs) seg h = ground (arith, check_segments-append segs seg h)

abbrev and_dot : Text → Option Text → Option Text
and_dot t none = none
and_dot t (some r) = some (r ++ b'.' ∷ t)

-- `SNAPSHOT-` holds no dot, so it is a prefix of a text only where it is one of what stands before
-- the dot
strip_prefix-dot :
    (p s t : Text)
    → ((d : ℕ) → Memᴰ d p → nat_eq d b'.' ≡ false)
    → strip_prefix p (s ++ b'.' ∷ t) ≡ and_dot t (strip_prefix p s)
unfolding strip_prefix
strip_prefix-dot [] s t h = refl
strip_prefix-dot (d ∷ p) [] t h = rw (h d (Memᴰ.head refl))
strip_prefix-dot (d ∷ p) (c ∷ s) t h =
    ground (arith, strip_prefix-dot p s t (λ e m. h e (Memᴰ.tail m)))

snapshot_plain : contains (txt "SNAPSHOT-") b'.' ≡ false
unfolding txt
snapshot_plain = refl

snapshot_no_dot : (d : ℕ) → Memᴰ d (txt "SNAPSHOT-") → nat_eq d b'.' ≡ false
snapshot_no_dot d m = elim (Bool-cases (nat_eq d b'.')) [
  | inl e ↦ cc (
    snapshot_plain,
    (contains_iff (txt "SNAPSHOT-") b'.').1 (Memᴰ.cast (sym ((nat_eq_iff d b'.').0 e)) m),
  )
  | inr e ↦ e
]

body_of-append : (b t : Text) → body_of (b ++ b'.' ∷ t) ≡ body_of b ++ b'.' ∷ t
unfolding body_of
body_of-append b t =
    rw (strip_prefix-dot (txt "SNAPSHOT-") b t snapshot_no_dot)
      (of_option (strip_prefix (txt "SNAPSHOT-") b))
  where
    of_option :
        (o : Option Text) → body_from (b ++ b'.' ∷ t) (and_dot t o) ≡ body_from b o ++ b'.' ∷ t
    of_option none = refl
    of_option (some r) = refl

is_nil-body_of : (v : Text) → is_nil v ≡ true → is_nil (body_of v) ≡ true
unfolding body_of strip_prefix txt
is_nil-body_of [] h = refl
is_nil-body_of (c ∷ v) h = cc

check_segments_nil : (b : Text) → is_nil b ≡ true → check_segments (split is_separator b) ≢ none
unfolding check_segments split
check_segments_nil [] h e = cc
check_segments_nil (c ∷ b) h e = cc

-- the two tests for an empty text refuse nothing that the check of the segments would accept
validate_iff :
    (v : Text)
    → (validate_pack_version v ≡ none) ↔ (check_segments (split is_separator (body_of v)) ≡ none)
unfolding validate_pack_version
validate_iff v = ground (arith, is_nil-body_of v, check_segments_nil (body_of v))

good_segment :
    (t : Text)
    → t ≢ []
    → ((d : ℕ) → Memᴰ d t → is_digit d ≡ true)
    → (is_nil t || not (all is_digit t)) ≡ false
good_segment [] ne h = absurd (ne refl)
good_segment (c ∷ t) ne h = ground (arith, all_digits (c ∷ t) h)
  where
    all_digits : (u : Text) → ((d : ℕ) → Memᴰ d u → is_digit d ≡ true) → all is_digit u ≡ true
    all_digits [] q = refl
    all_digits (d ∷ u) q =
        ground (arith, q d (Memᴰ.head refl), all_digits u (λ e m. q e (Memᴰ.tail m)))

digit_no_separator : (d : ℕ) → is_digit d ≡ true → is_separator d ≡ false
unfolding is_digit
digit_no_separator d h = ground arith

-- A dot and a number behind a version change nothing about its validity.
validate-append :
    (b : Text) (n : ℕ)
    → (validate_pack_version (b ++ (txt "." ++ show n)) ≡ none) ↔ (validate_pack_version b ≡ none)
unfolding txt
validate-append b n =
    let (ne, digits) = show-digits n in
    let same : check_segments (split is_separator (body_of (b ++ b'.' ∷ show n)))
        ≡ check_segments (split is_separator (body_of b)) =
      rw
        (
          body_of-append b (show n),
          split-append is_separator (body_of b) (show n) b'.' refl
              (λ d m. digit_no_separator d (digits d m)),
        )
        (check_segments-append (split is_separator (body_of b)) (show n)
          (good_segment (show n) ne digits)) in
    let after = validate_iff (b ++ b'.' ∷ show n) in
    let before = validate_iff b in
    (λ h. before.1 (sym same ∙ after.0 h), λ h. after.1 (same ∙ before.0 h))

default_base_valid : validate_pack_version (txt "0.0") ≡ none
unfolding validate_pack_version body_of strip_prefix check_segments split is_digit txt
default_base_valid = refl

next_auto_version_valid :
    (base : Text) (existing : List Text)
    → (validate_pack_version (next_auto_version base existing) ≡ none)
      ↔ (validate_pack_version base ≡ none)
unfolding next_auto_version
next_auto_version_valid base existing = validate-append base (next_counter base existing)

-- The automatic version of a pack passes the check of versions exactly when the base line of its
-- config does, whatever versions were published before; a config without a base line builds.
pub resolve_auto_version_valid :
    (cfg : PackConfig) (existing : List Text)
    → ((resolve_auto_version cfg existing
          ≡ version (next_auto_version (base_of cfg.version) existing))
        ↔ (validate_pack_version (base_of cfg.version) ≡ none))
      × (cfg.version ≡ none → validate_pack_version (base_of cfg.version) ≡ none)
unfolding resolve_auto_version
resolve_auto_version_valid cfg existing =
    let next = next_auto_version (base_of cfg.version) existing in
    (
      ground (arith, next_auto_version_valid (base_of cfg.version) existing),
      λ e. rw e default_base_valid,
    )
