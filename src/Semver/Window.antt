-- ===== src/Semver/Window.antt =====
-- Version windows of src/registry/semver.rs: what an interval and a build suffix are read as.
use mathlib.Core.List.{reverse-append, reverse-reverse}
use smrt.Base.{
  ℕ, Ordering, ◌≡◌, refl, sym, ap, ◌∙◌, ◌↔◌, ◌⊎◌, Bool, true, false, ◌||◌, none, some, [], ◌∷◌,
  ◌++◌, map, reverse, arith, if◌then◌else◌, ◌==◌, ℕ-Eq, ◌>>=◌, contains, Text, txt, text_eq,
  Text-Eq, is_whitespace, trim_start, trim, split_once,
}
use smrt.Semver.{cmp, parse, inner, above, below, interval, in_range, to_ascii_lower}

split_once-append :
    (sep : ℕ) (s t : Text) → contains s sep ≡ false → split_once sep (s ++ sep ∷ t) ≡ (s, some t)
unfolding split_once
split_once-append sep [] t h = ground arith
split_once-append sep (c ∷ s) t h = ground (arith, split_once-append sep s t)

split_once-none : (sep : ℕ) (s : Text) → contains s sep ≡ false → split_once sep s ≡ (s, none)
unfolding split_once
split_once-none sep [] h = refl
split_once-none sep (c ∷ s) h = ground (arith, split_once-none sep s)

reverse-concat : (c d : ℕ) (m : Text) → reverse (c ∷ (m ++ d ∷ [])) ≡ d ∷ reverse (c ∷ m)
reverse-concat c d m = reverse-append (c ∷ m) (d ∷ [])

-- a text between two code points that are no white space
trim_bracketed :
    (c d : ℕ) (m : Text)
    → is_whitespace c ≡ false
    → is_whitespace d ≡ false
    → trim (c ∷ (m ++ d ∷ [])) ≡ c ∷ (m ++ d ∷ [])
unfolding trim trim_start
trim_bracketed c d m h k =
    rw h (
      rw (reverse-concat c d m)
        (rw k (ap reverse (sym (reverse-concat c d m)) ∙ reverse-reverse _)))

inner_bracketed : (c d : ℕ) (m : Text) → inner (c ∷ (m ++ d ∷ [])) ≡ m
unfolding inner
inner_bracketed c d m = rw (reverse-append m (d ∷ [])) (reverse-reverse m)

-- the brackets of an interval
abbrev pub opening : Bool → ℕ
opening true = b'['
opening false = b'('

abbrev pub closing : Bool → ℕ
closing true = b']'
closing false = b')'

abbrev pub window : Bool → Text → Text → Bool → Text
window lower_inc lo hi upper_inc = opening lower_inc ∷ ((lo ++ b',' ∷ hi) ++ closing upper_inc ∷ [])

opening_plain : (b : Bool) → is_whitespace (opening b) ≡ false
unfolding is_whitespace
opening_plain true = refl
opening_plain false = refl

closing_plain : (b : Bool) → is_whitespace (closing b) ≡ false
unfolding is_whitespace
closing_plain true = refl
closing_plain false = refl

interval-window :
    (version lo hi : Text) (i j : Bool)
    → contains lo b',' ≡ false
    → interval version (window i lo hi j)
      ≡ (do ok ← above i version (trim lo); if ok then below j version (trim hi) else some false)
unfolding interval
interval-window version lo hi i j h = ground (
  arith,
  inner_bracketed (opening i) (closing j) (lo ++ b',' ∷ hi),
  split_once-append b',' lo hi h,
  reverse-concat (opening i) (closing j) (lo ++ b',' ∷ hi),
)

-- no interval is one of the two texts that stand for any version
window_ne_words :
    (lo hi : Text) (i j : Bool)
    → let r = window i lo hi j in (r == txt "*" || map to_ascii_lower r == txt "any") ≡ false
unfolding txt text_eq to_ascii_lower
window_ne_words lo hi true j = refl
window_ne_words lo hi false j = refl

in_range-window :
    (version lo hi : Text) (i j : Bool)
    → contains lo b',' ≡ false
    → in_range version (window i lo hi j)
      ≡ (do ok ← above i version (trim lo); if ok then below j version (trim hi) else some false)
unfolding in_range
in_range-window version lo hi i j h =
    rw
      (
        trim_bracketed (opening i) (closing j) (lo ++ b',' ∷ hi) (opening_plain i)
            (closing_plain j),
        window_ne_words lo hi i j,
      )
      (ground (arith, interval-window version lo hi i j h))

-- the version stands above the bound, or on it where the bracket includes it
abbrev pub IsAbove : Bool → Text → Text → Type 0
IsAbove inc version lo =
    (lo ≡ [])
    ⊎ (cmp version lo ≡ some Ordering.gt)
    ⊎ ((cmp version lo ≡ some Ordering.eq) × (inc ≡ true))

abbrev pub IsBelow : Bool → Text → Text → Type 0
IsBelow inc version hi =
    (hi ≡ [])
    ⊎ (cmp version hi ≡ some Ordering.lt)
    ⊎ ((cmp version hi ≡ some Ordering.eq) × (inc ≡ true))

above_iff :
    (inc : Bool) (version lo : Text) → (above inc version lo ≡ some true) ↔ IsAbove inc version lo
unfolding above
above_iff inc version [] = ground arith
above_iff inc version (c ∷ lo) = ground arith

below_iff :
    (inc : Bool) (version hi : Text) → (below inc version hi ≡ some true) ↔ IsBelow inc version hi
unfolding below
below_iff inc version [] = ground arith
below_iff inc version (c ∷ hi) = ground arith

-- A version is in an interval `[lo,hi]`, with square or round brackets, exactly when it compares
-- above the lower bound and below the upper one, where a square bracket includes its bound and an
-- empty bound is no bound. The bounds are read without the white space round them, and the lower
-- one holds no comma.
pub in_range-window_iff :
    (version lo hi : Text) (i j : Bool)
    → contains lo b',' ≡ false
    → (in_range version (window i lo hi j) ≡ some true)
      ↔ (IsAbove i version (trim lo) × IsBelow j version (trim hi))
in_range-window_iff version lo hi i j h = ground (
  arith,
  in_range-window version lo hi i j h,
  above_iff i version (trim lo),
  below_iff j version (trim hi),
)

parse-metadata :
    (s m : Text)
    → trim s ≡ s
    → trim (s ++ b'+' ∷ m) ≡ s ++ b'+' ∷ m
    → contains s b'+' ≡ false
    → parse (s ++ b'+' ∷ m) ≡ parse s
unfolding parse
parse-metadata s m h k p = rw (h, k, split_once-append b'+' s m p, split_once-none b'+' s p)

-- Build metadata behind a `+` does not change how a version compares, on either side, where the
-- version has no `+` of its own and neither text starts or ends in white space.
pub cmp-metadata :
    (s m t : Text)
    → trim s ≡ s
    → trim (s ++ b'+' ∷ m) ≡ s ++ b'+' ∷ m
    → contains s b'+' ≡ false
    → (cmp (s ++ b'+' ∷ m) t ≡ cmp s t) × (cmp t (s ++ b'+' ∷ m) ≡ cmp t s)
unfolding cmp
cmp-metadata s m t h k p = let e = parse-metadata s m h k p in (rw e, rw e)
