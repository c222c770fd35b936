-- ===== src/Semver/Order.antt =====
-- The order of versions in src/registry/semver.rs.
use smrt.Base.{
  ℕ, zero, suc, ◌+◌, ◌-◌, ◌≤◌, ◌<◌, max, Ordering, ◌≡◌, refl, sym, ap, ◌∙◌, ◌↔◌, Option, none, some,
  List, [], ◌∷◌, length, get_or, Text, ◌>>=◌, arith,
}
use native.Mathlib.Decide.{ℕ_discrete}
use native.Mathlib.Nat.{zero-add, suc-add}
use smrt.Semver.{cmp_from, cmp_parts, cmp, parse}

-- the order seen from the other side
abbrev pub swap : Ordering → Ordering
swap Ordering.lt = Ordering.gt
swap Ordering.eq = Ordering.eq
swap Ordering.gt = Ordering.lt

-- the first order decides, unless it is a tie
abbrev pub or_then : Ordering → Ordering → Ordering
or_then Ordering.lt o = Ordering.lt
or_then Ordering.eq o = o
or_then Ordering.gt o = Ordering.gt

cmp_from-swap : (n i : ℕ) (a b : List ℕ) → cmp_from n i b a ≡ swap (cmp_from n i a b)
unfolding cmp_from
cmp_from-swap zero i a b = refl
cmp_from-swap (suc n) i a b = ground (arith, cmp_from-swap n (i + 1) a b)

cmp_from_trans :
    (n i : ℕ) (a b c : List ℕ) (o : Ordering)
    → cmp_from n i a b ≡ o
    → cmp_from n i b c ≡ o
    → cmp_from n i a c ≡ o
unfolding cmp_from
cmp_from_trans zero i a b c o h k = h
cmp_from_trans (suc n) i a b c o h k = ground (arith, cmp_from_trans n (i + 1) a b c o)

cmp_from_eq :
    (n i : ℕ) (a b c : List ℕ)
    → cmp_from n i a b ≡ Ordering.eq
    → cmp_from n i a c ≡ cmp_from n i b c
unfolding cmp_from
cmp_from_eq zero i a b c h = refl
cmp_from_eq (suc n) i a b c h = ground (arith, cmp_from_eq n (i + 1) a b c)

-- past both ends every component reads 0
cmp_from_past :
    (n i : ℕ) (a b : List ℕ) → length a ≤ i → length b ≤ i → cmp_from n i a b ≡ Ordering.eq
unfolding cmp_from
cmp_from_past zero i a b h k = refl
cmp_from_past (suc n) i a b h k =
    ground (arith, get_or_past a i h, get_or_past b i k, cmp_from_past n (i + 1) a b)
  where
    get_or_past : (l : List ℕ) (j : ℕ) → length l ≤ j → get_or l j 0 ≡ 0
    get_or_past [] j q = refl
    get_or_past (x ∷ l) zero q = absurd (omega arith)
    get_or_past (x ∷ l) (suc j) q = get_or_past l j (omega arith)

cmp_from_enough :
    (n m i : ℕ) (a b : List ℕ)
    → length a ≤ i + n
    → length b ≤ i + n
    → cmp_from (n + m) i a b ≡ cmp_from n i a b
unfolding cmp_from
cmp_from_enough zero m i a b h k = rw zero-add (cmp_from_past m i a b (omega arith) (omega arith))
cmp_from_enough (suc n) m i a b h k =
    rw suc-add (ground (arith, cmp_from_enough n m (i + 1) a b (omega arith) (omega arith)))

-- any number of rounds that covers both versions gives the same order
cmp_parts_rounds :
    (n : ℕ) (a b : List ℕ) → length a ≤ n → length b ≤ n → cmp_parts a b ≡ cmp_from n 0 a b
unfolding cmp_parts
cmp_parts_rounds n a b h k =
    let m = max (length a) (length b) in
    let e : n ≡ m + (n - m) = omega arith in
    rw e (sym (cmp_from_enough m (n - m) 0 a b (omega arith) (omega arith)))

pub cmp_parts-swap : (a b : List ℕ) → cmp_parts b a ≡ swap (cmp_parts a b)
cmp_parts-swap a b =
    let m = max (length a) (length b) in
    rw
      (
        cmp_parts_rounds m b a (omega arith) (omega arith),
        cmp_parts_rounds m a b (omega arith) (omega arith),
      )
      (cmp_from-swap m 0 a b)

pub cmp_parts_trans :
    (a b c : List ℕ) (o : Ordering) → cmp_parts a b ≡ o → cmp_parts b c ≡ o → cmp_parts a c ≡ o
cmp_parts_trans a b c o h k =
    let m = max (length a) (max (length b) (length c)) in
    cmp_parts_rounds m a c (omega arith) (omega arith)
    ∙ cmp_from_trans m 0 a b c o (sym (cmp_parts_rounds m a b (omega arith) (omega arith)) ∙ h)
        (sym (cmp_parts_rounds m b c (omega arith) (omega arith)) ∙ k)

pub cmp_parts_eq : (a b c : List ℕ) → cmp_parts a b ≡ Ordering.eq → cmp_parts a c ≡ cmp_parts b c
cmp_parts_eq a b c h =
    let m = max (length a) (max (length b) (length c)) in
    cmp_parts_rounds m a c (omega arith) (omega arith)
    ∙ cmp_from_eq m 0 a b c (sym (cmp_parts_rounds m a b (omega arith) (omega arith)) ∙ h)
    ∙ sym (cmp_parts_rounds m b c (omega arith) (omega arith))

cmp_from_refl : (n i : ℕ) (a : List ℕ) → cmp_from n i a a ≡ Ordering.eq
unfolding cmp_from
cmp_from_refl zero i a = refl
cmp_from_refl (suc n) i a = ground (arith, cmp_from_refl n (i + 1) a)

-- a tie in `n` rounds from component `i` on is an agreement of these components
cmp_from-eq_iff :
    (n i : ℕ) (a b : List ℕ)
    → (cmp_from n i a b ≡ Ordering.eq) ↔ ((j : ℕ) → i ≤ j → j < i + n → get_or a j 0 ≡ get_or b j 0)
unfolding cmp_from
cmp_from-eq_iff zero i a b = (λ h j p q. absurd (omega arith), λ h. refl)
cmp_from-eq_iff (suc n) i a b = (
  λ h j p q. elim (ℕ_discrete i j) [
    | yes e ↦ rw (← e) (ground arith)
    | no ne ↦ (cmp_from-eq_iff n (i + 1) a b).0 (ground arith) j (omega arith) (omega arith)
  ],
  λ h. ground (
    arith,
    h i (omega arith) (omega arith),
    (cmp_from-eq_iff n (i + 1) a b).1 (λ j p q. h j (omega arith) (omega arith)),
  ),
)

-- `cmp` on what the two texts were read as
abbrev cmp_read : Option (List ℕ) → Option (List ℕ) → Option Ordering
cmp_read p q = do pa ← p; pb ← q; some (cmp_parts pa pb)

cmp_read-swap : (p q : Option (List ℕ)) → cmp_read q p ≡ (do o ← cmp_read p q; some (swap o))
cmp_read-swap none none = refl
cmp_read-swap none (some b) = refl
cmp_read-swap (some a) none = refl
cmp_read-swap (some a) (some b) = ap {B = Option Ordering} some (cmp_parts-swap a b)

cmp_read_trans :
    (p q r : Option (List ℕ)) (o : Ordering)
    → cmp_read p q ≡ some o
    → cmp_read q r ≡ some o
    → cmp_read p r ≡ some o
cmp_read_trans (some a) (some b) (some c) o h k =
    ap {B = Option Ordering} some (cmp_parts_trans a b c o (cc) (cc))
cmp_read_trans none q r o h k = cc
cmp_read_trans (some a) none r o h k = cc
cmp_read_trans (some a) (some b) none o h k = cc

cmp_read_eq :
    (p q r : Option (List ℕ)) → cmp_read p q ≡ some Ordering.eq → cmp_read p r ≡ cmp_read q r
cmp_read_eq (some a) (some b) (some c) h = ap {B = Option Ordering} some (cmp_parts_eq a b c (cc))
cmp_read_eq none q r h = cc
cmp_read_eq (some a) none r h = cc
cmp_read_eq (some a) (some b) none h = refl

-- Swapping the arguments reverses the answer of `cmp`, and a refusal to answer stays a refusal.
pub cmp-swap : (a b : Text) → cmp b a ≡ (do o ← cmp a b; some (swap o))
unfolding cmp
cmp-swap a b = cmp_read-swap (parse a) (parse b)

-- An answer that `cmp` gives between a and b and between b and c it gives between a and c.
pub cmp_trans :
    (a b c : Text) (o : Ordering) → cmp a b ≡ some o → cmp b c ≡ some o → cmp a c ≡ some o
unfolding cmp
cmp_trans a b c o h k = cmp_read_trans (parse a) (parse b) (parse c) o h k

-- Versions that `cmp` calls equal compare alike with every third text, also with an unreadable one.
pub cmp_eq : (a b c : Text) → cmp a b ≡ some Ordering.eq → cmp a c ≡ cmp b c
unfolding cmp
cmp_eq a b c h = cmp_read_eq (parse a) (parse b) (parse c) h

-- Two readable versions are equal exactly when they agree in every component, where a component
-- that one of them lacks reads as 0.
pub cmp-eq_iff :
    (a b : Text) (pa pb : List ℕ)
    → parse a ≡ some pa
    → parse b ≡ some pb
    → (cmp a b ≡ some Ordering.eq) ↔ ((j : ℕ) → get_or pa j 0 ≡ get_or pb j 0)
unfolding cmp
cmp-eq_iff a b pa pb ha hb = (
  λ h j.
      let n = max (length pa) (max (length pb) (suc j)) in
      (cmp_from-eq_iff n 0 pa pb).0
        (sym (cmp_parts_rounds n pa pb (omega arith) (omega arith)) ∙ ground arith) j (omega arith)
        (omega arith),
  λ h.
      let n = max (length pa) (length pb) in
      rw (ha, hb)
        (ap {B = Option Ordering} some (
          cmp_parts_rounds n pa pb (omega arith) (omega arith)
          ∙ (cmp_from-eq_iff n 0 pa pb).1 (λ j p q. h j))),
)
