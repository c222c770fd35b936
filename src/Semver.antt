-- ===== src/Semver.antt =====
-- src/registry/semver.rs: comparing plain dotted-numeric versions, and matching a version window.
pub mod Order
pub mod Window
pub mod Tests
use smrt.Base.{
  ℕ, zero, suc, ◌+◌, max, compare, Ordering, ◌≡◌, Bool, true, false, ◌&&◌, ◌||◌, not, Option, none,
  some, List, [], ◌∷◌, map, reverse, leb, ◌==◌, if◌then◌else◌, ℕ-Eq, Text-Eq, ◌>>=◌, length, get_or,
  drop, Text, txt, trim, strip_prefix, split_once, split, parse_u64,
}

-- The loop `for i in 0..n`, with `n` rounds left, from component `i` on; a missing component is 0.
unfoldable pub cmp_from : ℕ → ℕ → List ℕ → List ℕ → Ordering
cmp_from zero i pa pb = Ordering.eq
cmp_from (suc n) i pa pb =
    let rest = cmp_from n (i + 1) pa pb in
    elim (compare (get_or pa i 0) (get_or pb i 0)) [ Ordering.eq ↦ rest | ord ↦ ord ]

unfoldable pub cmp_parts : List ℕ → List ℕ → Ordering
cmp_parts pa pb = cmp_from (max (length pa) (length pb)) 0 pa pb

-- `strip_prefix(['v', 'V'])`
unfoldable pub drop_v : Text → Text
drop_v [] = []
drop_v (c ∷ s) = if c == b'v' || c == b'V' then s else c ∷ s

-- `map(..).collect::<Option<Vec<_>>>()`
unfoldable pub collect : List Text → Option (List ℕ)
collect [] = some []
collect (seg ∷ segs) = do n ← parse_u64 seg; ns ← collect segs; some (n ∷ ns)

abbrev pub is_dot : ℕ → Bool
is_dot c = c == b'.'

abbrev pub is_empty : Text → Bool
is_empty [] = true
is_empty (c ∷ s) = false

unfoldable pub parse : Text → Option (List ℕ)
parse s =
    let body = drop_v (split_once b'+' (trim s)).0 in
    if is_empty body then none else collect (split is_dot body)

unfoldable pub cmp : Text → Text → Option Ordering
cmp a b = do pa ← parse a; pb ← parse b; some (cmp_parts pa pb)

pub data Op : Type 0 where
  ge gt le lt eq lower : Op

-- what each comparator makes of the order of the version and its bound
unfoldable pub holds : Op → Ordering → Bool
holds ge Ordering.lt = false
holds ge _ = true
holds lower Ordering.lt = false
holds lower _ = true
holds gt Ordering.gt = true
holds gt _ = false
holds le Ordering.gt = false
holds le _ = true
holds lt Ordering.lt = true
holds lt _ = false
holds eq Ordering.eq = true
holds eq _ = false

-- the first entry of a table of prefixes that the text starts with
unfoldable pub strip_op : List (Text × Op) → Text → Option (Op × Text)
strip_op [] r = none
strip_op ((p, op) ∷ table) r =
    let rest = strip_op table r in elim (strip_prefix p r) [ some s ↦ some (op, s) | none ↦ rest ]

unfoldable pub ops : List (Text × Op)
unfolding txt
ops =
    (txt ">=", ge)
    ∷ (txt "<=", le)
    ∷ (txt "==", eq)
    ∷ (txt ">", gt)
    ∷ (txt "<", lt)
    ∷ (txt "=", eq)
    ∷ (txt "~", lower)
    ∷ (txt "^", lower)
    ∷ []

unfoldable pub split_op : Text → Op × Text
unfolding strip_op ops
split_op r = elim (strip_op ops r) [ some found ↦ found | none ↦ (ge, r) ]

abbrev pub starts : ℕ → Text → Bool
starts c [] = false
starts c (d ∷ s) = d == c

-- `&r[1..r.len() - 1]`, read only of a text that starts and ends in a bracket of its own
unfoldable pub inner : Text → Text
inner r = reverse (drop 1 (reverse (drop 1 r)))

-- the two halves of an interval; an empty bound is no bound
unfoldable pub above : Bool → Text → Text → Option Bool
above inc version lo = if is_empty lo then some true else do
  ord ← cmp version lo
  some (elim ord [ Ordering.lt ↦ false | Ordering.eq ↦ inc | Ordering.gt ↦ true ])

unfoldable pub below : Bool → Text → Text → Option Bool
below inc version hi = if is_empty hi then some true else do
  ord ← cmp version hi
  some (elim ord [ Ordering.lt ↦ true | Ordering.eq ↦ inc | Ordering.gt ↦ false ])

unfoldable pub interval : Text → Text → Option Bool
interval version r =
    let lower_inc = starts b'[' r in
    let upper_inc = starts b']' (reverse r) in
    let (first, second) = split_once b',' (inner r) in
    let lo = trim first in
    if not (upper_inc || starts b')' (reverse r)) then none else elim second [
      | none ↦ do ord ← cmp version lo; some (holds eq ord)
      | some h ↦ do
        ok ← above lower_inc version lo
        if ok then below upper_inc version (trim h) else some false
    ]

unfoldable pub to_ascii_lower : ℕ → ℕ
to_ascii_lower c = if leb b'A' c && leb c b'Z' then c + 32 else c

unfoldable pub in_range : Text → Text → Option Bool
in_range version range =
    let r = trim range in
    if is_empty r || r == txt "*" || map to_ascii_lower r == txt "any"
    then none
    else if starts b'[' r || starts b'(' r
    then interval version r
    else let (op, bound) = split_op r in do ord ← cmp version (trim bound); some (holds op ord)
