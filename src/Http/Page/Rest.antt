-- ===== src/Http/Page/Rest.antt =====
-- What the cursor of a page leaves of the audit trail of src/accounts/mod.rs.
use mathlib.Core.Path.{subst}
use mathlib.Core.Option.{some_inj}
use smrt.Accounts.Audit.{AuditRow, is_before}
use smrt.Http.Page.{last}
use smrt.Base.{
  ℕ, zero, suc, ◌<◌, ◌≡◌, refl, ap, inl, inr, true, Option, none, some, List, [], ◌∷◌, arith, ltb,
  ℕ-Eq, Bool-cases, drop, retain, take, Memᴰ, ℤ, pos, negsuc,
}
use smrt.Accounts.Audit.Newest.{IsNewestFirst}
use smrt.Http.Page.Cut.{last-mem, mem-take}

pub last_take-mem :
    (n : ℕ) (rows : List AuditRow) (row : AuditRow) → last (take n rows) ≡ some row → Memᴰ row rows
last_take-mem zero rows row h = cc
last_take-mem (suc n) [] row h = cc
last_take-mem (suc n) (r ∷ rows) row h =
    mem-take (suc n) row (r ∷ rows) (last-mem r row (take n rows) h)

pub drop-IsNewestFirst :
    (n : ℕ) (rows : List AuditRow) → IsNewestFirst rows → IsNewestFirst (drop n rows)
drop-IsNewestFirst zero rows s = s
drop-IsNewestFirst (suc n) [] s = tt
drop-IsNewestFirst (suc n) (r ∷ rows) s = drop-IsNewestFirst n rows s.1

pub mem-drop : (n : ℕ) (y : AuditRow) (rows : List AuditRow) → Memᴰ y (drop n rows) → Memᴰ y rows
mem-drop zero y rows m = m
mem-drop (suc n) y [] m = m
mem-drop (suc n) y (r ∷ rows) m = Memᴰ.tail (mem-drop n y rows m)

-- the rows that are older than all of these
retain_all :
    (n : ℕ) (rows : List AuditRow)
    → ((y : AuditRow) → Memᴰ y rows → y.id < n)
    → retain (is_before (some (pos n))) rows ≡ rows
retain_all n [] h = refl
retain_all n (r ∷ rows) h =
    let now = h r (Memᴰ.head refl) in
    let rest = retain_all n rows (λ y m. h y (Memᴰ.tail m)) in ground arith

-- behind the last row of a page stands what the page left
pub retain-drop :
    (n : ℕ) (rows : List AuditRow) (row : AuditRow)
    → IsNewestFirst rows
    → last (take n rows) ≡ some row
    → retain (is_before (some (pos row.id))) rows ≡ drop n rows
retain-drop zero rows row s h = cc
retain-drop (suc n) [] row s h = cc
retain-drop (suc zero) (r ∷ rows) row s h =
    let same : r ≡ row = some_inj.0 h in
    let rest = retain_all row.id rows (λ y m. subst (λ x. y.id < x.id) same (s.0 y m)) in
    let ids : r.id ≡ row.id = ap (λ x. x.id) same in ground arith
retain-drop (suc (suc n)) (r ∷ []) row s h =
    let ids : r.id ≡ row.id = ap (λ x. x.id) (some_inj.0 h) in ground arith
retain-drop (suc (suc n)) (r ∷ z ∷ rows) row s h =
    let older = s.0 row (mem-take (suc n) row (z ∷ rows) (last-mem z row (take n rows) h)) in
    let rest = retain-drop (suc n) (z ∷ rows) row s.1 h in ground arith

pub is_before-older :
    (before : Option ℤ) (row y : AuditRow)
    → is_before before row ≡ true
    → y.id < row.id
    → is_before before y ≡ true
is_before-older none row y h k = refl
is_before-older (some (pos n)) row y h k = ground arith
is_before-older (some (negsuc n)) row y h k = cc

pub retain-none : (rows : List AuditRow) → retain (is_before none) rows ≡ rows
retain-none [] = refl
retain-none (r ∷ rows) = ap (λ l. r ∷ l) (retain-none rows)

-- a cursor inside what an older cursor left
pub retain-retain :
    (before : Option ℤ) (n : ℕ) (rows : List AuditRow)
    → ((y : AuditRow) → y.id < n → is_before before y ≡ true)
    → retain (is_before (some (pos n))) (retain (is_before before) rows)
      ≡ retain (is_before (some (pos n))) rows
retain-retain before n [] h = refl
retain-retain before n (r ∷ rows) h =
    let rest = retain-retain before n rows h in
    elim (Bool-cases (is_before before r)) [
      | inl e ↦ rw (e, rest) refl
      | inr e ↦ elim (Bool-cases (ltb r.id n)) [
        | inl f ↦ absurd (cc (e, h r (ground arith)))
        | inr f ↦ rw (e, f, rest) refl
      ]
    ]
