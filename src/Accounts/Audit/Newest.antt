-- ===== src/Accounts/Audit/Newest.antt =====
-- The order in which src/accounts/mod.rs lists its audit trail.
use mathlib.Core.List.Memᴰ
use mathlib.Core.Path.{subst}
use mathlib.Core.Logic.{⊎_elim}
use smrt.Table.{select, HasPrimaryKey}
use smrt.Accounts.Audit.{AuditRow, insert_newest, newest_first}
use smrt.Base.{
  ℕ, suc, ◌<◌, ◌≡◌, refl, sym, ap, ◌∙◌, ◌⊎◌, inl, inr, none, List, [], ◌∷◌, arith, ltb, ◌==◌, ℕ-Eq,
  Bool-cases, length, Memᴰ,
}

-- each row is newer than all behind it
abbrev pub IsNewestFirst : List AuditRow → Type 0
IsNewestFirst [] = Unit
IsNewestFirst (r ∷ rows) = ((y : AuditRow) → Memᴰ y rows → y.id < r.id) × IsNewestFirst rows

insert_newest-mem :
    (row y : AuditRow) (rows : List AuditRow)
    → Memᴰ y (insert_newest row rows)
    → (y ≡ row) ⊎ Memᴰ y rows
insert_newest-mem row y [] m = Memᴰ.cases_cons m
insert_newest-mem row y (r ∷ rows) m = elim (Bool-cases (ltb r.id row.id)) [
  | inl e ↦ Memᴰ.cases_cons (rw e at m)
  | inr e ↦
      ⊎_elim (λ q. inr (Memᴰ.head q))
        (λ k. ⊎_elim inl (λ l. inr (Memᴰ.tail l)) (insert_newest-mem row y rows k))
        (Memᴰ.cases_cons (rw e at m))
]

insert_newest-IsNewestFirst :
    (row : AuditRow) (rows : List AuditRow)
    → ((y : AuditRow) → Memᴰ y rows → ¬ (y.id ≡ row.id))
    → IsNewestFirst rows
    → IsNewestFirst (insert_newest row rows)
insert_newest-IsNewestFirst row [] other s = (λ y m. absurd (Memᴰ.not-nil m), tt)
insert_newest-IsNewestFirst row (r ∷ rows) other s = elim (Bool-cases (ltb r.id row.id)) [
  | inl e ↦ rw e (
    λ y m.
        ⊎_elim (λ q. subst (λ x. x.id < row.id) (sym q) (ground arith))
          (λ k. let older = s.0 y k in ground arith) (Memᴰ.cases_cons m),
    s,
  )
  | inr e ↦ rw e (
    λ y m.
        let apart = other r (Memᴰ.head refl) in
        ⊎_elim (λ q. subst (λ x. x.id < r.id) (sym q) (ground arith)) (s.0 y)
          (insert_newest-mem row y rows m),
    insert_newest-IsNewestFirst row rows (λ y m. other y (Memᴰ.tail m)) s.1,
  )
]

abbrev pub audit_key : AuditRow → ℕ
audit_key r = r.id

select-none :
    (rows : List AuditRow) (k : ℕ)
    → select audit_key k rows ≡ none
    → (y : AuditRow) → Memᴰ y rows
    → ¬ (y.id ≡ k)
unfolding select
select-none [] k h y m = absurd (Memᴰ.not-nil m)
select-none (r ∷ rows) k h y m = elim (Bool-cases (r.id == k)) [
  | inl e ↦ cc (rw e at h)
  | inr e ↦
      ⊎_elim (λ q same. ground (arith, ap audit_key q)) (select-none rows k (rw e at h) y)
        (Memᴰ.cases_cons m)
]

pub newest_first-mem :
    (y : AuditRow) (rows : List AuditRow) → Memᴰ y (newest_first rows) → Memᴰ y rows
newest_first-mem y [] m = m
newest_first-mem y (r ∷ rows) m =
    ⊎_elim Memᴰ.head (λ k. Memᴰ.tail (newest_first-mem y rows k))
      (insert_newest-mem r y (newest_first rows) m)

pub newest_first-IsNewestFirst :
    (rows : List AuditRow) → HasPrimaryKey audit_key rows → IsNewestFirst (newest_first rows)
newest_first-IsNewestFirst [] p = tt
newest_first-IsNewestFirst (r ∷ rows) p =
    insert_newest-IsNewestFirst r (newest_first rows)
      (λ y m. select-none rows r.id p.0 y (newest_first-mem y rows m))
      (newest_first-IsNewestFirst rows p.1)

length-insert_newest :
    (row : AuditRow) (rows : List AuditRow) → length (insert_newest row rows) ≡ suc (length rows)
length-insert_newest row [] = refl
length-insert_newest row (r ∷ rows) = ground (arith, length-insert_newest row rows)

pub length-newest_first : (rows : List AuditRow) → length (newest_first rows) ≡ length rows
length-newest_first [] = refl
length-newest_first (r ∷ rows) =
    length-insert_newest r (newest_first rows) ∙ ap suc (length-newest_first rows)
