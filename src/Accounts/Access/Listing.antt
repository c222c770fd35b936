-- ===== src/Accounts/Access/Listing.antt =====
-- The two ways in which src/accounts/mod.rs answers who was granted what: one pack at a time, and all
-- at once.
use smrt.Base.{
  ◌≡◌, refl, sym, ap, ◌∙◌, ◌↔◌, inl, inr, Option, none, some, List, [], ◌∷◌, map, Memᴰ, arith, ◌==◌,
  ℕ-Eq, Bool-cases, Option-cases, ◌>>=◌, retain, Memᴰ-cons, Memᴰ-retain, Text, Text-Eq, text_lt, ℤ,
  int_eq_iff, ℤ-Eq,
}
use mathlib.Core.List.Memᴰ
use mathlib.Core.Option.{some_inj}
use mathlib.Core.Path.{subst}
use mathlib.Core.Logic.{⊎_elim}
use smrt.Keyed.{last_with, HasKeys, last_with-own, last_with-other}
use smrt.Table.{select, Pair-Eq, HasPrimaryKey}
use smrt.Table.Laws.{select-key}
use smrt.Accounts.{PackLevel, parse_level}
use smrt.Accounts.Access.{
  AccessRow, access_key, pack_access_level, packs_granted_to, order_by_pack, insert_by_pack,
  or_view,
}

-- `CHECK (level IN ('view', 'edit', 'own'))`
abbrev pub HasLevels : List AccessRow → Type 0
HasLevels rows =
    (row : AccessRow) → Memᴰ row rows → (level : PackLevel) × (parse_level row.level ≡ some level)

select-mem :
    (rows : List AccessRow) (k : Text × ℤ) (row : AccessRow)
    → select access_key k rows ≡ some row
    → Memᴰ row rows
unfolding select
select-mem [] k row h = cc
select-mem (r ∷ rows) k row h = elim (Bool-cases (access_key r == k)) [
  | inl q ↦ Memᴰ.head (sym (some_inj.0 (rw q at h)))
  | inr q ↦ Memᴰ.tail (select-mem rows k row (rw q at h))
]

select-none :
    (rows : List AccessRow) (k : Text × ℤ) (row : AccessRow)
    → select access_key k rows ≡ none
    → Memᴰ row rows
    → ¬ (access_key row ≡ k)
unfolding select
select-none [] k row h m e = absurd (Memᴰ.not-nil m)
select-none (r ∷ rows) k row h m e = elim (Bool-cases (access_key r == k)) [
  | inl q ↦ cc (rw q at h)
  | inr q ↦ elim (Memᴰ.cases_cons m) [
    | inl first ↦ cc (q, (Pair-Eq.same_iff (access_key r) k).1 (ap access_key (sym first) ∙ e))
    | inr rest ↦ select-none rows k row (rw q at h) rest e
  ]
]

insert-mem :
    (new row : AccessRow) (rows : List AccessRow)
    → Memᴰ row (insert_by_pack new rows) ↔ Memᴰ row (new ∷ rows)
insert-mem new row [] = (λ m. m, λ m. m)
insert-mem new row (r ∷ rows) = elim (Bool-cases (text_lt new.pack_id r.pack_id)) [
  | inl e ↦ rw e (λ m. m, λ m. m)
  | inr e ↦ rw e (
      ground (
        arith,
        insert-mem new row rows,
        Memᴰ-cons row r (insert_by_pack new rows),
        Memᴰ-cons row new rows,
        Memᴰ-cons row new (r ∷ rows),
        Memᴰ-cons row r rows,
      ))
]

order-mem :
    (row : AccessRow) (rows : List AccessRow) → Memᴰ row (order_by_pack rows) ↔ Memᴰ row rows
unfolding order_by_pack
order-mem row [] = (λ m. m, λ m. m)
order-mem row (r ∷ rows) = ground (
  arith,
  insert-mem r row (order_by_pack rows),
  Memᴰ-cons row r (order_by_pack rows),
  Memᴰ-cons row r rows,
  order-mem row rows,
)

abbrev pack_of : AccessRow → Text
pack_of row = row.pack_id

insert-HasKeys :
    (new : AccessRow) (rows : List AccessRow)
    → HasKeys pack_of (new ∷ rows)
    → HasKeys pack_of (insert_by_pack new rows)
insert-HasKeys new [] k = k
insert-HasKeys new (r ∷ rows) k = elim (Bool-cases (text_lt new.pack_id r.pack_id)) [
  | inl e ↦ rw e k
  | inr e ↦ rw e (
    λ y m q.
        ⊎_elim (λ same. k.0 r (Memᴰ.head refl) (sym q ∙ ap pack_of same)) (λ rest. k.1.0 y rest q)
          (Memᴰ.cases_cons ((insert-mem new y rows).0 m)),
    insert-HasKeys new rows (λ y m. k.0 y (Memᴰ.tail m), k.1.1),
  )
]

order-HasKeys :
    (rows : List AccessRow) → HasKeys pack_of rows → HasKeys pack_of (order_by_pack rows)
unfolding order_by_pack
order-HasKeys [] k = k
order-HasKeys (r ∷ rows) k =
    insert-HasKeys r (order_by_pack rows)
      (λ y m. k.0 y ((order-mem y rows).0 m), order-HasKeys rows k.1)

abbrev granted_to : ℤ → List AccessRow → List AccessRow
granted_to uid rows = retain (λ row. row.github_uid == uid) rows

pair_eq : {a b : Text} {i j : ℤ} → a ≡ b → i ≡ j → ◌≡◌ {A = Text × ℤ} (a, i) (b, j)
pair_eq p q = cc

key_eq :
    (a b : AccessRow)
    → a.pack_id ≡ b.pack_id
    → a.github_uid ≡ b.github_uid
    → access_key a ≡ access_key b
key_eq a b p q = cc

-- one person's rows are of different packs
granted-HasKeys :
    (rows : List AccessRow) (uid : ℤ)
    → HasPrimaryKey access_key rows
    → HasKeys pack_of (granted_to uid rows)
granted-HasKeys [] uid p = tt
granted-HasKeys (r ∷ rows) uid p = elim (Bool-cases (r.github_uid == uid)) [
  | inl e ↦ rw e (
    λ y m q.
        let (here, own) = (Memᴰ-retain (λ row. row.github_uid == uid) y rows).0 m in
        select-none rows (access_key r) y p.0 here (
          key_eq y r q
            ((int_eq_iff y.github_uid uid).0 own ∙ sym ((int_eq_iff r.github_uid uid).0 e))),
    granted-HasKeys rows uid p.1,
  )
  | inr e ↦ rw e (granted-HasKeys rows uid p.1)
]

abbrev grant_of : AccessRow → Text × PackLevel
grant_of row = (row.pack_id, or_view (parse_level row.level))

map-HasKeys :
    (rows : List AccessRow) → HasKeys pack_of rows → HasKeys (λ g. g.0) (map grant_of rows)
map-HasKeys [] k = tt
map-HasKeys (r ∷ rows) k = (
  λ g m q. let (y, here, e) = Memᴰ.of_map grant_of rows m in k.0 y here (ap (λ x. x.0) e ∙ q),
  map-HasKeys rows k.1,
)

-- the rows behind a person's grants
granted-mem :
    (rows : List AccessRow) (uid : ℤ) (row : AccessRow)
    → Memᴰ row (order_by_pack (granted_to uid rows)) ↔ (Memᴰ row rows × (row.github_uid ≡ uid))
granted-mem rows uid row =
    let order = order-mem row (granted_to uid rows) in
    let mine = Memᴰ-retain (λ r. r.github_uid == uid) row rows in
    let same = int_eq_iff row.github_uid uid in
    (
      λ m. ((mine.0 (order.0 m)).0, same.0 (mine.0 (order.0 m)).1),
      λ (m, e). order.1 (mine.1 (m, same.1 e)),
    )

level_or_view : (o : Option PackLevel) (level : PackLevel) → o ≡ some level → o ≡ some (or_view o)
level_or_view none level h = cc
level_or_view (some l) level h = refl

-- With one row for each pack and person, and levels that the schema allows, what one person is granted
-- on one pack is what the list of all their grants says of it.
pub pack_access_level-listing :
    (rows : List AccessRow) (uid : ℤ) (pack_id : Text)
    → HasPrimaryKey access_key rows
    → HasLevels rows
    → pack_access_level rows pack_id uid
      ≡ (last_with (λ g. g.0) pack_id (packs_granted_to rows uid) >>= λ g. some g.1)
unfolding pack_access_level packs_granted_to
pack_access_level-listing rows uid pack_id p levels =
    let mine = granted_to uid rows in
    let grants = map grant_of (order_by_pack mine) in
    let level_of : Option AccessRow → Option PackLevel = λ o. o >>= λ row. parse_level row.level in
    let grant_level : Option (Text × PackLevel) → Option PackLevel = λ o. o >>= λ g. some g.1 in
    let keys : HasKeys (λ g. g.0) grants =
      map-HasKeys (order_by_pack mine) (order-HasKeys mine (granted-HasKeys rows uid p)) in
    elim (Option-cases (select access_key (pack_id, uid) rows)) [
      | inl e ↦
          let out : last_with (λ g. g.0) pack_id grants ≡ none =
            last_with-other (λ g. g.0) pack_id grants
              (λ g m q.
                let (y, here, same) = Memᴰ.of_map grant_of (order_by_pack mine) m in
                let (stored, own) = (granted-mem rows uid y).0 here in
                select-none rows (pack_id, uid) y e stored
                  (pair_eq (ap (λ x. x.0) same ∙ q) own)) in
          ap level_of e ∙ sym (ap grant_level out)
      | inr (row, e) ↦
          let key : access_key row ≡ (pack_id, uid) =
            select-key access_key rows (pack_id, uid) row e in
          let stored = select-mem rows (pack_id, uid) row e in
          let (level, parsed) = levels row stored in
          let here = (granted-mem rows uid row).1 (stored, ap (λ k. k.1) key) in
          let found : last_with (λ g. g.0) pack_id grants ≡ some (grant_of row) =
            subst (λ k. last_with (λ g. g.0) k grants ≡ some (grant_of row)) (ap (λ k. k.0) key)
              (last_with-own (λ g. g.0) (grant_of row) grants keys (Memᴰ.map grant_of here)) in
          ap level_of e
          ∙ level_or_view (parse_level row.level) level parsed
          ∙ sym (ap grant_level found)
    ]
