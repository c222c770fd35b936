-- ===== src/Accounts/Access/Laws.antt =====
-- Granting, revoking, blocking and suspending in src/accounts/mod.rs as updates of maps: what is read
-- afterwards, for the person concerned and for all others.
use smrt.Base.{
  ℕ, ◌≡◌, refl, ap, ◌∙◌, ◌↔◌, inl, inr, true, false, not, ◌&&◌, Option, none, some, List, [], ◌∷◌,
  arith, if◌then◌else◌, ◌==◌, ℕ-Eq, Bool-cases, ◌>>=◌, retain, Text, txt, text_eq_iff, Text-Eq, ℤ,
  int_eq_iff, ℤ-Eq,
}
use mathlib.Core.Path.{subst}
use smrt.Base.Results.{err, ok, ok_inj}
use smrt.Table.{select, Pair-Eq, pair_eq_iff, HasPrimaryKey}
use smrt.Table.Laws.{
  select-upsert_same, select-upsert_other, select-delete_same, select-delete_other, reaches_iff,
  upsert-HasPrimaryKey, delete-HasPrimaryKey, changed,
}
use smrt.Accounts.{
  User, Suspension, PackLevel, level_str, parse_level, parse_level-level_str, break_glass_uid,
}
use smrt.Accounts.Access.{
  AccessRow, access_key, pack_access_level, SuspensionRow, suspension_key, login_of,
  grant_pack_access, forget_pack_access, revoke_pack_access, suspend_account, suspension_of,
  lift_suspension,
}

-- what a guarded upsert answers, when it answers
guarded {ℓ} :
    {A : Type ℓ} (uid : ℤ) (message : Text) (x y : A)
    → (if uid == break_glass_uid then err message else ok x) ≡ ok y
    → (¬ (uid ≡ break_glass_uid)) × (x ≡ y)
guarded uid message x y h = elim (Bool-cases (uid == break_glass_uid)) [
  | inl e ↦ cc (rw e at h)
  | inr e ↦ (λ q. cc (e, (int_eq_iff uid break_glass_uid).1 q), ok_inj x y (rw e at h))
]

abbrev level_of : Option AccessRow → Option PackLevel
level_of o = o >>= λ row. parse_level row.level

-- what a row says after an upsert that writes the level
level_written :
    (fresh : AccessRow) (change : AccessRow → AccessRow) (o : Option AccessRow) (level : PackLevel)
    → fresh.level ≡ level_str level
    → ((row : AccessRow) → (change row).level ≡ level_str level)
    → parse_level (changed access_key fresh change o).level ≡ some level
level_written fresh change none level h k = ap parse_level h ∙ parse_level-level_str level
level_written fresh change (some row) level h k =
    ap parse_level (k row) ∙ parse_level-level_str level

-- the tests on both columns are the test on the key
keys_differ :
    (other pack_id : Text) (person uid : ℤ)
    → ((other == pack_id) && (person == uid)) ≡ false
    → ¬ (◌≡◌ {A = Text × ℤ} (other, person) (pack_id, uid))
keys_differ other pack_id person uid h q = cc (h, (pair_eq_iff (other, person) (pack_id, uid)).1 q)

keys_same :
    (other pack_id : Text) (person uid : ℤ)
    → ((other == pack_id) && (person == uid)) ≡ true
    → ◌≡◌ {A = Text × ℤ} (other, person) (pack_id, uid)
keys_same other pack_id person uid h = (pair_eq_iff (other, person) (pack_id, uid)).0 h

-- A grant to a person, who is not the reserved uid 0, is what is read for them on that pack afterwards,
-- whatever stood there before; it leaves every other person and pack as they were, and it keeps one
-- row for each pair of pack and person.
pub grant_pack_access-lookup :
    (rows after : List AccessRow) (pack_id other : Text) (uid person : ℤ) (level : PackLevel)
    (by : ℤ) (now : ℕ)
    → HasPrimaryKey access_key rows
    → grant_pack_access rows pack_id uid level by now ≡ ok after
    → (¬ (uid ≡ break_glass_uid))
      × (pack_access_level after other person ≡ (
          if (other == pack_id) && (person == uid)
          then some level
          else pack_access_level rows other person))
      × HasPrimaryKey access_key after
unfolding grant_pack_access pack_access_level
grant_pack_access-lookup rows after pack_id other uid person level by now keyed h =
    let (real, e) = guarded uid (txt "uid 0 is reserved") _ after h in
    (
      real,
      subst
          (λ t. level_of (select access_key (other, person) t) ≡ (
            if (other == pack_id) && (person == uid)
            then some level
            else level_of (select access_key (other, person) rows)))
          e
          (elim (Bool-cases ((other == pack_id) && (person == uid))) [
            | inl q ↦
                rw (q, keys_same other pack_id person uid q)
                  (ap level_of (select-upsert_same access_key _ _ rows (λ row. refl))
                    ∙ level_written _ _ (select access_key (pack_id, uid) rows) level refl
                        (λ row. refl))
            | inr q ↦ rw q (
                ap level_of (
                  select-upsert_other access_key _ _ rows (other, person) (λ row. refl)
                    (keys_differ other pack_id person uid q)))
          ]),
      subst (HasPrimaryKey access_key) e
          (upsert-HasPrimaryKey access_key _ _ rows (λ row. refl) keyed),
    )

-- Revoking somebody's access to a pack leaves them none there, leaves every other person and pack as they
-- were, keeps one row for each pair, and answers `false` exactly when there was no row to take away.
pub revoke_pack_access-lookup :
    (rows : List AccessRow) (pack_id other : Text) (uid person : ℤ)
    → HasPrimaryKey access_key rows
    → (pack_access_level (revoke_pack_access rows pack_id uid).0 other person ≡ (
        if (other == pack_id) && (person == uid)
        then none
        else pack_access_level rows other person))
      × HasPrimaryKey access_key (revoke_pack_access rows pack_id uid).0
      × (((revoke_pack_access rows pack_id uid).1 ≡ false)
          ↔ (select access_key (pack_id, uid) rows ≡ none))
unfolding revoke_pack_access pack_access_level
revoke_pack_access-lookup rows pack_id other uid person keyed = (
  elim (Bool-cases ((other == pack_id) && (person == uid))) [
    | inl q ↦
        rw (q, keys_same other pack_id person uid q)
          (ap level_of (select-delete_same access_key rows (pack_id, uid)))
    | inr q ↦ rw q (
        ap level_of (
          select-delete_other access_key rows (other, person) (pack_id, uid)
            (keys_differ other pack_id person uid q)))
  ],
  delete-HasPrimaryKey access_key rows (pack_id, uid) keyed,
  reaches_iff access_key rows (pack_id, uid),
)

select-forget :
    (rows : List AccessRow) (pack_id other : Text) (person : ℤ)
    → select access_key (other, person) (retain (λ row. not (row.pack_id == pack_id)) rows)
      ≡ (if other == pack_id then none else select access_key (other, person) rows)
unfolding select
select-forget [] pack_id other person = ground arith
select-forget (row ∷ rows) pack_id other person = ground (
  arith,
  select-forget rows pack_id other person,
  text_eq_iff row.pack_id other,
  text_eq_iff row.pack_id pack_id,
  text_eq_iff other pack_id,
)

-- Deleting a pack forgets its whole access list and nothing else, so that an id minted again starts
-- with nobody let in.
pub forget_pack_access-lookup :
    (rows : List AccessRow) (pack_id other : Text) (person : ℤ)
    → pack_access_level (forget_pack_access rows pack_id) other person
      ≡ (if other == pack_id then none else pack_access_level rows other person)
unfolding forget_pack_access pack_access_level
forget_pack_access-lookup rows pack_id other person =
    ap level_of (select-forget rows pack_id other person)
    ∙ elim (Bool-cases (other == pack_id)) [ inl e ↦ rw e refl | inr e ↦ rw e refl ]

abbrev suspended : List User → Option SuspensionRow → Option Suspension
suspended users o = o >>= λ row. some (record {
  reason = row.reason;
  by_uid = row.by_uid;
  by_login = login_of users row.by_uid;
  at = row.at;
})

-- what the suspension says after an upsert that writes all its columns
written :
    (users : List User) (fresh : SuspensionRow) (change : SuspensionRow → SuspensionRow)
    (o : Option SuspensionRow)
    → ((row : SuspensionRow) → suspended users (some (change row)) ≡ suspended users (some fresh))
    → suspended users (some (changed suspension_key fresh change o)) ≡ suspended users (some fresh)
written users fresh change none k = refl
written users fresh change (some row) k = k row

-- Suspending an account, which is not the reserved uid 0, makes its suspension the one that is read, with
-- this reason and decider, and changes nobody else's; lifting it again leaves none.
pub suspend_account-lookup :
    (users : List User) (rows after : List SuspensionRow) (uid person : ℤ) (reason : Option Text)
    (by : ℤ) (now : ℕ)
    → suspend_account rows uid reason by now ≡ ok after
    → (¬ (uid ≡ break_glass_uid))
      × (suspension_of users after person ≡ (
          if person == uid
          then some
              (record { reason = reason; by_uid = by; by_login = login_of users by; at = now })
          else suspension_of users rows person))
      × (suspension_of users (lift_suspension after uid).0 uid ≡ none)
unfolding suspend_account suspension_of lift_suspension
suspend_account-lookup users rows after uid person reason by now h =
    let (real, e) = guarded uid (txt "uid 0 is reserved") _ after h in
    (
      real,
      subst
          (λ t. suspended users (select suspension_key person t) ≡ (
            if person == uid
            then some
                (record { reason = reason; by_uid = by; by_login = login_of users by; at = now })
            else suspended users (select suspension_key person rows)))
          e
          (elim (Bool-cases (person == uid)) [
            | inl q ↦
                rw (q, (int_eq_iff person uid).0 q)
                  (ap (suspended users) (select-upsert_same suspension_key _ _ rows (λ row. refl))
                    ∙ written users _ _ (select suspension_key uid rows) (λ row. refl))
            | inr q ↦ rw q (
                ap (suspended users) (
                  select-upsert_other suspension_key _ _ rows person (λ row. refl)
                    (λ r. cc (q, (int_eq_iff person uid).1 r))))
          ]),
      ap (suspended users) (select-delete_same suspension_key after uid),
    )
