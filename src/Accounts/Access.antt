-- ===== src/Accounts/Access.antt =====
-- src/accounts/mod.rs: who was granted access to a pack, who is blocked from it, and whose account is
-- suspended.
pub mod Laws
pub mod Listing
use smrt.Base.{
  ℕ, ◌-◌, ◌/◌, ap, Bool, true, not, Option, none, some, List, [], ◌∷◌, map, if◌then◌else◌, Eq, ◌==◌,
  ℕ-Eq, ◌>>=◌, retain, Text, txt, Text-Eq, text_lt, ℤ, ℤ-Eq,
}
use smrt.Base.Results.{Result, err, ok}
use smrt.Table.{select, upsert, delete, reaches, Pair-Eq}
use smrt.Accounts.{
  User, PackLevel, view, level_str, parse_level, break_glass_uid, Identity, from_db, Suspension,
}

-- a row of `pack_access`
pub record AccessRow : Type 0 where
  pub pack_id : Text
  pub github_uid : ℤ
  pub level : Text
  pub granted_by : ℤ
  pub granted_at : ℕ

abbrev pub access_key : AccessRow → Text × ℤ
access_key row = (row.pack_id, row.github_uid)

unfoldable pub pack_access_level : List AccessRow → Text → ℤ → Option PackLevel
pack_access_level rows pack_id github_uid = do
  row ← select access_key (pack_id, github_uid) rows
  parse_level row.level

unfoldable pub grant_pack_access :
    List AccessRow → Text → ℤ → PackLevel → ℤ → ℕ → Result (List AccessRow)
grant_pack_access rows pack_id github_uid level granted_by now =
    let excluded : AccessRow = record {
      pack_id = pack_id;
      github_uid = github_uid;
      level = level_str level;
      granted_by = granted_by;
      granted_at = now;
    } in
    if github_uid == break_glass_uid
    then err (txt "uid 0 is reserved")
    else ok (
        upsert access_key excluded
          (λ row. record {
            pack_id = row.pack_id;
            github_uid = row.github_uid;
            level = excluded.level;
            granted_by = excluded.granted_by;
            granted_at = excluded.granted_at;
          })
          rows)

unfoldable pub revoke_pack_access : List AccessRow → Text → ℤ → List AccessRow × Bool
revoke_pack_access rows pack_id github_uid = (
  delete access_key (pack_id, github_uid) rows,
  reaches access_key (pack_id, github_uid) (λ row. true) rows,
)

-- `ORDER BY pack_id`
abbrev insert_by_pack : AccessRow → List AccessRow → List AccessRow
insert_by_pack row [] = row ∷ []
insert_by_pack row (r ∷ rows) =
    let rest = insert_by_pack row rows in
    if text_lt row.pack_id r.pack_id then row ∷ r ∷ rows else r ∷ rest

unfoldable pub order_by_pack : List AccessRow → List AccessRow
order_by_pack [] = []
order_by_pack (row ∷ rows) = insert_by_pack row (order_by_pack rows)

abbrev or_view : Option PackLevel → PackLevel
or_view none = view
or_view (some level) = level

unfoldable pub packs_granted_to : List AccessRow → ℤ → List (Text × PackLevel)
packs_granted_to rows github_uid =
    map (λ row. (row.pack_id, or_view (parse_level row.level)))
      (order_by_pack (retain (λ row. row.github_uid == github_uid) rows))

unfoldable pub forget_pack_access : List AccessRow → Text → List AccessRow
forget_pack_access rows pack_id = retain (λ row. not (row.pack_id == pack_id)) rows

unfoldable pub identity_of : List User → ℤ → Option Identity
identity_of users github_uid = do
  user ← select (λ u. u.github_uid) github_uid users
  some (record { uid = github_uid; login = user.login; role = from_db user.role })

-- a row of `pack_blocks`
pub record BlockRow : Type 0 where
  pub pack_id : Text
  pub github_uid : ℤ
  pub reason : Option Text
  pub blocked_by : ℤ
  pub blocked_at : ℕ

abbrev pub block_key : BlockRow → Text × ℤ
block_key row = (row.pack_id, row.github_uid)

unfoldable pub block_from_pack :
    List BlockRow → Text → ℤ → Option Text → ℤ → ℕ → Result (List BlockRow)
block_from_pack rows pack_id github_uid reason blocked_by now =
    let excluded : BlockRow = record {
      pack_id = pack_id;
      github_uid = github_uid;
      reason = reason;
      blocked_by = blocked_by;
      blocked_at = now;
    } in
    if github_uid == break_glass_uid
    then err (txt "uid 0 is reserved")
    else ok (
        upsert block_key excluded
          (λ row. record {
            pack_id = row.pack_id;
            github_uid = row.github_uid;
            reason = excluded.reason;
            blocked_by = excluded.blocked_by;
            blocked_at = excluded.blocked_at;
          })
          rows)

unfoldable pub unblock_from_pack : List BlockRow → Text → ℤ → List BlockRow × Bool
unblock_from_pack rows pack_id github_uid = (
  delete block_key (pack_id, github_uid) rows,
  reaches block_key (pack_id, github_uid) (λ row. true) rows,
)

pub record PackBlock : Type 0 where
  pub github_uid : ℤ
  pub login : Option Text
  pub reason : Option Text
  pub blocked_by : ℤ
  pub blocked_by_login : Option Text
  pub blocked_at : ℕ

-- `LEFT JOIN users u ON u.github_uid = ...`: the login, where the uid has signed in
unfoldable pub login_of : List User → ℤ → Option Text
login_of users github_uid = do user ← select (λ u. u.github_uid) github_uid users; some user.login

unfoldable pub block_on : List User → List BlockRow → Text → ℤ → Option PackBlock
unfolding login_of
block_on users rows pack_id github_uid = do
  row ← select block_key (pack_id, github_uid) rows
  some (record {
    github_uid = row.github_uid;
    login = login_of users row.github_uid;
    reason = row.reason;
    blocked_by = row.blocked_by;
    blocked_by_login = login_of users row.blocked_by;
    blocked_at = row.blocked_at;
  })

unfoldable pub forget_pack_blocks : List BlockRow → Text → List BlockRow
forget_pack_blocks rows pack_id = retain (λ row. not (row.pack_id == pack_id)) rows

-- a row of `account_suspensions`
pub record SuspensionRow : Type 0 where
  pub github_uid : ℤ
  pub reason : Option Text
  pub by_uid : ℤ
  pub at : ℕ

abbrev pub suspension_key : SuspensionRow → ℤ
suspension_key row = row.github_uid

unfoldable pub suspend_account :
    List SuspensionRow → ℤ → Option Text → ℤ → ℕ → Result (List SuspensionRow)
suspend_account rows github_uid reason by now =
    let excluded : SuspensionRow = record {
      github_uid = github_uid;
      reason = reason;
      by_uid = by;
      at = now;
    } in
    if github_uid == break_glass_uid
    then err (txt "uid 0 is reserved")
    else ok (
        upsert suspension_key excluded
          (λ row. record {
            github_uid = row.github_uid;
            reason = excluded.reason;
            by_uid = excluded.by_uid;
            at = excluded.at;
          })
          rows)

unfoldable pub lift_suspension : List SuspensionRow → ℤ → List SuspensionRow × Bool
lift_suspension rows github_uid =
    (delete suspension_key github_uid rows, reaches suspension_key github_uid (λ row. true) rows)

unfoldable pub suspension_of : List User → List SuspensionRow → ℤ → Option Suspension
unfolding login_of
suspension_of users rows github_uid = do
  row ← select suspension_key github_uid rows
  some (record {
    reason = row.reason;
    by_uid = row.by_uid;
    by_login = login_of users row.by_uid;
    at = row.at;
  })
