-- ===== src/Accounts/Audit.antt =====
-- src/accounts/mod.rs: the audit trail, which is written to its end and read from there.
pub mod Newest
use smrt.Base.{
  ℕ, suc, max, Bool, true, false, Option, none, some, List, [], ◌∷◌, ◌++◌, ltb, if◌then◌else◌, ℕ-Eq,
  retain, take, Text, ℤ, pos, negsuc,
}

-- a row of `audit_log`
pub record AuditRow : Type 0 where
  pub id : ℕ
  pub actor_uid : ℤ
  pub actor_login : Text
  pub action : Text
  pub target : Option Text
  pub detail : Option Text
  pub created_at : ℕ

unfoldable pub next_audit_id : List AuditRow → ℕ
next_audit_id [] = 1
next_audit_id (r ∷ rs) = max (suc r.id) (next_audit_id rs)

unfoldable pub record_audit :
    List AuditRow → ℤ → Text → Text → Option Text → Option Text → ℕ → List AuditRow
unfolding next_audit_id
record_audit rows actor_uid actor_login action target detail now =
    rows
    ++ (record {
      id = next_audit_id rows;
      actor_uid = actor_uid;
      actor_login = actor_login;
      action = action;
      target = target;
      detail = detail;
      created_at = now;
    }
        ∷ [])

-- `?2 IS NULL OR id < ?2`
abbrev pub is_before : Option ℤ → AuditRow → Bool
is_before none r = true
is_before (some (pos n)) r = ltb r.id n
is_before (some (negsuc n)) r = false

-- `ORDER BY id DESC`
abbrev pub insert_newest : AuditRow → List AuditRow → List AuditRow
insert_newest row [] = row ∷ []
insert_newest row (r ∷ rows) =
    let rest = insert_newest row rows in if ltb r.id row.id then row ∷ r ∷ rows else r ∷ rest

abbrev pub newest_first : List AuditRow → List AuditRow
newest_first [] = []
newest_first (r ∷ rows) = insert_newest r (newest_first rows)

unfoldable pub list_audit : List AuditRow → ℕ → Option ℤ → List AuditRow
list_audit rows limit before = take limit (retain (is_before before) (newest_first rows))
