-- ===== src/Accounts/Session.antt =====
-- src/accounts/mod.rs: users, the sessions that they open by signing in with GitHub, and their roles.
pub mod Expiry
use smrt.Base.{
  ℕ, suc, ◌+◌, ◌-◌, ◌/◌, min, max, ap, true, not, ◌&&◌, Option, none, some, List, [], ◌∷◌, ◌++◌,
  ltb, if◌then◌else◌, ◌==◌, ℕ-Eq, is_some, ◌>>=◌, Text, txt, Text-Eq, show, ℤ, ℤ-Eq, show_int,
}
use smrt.Base.Results.{Result, err, ok}
use smrt.Table.{select, upsert, update, delete, reaches}
use smrt.Accounts.{Role, User, Identity, from_db, role_str, break_glass_uid}

-- a row of `sessions`
pub record SessionRow : Type 0 where
  pub id : Text
  pub user_id : ℕ
  pub created_at : ℕ
  pub expires_at : ℕ

pub record SessionStore : Type 0 where
  pub users : List User
  pub sessions : List SessionRow

abbrev pub user_key : User → ℤ
user_key u = u.github_uid

abbrev pub id_key : User → ℕ
id_key u = u.id

abbrev pub session_key : SessionRow → Text
session_key s = s.id

abbrev pub session_ttl : ℕ
session_ttl = 86400

-- `id INTEGER PRIMARY KEY`: one more than the largest
unfoldable pub next_id : List User → ℕ
next_id [] = 1
next_id (u ∷ us) = max (suc u.id) (next_id us)

-- the two statements of `sign_in_github`: a forced role is written, else a new user is a member
unfoldable pub upsert_user : List User → ℤ → Text → Option Role → ℕ → List User
unfolding next_id
upsert_user users github_uid login (some role) now =
    upsert user_key
      (record {
        id = next_id users;
        github_uid = github_uid;
        login = login;
        role = role_str role;
        created_at = now;
        last_login_at = now;
      })
      (λ u. record {
        id = u.id;
        github_uid = u.github_uid;
        login = login;
        role = role_str role;
        created_at = u.created_at;
        last_login_at = now;
      })
      users
upsert_user users github_uid login none now =
    upsert user_key
      (record {
        id = next_id users;
        github_uid = github_uid;
        login = login;
        role = txt "member";
        created_at = now;
        last_login_at = now;
      })
      (λ u. record {
        id = u.id;
        github_uid = u.github_uid;
        login = login;
        role = u.role;
        created_at = u.created_at;
        last_login_at = now;
      })
      users

-- `INSERT INTO sessions`, which the primary key refuses for an id that is taken
unfoldable pub insert_session : List SessionRow → Text → ℕ → ℕ → Result (List SessionRow)
insert_session sessions sid user_id now =
    if is_some (select session_key sid sessions)
    then err (txt "insert session")
    else ok (
        sessions
        ++ (record { id = sid; user_id = user_id; created_at = now; expires_at = now + session_ttl }
            ∷ []))

-- the rest of the transaction: read the user's id and open the session; an error rolls it back
abbrev open_session :
    List User → List SessionRow → Text → ℕ → Option User → Result (SessionStore × Text)
open_session users sessions sid now none = err (txt "read user id")
open_session users sessions sid now (some user) = elim (insert_session sessions sid user.id now) [
  | err message ↦ err message
  | ok opened ↦ ok (record { users = users; sessions = opened }, sid)
]

unfoldable pub sign_in_github :
    SessionStore → ℤ → Text → Option Role → ℕ → Text → Result (SessionStore × Text)
unfolding upsert_user insert_session
sign_in_github store github_uid login forced_role now random_token =
    let users : List User = upsert_user store.users github_uid login forced_role now in
    open_session users store.sessions random_token now (select user_key github_uid users)

abbrev pub identity_from : User → Identity
identity_from u = record { uid = u.github_uid; login = u.login; role = from_db u.role }

-- `JOIN users u ON u.id = s.user_id`
unfoldable pub session_row : SessionStore → Text → Option (User × ℕ)
session_row store sid = do
  session ← select session_key sid store.sessions
  user ← select id_key session.user_id store.users
  some (user, session.expires_at)

-- A lapsed session is deleted.
unfoldable pub session_identity : SessionStore → Text → ℕ → SessionStore × Option Identity
unfolding session_row
session_identity store sid now = elim (session_row store sid) [
  | none ↦ (store, none)
  | some (user, expires_at) ↦
      if ltb now expires_at
      then (store, some (identity_from user))
      else (record { users = store.users; sessions = delete session_key sid store.sessions }, none)
]

unfoldable pub set_role : List User → ℤ → Text → Result (List User)
set_role users github_uid role =
    if github_uid == break_glass_uid
    then err (txt "cannot change the reserved uid 0")
    else if not (role == txt "member") && (not (role == txt "admin") && not (role == txt "debug"))
    then err (txt "invalid role '" ++ (role ++ txt "'"))
    else if reaches user_key github_uid (λ u. true) users
    then ok (
        update user_key github_uid (λ u. true)
          (λ u. record {
            id = u.id;
            github_uid = u.github_uid;
            login = u.login;
            role = role;
            created_at = u.created_at;
            last_login_at = u.last_login_at;
          })
          users)
    else err (txt "no user with uid " ++ show_int github_uid)
