-- ===== src/Accounts/Session/Expiry.antt =====
-- What a sign-in of src/accounts/mod.rs opens, and until when.
use smrt.Base.{
  ℕ, ◌+◌, ◌≤◌, ◌≡◌, refl, sym, ap, ◌∙◌, inl, inr, false, Option, none, some, List, [], ◌∷◌, arith,
  ltb, if◌then◌else◌, ℕ-Eq, Bool-cases, is_some, Text, txt, text_eq, text_eq_iff, Text-Eq, ℤ, ℤ-Eq,
}
use mathlib.Core.Path.{subst}
use smrt.Base.Results.{ok, Result-cases, ok_inj}
use smrt.Table.{select, delete, HasPrimaryKey}
use smrt.Table.Laws.{select-upsert_same, select-key, select-append_none, changed_all, changed}
use smrt.Table.Unique.{select-of_select, upsert-HasPrimaryKey_other}
use smrt.Accounts.{Role, User, Identity, from_db, member, from_db-role_str}
use smrt.Accounts.Session.{
  SessionRow, SessionStore, user_key, id_key, session_key, session_ttl, next_id, upsert_user,
  insert_session, sign_in_github, session_row, session_identity, open_session, identity_from,
}

-- both columns of `users` and the id of `sessions` are unique
abbrev pub HasKeys : SessionStore → Type 0
HasKeys store =
    HasPrimaryKey user_key store.users
    × HasPrimaryKey id_key store.users
    × HasPrimaryKey session_key store.sessions

-- the role that a sign-in leaves: the forced one, else the one on record, else a member's
abbrev pub role_after : Option Role → Option User → Role
role_after (some role) u = role
role_after none none = member
role_after none (some u) = from_db u.role

select-next_id : (users : List User) (n : ℕ) → next_id users ≤ n → select id_key n users ≡ none
unfolding select next_id
select-next_id [] n h = refl
select-next_id (u ∷ us) n h = ground (arith, select-next_id us n)

kept_role :
    (fresh : User) (change : User → User) (o : Option User)
    → from_db fresh.role ≡ member
    → ((u : User) → (change u).role ≡ u.role)
    → from_db (changed user_key fresh change o).role ≡ role_after none o
kept_role fresh change none h k = h
kept_role fresh change (some u) h k = ap from_db (k u)

-- the signed-in user's row, which both unique columns find
upsert_user-row :
    (users : List User) (uid : ℤ) (login : Text) (forced : Option Role) (now : ℕ)
    → HasPrimaryKey id_key users
    → (u : User) × (select user_key uid (upsert_user users uid login forced now) ≡ some u)
      × HasPrimaryKey id_key (upsert_user users uid login forced now)
      × (u.github_uid ≡ uid)
      × (u.login ≡ login)
      × (from_db u.role ≡ role_after forced (select user_key uid users))
unfolding upsert_user
upsert_user-row users uid login (some role) now p =
    let found = select-upsert_same user_key _ _ users (λ u. refl) in
    (
      _,
      found,
      upsert-HasPrimaryKey_other user_key id_key _ _ users (λ u. refl)
          (select-next_id users (next_id users) (omega arith)) p,
      select-key user_key _ uid _ found,
      changed_all user_key (λ u. u.login ≡ login) _ _ (select user_key uid users) refl (λ u. refl),
      changed_all user_key (λ u. from_db u.role ≡ role) _ _ (select user_key uid users)
          (from_db-role_str role) (λ u. from_db-role_str role),
    )
upsert_user-row users uid login none now p =
    let found = select-upsert_same user_key _ _ users (λ u. refl) in
    (
      _,
      found,
      upsert-HasPrimaryKey_other user_key id_key _ _ users (λ u. refl)
          (select-next_id users (next_id users) (omega arith)) p,
      select-key user_key _ uid _ found,
      changed_all user_key (λ u. u.login ≡ login) _ _ (select user_key uid users) refl (λ u. refl),
      kept_role _ _ (select user_key uid users) (unfold from_db text_eq txt in refl) (λ u. refl),
    )

select-is_some {ℓ} : {A : Type ℓ} (o : Option A) → is_some o ≡ false → o ≡ none
select-is_some none h = refl
select-is_some (some a) h = cc

abbrev opened_row : Text → ℕ → ℕ → SessionRow
opened_row sid user_id now = record {
  id = sid;
  user_id = user_id;
  created_at = now;
  expires_at = now + session_ttl;
}

insert_session-select :
    (sessions opened : List SessionRow) (sid : Text) (user_id now : ℕ)
    → insert_session sessions sid user_id now ≡ ok opened
    → select session_key sid opened ≡ some (opened_row sid user_id now)
unfolding insert_session
insert_session-select sessions opened sid user_id now h =
    elim (Bool-cases (is_some (select session_key sid sessions))) [
      | inl e ↦ cc (rw e at h)
      | inr e ↦
          subst (λ t. select session_key sid t ≡ some (opened_row sid user_id now))
            (ok_inj _ _ (rw e at h))
            (select-append_none session_key sessions (opened_row sid user_id now ∷ []) sid
                (select-is_some (select session_key sid sessions) e)
              ∙ unfold select in ground (arith, text_eq_iff sid sid))
    ]

-- a session that was opened is the only change
open_session-ok :
    (users : List User) (sessions : List SessionRow) (token sid : Text) (now : ℕ) (u : User)
    (after : SessionStore)
    → open_session users sessions token now (some u) ≡ ok (after, sid)
    → (after.users ≡ users)
      × (sid ≡ token)
      × (insert_session sessions token u.id now ≡ ok after.sessions)
open_session-ok users sessions token sid now u after h =
    elim (Result-cases (insert_session sessions token u.id now)) [
      | inl (m, e) ↦ cc (rw (e, open_session) at h)
      | inr (opened, e) ↦
          let pair = ok_inj _ _ (rw (e, open_session) at h) in
          (
            ap (λ r. r.0.users) (sym pair),
            ap (λ r. r.1) (sym pair),
            e ∙ ap (λ r. ok r.0.sessions) pair,
          )
    ]

session_row-opened :
    (store : SessionStore) (token : Text) (u : User) (now : ℕ)
    → select session_key token store.sessions ≡ some (opened_row token u.id now)
    → select id_key u.id store.users ≡ some u
    → session_row store token ≡ some (u, now + session_ttl)
unfolding session_row
session_row-opened store token u now h k = rw (h, k) refl

identity_eq : (a b : Identity) → a.uid ≡ b.uid → a.login ≡ b.login → a.role ≡ b.role → a ≡ b
identity_eq a b h k l = cc

session_identity-row :
    (store : SessionStore) (sid : Text) (later expires : ℕ) (u : User)
    → session_row store sid ≡ some (u, expires)
    → session_identity store sid later ≡ (
        if ltb later expires then (store, some (identity_from u)) else (
          record { users = store.users; sessions = delete session_key sid store.sessions },
          none,
        ))
unfolding session_identity
session_identity-row store sid later expires u h = rw (h, session_identity) refl

-- Whoever signs in is who their session says they are, under the login they came with, until a day
-- has passed and not after: the role is the one that the operators force, else the one on record,
-- else a member's. The first read after that deletes the session.
pub sign_in-session_identity :
    (store after : SessionStore) (uid : ℤ) (login sid token : Text) (forced : Option Role)
    (now later : ℕ)
    → HasKeys store
    → sign_in_github store uid login forced now token ≡ ok (after, sid)
    → session_identity after sid later ≡ (
        if ltb later (now + 86400)
        then (
          after,
          some (record {
            uid = uid;
            login = login;
            role = role_after forced (select user_key uid store.users);
          }),
        )
        else (
          record { users = after.users; sessions = delete session_key sid after.sessions },
          none,
        ))
unfolding sign_in_github
sign_in-session_identity store after uid login sid token forced now later keys h =
    let (keyed, unique, opened) = keys in
    let (u, found, ids, a, b, c) = upsert_user-row store.users uid login forced now unique in
    let (same_users, same_sid, inserted) =
      open_session-ok _ store.sessions token sid now u after (rw (found, open_session) at h) in
    let session = insert_session-select store.sessions after.sessions token u.id now inserted in
    let user : select id_key u.id after.users ≡ some u =
      subst (λ t. select id_key u.id t ≡ some u) (sym same_users)
        (select-of_select user_key id_key _ uid u ids found) in
    let row : session_row after sid ≡ some (u, now + session_ttl) =
      subst (λ t. session_row after t ≡ some (u, now + session_ttl)) (sym same_sid)
        (session_row-opened after token u now session user) in
    let who : identity_from u ≡ record {
      uid = uid;
      login = login;
      role = role_after forced (select user_key uid store.users);
    } =
      identity_eq _ _ a b c in
    session_identity-row after sid later (now + session_ttl) u row
    ∙ ap
        (λ i. if ltb later (now + 86400) then (after, some i) else (
          record { users = after.users; sessions = delete session_key sid after.sessions },
          none,
        ))
        who
