-- ===== src/Accounts/Tests.antt =====
-- The theorems on src/accounts/mod.rs at concrete people, packs and threads.
use smrt.Base.{
  ◌≡◌, refl, sym, Memᴰ, text_eq_iff, false, ap, ◌∙◌, inl, inr, false, none, some, [], ◌∷◌, ℕ-Eq,
  ◌>>=◌, Text, txt, text_eq, Text-Eq, pos, int_eq, ℤ-Eq,
}
use mathlib.Core.List.Memᴰ
use mathlib.Core.Path.{subst}
use mathlib.Core.Option.{some_inj}
use smrt.Base.Results.{ok}
use smrt.Keyed.{last_with}
use smrt.Table.{select, upsert, update, reaches, HasPrimaryKey, Pair-Eq}
use smrt.Accounts.{admin, role_str, edit, level_str, parse_level, PackLevel}
use smrt.Accounts.Access.{
  AccessRow, SuspensionRow, access_key, pack_access_level, grant_pack_access, packs_granted_to,
  suspend_account, suspension_of, lift_suspension, login_of,
}
use smrt.Accounts.Access.Laws.{grant_pack_access-lookup, suspend_account-lookup}
use smrt.Accounts.Access.Listing.{pack_access_level-listing}
use smrt.Accounts.Session.{
  SessionStore, next_id, upsert_user, insert_session, sign_in_github, session_identity,
}
use smrt.Accounts.Session.Expiry.{sign_in-session_identity}
use smrt.Accounts.Threads.{
  ThreadRow, thread_key, settle_thread, is_open, is_settled_status, is_about, forget_pack_threads,
}
use smrt.Accounts.Threads.Lifecycle.{
  Run, done, then_run, settled, forgot, IsSpared, settled_proposal_stays, settle_thread_once,
}

abbrev industrial : Text
industrial = txt "industrial"

abbrev granted_edit : AccessRow
granted_edit = record {
  pack_id = industrial;
  github_uid = pos 7;
  level = level_str edit;
  granted_by = pos 1;
  granted_at = 100;
}

grant_pack_access-lookup_example :
    (¬ (pos 7 ≡ pos 0))
    × (pack_access_level (granted_edit ∷ []) industrial (pos 7) ≡ some edit)
    × HasPrimaryKey access_key (granted_edit ∷ [])
unfolding grant_pack_access upsert text_eq txt int_eq pack_access_level
grant_pack_access-lookup_example =
    grant_pack_access-lookup [] (granted_edit ∷ []) industrial industrial (pos 7) (pos 7) edit
      (pos 1) 100 tt refl

abbrev stopped : SuspensionRow
stopped = record { github_uid = pos 7; reason = some (txt "spam"); by_uid = pos 1; at = 100 }

suspend_account-lookup_example :
    (¬ (pos 7 ≡ pos 0))
    × (suspension_of [] (stopped ∷ []) (pos 7)
        ≡ some (record {
          reason = some (txt "spam");
          by_uid = pos 1;
          by_login = login_of [] (pos 1);
          at = 100;
        }))
    × (suspension_of [] (lift_suspension (stopped ∷ []) (pos 7)).0 (pos 7) ≡ none)
unfolding suspend_account upsert int_eq
suspend_account-lookup_example =
    suspend_account-lookup [] [] (stopped ∷ []) (pos 7) (pos 7) (some (txt "spam")) (pos 1) 100 refl

pack_access_level-listing_example : pack_access_level (granted_edit ∷ []) industrial (pos 7) ≡ (
    last_with
      (λ (g : Text × PackLevel). g.0)
      industrial
      (packs_granted_to (granted_edit ∷ []) (pos 7))
    >>= λ g. some g.1)
unfolding select level_str parse_level txt text_eq
pack_access_level-listing_example =
    pack_access_level-listing (granted_edit ∷ []) (pos 7) industrial (refl, tt)
      (λ row m. elim (Memᴰ.cases_cons m) [
        | inl e ↦ (
          edit,
          ap (λ (r : AccessRow). parse_level r.level) e
              ∙ unfold parse_level level_str txt text_eq in refl,
        )
        | inr r ↦ absurd (Memᴰ.not-nil r)
      ])

abbrev signed_in : SessionStore
signed_in = record {
  users =
      record {
        id = 1;
        github_uid = pos 7;
        login = txt "ada";
        role = role_str admin;
        created_at = 50;
        last_login_at = 50;
      }
      ∷ [];
  sessions = record { id = txt "s"; user_id = 1; created_at = 50; expires_at = 86450 } ∷ [];
}

abbrev nobody : SessionStore
nobody = record { users = []; sessions = [] }

sign_in-session_identity_example :
    session_identity signed_in (txt "s") 86449
    ≡ (signed_in, some (record { uid = pos 7; login = txt "ada"; role = admin }))
unfolding sign_in_github upsert_user next_id insert_session upsert select int_eq
sign_in-session_identity_example =
    sign_in-session_identity nobody signed_in (pos 7) (txt "ada") (txt "s") (txt "s") (some admin)
      50 86449 (tt, tt, tt) refl

abbrev merged : ThreadRow
merged = record {
  id = 1;
  pack_id = industrial;
  kind = txt "proposal";
  title = txt "more copper";
  body = [];
  by_uid = pos 7;
  status = txt "merged";
  source_pack = some (txt "u/7/fork");
  source_commit = some (txt "c0");
  merged_commit = some (txt "c1");
  created_at = 10;
  decided_at = some 20;
  decided_by = some (pos 1);
}

-- another pack is deleted, and somebody settles the proposal again
settle_again : Run (txt "create" ∷ []) (merged ∷ []) (merged ∷ [])
unfolding settle_thread update reaches is_open is_settled_status forget_pack_threads is_about txt
    text_eq
settle_again =
    then_run (forgot (txt "create") refl)
      (then_run (settled 1 (txt "declined") (pos 2) none 30 false refl) done)

apart : (a b : Text) → text_eq a b ≡ false → ¬ Memᴰ a (b ∷ [])
apart a b h m = elim (Memᴰ.cases_cons m) [
  | inl e ↦ cc (h, (text_eq_iff a b).1 e)
  | inr r ↦ Memᴰ.not-nil r
]

spared : IsSpared (txt "create" ∷ []) merged
unfolding txt text_eq
spared = (
  apart (txt "industrial") (txt "create") refl,
  λ source e m.
      apart (txt "u/7/fork") (txt "create") refl
        (subst (λ x. Memᴰ x (txt "create" ∷ [])) (sym (some_inj.0 e)) m),
)

settled_proposal_stays_example : select thread_key 1 (merged ∷ []) ≡ some merged
unfolding select txt
settled_proposal_stays_example =
    settled_proposal_stays (txt "create" ∷ []) (merged ∷ []) (merged ∷ []) 1 merged settle_again
      spared refl (λ e. cc) (λ e. cc)

settle_thread_once_example :
    settle_thread (merged ∷ []) 1 (txt "closed") (pos 3) none 40 ≡ ok (merged ∷ [], false)
unfolding settle_thread update reaches is_open is_settled_status txt text_eq
settle_thread_once_example =
    settle_thread_once (merged ∷ []) (merged ∷ []) 1 (txt "declined") (txt "closed") (pos 2) (pos 3)
      none none 30 40 false refl refl
