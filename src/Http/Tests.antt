-- ===== src/Http/Tests.antt =====
-- The theorems on src/http at concrete callers, packs and stores.
use smrt.Base.{
  all, ltb, ◌<◌, ◌^◌, sym, ℕ, ◌≡◌, refl, ◌↔◌, ◌⊎◌, inl, true, none, some, List, [], ◌∷◌, Memᴰ,
  arith, ℕ-Eq, ◌>>=◌, Text, txt, Text-Eq, strip_prefix, pos, int_eq, ℤ-Eq, as_bytes, utf8, bit_xor,
  bit_or,
}
use mathlib.Core.List.Memᴰ
use mathlib.Core.Path.{subst}
use mathlib.Core.Logic.{⊎_elim}
use smrt.Base.Results.{err, ok}
use smrt.Keyed.{last_with}
use smrt.Table.{select, upsert, Pair-Eq}
use smrt.Accounts.{
  Identity, PackLevel, member, debug, role_rank, AccountReads, edit, view, level_str, level_rank,
}
use smrt.Accounts.Access.{AccessRow, grant_pack_access, revoke_pack_access}
use smrt.Http.{done}
use smrt.Accounts.Audit.{AuditRow, newest_first}
use smrt.Accounts.Audit.Newest.{IsNewestFirst}
use smrt.Http.Page.{Base64}
use smrt.Http.Page.Walk.{read_pages, read_pages-newest_first}
use smrt.Http.Auth.{authorize, pack_namespace_uid, filter_may}
use smrt.Http.Auth.Gate.{
  IsOperator, IsStopped, IsNamespaceOwner, IsGranted, authorize_iff, filter_may-authorize,
}
use smrt.Http.Auth.Store.{reads_of, grant-authorize, revoke-authorize}
use smrt.Http.Caller.{
  HeaderMap, Config, constant_time_eq, fold_diff, token_is, by_bearer, resolve_identity,
  require_debug, break_glass,
}
use smrt.Http.Caller.Rung.{IsText, HasToken, HasSession, constant_time_eq_iff, require_debug_cases}

abbrev industrial : Text
industrial = txt "industrial"

abbrev ada : Identity
ada = record { uid = pos 7; login = txt "ada"; role = member }

-- a store that cannot be read
abbrev broken : AccountReads
broken = record {
  pack_access_level = λ p u. err (txt "disk");
  packs_granted_to = λ u. err (txt "disk");
  identity_of = λ u. err (txt "disk");
  suspension_of = λ u. err (txt "disk");
  session_identity = λ s. err (txt "disk");
}

authorize_iff_example : (authorize broken ada industrial edit ≡ done tt) ↔ (
    ((edit ≡ view) ⊎ (¬ IsStopped broken ada))
    × (IsOperator ada ⊎ IsNamespaceOwner ada industrial ⊎ IsGranted broken ada industrial edit))
authorize_iff_example = authorize_iff broken ada industrial edit

abbrev listed : AccountReads
listed = record broken {
  pack_access_level = λ p u. ok (
      last_with (λ (g : Text × PackLevel). g.0) p ((industrial, edit) ∷ [])
      >>= λ (g : Text × PackLevel). some g.1);
  packs_granted_to = λ u. ok ((industrial, edit) ∷ []);
}

filter_may-authorize_example : (authorize listed ada industrial edit ≡ done tt) ↔ (
    Memᴰ industrial (filter_may listed ada (industrial ∷ []) edit)
    × ((edit ≡ view) ⊎ (¬ IsStopped listed ada)))
filter_may-authorize_example =
    filter_may-authorize listed ada (industrial ∷ []) industrial edit
      ((industrial, edit) ∷ [], refl, λ p. refl) (Memᴰ.head refl)

abbrev granted_edit : AccessRow
granted_edit = record {
  pack_id = industrial;
  github_uid = pos 7;
  level = level_str edit;
  granted_by = pos 1;
  granted_at = 100;
}

grant-authorize_example :
    authorize (reads_of [] (granted_edit ∷ []) [] [] 200) ada industrial view ≡ done tt
unfolding grant_pack_access upsert int_eq level_rank
grant-authorize_example =
    grant-authorize [] [] [] [] (granted_edit ∷ []) ada industrial edit view (pos 1) 100 200 tt refl
      (omega arith) (inl refl)

revoke-authorize_example : ¬ (
    authorize
      (reads_of [] (revoke_pack_access (granted_edit ∷ []) industrial (pos 7)).0 [] [] 200)
      ada
      industrial
      view
    ≡ done tt)
unfolding select strip_prefix txt pack_namespace_uid
revoke-authorize_example =
    revoke-authorize [] [] [] (granted_edit ∷ []) ada industrial view 200 (refl, tt) (λ op. op refl)
      (λ o. cc)

abbrev one_two : List ℕ
one_two = 1 ∷ 2 ∷ []

abbrev one_three : List ℕ
one_three = 1 ∷ 3 ∷ []

constant_time_eq_iff_example : (constant_time_eq one_two one_three ≡ true) ↔ (one_two ≡ one_three)
constant_time_eq_iff_example =
    constant_time_eq_iff one_two one_three (omega arith, (omega arith, tt))
      (omega arith, (omega arith, tt))

abbrev tokens : Config
tokens = record { admin_token = some (txt "a"); debug_token = some (txt "d") }

abbrev bearing : HeaderMap
bearing = record { authorization = some (txt "Bearer d"); cookie = none }

of_code_points : (s : Text) → all (λ c. ltb c 1114112) s ≡ true → IsText s
of_code_points [] h = tt
of_code_points (c ∷ s) h = (ground arith, of_code_points s (ground arith))

require_debug_cases_example :
    HasToken (some (txt "d")) debug bearing (break_glass debug)
    ⊎ (HasSession broken bearing (break_glass debug) × (debug ≡ debug))
unfolding require_debug resolve_identity by_bearer token_is constant_time_eq fold_diff role_rank
    strip_prefix txt as_bytes utf8 bit_xor bit_or
require_debug_cases_example =
    require_debug_cases tokens broken bearing (break_glass debug) (of_code_points (txt "d") refl)
      (of_code_points (txt "a") refl) (of_code_points (txt "Bearer d") refl) refl

-- the empty encoding, which stands for any that decodes what it encoded
abbrev plain : Base64
plain = record { encode = λ t. t; decode = λ t. some t }

abbrev banned : ℕ → AuditRow
banned n = record {
  id = n;
  actor_uid = pos 1;
  actor_login = txt "ada";
  action = txt "user.suspend";
  target = none;
  detail = none;
  created_at = 100;
}

abbrev three_rows : List AuditRow
three_rows = banned 1 ∷ banned 2 ∷ banned 3 ∷ []

three_rows-small : (y : AuditRow) → Memᴰ y three_rows → y.id < 2 ^ 63
three_rows-small y m =
    ⊎_elim (λ q. subst (λ x. x.id < 2 ^ 63) (sym q) (omega arith))
      (λ rest.
        ⊎_elim (λ q. subst (λ x. x.id < 2 ^ 63) (sym q) (omega arith))
          (λ last.
            ⊎_elim (λ q. subst (λ x. x.id < 2 ^ 63) (sym q) (omega arith))
              (λ k. absurd (Memᴰ.not-nil k)) (Memᴰ.cases_cons last))
          (Memᴰ.cases_cons rest))
      (Memᴰ.cases_cons m)

read_pages-newest_first_example :
    (read_pages plain three_rows 2 4 none ≡ some (newest_first three_rows))
    × IsNewestFirst (newest_first three_rows)
unfolding select
read_pages-newest_first_example =
    read_pages-newest_first plain three_rows 2 (λ t. refl) (refl, (refl, (refl, tt)))
      three_rows-small
