-- ===== src/Http/Caller.antt =====
-- src/http/auth.rs: who is calling, from the bearer token or the session cookie, and the guards of the
-- operator, debug and member surfaces.
pub mod Rung
use smrt.Base.{
  ℕ, ◌+◌, ◌-◌, ◌/◌, min, ap, Bool, false, not, ◌&&◌, Option, none, some, List, [], ◌∷◌, ◌++◌, map,
  ltb, nat_eq, if◌then◌else◌, ℕ-Eq, ◌>>=◌, length, all, find, Text, txt, Text-Eq, trim,
  strip_prefix, split, pos, ℤ-Eq, as_bytes, bit_xor, bit_or,
}
use smrt.Accounts.{Role, member, admin, debug, role_rank, Identity, AccountReads}
use smrt.Http.{ApiError, forbidden, unauthorized, Reply, fail, done}
use smrt.Http.Auth.{read_or_none}

-- the headers that are read, where they are visible ASCII
pub record HeaderMap : Type 0 where
  pub authorization : Option Text
  pub cookie : Option Text

pub record Config : Type 0 where
  pub admin_token : Option Text
  pub debug_token : Option Text

unfoldable pub fold_diff : ℕ → List ℕ → List ℕ → ℕ
fold_diff diff (x ∷ a) (y ∷ b) = fold_diff (bit_or 8 diff (bit_xor 8 x y)) a b
fold_diff diff _ _ = diff

unfoldable pub constant_time_eq : List ℕ → List ℕ → Bool
unfolding fold_diff
constant_time_eq a b =
    if not (nat_eq (length a) (length b)) then false else nat_eq (fold_diff 0 a b) 0

-- `Iterator::find_map`
abbrev pub find_map {ℓ κ} : {A : Type ℓ} {B : Type κ} → (A → Option B) → List A → Option B
find_map f [] = none
find_map f (x ∷ xs) = elim (f x) [ some y ↦ some y | none ↦ find_map f xs ]

unfoldable pub cookie_value : HeaderMap → Text → Option Text
cookie_value headers name = do
  cookie ← headers.cookie
  find_map (λ kv. strip_prefix (name ++ txt "=") (trim kv)) (split (λ c. nat_eq c b';') cookie)

abbrev pub cookie_name : Text
cookie_name = txt "smrt_session"

abbrev pub break_glass : Role → Identity
break_glass role = record { uid = pos 0; login = txt "break-glass"; role = role }

-- `if let Some(expected) = ... && constant_time_eq(...)`
unfoldable pub token_is : Option Text → Text → Bool
unfolding constant_time_eq as_bytes
token_is none token = false
token_is (some expected) token = constant_time_eq (as_bytes expected) (as_bytes token)

unfoldable pub by_bearer : Config → Option Text → Option Identity
unfolding token_is
by_bearer config none = none
by_bearer config (some token) =
    if token_is config.debug_token token
    then some (break_glass debug)
    else if token_is config.admin_token token
    then some (break_glass admin)
    else none

unfoldable pub by_session : AccountReads → Option Text → Option Identity
by_session reads none = none
by_session reads (some sid) = read_or_none (reads.session_identity sid)

module _ (config : Config) (reads : AccountReads) where
  unfoldable pub resolve_identity : HeaderMap → Option Identity
  unfolding by_bearer by_session cookie_value
  resolve_identity headers =
      elim (by_bearer config (headers.authorization >>= λ s. strip_prefix (txt "Bearer ") s)) [
        | some identity ↦ some identity
        | none ↦ by_session reads (cookie_value headers cookie_name)
      ]

  -- the guards, which hand the identity on to the handler
  abbrev pub require_rung : Role → HeaderMap → Reply Identity
  require_rung rung headers = elim (resolve_identity headers) [
    | none ↦ fail unauthorized
    | some identity ↦
        if ltb (role_rank identity.role) (role_rank rung) then fail forbidden else done identity
  ]

  unfoldable pub require_auth : HeaderMap → Reply Identity
  unfolding resolve_identity role_rank
  require_auth headers = require_rung admin headers

  unfoldable pub require_debug : HeaderMap → Reply Identity
  unfolding resolve_identity role_rank
  require_debug headers = require_rung debug headers

  unfoldable pub require_session : HeaderMap → Reply Identity
  unfolding resolve_identity
  require_session headers = elim (resolve_identity headers) [
    | none ↦ fail unauthorized
    | some identity ↦ done identity
  ]
