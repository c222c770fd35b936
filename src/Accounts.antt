-- ===== src/Accounts.antt =====
-- src/accounts/mod.rs: the people who use the mirror, what they may do to a pack, and the store that
-- keeps it. A table is the list of its rows; `unix_now` and `random_token` are arguments. Timestamps
-- are seconds since the epoch, which `unix_now` never makes negative.
pub mod Access
pub mod Session
pub mod Threads
pub mod Audit
mod Tests
use smrt.Base.{
  ℕ, ◌-◌, ◌/◌, min, ◌≡◌, refl, Bool, ◌||◌, Option, none, some, List, leb, if◌then◌else◌, ◌==◌, ℕ-Eq,
  Text, txt, text_eq, Text-Eq, ℤ, pos, ℤ-Eq,
}
use smrt.Base.Results.{Result}

pub data Role : Type 0 where
  member : Role
  admin : Role
  debug : Role

-- the derived `Ord`: the order of declaration
unfoldable pub role_rank : Role → ℕ
role_rank member = 0
role_rank admin = 1
role_rank debug = 2

-- `identity.role >= Role::Admin`
unfoldable pub at_least_admin : Role → Bool
unfolding role_rank
at_least_admin role = leb (role_rank admin) (role_rank role)

unfoldable pub role_str : Role → Text
role_str member = txt "member"
role_str admin = txt "admin"
role_str debug = txt "debug"

unfoldable pub from_db : Text → Role
from_db s = if s == txt "debug" then debug else if s == txt "admin" then admin else member

pub record Identity : Type 0 where
  pub uid : ℤ
  pub login : Text
  pub role : Role

unfoldable pub owns_or_admin : Identity → ℤ → Bool
unfolding at_least_admin
owns_or_admin identity owner_uid = (identity.uid == owner_uid) || at_least_admin identity.role

pub data PackLevel : Type 0 where
  view : PackLevel
  edit : PackLevel
  own : PackLevel

-- the derived `Ord`: the order of declaration
unfoldable pub level_rank : PackLevel → ℕ
level_rank view = 0
level_rank edit = 1
level_rank own = 2

-- `level >= need`
unfoldable pub covers : PackLevel → PackLevel → Bool
unfolding level_rank
covers level need = leb (level_rank need) (level_rank level)

unfoldable pub level_str : PackLevel → Text
level_str view = txt "view"
level_str edit = txt "edit"
level_str own = txt "own"

unfoldable pub parse_level : Text → Option PackLevel
parse_level s =
    if s == txt "view"
    then some view
    else if s == txt "edit"
    then some edit
    else if s == txt "own"
    then some own
    else none

pub parse_level-level_str : (level : PackLevel) → parse_level (level_str level) ≡ some level
unfolding parse_level level_str txt text_eq
parse_level-level_str view = refl
parse_level-level_str edit = refl
parse_level-level_str own = refl

pub from_db-role_str : (role : Role) → from_db (role_str role) ≡ role
unfolding from_db role_str txt text_eq
from_db-role_str member = refl
from_db-role_str admin = refl
from_db-role_str debug = refl

abbrev pub break_glass_uid : ℤ
break_glass_uid = pos 0

-- `users`, in src/accounts/schema.sql
pub record User : Type 0 where
  pub id : ℕ
  pub github_uid : ℤ
  pub login : Text
  pub role : Text
  pub created_at : ℕ
  pub last_login_at : ℕ

pub record Suspension : Type 0 where
  pub reason : Option Text
  pub by_uid : ℤ
  pub by_login : Option Text
  pub at : ℕ

-- What the HTTP layer asks the store. A read that fails, in the database or in the task that runs
-- it, answers `err`.
pub record AccountReads : Type 0 where
  pub pack_access_level : Text → ℤ → Result (Option PackLevel)
  pub packs_granted_to : ℤ → Result (List (Text × PackLevel))
  pub identity_of : ℤ → Result (Option Identity)
  pub suspension_of : ℤ → Result (Option Suspension)
  pub session_identity : Text → Result (Option Identity)
