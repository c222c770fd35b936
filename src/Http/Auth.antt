-- ===== src/Http/Auth.antt =====
-- src/http/auth.rs: who is calling, and what they may do to a pack. The accounts store is the interface
-- `AccountReads`, each of whose reads may fail.
pub mod Gate
pub mod Store
use smrt.Base.{
  ◌+◌, ◌-◌, ◌/◌, ◌<◌, min, Bool, true, false, not, Option, none, some, List, [], ◌++◌,
  if◌then◌else◌, ◌==◌, ℕ-Eq, ◌>>=◌, retain, all, Text, txt, Text-Eq, strip_prefix, split_once,
  split, ℤ, ℤ-Eq, parse_i64,
}
use smrt.Base.Results.{Result, err, ok}
use smrt.Keyed.{last_with}
use smrt.Accounts.{
  Role, member, admin, debug, role_rank, at_least_admin, Identity, PackLevel, view, edit, own,
  covers, AccountReads, Suspension,
}
use smrt.Http.{ApiError, forbidden, unauthorized, refused, internal, Reply, fail, done}

-- `.ok()` of the task, then `.ok()` of the read
abbrev pub read_or_none {ℓ} : {A : Type ℓ} → Result (Option A) → Option A
read_or_none (err message) = none
read_or_none (ok found) = found

-- `u/<uid>/<pack>`
unfoldable pub pack_namespace_uid : Text → Option ℤ
pack_namespace_uid pack_id = do
  rest ← strip_prefix (txt "u/") pack_id
  pack ← (split_once b'/' rest).1
  parse_i64 (split_once b'/' rest).0

abbrev owns_namespace : ℤ → Option ℤ → Option PackLevel
owns_namespace uid none = none
owns_namespace uid (some owner) = if uid == owner then some own else none

unfoldable pub inherent_level : Identity → Text → Option PackLevel
unfolding at_least_admin pack_namespace_uid
inherent_level identity pack_id =
    if at_least_admin identity.role
    then some own
    else owns_namespace identity.uid (pack_namespace_uid pack_id)

abbrev suspension_message : Option Text → Text
suspension_message none = txt "this account is suspended"
suspension_message (some reason) = txt "this account is suspended. reason: " ++ reason

abbrev pub covers_some : Option PackLevel → PackLevel → Bool
covers_some none need = false
covers_some (some level) need = covers level need

abbrev pub allowed : Bool → Reply {0} Unit
allowed yes_or_no = if yes_or_no then done tt else fail forbidden

module _ (reads : AccountReads) where
  unfoldable pub not_suspended : Identity → Reply {0} Unit
  not_suspended identity =
      if at_least_admin identity.role
      then done tt
      else elim (read_or_none (reads.suspension_of identity.uid)) [
        | none ↦ done tt
        | some suspension ↦ fail (refused (suspension_message suspension.reason))
      ]

  unfoldable pub granted_level : ℤ → Text → Option PackLevel
  granted_level uid pack_id = read_or_none (reads.pack_access_level pack_id uid)

  -- the part of `authorize` behind the suspension check
  abbrev pub by_level : Identity → Text → PackLevel → Reply {0} Unit
  by_level identity pack_id need = elim (inherent_level identity pack_id) [
    | some level ↦ allowed (covers level need)
    | none ↦ allowed (covers_some (granted_level identity.uid pack_id) need)
  ]

  unfoldable pub authorize : Identity → Text → PackLevel → Reply {0} Unit
  unfolding not_suspended granted_level
  authorize identity pack_id need =
      if covers need edit
      then elim (not_suspended identity) [
        | fail error ↦ fail error
        | done u ↦ by_level identity pack_id need
      ]
      else by_level identity pack_id need

  unfoldable pub may : Identity → Text → PackLevel → Bool
  may identity pack_id need = elim (authorize identity pack_id need) [
    | fail error ↦ false
    | done u ↦ true
  ]

  abbrev or_member : ℤ → Option Identity → Identity
  or_member uid none = record { uid = uid; login = []; role = member }
  or_member uid (some identity) = identity

  unfoldable pub may_uid : Text → ℤ → PackLevel → Bool
  may_uid pack_id uid need = may (or_member uid (read_or_none (reads.identity_of uid))) pack_id need

  abbrev pub granted_to : ℤ → List (Text × PackLevel)
  granted_to uid = elim (reads.packs_granted_to uid) [ err message ↦ [] | ok granted ↦ granted ]

  -- the test of `filter_may`
  abbrev pub reachable : Identity → PackLevel → Text → Bool
  reachable identity need id = elim (inherent_level identity id) [
    | some level ↦ covers level need
    | none ↦ elim (last_with (λ g. g.0) id (granted_to identity.uid)) [
      | none ↦ false
      | some granted ↦ covers granted.1 need
    ]
  ]

  unfoldable pub filter_may : Identity → List Text → PackLevel → List Text
  filter_may identity packs need = retain (reachable identity need) packs
