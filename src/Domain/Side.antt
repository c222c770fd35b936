-- ===== src/Domain/Side.antt =====
-- src/domain/side.rs: the side a mod runs on, its match policy, its presence class, and what a
-- project's environment flags say of them.
pub mod Env
use smrt.Base.{
  ◌-◌, ◌/◌, ◌≡◌, ◌↔◌, Bool, true, false, not, ◌&&◌, ◌||◌, Option, none, some, arith, if◌then◌else◌,
  Eq, ◌==◌, ℕ-Eq, Text, txt, Text-Eq,
}

pub data SideClass : Type 0 where
  client server both : SideClass

pub data MatchPolicy : Type 0 where
  must_match tolerant : MatchPolicy

pub data PresenceClass : Type 0 where
  required optional_client optional_server optional_both coremod : PresenceClass

unfoldable pub side_eq : SideClass → SideClass → Bool
side_eq client client = true
side_eq server server = true
side_eq both both = true
side_eq _ _ = false

pub side_eq_iff : (a b : SideClass) → (side_eq a b ≡ true) ↔ (a ≡ b)
unfolding side_eq
side_eq_iff a b = ground arith

instance abbrev pub SideClass-Eq : Eq SideClass
SideClass-Eq = record { same = side_eq; same_iff = side_eq_iff }

unfoldable pub policy_eq : MatchPolicy → MatchPolicy → Bool
policy_eq must_match must_match = true
policy_eq tolerant tolerant = true
policy_eq _ _ = false

pub policy_eq_iff : (a b : MatchPolicy) → (policy_eq a b ≡ true) ↔ (a ≡ b)
unfolding policy_eq
policy_eq_iff a b = ground arith

instance abbrev pub MatchPolicy-Eq : Eq MatchPolicy
MatchPolicy-Eq = record { same = policy_eq; same_iff = policy_eq_iff }

-- `as_str` and `parse` of each type
unfoldable pub side_str : SideClass → Text
side_str client = txt "client"
side_str server = txt "server"
side_str both = txt "both"

unfoldable pub parse_side : Text → Option SideClass
parse_side s =
    if s == txt "client"
    then some client
    else if s == txt "server"
    then some server
    else if s == txt "both"
    then some both
    else none

unfoldable pub policy_str : MatchPolicy → Text
policy_str must_match = txt "must_match"
policy_str tolerant = txt "tolerant"

unfoldable pub parse_policy : Text → Option MatchPolicy
parse_policy s =
    if s == txt "must_match"
    then some must_match
    else if s == txt "tolerant"
    then some tolerant
    else none

unfoldable pub presence_str : PresenceClass → Text
presence_str required = txt "required"
presence_str optional_client = txt "optional_client"
presence_str optional_server = txt "optional_server"
presence_str optional_both = txt "optional_both"
presence_str coremod = txt "coremod"

unfoldable pub known : Text → Bool
known v = v == txt "required" || v == txt "optional" || v == txt "unsupported"

unfoldable pub side_from_modrinth_env : Text → Text → Option (SideClass × MatchPolicy)
unfolding known
side_from_modrinth_env client_env server_env =
    let policy =
      if client_env == txt "required" && server_env == txt "required"
      then must_match
      else tolerant in
    if not (known client_env) || not (known server_env)
    then none
    else if client_env == txt "unsupported"
    then if server_env == txt "unsupported" then none else some (server, policy)
    else if server_env == txt "unsupported"
    then some (client, policy)
    else some (both, policy)
