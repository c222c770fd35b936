-- ===== src/Domain/Side/Env.antt =====
-- What the environment flags decide (src/domain/side.rs), and the round trips of the vocabularies.
use smrt.Base.{
  ◌≡◌, refl, sym, ◌∙◌, ◌≢◌, ◌↔◌, false, some, arith, ℕ-Eq, Text, txt, text_eq, text_eq_iff, Text-Eq,
}
use smrt.Domain.Side.{
  SideClass, side_str, parse_side, policy_str, parse_policy, client, server, both, MatchPolicy,
  must_match, tolerant, side_from_modrinth_env,
}

-- The words that the flags use are told apart by their first code points.
words_apart :
    (text_eq (txt "required") (txt "unsupported") ≡ false)
    × (text_eq (txt "required") (txt "optional") ≡ false)
    × (text_eq (txt "optional") (txt "unsupported") ≡ false)
unfolding text_eq txt
words_apart = (refl, refl, refl)

side_words :
    (text_eq (txt "server") (txt "client") ≡ false)
    × (text_eq (txt "both") (txt "client") ≡ false)
    × (text_eq (txt "both") (txt "server") ≡ false)
    × (text_eq (txt "tolerant") (txt "must_match") ≡ false)
unfolding text_eq txt
side_words = (refl, refl, refl, refl)

-- `parse` reads a text as a side exactly when the text is what `as_str` writes for that side.
pub parse_side_iff : (s : SideClass) (t : Text) → (parse_side t ≡ some s) ↔ (t ≡ side_str s)
unfolding parse_side side_str
parse_side_iff s t = ground (
  arith,
  side_words,
  text_eq_iff t (txt "client"),
  text_eq_iff t (txt "server"),
  text_eq_iff t (txt "both"),
)

-- `parse` reads a text as a policy exactly when the text is what `as_str` writes for that policy.
pub parse_policy_iff : (p : MatchPolicy) (t : Text) → (parse_policy t ≡ some p) ↔ (t ≡ policy_str p)
unfolding parse_policy policy_str
parse_policy_iff p t =
    ground (arith, side_words, text_eq_iff t (txt "must_match"), text_eq_iff t (txt "tolerant"))

-- Where the flags decide, the policy is `must_match` exactly when both are `required`, the side is
-- the server's exactly when the client's flag is `unsupported`, and the client's exactly when the
-- server's flag is.
pub env_decides :
    (c s : Text) (side : SideClass) (policy : MatchPolicy)
    → side_from_modrinth_env c s ≡ some (side, policy)
    → ((policy ≡ must_match) ↔ ((c ≡ txt "required") × (s ≡ txt "required")))
      × ((side ≡ server) ↔ (c ≡ txt "unsupported"))
      × ((side ≡ client) ↔ (s ≡ txt "unsupported"))
unfolding side_from_modrinth_env
env_decides c s side policy h = ground (
  arith,
  words_apart,
  text_eq_iff c (txt "required"),
  text_eq_iff c (txt "optional"),
  text_eq_iff c (txt "unsupported"),
  text_eq_iff s (txt "required"),
  text_eq_iff s (txt "optional"),
  text_eq_iff s (txt "unsupported"),
)

-- The flags never make a client-side mod one that both sides must carry.
pub env_ne_client_must_match : (c s : Text) → side_from_modrinth_env c s ≢ some (client, must_match)
env_ne_client_must_match c s h =
    let (must, _, side) = env_decides c s client must_match h in
    let required_only = (must.0 refl).1 in
    let unsupported_only = side.0 refl in
    cc (
      words_apart.0,
      (text_eq_iff (txt "required") (txt "unsupported")).1 (sym required_only ∙ unsupported_only),
    )

pub env_optional : side_from_modrinth_env (txt "optional") (txt "optional") ≡ some (both, tolerant)
unfolding side_from_modrinth_env text_eq txt
env_optional = refl
