-- ===== src/Registry/Tests.antt =====
-- The theorems on src/registry/classify.rs at a small database.
use smrt.Base.{
  ◌≡◌, refl, ap, ◌∙◌, Option, none, some, nat_eq, if◌then◌else◌, ℕ-Eq, Text, txt, text_eq, Text-Eq,
}
use smrt.Base.Results.{Result, ok, err}
use smrt.Domain.Side.{
  client, MatchPolicy, must_match, parse_side, parse_policy, side_from_modrinth_env, known,
}
use smrt.Registry.Classify.{
  Classification, JarClassRow, non_mod_kind, client_verdict_is_soft, Db, row_side, row_policy,
  decide, classify_artifact,
}
use smrt.Registry.Classify.Cascade.{classify_ne_client_must_match}

abbrev weak_client : JarClassRow
weak_client = record {
  kind = txt "mod";
  side = some (txt "client");
  match_policy = none;
  side_confidence = some (txt "low");
}

-- every jar is scanned as a client's with low confidence, and mod 7 is optional on both sides
abbrev db : Db
db = record {
  jar_class_for_sha1 = λ s. ok (some weak_client);
  env_of_mod = λ id.
      if nat_eq id 7 then ok (some (some (txt "optional"), some (txt "optional"))) else ok none;
}

abbrev soft_verdict : Classification
soft_verdict = decide (some weak_client) none

abbrev both_verdict : Classification
both_verdict = decide (some weak_client) (some (some (txt "optional"), some (txt "optional")))

abbrev policy_of : Result (Option JarClassRow) → Option MatchPolicy
policy_of (ok r) = row_policy r
policy_of (err e) = none

no_row :
    (sha : Text) (j : JarClassRow)
    → db.jar_class_for_sha1 sha ≡ ok (some j)
    → ¬ ((row_side (some j) ≡ some client) × (row_policy (some j) ≡ some must_match))
no_row sha j e (side, policy) = cc (ap policy_of e ∙ policy)

classify_ne_client_must_match_example :
    ¬ ((soft_verdict.side ≡ some client) × (soft_verdict.policy ≡ some must_match))
unfolding classify_artifact decide client_verdict_is_soft non_mod_kind parse_side parse_policy
    side_from_modrinth_env known txt text_eq
classify_ne_client_must_match_example =
    classify_ne_client_must_match db none (some (txt "ab")) {c = soft_verdict} no_row refl
