-- ===== src/Registry/Classify.antt =====
-- src/registry/classify.rs: the one decision layer for a mod's side and match policy. The rows
-- that the two queries read from the database are a parameter, `Db`.
pub mod Cascade
use smrt.Base.{
  ℕ, ◌-◌, ◌/◌, Bool, true, false, ◌&&◌, ◌||◌, Option, none, some, if◌then◌else◌, Eq, ◌==◌, ℕ-Eq,
  is_some, Text, txt, Text-Eq,
}
use smrt.Base.Results.{Result, ok, err, ◌>>=◌}
use smrt.Domain.Side.{
  SideClass, client, server, both, MatchPolicy, must_match, tolerant, side_eq, SideClass-Eq,
  parse_side, parse_policy, side_from_modrinth_env,
}

pub data Provenance : Type 0 where
  jar_kind modrinth_env bytecode unclassified : Provenance

unfoldable pub provenance_str : Provenance → Text
provenance_str jar_kind = txt "jar-kind"
provenance_str modrinth_env = txt "modrinth-env"
provenance_str bytecode = txt "bytecode"
provenance_str unclassified = txt "unclassified"

pub record Classification : Type 0 where
  pub side : Option SideClass
  pub policy : Option MatchPolicy
  pub kind : Option Text
  pub provenance : Provenance
  pub bytecode_side : Option SideClass
  pub bytecode_policy : Option MatchPolicy
  pub side_confidence : Option Text
  pub optional_both : Bool

-- `jar_class` in src/registry/model.rs
pub record JarClassRow : Type 0 where
  pub kind : Text
  pub side : Option Text
  pub match_policy : Option Text
  pub side_confidence : Option Text

-- `matches!(self.as_deref(), Some(word))`
abbrev pub is_word : Text → Option Text → Bool
is_word w none = false
is_word w (some t) = t == w

unfoldable pub non_mod_kind : Option Text → Bool
non_mod_kind kind = is_word (txt "coremod") kind || is_word (txt "library") kind

unfoldable pub is_non_mod : Classification → Bool
is_non_mod c = non_mod_kind c.kind

-- the pair of sides that differ, where the flags decided one and the bytecode the other
abbrev disagree : Provenance → Option SideClass → Option SideClass → Option (SideClass × SideClass)
disagree modrinth_env (some win) (some bc) = if win == bc then none else some (win, bc)
disagree _ _ _ = none

unfoldable pub side_disagreement : Classification → Option (SideClass × SideClass)
side_disagreement c = disagree c.provenance c.side c.bytecode_side

abbrev pub is_client : Option SideClass → Bool
is_client (some client) = true
is_client _ = false

abbrev is_bytecode : Provenance → Bool
is_bytecode bytecode = true
is_bytecode _ = false

unfoldable pub client_verdict_is_soft : Classification → Bool
client_verdict_is_soft c =
    is_client c.side && is_bytecode c.provenance && is_word (txt "low") c.side_confidence

abbrev pub EnvRow : Type 0
EnvRow = Option Text × Option Text

-- The two queries: the scan of a jar, and the environment flags of a mod.
pub record Db : Type 0 where
  pub jar_class_for_sha1 : Text → Result (Option JarClassRow)
  pub env_of_mod : ℕ → Result (Option EnvRow)

abbrev pub env_flags : Option EnvRow → Option (SideClass × MatchPolicy)
env_flags (some (some c, some s)) = side_from_modrinth_env c s
env_flags _ = none

abbrev pub both_optional : Option EnvRow → Bool
both_optional none = false
both_optional (some (c, s)) = is_word (txt "optional") c && is_word (txt "optional") s

abbrev pub row_side : Option JarClassRow → Option SideClass
row_side none = none
row_side (some j) = elim (j.side) [ none ↦ none | some s ↦ parse_side s ]

abbrev pub row_policy : Option JarClassRow → Option MatchPolicy
row_policy none = none
row_policy (some j) = elim (j.match_policy) [ none ↦ none | some p ↦ parse_policy p ]

abbrev pub row_confidence : Option JarClassRow → Option Text
row_confidence none = none
row_confidence (some j) = j.side_confidence

abbrev pub row_kind : Option JarClassRow → Option Text
row_kind none = none
row_kind (some j) = some j.kind

-- the branches of `let out = if ..`, over the two rows
unfoldable pub decide : Option JarClassRow → Option EnvRow → Classification
decide jar env =
    let base : Classification = record {
      side = none;
      policy = none;
      kind = row_kind jar;
      provenance = unclassified;
      bytecode_side = row_side jar;
      bytecode_policy = row_policy jar;
      side_confidence = none;
      optional_both = false;
    } in
    if non_mod_kind (row_kind jar)
    then record base { provenance = jar_kind }
    else elim (env_flags env) [
      | some (side, policy) ↦ record base {
        side = some side;
        policy = some policy;
        provenance = modrinth_env;
        side_confidence = some (txt "high");
        optional_both = both_optional env;
      }
      | none ↦
          if is_some (row_side jar) || is_some (row_policy jar)
          then record base {
            side = row_side jar;
            policy = row_policy jar;
            provenance = bytecode;
            side_confidence = row_confidence jar;
          }
          else base
    ]

abbrev pub lookup_jar : Db → Option Text → Result (Option JarClassRow)
lookup_jar db none = ok none
lookup_jar db (some s) = db.jar_class_for_sha1 s

abbrev pub lookup_env : Db → Option ℕ → Result (Option EnvRow)
lookup_env db none = ok none
lookup_env db (some id) = db.env_of_mod id

unfoldable pub classify_artifact : Db → Option ℕ → Option Text → Result Classification
classify_artifact db mod_id sha1 = do
  jar ← lookup_jar db sha1
  env ← lookup_env db mod_id
  ok (decide jar env)
