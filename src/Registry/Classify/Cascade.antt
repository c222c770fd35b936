-- ===== src/Registry/Classify/Cascade.antt =====
-- The order in which the sources of src/registry/classify.rs decide, and what it rules out.
use smrt.Base.{
  ℕ, ◌≡◌, refl, ap, ◌≢◌, ◌↔◌, true, Option, none, some, arith, ℕ-Eq, Text, txt, text_eq_iff,
  Text-Eq,
}
use smrt.Base.Results.{Result, ok, err, ◌>>=◌}
use smrt.Domain.Side.{SideClass, client, server, both, must_match, tolerant, side_eq_iff}
use smrt.Domain.Side.Env.{env_ne_client_must_match, env_optional}
use smrt.Registry.Classify.{
  Provenance, jar_kind, modrinth_env, Classification, JarClassRow, is_word, disagree, is_non_mod,
  side_disagreement, is_client, lookup_jar, lookup_env, client_verdict_is_soft, EnvRow, Db,
  env_flags, both_optional, row_side, row_policy, row_confidence, decide, classify_artifact,
}

-- A verdict is that of the two rows that the queries returned.
pub rows_of_verdict :
    (db : Db) (m : Option ℕ) (s : Option Text) {c : Classification}
    → classify_artifact db m s ≡ ok c
    → (jar : Option JarClassRow) × (env : Option EnvRow) × (lookup_jar db s ≡ ok jar)
      × (lookup_env db m ≡ ok env)
      × (c ≡ decide jar env)
unfolding classify_artifact
rows_of_verdict db m s {c} h = both_rows (lookup_jar db s) (lookup_env db m) h
  where
    both_rows :
        (p : Result (Option JarClassRow)) (q : Result (Option EnvRow))
        → (p >>= λ jar. q >>= λ env. ok (decide jar env)) ≡ ok c
        → (jar : Option JarClassRow) × (env : Option EnvRow) × (p ≡ ok jar)
          × (q ≡ ok env)
          × (c ≡ decide jar env)
    both_rows (ok jar) (ok env) e = (jar, env, refl, refl, cc)
    both_rows (ok jar) (err x) e = cc
    both_rows (err x) q e = cc

decide_kind :
    (jar : Option JarClassRow) (env : Option EnvRow)
    → let c = decide jar env in
      ((c.provenance ≡ jar_kind) ↔ (is_non_mod c ≡ true))
      × (is_non_mod c ≡ true → (c.side ≡ none) × (c.policy ≡ none))
unfolding decide is_non_mod
decide_kind jar env = ground arith

decide_soft :
    (jar : Option JarClassRow) (env : Option EnvRow)
    → client_verdict_is_soft (decide jar env) ≡ true
    → (env_flags env ≡ none)
      × (row_side jar ≡ some client)
      × (row_confidence jar ≡ some (txt "low"))
unfolding decide client_verdict_is_soft
decide_soft jar env h =
    soft (row_side jar) (row_confidence jar) (ground arith) (ground arith) (ground arith)
  where
    soft :
        (side : Option SideClass) (conf : Option Text)
        → env_flags env ≡ none
        → is_client side ≡ true
        → is_word (txt "low") conf ≡ true
        → (env_flags env ≡ none) × (side ≡ some client) × (conf ≡ some (txt "low"))
    soft (some client) (some t) e _ w =
        (e, refl, ap {B = Option Text} some ((text_eq_iff t (txt "low")).0 w))
    soft (some client) none e _ w = cc
    soft (some server) conf e k w = cc
    soft (some both) conf e k w = cc
    soft none conf e k w = cc

flags_ne_client_must_match : (env : Option EnvRow) → env_flags env ≢ some (client, must_match)
flags_ne_client_must_match (some (some c, some s)) h = env_ne_client_must_match c s h
flags_ne_client_must_match (some (some c, none)) h = cc
flags_ne_client_must_match (some (none, s)) h = cc
flags_ne_client_must_match none h = cc

decide_client :
    (jar : Option JarClassRow) (env : Option EnvRow)
    → (decide jar env).side ≡ some client
    → (decide jar env).policy ≡ some must_match
    → (row_side jar ≡ some client) × (row_policy jar ≡ some must_match)
unfolding decide
decide_client jar env h k = ground (arith, flags_ne_client_must_match env)

flags_optional :
    (env : Option EnvRow) → both_optional env ≡ true → env_flags env ≡ some (both, tolerant)
flags_optional (some (some c, some s)) h =
    let e = (text_eq_iff c (txt "optional")).0 (ground arith) in
    let f = (text_eq_iff s (txt "optional")).0 (ground arith) in rw (e, f) env_optional
flags_optional (some (some c, none)) h = ground arith
flags_optional (some (none, s)) h = cc
flags_optional none h = cc

decide_optional :
    (jar : Option JarClassRow) (env : Option EnvRow)
    → (decide jar env).optional_both ≡ true
    → ((decide jar env).provenance ≡ modrinth_env)
      × ((decide jar env).side ≡ some both)
      × ((decide jar env).policy ≡ some tolerant)
unfolding decide
decide_optional jar env h = ground (arith, flags_optional env)

-- A jar is decided by its kind alone exactly when the kind is not that of a mod, and such a jar
-- gets no side and no policy.
pub classify_kind :
    (db : Db) (m : Option ℕ) (s : Option Text) {c : Classification}
    → classify_artifact db m s ≡ ok c
    → ((c.provenance ≡ jar_kind) ↔ (is_non_mod c ≡ true))
      × (is_non_mod c ≡ true → (c.side ≡ none) × (c.policy ≡ none))
classify_kind db m s h =
    let (jar, env, _, _, e) = rows_of_verdict db m s h in rw e (decide_kind jar env)

-- A client verdict that a declared edge may outweigh rests on a scan of the jar that says `client`
-- with confidence `low`, and the project's flags decided nothing.
pub classify_soft :
    (db : Db) (m : Option ℕ) (s : Option Text) {c : Classification}
    → classify_artifact db m s ≡ ok c
    → client_verdict_is_soft c ≡ true
    → (jar : Option JarClassRow) × (env : Option EnvRow) × (lookup_jar db s ≡ ok jar)
      × (lookup_env db m ≡ ok env)
      × (env_flags env ≡ none)
      × (row_side jar ≡ some client)
      × (row_confidence jar ≡ some (txt "low"))
classify_soft db m s h soft =
    let (jar, env, a, b, e) = rows_of_verdict db m s h in
    let (flags, side, low) = decide_soft jar env (rw e at soft) in
    (jar, env, a, b, flags, side, low)

-- Where no scanned jar is recorded as client-side with policy `must_match`, no verdict is both.
pub classify_ne_client_must_match :
    (db : Db) (m : Option ℕ) (s : Option Text) {c : Classification}
    → ((sha : Text) (j : JarClassRow)
        → db.jar_class_for_sha1 sha ≡ ok (some j)
        → ¬ ((row_side (some j) ≡ some client) × (row_policy (some j) ≡ some must_match)))
    → classify_artifact db m s ≡ ok c
    → ¬ ((c.side ≡ some client) × (c.policy ≡ some must_match))
classify_ne_client_must_match db m s rows h (side, policy) =
    let (jar, env, a, _, e) = rows_of_verdict db m s h in
    refute s jar a (decide_client jar env (rw e at side) (rw e at policy))
  where
    refute :
        (s' : Option Text) (jar : Option JarClassRow)
        → lookup_jar db s' ≡ ok jar
        → ¬ ((row_side jar ≡ some client) × (row_policy jar ≡ some must_match))
    refute (some sha) (some j) a both_hold = rows sha j a both_hold
    refute (some sha) none a (x, y) = cc
    refute none (some j) a both_hold = cc
    refute none none a (x, y) = cc

-- A mod is optional on both sides by the word of its flags alone: such a verdict comes from them,
-- and is a tolerant both-side one.
pub classify_optional_both :
    (db : Db) (m : Option ℕ) (s : Option Text) {c : Classification}
    → classify_artifact db m s ≡ ok c
    → c.optional_both ≡ true
    → (c.provenance ≡ modrinth_env) × (c.side ≡ some both) × (c.policy ≡ some tolerant)
classify_optional_both db m s h o =
    let (jar, env, _, _, e) = rows_of_verdict db m s h in rw e (decide_optional jar env (rw e at o))

-- A reported disagreement names two different sides: the winner, decided by the flags, and that of
-- the bytecode; and where the flags decided one and the bytecode another, it is reported.
pub side_disagreement_iff :
    (c : Classification) (win bc : SideClass)
    → (side_disagreement c ≡ some (win, bc)) ↔ (
        (c.provenance ≡ modrinth_env)
        × (c.side ≡ some win)
        × (c.bytecode_side ≡ some bc)
        × (win ≢ bc))
unfolding side_disagreement
side_disagreement_iff c win bc = pair c.provenance c.side c.bytecode_side
  where
    pair :
        (p : Provenance) (s b : Option SideClass)
        → (disagree p s b ≡ some (win, bc))
          ↔ ((p ≡ modrinth_env) × (s ≡ some win) × (b ≡ some bc) × (win ≢ bc))
    pair p s b = ground (arith, side_eq_iff win bc)
