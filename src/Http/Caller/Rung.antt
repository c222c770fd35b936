-- ===== src/Http/Caller/Rung.antt =====
-- How a caller of src/http/auth.rs comes by a rung: the comparison of secrets, and what the guards of the
-- operator and debug surfaces let through.
use smrt.Base.{
  ℕ, ◌<◌, ◌≡◌, refl, sym, ap, ◌∙◌, ◌↔◌, ◌⊎◌, inl, inr, true, false, Option, none, some, List, [],
  ◌∷◌, ◌++◌, arith, ltb, nat_eq, nat_eq_iff, ℕ-Eq, Bool-cases, Option-cases, ◌>>=◌, length, Text,
  txt, Text-Eq, strip_prefix, ℤ-Eq, bit_xor, bit_or, bit_xor_zero, bit_or_zero, bit_xor_bound,
  bit_or_bound, utf8, as_bytes,
}
use mathlib.Core.Path.{subst}
use smrt.Base.Splits.{strip_prefix-some}
use smrt.Base.Results.{Result, err, ok}
use smrt.Http.Auth.{read_or_none}
use mathlib.Core.Option.{some_inj}
use mathlib.Core.Logic.{⊎_elim}
use smrt.Accounts.{Role, member, admin, debug, role_rank, Identity, AccountReads}
use smrt.Http.{done, done_inj}
use smrt.Http.Caller.{
  HeaderMap, Config, fold_diff, constant_time_eq, token_is, by_bearer, by_session, cookie_value,
  cookie_name, break_glass, resolve_identity, require_rung, require_debug,
}

abbrev pub IsBytes : List ℕ → Type 0
IsBytes [] = Unit
IsBytes (x ∷ xs) = (x < 256) × IsBytes xs

fold_diff_zero :
    (diff : ℕ) (a b : List ℕ)
    → diff < 256
    → length a ≡ length b
    → IsBytes a
    → IsBytes b
    → (fold_diff diff a b ≡ 0) ↔ ((diff ≡ 0) × (a ≡ b))
unfolding fold_diff
fold_diff_zero diff [] [] d l p q = ground arith
fold_diff_zero diff [] (y ∷ b) d l p q = absurd (omega (arith, l))
fold_diff_zero diff (x ∷ a) [] d l p q = absurd (omega (arith, l))
fold_diff_zero diff (x ∷ a) (y ∷ b) d l p q =
    let rest =
      fold_diff_zero (bit_or 8 diff (bit_xor 8 x y)) a b (bit_or_bound 8 diff (bit_xor 8 x y))
        (omega (arith, l)) p.1 q.1 in
    let any = bit_or_zero 8 diff (bit_xor 8 x y) d (bit_xor_bound 8 x y) in
    let same = bit_xor_zero 8 x y p.0 q.0 in ground (arith, rest, any, same)

-- The comparison that does not stop at the first difference is equality of bytes.
pub constant_time_eq_iff :
    (a b : List ℕ) → IsBytes a → IsBytes b → (constant_time_eq a b ≡ true) ↔ (a ≡ b)
unfolding constant_time_eq
constant_time_eq_iff a b p q = elim (Bool-cases (nat_eq (length a) (length b))) [
  | inl e ↦
      let zero_iff =
        fold_diff_zero 0 a b (omega arith) ((nat_eq_iff (length a) (length b)).0 e) p q in
      rw (e, constant_time_eq)
        (λ h. (zero_iff.0 ((nat_eq_iff _ _).0 h)).1, λ h. (nat_eq_iff _ _).1 (zero_iff.1 (refl, h)))
  | inr e ↦
      rw (e, constant_time_eq)
        (λ h. cc, λ h. absurd (cc (e, (nat_eq_iff (length a) (length b)).1 (ap length h))))
]

-- the token that the request bears
abbrev pub bearer : HeaderMap → Option Text
bearer headers = headers.authorization >>= λ s. strip_prefix (txt "Bearer ") s

-- code points, as those of every `str`
abbrev pub IsText : Text → Type 0
IsText [] = Unit
IsText (c ∷ s) = (c < 1114112) × IsText s

abbrev pub IsTextOf : Option Text → Type 0
IsTextOf none = Unit
IsTextOf (some s) = IsText s

append-IsBytes : (a b : List ℕ) → IsBytes a → IsBytes b → IsBytes (a ++ b)
append-IsBytes [] b p q = q
append-IsBytes (x ∷ a) b p q = (p.0, append-IsBytes a b p.1 q)

utf8-IsBytes : (c : ℕ) → c < 1114112 → IsBytes (utf8 c)
unfolding utf8
utf8-IsBytes c h = ground arith

as_bytes-IsBytes : (s : Text) → IsText s → IsBytes (as_bytes s)
unfolding as_bytes
as_bytes-IsBytes [] h = tt
as_bytes-IsBytes (c ∷ s) h =
    append-IsBytes (utf8 c) (as_bytes s) (utf8-IsBytes c h.0) (as_bytes-IsBytes s h.1)

-- The request bears the operators' token for this rung, byte for byte, which makes the caller nobody in
-- particular.
abbrev pub HasToken : Option Text → Role → HeaderMap → Identity → Type 0
HasToken expected rung headers identity =
    (secret : Text) × (token : Text) × (expected ≡ some secret)
    × (bearer headers ≡ some token)
    × (as_bytes secret ≡ as_bytes token)
    × (identity ≡ break_glass rung)

token_is-some :
    (expected : Option Text) (token : Text)
    → IsTextOf expected
    → IsText token
    → token_is expected token ≡ true
    → (secret : Text) × (expected ≡ some secret) × (as_bytes secret ≡ as_bytes token)
unfolding token_is
token_is-some none token p q h = cc
token_is-some (some secret) token p q h = (
  secret,
  refl,
  (constant_time_eq_iff (as_bytes secret) (as_bytes token) (as_bytes-IsBytes secret p)
        (as_bytes-IsBytes token q)).0
      h,
)

append-IsText : (a b : Text) → IsText (a ++ b) → IsText b
append-IsText [] b h = h
append-IsText (c ∷ a) b h = append-IsText a b h.1

bearer-IsText :
    (o : Option Text) (token : Text)
    → IsTextOf o
    → (o >>= λ s. strip_prefix (txt "Bearer ") s) ≡ some token
    → IsText token
bearer-IsText none token p h = cc
bearer-IsText (some s) token p h =
    append-IsText (txt "Bearer ") token
      (subst IsText (strip_prefix-some (txt "Bearer ") s token h) p)

-- The request names a session that the store knows to be this person's.
abbrev pub HasSession : AccountReads → HeaderMap → Identity → Type 0
HasSession reads headers identity =
    (sid : Text) × (cookie_value headers cookie_name ≡ some sid)
    × (reads.session_identity sid ≡ ok (some identity))

-- The configured tokens and the header are texts.
record IsWritten (config : Config) (headers : HeaderMap) : Type 0 where
  debug_text : IsTextOf config.debug_token
  admin_text : IsTextOf config.admin_token
  header_text : IsTextOf headers.authorization

by_bearer_cases :
    (config : Config) (headers : HeaderMap) (identity : Identity)
    → IsWritten config headers
    → by_bearer config (bearer headers) ≡ some identity
    → HasToken config.debug_token debug headers identity
      ⊎ HasToken config.admin_token admin headers identity
unfolding by_bearer
by_bearer_cases config headers identity w h = elim (Option-cases (bearer headers)) [
  | inl e ↦ cc (rw (e, by_bearer) at h)
  | inr (token, e) ↦
      let t = bearer-IsText headers.authorization token w.header_text e in
      elim (Bool-cases (token_is config.debug_token token)) [
        | inl d ↦
            let (secret, f, same) = token_is-some config.debug_token token w.debug_text t d in
            inl (secret, token, f, e, same, sym (some_inj.0 (rw (e, by_bearer, d) at h)))
        | inr n ↦ elim (Bool-cases (token_is config.admin_token token)) [
          | inl a ↦
              let (secret, f, same) = token_is-some config.admin_token token w.admin_text t a in
              inr (secret, token, f, e, same, sym (some_inj.0 (rw (e, by_bearer, n, a) at h)))
          | inr m ↦ cc (rw (e, by_bearer, n, m) at h)
        ]
      ]
]

read_some {ℓ} :
    {A : Type ℓ} (r : Result (Option A)) (a : A) → read_or_none r ≡ some a → r ≡ ok (some a)
read_some (err m) a h = cc
read_some (ok o) a h = ap ok h

by_session_cases :
    (reads : AccountReads) (headers : HeaderMap) (identity : Identity)
    → by_session reads (cookie_value headers cookie_name) ≡ some identity
    → HasSession reads headers identity
unfolding by_session
by_session_cases reads headers identity h = elim (Option-cases (cookie_value headers cookie_name)) [
  | inl e ↦ cc (rw (e, by_session) at h)
  | inr (sid, e) ↦
      (sid, e, read_some (reads.session_identity sid) identity (rw (e, by_session) at h))
]

-- where an identity comes from
resolve_identity_cases :
    (config : Config) (reads : AccountReads) (headers : HeaderMap) (identity : Identity)
    → IsWritten config headers
    → resolve_identity config reads headers ≡ some identity
    → HasToken config.debug_token debug headers identity
      ⊎ HasToken config.admin_token admin headers identity
      ⊎ HasSession reads headers identity
unfolding resolve_identity
resolve_identity_cases config reads headers identity w h =
    elim (Option-cases (by_bearer config (bearer headers))) [
      | inl e ↦ inr (inr (by_session_cases reads headers identity (rw (e, resolve_identity) at h)))
      | inr (i, e) ↦
          ⊎_elim inl (λ a. inr (inl a))
            (by_bearer_cases config headers identity w (e ∙ rw (e, resolve_identity) at h))
    ]

debug_rank : (role : Role) → ltb (role_rank role) (role_rank debug) ≡ false → role ≡ debug
unfolding role_rank
debug_rank member h = cc
debug_rank admin h = cc
debug_rank debug h = refl

require_debug-done :
    (config : Config) (reads : AccountReads) (headers : HeaderMap) (identity : Identity)
    → require_debug config reads headers ≡ done identity
    → (resolve_identity config reads headers ≡ some identity) × (identity.role ≡ debug)
unfolding require_debug
require_debug-done config reads headers identity h =
    elim (Option-cases (resolve_identity config reads headers)) [
      | inl e ↦ cc (rw (e, require_debug, require_rung) at h)
      | inr (i, e) ↦ elim (Bool-cases (ltb (role_rank i.role) (role_rank debug))) [
        | inl low ↦ cc (rw (e, require_debug, require_rung, low) at h)
        | inr high ↦
            let same : i ≡ identity =
              done_inj i identity (rw (e, require_debug, require_rung, high) at h) in
            (
              e ∙ ap {B = Option Identity} some same,
              ap (λ p. p.role) (sym same) ∙ debug_rank i.role high,
            )
      ]
    ]

-- Nobody reaches the debug surface but with the debug token, equal byte for byte to the configured
-- one, or by a session of an account whose role is debug: the admin token does not open it. That is
-- where the tokens and the header are made of code points.
pub require_debug_cases :
    (config : Config) (reads : AccountReads) (headers : HeaderMap) (identity : Identity)
    → IsTextOf config.debug_token
    → IsTextOf config.admin_token
    → IsTextOf headers.authorization
    → require_debug config reads headers ≡ done identity
    → HasToken config.debug_token debug headers identity
      ⊎ (HasSession reads headers identity × (identity.role ≡ debug))
require_debug_cases config reads headers identity d a t h =
    let (resolved, rung) = require_debug-done config reads headers identity h in
    ⊎_elim inl
      (λ k.
        ⊎_elim (λ (secret, token, f, bears, same, e). absurd (cc (rung, ap (λ p. p.role) e)))
          (λ s. inr (s, rung)) k)
      (resolve_identity_cases config reads headers identity
        (record { debug_text = d; admin_text = a; header_text = t }) resolved)
