-- ===== src/Http.antt =====
-- src/http/error.rs: the errors that a handler answers with, and what a response says of them.
pub mod Auth
pub mod Caller
pub mod Page
mod Tests
use smrt.Base.{
  ℕ, ◌+◌, ◌-◌, ◌/◌, ◌<◌, ◌≡◌, refl, ◌⊎◌, inl, inr, not, ◌++◌, ℕ-Eq, all, Text, txt, Text-Eq, ℤ-Eq,
}

pub data ApiError : Type 0 where
  not_found : ApiError
  unauthorized : ApiError
  forbidden : ApiError
  refused : (said : Text) → ApiError
  bad_request : (what : Text) → ApiError
  conflict : (what : Text) → ApiError
  internal : (cause : Text) → ApiError

-- `#[error(...)]`, the `Display` of an error
unfoldable pub error_message : ApiError → Text
error_message not_found = txt "not found"
error_message unauthorized = txt "unauthorized"
error_message forbidden = txt "forbidden"
error_message (refused said) = txt "forbidden: " ++ said
error_message (bad_request what) = txt "bad request: " ++ what
error_message (conflict what) = txt "conflict: " ++ what
error_message (internal cause) = txt "internal: " ++ cause

-- the status and the code of `into_response`
unfoldable pub status_and_code : ApiError → ℕ × Text
status_and_code not_found = (404, txt "not_found")
status_and_code unauthorized = (401, txt "unauthorized")
status_and_code forbidden = (403, txt "forbidden")
status_and_code (refused said) = (403, txt "forbidden")
status_and_code (bad_request what) = (400, txt "bad_request")
status_and_code (conflict what) = (409, txt "conflict")
status_and_code (internal cause) = (500, txt "internal_error")

-- `Result<A, ApiError>`
pub data Reply {ℓ} (A : Type ℓ) : Type ℓ where
  fail : (error : ApiError) → Reply A
  done : (value : A) → Reply A

pub Reply-cases {ℓ} :
    {A : Type ℓ} (r : Reply A) → ((e : ApiError) × (r ≡ fail e)) ⊎ ((a : A) × (r ≡ done a))
Reply-cases (fail e) = inl (e, refl)
Reply-cases (done a) = inr (a, refl)

pub done_inj {ℓ} : {A : Type ℓ} (x y : A) → done x ≡ done y → x ≡ y
done_inj x y h = cc
