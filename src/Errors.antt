-- ===== src/Errors.antt =====
-- app/errors.py: the taxonomy of request-time errors, their HTTP statuses and types.
use real_guard_v.Prelude.{ℕ, Option, none, some, ◌≡◌, refl, ◌⊎◌, inl, inr}

pub data ErrorCode : Type 0 where
  invalid_request unsupported_field payload_too_large invalid_authentication : ErrorCode
  insufficient_privilege rate_limited policy_denied idempotency_conflict : ErrorCode
  detector_unavailable policy_unavailable upstream_timeout upstream_error : ErrorCode
  invalid_upstream_response approval_expired approval_not_found transaction_not_found : ErrorCode
  database_error self_approval_forbidden invalid_approval_state internal_error : ErrorCode
  csrf_token_invalid : ErrorCode

-- `ERROR_STATUS`
abbrev pub error_status : ErrorCode → ℕ
error_status invalid_request = 400
error_status unsupported_field = 400
error_status payload_too_large = 413
error_status invalid_authentication = 401
error_status insufficient_privilege = 403
error_status rate_limited = 429
error_status policy_denied = 403
error_status idempotency_conflict = 409
error_status detector_unavailable = 403
error_status policy_unavailable = 503
error_status upstream_timeout = 504
error_status upstream_error = 502
error_status invalid_upstream_response = 502
error_status approval_expired = 409
error_status approval_not_found = 404
error_status transaction_not_found = 404
error_status database_error = 503
error_status self_approval_forbidden = 403
error_status invalid_approval_state = 409
error_status internal_error = 500
error_status csrf_token_invalid = 403

-- What a call raises: a `FirewallError` with its code and status, a failed `assert`, or a
-- violated uniqueness constraint of the database, or an access or a value that is
-- not one the call takes.
pub data Error : Type 0 where
  firewall : ErrorCode → ℕ → Error
  assertion_error : Error
  integrity_error : Error
  type_error : Error
  value_error : Error

-- `FirewallError(code, ..., status=...)`
abbrev pub firewall_error : ErrorCode → Option ℕ → Error
firewall_error code none = firewall code (error_status code)
firewall_error code (some status) = firewall code status

pub data Result {ℓ} (A : Type ℓ) : Type ℓ where
  ok : A → Result A
  err : Error → Result A

pub Result-cases {ℓ} :
    {A : Type ℓ} (r : Result A) → ((a : A) × (r ≡ ok a)) ⊎ ((e : Error) × (r ≡ err e))
Result-cases (ok a) = inl (a, refl)
Result-cases (err e) = inr (e, refl)

-- What a call that may raise is followed by.
abbrev pub and_then {ℓ κ} : {A : Type ℓ} {B : Type κ} → Result A → (A → Result B) → Result B
and_then (ok a) f = f a
and_then (err e) f = err e

-- What returned has returned in both parts.
pub and_then-eq-ok {ℓ κ} :
    {A : Type ℓ} {B : Type κ} (r : Result A) (f : A → Result B) {b : B}
    → and_then r f ≡ ok b
    → (a : A) × (r ≡ ok a) × (f a ≡ ok b)
and_then-eq-ok (ok a) f h = (a, refl, h)
and_then-eq-ok (err e) f h = cc
