-- ===== src/Auth.antt =====
-- app/auth.py: who a caller is, by a bearer key or by a session cookie with a CSRF token, and the
-- guard on reviewers. The verification of cookies and tokens (app/session.py) and the hash of a key
-- are parameters.
pub mod Keys
pub mod Shown
pub mod Tests
use Prim.Native.Char.{code}
use real_guard_v.Prelude.{
  ℕ, ◌≡◌, ◌≢◌, refl, ◌∙◌, arith, ◌⊎◌, inl, inr, String, Bool, true, false, not, ◌||◌, ◌&&◌, Option,
  none, some, List, [], ◌∷◌, ◌++◌, if◌then◌else◌, str_eq, eq_iff, any, mem, ltb, ap,
}
use real_guard_v.Errors.{
  Result, ok, err, Error, firewall_error, invalid_authentication, csrf_token_invalid,
  insufficient_privilege, and_then, type_error,
}
use real_guard_v.Text.{Casing, codes, lower, same_codes}

pub data IdentityClass : Type 0 where
  service reviewer : IdentityClass

pub record Identity : Type 0 where
  pub identity_class : IdentityClass
  pub identity_id : String

pub record SessionData : Type 0 where
  pub session_id : String
  pub session_identity_id : String

pub record Credentials : Type 0 where
  pub service_keys : List String
  pub reviewer_keys : List String
  -- `key_id_for`, `verify_session_cookie` and `verify_csrf_token`
  pub key_id_for : String → String
  pub verify_session_cookie : Option String → Option SessionData
  pub verify_csrf_token : Option String → String → Bool

-- `header.partition(" ")`: what is before the first space, and what is after it.
abbrev pub partition : String → String × String
partition String.[] = (String.[], String.[])
partition (String.◌∷◌ c s) =
    let (before, after) = partition s in
    if str_eq (String.◌∷◌ c String.[]) " " then (String.[], s) else (String.◌∷◌ c before, after)

abbrev pub is_bearer : Casing → String → Bool
is_bearer u scheme = same_codes (lower u (codes scheme)) (codes "bearer")

abbrev pub no_keys : Credentials → Bool
no_keys s = elim (s.service_keys) [
  | [] ↦ elim (s.reviewer_keys) [ [] ↦ true | _ ↦ false ]
  | _ ↦ false
]

abbrev pub anonymous : Identity
anonymous = record { identity_class = service; identity_id = "svc_anonymous_dev" }

abbrev pub refused : Result Identity
refused = err (firewall_error invalid_authentication none)

abbrev is_ascii : String → Bool
is_ascii String.[] = true
is_ascii (String.◌∷◌ c s) = ltb (code c) 128 && is_ascii s

-- `_constant_time_member`: the loop compares with every candidate, and `hmac.compare_digest` raises a
-- `TypeError` on text that is not ASCII.
unfoldable pub constant_time_member : String → List String → Result Bool
constant_time_member presented [] = ok false
constant_time_member presented (candidate ∷ candidates) =
    let rest = constant_time_member presented candidates in
    if is_ascii presented && is_ascii candidate
    then and_then rest (λ found. ok (str_eq presented candidate || found))
    else err type_error

-- The identity of a presented key.
abbrev pub identity_of_key : Credentials → String → Result Identity
identity_of_key s token = and_then (constant_time_member token s.service_keys) λ is_service.
    if is_service
    then ok (record { identity_class = service; identity_id = s.key_id_for token })
    else and_then (constant_time_member token s.reviewer_keys) λ is_reviewer.
      if is_reviewer
      then ok (record { identity_class = reviewer; identity_id = s.key_id_for token })
      else refused

abbrev pub identity_of_header : Casing → Credentials → String × String → Result Identity
identity_of_header u s (scheme, token) =
    if not (is_bearer u scheme) || str_eq token "" then refused else identity_of_key s token

unfoldable pub resolve_identity : Casing → Credentials → Option String → Result Identity
unfolding lower constant_time_member
resolve_identity u s header =
    if no_keys s
    then ok anonymous
    else elim header [ none ↦ refused | some h ↦ identity_of_header u s (partition h) ]

abbrev pub session_identity : Credentials → Option String → SessionData → Result Identity
session_identity s csrf_header d =
    if s.verify_csrf_token csrf_header d.session_id
    then ok (record { identity_class = reviewer; identity_id = d.session_identity_id })
    else err (firewall_error csrf_token_invalid none)

unfoldable pub resolve_decision_identity :
    Casing → Credentials → Option String → Option String → Option String → Result Identity
unfolding resolve_identity
resolve_decision_identity u s authorization_header session_cookie csrf_header =
    elim authorization_header [
      | some h ↦ resolve_identity u s (some h)
      | none ↦ elim (s.verify_session_cookie session_cookie) [
        | some d ↦ session_identity s csrf_header d
        | none ↦ resolve_identity u s none
      ]
    ]

unfoldable pub require_reviewer : Identity → Result (Unit {0})
require_reviewer i = elim (i.identity_class) [
  | reviewer ↦ ok tt
  | service ↦ err (firewall_error insufficient_privilege none)
]
