-- ===== src/Session.antt =====
-- app/session.py: signed session cookies and CSRF tokens. A text is the list of its code points. The
-- digest HMAC-SHA256 of a key and a message, the random session id and the clock are arguments.
pub mod Parts
pub mod RoundTrip
pub mod Checks
pub mod Tests
use real_guard_v.Prelude.{
  ℕ, zero, suc, ◌+◌, ◌-◌, ◌*◌, ◌/◌, ◌%◌, ◌<◌, ◌≤◌, Bool, true, false, not, ◌&&◌, ◌||◌, Option, none,
  some, List, [], ◌∷◌, ◌++◌, ltb, leb, ◌==◌, if◌then◌else◌, all, String,
}
use real_guard_v.Json.{ℤ, pos, negsuc}
use real_guard_v.Errors.{Result, ok, err, value_error, type_error, and_then}
use real_guard_v.Text.{codes, same_codes}
use real_guard_v.Unicode.Utf8.{encode, decode}
use real_guard_v.Base64.{b64url_encode, b64url_decode}
use real_guard_v.Numerals.{show, parse_int}
use real_guard_v.Decision.Conditions.{ltz}

pub record Settings : Type 0 where
  -- `hmac.new(key, message, sha256).digest()`
  pub hmac : List ℕ → List ℕ → List ℕ
  -- `effective_session_secret()`
  pub secret : List ℕ
  pub session_ttl_seconds : ℕ
  -- the values of the decimal digits outside ASCII
  pub other_digit : ℕ → Option ℕ

-- The times are seconds since 1970.
pub record SessionData : Type 0 where
  pub session_id : List ℕ
  pub identity_id : List ℕ
  pub issued_at : ℤ
  pub expires_at : ℤ

abbrev pub hex_digit : ℕ → ℕ
hex_digit v = if ltb v 10 then v + 48 else v + 87

-- `b.hex()`
abbrev pub hex : List ℕ → List ℕ
hex [] = []
hex (b ∷ s) = hex_digit (b / 16 % 16) ∷ hex_digit (b % 16) ∷ hex s

abbrev pub is_ascii : List ℕ → Bool
is_ascii s = all (λ c. ltb c 128) s

abbrev pub separator : ℕ
separator = b'|'

abbrev pub dot : ℕ
dot = b'.'

module _ (t : Settings) where
  -- `_sign`, of a payload that is ASCII
  unfoldable pub sign : List ℕ → List ℕ
  sign payload_b64 = hex (t.hmac (encode t.secret) payload_b64)

  unfoldable pub payload_of : List ℕ → List ℕ → ℕ → ℕ → List ℕ
  payload_of session_id identity_id issued_epoch expires_epoch =
      session_id
      ++ (separator
          ∷ (identity_id ++ (separator ∷ (show issued_epoch ++ (separator ∷ show expires_epoch)))))

  abbrev pub issued_epoch : ℕ → ℕ
  issued_epoch now = now / 1000000

  abbrev pub expires_epoch : ℕ → ℕ
  expires_epoch now = issued_epoch now + t.session_ttl_seconds

  -- The cookie of `create_session_cookie`, for 16 random bytes and a time in microseconds.
  unfoldable pub create_session_cookie : List ℕ → List ℕ → ℕ → List ℕ
  create_session_cookie random identity_id now =
      let payload_b64 =
        b64url_encode
          (encode (payload_of (hex random) identity_id (issued_epoch now) (expires_epoch now))) in
      payload_b64 ++ (dot ∷ sign payload_b64)

-- `s.rpartition(".")`, `none` without a dot.
abbrev pub before_dot : ℕ → Option (List ℕ × List ℕ) → List ℕ → Option (List ℕ × List ℕ)
before_dot c (some (before, after)) s = some (c ∷ before, after)
before_dot c none s = if c == dot then some ([], s) else none

unfoldable pub rpartition : List ℕ → Option (List ℕ × List ℕ)
rpartition [] = none
rpartition (c ∷ s) = before_dot c (rpartition s) s

abbrev onto_first : ℕ → List (List ℕ) → List (List ℕ)
onto_first c [] = (c ∷ []) ∷ []
onto_first c (part ∷ parts) = (c ∷ part) ∷ parts

-- `s.split("|")`
unfoldable pub split : List ℕ → List (List ℕ)
split [] = [] ∷ []
split (c ∷ s) = let parts = split s in if c == separator then [] ∷ parts else onto_first c parts

-- `hmac.compare_digest` of two texts: a `TypeError` unless both are ASCII.
abbrev pub compare_digest : List ℕ → List ℕ → Result Bool
compare_digest a b = if is_ascii a && is_ascii b then ok (same_codes a b) else err type_error

-- `datetime.fromtimestamp`, for the years 1 to 9999
unfoldable pub from_timestamp : ℤ → Result ℤ
from_timestamp t =
    if ltz t (negsuc 62135596799) || ltz (pos 253402300799) t then err value_error else ok t

module _ (t : Settings) where
  abbrev pub with_times : List ℕ → List ℕ → Option ℤ → Option ℤ → Option SessionData
  with_times session_id identity_id (some issued) (some expires) = some (record {
    session_id = session_id;
    identity_id = identity_id;
    issued_at = issued;
    expires_at = expires;
  })
  with_times _ _ _ _ = none

  abbrev pub of_parts : List (List ℕ) → Option SessionData
  of_parts (session_id ∷ identity_id ∷ issued ∷ expires ∷ []) =
      with_times session_id identity_id (parse_int t.other_digit issued)
        (parse_int t.other_digit expires)
  of_parts _ = none

  abbrev pub of_text : Option (List ℕ) → Option SessionData
  of_text none = none
  of_text (some text) = of_parts (split text)

  abbrev pub of_bytes : Option (List ℕ) → Option SessionData
  of_bytes none = none
  of_bytes (some raw) = of_text (decode raw)

  -- The body of the `try`; `none` is an error that it catches.
  unfoldable pub read_payload : List ℕ → Option SessionData
  read_payload payload_b64 = of_bytes (b64url_decode payload_b64)

  abbrev pub dated : SessionData → Result (Option SessionData)
  dated d = and_then (from_timestamp d.issued_at) λ issued.
      and_then (from_timestamp d.expires_at)
        λ expires. ok (some (record d { issued_at = issued; expires_at = expires }))

  -- `if expires_epoch <= now_epoch: return None`
  unfoldable pub in_time : ℕ → Option SessionData → Result (Option SessionData)
  in_time now none = ok none
  in_time now (some d) = if ltz (pos (now / 1000000)) d.expires_at then dated d else ok none

  unfoldable pub verify_parts : ℕ → List ℕ × List ℕ → Result (Option SessionData)
  verify_parts now (payload_b64, signature) =
      let opened = in_time now (read_payload payload_b64) in
      if is_ascii payload_b64
      then and_then (compare_digest signature (sign t payload_b64))
          (λ same. if same then opened else ok none)
      else err value_error

  abbrev pub verify_found : ℕ → Option (List ℕ × List ℕ) → Result (Option SessionData)
  verify_found now none = ok none
  verify_found now (some parts) = verify_parts now parts

  unfoldable pub verify_session_cookie : ℕ → Option (List ℕ) → Result (Option SessionData)
  verify_session_cookie now none = ok none
  verify_session_cookie now (some cookie) = verify_found now (rpartition cookie)

  unfoldable pub csrf_token_for_session : List ℕ → List ℕ
  csrf_token_for_session session_id =
      hex (t.hmac (encode t.secret) (codes "csrf:" ++ encode session_id))

  unfoldable pub verify_csrf_token : Option (List ℕ) → List ℕ → Result Bool
  verify_csrf_token none session_id = ok false
  verify_csrf_token (some []) session_id = ok false
  verify_csrf_token (some (c ∷ s)) session_id =
      compare_digest (c ∷ s) (csrf_token_for_session session_id)
