-- ===== src/Session/RoundTrip.antt =====
-- `verify_session_cookie` takes back what `create_session_cookie` made (app/session.py).
use real_guard_v.Prelude.{
  ℕ, ◌+◌, ◌/◌, ◌<◌, ◌≤◌, ◌≡◌, ◌≢◌, refl, ◌∙◌, ap, arith, true, some, List, [], ◌∷◌, All, All-append,
  All-imp,
}
use real_guard_v.Json.{pos}
use real_guard_v.Errors.{ok}
use real_guard_v.Base64.{b64url_encode}
use real_guard_v.Base64.RoundTrip as Base64Proofs
use real_guard_v.Unicode.Utf8.{encode, IsText, is_scalar, decode-encode}
use real_guard_v.Numerals.{show, show-digits, parse_int, IsDigit}
use real_guard_v.Numerals.RoundTrip.{parse_int-show}
use real_guard_v.Session.{
  Settings, SessionData, hex, sign, payload_of, issued_epoch, expires_epoch, create_session_cookie,
  verify_session_cookie, verify_parts, read_payload, in_time, from_timestamp, split, of_parts,
  of_bytes, of_text, with_times, verify_found,
}
use real_guard_v.Session.Parts.{
  IsPlain, hex-IsPlain, b64url_encode-IsPlain, plain-is_ascii, same_codes_refl, rpartition-signed,
  NoBar, split-bar, split-last, encode-IsBytes,
}

plain-NoBar : (c : ℕ) → IsPlain c → c ≢ 124
plain-NoBar c h e = omega (arith, h.0)

plain-scalar : (c : ℕ) → IsPlain c → is_scalar c ≡ true
plain-scalar c h = ground arith

digit-NoBar : (c : ℕ) → IsDigit c → c ≢ 124
digit-NoBar c h e = omega arith

digit-scalar : (c : ℕ) → IsDigit c → is_scalar c ≡ true
digit-scalar c h = ground arith

show-NoBar : (n : ℕ) → NoBar (show n)
show-NoBar n = All-imp IsDigit (λ c. c ≢ 124) (show n) digit-NoBar (show-digits n)

show-IsText : (n : ℕ) → IsText (show n)
show-IsText n = All-imp IsDigit (λ c. is_scalar c ≡ true) (show n) digit-scalar (show-digits n)

module _ (t : Settings) (random identity_id : List ℕ) (issued expires : ℕ) where
  payload-IsText :
      IsText identity_id → IsText (payload_of t (hex random) identity_id issued expires)
  unfolding payload_of
  payload-IsText h =
      let P = λ (c : ℕ). is_scalar c ≡ true in
      All-append P (hex random) _ (All-imp IsPlain P (hex random) plain-scalar (hex-IsPlain random))
        (
          refl,
          All-append P identity_id _ h
              (refl, All-append P (show issued) _ (show-IsText issued) (refl, show-IsText expires)),
        )

  payload-split :
      NoBar identity_id
      → split (payload_of t (hex random) identity_id issued expires)
        ≡ hex random ∷ identity_id ∷ show issued ∷ show expires ∷ []
  unfolding payload_of
  payload-split h =
      split-bar (hex random) _
        (All-imp IsPlain (λ c. c ≢ 124) (hex random) plain-NoBar (hex-IsPlain random))
      ∙ ap (λ r. hex random ∷ r)
          (split-bar identity_id _ h
            ∙ ap (λ r. identity_id ∷ r)
                (split-bar (show issued) _ (show-NoBar issued)
                  ∙ ap (λ r. show issued ∷ r) (split-last (show expires) (show-NoBar expires))))

  -- What a cookie that was made from these is read as.
  abbrev pub data_of : SessionData
  data_of = record {
    session_id = hex random;
    identity_id = identity_id;
    issued_at = pos issued;
    expires_at = pos expires;
  }

  payload-read :
      IsText identity_id
      → NoBar identity_id
      → issued < 1000000000000
      → expires < 1000000000000
      → read_payload t
          (b64url_encode (encode (payload_of t (hex random) identity_id issued expires)))
        ≡ some data_of
  unfolding read_payload
  payload-read text bars small small' =
      let payload = payload_of t (hex random) identity_id issued expires in
      let parts = hex random ∷ identity_id ∷ show issued ∷ show expires ∷ [] in
      ap (of_bytes t)
        (Base64Proofs.decode-encode (encode payload) (encode-IsBytes payload (payload-IsText text)))
      ∙ (ap (of_text t) (decode-encode payload (payload-IsText text))
          ∙ (ap (of_parts t) (payload-split bars)
              ∙ (ap
                    (λ o.
                      with_times t (hex random) identity_id o
                        (parse_int t.other_digit (show expires)))
                    (parse_int-show t.other_digit issued small)
                  ∙ ap (with_times t (hex random) identity_id (some (pos issued)))
                      (parse_int-show t.other_digit expires small'))))

module _ (t : Settings) where
  sign-IsPlain : (s : List ℕ) → All IsPlain (sign t s)
  unfolding sign
  sign-IsPlain s = hex-IsPlain _

  verify_parts-signed :
      (now : ℕ) (payload_b64 : List ℕ)
      → All IsPlain payload_b64
      → verify_parts t now (payload_b64, sign t payload_b64)
        ≡ in_time t now (read_payload t payload_b64)
  unfolding verify_parts sign
  verify_parts-signed now payload_b64 h =
      let signature = hex (t.hmac (encode t.secret) payload_b64) in
      rw
        (
          plain-is_ascii payload_b64 h,
          plain-is_ascii signature (hex-IsPlain _),
          same_codes_refl signature,
        )
        refl

  in_time-later :
      (random identity_id : List ℕ) (issued expires later : ℕ)
      → later / 1000000 < expires
      → issued ≤ expires
      → expires < 253402300800
      → in_time t later (some (data_of t random identity_id issued expires))
        ≡ ok (some (data_of t random identity_id issued expires))
  unfolding in_time from_timestamp
  in_time-later random identity_id issued expires later before order bound = ground arith

  -- The cookie that is made for an identity without a bar is accepted, with the session and the identity that it
  -- was made for and the times that it was made with, at any time before the second in which it
  -- expires. (The time of expiry is in the year 9999 at the latest, as `fromtimestamp` requires.)
  pub verify-create :
      (random identity_id : List ℕ) (now later : ℕ)
      → IsText identity_id
      → NoBar identity_id
      → expires_epoch t now < 253402300800
      → later / 1000000 < expires_epoch t now
      → verify_session_cookie t later (some (create_session_cookie t random identity_id now))
        ≡ ok (some (data_of t random identity_id (issued_epoch t now) (expires_epoch t now)))
  unfolding verify_session_cookie create_session_cookie
  verify-create random identity_id now later text bars bound before =
      let issued = now / 1000000 in
      let expires = issued + t.session_ttl_seconds in
      let payload_b64 =
        b64url_encode (encode (payload_of t (hex random) identity_id issued expires)) in
      ap (verify_found t later)
        (rpartition-signed payload_b64 (sign t payload_b64) (sign-IsPlain payload_b64))
      ∙ (verify_parts-signed later payload_b64 (b64url_encode-IsPlain _)
          ∙ (ap (in_time t later) (
                payload-read t random identity_id issued expires text bars (omega arith)
                  (omega arith))
              ∙ in_time-later random identity_id issued expires later before (omega arith) bound))
