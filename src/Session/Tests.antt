-- ===== src/Session/Tests.antt =====
-- Tests of app/session.py, with a digest that repeats the message's length.
use real_guard_v.Prelude.{◌≡◌, refl, arith, none, some, [], ◌∷◌, length, List, ℕ}
use real_guard_v.Errors.{Error, ok, err}
use real_guard_v.Text.{codes}
use real_guard_v.Session.{Settings, create_session_cookie, verify_session_cookie}
use real_guard_v.Session.RoundTrip.{data_of, verify-create}
use real_guard_v.Session.Checks.{Accepted, verify-Accepted, verify-raises}

abbrev settings : Settings
settings = record {
  hmac = λ key message. length message ∷ 7 ∷ [];
  secret = codes "secret";
  session_ttl_seconds = 3600;
  other_digit = λ c. none;
}

abbrev random : List ℕ
random = 18 ∷ 171 ∷ []

abbrev cookie : List ℕ
cookie = create_session_cookie settings random (codes "rev_1") 1000000000

verify-create_example :
    verify_session_cookie settings 2000000000 (some cookie)
    ≡ ok (some (data_of settings random (codes "rev_1") 1000 4600))
verify-create_example =
    verify-create settings random (codes "rev_1") 1000000000 2000000000
      (refl, (refl, (refl, (refl, (refl, tt)))))
      (omega arith, (omega arith, (omega arith, (omega arith, (omega arith, tt))))) (omega arith)
      (omega arith)

verify-Accepted_example :
    Accepted settings 2000000000 cookie (data_of settings random (codes "rev_1") 1000 4600)
verify-Accepted_example =
    verify-Accepted settings 2000000000 cookie
      {d = data_of settings random (codes "rev_1") 1000 4600} verify-create_example

verify-raises_example :
    (e : Error) × (verify_session_cookie settings 0 (some (codes "é.a")) ≡ err e)
verify-raises_example = verify-raises settings 0 (codes "é.a") refl refl
