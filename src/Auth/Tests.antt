-- ===== src/Auth/Tests.antt =====
-- A test of app/auth.py: a reviewer's key as a bearer token.
use real_guard_v.Errors.{err, type_error}
use real_guard_v.Prelude.{refl, false, none, some, [], ◌∷◌, ◌≡◌}
use real_guard_v.Text.{lower}
use real_guard_v.Decision.Tests.{casing}
use real_guard_v.Auth.{
  Credentials, Identity, reviewer, resolve_identity, resolve_decision_identity, require_reviewer,
  constant_time_member,
}
use real_guard_v.Auth.Shown.{Shown, reviewer-Shown}

abbrev pub credentials : Credentials
credentials = record {
  service_keys = "svc" ∷ [];
  reviewer_keys = "rev" ∷ [];
  key_id_for = λ key. key;
  verify_session_cookie = λ cookie. none;
  verify_csrf_token = λ token session. false;
}

abbrev the_reviewer : Identity
the_reviewer = record { identity_class = reviewer; identity_id = "rev" }

reviewer-Shown_example : Shown casing credentials (some "Bearer rev") none none the_reviewer
unfolding resolve_decision_identity resolve_identity require_reviewer constant_time_member lower
reviewer-Shown_example =
    reviewer-Shown casing credentials (some "Bearer rev") none none {i = the_reviewer} refl refl

-- A key that is not ASCII is no refusal: the comparison raises.
not_ascii : resolve_identity casing credentials (some "Bearer é") ≡ err type_error
unfolding resolve_identity constant_time_member lower
not_ascii = refl
