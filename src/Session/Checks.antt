-- ===== src/Session/Checks.antt =====
-- What the checks of app/session.py let through, and what they raise on.
use real_guard_v.Prelude.{
  ℕ, ◌/◌, ◌≡◌, refl, sym, ◌∙◌, ap, arith, true, false, ◌&&◌, Option, none, some, List, [], ◌∷◌,
  ◌++◌, any, ◌==◌, Bool-cases, Option-cases, inl, inr,
}
use real_guard_v.Json.{pos}
use real_guard_v.Errors.{ok, err, Error, value_error, type_error}
use real_guard_v.Text.{same_codes, same_codes-eq}
use real_guard_v.Decision.Conditions.{ltz}
use real_guard_v.Session.{
  Settings, SessionData, dot, is_ascii, sign, rpartition, read_payload, in_time, verify_parts,
  verify_session_cookie, from_timestamp, csrf_token_for_session, verify_csrf_token, verify_found,
}
use real_guard_v.Session.Parts.{rpartition-parts}

module _ (t : Settings) (now : ℕ) where
  -- What a cookie that is let through consists of.
  pub record Accepted (cookie : List ℕ) (d : SessionData) : Type 0 where
    pub payload : List ℕ
    pub signed : cookie ≡ payload ++ (dot ∷ sign t payload)
    pub read : read_payload t payload ≡ some d
    pub in_force : ltz (pos (now / 1000000)) d.expires_at ≡ true

  opened : (o : Option SessionData) {d : SessionData} → in_time t now o ≡ ok (some d) → o ≡ some d
  unfolding in_time from_timestamp
  opened none h = ground arith
  opened (some d) h = ground arith

  open_in_force :
      (o : Option SessionData) {d : SessionData}
      → in_time t now o ≡ ok (some d)
      → ltz (pos (now / 1000000)) d.expires_at ≡ true
  unfolding in_time from_timestamp
  open_in_force none h = ground arith
  open_in_force (some d) h = ground arith

  -- What the two checks in front of the payload leave.
  let_through :
      (payload signature : List ℕ) {d : SessionData}
      → verify_parts t now (payload, signature) ≡ ok (some d)
      → (same_codes signature (sign t payload) ≡ true)
        × (in_time t now (read_payload t payload) ≡ ok (some d))
  unfolding verify_parts
  let_through payload signature h = (ground arith, ground arith)

  of_found :
      (cookie : List ℕ) (o : Option (List ℕ × List ℕ)) {d : SessionData}
      → rpartition cookie ≡ o
      → verify_found t now o ≡ ok (some d)
      → Accepted cookie d
  of_found cookie none same h = ground arith
  of_found cookie (some (payload, signature)) same h =
      let (equal, opens) = let_through payload signature h in
      record {
        payload = payload;
        signed =
            rpartition-parts cookie same
            ∙ ap (λ s. payload ++ (dot ∷ s)) (same_codes-eq signature (sign t payload) equal);
        read = opened (read_payload t payload) opens;
        in_force = open_in_force (read_payload t payload) opens;
      }

  -- A cookie is let through only if it is a payload, a dot, and the signature of that payload under
  -- the secret; the session is what the payload says, and its second of expiry is still to come.
  pub verify-Accepted :
      (cookie : List ℕ) {d : SessionData}
      → verify_session_cookie t now (some cookie) ≡ ok (some d)
      → Accepted cookie d
  unfolding verify_session_cookie
  verify-Accepted cookie h = of_found cookie (rpartition cookie) refl h

  is_ascii-append : (s u : List ℕ) → is_ascii (s ++ (dot ∷ u)) ≡ (is_ascii s && is_ascii u)
  is_ascii-append [] u = refl
  is_ascii-append (c ∷ s) u = ground (arith, is_ascii-append s u)

  no_dot : (s : List ℕ) → rpartition s ≡ none → any (λ c. c == 46) s ≡ false
  unfolding rpartition
  no_dot [] h = refl
  no_dot (c ∷ s) h = elim (Option-cases (rpartition s)) [
    | inl none_left ↦ ground (arith, no_dot s none_left)
    | inr (p, found) ↦ ground arith
  ]

  parts_raise :
      (payload signature : List ℕ)
      → (is_ascii payload && is_ascii signature) ≡ false
      → (e : Error) × (verify_parts t now (payload, signature) ≡ err e)
  unfolding verify_parts
  parts_raise payload signature h = elim (Bool-cases (is_ascii payload)) [
    | inl clean ↦ (type_error, ground arith)
    | inr bad ↦ (value_error, ground arith)
  ]

  raised_parts :
      (cookie : List ℕ) (o : Option (List ℕ × List ℕ))
      → rpartition cookie ≡ o
      → any (λ c. c == 46) cookie ≡ true
      → is_ascii cookie ≡ false
      → (e : Error) × (verify_found t now o ≡ err e)
  raised_parts cookie none same dotted bad = absurd (ground (arith, no_dot cookie same))
  raised_parts cookie (some (payload, signature)) same dotted bad = parts_raise payload signature (
      sym (is_ascii-append payload signature)
      ∙ (ap is_ascii (sym (rpartition-parts cookie same)) ∙ bad))

  -- On a cookie with a dot and a character that is not ASCII, the verification raises an error, where its
  -- documentation says that it returns None for anything malformed.
  pub verify-raises :
      (cookie : List ℕ)
      → any (λ c. c == 46) cookie ≡ true
      → is_ascii cookie ≡ false
      → (e : Error) × (verify_session_cookie t now (some cookie) ≡ err e)
  unfolding verify_session_cookie
  verify-raises cookie dotted bad = raised_parts cookie (rpartition cookie) refl dotted bad

module _ (t : Settings) where
  token_equal :
      (s session_id : List ℕ)
      → verify_csrf_token t (some s) session_id ≡ ok true
      → same_codes s (csrf_token_for_session t session_id) ≡ true
  unfolding verify_csrf_token
  token_equal [] session_id h = ground arith
  token_equal (c ∷ s) session_id h = ground arith

  -- A CSRF token is taken only if it is the token of the session; a missing one never is.
  pub csrf-exact :
      (presented : Option (List ℕ)) (session_id : List ℕ)
      → verify_csrf_token t presented session_id ≡ ok true
      → presented ≡ some (csrf_token_for_session t session_id)
  unfolding verify_csrf_token
  csrf-exact none session_id h = ground arith
  csrf-exact (some s) session_id h =
      ap some (same_codes-eq s (csrf_token_for_session t session_id) (token_equal s session_id h))
