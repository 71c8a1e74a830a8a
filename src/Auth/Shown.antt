-- ===== src/Auth/Shown.antt =====
-- Who passes as a reviewer under app/auth.py, and what that caller has shown.
use real_guard_v.Prelude.{
  ◌≡◌, ◌≢◌, refl, arith, inl, inr, String, true, false, Option, none, some, ◌∷◌, ◌++◌, str_eq,
  eq_iff, mem,
}
use real_guard_v.Errors.{ok}
use real_guard_v.Text.{Casing, codes, lower, same_codes-eq}
use real_guard_v.Auth.{
  Credentials, Identity, SessionData, partition, is_bearer, identity_of_header, session_identity,
  resolve_identity, resolve_decision_identity, require_reviewer,
}
use real_guard_v.Auth.Keys.{partition-space, Owned, identity_of_key-Owned}

-- What a caller has shown who is let through as a reviewer. The bearer scheme is in any case.
pub data Shown (u : Casing) (s : Credentials) (header cookie csrf : Option String) (i : Identity)
    : Type 0 where
  by_bearer :
      (h scheme token : String)
      → header ≡ some h
      → codes h ≡ codes scheme ++ (32 ∷ codes token)
      → lower u (codes scheme) ≡ codes "bearer"
      → mem token s.reviewer_keys ≡ true
      → mem token s.service_keys ≡ false
      → i.identity_id ≡ s.key_id_for token
      → Shown u s header cookie csrf i
  by_cookie :
      (d : SessionData)
      → header ≡ none
      → s.verify_session_cookie cookie ≡ some d
      → s.verify_csrf_token csrf d.session_id ≡ true
      → i.identity_id ≡ d.session_identity_id
      → Shown u s header cookie csrf i

-- A header that gives an identity has the scheme and a key.
pub by_scheme :
    (u : Casing) (s : Credentials) (scheme token : String) {i : Identity}
    → identity_of_header u s (scheme, token) ≡ ok i
    → (is_bearer u scheme ≡ true) × (token ≢ "") × Owned s token i
by_scheme u s scheme token h = (
  ground arith,
  λ e. not_empty ((eq_iff token "").1 e),
  identity_of_key-Owned s token (ground arith),
)
  where
    not_empty : str_eq token "" ≡ true → ⊥
    not_empty e = absurd (ground arith)

by_key :
    (u : Casing) (s : Credentials) (h : String) {i : Identity}
    → resolve_identity u s (some h) ≡ ok i
    → require_reviewer i ≡ ok tt
    → identity_of_header u s (partition h) ≡ ok i
unfolding resolve_identity require_reviewer
by_key u s h {i} e g = ground arith

by_nothing :
    (u : Casing) (s : Credentials) {i : Identity}
    → resolve_identity u s none ≡ ok i
    → require_reviewer i ≡ ok tt
    → ⊥
unfolding resolve_identity require_reviewer
by_nothing u s e g = ground arith

by_session :
    (s : Credentials) (csrf : Option String) (d : SessionData) {i : Identity}
    → session_identity s csrf d ≡ ok i
    → (s.verify_csrf_token csrf d.session_id ≡ true) × (i.identity_id ≡ d.session_identity_id)
by_session s csrf d e = (ground arith, ground arith)

without_header :
    (u : Casing) (s : Credentials) (cookie csrf : Option String) (o : Option SessionData)
    {i : Identity}
    → s.verify_session_cookie cookie ≡ o
    → elim o [ some session ↦ session_identity s csrf session | none ↦ resolve_identity u s none ]
      ≡ ok i
    → require_reviewer i ≡ ok tt
    → Shown u s none cookie csrf i
without_header u s cookie csrf none same e g = absurd (by_nothing u s e g)
without_header u s cookie csrf (some d) same e g =
    let (token, own) = by_session s csrf d e in by_cookie d refl same token own

-- What the header of a caller with a reviewer's identity says.
bearer_Shown :
    (u : Casing) (s : Credentials) (h : String) (cookie csrf : Option String) {i : Identity}
    → identity_of_header u s (partition h) ≡ ok i
    → require_reviewer i ≡ ok tt
    → Shown u s (some h) cookie csrf i
unfolding require_reviewer
bearer_Shown u s h cookie csrf {i} e g =
    let (scheme, some_text, belongs) = by_scheme u s (partition h).0 (partition h).1 e in
    let (own, listed) = belongs in
    elim listed [
      | inl (_, is_service) ↦ absurd (ground arith)
      | inr (apart, held, _) ↦
          by_bearer h (partition h).0 (partition h).1 refl (partition-space h some_text)
            (same_codes-eq (lower u (codes (partition h).0)) (codes "bearer") scheme) held apart own
    ]

-- A caller who resolves to an identity that passes as a reviewer has shown a reviewer's key, that is
-- no service key too, after the bearer scheme and one space, or, without an Authorization header, a
-- valid session cookie with the CSRF token of that session; the identity is that of the key or of
-- the session. In particular the anonymous identity of a deployment without keys never passes.
pub reviewer-Shown :
    (u : Casing) (s : Credentials) (header cookie csrf : Option String) {i : Identity}
    → resolve_decision_identity u s header cookie csrf ≡ ok i
    → require_reviewer i ≡ ok tt
    → Shown u s header cookie csrf i
unfolding resolve_decision_identity
reviewer-Shown u s (some h) cookie csrf e g = bearer_Shown u s h cookie csrf (by_key u s h e g) g
reviewer-Shown u s none cookie csrf e g =
    without_header u s cookie csrf (s.verify_session_cookie cookie) refl e g
