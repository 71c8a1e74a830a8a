-- ===== src/Config/Checks.antt =====
-- app/config.py, `_validate_cross_field` and `load_settings`: what is checked before a start.
use real_guard_v.Prelude.{
  ℕ, Bool, true, false, not, ◌&&◌, Option, none, some, List, [], ◌∷◌, ◌++◌, filter, length, ltb,
  leb, if◌then◌else◌,
}
use real_guard_v.Text.{strip}
use real_guard_v.Config.{
  ContentRetention, Settings, encrypted, full, is_empty, is_loopback_bind, is_production, listed,
  mock_mode, reviewer_keys, service_keys,
}

-- The entries of `errors`, each with the numbers that its text shows.
pub data Problem : Type 0 where
  empty_bind_host : Problem
  short_service_key short_reviewer_key shared_keys : ℕ → Problem
  no_service_keys no_reviewer_keys open_bind : Problem
  no_session_secret short_session_secret no_hash_salt short_hash_salt : Problem
  silent_mock preflight_without_upstream plaintext_retention : Problem
  no_encryption_key short_encryption_key : Problem
  long_content_retention : ℕ → ℕ → Problem
  open_metrics : Problem

unfoldable pub when : Bool → Problem → List Problem
when b p = if b then p ∷ [] else []

-- The loop over the keys of one class, which stops at the first short one.
unfoldable pub short_keys : (ℕ → Problem) → List (List ℕ) → List Problem
short_keys p [] = []
short_keys p (k ∷ ks) =
    let rest = short_keys p ks in if ltb (length k) 32 then p (length k) ∷ [] else rest

abbrev pub distinct : List (List ℕ) → List (List ℕ)
distinct [] = []
distinct (k ∷ ks) = let rest = distinct ks in if listed k rest then rest else k ∷ rest

-- `set(service_keys) & set(reviewer_keys)`
unfoldable pub overlap : List (List ℕ) → List (List ℕ) → List Problem
overlap service reviewer = elim (distinct (filter (λ k. listed k reviewer) service)) [
  | [] ↦ []
  | k ∷ ks ↦ shared_keys (length (k ∷ ks)) ∷ []
]

-- A secret that has to be there with at least `n` characters.
unfoldable pub secret_of : ℕ → Problem → Problem → Option (List ℕ) → List Problem
secret_of n absent short none = absent ∷ []
secret_of n absent short (some v) = if ltb (length v) n then short ∷ [] else []

unfoldable pub key_presence : Settings → List Problem
unfolding service_keys reviewer_keys is_loopback_bind when
key_presence s =
    if is_production s.app_env
    then when (is_empty (service_keys s)) no_service_keys
      ++ when (is_empty (reviewer_keys s)) no_reviewer_keys
    else when (not (is_loopback_bind s) && is_empty (service_keys s) && is_empty (reviewer_keys s))
        open_bind

unfoldable pub production_secrets : Settings → List Problem
unfolding secret_of
production_secrets s =
    if is_production s.app_env
    then secret_of 32 no_session_secret short_session_secret s.session_secret
      ++ secret_of 16 no_hash_salt short_hash_salt s.hash_salt
    else []

unfoldable pub upstream_rules : Settings → List Problem
unfolding mock_mode when
upstream_rules s =
    when (is_production s.app_env && mock_mode s && not s.allow_mock_in_production) silent_mock
    ++ when (s.ollama_preflight_enabled && mock_mode s) preflight_without_upstream

abbrev pub is_full : ContentRetention → Bool
is_full full = true
is_full _ = false

abbrev pub is_encrypted : ContentRetention → Bool
is_encrypted encrypted = true
is_encrypted _ = false

unfoldable pub retention_rules : Settings → List Problem
unfolding when secret_of
retention_rules s =
    when (is_full s.content_retention && is_production s.app_env && not s.allow_plaintext_retention)
      plaintext_retention
    ++ (if is_encrypted s.content_retention
        then secret_of 32 no_encryption_key short_encryption_key s.content_encryption_key
        else [])
    ++ when (ltb s.audit_retention_days s.content_retention_days)
        (long_content_retention s.content_retention_days s.audit_retention_days)

-- The list `errors` of `_validate_cross_field`.
unfoldable pub cross_field_errors : Settings → List Problem
unfolding short_keys overlap key_presence production_secrets upstream_rules retention_rules when
    service_keys reviewer_keys
cross_field_errors s =
    short_keys short_service_key (service_keys s)
    ++ short_keys short_reviewer_key (reviewer_keys s)
    ++ overlap (service_keys s) (reviewer_keys s)
    ++ key_presence s
    ++ production_secrets s
    ++ upstream_rules s
    ++ retention_rules s
    ++ when (is_production s.app_env && not s.metrics_require_auth) open_metrics

abbrev within : ℕ → ℕ → ℕ → Bool
within low n high = leb low n && leb n high

-- The `Field` constraints, `ge`, `le` and `min_length`.
unfoldable pub fields_in_range : Settings → Bool
fields_in_range s =
    within 1 s.bind_port 65535
    && not (is_empty s.upstream_model)
    && within 1024 s.max_request_bytes 10485760
    && within 60 s.approval_ttl_seconds 604800
    && within 10 s.detector_timeout_ms 5000
    && leb s.max_decode_depth 5
    && within 1 s.max_resume_attempts 10
    && within 300 s.session_ttl_seconds 86400
    && within 60 s.idempotency_ttl_seconds 604800
    && within 1 s.audit_retention_days 3650
    && leb 1 s.content_retention_days
    && leb 1 s.rate_limit_requests
    && leb 1 s.rate_limit_window_seconds

-- How `load_settings` ends: `ValidationError` of a field, `ConfigurationError`, or the settings.
pub data Loaded : Type 0 where
  field_error : Loaded
  configuration_error : List Problem → Loaded
  loaded : Settings → Loaded

unfoldable pub load_settings : Settings → Loaded
unfolding fields_in_range cross_field_errors
load_settings s =
    if is_empty (strip s.bind_host)
    then configuration_error (empty_bind_host ∷ [])
    else if not (fields_in_range s)
    then field_error
    else elim (cross_field_errors s) [ [] ↦ loaded s | p ∷ ps ↦ configuration_error (p ∷ ps) ]

-- `effective_session_secret` and `effective_hash_salt`: the secret, and what the process has cached.
-- `random` is what `secrets.token_urlsafe` draws.
unfoldable pub effective : Option (List ℕ) → Option (List ℕ) → List ℕ → List ℕ × Option (List ℕ)
effective (some secret) cached random = (secret, cached)
effective none (some value) random = (value, some value)
effective none none random = (random, some random)
