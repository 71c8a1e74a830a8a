-- ===== src/Config/Valid.antt =====
-- app/config.py: what the rules of SPEC.md on the configuration ask for, rule by rule.
use real_guard_v.Prelude.{ℕ, ◌≤◌, ◌≡◌, ◌⊎◌, true, false, Option, some, List, All, length}
use real_guard_v.Text.{strip}
use real_guard_v.Config.{
  Settings, is_empty, is_production, is_loopback_bind, mock_mode, service_keys, reviewer_keys,
  listed,
}
use real_guard_v.Config.Checks.{is_full, is_encrypted}

-- A secret of at least `n` characters.
abbrev pub HasSecret : ℕ → Option (List ℕ) → Type 0
HasSecret n o = (v : List ℕ) × (o ≡ some v) × (n ≤ length v)

abbrev pub Within : ℕ → ℕ → ℕ → Type 0
Within low n high = (low ≤ n) × (n ≤ high)

-- Who can reach the service without a key, and what production takes for granted.
pub data Posture (s : Settings) : Type 0 where
  in_production :
      is_production s.app_env ≡ true
      → is_empty (service_keys s) ≡ false
      → is_empty (reviewer_keys s) ≡ false
      → HasSecret 32 s.session_secret
      → HasSecret 16 s.hash_salt
      → (mock_mode s ≡ false) ⊎ (s.allow_mock_in_production ≡ true)
      → (is_full s.content_retention ≡ false) ⊎ (s.allow_plaintext_retention ≡ true)
      → s.metrics_require_auth ≡ true
      → Posture s
  on_loopback : is_production s.app_env ≡ false → is_loopback_bind s ≡ true → Posture s
  behind_keys :
      is_production s.app_env ≡ false
      → (is_empty (service_keys s) ≡ false) ⊎ (is_empty (reviewer_keys s) ≡ false)
      → Posture s

pub record Valid (s : Settings) : Type 0 where
  pub host : is_empty (strip s.bind_host) ≡ false
  pub model : is_empty s.upstream_model ≡ false
  pub port : Within 1 s.bind_port 65535
  pub request_bytes : Within 1024 s.max_request_bytes 10485760
  pub approval_ttl : Within 60 s.approval_ttl_seconds 604800
  pub detector_timeout : Within 10 s.detector_timeout_ms 5000
  pub decode_depth : s.max_decode_depth ≤ 5
  pub resume_attempts : Within 1 s.max_resume_attempts 10
  pub session_ttl : Within 300 s.session_ttl_seconds 86400
  pub idempotency_ttl : Within 60 s.idempotency_ttl_seconds 604800
  pub audit_days : Within 1 s.audit_retention_days 3650
  pub content_days : Within 1 s.content_retention_days s.audit_retention_days
  pub requests : 1 ≤ s.rate_limit_requests
  pub window : 1 ≤ s.rate_limit_window_seconds
  pub long_service_keys : All (λ (k : List ℕ). 32 ≤ length k) (service_keys s)
  pub long_reviewer_keys : All (λ (k : List ℕ). 32 ≤ length k) (reviewer_keys s)
  pub disjoint : All (λ k. listed k (reviewer_keys s) ≡ false) (service_keys s)
  pub preflight : (s.ollama_preflight_enabled ≡ false) ⊎ (mock_mode s ≡ false)
  pub encryption :
      (is_encrypted s.content_retention ≡ false) ⊎ HasSecret 32 s.content_encryption_key
  pub posture : Posture s
