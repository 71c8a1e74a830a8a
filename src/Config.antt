-- ===== src/Config.antt =====
-- app/config.py: the settings that a deployment may start with. A text is the list of its code
-- points. Left out are the fields that no rule reads, and REQUEST_TIMEOUT_SECONDS, a float; that a
-- number is not negative, which every range implies, is in its type.
pub mod Checks
pub mod Keys
pub mod Valid
pub mod Rules
pub mod Start
pub mod Anonymous
pub mod Tests
use real_guard_v.Prelude.{
  ℕ, ◌≤◌, Bool, true, false, not, ◌&&◌, ◌||◌, Option, none, some, List, [], ◌∷◌, ◌++◌, map, filter,
  any, all, length, ltb, leb, ◌==◌, if◌then◌else◌,
}
use real_guard_v.Text.{codes, same_codes, strip}

pub data AppEnv : Type 0 where
  development staging production : AppEnv

pub data ContentRetention : Type 0 where
  no_content metadata encrypted full : ContentRetention

-- The fields of `Settings`; a secret is the text that `get_secret_value` reads.
pub record Settings : Type 0 where
  pub app_env : AppEnv
  pub bind_host : List ℕ
  pub bind_port : ℕ
  pub firewall_api_keys : List ℕ
  pub firewall_reviewer_keys : List ℕ
  pub session_secret : Option (List ℕ)
  pub upstream_base_url : Option (List ℕ)
  pub upstream_model : List ℕ
  pub content_retention : ContentRetention
  pub content_encryption_key : Option (List ℕ)
  pub max_request_bytes : ℕ
  pub approval_ttl_seconds : ℕ
  pub detector_timeout_ms : ℕ
  pub max_decode_depth : ℕ
  pub max_resume_attempts : ℕ
  pub session_ttl_seconds : ℕ
  pub idempotency_ttl_seconds : ℕ
  pub audit_retention_days : ℕ
  pub content_retention_days : ℕ
  pub rate_limit_requests : ℕ
  pub rate_limit_window_seconds : ℕ
  pub metrics_require_auth : Bool
  pub hash_salt : Option (List ℕ)
  pub allow_mock_in_production : Bool
  pub allow_plaintext_retention : Bool
  pub ollama_preflight_enabled : Bool

abbrev pub is_empty {ℓ} : {A : Type ℓ} → List A → Bool
is_empty [] = true
is_empty (x ∷ xs) = false

-- `s.split(",")`
unfoldable pub split_commas : List ℕ → List (List ℕ)
split_commas [] = [] ∷ []
split_commas (c ∷ s) =
    let rest = split_commas s in
    if c == b','
    then [] ∷ rest
    else elim rest [ [] ↦ (c ∷ []) ∷ [] | part ∷ parts ↦ (c ∷ part) ∷ parts ]

-- `_split_csv` of text
unfoldable pub split_csv : List ℕ → List (List ℕ)
unfolding split_commas
split_csv raw = filter (λ s. not (is_empty s)) (map strip (split_commas raw))

unfoldable pub service_keys : Settings → List (List ℕ)
unfolding split_csv
service_keys s = split_csv s.firewall_api_keys

unfoldable pub reviewer_keys : Settings → List (List ℕ)
unfolding split_csv
reviewer_keys s = split_csv s.firewall_reviewer_keys

-- `x in xs`
abbrev pub listed : List ℕ → List (List ℕ) → Bool
listed x xs = any (same_codes x) xs

pub loopback_hosts : List (List ℕ)
loopback_hosts = codes "127.0.0.1" ∷ codes "localhost" ∷ codes "::1" ∷ []

unfoldable pub is_loopback_bind : Settings → Bool
is_loopback_bind s = listed s.bind_host loopback_hosts

-- `not settings.UPSTREAM_BASE_URL`
unfoldable pub mock_mode : Settings → Bool
mock_mode s = elim (s.upstream_base_url) [ none ↦ true | some url ↦ is_empty url ]

abbrev pub is_production : AppEnv → Bool
is_production production = true
is_production _ = false
