-- ===== src/Config/Tests.antt =====
-- Tests of app/config.py, with a deployment of one service key and one reviewer's key.
use real_guard_v.Prelude.{◌↔◌, ◌≡◌, refl, true, false, none, some, [], ◌∷◌}
use real_guard_v.Text.{codes, strip, lstrip, rstrip, is_space}
use real_guard_v.Config.{
  Settings, production, metadata, full, split_csv, split_commas, service_keys, reviewer_keys,
  is_loopback_bind, mock_mode,
}
use real_guard_v.Config.Checks.{
  load_settings, loaded, configuration_error, fields_in_range, cross_field_errors, short_keys,
  overlap, key_presence, production_secrets, upstream_rules, retention_rules, when, secret_of,
  no_reviewer_keys, silent_mock, plaintext_retention, open_metrics, no_session_secret, no_hash_salt,
  no_service_keys,
}
use real_guard_v.Config.Start.{load_settings-Valid}
use real_guard_v.Config.Valid.{Valid}
use real_guard_v.Auth.{Credentials}

abbrev settings : Settings
settings = record {
  app_env = production;
  bind_host = codes "0.0.0.0";
  bind_port = 8000;
  firewall_api_keys = codes " service-key-0123456789012345678901 ,";
  firewall_reviewer_keys = codes "reviewer-key-012345678901234567890";
  session_secret = some (codes "01234567890123456789012345678901");
  upstream_base_url = some (codes "http://llm");
  upstream_model = codes "qwen3:8b";
  content_retention = metadata;
  content_encryption_key = none;
  max_request_bytes = 262144;
  approval_ttl_seconds = 3600;
  detector_timeout_ms = 250;
  max_decode_depth = 3;
  max_resume_attempts = 3;
  session_ttl_seconds = 3600;
  idempotency_ttl_seconds = 86400;
  audit_retention_days = 90;
  content_retention_days = 7;
  rate_limit_requests = 60;
  rate_limit_window_seconds = 60;
  metrics_require_auth = true;
  hash_salt = some (codes "0123456789012345");
  allow_mock_in_production = false;
  allow_plaintext_retention = false;
  ollama_preflight_enabled = false;
}

-- Every violated rule is reported, in the order of the checks.
abbrev defaults : Settings
defaults = record settings {
  firewall_api_keys = [];
  firewall_reviewer_keys = [];
  session_secret = none;
  hash_salt = none;
  upstream_base_url = some [];
  content_retention = full;
  metrics_require_auth = false;
}

all_reported :
    load_settings defaults
    ≡ configuration_error (
        no_service_keys ∷ no_reviewer_keys ∷ no_session_secret ∷ no_hash_salt ∷ silent_mock
        ∷ plaintext_retention ∷ open_metrics ∷ [])
unfolding load_settings fields_in_range cross_field_errors split_commas split_csv service_keys
    reviewer_keys short_keys overlap key_presence production_secrets upstream_rules retention_rules
    when secret_of is_loopback_bind mock_mode strip lstrip rstrip is_space
all_reported = refl

keys_split : split_csv (codes " a, ,b c,") ≡ codes "a" ∷ codes "b c" ∷ []
unfolding split_csv split_commas strip lstrip rstrip is_space
keys_split = refl

load_settings-Valid_example : (load_settings settings ≡ loaded settings) ↔ Valid settings
load_settings-Valid_example = load_settings-Valid settings

abbrev deployed : Credentials
deployed = record {
  service_keys = "service-key-0123456789012345678901" ∷ [];
  reviewer_keys = "reviewer-key-012345678901234567890" ∷ [];
  key_id_for = λ key. key;
  verify_session_cookie = λ cookie. none;
  verify_csrf_token = λ token session. false;
}
