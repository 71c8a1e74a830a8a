-- ===== src/Config/Start.antt =====
-- app/config.py: with which settings the program starts.
use real_guard_v.Prelude.{◌⊎◌, ◌&&◌, ◌≤◌, ◌≡◌, arith, ◌↔◌, true, false}
use real_guard_v.Config.{Settings, is_empty, service_keys, reviewer_keys, mock_mode}
use real_guard_v.Config.Checks.{
  fields_in_range, load_settings, loaded, short_service_key, short_reviewer_key,
}
use real_guard_v.Config.Keys.{short_keys-nil, overlap-nil}
use real_guard_v.Config.Valid.{Within, Valid}
use real_guard_v.Config.Rules.{
  encryption_rule-nil, upstream_rules-nil, retention_rules-nil, cross_field-nil,
  cross_field-Posture, Posture-rules, load_settings-loaded,
}

module _ (s : Settings) where
  fields_in_range-Within : (fields_in_range s ≡ true) ↔ (
      Within 1 s.bind_port 65535
      × (is_empty s.upstream_model ≡ false)
      × Within 1024 s.max_request_bytes 10485760
      × Within 60 s.approval_ttl_seconds 604800
      × Within 10 s.detector_timeout_ms 5000
      × (s.max_decode_depth ≤ 5)
      × Within 1 s.max_resume_attempts 10
      × Within 300 s.session_ttl_seconds 86400
      × Within 60 s.idempotency_ttl_seconds 604800
      × Within 1 s.audit_retention_days 3650
      × (1 ≤ s.content_retention_days)
      × (1 ≤ s.rate_limit_requests)
      × (1 ≤ s.rate_limit_window_seconds))
  unfolding fields_in_range
  fields_in_range-Within = ground arith

  loaded-Valid : load_settings s ≡ loaded s → Valid s
  loaded-Valid h =
      let (host, ranges, clean) = (load_settings-loaded s).0 h in
      let (
        port, model, bytes, approval, detector, depth, attempts, session, idempotency, audit,
        content, requests, window,
      ) =
        fields_in_range-Within.0 ranges in
      let (service, reviewer, shared, _, _, upstream, retention, _) = (cross_field-nil s).0 clean in
      let (_, no_mock) = (upstream_rules-nil s).0 upstream in
      let (_, key, days) = (retention_rules-nil s).0 retention in
      record {
        host = host;
        model = model;
        port = port;
        request_bytes = bytes;
        approval_ttl = approval;
        detector_timeout = detector;
        decode_depth = depth;
        resume_attempts = attempts;
        session_ttl = session;
        idempotency_ttl = idempotency;
        audit_days = audit;
        content_days = (content, days);
        requests = requests;
        window = window;
        long_service_keys = (short_keys-nil short_service_key (service_keys s)).0 service;
        long_reviewer_keys = (short_keys-nil short_reviewer_key (reviewer_keys s)).0 reviewer;
        disjoint = (overlap-nil (service_keys s) (reviewer_keys s)).0 shared;
        preflight = ground arith;
        encryption = (encryption_rule-nil s).0 key;
        posture = cross_field-Posture s clean;
      }

  no_preflight :
      (s.ollama_preflight_enabled ≡ false) ⊎ (mock_mode s ≡ false)
      → (s.ollama_preflight_enabled && mock_mode s) ≡ false
  no_preflight h = ground arith

  Valid-loaded : Valid s → load_settings s ≡ loaded s
  Valid-loaded v =
      let (keys, secrets, mock, plaintext, metrics) = Posture-rules s (v.posture) in
      (load_settings-loaded s).1 (
        v.host,
        fields_in_range-Within.1 (
          v.port, v.model, v.request_bytes, v.approval_ttl, v.detector_timeout, v.decode_depth,
          v.resume_attempts, v.session_ttl, v.idempotency_ttl, v.audit_days, v.content_days.0,
          v.requests, v.window,
        ),
        (cross_field-nil s).1 (
          (short_keys-nil short_service_key (service_keys s)).1 v.long_service_keys,
          (short_keys-nil short_reviewer_key (reviewer_keys s)).1 v.long_reviewer_keys,
          (overlap-nil (service_keys s) (reviewer_keys s)).1 v.disjoint,
          keys,
          secrets,
          (upstream_rules-nil s).1 (mock, no_preflight (v.preflight)),
          (retention_rules-nil s).1
              (plaintext, (encryption_rule-nil s).1 v.encryption, v.content_days.1),
          metrics,
        ),
      )

-- The settings are accepted exactly when they satisfy the rules of `Valid`: every number in its
-- range, every key long enough, the two classes of keys disjoint, the preflight only against an
-- upstream, an encryption key for encrypted contents, contents kept no longer than the audit trail,
-- and either production with both classes of keys, its two secrets, an upstream, no plaintext
-- contents (unless the two overrides say so) and authenticated metrics, or another environment that
-- is bound to the loopback or has a key.
pub load_settings-Valid : (s : Settings) → (load_settings s ≡ loaded s) ↔ Valid s
load_settings-Valid s = (loaded-Valid s, Valid-loaded s)
