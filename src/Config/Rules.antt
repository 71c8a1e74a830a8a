-- ===== src/Config/Rules.antt =====
-- app/config.py: when each group of checks of `_validate_cross_field` reports nothing.
use real_guard_v.Text.{strip}
use real_guard_v.Prelude.{
  ℕ, ◌≤◌, ◌≡◌, refl, arith, ◌↔◌, ◌⊎◌, inl, inr, true, false, not, ◌&&◌, Option, none, some, List,
  [], ◌++◌, Bool-cases, if◌then◌else◌, if_both,
}
use real_guard_v.Config.{
  Settings, is_empty, is_production, is_loopback_bind, mock_mode, service_keys, reviewer_keys,
}
use real_guard_v.Config.Checks.{
  Problem, is_full, is_encrypted, when, secret_of, key_presence, production_secrets, upstream_rules,
  retention_rules, cross_field_errors, fields_in_range, load_settings, loaded, short_keys, overlap,
  short_service_key, short_reviewer_key, open_metrics, no_session_secret, short_session_secret,
  no_hash_salt, short_hash_salt, no_encryption_key, short_encryption_key,
}
use real_guard_v.Config.Keys.{append-nil, when-nil}
use real_guard_v.Config.Valid.{HasSecret, Posture, in_production, on_loopback, behind_keys}

secret_of-nil :
    (n : ℕ) (a b : Problem) (o : Option (List ℕ)) → (secret_of n a b o ≡ []) ↔ HasSecret n o
unfolding secret_of
secret_of-nil n a b none = (λ h. absurd (ground arith), λ h. absurd (ground arith))
secret_of-nil n a b (some v) = (λ h. (v, refl, ground arith), λ h. ground arith)

append8-nil :
    (a b c d e f g h : List Problem)
    → (a ++ b ++ c ++ d ++ e ++ f ++ g ++ h ≡ [])
      ↔ ((a ≡ []) × (b ≡ []) × (c ≡ []) × (d ≡ []) × (e ≡ []) × (f ≡ []) × (g ≡ []) × (h ≡ []))
append8-nil a b c d e f g h = ground (
  arith,
  append-nil a b,
  append-nil (a ++ b) c,
  append-nil (a ++ b ++ c) d,
  append-nil (a ++ b ++ c ++ d) e,
  append-nil (a ++ b ++ c ++ d ++ e) f,
  append-nil (a ++ b ++ c ++ d ++ e ++ f) g,
  append-nil (a ++ b ++ c ++ d ++ e ++ f ++ g) h,
)

module _ (s : Settings) where
  production_secrets-nil :
      production_secrets s ≡ []
      → is_production s.app_env ≡ true
      → HasSecret 32 s.session_secret × HasSecret 16 s.hash_salt
  unfolding production_secrets
  production_secrets-nil h e =
      let parts =
        (append-nil (secret_of 32 no_session_secret short_session_secret s.session_secret)
            (secret_of 16 no_hash_salt short_hash_salt s.hash_salt)).0
          (rw e at h) in
      (
        (secret_of-nil 32 no_session_secret short_session_secret s.session_secret).0 (parts.0),
        (secret_of-nil 16 no_hash_salt short_hash_salt s.hash_salt).0 (parts.1),
      )

  production_secrets_present :
      HasSecret 32 s.session_secret → HasSecret 16 s.hash_salt → production_secrets s ≡ []
  unfolding production_secrets
  production_secrets_present session salt =
      let a =
        (secret_of-nil 32 no_session_secret short_session_secret s.session_secret).1 session in
      let b = (secret_of-nil 16 no_hash_salt short_hash_salt s.hash_salt).1 salt in
      rw (a, b) (if_both (λ l. l ≡ []) (is_production s.app_env) (λ _. refl) (λ _. refl))

  no_production_secrets : is_production s.app_env ≡ false → production_secrets s ≡ []
  unfolding production_secrets
  no_production_secrets e = rw e refl

  key_presence_production :
      is_production s.app_env ≡ true
      → (key_presence s ≡ [])
        ↔ ((is_empty (service_keys s) ≡ false) × (is_empty (reviewer_keys s) ≡ false))
  unfolding key_presence when
  key_presence_production e = ground arith

  key_presence_elsewhere :
      is_production s.app_env ≡ false
      → (key_presence s ≡ []) ↔ (
          (is_loopback_bind s ≡ true)
          ⊎ ((is_empty (service_keys s) ≡ false) ⊎ (is_empty (reviewer_keys s) ≡ false)))
  unfolding key_presence when
  key_presence_elsewhere e = ground arith

  pub upstream_rules-nil : (upstream_rules s ≡ []) ↔ (
      ((is_production s.app_env && mock_mode s && not s.allow_mock_in_production) ≡ false)
      × ((s.ollama_preflight_enabled && mock_mode s) ≡ false))
  unfolding upstream_rules when
  upstream_rules-nil = ground arith

  abbrev encryption_rule : List Problem
  encryption_rule =
      if is_encrypted s.content_retention
      then secret_of 32 no_encryption_key short_encryption_key s.content_encryption_key
      else []

  pub retention_rules-nil : (retention_rules s ≡ []) ↔ (
      ((is_full s.content_retention && is_production s.app_env && not s.allow_plaintext_retention)
        ≡ false)
      × (encryption_rule ≡ [])
      × (s.content_retention_days ≤ s.audit_retention_days))
  unfolding retention_rules when
  retention_rules-nil = ground arith

  pub encryption_rule-nil :
      (encryption_rule ≡ [])
      ↔ ((is_encrypted s.content_retention ≡ false) ⊎ HasSecret 32 s.content_encryption_key)
  encryption_rule-nil =
      ground
        (arith, secret_of-nil 32 no_encryption_key short_encryption_key s.content_encryption_key)

  pub cross_field-nil : (cross_field_errors s ≡ []) ↔ (
      (short_keys short_service_key (service_keys s) ≡ [])
      × (short_keys short_reviewer_key (reviewer_keys s) ≡ [])
      × (overlap (service_keys s) (reviewer_keys s) ≡ [])
      × (key_presence s ≡ [])
      × (production_secrets s ≡ [])
      × (upstream_rules s ≡ [])
      × (retention_rules s ≡ [])
      × ((is_production s.app_env && not s.metrics_require_auth) ≡ false))
  unfolding cross_field_errors
  cross_field-nil = ground (
    arith,
    append8-nil (short_keys short_service_key (service_keys s))
        (short_keys short_reviewer_key (reviewer_keys s))
        (overlap (service_keys s) (reviewer_keys s)) (key_presence s) (production_secrets s)
        (upstream_rules s) (retention_rules s)
        (when (is_production s.app_env && not s.metrics_require_auth) open_metrics),
    when-nil (is_production s.app_env && not s.metrics_require_auth) open_metrics,
  )

  pub cross_field-Posture : cross_field_errors s ≡ [] → Posture s
  cross_field-Posture h =
      let (_, _, _, keys, secrets, upstream, retention, metrics) = cross_field-nil.0 h in
      let (mock, _) = upstream_rules-nil.0 upstream in
      let (plaintext, _, _) = retention_rules-nil.0 retention in
      elim (Bool-cases (is_production s.app_env)) [
        | inl e ↦
            let (service, reviewer) = (key_presence_production e).0 keys in
            let (session, salt) = production_secrets-nil secrets e in
            in_production e service reviewer session salt (ground arith) (ground arith)
              (ground arith)
        | inr e ↦ elim ((key_presence_elsewhere e).0 keys) [
          | inl local ↦ on_loopback e local
          | inr held ↦ behind_keys e held
        ]
      ]

  -- What a posture settles of the rules that depend on the environment.
  pub Posture-rules :
      Posture s
      → (key_presence s ≡ [])
        × (production_secrets s ≡ [])
        × ((is_production s.app_env && mock_mode s && not s.allow_mock_in_production) ≡ false)
        × ((is_full s.content_retention
              && is_production s.app_env
              && not s.allow_plaintext_retention)
            ≡ false)
        × ((is_production s.app_env && not s.metrics_require_auth) ≡ false)
  Posture-rules (in_production e service reviewer session salt mock plaintext metrics) = (
    (key_presence_production e).1 (service, reviewer),
    production_secrets_present session salt,
    ground arith,
    ground arith,
    ground arith,
  )
  Posture-rules (on_loopback e local) = (
    (key_presence_elsewhere e).1 (inl local),
    no_production_secrets e,
    ground arith,
    ground arith,
    ground arith,
  )
  Posture-rules (behind_keys e held) = (
    (key_presence_elsewhere e).1 (inr held),
    no_production_secrets e,
    ground arith,
    ground arith,
    ground arith,
  )

  pub load_settings-loaded : (load_settings s ≡ loaded s) ↔ (
      (is_empty (strip s.bind_host) ≡ false)
      × (fields_in_range s ≡ true)
      × (cross_field_errors s ≡ []))
  unfolding load_settings
  load_settings-loaded = ground arith
