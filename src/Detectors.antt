-- ===== src/Detectors.antt =====
-- The contract of the detectors: app/detectors/base.py, and the planes of app/planes.py.
-- A score is a count of ten-thousandths: the program compares scores and takes their maximum,
-- and does no other arithmetic on them.
use real_guard_v.Prelude.{ℕ, String, List}
use real_guard_v.Json.{Json}

pub data Plane : Type 0 where
  input context response action : Plane

pub data Confidence : Type 0 where
  low_confidence medium_confidence high_confidence : Confidence

pub data Category : Type 0 where
  prompt_injection jailbreak indirect_injection encoded_payload : Category
  pii_detected secret_detected blocked_topic sensitive_topic : Category
  output_pii output_secret system_prompt_leak canary_leak schema_violation : Category
  sensitive_action destructive_action tool_not_allowlisted detector_timeout : Category

-- `category.value`
abbrev pub value : Category → String
value prompt_injection = "PROMPT_INJECTION"
value jailbreak = "JAILBREAK"
value indirect_injection = "INDIRECT_INJECTION"
value encoded_payload = "ENCODED_PAYLOAD"
value pii_detected = "PII_DETECTED"
value secret_detected = "SECRET_DETECTED"
value blocked_topic = "BLOCKED_TOPIC"
value sensitive_topic = "SENSITIVE_TOPIC"
value output_pii = "OUTPUT_PII"
value output_secret = "OUTPUT_SECRET"
value system_prompt_leak = "SYSTEM_PROMPT_LEAK"
value canary_leak = "CANARY_LEAK"
value schema_violation = "SCHEMA_VIOLATION"
value sensitive_action = "SENSITIVE_ACTION"
value destructive_action = "DESTRUCTIVE_ACTION"
value tool_not_allowlisted = "TOOL_NOT_ALLOWLISTED"
value detector_timeout = "DETECTOR_TIMEOUT"

pub record Evidence : Type 0 where
  pub start : ℕ
  pub end : ℕ
  pub pattern_id : String
  pub excerpt_hash : String

pub record Finding : Type 0 where
  pub detector_id : String
  pub detector_version : String
  pub category : Category
  pub score : ℕ
  pub confidence : Confidence
  pub evidence : List Evidence
  pub safe_metadata : Json
