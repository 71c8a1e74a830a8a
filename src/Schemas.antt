-- ===== src/Schemas.antt =====
-- The closed vocabularies of the wire format: app/schemas.py.
-- Verdicts, transformations and risk levels are strings there, and data types here.
use real_guard_v.Prelude.{Bool, true, false}

-- "ALLOW" and so on.
pub data Verdict : Type 0 where
  allow deny need_approval : Verdict

-- "NONE" is `unchanged`.
pub data Transformation : Type 0 where
  unchanged redact mask sanitize rewrite truncate : Transformation

-- "NONE" is `no_risk`.
pub data RiskLevel : Type 0 where
  no_risk low medium high critical : RiskLevel

abbrev pub is_deny : Verdict → Bool
is_deny deny = true
is_deny _ = false
