-- ===== src/Policy.antt =====
-- A validated policy document: app/policy.py and the structure that policies/policy.schema.json
-- gives its rules. A condition is a dict with optional keys; a key that is absent is `none`.
-- Thresholds are in ten-thousandths, as scores are, and tool arguments are integers.
use real_guard_v.Prelude.{ℕ, String, Bool, Option, List}
use real_guard_v.Json.{ℤ}
use real_guard_v.Detectors.{Plane}
use real_guard_v.Schemas.{Verdict, Transformation}

-- The keys of a condition but `all` and `any`.
pub record Keys : Type 0 where
  pub category : Option String
  pub score_gte : Option ℕ
  pub score_lt : Option ℕ
  pub bytes_gt : Option ℕ
  pub tool_name_in : Option (List String)
  pub tool_not_in : Option (List String)
  pub argument_path : Option String
  pub numeric_gte : Option ℤ
  pub numeric_lt : Option ℤ
  pub sql_verb_in : Option (List String)
  -- The value of the flag, which the evaluation does not read.
  pub sql_unbounded_mutation : Option Bool
  pub shell_pattern_in : Option (List String)

mutual
  pub data Condition : Type 0 where
    condition : Nested → Nested → Keys → Condition

  -- The value of `all` or `any`.
  pub data Nested : Type 0 where
    absent : Nested
    present : Conditions → Nested

  pub data Conditions : Type 0 where
    no_more : Conditions
    more : Condition → Conditions → Conditions

pub record RateLimit : Type 0 where
  pub requests : ℕ
  pub window_seconds : ℕ
  pub scope : String

-- A rule without a transformation has `unchanged`, the default of `rule.get`.
pub record Rule : Type 0 where
  pub id : String
  pub plane : List Plane
  pub condition_of : Option Condition
  pub rate_limit : Option RateLimit
  pub verdict : Verdict
  pub transformation : Transformation
  pub reason_code : String

pub record Policy : Type 0 where
  pub rules : List Rule
  pub policy_version : String
