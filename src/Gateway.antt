-- ===== src/Gateway.antt =====
-- `create_chat_completion` of app/main.py: what the handler is given and what it answers with. The
-- steps before the verdict are Admission, those after it Verdicts; Handler puts them together.
pub mod Effects
pub mod Admission
pub mod Guarding
pub mod Verdicts
pub mod Handler
pub mod Mediation
pub mod Outcome
pub mod Evidence
pub mod Grounds
pub mod Failures
pub mod Limits
pub mod Tests
use real_guard_v.Prelude.{
  ℕ, String, Bool, true, false, ◌&&◌, ◌||◌, not, Option, List, [], ◌∷◌, map, filter, str_eq, mem,
  any, leb, if◌then◌else◌,
}
use real_guard_v.Json.{Json}
use real_guard_v.Errors.{Result}
use real_guard_v.Text.{Casing}
use real_guard_v.Schemas.{
  Verdict, allow, deny, need_approval, Transformation, RiskLevel, no_risk, low, medium, high,
  critical,
}
use real_guard_v.Detectors.{Finding, Confidence, value}
use real_guard_v.Policy.{Policy}
use real_guard_v.Approvals.{Hashing, Draws}
use real_guard_v.Decision.Evaluate.{PolicyHit, Decision, same_verdict}
use real_guard_v.Transform.{Patterns}
use real_guard_v.Pipeline.{Inspection}
use real_guard_v.Outputguard.{Guards, Seen}
use real_guard_v.Auth.{Credentials}

-- `AppState` with its settings, and what the code calls outside itself.
pub record Gateway : Type 0 where
  pub casing : Casing
  pub patterns : Patterns
  pub hashing : Hashing
  pub inspection : Inspection
  pub guards : Guards
  -- what the guard sees of a content that is no text
  pub guards_other : Json → Seen
  pub credentials : Credentials
  pub policy : Option Policy
  -- `provider.complete`
  pub complete : Json → Result Json
  -- whether pydantic accepts the fields of an `AllowedResponse`
  pub is_completion : Json → List Json → Bool
  pub is_production : Bool
  pub mock_mode : Bool
  pub rate_limit_requests : ℕ
  pub rate_limit_window_seconds : ℕ
  pub approval_ttl_seconds : ℕ
  pub retains_content : Bool
  -- whether the backend fails under the limiter, and under the audit event
  pub limiter_fails : Bool
  pub audit_fails : Bool

-- A request with its drawn ids; `body` is `none` if it is not JSON.
pub record Request : Type 0 where
  pub body : Option Json
  pub authorization : Option String
  pub correlation_id : String
  pub transaction_id : String
  pub request_id : String
  pub limiter_row_id : String
  pub now : ℕ
  pub approval_draws : Draws
  pub audit_draws : Draws

pub record FindingSummary : Type 0 where
  pub detector_id : String
  pub category : String
  pub confidence : Confidence

pub record DeniedResponse : Type 0 where
  pub risk_level : RiskLevel
  pub reason_codes : List String
  pub policy_hits : List String
  pub transaction_id : String
  pub message : String
  pub policy_version : String
  pub degraded : Bool
  pub mode : String
  pub findings_summary : List FindingSummary

pub record NeedApprovalResponse : Type 0 where
  pub risk_level : RiskLevel
  pub reason_codes : List String
  pub policy_hits : List String
  pub transformation : Transformation
  pub transaction_id : String
  pub request_id : String
  pub approval_id : String
  pub expires_at : ℕ

-- `upstream` holds the id, object, created, model and usage; the timings are left out.
pub record AllowedResponse : Type 0 where
  pub upstream : Json
  pub choices : List Json
  pub transformation : Transformation
  pub transaction_id : String
  pub risk_level : RiskLevel
  pub reason_codes : List String
  pub policy_hits : List String
  pub policy_version : String
  pub degraded : Bool
  pub mode : String

pub data Answer : Type 0 where
  refused : DeniedResponse → Answer
  held : NeedApprovalResponse → Answer
  completed : AllowedResponse → Answer

-- The `status_code` of the `JSONResponse`, and the decision that it carries.
abbrev pub answer_status : Answer → ℕ
answer_status (refused _) = 403
answer_status (held _) = 202
answer_status (completed _) = 200

abbrev pub answer_verdict : Answer → Verdict
answer_verdict (refused _) = deny
answer_verdict (held _) = need_approval
answer_verdict (completed _) = allow

abbrev pub verdict_name : Verdict → String
verdict_name allow = "ALLOW"
verdict_name deny = "DENY"
verdict_name need_approval = "NEED_APPROVAL"

-- `_RISK_RANK` and `_max_risk_level`
abbrev pub risk_rank : RiskLevel → ℕ
risk_rank no_risk = 0
risk_rank low = 1
risk_rank medium = 2
risk_rank high = 3
risk_rank critical = 4

abbrev pub max_risk_level : RiskLevel → RiskLevel → RiskLevel
max_risk_level a b = if leb (risk_rank b) (risk_rank a) then a else b

-- The ids of the hits with a verdict.
abbrev pub hits_with : Verdict → List PolicyHit → List String
hits_with v hits =
    map (λ (h : PolicyHit). h.rule_id) (filter (λ (h : PolicyHit). same_verdict h.verdict v) hits)

abbrev pub is_summarised : String → String → FindingSummary → Bool
is_summarised detector_id category s =
    str_eq s.detector_id detector_id && str_eq s.category category

-- The loop of `_confidence_for_reason_codes`; `seen` are the entries so far, the last first.
unfoldable pub summarise : List String → List Finding → List FindingSummary → List FindingSummary
summarise reason_codes [] seen = []
summarise reason_codes (f ∷ findings) seen =
    let s : FindingSummary = record {
      detector_id = f.detector_id;
      category = value f.category;
      confidence = f.confidence;
    } in
    let skipped = summarise reason_codes findings seen in
    let added = summarise reason_codes findings (s ∷ seen) in
    if not (mem (value f.category) reason_codes)
      || any (is_summarised f.detector_id (value f.category)) seen
    then skipped
    else s ∷ added

unfoldable pub confidence_for_reason_codes : List Finding → List String → List FindingSummary
unfolding summarise
confidence_for_reason_codes findings reason_codes = summarise reason_codes findings []
