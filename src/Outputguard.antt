-- ===== src/Outputguard.antt =====
-- app/outputguard.py: the inspection of a response and of the tool call that it proposes, and the
-- decision on it. The detectors, the tool call detector and `json.loads` are parameters.
pub mod Tests
use real_guard_v.Prelude.{
  ℕ, ◌≡◌, ◌≢◌, refl, ◌∙◌, arith, String, Bool, true, false, not, ◌||◌, ◌&&◌, Option, none, some,
  List, [], ◌∷◌, ◌++◌, filter, if◌then◌else◌, str_eq,
}
use real_guard_v.Json.{Json, null, str, arr, obj, end, get_or, is_dict, nil, cons}
use real_guard_v.Errors.{Result, ok, err, Error, value_error, type_error}
use real_guard_v.Text.{Casing}
use real_guard_v.Schemas.{Verdict, allow, deny, need_approval, Transformation, unchanged, redact}
use real_guard_v.Detectors.{Plane, input, context, response, action, Finding}
use real_guard_v.Policy.{Policy}
use real_guard_v.Risk.{RiskAssessment, aggregate_risk}
use real_guard_v.Decision.Evaluate.{Facts, Decision, evaluate_policy, has}
use real_guard_v.Decision.Precedence.{is_need}
use real_guard_v.Transform.{Patterns, TransformationRecord, apply_redact, no_record}

-- `d.get(key)` of the first entry of a list, as far as the value has that shape.
abbrev first_dict : Json → Option Json
first_dict (arr (cons x xs)) = if is_dict x then some x else none
first_dict _ = none

abbrev dict : Json → Option Json
dict v = if is_dict v then some v else none

abbrev call_of : Json → Option (String × String)
call_of function = elim (get_or "name" function null) [
  | str name ↦ elim (get_or "arguments" function null) [
    | str arguments ↦ some (name, arguments)
    | _ ↦ none
  ]
  | _ ↦ none
]

abbrev step : String → (Json → Option Json) → Option Json → Option Json
step key shape none = none
step key shape (some v) = shape (get_or key v null)

-- `_first_response_tool_call`
unfoldable pub first_response_tool_call : Json → Option (String × String)
first_response_tool_call upstream_response =
    let choice = step "choices" first_dict (some upstream_response) in
    let message = step "message" dict choice in
    let tool_call = step "tool_calls" first_dict message in
    elim (step "function" dict tool_call) [ none ↦ none | some function ↦ call_of function ]

pub record Guards : Type 0 where
  -- the orchestrator's run on the response plane: its findings, and whether it is degraded
  pub scan : List ℕ → List Finding × Bool
  -- `scan_response` of the system prompt detector
  pub scan_leak : List ℕ → String → Result (List Finding)
  -- `scan_tool_call` with raw arguments
  pub scan_tool_call : String → String → Result (List Finding)
  -- `json.loads`, `none` for a `ValueError`
  pub loads : String → Option Json

-- What the tool call adds: findings, the name and arguments that the policy is shown, and whether a
-- detector failed.
pub record ToolPart : Type 0 where
  pub tool_findings : List Finding
  pub tool_name : Option String
  pub tool_arguments : Json
  pub failed : Bool

abbrev pub no_tool : List Finding → Bool → ToolPart
no_tool findings failed = record {
  tool_findings = findings;
  tool_name = none;
  tool_arguments = obj end;
  failed = failed;
}

abbrev is_parse_error : Error → Bool
is_parse_error value_error = true
is_parse_error type_error = true
is_parse_error _ = false

abbrev parsed_part : String → List Finding → Option Json → ToolPart
parsed_part name findings none = no_tool findings false
parsed_part name findings (some v) =
    if is_dict v
    then record {
      tool_findings = findings;
      tool_name = some name;
      tool_arguments = v;
      failed = false;
    }
    else no_tool findings false

unfoldable pub tool_part : Guards → Option (String × String) → ToolPart
tool_part g none = no_tool [] false
tool_part g (some (name, raw_arguments)) = elim (g.scan_tool_call name raw_arguments) [
  | ok findings ↦ parsed_part name findings (g.loads raw_arguments)
  | err e ↦ no_tool [] (not (is_parse_error e))
]

abbrev leak_part : Result (List Finding) → List Finding × Bool
leak_part (ok findings) = (findings, false)
leak_part (err e) = ([], true)

pub record OutputGuardResult : Type 0 where
  pub decision : Decision
  pub risk : RiskAssessment
  pub findings : List Finding
  pub sanitized_content : List ℕ
  pub degraded : Bool

-- The id of `ToolCallsDetector`
abbrev from_tool : Finding → Bool
from_tool f = str_eq f.detector_id "tool_calls"

abbrev on_plane : List Finding → Plane → List Finding
on_plane findings response = filter (λ f. not (from_tool f)) findings
on_plane findings action = filter from_tool findings
on_plane findings _ = []

-- A verdict NEED_APPROVAL becomes DENY: a response cannot wait.
abbrev pub clamp : Decision → Decision
clamp d = if is_need d.verdict then record d { verdict = deny; transformation = unchanged } else d

-- `apply_transformations`, app/transform.py: only REDACT changes the text.
unfoldable pub apply_transformations :
    Patterns → List ℕ → List Transformation → List ℕ × TransformationRecord
apply_transformations p text types =
    if has redact types then apply_redact p text else (text, no_record)

abbrev sanitize_for : Patterns → List ℕ → Decision → List ℕ
sanitize_for p text d = elim (d.verdict) [
  | allow ↦ elim (d.transformation) [
    | unchanged ↦ text
    | t ↦ (apply_transformations p text (t ∷ [])).0
  ]
  | _ ↦ text
]

-- What the guard has seen of a response.
pub record Seen : Type 0 where
  pub findings : List Finding
  pub tool : ToolPart
  pub is_degraded : Bool

unfoldable pub inspect : Guards → List ℕ → String → Option Json → Seen
unfolding first_response_tool_call tool_part
inspect g content system_prompt_text upstream_response =
    let (scanned, failed) = g.scan content in
    let (leaked, leak_failed) = leak_part (g.scan_leak content system_prompt_text) in
    let tool =
      tool_part g (elim upstream_response [ none ↦ none | some r ↦ first_response_tool_call r ]) in
    record {
      findings = scanned ++ (leaked ++ tool.tool_findings);
      tool = tool;
      is_degraded = failed || (leak_failed || tool.failed);
    }

abbrev pub egress_facts : Seen → Facts
egress_facts s = record {
  findings_by_plane = on_plane s.findings;
  byte_count = 0;
  tool_name = s.tool.tool_name;
  tool_arguments = s.tool.tool_arguments;
}

unfoldable pub run_output_guard :
    Casing → Patterns → Guards → Policy → List ℕ → String → Option Json → OutputGuardResult
unfolding inspect apply_transformations
run_output_guard u p g policy content system_prompt_text upstream_response =
    let s = inspect g content system_prompt_text upstream_response in
    let d = clamp (evaluate_policy u policy (egress_facts s) s.is_degraded) in
    record {
      decision = d;
      risk = aggregate_risk s.findings;
      findings = s.findings;
      sanitized_content = sanitize_for p content d;
      degraded = s.is_degraded;
    }

abbrev pub is_allow : Verdict → Bool
is_allow allow = true
is_allow _ = false

-- A response is allowed exactly when the policy's decision on it is ALLOW, and denied otherwise: the
-- guard never answers NEED_APPROVAL. What it hands on is the response as it came, unless it is
-- allowed with the transformation REDACT: then it is the redacted response.
pub guard-two_verdicts :
    (u : Casing) (p : Patterns) (g : Guards) (policy : Policy) (content : List ℕ)
    (system_prompt_text : String) (upstream_response : Option Json)
    → let s = inspect g content system_prompt_text upstream_response in
      let d = evaluate_policy u policy (egress_facts s) s.is_degraded in
      let r = run_output_guard u p g policy content system_prompt_text upstream_response in
      (r.decision.verdict ≡ (if is_allow d.verdict then allow else deny))
      × (r.sanitized_content ≡ (
          if is_allow d.verdict && has redact (d.transformation ∷ [])
          then (apply_redact p content).0
          else content))
unfolding run_output_guard apply_transformations
guard-two_verdicts u p g policy content system_prompt_text upstream_response =
    let s = inspect g content system_prompt_text upstream_response in
    clamped (evaluate_policy u policy (egress_facts s) s.is_degraded)
  where
    clamped :
        (d : Decision)
        → ((clamp d).verdict ≡ (if is_allow d.verdict then allow else deny))
          × (sanitize_for p content (clamp d) ≡ (
              if is_allow d.verdict && has redact (d.transformation ∷ [])
              then (apply_redact p content).0
              else content))
    clamped d = (ground arith, ground arith)
