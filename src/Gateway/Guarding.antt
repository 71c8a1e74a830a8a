-- ===== src/Gateway/Guarding.antt =====
-- The forwarded messages and the output guard in `create_chat_completion` of app/main.py.
use real_guard_v.Prelude.{some, List}
use real_guard_v.Json.{Json, str}
use real_guard_v.Errors.{Result, ok, err, value_error}
use real_guard_v.Text.{codes}
use real_guard_v.Unicode.{text_of_codes}
use real_guard_v.Schemas.{allow, unchanged, RiskLevel}
use real_guard_v.Detectors.{Finding}
use real_guard_v.Risk.{aggregate_risk}
use real_guard_v.Approvals.Payloads.{system_prompt_text_from_messages}
use real_guard_v.Transform.Messages.{apply_transformation_to_messages}
use real_guard_v.Decision.Evaluate.{Decision, evaluate_policy}
use real_guard_v.Outputguard.{Seen, OutputGuardResult, run_output_guard, egress_facts, clamp}
use real_guard_v.Gateway.{Gateway, Request}
use real_guard_v.Gateway.Admission.{Admitted}

-- What the guard makes of a response, and the content that it hands on.
pub record Guarded : Type 0 where
  pub decision : Decision
  pub risk_level : RiskLevel
  pub findings : List Finding
  pub content : Json

module _ (g : Gateway) (q : Request) (a : Admitted) where
  abbrev pub forward_messages : Decision → List Json
  forward_messages d = apply_transformation_to_messages g.patterns d.transformation a.messages

  abbrev of_text : OutputGuardResult → Guarded
  of_text o = record {
    decision = o.decision;
    risk_level = o.risk.risk_level;
    findings = o.findings;
    content = str (text_of_codes o.sanitized_content);
  }

  abbrev pub other_decision : Seen → Decision
  other_decision s = clamp (evaluate_policy g.casing a.policy (egress_facts s) s.is_degraded)

  -- A transformation of what is no text raises.
  abbrev pub of_other : Json → Seen → Result Guarded
  of_other content s =
      let d = other_decision s in
      let untouched : Result Guarded = ok (record {
        decision = d;
        risk_level = (aggregate_risk s.findings).risk_level;
        findings = s.findings;
        content = content;
      }) in
      elim (d.verdict) [
        | allow ↦ elim (d.transformation) [ unchanged ↦ untouched | _ ↦ err value_error ]
        | _ ↦ untouched
      ]

  -- `run_output_guard` on the content of the first choice
  unfoldable pub guard : Decision → Json → Json → Result Guarded
  guard d response (str s) = ok (
      of_text (
        run_output_guard g.casing g.patterns g.guards a.policy (codes s)
          (system_prompt_text_from_messages (forward_messages d)) (some response)))
  guard d response content = of_other content (g.guards_other content)
