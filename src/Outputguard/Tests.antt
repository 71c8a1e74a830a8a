-- ===== src/Outputguard/Tests.antt =====
-- A test of app/outputguard.py: a response that proposes a transfer, which a rule would hold.
use real_guard_v.Prelude.{◌≡◌, false, ◌&&◌, none, some, [], ◌∷◌, if◌then◌else◌}
use real_guard_v.Json.{Json, str, arr, obj, cons, nil, field, end, num, pos}
use real_guard_v.Errors.{ok}
use real_guard_v.Text.{codes}
use real_guard_v.Schemas.{allow, deny, need_approval, unchanged, redact}
use real_guard_v.Detectors.{action}
use real_guard_v.Policy.{condition, absent, Rule, Policy}
use real_guard_v.Decision.Evaluate.{evaluate_policy, has}
use real_guard_v.Decision.Tests.{casing, no_keys}
use real_guard_v.Transform.{apply_redact}
use real_guard_v.Transform.Tests.{patterns}
use real_guard_v.Outputguard.{
  Guards, inspect, egress_facts, run_output_guard, is_allow, guard-two_verdicts,
}

abbrev hold_transfer : Rule
hold_transfer = record {
  id = "high_value_transfer";
  plane = action ∷ [];
  condition_of =
      some (condition absent absent (record no_keys { tool_name_in = some ("transfer" ∷ []) }));
  rate_limit = none;
  verdict = need_approval;
  transformation = unchanged;
  reason_code = "SENSITIVE_ACTION";
}

abbrev pub policy : Policy
policy = record { rules = hold_transfer ∷ []; policy_version = "v" }

abbrev pub guards : Guards
guards = record {
  scan = λ text. ([], false);
  scan_leak = λ text prompt. ok [];
  scan_tool_call = λ name raw. ok [];
  loads = λ raw. some (obj (field "amount" (num (pos 5000)) end));
}

abbrev transfer : Json
transfer =
    obj (
      field "function" (obj (field "name" (str "transfer") (field "arguments" (str "raw") end)))
        end)

abbrev proposal : Json
proposal = obj (
    field "choices"
      (arr (
        cons (obj (field "message" (obj (field "tool_calls" (arr (cons transfer nil)) end)) end))
          nil))
      end)

guard-two_verdicts_example :
    let s = inspect guards (codes "done") "be kind" (some proposal) in
    let d = evaluate_policy casing policy (egress_facts s) s.is_degraded in
    let r =
      run_output_guard casing patterns guards policy (codes "done") "be kind" (some proposal) in
    (r.decision.verdict ≡ (if is_allow d.verdict then allow else deny))
    × (r.sanitized_content ≡ (
        if is_allow d.verdict && has redact (d.transformation ∷ [])
        then (apply_redact patterns (codes "done")).0
        else codes "done"))
guard-two_verdicts_example =
    guard-two_verdicts casing patterns guards policy (codes "done") "be kind" (some proposal)
