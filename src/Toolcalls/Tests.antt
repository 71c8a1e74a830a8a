-- ===== src/Toolcalls/Tests.antt =====
-- A test of app/detectors/tool_calls.py with the rules of policies/default_policy.yaml.
use real_guard_v.Prelude.{◌≡◌, refl, ◌||◌, none, some, List, [], ◌∷◌, String, arith}
use real_guard_v.Json.{Json, str, num, obj, pos, field, end}
use real_guard_v.Text.{strip, lstrip, rstrip, is_space, upper, lower}
use real_guard_v.Schemas.{deny, unchanged}
use real_guard_v.Detectors.{action, tool_not_allowlisted, sensitive_action, destructive_action}
use real_guard_v.Policy.{Condition, Rule, Policy}
use real_guard_v.Decision.Tests.{casing}
use real_guard_v.Decision.Commands.{
  strip_sql_comments, strip_line_comments, strip_block_comments, collapse,
}
use real_guard_v.Decision.Conditions.{eval_condition}
use real_guard_v.Toolcalls.{detector_of}
use real_guard_v.Toolcalls.Scans.{scan_tool_call}
use real_guard_v.Toolcalls.Rules.{unlisted, transfer, destructive, deletion, asked, has, Shipped}
use real_guard_v.Toolcalls.Agreement.{scan-same_rules}

abbrev rule_of : String → Condition → Rule
rule_of id c = record {
  id = id;
  plane = action ∷ [];
  condition_of = some c;
  rate_limit = none;
  verdict = deny;
  transformation = unchanged;
  reason_code = "DESTRUCTIVE_ACTION";
}

abbrev names : List String
names = "search_docs" ∷ "wire_transfer" ∷ "run_sql" ∷ []

abbrev tools : List String
tools = "wire_transfer" ∷ "create_payment" ∷ []

abbrev verbs : List String
verbs = "DROP" ∷ "TRUNCATE" ∷ "ALTER" ∷ []

abbrev patterns : List String
patterns = "recursive_force_remove" ∷ "fork_bomb" ∷ []

abbrev policy : Policy
policy = record {
  rules =
      rule_of "high_value_transfer" (transfer tools (pos 1000))
      ∷ rule_of "deny_destructive_sql" (destructive verbs)
      ∷ rule_of "deny_shell_deletion" (deletion patterns)
      ∷ rule_of "agent_tool_allowlist" (unlisted names)
      ∷ [];
  policy_version = "1";
}

policy-Shipped : Shipped policy names tools verbs patterns (pos 1000)
policy-Shipped = record {
  allow = (rule_of "agent_tool_allowlist" (unlisted names), refl, refl);
  high_value = (rule_of "high_value_transfer" (transfer tools (pos 1000)), refl, refl);
  sql = (rule_of "deny_destructive_sql" (destructive verbs), refl, refl);
  shell = (rule_of "deny_shell_deletion" (deletion patterns), refl, refl);
}

abbrev args : Json
args = obj (
    field "amount" (num (pos 5000))
      (field "query" (str "Delete from t") (field "command" (str "rm -rf /") end)))

scan-same_rules_example :
    (has tool_not_allowlisted (
        scan_tool_call
          (λ raw. none)
          (λ s. s)
          casing
          (detector_of casing policy)
          "wire_transfer"
          (some args)
          none)
      ≡ eval_condition casing (unlisted names) (asked [] 0 "wire_transfer" args))
    × (has sensitive_action (
          scan_tool_call
            (λ raw. none)
            (λ s. s)
            casing
            (detector_of casing policy)
            "wire_transfer"
            (some args)
            none)
        ≡ eval_condition casing (transfer tools (pos 1000)) (asked [] 0 "wire_transfer" args))
    × (has destructive_action (
          scan_tool_call
            (λ raw. none)
            (λ s. s)
            casing
            (detector_of casing policy)
            "wire_transfer"
            (some args)
            none)
        ≡ (eval_condition casing (destructive verbs) (asked [] 0 "wire_transfer" args)
            || eval_condition casing (deletion patterns) (asked [] 0 "wire_transfer" args)))
unfolding strip_sql_comments strip_line_comments strip_block_comments collapse strip lstrip rstrip
    is_space upper lower
scan-same_rules_example =
    scan-same_rules casing policy-Shipped (λ raw. none) (λ s. s) [] 0 "wire_transfer" args refl
      (λ e. absurd (ground arith), refl, refl, refl) refl
