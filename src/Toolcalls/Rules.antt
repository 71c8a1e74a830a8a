-- ===== src/Toolcalls/Rules.antt =====
-- app/detectors/tool_calls.py: the four rules that the detector reads.
use real_guard_v.Prelude.{
  ℕ, ◌≡◌, refl, String, Bool, true, none, some, List, [], ◌++◌, map, any, str_eq,
}
use real_guard_v.Json.{Json, ℤ}
use real_guard_v.Text.{Casing, codes, upper}
use real_guard_v.Detectors.{Finding, Category, value}
use real_guard_v.Policy.{Keys, Condition, condition, absent, present, no_more, more, Rule, Policy}
use real_guard_v.Decision.Conditions.{DecisionContext}
use real_guard_v.Toolcalls.{
  ToolCallsDetector, detector_of, conditions_of, flatten_conditions, rule_by_id,
}

abbrev pub blank : Keys
blank = record {
  category = none;
  score_gte = none;
  score_lt = none;
  bytes_gt = none;
  tool_name_in = none;
  tool_not_in = none;
  argument_path = none;
  numeric_gte = none;
  numeric_lt = none;
  sql_verb_in = none;
  sql_unbounded_mutation = none;
  shell_pattern_in = none;
}

abbrev leaf : Keys → Condition
leaf k = condition absent absent k

-- The conditions of the four rules, as policies/default_policy.yaml writes them.
abbrev pub unlisted : List String → Condition
unlisted names = leaf (record blank { tool_not_in = some names })

abbrev pub transfer : List String → ℤ → Condition
transfer tools n =
    condition
      (present (
        more (leaf (record blank { tool_name_in = some tools })) (
          more (leaf (record blank { argument_path = some "$.amount"; numeric_gte = some n }))
            no_more)))
      absent blank

abbrev pub destructive : List String → Condition
destructive verbs =
    condition absent
      (present (
        more (leaf (record blank { argument_path = some "$.query"; sql_verb_in = some verbs })) (
          more
            (leaf
              (record blank { argument_path = some "$.query"; sql_unbounded_mutation = some true }))
            no_more)))
      blank

abbrev pub deletion : List String → Condition
deletion names =
    leaf (record blank { argument_path = some "$.command"; shell_pattern_in = some names })

-- The first rule of the policy under an id has a condition.
abbrev pub HasRule : Policy → String → Condition → Type 0
HasRule policy rule_id c =
    (rule : Rule) × (rule_by_id policy.rules rule_id ≡ some rule) × (rule.condition_of ≡ some c)

abbrev pub asked : List Finding → ℕ → String → Json → DecisionContext
asked findings n tool_name args = record {
  findings = findings;
  byte_count = n;
  tool_name = some tool_name;
  tool_arguments = args;
}

abbrev pub has : Category → List Finding → Bool
has c fs = any (λ (f : Finding). str_eq (value f.category) (value c)) fs

conditions-HasRule :
    (policy : Policy) (rule_id : String) (c : Condition)
    → HasRule policy rule_id c
    → conditions_of policy rule_id ≡ flatten_conditions c
unfolding conditions_of
conditions-HasRule policy rule_id c (rule, found, same) = rw (conditions_of, found, same) refl

-- What the detector takes from the four rules.
abbrev pub from_rules :
    Casing → List String → List String → List String → List String → ℤ → ToolCallsDetector
from_rules u names tools verbs patterns b = record {
  allowlist = some names;
  high_value_tools = tools;
  high_value_threshold = some b;
  sql_verbs = map (λ (v : String). upper u (codes v)) verbs ++ [];
  shell_pattern_names = patterns ++ [];
}

pub record Shipped (policy : Policy) (names tools verbs patterns : List String) (b : ℤ)
    : Type 0 where
  pub allow : HasRule policy "agent_tool_allowlist" (unlisted names)
  pub high_value : HasRule policy "high_value_transfer" (transfer tools b)
  pub sql : HasRule policy "deny_destructive_sql" (destructive verbs)
  pub shell : HasRule policy "deny_shell_deletion" (deletion patterns)

pub detector_of-Shipped :
    (u : Casing) (policy : Policy) (names tools verbs patterns : List String) (b : ℤ)
    → Shipped policy names tools verbs patterns b
    → detector_of u policy ≡ from_rules u names tools verbs patterns b
unfolding detector_of flatten_conditions
detector_of-Shipped u policy names tools verbs patterns b s =
    rw
      (
        conditions-HasRule policy "agent_tool_allowlist" (unlisted names) (s.allow),
        conditions-HasRule policy "high_value_transfer" (transfer tools b) (s.high_value),
        conditions-HasRule policy "deny_destructive_sql" (destructive verbs) (s.sql),
        conditions-HasRule policy "deny_shell_deletion" (deletion patterns) (s.shell),
      )
      refl
