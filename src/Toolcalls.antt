-- ===== src/Toolcalls.antt =====
-- app/detectors/tool_calls.py: what the detector takes from the policy, and its findings on a call.
-- A number of the arguments is an integer, and `json.loads` is a parameter.
pub mod Scans
pub mod Rules
pub mod Texts
pub mod Evaluated
pub mod Found
pub mod Agreement
pub mod Tests
use real_guard_v.Prelude.{
  ℕ, String, Bool, true, false, not, ◌&&◌, ◌||◌, Option, none, some, List, [], ◌∷◌, ◌++◌, map, any,
  mem, str_eq, if◌then◌else◌,
}
use real_guard_v.Json.{Json, ℤ, num, str, obj, field, end, get, is_dict}
use real_guard_v.Text.{
  Casing, codes, is_space, strip, upper, lower, first_word, starts_with, contains, same_codes,
}
use real_guard_v.Unicode.{text_of_codes}
use real_guard_v.Detectors.{
  Finding, Evidence, Category, schema_violation, tool_not_allowlisted, sensitive_action,
  destructive_action, Confidence, medium_confidence, high_confidence,
}
use real_guard_v.Policy.{
  Keys, Condition, condition, Nested, absent, present, Conditions, no_more, more, Rule, Policy,
}
use real_guard_v.Decision.Commands.{shell_needles}
use real_guard_v.Decision.Conditions.{ltz}

-- `_rule_by_id`
abbrev pub rule_by_id : List Rule → String → Option Rule
rule_by_id [] rule_id = none
rule_by_id (rule ∷ rules) rule_id =
    if str_eq rule.id rule_id then some rule else rule_by_id rules rule_id

-- `_flatten_conditions`: the keys of a condition and of all that it nests.
unfoldable mutual
  pub flatten_conditions : Condition → List Keys
  flatten_conditions (condition alls anys k) = k ∷ (flatten_nested alls ++ flatten_nested anys)

  pub flatten_nested : Nested → List Keys
  flatten_nested absent = []
  flatten_nested (present cs) = flatten_all cs

  pub flatten_all : Conditions → List Keys
  flatten_all no_more = []
  flatten_all (more c cs) = flatten_conditions c ++ flatten_all cs

-- The conditions of a rule, none if there is no such rule or it has no `when`.
unfoldable pub conditions_of : Policy → String → List Keys
unfolding flatten_conditions
conditions_of policy rule_id = elim (rule_by_id policy.rules rule_id) [
  | none ↦ []
  | some rule ↦ elim (rule.condition_of) [ none ↦ [] | some c ↦ flatten_conditions c ]
]

-- The first list of `tool_not_in`
abbrev pub first_allowlist : List Keys → Option (List String)
first_allowlist [] = none
first_allowlist (k ∷ ks) = elim (k.tool_not_in) [
  | some names ↦ some names
  | none ↦ first_allowlist ks
]

abbrev pub or_else {ℓ} : {A : Type ℓ} → Option A → A → A
or_else none d = d
or_else (some a) d = a

-- The last list of `tool_name_in`, and the last bound of `numeric_gte`.
abbrev pub last_tools : List String → List Keys → List String
last_tools tools [] = tools
last_tools tools (k ∷ ks) = last_tools (or_else (k.tool_name_in) tools) ks

abbrev pub last_threshold : Option ℤ → List Keys → Option ℤ
last_threshold threshold [] = threshold
last_threshold threshold (k ∷ ks) = elim (k.numeric_gte) [
  | some n ↦ last_threshold (some n) ks
  | none ↦ last_threshold threshold ks
]

abbrev pub all_verbs : Casing → List Keys → List (List ℕ)
all_verbs u [] = []
all_verbs u (k ∷ ks) =
    map (λ (v : String). upper u (codes v)) (or_else (k.sql_verb_in) []) ++ all_verbs u ks

abbrev pub all_patterns : List Keys → List String
all_patterns [] = []
all_patterns (k ∷ ks) = or_else (k.shell_pattern_in) [] ++ all_patterns ks

pub record ToolCallsDetector : Type 0 where
  pub allowlist : Option (List String)
  pub high_value_tools : List String
  pub high_value_threshold : Option ℤ
  pub sql_verbs : List (List ℕ)
  pub shell_pattern_names : List String

-- `ToolCallsDetector(policy)`
unfoldable pub detector_of : Casing → Policy → ToolCallsDetector
unfolding conditions_of upper
detector_of u policy = record {
  allowlist = first_allowlist (conditions_of policy "agent_tool_allowlist");
  high_value_tools = last_tools [] (conditions_of policy "high_value_transfer");
  high_value_threshold = last_threshold none (conditions_of policy "high_value_transfer");
  sql_verbs = all_verbs u (conditions_of policy "deny_destructive_sql");
  shell_pattern_names = all_patterns (conditions_of policy "deny_shell_deletion");
}
