-- ===== src/Decision/Evaluate.antt =====
-- `evaluate_policy`, `_reason_code_for_rule` and `combine_decisions` of app/decision.py.
use real_guard_v.Prelude.{
  ℕ, String, Bool, true, false, Option, none, some, List, [], ◌∷◌, ◌++◌, map, any, filter, ltb,
  ◌==◌, if◌then◌else◌, str_eq, mem, sorted_set, is_some,
}
use real_guard_v.Json.{Json}
use real_guard_v.Text.{Casing}
use real_guard_v.Schemas.{
  Verdict, allow, deny, need_approval, is_deny, Transformation, unchanged, redact, mask, sanitize,
  rewrite, truncate,
}
use real_guard_v.Detectors.{Finding, Plane, value}
use real_guard_v.Policy.{Condition, Rule, Policy}
use real_guard_v.Decision.Conditions.{DecisionContext, eval_condition, rule_categories}

pub record PolicyHit : Type 0 where
  pub rule_id : String
  pub verdict : Verdict
  pub transformation : Transformation
  pub matched_categories : List String
  pub rule_version : String

pub record Decision : Type 0 where
  pub verdict : Verdict
  pub transformation : Transformation
  pub reason_codes : List String
  pub policy_hits : List PolicyHit
  pub policy_version : String
  pub degraded : Bool

-- `_VERDICT_RANK`
abbrev pub rank : Verdict → ℕ
rank deny = 2
rank need_approval = 1
rank allow = 0

-- What a request shows to the policy.
pub record Facts : Type 0 where
  pub findings_by_plane : Plane → List Finding
  pub byte_count : ℕ
  pub tool_name : Option String
  pub tool_arguments : Json

abbrev pub context_of : Facts → Plane → DecisionContext
context_of w p = record {
  findings = w.findings_by_plane p;
  byte_count = w.byte_count;
  tool_name = w.tool_name;
  tool_arguments = w.tool_arguments;
}

-- The loop over the planes of a rule: whether one matched, and the categories seen there.
unfoldable pub match_planes : Casing → Condition → Facts → List Plane → Bool × List String
unfolding eval_condition rule_categories
match_planes u c w [] = (false, [])
match_planes u c w (p ∷ planes) =
    let (matched, cats) = match_planes u c w planes in
    let found = map (λ (f : Finding). value f.category) (w.findings_by_plane p) in
    if eval_condition u c (context_of w p)
    then (true, filter (λ k. mem k found) (rule_categories c) ++ cats)
    else (matched, cats)

abbrev pub hit_of : Policy → Rule → Bool × List String → Option PolicyHit
hit_of policy r (false, cats) = none
hit_of policy r (true, cats) = some (record {
  rule_id = r.id;
  verdict = r.verdict;
  transformation = r.transformation;
  matched_categories = sorted_set cats;
  rule_version = policy.policy_version;
})

-- One round of the loop over the rules.
unfoldable pub rule_hit : Casing → Policy → Facts → Rule → Option PolicyHit
unfolding match_planes
rule_hit u policy w r = if is_some r.rate_limit then none else elim (r.condition_of) [
  | none ↦ none
  | some c ↦ hit_of policy r (match_planes u c w r.plane)
]

unfoldable pub collect_hits : Casing → Policy → Facts → List Rule → List PolicyHit
unfolding rule_hit
collect_hits u policy w [] = []
collect_hits u policy w (r ∷ rules) =
    let rest = collect_hits u policy w rules in
    elim (rule_hit u policy w r) [ none ↦ rest | some hit ↦ hit ∷ rest ]

unfoldable pub final_verdict : Verdict → List Verdict → Verdict
final_verdict best [] = best
final_verdict best (v ∷ vs) = final_verdict (if ltb (rank best) (rank v) then v else best) vs

abbrev pub verdicts : List PolicyHit → List Verdict
verdicts hits = map (λ (h : PolicyHit). h.verdict) hits

abbrev pub same_verdict : Verdict → Verdict → Bool
same_verdict v w = rank v == rank w

-- The index of a transformation in `_TRANSFORMATION_ORDER`, from 1; 0 is "NONE".
abbrev pub order : Transformation → ℕ
order unchanged = 0
order truncate = 1
order sanitize = 2
order rewrite = 3
order redact = 4
order mask = 5

abbrev pub has : Transformation → List Transformation → Bool
has t ts = any (λ s. order t == order s) ts

-- The loop over `_TRANSFORMATION_ORDER`: the last that is applicable.
unfoldable pub last_applicable : List Transformation → Transformation
last_applicable ts =
    if has mask ts
    then mask
    else if has redact ts
    then redact
    else if has rewrite ts
    then rewrite
    else if has sanitize ts
    then sanitize
    else if has truncate ts
    then truncate
    else unchanged

unfoldable pub reason_code_for_rule : List Rule → String → String
reason_code_for_rule [] rule_id = "SCHEMA_VIOLATION"
reason_code_for_rule (r ∷ rules) rule_id =
    let rest = reason_code_for_rule rules rule_id in
    if str_eq r.id rule_id then r.reason_code else rest

abbrev pub winning : Verdict → List PolicyHit → List PolicyHit
winning v hits = filter (λ (h : PolicyHit). same_verdict h.verdict v) hits

unfoldable pub decide_hits : Policy → List PolicyHit → Bool → Decision
unfolding final_verdict last_applicable reason_code_for_rule
decide_hits policy hits degraded =
    let v = final_verdict allow (verdicts hits) in
    let winners = winning v hits in
    record {
      verdict = v;
      transformation =
          if is_deny v
          then unchanged
          else last_applicable (map (λ (h : PolicyHit). h.transformation) winners);
      reason_codes =
          sorted_set (map (λ (h : PolicyHit). reason_code_for_rule policy.rules h.rule_id) winners);
      policy_hits = hits;
      policy_version = policy.policy_version;
      degraded = degraded;
    }

unfoldable pub evaluate_policy : Casing → Policy → Facts → Bool → Decision
unfolding collect_hits decide_hits
evaluate_policy u policy w degraded =
    decide_hits policy (collect_hits u policy w policy.rules) degraded
