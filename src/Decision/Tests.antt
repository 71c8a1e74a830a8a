-- ===== src/Decision/Tests.antt =====
-- Tests of app/decision.py on a small policy.
use real_guard_v.Prelude.{
  ◌≡◌, refl, false, some, none, [], ◌∷◌, ◌++◌, inl, inr, eq_iff, arith, ◌&&◌, ◌||◌, not, any, all,
  mem, str_eq,
}
use real_guard_v.Json.{null, obj, end}
use real_guard_v.Errors.{ok}
use real_guard_v.Text.{Casing, codes}
use real_guard_v.Schemas.{allow, deny, is_deny, unchanged, redact}
use real_guard_v.Detectors.{
  input, context, Finding, high_confidence, prompt_injection, pii_detected,
}
use real_guard_v.Policy.{Keys, condition, absent, Rule, Policy}
use real_guard_v.Decision.Commands.{matches_shell_pattern, has_sql_verb, is_unbounded_mutation}
use real_guard_v.Decision.Conditions.{DecisionContext, eval_keys}
use real_guard_v.Decision.Evaluate.{Facts, Decision, evaluate_policy, context_of}
use real_guard_v.Decision.Precedence.{
  strongest, is_need, fires_with, wins, verdict-strongest, reason_codes-mem, evaluate-SameRules,
}
use real_guard_v.Decision.Bands.{is_of, reaches, stays_below, eval-band}
use real_guard_v.Decision.Evasion.{matches-Blanks, commented-same}
use real_guard_v.Decision.Combine.{combine_decisions, combine-strongest, any_verdict}

abbrev pub casing : Casing
casing = record { upper_other = λ c. c ∷ []; lower_other = λ c. c ∷ [] }

abbrev pub no_keys : Keys
no_keys = record {
  category = none;
  score_gte = none;
  score_lt = none;
  bytes_gt = none;
  tool_name_in = none;
  tool_not_in = none;
  argument_path = none;
  numeric_gte = none;
  numeric_lt = none;
  sql_verb_in = none;
  sql_unbounded_mutation = none;
  shell_pattern_in = none;
}

abbrev injection_band : Keys
injection_band = record no_keys {
  category = some "PROMPT_INJECTION";
  score_gte = some 5000;
  score_lt = some 8500;
}

abbrev deny_injection : Rule
deny_injection = record {
  id = "deny_prompt_injection";
  plane = input ∷ context ∷ [];
  condition_of = some (
      condition absent absent
        (record no_keys { category = some "PROMPT_INJECTION"; score_gte = some 8500 }));
  rate_limit = none;
  verdict = deny;
  transformation = unchanged;
  reason_code = "PROMPT_INJECTION";
}

abbrev redact_pii : Rule
redact_pii = record {
  id = "redact_pii";
  plane = input ∷ [];
  condition_of = some (condition absent absent (record no_keys { category = some "PII_DETECTED" }));
  rate_limit = none;
  verdict = allow;
  transformation = redact;
  reason_code = "PII_DETECTED";
}

abbrev policy : Policy
policy = record { rules = deny_injection ∷ redact_pii ∷ []; policy_version = "v" }

abbrev reversed : Policy
reversed = record { rules = redact_pii ∷ deny_injection ∷ []; policy_version = "v" }

abbrev found : Finding
found = record {
  detector_id = "prompt_injection";
  detector_version = "1";
  category = prompt_injection;
  score = 7000;
  confidence = high_confidence;
  evidence = [];
  safe_metadata = null;
}

abbrev leaked : Finding
leaked = record found { category = pii_detected; score = 9500 }

abbrev facts : Facts
facts = record {
  findings_by_plane = λ p. found ∷ leaked ∷ [];
  byte_count = 10;
  tool_name = none;
  tool_arguments = obj end;
}

verdict-strongest_example :
    (evaluate_policy casing policy facts false).verdict
    ≡ strongest
        (fires_with casing policy facts is_deny policy.rules)
        (fires_with casing policy facts is_need policy.rules)
verdict-strongest_example = verdict-strongest casing policy facts false

reason_codes-mem_example :
    let d = evaluate_policy casing policy facts false in
    mem "PII_DETECTED" d.reason_codes
    ≡ any
        (λ (r : Rule). wins casing policy facts d.verdict r && str_eq "PII_DETECTED" r.reason_code)
        policy.rules
reason_codes-mem_example =
    reason_codes-mem casing policy facts false "PII_DETECTED"
      (((λ e. absurd (ground (arith, eq_iff "redact_pii" "deny_prompt_injection"))), tt), (tt, tt))

evaluate-SameRules_example :
    let d = evaluate_policy casing policy facts false in
    let e = evaluate_policy casing reversed facts false in
    (d.verdict ≡ e.verdict) × (d.transformation ≡ e.transformation)
evaluate-SameRules_example =
    evaluate-SameRules casing policy reversed facts false
      ((inr (inl refl), (inl refl, tt)), (inr (inl refl), (inl refl, tt)))

abbrev in_input : DecisionContext
in_input = context_of facts input

eval-band_example : eval_keys casing injection_band in_input ≡ (
    any
      (λ (f : Finding). is_of "PROMPT_INJECTION" f && reaches injection_band f.score)
      in_input.findings
    && all
        (λ (f : Finding). not (is_of "PROMPT_INJECTION" f) || stays_below injection_band f.score)
        in_input.findings)
eval-band_example =
    eval-band casing injection_band "PROMPT_INJECTION" in_input refl
      (λ e. absurd (ground (arith, eq_iff "PROMPT_INJECTION" "DETECTOR_TIMEOUT")))

-- "sudo rm", two blanks, "-rf /"
matches-Blanks_example :
    matches_shell_pattern casing
      (codes "sudo rm" ++ (32 ∷ (9 ∷ [] ++ codes "-rf /")))
      ("recursive_force_remove" ∷ [])
    ≡ matches_shell_pattern casing
        (codes "sudo rm" ++ (32 ∷ codes "-rf /"))
        ("recursive_force_remove" ∷ [])
matches-Blanks_example =
    matches-Blanks casing (codes "sudo rm") (codes "-rf /") 32 (9 ∷ [])
      ("recursive_force_remove" ∷ []) (refl, (refl, tt))

commented-same_example :
    (has_sql_verb casing ("DROP" ∷ []) (codes "--" ++ (codes " x" ++ (10 ∷ codes "DROP TABLE t")))
      ≡ has_sql_verb casing ("DROP" ∷ []) (codes "DROP TABLE t"))
    × (is_unbounded_mutation casing (codes "--" ++ (codes " x" ++ (10 ∷ codes "DROP TABLE t")))
        ≡ is_unbounded_mutation casing (codes "DROP TABLE t"))
commented-same_example =
    commented-same casing ("DROP" ∷ []) (codes " x") (codes "DROP TABLE t") (refl, (refl, tt))

abbrev allowed : Decision
allowed = record {
  verdict = allow;
  transformation = redact;
  reason_codes = "PII_DETECTED" ∷ [];
  policy_hits = [];
  policy_version = "v";
  degraded = false;
}

abbrev refused : Decision
refused = record allowed {
  verdict = deny;
  transformation = unchanged;
  reason_codes = "SECRET_DETECTED" ∷ [];
}

combine-strongest_example :
    (c : Decision) × (combine_decisions (allowed ∷ refused ∷ []) ≡ ok c)
    × (c.verdict
        ≡ strongest
            (any_verdict is_deny (allowed ∷ refused ∷ []))
            (any_verdict is_need (allowed ∷ refused ∷ [])))
    × (c.degraded ≡ any (λ (e : Decision). e.degraded) (allowed ∷ refused ∷ []))
combine-strongest_example = combine-strongest allowed (refused ∷ [])
